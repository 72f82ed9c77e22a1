-- ===== src/Membership/Rosters.antt =====
-- The members behind an operation of crates/pmd/src/daemon/membership.rs, as a function of those before it.
use pmd.Prelude.{
  ℕ, ◌<◌, ◌^◌, String, ◌≡◌, ◌≢◌, false, none, some, ◌==◌, eq_iff, eq_refl, Bool-cases, inl, inr,
  arith, if◌then◌else◌,
}
use mathlib.Core.Path.{subst}
use pmd.Prelude.Maps.{Map, lookup, Distinct}
use pmd.Platform.{Platform, IsSegment}
use pmd.Membership.{Membership, NodeInfo, members, add_node, remove_node, node_services}
use pmd.Membership.Views.{find_node}
use pmd.Membership.Nodes.{
  add_node-members_self, add_node-members_ne, remove_node-members_self, remove_node-members_ne,
}

-- Two texts that do not pass the test differ.
differ : (a b : String) → (a == b) ≡ false → a ≢ b
differ a b h e = ground (arith, h, e, eq_refl b)

module _ (P : Platform) where
  open P use {Addr}

  -- The members after a removal are those before it without the removed node, whose id is one path
  -- segment; the others have their services still.
  pub remove_node-members :
      (m : Membership P) (id j : String)
      → IsSegment id
      → find_node P j (members P (remove_node P id m))
        ≡ (if id == j then none else find_node P j (members P m))
  remove_node-members m id j seg = elim (Bool-cases (id == j)) [
    | inl same ↦ rw same (
        subst (λ k. find_node P k (members P (remove_node P id m)) ≡ none) ((eq_iff id j).0 same)
          (remove_node-members_self P m id seg))
    | inr other ↦ rw other (remove_node-members_ne P m id j seg (differ id j other))
  ]

  -- The members after an addition are those before it, but for the added node, whose id is one path
  -- segment: it is a member with its address, its metadata key by key, the time of the call, and the
  -- services that it had, if the time has 64 bits and no key stands twice in the metadata.
  pub add_node-members :
      (m : Membership P) (now : ℕ) (id : String) (a : Addr) (md : Map String)
      → IsSegment id
      → now < 2 ^ 64
      → Distinct md
      → (n : NodeInfo P) × ((j : String)
          → find_node P j (members P (add_node P now id a md m))
            ≡ (if id == j then some n else find_node P j (members P m)))
        × (n.addr ≡ a)
        × (n.joined_at ≡ now)
        × ((k : String) → lookup k n.metadata ≡ lookup k md)
        × (n.services ≡ node_services P m id)
  add_node-members m now id a md seg fits distinct =
      let (n, found, addr, joined, metadata, services) =
        add_node-members_self P m now id a md seg fits distinct in
      let everyone : (j : String)
          → find_node P j (members P (add_node P now id a md m))
            ≡ (if id == j then some n else find_node P j (members P m)) =
        λ j. elim (Bool-cases (id == j)) [
          | inl same ↦ rw same (
              subst (λ k. find_node P k (members P (add_node P now id a md m)) ≡ some n)
                ((eq_iff id j).0 same) found)
          | inr other ↦ rw other (add_node-members_ne P m now id j a md seg (differ id j other))
        ] in
      (n, everyone, addr, joined, metadata, services)
