-- ===== src/Membership/Merge.antt =====
-- `merge_remote` and the deltas of crates/pmd/src/daemon/membership.rs: what is
-- reported, and what a delta that arrives again does.
use mathlib.Core.Path.{fun_ext}
use pmd.Prelude.{
  ℕ, String, ◌≡◌, refl, Option, none, some, List, [], ◌∷◌, arith, filter_map, if◌then◌else◌,
}
use pmd.Prelude.Maps.{Map, lookup, contains_key, Distinct}
use pmd.Platform.{Json, Platform, get}
use pmd.Protocol.{node_joined, node_left}
use pmd.Membership.{
  Membership, MembershipChange, ◌>>=◌, or_empty, object_at, member_entry, member_ids, node_services,
  node_info, members, diff_members, delta_for_peer, merge_remote,
}
use pmd.Membership.Views.{Distinct-or_empty}
use pmd.Membership.Changes.{reports, to_list, diff_members-reports, diff_members_self}

module _ (J : Json) where
  absent-member_entry :
      (k : String) (m : Map J.Value)
      → lookup k m ≡ none
      → lookup k (filter_map (member_entry J) m) ≡ none
  unfolding member_entry
  absent-member_entry k [] h = refl
  absent-member_entry k ((j, v) ∷ m) h = ground (arith, absent-member_entry k m)

  Distinct-member_entry : (m : Map J.Value) → Distinct m → Distinct (filter_map (member_entry J) m)
  unfolding member_entry
  Distinct-member_entry [] d = tt
  Distinct-member_entry ((j, v) ∷ m) d =
      ground (arith, d.0, absent-member_entry j m, Distinct-member_entry m d.1)

module _ (P : Platform) where
  open P use {
    Delta, Vv, json, materialize, as_object, merge_delta, delta_since, encode, decode,
    decode-encode, Same-materialize, merge_delta_idem, merge_delta_comm, vv_new,
  }

  member_ids-Distinct : (m : Membership P) → Distinct (member_ids P m)
  unfolding member_ids object_at
  member_ids-Distinct m =
      Distinct-member_entry json (or_empty (get json "nodes" (materialize m.doc) >>= as_object))
        (Distinct-or_empty P (get json "nodes" (materialize m.doc)))

  node_services-materialize :
      (m n : Membership P) (id : String)
      → materialize m.doc ≡ materialize n.doc
      → node_services P m id ≡ node_services P n id
  unfolding node_services
  node_services-materialize m n id e = rw e

  node_info-materialize :
      (m n : Membership P)
      → materialize m.doc ≡ materialize n.doc
      → (entry : String × json.Value) → node_info P m entry ≡ node_info P n entry
  unfolding node_info
  node_info-materialize m n e (id, val) = rw (node_services-materialize m n id e)

  -- The lists of members depend on what the document materializes to, and on nothing else.
  pub members-cong :
      (m n : Membership P)
      → materialize m.doc ≡ materialize n.doc
      → (members P m ≡ members P n) × (member_ids P m ≡ member_ids P n)
  unfolding members member_ids
  members-cong m n e = (rw (fun_ext (node_info-materialize m n e), e), rw e)

  abbrev pub merged : Membership P → Delta → Membership P
  merged m δ = record m { doc = merge_delta m.doc δ }

  -- What a replica sends to a peer, whichever version vector it has of it, the peer can merge:
  -- the peer then holds its document with that delta merged, and reports the comparison of its
  -- members before and after.
  pub merge_remote-delta_for_peer :
      (sender receiver : Membership P) (vv : Vv)
      → merge_remote P (delta_for_peer P vv sender) receiver
        ≡ some (
          diff_members
              (member_ids P receiver)
              (member_ids P (merged receiver (delta_since sender.doc vv))),
          merged receiver (delta_since sender.doc vv),
        )
  unfolding merge_remote delta_for_peer
  merge_remote-delta_for_peer sender receiver vv =
      rw (decode-encode (delta_since sender.doc vv), ◌>>=◌)

  -- A merge reports exactly what it changes among the members: for every node one join if it is a
  -- member afterwards and was none before, one departure if it was a member and is none afterwards,
  -- and nothing else.
  pub merge_remote-reports :
      (m m' : Membership P) (bytes : List ℕ) (changes : List MembershipChange) (k : String)
      → merge_remote P bytes m ≡ some (changes, m')
      → (reports node_joined k changes
          ≡ (if contains_key k (member_ids P m) then [] else to_list (lookup k (member_ids P m'))))
        × (reports node_left k changes ≡ (
            if contains_key k (member_ids P m') then [] else to_list (lookup k (member_ids P m))))
  unfolding merge_remote
  merge_remote-reports m m' bytes changes k h = go (decode bytes) refl
    where
      go :
          (o : Option Delta)
          → decode bytes ≡ o
          → (reports node_joined k changes ≡ (
              if contains_key k (member_ids P m) then [] else to_list (lookup k (member_ids P m'))))
            × (reports node_left k changes ≡ (
                if contains_key k (member_ids P m')
                then []
                else to_list (lookup k (member_ids P m))))
      go none e = absurd (ground (arith, e))
      go (some δ) e =
          let same : m' ≡ merged m δ = ground (arith, e) in
          let listed : changes ≡ diff_members (member_ids P m) (member_ids P (merged m δ)) =
            ground (arith, e) in
          rw (same, listed)
            (diff_members-reports (member_ids P m) (member_ids P (merged m δ)) k
              (member_ids-Distinct m) (member_ids-Distinct (merged m δ)))

  -- A delta that was merged can arrive again: the second merge succeeds, reports nothing, and leaves
  -- the members as they are.
  merge_remote-twice :
      (m m' : Membership P) (bytes : List ℕ) (changes : List MembershipChange)
      → merge_remote P bytes m ≡ some (changes, m')
      → (m'' : Membership P) × (merge_remote P bytes m' ≡ some ([], m''))
        × (members P m'' ≡ members P m')
  unfolding merge_remote
  merge_remote-twice m m' bytes changes h = go (decode bytes) refl
    where
      go :
          (o : Option Delta)
          → decode bytes ≡ o
          → (m'' : Membership P) × (merge_remote P bytes m' ≡ some ([], m''))
            × (members P m'' ≡ members P m')
      go none e = absurd (ground (arith, e))
      go (some δ) e =
          let same : m' ≡ merged m δ = ground (arith, e) in
          let settled : materialize (merged (merged m δ) δ).doc ≡ materialize (merged m δ).doc =
            Same-materialize _ _ (merge_delta_idem m.doc δ) in
          let cong = members-cong (merged (merged m δ) δ) (merged m δ) settled in
          (
            merged m' δ,
            rw (same, e, cong.1, diff_members_self (member_ids P (merged m δ))),
            rw same cong.0,
          )
