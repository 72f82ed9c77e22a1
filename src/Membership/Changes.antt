-- ===== src/Membership/Changes.antt =====
-- `diff_members` of crates/pmd/src/daemon/membership.rs against what it has to report.
use mathlib.Core.List.{append-nil}
use pmd.Prelude.{
  eq_refl, String, ◌≡◌, refl, Bool, true, false, ◌&&◌, Option, none, some, List, [], ◌∷◌, ◌++◌,
  arith, filter_map, ◌==◌, eq_iff, if◌then◌else◌,
}
use pmd.Prelude.Maps.{Map, lookup, contains_key, Distinct}
use pmd.Protocol.{MembershipEvent, node_joined, node_left}
use pmd.Membership.{MembershipChange, changed, diff_members}

abbrev pub same_event : MembershipEvent → MembershipEvent → Bool
same_event node_joined node_joined = true
same_event node_left node_left = true
same_event _ _ = false

-- The addresses of the changes of one kind for one node, in their order.
abbrev pub reports : MembershipEvent → String → List MembershipChange → List String
reports event k [] = []
reports event k (c ∷ cs) =
    let rest = reports event k cs in
    if same_event c.event event && c.node_id == k then c.addr ∷ rest else rest

abbrev pub to_list {ℓ} : {A : Type ℓ} → Option A → List A
to_list none = []
to_list (some a) = a ∷ []

reports-append :
    (e : MembershipEvent) (k : String) (cs ds : List MembershipChange)
    → reports e k (cs ++ ds) ≡ reports e k cs ++ reports e k ds
reports-append e k [] ds = refl
reports-append e k (c ∷ cs) ds = ground (arith, reports-append e k cs ds)

reports-absent :
    (e : MembershipEvent) (k : String) (other m : Map String)
    → lookup k m ≡ none
    → reports e k (filter_map (changed e other) m) ≡ []
unfolding changed
reports-absent e k other [] h = refl
reports-absent e k other ((j, a) ∷ m) h = ground (arith, eq_iff j k, reports-absent e k other m)

reports-changed :
    (e : MembershipEvent) (k : String) (other m : Map String)
    → Distinct m
    → reports e k (filter_map (changed e other) m)
      ≡ (if contains_key k other then [] else to_list (lookup k m))
unfolding changed
reports-changed e k other [] d = ground arith
reports-changed node_joined k other ((j, a) ∷ m) d =
    ground (arith, eq_iff j k, d.0, reports-changed node_joined k other m d.1)
reports-changed node_left k other ((j, a) ∷ m) d =
    ground (arith, eq_iff j k, d.0, reports-changed node_left k other m d.1)

reports_other_kind :
    (k : String) (other m : Map String)
    → (reports node_joined k (filter_map (changed node_left other) m) ≡ [])
      × (reports node_left k (filter_map (changed node_joined other) m) ≡ [])
unfolding changed
reports_other_kind k other [] = (refl, refl)
reports_other_kind k other ((j, a) ∷ m) = ground (arith, reports_other_kind k other m)

-- For every node the comparison of two membership maps, with distinct keys each, reports one
-- join, with the new address, if the node stands in the second map only, one departure, with the
-- old address, if it stands in the first only, and nothing else.
pub diff_members-reports :
    (before after : Map String) (k : String)
    → Distinct before
    → Distinct after
    → (reports node_joined k (diff_members before after)
        ≡ (if contains_key k before then [] else to_list (lookup k after)))
      × (reports node_left k (diff_members before after)
          ≡ (if contains_key k after then [] else to_list (lookup k before)))
unfolding diff_members
diff_members-reports before after k db da = (
  rw (
    reports-append node_joined k (filter_map (changed node_joined before) after) _,
    reports-changed node_joined k before after da,
    (reports_other_kind k after before).0,
    append-nil,
  ),
  rw (
    reports-append node_left k (filter_map (changed node_joined before) after) _,
    reports-changed node_left k after before db,
    (reports_other_kind k before after).1,
  ),
)

kept-nothing :
    (e : MembershipEvent) (other m : Map String)
    → ((k : String) → contains_key k m ≡ true → contains_key k other ≡ true)
    → filter_map (changed e other) m ≡ []
unfolding changed
kept-nothing e other [] has = refl
kept-nothing e other ((j, a) ∷ m) has =
    ground (arith, has j, eq_refl j, kept-nothing e other m (λ k h. has k (ground arith)))

-- Nothing is reported between a map and itself.
pub diff_members_self : (m : Map String) → diff_members m m ≡ []
unfolding diff_members
diff_members_self m =
    rw (kept-nothing node_joined m m (λ k h. h), kept-nothing node_left m m (λ k h. h))
