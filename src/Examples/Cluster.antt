-- ===== src/Examples/Cluster.antt =====
-- Members, services and merges at a concrete cluster.
use pmd.Prelude.{
  ℕ, String, ◌≡◌, ◌≢◌, refl, true, false, some, List, [], ◌∷◌, none, arith, ◌==◌, eq_refl,
  if◌then◌else◌,
}
use pmd.Prelude.Maps.{Map, lookup, Distinct}
use pmd.Platform.{IsSegment}
use pmd.Protocol.{node_joined, node_left}
use pmd.Membership.{
  unregister_service, object_at, node_info, member_entry, is_dead, node_json, node_addr,
  parse_metadata, metadata_json, Membership, MembershipChange, NodeInfo, Endpoint, new, add_node,
  remove_node, members, member_ids, node_services, register_service, lookup_service, diff_members,
  merge_remote,
}
use pmd.Membership.Views.{find_node}
use pmd.Membership.Changes.{reports}
use pmd.Membership.Rosters.{add_node-members, remove_node-members}
use pmd.Membership.Services.{find_endpoint, lookup_service-register, lookup_service-unregister}
use pmd.Membership.Merge.{merged, merge_remote-reports}
use pmd.Membership.Convergence.{Redelivered, keep, swap, again, deliver, deliver-members}
use pmd.Examples.Toy.{toy}

text_ne : (a b : String) → (a == b) ≡ false → a ≢ b
text_ne a b h e = ground (arith, h, e, eq_refl b)

pub alice-IsSegment : IsSegment "alice"
alice-IsSegment = (text_ne "alice" "" refl, refl)

pub bob-IsSegment : IsSegment "bob"
bob-IsSegment = (text_ne "bob" "" refl, refl)

pub web-IsSegment : IsSegment "web"
web-IsSegment = (text_ne "web" "" refl, refl)

pub alice-ne-bob : ◌≢◌ {A = String} "alice" "bob"
alice-ne-bob = text_ne "alice" "bob" refl

abbrev pub zone : Map String
zone = ("zone", "a") ∷ []

pub zone-Distinct : Distinct zone
zone-Distinct = (refl, tt)

-- One replica, with its own node and a second one.
abbrev pub alone : Membership toy
alone = add_node toy 5 "alice" "10.0.0.1:4369" zone (new toy "alice")

abbrev pub pair : Membership toy
pair = add_node toy 6 "bob" "10.0.0.2:4369" [] alone

abbrev pub alice_info : NodeInfo toy
alice_info = record {
  node_id = "alice";
  addr = "10.0.0.1:4369";
  metadata = zone;
  joined_at = 5;
  services = [];
}

pub alice_found : find_node toy "alice" (members toy alone) ≡ some alice_info
unfolding members add_node new object_at node_info is_dead node_json node_addr parse_metadata
    node_services metadata_json
alice_found = refl

add_node-members_example :
    (n : NodeInfo toy) × ((j : String)
      → find_node toy j (members toy (add_node toy 6 "bob" "10.0.0.2:4369" zone alone))
        ≡ (if "bob" == j then some n else find_node toy j (members toy alone)))
    × (n.addr ≡ "10.0.0.2:4369")
    × (n.joined_at ≡ 6)
    × ((k : String) → lookup k n.metadata ≡ lookup k zone)
    × (n.services ≡ node_services toy alone "bob")
add_node-members_example =
    add_node-members toy alone 6 "bob" "10.0.0.2:4369" zone bob-IsSegment (omega arith)
      zone-Distinct

remove_node-members_example :
    find_node toy "bob" (members toy (remove_node toy "alice" pair))
    ≡ find_node toy "bob" (members toy pair)
remove_node-members_example = remove_node-members toy pair "alice" "bob" alice-IsSegment

abbrev with_web : Membership toy
with_web = register_service toy "web" 8080 zone alone

lookup_service-register_example :
    (e : Endpoint toy) × (find_endpoint toy "alice" (lookup_service toy "web" with_web) ≡ some e)
    × (e.addr ≡ "10.0.0.1:4369")
    × (e.port ≡ 8080)
    × ((k : String) → lookup k e.metadata ≡ lookup k zone)
unfolding add_node new
lookup_service-register_example =
    lookup_service-register toy alone alice_info "web" 8080 zone alice-IsSegment web-IsSegment
      (omega arith) zone-Distinct alice_found

lookup_service-unregister_example :
    find_endpoint toy "alice" (
      lookup_service toy "web"
        (unregister_service toy "web" (register_service toy "web" 8080 zone alone)))
    ≡ none
unfolding add_node new
lookup_service-unregister_example =
    lookup_service-unregister toy alone "web" 8080 zone alice-IsSegment web-IsSegment

-- Deltas with one fact each: carol, and dave, who is dead.
abbrev pub carol_bytes : List ℕ
carol_bytes = 1 ∷ 0 ∷ []

abbrev dave_bytes : List ℕ
dave_bytes = 0 ∷ 1 ∷ []

abbrev pub carol_joined : List MembershipChange
carol_joined = record { event = node_joined; node_id = "carol"; addr = "10.0.0.3:4369" } ∷ []

abbrev pub with_carol : Membership toy
with_carol = merged toy alone (true, false)

pub carol_merged : merge_remote toy carol_bytes alone ≡ some (carol_joined, with_carol)
unfolding merge_remote member_ids add_node new diff_members object_at member_entry is_dead node_json
carol_merged = refl

merge_remote-reports_example :
    (reports node_joined "carol" carol_joined ≡ "10.0.0.3:4369" ∷ [])
    × (reports node_left "carol" carol_joined ≡ [])
unfolding member_ids add_node new object_at member_entry is_dead node_json
merge_remote-reports_example =
    merge_remote-reports toy alone with_carol carol_bytes carol_joined "carol" carol_merged

-- Carol's delta, then dave's; and dave's, then carol's twice.
both_merged :
    deliver toy (carol_bytes ∷ dave_bytes ∷ []) alone ≡ some (merged toy with_carol (false, true))
unfolding deliver merge_remote add_node new
both_merged = refl

other_order :
    Redelivered (carol_bytes ∷ dave_bytes ∷ []) (dave_bytes ∷ carol_bytes ∷ carol_bytes ∷ [])
other_order =
    Redelivered.then (swap carol_bytes dave_bytes []) (keep dave_bytes (again carol_bytes []))

deliver-members_example :
    (b : Membership toy) × (deliver toy (dave_bytes ∷ carol_bytes ∷ carol_bytes ∷ []) alone
      ≡ some b)
    × (members toy b ≡ members toy (merged toy with_carol (false, true)))
deliver-members_example =
    deliver-members toy alone (merged toy with_carol (false, true)) other_order both_merged
