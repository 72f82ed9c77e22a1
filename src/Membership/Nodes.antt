-- ===== src/Membership/Nodes.antt =====
-- `add_node` and `remove_node` of crates/pmd/src/daemon/membership.rs, as `members` shows them.
use pmd.Prelude.{
  ℕ, ◌<◌, ◌^◌, String, ◌≡◌, ◌≢◌, refl, ◌∙◌, ap, none, some, List, [], ◌∷◌, arith, ◌==◌, eq_iff,
  eq_refl, if◌then◌else◌,
}
use pmd.Prelude.Maps.{Map, lookup, Distinct}
use pmd.Platform.{Platform, get, and_get, node_at, services_of, node_path, IsSegment}
use pmd.Membership.{
  Membership, NodeInfo, ServiceInfo, metadata_json, parse_metadata, is_dead, tombstone, node_json,
  node_services, node_addr, node_info, members, add_node, remove_node, bury_services,
}
use pmd.Membership.Views.{
  get-object, parse_metadata-json, is_dead-tombstone, find_node, node_services_cong,
  find_node-members, find_node-members_cong,
}

module _ (P : Platform) where
  open P use {
    Addr, Value, json, materialize, number, string, as_str, as_u64, as_str-string, as_u64-number,
    addr_to_string, addr_parse-to_string, node_at-set_node, services-set_node, nodes-set_service,
    services_of-set_service_ne,
  }

  node_info-node_json :
      (m : Membership P) (now : ℕ) (id : String) (a : Addr) (md : Map String)
      → now < 2 ^ 64
      → node_info P m (id, node_json P now a md)
        ≡ some (record {
          node_id = id;
          addr = a;
          metadata = parse_metadata json (some (metadata_json json md));
          joined_at = now;
          services = node_services P m id;
        })
  unfolding node_info is_dead node_addr node_json
  node_info-node_json m now id a md fits =
      let fields : Map Value =
        ("addr", string (addr_to_string a))
        ∷ ("metadata", metadata_json json md)
        ∷ ("joined_at", number now)
        ∷ [] in
      let read = λ (k : String). get-object json k fields (refl, (refl, (refl, tt))) in
      ground (
        arith,
        read "status",
        read "addr",
        read "metadata",
        read "joined_at",
        as_str-string (addr_to_string a),
        addr_parse-to_string a,
        as_u64-number now fits,
      )

  node_at-add_node :
      (m : Membership P) (now : ℕ) (id j : String) (a : Addr) (md : Map String)
      → IsSegment id
      → node_at json (materialize (add_node P now id a md m).doc) j
        ≡ (if id == j then some (node_json P now a md) else node_at json (materialize m.doc) j)
  unfolding add_node
  node_at-add_node m now id j a md seg = node_at-set_node m.doc id j (node_json P now a md) seg

  services_of-add_node :
      (m : Membership P) (now : ℕ) (id j : String) (a : Addr) (md : Map String)
      → services_of json (materialize (add_node P now id a md m).doc) j
        ≡ services_of json (materialize m.doc) j
  unfolding add_node
  services_of-add_node m now id j a md =
      ap (and_get json j) (services-set_node m.doc id (node_json P now a md))

  -- A node that was added is a member, with its address, its metadata key by key, the time of
  -- the call, and the services that it had, if its id is one path segment, the time has 64
  -- bits, and no key stands twice in the metadata.
  pub add_node-members_self :
      (m : Membership P) (now : ℕ) (id : String) (a : Addr) (md : Map String)
      → IsSegment id
      → now < 2 ^ 64
      → Distinct md
      → (n : NodeInfo P) × (find_node P id (members P (add_node P now id a md m)) ≡ some n)
        × (n.addr ≡ a)
        × (n.joined_at ≡ now)
        × ((k : String) → lookup k n.metadata ≡ lookup k md)
        × (n.services ≡ node_services P m id)
  add_node-members_self m now id a md seg fits d =
      let m' = add_node P now id a md m in
      (
        record {
          node_id = id;
          addr = a;
          metadata = parse_metadata json (some (metadata_json json md));
          joined_at = now;
          services = node_services P m' id;
        },
        find_node-members P m' id
            ∙ (rw (node_at-add_node m now id id a md seg, eq_refl id)
                (node_info-node_json m' now id a md fits)),
        refl,
        refl,
        λ k. parse_metadata-json json md k d,
        node_services_cong P m' m id (services_of-add_node m now id id a md),
      )

  -- Adding a node, whose id is one path segment, leaves the other members, and their services,
  -- as they were.
  pub add_node-members_ne :
      (m : Membership P) (now : ℕ) (id j : String) (a : Addr) (md : Map String)
      → IsSegment id
      → id ≢ j
      → find_node P j (members P (add_node P now id a md m)) ≡ find_node P j (members P m)
  add_node-members_ne m now id j a md seg ne =
      find_node-members_cong P _ m j
        (ground (arith, eq_iff id j, node_at-add_node m now id j a md seg))
        (services_of-add_node m now id j a md)

  nodes-bury :
      (id : String) (svcs : List ServiceInfo) (m : Membership P)
      → get json "nodes" (materialize (bury_services P id svcs m).doc)
        ≡ get json "nodes" (materialize m.doc)
  unfolding bury_services
  nodes-bury id [] m = refl
  nodes-bury id (svc ∷ rest) m = nodes-bury id rest _ ∙ nodes-set_service m.doc id svc.name _

  services_of-bury :
      (id j : String) (svcs : List ServiceInfo) (m : Membership P)
      → IsSegment id
      → id ≢ j
      → services_of json (materialize (bury_services P id svcs m).doc) j
        ≡ services_of json (materialize m.doc) j
  unfolding bury_services
  services_of-bury id j [] m seg ne = refl
  services_of-bury id j (svc ∷ rest) m seg ne =
      services_of-bury id j rest _ seg ne ∙ services_of-set_service_ne m.doc id svc.name j _ seg ne

  -- The state after the first write of `remove_node`.
  abbrev marked : Membership P → String → Membership P
  marked m id = record m { doc = P.doc_set m.doc (node_path id) (tombstone json) }

  pub node_at-remove_node :
      (m : Membership P) (id j : String)
      → IsSegment id
      → node_at json (materialize (remove_node P id m).doc) j
        ≡ (if id == j then some (tombstone json) else node_at json (materialize m.doc) j)
  unfolding remove_node
  node_at-remove_node m id j seg =
      ap (and_get json j) (nodes-bury id (node_services P (marked m id) id) (marked m id))
      ∙ node_at-set_node m.doc id j (tombstone json) seg

  services_of-remove_node :
      (m : Membership P) (id j : String)
      → IsSegment id
      → id ≢ j
      → services_of json (materialize (remove_node P id m).doc) j
        ≡ services_of json (materialize m.doc) j
  unfolding remove_node
  services_of-remove_node m id j seg ne =
      services_of-bury id j (node_services P (marked m id) id) (marked m id) seg ne
      ∙ ap (and_get json j) (services-set_node m.doc id (tombstone json))

  node_info-tombstone : (m : Membership P) (id : String) → node_info P m (id, tombstone json) ≡ none
  unfolding node_info
  node_info-tombstone m id = rw (is_dead-tombstone json)

  -- A removed node is no member, if its id is one path segment.
  pub remove_node-members_self :
      (m : Membership P) (id : String)
      → IsSegment id
      → find_node P id (members P (remove_node P id m)) ≡ none
  remove_node-members_self m id seg =
      find_node-members P (remove_node P id m) id
      ∙ (rw (node_at-remove_node m id id seg, eq_refl id) (node_info-tombstone _ id))

  -- The removal of a node, whose id is one path segment, leaves the other members, and their
  -- services, as they were.
  pub remove_node-members_ne :
      (m : Membership P) (id j : String)
      → IsSegment id
      → id ≢ j
      → find_node P j (members P (remove_node P id m)) ≡ find_node P j (members P m)
  remove_node-members_ne m id j seg ne =
      find_node-members_cong P _ m j (ground (arith, eq_iff id j, node_at-remove_node m id j seg))
        (services_of-remove_node m id j seg ne)

  node_id-bury_services :
      (id : String) (svcs : List ServiceInfo) (m : Membership P)
      → (bury_services P id svcs m).node_id ≡ m.node_id
  unfolding bury_services
  node_id-bury_services id [] m = refl
  node_id-bury_services id (svc ∷ svcs) m = node_id-bury_services id svcs _

  pub node_id-remove_node :
      (id : String) (m : Membership P) → (remove_node P id m).node_id ≡ m.node_id
  unfolding remove_node
  node_id-remove_node id m = node_id-bury_services id (node_services P _ id) _
