-- ===== src/Membership/Services.antt =====
-- `register_service`, `unregister_service` and `lookup_service` of
-- crates/pmd/src/daemon/membership.rs.
use pmd.Prelude.{
  ℕ, ◌%◌, ◌<◌, ◌^◌, String, ◌≡◌, ◌≢◌, refl, sym, ◌∙◌, ap, ap₂, Option, none, some, List, [], ◌∷◌,
  arith, filter_map, ◌==◌, eq_refl, if◌then◌else◌,
}
use pmd.Prelude.Maps.{Map, lookup, Distinct, find_key, apply_at, find_key-filter_map}
use pmd.Platform.{Platform, get, and_get, node_at, services_of, service_at, IsSegment}
use pmd.Membership.{
  Membership, NodeInfo, Endpoint, ◌>>=◌, or_default, or_empty, object_at, metadata_json,
  parse_metadata, tombstone, node_addr, node_info, members, service_json, register_service,
  unregister_service, endpoint_entry, lookup_service, remove_node,
}
use pmd.Membership.Views.{
  get-object, parse_metadata-json, find_node, lookup-or_empty, Distinct-or_empty, find_node-members,
}
use pmd.Membership.Nodes.{node_at-remove_node}

module _ (P : Platform) where
  open P use {
    Addr, Value, json, materialize, number, string, as_object, as_u64, as_u64-number,
    nodes-set_service, services_of-set_service_ne, service_at-set_service, service_at-remove-set,
    nodes-remove_service,
  }

  abbrev pub find_endpoint : String → List (Endpoint P) → Option (Endpoint P)
  find_endpoint = find_key (λ e. e.node_id)

  -- The endpoint that an entry of the document's services and a node's value give together.
  pub endpoint_of : String → Value → Value → Option (Endpoint P)
  endpoint_of nid entry node = do
    addr ← node_addr P node
    some (record {
      node_id = nid;
      addr = addr;
      port = or_default (get json "port" entry >>= as_u64) 0 % 2 ^ 16;
      metadata = parse_metadata json (get json "metadata" entry);
    })

  abbrev pub endpoint_from : String → Option Value → Option Value → Option (Endpoint P)
  endpoint_from nid service node = do e ← service; n ← node; endpoint_of nid e n

  -- What a lookup finds on one node, read from the two places of the document.
  abbrev pub endpoint_at : Membership P → String → String → Option (Endpoint P)
  endpoint_at m name nid =
      endpoint_from nid (service_at json (materialize m.doc) nid name)
        (node_at json (materialize m.doc) nid)

  endpoint_entry-key :
      (name : String) (nodes : Map Value) (j : String) (v : Value) (w : Endpoint P)
      → endpoint_entry P name nodes (j, v) ≡ some w
      → w.node_id ≡ j
  unfolding endpoint_entry
  endpoint_entry-key name nodes j v w h = ground arith

  endpoint_entry-found :
      (name nid : String) (nodes : Map Value) (o : Option Value)
      → apply_at (endpoint_entry P name nodes) nid o
        ≡ endpoint_from nid (and_get json name o) (lookup nid nodes)
  unfolding endpoint_entry endpoint_of
  endpoint_entry-found name nid nodes none = refl
  endpoint_entry-found name nid nodes (some v) = ground arith

  lookup_in :
      (name nid : String) (s n : Option (Map Value))
      → Distinct (or_empty s)
      → find_endpoint nid (
          or_default
            (do services ← s; nodes ← n; some (filter_map (endpoint_entry P name nodes) services))
            [])
        ≡ endpoint_from nid (and_get json name (lookup nid (or_empty s))) (lookup nid (or_empty n))
  lookup_in name nid none n d = refl
  lookup_in name nid (some s) none d = ground arith
  lookup_in name nid (some s) (some n) d =
      find_key-filter_map (λ e. e.node_id) (endpoint_entry P name n) (endpoint_entry-key name n) nid
        s d
      ∙ endpoint_entry-found name nid n (lookup nid s)

  -- `lookup_service` gives for a node the endpoint that stands in the document for it, if the node
  -- has the service and an address, and else nothing.
  pub find_endpoint-lookup_service :
      (m : Membership P) (name nid : String)
      → find_endpoint nid (lookup_service P name m) ≡ endpoint_at m name nid
  unfolding lookup_service object_at
  find_endpoint-lookup_service m name nid =
      let services = get json "services" (materialize m.doc) in
      let nodes = get json "nodes" (materialize m.doc) in
      lookup_in name nid (services >>= as_object) (nodes >>= as_object)
        (Distinct-or_empty P services)
      ∙ (rw (lookup-or_empty P nid services, lookup-or_empty P nid nodes))

  service_json-endpoint :
      (nid : String) (port : ℕ) (md : Map String) (node : Value) (a : Addr)
      → port < 2 ^ 16
      → node_addr P node ≡ some a
      → endpoint_of nid (service_json P port md) node
        ≡ some (record {
          node_id = nid;
          addr = a;
          port = port;
          metadata = parse_metadata json (some (metadata_json json md));
        })
  unfolding endpoint_of service_json
  service_json-endpoint nid port md node a fits h =
      let fields : Map Value = ("port", number port) ∷ ("metadata", metadata_json json md) ∷ [] in
      let read = λ (k : String). get-object json k fields (refl, (refl, tt)) in
      ground (arith, h, read "port", read "metadata", as_u64-number port)

  -- The value that the document holds for a member has the member's address.
  member-node_at :
      (m : Membership P) (id : String) (n : NodeInfo P)
      → find_node P id (members P m) ≡ some n
      → (v : Value) × (node_at json (materialize m.doc) id ≡ some v) × (node_addr P v ≡ some n.addr)
  unfolding node_info
  member-node_at m id n h =
      go (node_at json (materialize m.doc) id) (sym (find_node-members P m id) ∙ h)
    where
      go :
          (o : Option Value)
          → apply_at (node_info P m) id o ≡ some n
          → (v : Value) × (o ≡ some v) × (node_addr P v ≡ some n.addr)
      go none e = cc
      go (some v) e = (v, refl, ground arith)

  node_at-register :
      (m : Membership P) (nid name : String) (port : ℕ) (md : Map String)
      → node_at json (materialize (register_service P name port md m).doc) nid
        ≡ node_at json (materialize m.doc) nid
  unfolding register_service
  node_at-register m nid name port md =
      ap (and_get json nid) (nodes-set_service m.doc m.node_id name (service_json P port md))

  service_at-register :
      (m : Membership P) (name k : String) (port : ℕ) (md : Map String)
      → IsSegment m.node_id
      → IsSegment name
      → service_at json (materialize (register_service P name port md m).doc) m.node_id k ≡ (
          if name == k
          then some (service_json P port md)
          else service_at json (materialize m.doc) m.node_id k)
  unfolding register_service
  service_at-register m name k port md seg seg' =
      service_at-set_service m.doc m.node_id name k (service_json P port md) seg seg'

  services_of-register :
      (m : Membership P) (nid name : String) (port : ℕ) (md : Map String)
      → IsSegment m.node_id
      → m.node_id ≢ nid
      → services_of json (materialize (register_service P name port md m).doc) nid
        ≡ services_of json (materialize m.doc) nid
  unfolding register_service
  services_of-register m nid name port md seg ne =
      services_of-set_service_ne m.doc m.node_id name nid (service_json P port md) seg ne

  no_endpoint : (id : String) (o : Option Value) → endpoint_from id o (some (tombstone json)) ≡ none
  unfolding endpoint_of node_addr tombstone
  no_endpoint id none = refl
  no_endpoint id (some e) =
      ground (arith, get-object json "addr" (("status", string "dead") ∷ []) (refl, tt))

  -- A service that a member registers on itself is found under the member's id, with the
  -- member's address, the port, and the metadata key by key, if the id and the name are path
  -- segments, the port has 16 bits, and no key stands twice in the metadata.
  pub lookup_service-register :
      (m : Membership P) (n : NodeInfo P) (name : String) (port : ℕ) (md : Map String)
      → IsSegment m.node_id
      → IsSegment name
      → port < 2 ^ 16
      → Distinct md
      → find_node P m.node_id (members P m) ≡ some n
      → (e : Endpoint P) × (find_endpoint m.node_id
            (lookup_service P name (register_service P name port md m))
          ≡ some e)
        × (e.addr ≡ n.addr)
        × (e.port ≡ port)
        × ((k : String) → lookup k e.metadata ≡ lookup k md)
  lookup_service-register m n name port md seg seg' fits d member =
      let m' = register_service P name port md m in
      let (v, at, addr) = member-node_at m m.node_id n member in
      (
        record {
          node_id = m.node_id;
          addr = n.addr;
          port = port;
          metadata = parse_metadata json (some (metadata_json json md));
        },
        find_endpoint-lookup_service m' name m.node_id
            ∙ ap₂ (endpoint_from m.node_id) (service_at-register m name name port md seg seg')
                (node_at-register m m.node_id name port md ∙ at)
            ∙ (rw (eq_refl name) (service_json-endpoint m.node_id port md v n.addr fits addr)),
        refl,
        refl,
        λ k. parse_metadata-json json md k d,
      )

  -- The registration of a service on a node, whose id is one path segment, changes nothing of
  -- what another node offers, under whatever name.
  pub lookup_service-register_ne :
      (m : Membership P) (nid name other : String) (port : ℕ) (md : Map String)
      → IsSegment m.node_id
      → m.node_id ≢ nid
      → find_endpoint nid (lookup_service P other (register_service P name port md m))
        ≡ find_endpoint nid (lookup_service P other m)
  lookup_service-register_ne m nid name other port md seg ne =
      find_endpoint-lookup_service (register_service P name port md m) other nid
      ∙ ap₂ (endpoint_from nid)
          (ap (and_get json other) (services_of-register m nid name port md seg ne))
          (node_at-register m nid name port md)
      ∙ sym (find_endpoint-lookup_service m other nid)

  -- A service that was registered and then unregistered is not found on its node, if the
  -- node's id and the service's name are path segments.
  pub lookup_service-unregister :
      (m : Membership P) (name : String) (port : ℕ) (md : Map String)
      → IsSegment m.node_id
      → IsSegment name
      → find_endpoint m.node_id
          (lookup_service P name (unregister_service P name (register_service P name port md m)))
        ≡ none
  unfolding register_service unregister_service
  lookup_service-unregister m name port md seg seg' =
      let m' = unregister_service P name (register_service P name port md m) in
      find_endpoint-lookup_service m' name m.node_id
      ∙ ap (λ o. endpoint_from m.node_id o (node_at json (materialize m'.doc) m.node_id))
          (service_at-remove-set m.doc m.node_id name (service_json P port md) seg seg')

  -- A removed node, whose id is one path segment, offers no service, whatever was registered
  -- on it.
  pub lookup_service-remove_node :
      (m : Membership P) (id name : String)
      → IsSegment id
      → find_endpoint id (lookup_service P name (remove_node P id m)) ≡ none
  lookup_service-remove_node m id name seg =
      let m' = remove_node P id m in
      find_endpoint-lookup_service m' name id
      ∙ (rw (node_at-remove_node P m id id seg, eq_refl id)
          (no_endpoint id (service_at json (materialize m'.doc) id name)))
