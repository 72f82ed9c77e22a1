-- ===== src/Membership/Views.antt =====
-- How the reads of crates/pmd/src/daemon/membership.rs depend on the document, and what they make
-- of the JSON values that its writes store.
use pmd.Prelude.{
  String, ◌≡◌, refl, sym, ◌∙◌, ap, true, Option, none, some, List, [], ◌∷◌, arith, map, filter_map,
  eq_iff,
}
use pmd.Prelude.Maps.{Map, lookup, Distinct, find_key, apply_at, find_key-filter_map}
use pmd.Platform.{Json, Platform, get, and_get, node_at, services_of}
use pmd.Membership.{
  Membership, NodeInfo, ◌>>=◌, or_empty, object_at, metadata_json, metadata_entry, parse_metadata,
  is_dead, tombstone, service_entry, node_services, node_info, members,
}

module _ (J : Json) where
  open J use {
    Value, object, string, as_object, as_str, as_object-object, as_object-Distinct, as_str-string,
  }

  pub get-object : (k : String) (m : Map Value) → Distinct m → get J k (object m) ≡ lookup k m
  get-object k m d = let (o, e, same) = as_object-object m d in rw (e, get) (same k)

  lookup-metadata :
      (k : String) (md : Map String)
      → lookup k (map (λ e. (e.0, string e.1)) md)
        ≡ (elim (lookup k md) [ none ↦ none | some s ↦ some (string s) ])
  lookup-metadata k [] = refl
  lookup-metadata k ((j, s) ∷ md) = ground (arith, lookup-metadata k md)

  Distinct-metadata : (md : Map String) → Distinct md → Distinct (map (λ e. (e.0, string e.1)) md)
  Distinct-metadata [] d = tt
  Distinct-metadata ((j, s) ∷ md) d = (rw (lookup-metadata j md, d.0), Distinct-metadata md d.1)

  metadata_entry-key :
      (j : String) (v : Value) (w : String × String) → metadata_entry J (j, v) ≡ some w → w.0 ≡ j
  unfolding metadata_entry
  metadata_entry-key j v w h = ground arith

  find-lookup :
      (k : String) (m : Map String)
      → find_key (λ (e : String × String). e.0) k m
        ≡ (elim (lookup k m) [ none ↦ none | some s ↦ some (k, s) ])
  find-lookup k [] = refl
  find-lookup k ((j, s) ∷ m) = ground (arith, eq_iff j k, find-lookup k m)

  parsed-entry :
      (o : Map Value) (md : Map String) (k : String)
      → Distinct o
      → lookup k o ≡ (elim (lookup k md) [ none ↦ none | some s ↦ some (string s) ])
      → find_key (λ (e : String × String). e.0) k (filter_map (metadata_entry J) o)
        ≡ (elim (lookup k md) [ none ↦ none | some s ↦ some (k, s) ])
  unfolding metadata_entry
  parsed-entry o md k d same =
      find_key-filter_map (λ e. e.0) (metadata_entry J) metadata_entry-key k o d
      ∙ rw same (read_back (lookup k md))
    where
      read_back :
          (r : Option String)
          → apply_at (metadata_entry J) k (elim r [ none ↦ none | some s ↦ some (string s) ])
            ≡ (elim r [ none ↦ none | some s ↦ some (k, s) ])
      read_back none = refl
      read_back (some s) = ground (arith, as_str-string s)

  -- Metadata that was stored is read back, key by key.
  pub parse_metadata-json :
      (md : Map String) (k : String)
      → Distinct md
      → lookup k (parse_metadata J (some (metadata_json J md))) ≡ lookup k md
  unfolding parse_metadata metadata_json
  parse_metadata-json md k d =
      let entries = map (λ (e : String × String). (e.0, string e.1)) md in
      let (o, e, same) = as_object-object entries (Distinct-metadata md d) in
      rw e (
        ground (
          arith,
          find-lookup k (filter_map (metadata_entry J) o),
          parsed-entry o md k (as_object-Distinct (object entries) e)
              (same k ∙ lookup-metadata k md),
        ))

  pub is_dead-tombstone : is_dead J (tombstone J) ≡ true
  unfolding is_dead tombstone
  is_dead-tombstone =
      ground (
        arith,
        get-object "status" (("status", string "dead") ∷ []) (refl, tt),
        as_str-string "dead",
      )

module _ (P : Platform) where
  open P use {json, materialize, as_object, as_object-Distinct}

  abbrev pub find_node : String → List (NodeInfo P) → Option (NodeInfo P)
  find_node = find_key (λ n. n.node_id)

  pub node_services-services_of :
      (m : Membership P) (id : String)
      → node_services P m id
        ≡ filter_map
            (service_entry json)
            (or_empty (services_of json (materialize m.doc) id >>= as_object))
  unfolding node_services object_at
  node_services-services_of m id = ground arith

  pub node_services_cong :
      (m n : Membership P) (k : String)
      → services_of json (materialize m.doc) k ≡ services_of json (materialize n.doc) k
      → node_services P m k ≡ node_services P n k
  node_services_cong m n k es =
      node_services-services_of m k ∙ (rw es) ∙ sym (node_services-services_of n k)

  pub lookup-or_empty :
      (k : String) (o : Option json.Value)
      → lookup k (or_empty (o >>= as_object)) ≡ and_get json k o
  lookup-or_empty k none = refl
  lookup-or_empty k (some v) = ground arith

  pub Distinct-or_empty : (o : Option json.Value) → Distinct (or_empty (o >>= as_object))
  Distinct-or_empty none = tt
  Distinct-or_empty (some v) = go (as_object v) refl
    where
      go : (r : Option (Map json.Value)) → as_object v ≡ r → Distinct (or_empty r)
      go none e = tt
      go (some o) e = as_object-Distinct v e

  node_info-key :
      (m : Membership P) (j : String) (v : json.Value) (w : NodeInfo P)
      → node_info P m (j, v) ≡ some w
      → w.node_id ≡ j
  unfolding node_info
  node_info-key m j v w h = ground arith

  pub find_node-members :
      (m : Membership P) (k : String)
      → find_node k (members P m) ≡ apply_at (node_info P m) k (node_at json (materialize m.doc) k)
  unfolding members object_at
  find_node-members m k =
      let nodes = get json "nodes" (materialize m.doc) in
      find_key-filter_map (λ n. n.node_id) (node_info P m) (node_info-key m) k
        (or_empty (nodes >>= as_object)) (Distinct-or_empty nodes)
      ∙ ap (apply_at (node_info P m) k) (lookup-or_empty k nodes)

  -- What `members` says of a node depends on what the document holds for the node and its services.
  pub find_node-members_cong :
      (m n : Membership P) (k : String)
      → node_at json (materialize m.doc) k ≡ node_at json (materialize n.doc) k
      → services_of json (materialize m.doc) k ≡ services_of json (materialize n.doc) k
      → find_node k (members P m) ≡ find_node k (members P n)
  unfolding node_info
  find_node-members_cong m n k en es =
      find_node-members m k
      ∙ (rw en (node_info-cong (node_at json (materialize n.doc) k)))
      ∙ sym (find_node-members n k)
    where
      node_info-cong :
          (o : Option json.Value) → apply_at (node_info P m) k o ≡ apply_at (node_info P n) k o
      node_info-cong none = refl
      node_info-cong (some v) = rw (node_services_cong m n k es)
