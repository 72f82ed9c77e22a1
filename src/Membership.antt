-- ===== src/Membership.antt =====
-- crates/pmd/src/daemon/membership.rs: the cluster's members and services over a CRDT document. The
-- wall clock is the argument `now`, in seconds since the epoch.
pub mod Changes
pub mod Views
pub mod Nodes
pub mod Rosters
pub mod Services
pub mod Merge
pub mod Convergence
pub mod Replication
use pmd.Prelude.{
  ℕ, ◌%◌, ◌^◌, String, Bool, true, false, not, Option, none, some, List, [], ◌∷◌, ◌++◌, map,
  filter_map, ◌==◌, if◌then◌else◌,
}
use pmd.Prelude.Maps.{Map, lookup, contains_key}
use pmd.Platform.{Platform, Json, get, and_get, node_path, service_path}
use pmd.Protocol.{MembershipEvent, node_joined, node_left}

pub record ServiceInfo : Type 0 where
  pub name : String
  pub port : ℕ
  pub metadata : Map String

pub record NodeInfo (P : Platform) : Type 0 where
  pub node_id : String
  pub addr : P.Addr
  pub metadata : Map String
  pub joined_at : ℕ
  pub services : List ServiceInfo

pub record Membership (P : Platform) : Type 0 where
  pub doc : P.Doc
  pub node_id : String

pub record MembershipChange : Type 0 where
  pub event : MembershipEvent
  pub node_id : String
  pub addr : String

-- `lookup_service` gives (node_id, addr, port, metadata).
pub record Endpoint (P : Platform) : Type 0 where
  pub node_id : String
  pub addr : P.Addr
  pub port : ℕ
  pub metadata : Map String

-- `?` and `.and_then` on an `Option`.
infixl 5 ◌>>=◌
abbrev pub ◌>>=◌ {ℓ κ} : {A : Type ℓ} {B : Type κ} → Option A → (A → Option B) → Option B
none >>= f = none
some a >>= f = f a

-- `unwrap_or`
abbrev pub or_default {ℓ} : {A : Type ℓ} → Option A → A → A
or_default none d = d
or_default (some a) d = a

-- `match state.get(..) { Some(Value::Object(m)) => m, _ => return .. }`
abbrev pub or_empty {ℓ} : {V : Type ℓ} → Option (Map V) → Map V
or_empty none = []
or_empty (some m) = m

module _ (J : Json) where
  open J use {Value, object, string, as_object, as_str, as_u64}

  -- The map at a key of the state, where it is an object.
  unfoldable pub object_at : String → Value → Option (Map Value)
  object_at k state = get J k state >>= as_object

  unfoldable pub metadata_json : Map String → Value
  metadata_json metadata = object (map (λ e. (e.0, string e.1)) metadata)

  metadata_entry : String × Value → Option (String × String)
  metadata_entry (k, v) = do s ← as_str v; some (k, s)

  unfoldable pub parse_metadata : Option Value → Map String
  unfolding metadata_entry
  parse_metadata val = filter_map metadata_entry (or_empty (val >>= as_object))

  -- `val.get("status").and_then(|s| s.as_str()) == Some("dead")`
  unfoldable pub is_dead : Value → Bool
  is_dead val = elim (get J "status" val >>= as_str) [ none ↦ false | some s ↦ s == "dead" ]

  unfoldable pub tombstone : Value
  tombstone = object (("status", string "dead") ∷ [])

  unfoldable pub service_entry : String × Value → Option ServiceInfo
  service_entry (name, val) = do
    p ← get J "port" val
    port ← as_u64 p
    some (record {
      name = name;
      port = port % 2 ^ 16;
      metadata = parse_metadata (get J "metadata" val);
    })

  unfoldable pub member_entry : String × Value → Option (String × String)
  member_entry (id, val) =
      if is_dead val then none else do a ← get J "addr" val; addr ← as_str a; some (id, addr)

module _ (P : Platform) where
  open P use {
    Addr, addr_to_string, addr_parse, json, Value, object, string, number, as_object, as_str,
    as_u64, Delta, Vv, doc_new, doc_set, doc_remove, materialize, merge_delta, delta_since,
    version_vector, vv_new, encode, decode,
  }

  unfoldable pub new : String → Membership P
  new node_id = record { doc = doc_new node_id; node_id = node_id }

  unfoldable pub node_json : ℕ → Addr → Map String → Value
  node_json now addr metadata = object (
      ("addr", string (addr_to_string addr))
      ∷ ("metadata", metadata_json json metadata)
      ∷ ("joined_at", number now)
      ∷ [])

  unfoldable pub add_node : ℕ → String → Addr → Map String → Membership P → Membership P
  add_node now node_id addr metadata m = record m {
    doc = doc_set m.doc (node_path node_id) (node_json now addr metadata);
  }

  unfoldable pub node_services : Membership P → String → List ServiceInfo
  node_services m node_id =
      let state = materialize m.doc in
      let svcs = do
        services ← object_at json "services" state
        v ← lookup node_id services
        as_object v
      in filter_map (service_entry json) (or_empty svcs)

  -- One round of the loop over the services of a removed node.
  unfoldable pub bury_services : String → List ServiceInfo → Membership P → Membership P
  bury_services node_id [] m = m
  bury_services node_id (svc ∷ rest) m =
      bury_services node_id rest
        (record m { doc = doc_set m.doc (service_path node_id svc.name) (tombstone json) })

  unfoldable pub remove_node : String → Membership P → Membership P
  unfolding bury_services
  remove_node node_id m =
      let m' : Membership P = record m {
        doc = doc_set m.doc (node_path node_id) (tombstone json);
      } in
      bury_services node_id (node_services m' node_id) m'

  unfoldable pub service_json : ℕ → Map String → Value
  service_json port metadata =
      object (("port", number port) ∷ ("metadata", metadata_json json metadata) ∷ [])

  unfoldable pub register_service : String → ℕ → Map String → Membership P → Membership P
  register_service name port metadata m = record m {
    doc = doc_set m.doc (service_path m.node_id name) (service_json port metadata);
  }

  unfoldable pub unregister_service : String → Membership P → Membership P
  unregister_service name m = record m { doc = doc_remove m.doc (service_path m.node_id name) }

  -- `.get("addr")`, `.as_str()`, `.parse().ok()`
  unfoldable pub node_addr : Value → Option Addr
  node_addr val = do a ← get json "addr" val; s ← as_str a; addr_parse s

  unfoldable pub endpoint_entry : String → Map Value → String × Value → Option (Endpoint P)
  endpoint_entry name nodes (nid, svc_map) = do
    svcs ← as_object svc_map
    entry ← lookup name svcs
    let port = or_default (get json "port" entry >>= as_u64) 0 % 2 ^ 16
    let meta = parse_metadata json (get json "metadata" entry)
    node ← lookup nid nodes
    addr ← node_addr node
    some (record { node_id = nid; addr = addr; port = port; metadata = meta })

  unfoldable pub lookup_service : String → Membership P → List (Endpoint P)
  lookup_service name m =
      let state = materialize m.doc in
      let found = do
        services ← object_at json "services" state
        nodes ← object_at json "nodes" state
        some (filter_map (endpoint_entry name nodes) services)
      in or_default found []

  unfoldable pub node_info : Membership P → String × Value → Option (NodeInfo P)
  node_info m (id, val) = if is_dead json val then none else do
    addr ← node_addr val
    j ← get json "joined_at" val
    some (record {
      node_id = id;
      addr = addr;
      metadata = parse_metadata json (get json "metadata" val);
      joined_at = or_default (as_u64 j) 0;
      services = node_services m id;
    })

  unfoldable pub members : Membership P → List (NodeInfo P)
  members m = filter_map (node_info m) (or_empty (object_at json "nodes" (materialize m.doc)))

  unfoldable pub member_ids : Membership P → Map String
  member_ids m =
      filter_map (member_entry json) (or_empty (object_at json "nodes" (materialize m.doc)))

  unfoldable pub delta_for_peer : Vv → Membership P → List ℕ
  delta_for_peer peer_vv m = encode (delta_since m.doc peer_vv)

  unfoldable pub full_delta : Membership P → List ℕ
  unfolding delta_for_peer
  full_delta m = delta_for_peer vv_new m

-- The first loop of `diff_members`, over `after`, and the second, over `before`: an entry whose key
-- the other map lacks.
unfoldable pub changed : MembershipEvent → Map String → String × String → Option MembershipChange
changed event other (id, addr) =
    if contains_key id other
    then none
    else some (record { event = event; node_id = id; addr = addr })

unfoldable pub diff_members : Map String → Map String → List MembershipChange
unfolding changed
diff_members before after =
    filter_map (changed node_joined before) after ++ filter_map (changed node_left after) before

module _ (P : Platform) where
  open P use {merge_delta, decode}

  -- None is the error of a delta that cannot be decoded; the document is as before.
  unfoldable pub merge_remote :
      List ℕ → Membership P → Option (List MembershipChange × Membership P)
  merge_remote delta_bytes m = do
    δ ← decode delta_bytes
    let m' : Membership P = record m { doc = merge_delta m.doc δ }
    some (diff_members (member_ids P m) (member_ids P m'), m')
