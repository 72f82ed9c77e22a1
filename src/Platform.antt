-- ===== src/Platform.antt =====
-- What the daemon uses and does not implement: socket addresses, JSON values, the CRDT document of
-- the crate `concordat`, HMAC-SHA256, and 64-bit floats. Each is an interface of operations with
-- the documented laws that the proofs use; `Platform` joins them.
use pmd.Prelude.{
  ℕ, ◌<◌, ◌^◌, String, ◌≡◌, ◌≢◌, ◌↔◌, Bool, true, not, ◌&&◌, Option, none, some, List, ◌^^◌, ◌==◌,
  nat_eq, if◌then◌else◌,
}
use pmd.Prelude.Maps.{Map, lookup, Distinct}
use Prim.Native.Char.{code}

-- `std::net::SocketAddr`: printed by `Display`, read back by `FromStr`.
pub record Net : Type 1 where
  pub Addr : Type 0
  pub addr_eq : Addr → Addr → Bool
  pub addr_to_string : Addr → String
  pub addr_parse : String → Option Addr
  pub ip_to_string : Addr → String
  pub addr_eq_iff : (a b : Addr) → (addr_eq a b ≡ true) ↔ (a ≡ b)
  pub addr_parse-to_string : (a : Addr) → addr_parse (addr_to_string a) ≡ some a

-- `serde_json::Value`. An object's map comes back with its keys distinct, in an order of its own.
pub record Json : Type 1 where
  pub Value : Type 0
  pub object : Map Value → Value
  pub string : String → Value
  pub number : ℕ → Value
  pub as_object : Value → Option (Map Value)
  pub as_str : Value → Option String
  pub as_u64 : Value → Option ℕ
  pub as_object-Distinct : (v : Value) {m : Map Value} → as_object v ≡ some m → Distinct m
  pub as_object-object :
      (m : Map Value)
      → Distinct m
      → (o : Map Value) × (as_object (object m) ≡ some o) × ((k : String) → lookup k o ≡ lookup k m)
  pub as_str-string : (s : String) → as_str (string s) ≡ some s
  pub as_u64-number : (n : ℕ) → n < 2 ^ 64 → as_u64 (number n) ≡ some n

abbrev pub no_slash : String → Bool
no_slash String.[] = true
no_slash (String.◌∷◌ c s) = not (nat_eq (code c) b'/') && no_slash s

-- A text that stands as one step of a path: not empty, and without the separator.
abbrev pub IsSegment : String → Type 0
IsSegment s = (s ≢ "") × (no_slash s ≡ true)

module _ (J : Json) where
  -- `value.get(key)`: none on what is no object, and on a missing key.
  abbrev pub get : String → J.Value → Option J.Value
  get k v = elim (J.as_object v) [ none ↦ none | some m ↦ lookup k m ]

  -- `.and_then(|v| v.get(key))`
  abbrev pub and_get : String → Option J.Value → Option J.Value
  and_get k none = none
  and_get k (some v) = get k v

  -- What a document holds at `/nodes/<id>`, `/services/<id>` and `/services/<id>/<name>`.
  abbrev pub node_at : J.Value → String → Option J.Value
  node_at state id = and_get id (get "nodes" state)

  abbrev pub services_of : J.Value → String → Option J.Value
  services_of state id = and_get id (get "services" state)

  abbrev pub service_at : J.Value → String → String → Option J.Value
  service_at state id name = and_get name (services_of state id)

-- `format!("/nodes/{node_id}")` and `format!("/services/{node_id}/{name}")`.
abbrev pub node_path : String → String
node_path id = "/nodes/" ^^ id

abbrev pub service_path : String → String → String
service_path id name = "/services/" ^^ (id ^^ ("/" ^^ name))

-- `concordat`: `CrdtDoc`, `VersionVector` and `codec`. A local write wins at its own path and leaves
-- the other paths alone, and a removal undoes a local write. `Same` relates documents that went
-- through the same operations: they materialize to the same value and stay so under merges. Up to it
-- a delta applied again changes nothing, and deltas commute.
pub record Crdt (J : Json) : Type 1 where
  pub Doc : Type 0
  pub Delta : Type 0
  pub Vv : Type 0
  pub doc_new : String → Doc
  pub doc_set : Doc → String → J.Value → Doc
  pub doc_remove : Doc → String → Doc
  pub materialize : Doc → J.Value
  pub merge_delta : Doc → Delta → Doc
  pub delta_since : Doc → Vv → Delta
  pub version_vector : Doc → Vv
  pub vv_new : Vv
  pub encode : Delta → List ℕ
  pub decode : List ℕ → Option Delta
  pub nodes-new : (r : String) → get J "nodes" (materialize (doc_new r)) ≡ none
  pub node_at-set_node :
      (d : Doc) (id j : String) (v : J.Value)
      → IsSegment id
      → node_at J (materialize (doc_set d (node_path id) v)) j
        ≡ (if id == j then some v else node_at J (materialize d) j)
  pub services-set_node :
      (d : Doc) (id : String) (v : J.Value)
      → get J "services" (materialize (doc_set d (node_path id) v))
        ≡ get J "services" (materialize d)
  pub nodes-set_service :
      (d : Doc) (id n : String) (v : J.Value)
      → get J "nodes" (materialize (doc_set d (service_path id n) v))
        ≡ get J "nodes" (materialize d)
  pub services_of-set_service_ne :
      (d : Doc) (id n j : String) (v : J.Value)
      → IsSegment id
      → id ≢ j
      → services_of J (materialize (doc_set d (service_path id n) v)) j
        ≡ services_of J (materialize d) j
  pub service_at-set_service :
      (d : Doc) (id n k : String) (v : J.Value)
      → IsSegment id
      → IsSegment n
      → service_at J (materialize (doc_set d (service_path id n) v)) id k
        ≡ (if n == k then some v else service_at J (materialize d) id k)
  pub nodes-remove_service :
      (d : Doc) (id n : String)
      → get J "nodes" (materialize (doc_remove d (service_path id n)))
        ≡ get J "nodes" (materialize d)
  pub service_at-remove-set :
      (d : Doc) (id n : String) (v : J.Value)
      → IsSegment id
      → IsSegment n
      → service_at J
          (materialize (doc_remove (doc_set d (service_path id n) v) (service_path id n)))
          id
          n
        ≡ none
  pub Same : Doc → Doc → Type 0
  pub Same-refl : (d : Doc) → Same d d
  pub Same-sym : (d e : Doc) → Same d e → Same e d
  pub Same-trans : (d e f : Doc) → Same d e → Same e f → Same d f
  pub Same-materialize : (d e : Doc) → Same d e → materialize d ≡ materialize e
  pub Same-merge_delta :
      (d e : Doc) (δ : Delta) → Same d e → Same (merge_delta d δ) (merge_delta e δ)
  pub merge_delta_idem :
      (d : Doc) (δ : Delta) → Same (merge_delta (merge_delta d δ) δ) (merge_delta d δ)
  pub merge_delta_comm :
      (d : Doc) (δ ε : Delta)
      → Same (merge_delta (merge_delta d δ) ε) (merge_delta (merge_delta d ε) δ)
  pub decode-encode : (δ : Delta) → decode (encode δ) ≡ some δ

-- `hmac` and `sha2`: the tag of a nonce under a key, and its comparison with an expected tag.
pub record Crypto : Type 0 where
  pub hmac_sha256 : List ℕ → List ℕ → List ℕ
  pub verify_slice : List ℕ → List ℕ → Bool
  pub verify_slice_iff :
      (tag expected : List ℕ) → (verify_slice tag expected ≡ true) ↔ (tag ≡ expected)

-- `f64`. `literal` reads a constant of the source; `show_fixed` prints with a number of decimals.
pub record Real : Type 1 where
  pub Float : Type 0
  pub literal : String → Float
  pub of_ℕ : ℕ → Float
  pub add : Float → Float → Float
  pub sub : Float → Float → Float
  pub mul : Float → Float → Float
  pub div : Float → Float → Float
  pub neg : Float → Float
  pub max : Float → Float → Float
  pub sqrt : Float → Float
  pub exp : Float → Float
  pub log10 : Float → Float
  pub ceil : Float → Float
  pub to_usize : Float → ℕ
  pub lt : Float → Float → Bool
  pub is_finite : Float → Bool
  pub show_fixed : ℕ → Float → String

-- `PathBuf`.
pub record Os : Type 1 where
  pub FilePath : Type 0
  pub path_from : String → FilePath
  pub path_join : FilePath → String → FilePath
  pub path_join_inj : (p : FilePath) (a b : String) → path_join p a ≡ path_join p b → a ≡ b

pub record Platform : Type 1 where
  pub net : Net
  pub open net use *
  pub os : Os
  pub open os use *
  pub json : Json
  pub open json use *
  pub crdt : Crdt json
  pub open crdt use *
  pub crypto : Crypto
  pub open crypto use *
  pub real : Real
  pub open real use *
