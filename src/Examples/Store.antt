-- ===== src/Examples/Store.antt =====
-- The document of the small platform: what this replica wrote at each path, and two facts that a
-- remote replica may have added, which a merge joins.
use pmd.Prelude.{
  ℕ, String, ◌≡◌, ◌≢◌, refl, ◌∙◌, sym, ap, Bool, true, false, not, ◌&&◌, ◌||◌, Option, none, some,
  List, [], ◌∷◌, ◌++◌, map, arith, ◌^^◌, ◌==◌, eq_iff, eq_refl, nat_eq, if◌then◌else◌,
}
use pmd.Prelude.Maps.{Map, lookup, insert, remove, lookup-insert, lookup-remove}
use pmd.Platform.{
  Crdt, get, and_get, node_at, services_of, service_at, node_path, service_path, no_slash,
  IsSegment,
}
use pmd.Examples.Values.{Value, str, num, object, json, get-object}
use Prim.Native.Char.{code}
use text.Mathlib.TextLemmas.{nil-append, cons-append}

pub data Place : Type 0 where
  node : String → Place
  service : String → String → Place
  nowhere : Place

pub record Doc : Type 0 where
  pub nodes : Map Value
  pub services : Map (Map Value)
  pub first : Bool
  pub second : Bool

-- A text without a prefix.
abbrev pub strip : String → String → Option String
strip String.[] s = some s
strip (String.◌∷◌ c p) String.[] = none
strip (String.◌∷◌ c p) (String.◌∷◌ d s) =
    let rest = strip p s in if nat_eq (code c) (code d) then rest else none

abbrev pub service_split : String → Option (String × String)
service_split String.[] = none
service_split (String.◌∷◌ c s) =
    let rest = service_split s in
    if nat_eq (code c) b'/'
    then some ("", s)
    else elim rest [ none ↦ none | some (id, name) ↦ some (String.◌∷◌ c id, name) ]

abbrev pub service_place : Option (String × String) → Place
service_place none = nowhere
service_place (some (id, name)) = service id name

abbrev pub split_place : Option String → Place
split_place none = nowhere
split_place (some s) = service_place (service_split s)

abbrev pub place_of : String → Place
place_of path = elim (strip "/nodes/" path) [
  | some id ↦ node id
  | none ↦ split_place (strip "/services/" path)
]

strip-append : (p s : String) → strip p (p ^^ s) ≡ some s
strip-append String.[] s = rw (nil-append s)
strip-append (String.◌∷◌ c p) s = ground (arith, cons-append c p s, strip-append p s)

strip-nodes-services : (s : String) → strip "/nodes/" ("/services/" ^^ s) ≡ none
strip-nodes-services s = rw (cons-append "/" "services/" s, cons-append "s" "ervices/" s)

place_of-node_path : (id : String) → place_of (node_path id) ≡ node id
place_of-node_path id = rw (strip-append "/nodes/" id, place_of)

service_split-join :
    (id name : String) → no_slash id ≡ true → service_split (id ^^ ("/" ^^ name)) ≡ some (id, name)
service_split-join String.[] name h =
    rw (nil-append ("/" ^^ name), cons-append "/" "" name, nil-append name)
service_split-join (String.◌∷◌ c id) name h =
    ground
      (arith, h, cons-append c id ("/" ^^ name), service_split-join id name (ground (arith, h)))

place_of-service_path :
    (id name : String) → no_slash id ≡ true → place_of (service_path id name) ≡ service id name
place_of-service_path id name h = rw (
  strip-nodes-services (id ^^ ("/" ^^ name)),
  strip-append "/services/" (id ^^ ("/" ^^ name)),
  service_split-join id name h,
  place_of,
)

-- The facts of a remote replica: two nodes, of which the second is dead.
abbrev pub node_value : String → Value
node_value addr = object (("addr", str addr) ∷ ("metadata", object []) ∷ ("joined_at", num 7) ∷ [])

abbrev pub if_known : Bool → String → Value → Map Value
if_known true k v = (k, v) ∷ []
if_known false k v = []

abbrev pub remote_nodes : Bool → Bool → Map Value
remote_nodes a b =
    if_known a "carol" (node_value "10.0.0.3:4369")
    ++ if_known b "dave" (object (("status", str "dead") ∷ []))

abbrev pub section : String → Map Value → Map Value
section k [] = []
section k (e ∷ m) = (k, object (e ∷ m)) ∷ []

abbrev pub objects : Map (Map Value) → Map Value
objects m = map (λ e. (e.0, object e.1)) m

abbrev pub all_nodes : Doc → Map Value
all_nodes d = d.nodes ++ remote_nodes d.first d.second

abbrev pub materialize : Doc → Value
materialize d = object (section "nodes" (all_nodes d) ++ section "services" (objects d.services))

abbrev pub doc_new : String → Doc
doc_new r = record { nodes = []; services = []; first = false; second = false }

abbrev pub known : Option (Map Value) → Map Value
known none = []
known (some m) = m

abbrev pub set_at : Place → Value → Doc → Doc
set_at (node id) v d = record d { nodes = insert id v d.nodes }
set_at (service id n) v d = record d {
  services = insert id (insert n v (known (lookup id d.services))) d.services;
}
set_at nowhere v d = d

abbrev pub remove_at : Place → Doc → Doc
remove_at (node id) d = record d { nodes = remove id d.nodes }
remove_at (service id n) d = record d {
  services = insert id (remove n (known (lookup id d.services))) d.services;
}
remove_at nowhere d = d

abbrev pub Facts : Type 0
Facts = Bool × Bool

abbrev pub encode : Facts → List ℕ
encode (a, b) = (if a then 1 else 0) ∷ (if b then 1 else 0) ∷ []

abbrev pub decode : List ℕ → Option Facts
decode (a ∷ b ∷ []) = some (nat_eq a 1, nat_eq b 1)
decode _ = none

pub decode-encode : (δ : Facts) → decode (encode δ) ≡ some δ
decode-encode (true, true) = refl
decode-encode (true, false) = refl
decode-encode (false, true) = refl
decode-encode (false, false) = refl

abbrev pub merge_delta : Doc → Facts → Doc
merge_delta d (a, b) = record d { first = d.first || a; second = d.second || b }

pub or_comm : (a b c : Bool) → ((a || b) || c) ≡ ((a || c) || b)
or_comm a b c = ground arith

pub or_idem : (a b : Bool) → ((a || b) || b) ≡ (a || b)
or_idem a b = ground arith

get-nodes :
    (d : Doc) → get json "nodes" (materialize d) ≡ lookup "nodes" (section "nodes" (all_nodes d))
get-nodes d =
    get-object "nodes" (section "nodes" (all_nodes d) ++ section "services" (objects d.services))
    ∙ go (all_nodes d) (objects d.services)
  where
    go :
        (m s : Map Value)
        → lookup "nodes" (section "nodes" m ++ section "services" s)
          ≡ lookup "nodes" (section "nodes" m)
    go [] [] = refl
    go [] (e ∷ s) = refl
    go (e ∷ m) s = refl

get-services :
    (d : Doc)
    → get json "services" (materialize d)
      ≡ lookup "services" (section "services" (objects d.services))
get-services d =
    get-object "services" (section "nodes" (all_nodes d) ++ section "services" (objects d.services))
    ∙ go (all_nodes d) (objects d.services)
  where
    go :
        (m s : Map Value)
        → lookup "services" (section "nodes" m ++ section "services" s)
          ≡ lookup "services" (section "services" s)
    go [] s = refl
    go (e ∷ m) s = refl

and_get-section :
    (k j : String) (m : Map Value) → and_get json j (lookup k (section k m)) ≡ lookup j m
and_get-section k j [] = refl
and_get-section k j (e ∷ m) = (rw (eq_refl k)) ∙ get-object j (e ∷ m)

lookup-append :
    (k : String) (m n : Map Value)
    → lookup k (m ++ n) ≡ (elim (lookup k m) [ none ↦ lookup k n | some v ↦ some v ])
lookup-append k [] n = refl
lookup-append k ((j, v) ∷ m) n = ground (arith, lookup-append k m n)

lookup-objects :
    (k : String) (m : Map (Map Value))
    → lookup k (objects m) ≡ (elim (lookup k m) [ none ↦ none | some o ↦ some (object o) ])
lookup-objects k [] = refl
lookup-objects k ((j, v) ∷ m) = ground (arith, lookup-objects k m)

node_at-materialize :
    (d : Doc) (j : String)
    → node_at json (materialize d) j ≡ (elim (lookup j d.nodes) [
      | none ↦ lookup j (remote_nodes d.first d.second)
      | some v ↦ some v
    ])
node_at-materialize d j =
    ap (and_get json j) (get-nodes d)
    ∙ and_get-section "nodes" j (all_nodes d)
    ∙ lookup-append j d.nodes (remote_nodes d.first d.second)

services_of-materialize :
    (d : Doc) (j : String)
    → services_of json (materialize d) j
      ≡ (elim (lookup j d.services) [ none ↦ none | some o ↦ some (object o) ])
services_of-materialize d j =
    ap (and_get json j) (get-services d)
    ∙ and_get-section "services" j (objects d.services)
    ∙ lookup-objects j d.services

pub node_at-set_node :
    (d : Doc) (id j : String) (v : Value)
    → IsSegment id
    → node_at json (materialize (set_at (place_of (node_path id)) v d)) j
      ≡ (if id == j then some v else node_at json (materialize d) j)
node_at-set_node d id j v seg =
    (rw (place_of-node_path id))
    ∙ node_at-materialize (set_at (node id) v d) j
    ∙ ground (arith, lookup-insert id j v d.nodes, node_at-materialize d j)

pub services-set_node :
    (d : Doc) (id : String) (v : Value)
    → get json "services" (materialize (set_at (place_of (node_path id)) v d))
      ≡ get json "services" (materialize d)
services-set_node d id v =
    (rw (place_of-node_path id)) ∙ get-services (set_at (node id) v d) ∙ sym (get-services d)

split_place-ne-node : (o : Option String) (i : String) → split_place o ≢ node i
split_place-ne-node none i e = absurd (ground (arith, e))
split_place-ne-node (some s) i e = go (service_split s) e
  where
    go : (o : Option (String × String)) → service_place o ≢ node i
    go none f = absurd (ground (arith, f))
    go (some (id, name)) f = absurd (ground (arith, f))

pub place_of-service_path-ne-node : (id n i : String) → place_of (service_path id n) ≢ node i
place_of-service_path-ne-node id n i =
    rw (strip-nodes-services (id ^^ ("/" ^^ n)), place_of)
      (split_place-ne-node (strip "/services/" (service_path id n)) i)

pub nodes-set_at :
    (d : Doc) (v : Value) (p : Place)
    → ((i : String) → p ≢ node i)
    → get json "nodes" (materialize (set_at p v d)) ≡ get json "nodes" (materialize d)
nodes-set_at d v (node i) ne = absurd (ne i refl)
nodes-set_at d v nowhere ne = refl
nodes-set_at d v (service i k) ne = get-nodes (set_at (service i k) v d) ∙ sym (get-nodes d)

pub nodes-remove_at :
    (d : Doc) (p : Place)
    → ((i : String) → p ≢ node i)
    → get json "nodes" (materialize (remove_at p d)) ≡ get json "nodes" (materialize d)
nodes-remove_at d (node i) ne = absurd (ne i refl)
nodes-remove_at d nowhere ne = refl
nodes-remove_at d (service i k) ne = get-nodes (remove_at (service i k) d) ∙ sym (get-nodes d)

pub services_of-set_service_ne :
    (d : Doc) (id n j : String) (v : Value)
    → IsSegment id
    → id ≢ j
    → services_of json (materialize (set_at (place_of (service_path id n)) v d)) j
      ≡ services_of json (materialize d) j
services_of-set_service_ne d id n j v seg ne =
    (rw (place_of-service_path id n seg.1))
    ∙ services_of-materialize (set_at (service id n) v d) j
    ∙ ground (
      arith,
      eq_iff id j,
      ne,
      lookup-insert id j (insert n v (known (lookup id d.services))) d.services,
      services_of-materialize d j,
    )

service_at-known :
    (d : Doc) (id k : String)
    → service_at json (materialize d) id k ≡ lookup k (known (lookup id d.services))
service_at-known d id k =
    ap (and_get json k) (services_of-materialize d id) ∙ go (lookup id d.services)
  where
    go :
        (o : Option (Map Value))
        → and_get json k (elim o [ none ↦ none | some m ↦ some (object m) ]) ≡ lookup k (known o)
    go none = refl
    go (some m) = get-object k m

pub service_at-set_service :
    (d : Doc) (id n k : String) (v : Value)
    → IsSegment id
    → IsSegment n
    → service_at json (materialize (set_at (place_of (service_path id n)) v d)) id k
      ≡ (if n == k then some v else service_at json (materialize d) id k)
service_at-set_service d id n k v seg _ =
    (rw (place_of-service_path id n seg.1))
    ∙ service_at-known (set_at (service id n) v d) id k
    ∙ ground (
      arith,
      eq_refl id,
      lookup-insert id id (insert n v (known (lookup id d.services))) d.services,
      lookup-insert n k v (known (lookup id d.services)),
      service_at-known d id k,
    )

pub service_at-remove :
    (d : Doc) (id n : String)
    → IsSegment id
    → service_at json (materialize (remove_at (place_of (service_path id n)) d)) id n ≡ none
service_at-remove d id n seg =
    (rw (place_of-service_path id n seg.1))
    ∙ service_at-known (remove_at (service id n) d) id n
    ∙ ground (
      arith,
      eq_refl id,
      eq_refl n,
      lookup-insert id id (remove n (known (lookup id d.services))) d.services,
      lookup-remove n n (known (lookup id d.services)),
    )

abbrev pub crdt : Crdt json
crdt = record {
  Doc = Doc;
  Delta = Facts;
  Vv = Facts;
  doc_new = doc_new;
  doc_set = λ d path v. set_at (place_of path) v d;
  doc_remove = λ d path. remove_at (place_of path) d;
  materialize = materialize;
  merge_delta = merge_delta;
  delta_since = λ d vv. (d.first && not vv.0, d.second && not vv.1);
  version_vector = λ d. (d.first, d.second);
  vv_new = (false, false);
  encode = encode;
  decode = decode;
  nodes-new = λ r. refl;
  node_at-set_node = node_at-set_node;
  services-set_node = services-set_node;
  nodes-set_service = λ d id n v.
      nodes-set_at d v (place_of (service_path id n)) (place_of-service_path-ne-node id n);
  services_of-set_service_ne = services_of-set_service_ne;
  service_at-set_service = service_at-set_service;
  nodes-remove_service = λ d id n.
      nodes-remove_at d (place_of (service_path id n)) (place_of-service_path-ne-node id n);
  service_at-remove-set =
      λ d id n v seg _. service_at-remove (set_at (place_of (service_path id n)) v d) id n seg;
  Same = λ d e. d ≡ e;
  Same-refl = λ d. refl;
  Same-sym = λ d e p. sym p;
  Same-trans = λ d e f p q. p ∙ q;
  Same-materialize = λ d e p. ap materialize p;
  Same-merge_delta = λ d e δ p. ap (λ x. merge_delta x δ) p;
  merge_delta_idem = λ d δ. rw (or_idem d.first δ.0, or_idem d.second δ.1);
  merge_delta_comm = λ d δ ε. rw (or_comm d.first δ.0 ε.0, or_comm d.second δ.1 ε.1);
  decode-encode = decode-encode;
}
