-- ===== src/Examples/Log.antt =====
-- A document that is a log of writes, each with a time: of the writes at a path the last one wins. A delta
-- is a list of writes, and a version vector the writes that are known.
mod Bytes
pub mod Merge
use mathlib.Core.List.{append-nil, append_assoc}
use pmd.Prelude.{
  ℕ, zero, suc, String, ◌≡◌, refl, sym, ◌∙◌, ap, Bool, true, false, ◌||◌, not, Option, none, some,
  List, [], ◌∷◌, ◌++◌, arith, if◌then◌else◌,
}
use pmd.Platform.{Crdt, Platform, node_path, service_path}
use pmd.Examples.Values.{Value, json}
use pmd.Examples.Store
use pmd.Examples.Store.{place_of, set_at, remove_at}
use pmd.Examples.Toy.{toy}
use pmd.Examples.Log.Bytes.{Write, put_write, get_write, get-put_write}
use pmd.Examples.Log.Merge.{
  Blob, earlier, norm, insert_all, norm-append, insert_all_comm, insert_all_idem, latest, norm-last,
}

pub record Doc : Type 0 where
  pub writes : List Blob

abbrev perform : Write → Store.Doc → Store.Doc
perform w s = elim w.value [
  | none ↦ remove_at (place_of w.path) s
  | some v ↦ set_at (place_of w.path) v s
]

abbrev read_write : Option Write → Store.Doc → Store.Doc
read_write none s = s
read_write (some w) s = perform w s

abbrev replay : List Blob → Store.Doc → Store.Doc
replay [] s = s
replay (x ∷ xs) s = replay xs (read_write (get_write x) s)

replay-append : (xs ys : List Blob) (s : Store.Doc) → replay (xs ++ ys) s ≡ replay ys (replay xs s)
replay-append [] ys s = refl
replay-append (x ∷ xs) ys s = replay-append xs ys (read_write (get_write x) s)

abbrev view : Doc → Store.Doc
view d = replay (norm d.writes) (Store.doc_new "")

abbrev next_write : Doc → String → Option Value → Write
next_write d path value = record { time = suc (latest d.writes); path = path; value = value }

abbrev written : Doc → String → Option Value → Doc
written d path value = record { writes = put_write (next_write d path value) ∷ d.writes }

-- What was written last is what is seen.
pub view-written :
    (d : Doc) (path : String) (value : Option Value)
    → view (written d path value) ≡ perform (next_write d path value) (view d)
unfolding put_write
view-written d path value =
    ap (λ xs. replay xs (Store.doc_new "")) (norm-last _ d.writes)
    ∙ replay-append (norm d.writes) (put_write (next_write d path value) ∷ []) (Store.doc_new "")
    ∙ ap (λ o. read_write o (view d)) (get-put_write (next_write d path value))

abbrev pub same_bytes : Blob → Blob → Bool
same_bytes x y = not (earlier x y || earlier y x)

abbrev pub has : Blob → List Blob → Bool
has x [] = false
has x (y ∷ ys) = same_bytes x y || has x ys

abbrev pub unknown : List Blob → List Blob → List Blob
unknown vv [] = []
unknown vv (x ∷ xs) = let rest = unknown vv xs in if has x vv then rest else x ∷ rest

pub unknown-nil : (xs : List Blob) → unknown [] xs ≡ xs
unknown-nil [] = refl
unknown-nil (x ∷ xs) = ap (◌∷◌ x) (unknown-nil xs)

-- Each write as its bytes, with a zero behind it.
abbrev put_bytes : Blob → List ℕ → List ℕ
put_bytes [] rest = 0 ∷ rest
put_bytes (b ∷ bs) rest = suc b ∷ put_bytes bs rest

abbrev encode : List Blob → List ℕ
encode [] = []
encode (x ∷ xs) = put_bytes x (encode xs)

infixl 5 ◌>>=◌
abbrev ◌>>=◌ {ℓ κ} : {A : Type ℓ} {B : Type κ} → Option A → (A → Option B) → Option B
none >>= f = none
some a >>= f = f a

abbrev finished : Blob → Option (List Blob)
finished [] = some []
finished (b ∷ bs) = none

abbrev decode_from : Blob → List ℕ → Option (List Blob)
decode_from acc [] = finished acc
decode_from acc (zero ∷ rest) = decode_from [] rest >>= (λ xs. some (acc ∷ xs))
decode_from acc (suc b ∷ rest) = decode_from (acc ++ b ∷ []) rest

decode_from-put_bytes :
    (acc x : Blob) (rest : List ℕ)
    → decode_from acc (put_bytes x rest) ≡ (decode_from [] rest >>= (λ xs. some ((acc ++ x) ∷ xs)))
decode_from-put_bytes acc [] rest =
    ap (λ x. decode_from [] rest >>= (λ xs. some (x ∷ xs))) (sym (append-nil acc))
decode_from-put_bytes acc (b ∷ x) rest =
    decode_from-put_bytes (acc ++ b ∷ []) x rest
    ∙ ap (λ y. decode_from [] rest >>= (λ xs. some (y ∷ xs))) (append_assoc acc (b ∷ []) x)

pub decode-encode : (xs : List Blob) → decode_from [] (encode xs) ≡ some xs
decode-encode [] = refl
decode-encode (x ∷ xs) =
    decode_from-put_bytes [] x (encode xs)
    ∙ ap (λ o. o >>= (λ ys. some (x ∷ ys))) (decode-encode xs)

abbrev pub merge : Doc → List Blob → Doc
merge d δ = record { writes = δ ++ d.writes }

abbrev IsSame : Doc → Doc → Type 0
IsSame d e = norm d.writes ≡ norm e.writes

pub IsSame-merge : (d e : Doc) (δ : List Blob) → IsSame d e → IsSame (merge d δ) (merge e δ)
IsSame-merge d e δ h = norm-append δ d.writes ∙ ap (insert_all δ) h ∙ sym (norm-append δ e.writes)

merge_twice :
    (d : Doc) (δ ε : List Blob)
    → norm (merge (merge d δ) ε).writes ≡ insert_all ε (insert_all δ (norm d.writes))
merge_twice d δ ε = norm-append ε (δ ++ d.writes) ∙ ap (insert_all ε) (norm-append δ d.writes)

pub merge_idem : (d : Doc) (δ : List Blob) → IsSame (merge (merge d δ) δ) (merge d δ)
merge_idem d δ =
    merge_twice d δ δ ∙ insert_all_idem δ (norm d.writes) ∙ sym (norm-append δ d.writes)

pub merge_comm : (d : Doc) (δ ε : List Blob) → IsSame (merge (merge d δ) ε) (merge (merge d ε) δ)
merge_comm d δ ε = merge_twice d δ ε ∙ insert_all_comm ε δ (norm d.writes) ∙ sym (merge_twice d ε δ)

-- The full delta of a document is the document.
pub whole_log : (d : Doc) → IsSame (merge (record { writes = [] }) (unknown [] d.writes)) d
whole_log d = ap norm (append-nil (unknown [] d.writes) ∙ unknown-nil d.writes)

abbrev materialize : Doc → Value
materialize d = Store.materialize (view d)

abbrev pub log : Crdt json
log = record {
  Doc = Doc;
  Delta = List Blob;
  Vv = List Blob;
  doc_new = λ r. record { writes = [] };
  doc_set = λ d path v. written d path (some v);
  doc_remove = λ d path. written d path none;
  materialize = materialize;
  merge_delta = merge;
  delta_since = λ d vv. unknown vv d.writes;
  version_vector = λ d. d.writes;
  vv_new = [];
  encode = encode;
  decode = decode_from [];
  nodes-new = λ r. refl;
  node_at-set_node = λ d id j v seg.
      rw (view-written d (node_path id) (some v)) (Store.node_at-set_node (view d) id j v seg);
  services-set_node =
      λ d id v. rw (view-written d (node_path id) (some v)) (Store.services-set_node (view d) id v);
  nodes-set_service = λ d id n v. rw (view-written d (service_path id n) (some v)) (
      Store.nodes-set_at (view d) v (place_of (service_path id n))
        (Store.place_of-service_path-ne-node id n));
  services_of-set_service_ne = λ d id n j v seg ne.
      rw (view-written d (service_path id n) (some v))
        (Store.services_of-set_service_ne (view d) id n j v seg ne);
  service_at-set_service = λ d id n k v seg seg'.
      rw (view-written d (service_path id n) (some v))
        (Store.service_at-set_service (view d) id n k v seg seg');
  nodes-remove_service = λ d id n. rw (view-written d (service_path id n) none) (
      Store.nodes-remove_at (view d) (place_of (service_path id n))
        (Store.place_of-service_path-ne-node id n));
  service_at-remove-set = λ d id n v seg seg'.
      rw (view-written (written d (service_path id n) (some v)) (service_path id n) none)
        (Store.service_at-remove (view (written d (service_path id n) (some v))) id n seg);
  Same = IsSame;
  Same-refl = λ d. refl;
  Same-sym = λ d e p. sym p;
  Same-trans = λ d e f p q. p ∙ q;
  Same-materialize = λ d e p. ap (λ xs. Store.materialize (replay xs (Store.doc_new ""))) p;
  Same-merge_delta = IsSame-merge;
  merge_delta_idem = merge_idem;
  merge_delta_comm = merge_comm;
  decode-encode = decode-encode;
}

abbrev pub logged : Platform
logged = record toy { crdt = log }
