-- ===== src/Membership/Replication.antt =====
-- Replicas that send each other deltas since a version vector: `delta_for_peer` and `merge_remote` of
-- crates/pmd/src/daemon/membership.rs.
use pmd.Prelude.{ℕ, String}
use pmd.Platform.{Platform, service_path}
use pmd.Prelude.Maps.{Map}
use pmd.Membership.{Membership, register_service, service_json}

module _ (P : Platform) where
  open P use {
    Value, Doc, Delta, doc_new, doc_set, doc_remove, merge_delta, delta_since, version_vector,
    vv_new, Same, Same-refl, Same-sym, Same-trans, Same-materialize, Same-merge_delta,
    merge_delta_idem, merge_delta_comm,
  }

  -- A document and what it became.
  pub data Extends (d : Doc) : Doc → Type 0 where
    same : Extends d d
    set : {e : Doc} (path : String) (v : Value) → Extends d e → Extends d (doc_set e path v)
    removed : {e : Doc} (path : String) → Extends d e → Extends d (doc_remove e path)
    merged_with : {e : Doc} (δ : Delta) → Extends d e → Extends d (merge_delta e δ)

  pub register_service-Extends :
      (name : String) (port : ℕ) (metadata : Map String) (m : Membership P)
      → Extends m.doc (register_service P name port metadata m).doc
  unfolding register_service
  register_service-Extends name port metadata m =
      set (service_path m.node_id name) (service_json P port metadata) same

  abbrev pub whole : Doc → Delta
  whole d = delta_since d vv_new

  -- `concordat`, as a protocol of replicas: the delta since nothing holds all of a document, and the delta
  -- since a version vector all that a replica lacks that was at that vector, or has grown since.
  pub record Replication : Type 0 where
    pub Same-full_delta : (r : String) (d : Doc) → Same (merge_delta (doc_new r) (whole d)) d
    pub Same-delta_since :
        (d d' e : Doc)
        → Extends d d'
        → Same (merge_delta d' (delta_since e (version_vector d))) (merge_delta d' (whole e))

  -- Two documents that get the whole of each other.
  pub Same-exchange :
      (r : String) (d e : Doc)
      → Same (merge_delta (doc_new r) (whole d)) d
      → Same (merge_delta (doc_new r) (whole e)) e
      → Same (merge_delta d (whole e)) (merge_delta e (whole d))
  Same-exchange r d e whole_d whole_e =
      Same-trans _ _ _ (Same-merge_delta _ _ (whole e) (Same-sym _ _ whole_d)) (
        Same-trans _ _ _ (merge_delta_comm (doc_new r) (whole d) (whole e))
          (Same-merge_delta _ _ (whole d) whole_e))

  module _ (R : Replication) where
    open R use {Same-full_delta, Same-delta_since}

    -- One of them gets the delta since a version vector of its own, and answers with the delta since the
    -- other's.
    pub Same-round :
        (a b b0 : Doc)
        → Extends b0 b
        → let b' = merge_delta b (delta_since a (version_vector b0)) in
          Same (merge_delta a (delta_since b' (version_vector a))) b'
    Same-round a b b0 grown =
        let b' = merge_delta b (delta_since a (version_vector b0)) in
        let told : Same b' (merge_delta b (whole a)) = Same-delta_since b0 b a grown in
        Same-trans _ _ _ (Same-delta_since a a b' same) (
          Same-trans _ _ _ (Same-exchange "" a b' (Same-full_delta "" a) (Same-full_delta "" b')) (
            Same-trans _ _ _ (Same-merge_delta _ _ (whole a) told)
              (Same-trans _ _ _ (merge_delta_idem b (whole a)) (Same-sym _ _ told))))
