-- ===== src/Membership/Convergence.antt =====
-- Replicas that got the same deltas through `merge_remote` of
-- crates/pmd/src/daemon/membership.rs, in whatever order and however often.
use pmd.Prelude.{ℕ, ◌≡◌, refl, sym, Option, none, some, List, [], ◌∷◌, arith}
use pmd.Platform.{Platform}
use pmd.Membership.{Membership, ◌>>=◌, members, merge_remote}
use pmd.Membership.Merge.{merged, members-cong}

-- Two sequences of deliveries with the same deltas, up to their order and to repetitions.
pub data Redelivered {ℓ} {A : Type ℓ} : List A → List A → Type ℓ where
  empty : Redelivered [] []
  keep : (x : A) {xs ys : List A} → Redelivered xs ys → Redelivered (x ∷ xs) (x ∷ ys)
  swap : (x y : A) (xs : List A) → Redelivered (x ∷ y ∷ xs) (y ∷ x ∷ xs)
  once : (x : A) (xs : List A) → Redelivered (x ∷ x ∷ xs) (x ∷ xs)
  again : (x : A) (xs : List A) → Redelivered (x ∷ xs) (x ∷ x ∷ xs)
  then : {xs ys zs : List A} → Redelivered xs ys → Redelivered ys zs → Redelivered xs zs

module _ (P : Platform) where
  open P use {
    Doc, Delta, decode, merge_delta, Same, Same-refl, Same-sym, Same-trans, Same-materialize,
    Same-merge_delta, merge_delta_idem, merge_delta_comm,
  }

  -- A replica takes the deltas one after the other; none if one of them cannot be decoded.
  unfoldable pub deliver : List (List ℕ) → Membership P → Option (Membership P)
  deliver [] m = some m
  deliver (bytes ∷ rest) m = do (changes, m') ← merge_remote P bytes m; deliver rest m'

  abbrev after : Membership P → List (List ℕ) → Option Delta → Option (Membership P)
  after m rest none = none
  after m rest (some δ) = deliver rest (merged P m δ)

  deliver-cons :
      (bytes : List ℕ) (rest : List (List ℕ)) (m : Membership P)
      → deliver (bytes ∷ rest) m ≡ after m rest (decode bytes)
  unfolding deliver merge_remote
  deliver-cons bytes rest m = ground arith

  -- Two results agree if both are errors or both documents went through the same operations.
  abbrev Agree : Option (Membership P) → Option (Membership P) → Type 0
  Agree none none = Unit
  Agree (some a) (some b) = Same a.doc b.doc
  Agree _ _ = ⊥

  Agree-trans : (a b c : Option (Membership P)) → Agree a b → Agree b c → Agree a c
  Agree-trans none none none p q = tt
  Agree-trans (some a) (some b) (some c) p q = Same-trans a.doc b.doc c.doc p q
  Agree-trans none none (some c) p q = q
  Agree-trans none (some b) c p q = absurd p
  Agree-trans (some a) none c p q = absurd p
  Agree-trans (some a) (some b) none p q = q

  deliver-Same :
      (xs : List (List ℕ)) (m n : Membership P)
      → Same m.doc n.doc
      → Agree (deliver xs m) (deliver xs n)
  unfolding deliver
  deliver-Same [] m n s = s
  deliver-Same (x ∷ xs) m n s =
      rw (deliver-cons x xs m, deliver-cons x xs n)
        (go (decode x)
          (λ δ. deliver-Same xs (merged P m δ) (merged P n δ) (Same-merge_delta m.doc n.doc δ s)))
    where
      go :
          (o : Option Delta)
          → ((δ : Delta) → Agree (deliver xs (merged P m δ)) (deliver xs (merged P n δ)))
          → Agree (after m xs o) (after n xs o)
      go none ih = tt
      go (some δ) ih = ih δ

  deliver-Redelivered :
      {xs ys : List (List ℕ)}
      → Redelivered xs ys
      → (m : Membership P) → Agree (deliver xs m) (deliver ys m)
  unfolding deliver
  deliver-Redelivered empty m = Same-refl m.doc
  deliver-Redelivered (keep x {xs} {ys} r) m =
      rw (deliver-cons x xs m, deliver-cons x ys m)
        (go (decode x) (λ δ. deliver-Redelivered r (merged P m δ)))
    where
      go :
          (o : Option Delta)
          → ((δ : Delta) → Agree (deliver xs (merged P m δ)) (deliver ys (merged P m δ)))
          → Agree (after m xs o) (after m ys o)
      go none ih = tt
      go (some δ) ih = ih δ
  deliver-Redelivered (swap x y xs) m =
      rw (deliver-cons x (y ∷ xs) m, deliver-cons y (x ∷ xs) m) (go (decode x) (decode y) refl refl)
    where
      go :
          (o r : Option Delta)
          → decode x ≡ o
          → decode y ≡ r
          → Agree (after m (y ∷ xs) o) (after m (x ∷ xs) r)
      go none none e f = tt
      go none (some ε) e f = rw (deliver-cons x xs (merged P m ε), e) tt
      go (some δ) none e f = rw (deliver-cons y xs (merged P m δ), f) tt
      go (some δ) (some ε) e f =
          rw (deliver-cons x xs (merged P m ε), e, deliver-cons y xs (merged P m δ), f)
            (deliver-Same xs (merged P (merged P m δ) ε) (merged P (merged P m ε) δ)
              (merge_delta_comm m.doc δ ε))
  deliver-Redelivered (once x xs) m =
      rw (deliver-cons x (x ∷ xs) m, deliver-cons x xs m) (go (decode x) refl)
    where
      go : (o : Option Delta) → decode x ≡ o → Agree (after m (x ∷ xs) o) (after m xs o)
      go none e = tt
      go (some δ) e =
          rw (deliver-cons x xs (merged P m δ), e)
            (deliver-Same xs (merged P (merged P m δ) δ) (merged P m δ) (merge_delta_idem m.doc δ))
  deliver-Redelivered (again x xs) m =
      rw (deliver-cons x xs m, deliver-cons x (x ∷ xs) m) (go (decode x) refl)
    where
      go : (o : Option Delta) → decode x ≡ o → Agree (after m xs o) (after m (x ∷ xs) o)
      go none e = tt
      go (some δ) e =
          rw (deliver-cons x xs (merged P m δ), e)
            (deliver-Same xs (merged P m δ) (merged P (merged P m δ) δ)
              (Same-sym _ _ (merge_delta_idem m.doc δ)))
  deliver-Redelivered (then {xs} {ys} {zs} p q) m =
      Agree-trans (deliver xs m) (deliver ys m) (deliver zs m) (deliver-Redelivered p m)
        (deliver-Redelivered q m)

  -- If a replica can merge a sequence of deltas, it can merge them in every other order too, and with
  -- other repetitions of its deltas, and it then shows the same members.
  pub deliver-members :
      {xs ys : List (List ℕ)} (m a : Membership P)
      → Redelivered xs ys
      → deliver xs m ≡ some a
      → (b : Membership P) × (deliver ys m ≡ some b) × (members P b ≡ members P a)
  deliver-members {xs} {ys} m a r e = go (deliver ys m) refl (rw (← e) (deliver-Redelivered r m))
    where
      go :
          (o : Option (Membership P))
          → deliver ys m ≡ o
          → Agree (some a) o
          → (b : Membership P) × (deliver ys m ≡ some b) × (members P b ≡ members P a)
      go none f agree = absurd agree
      go (some b) f agree = (b, f, sym (members-cong P a b (Same-materialize a.doc b.doc agree)).0)
