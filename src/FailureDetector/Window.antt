-- ===== src/FailureDetector/Window.antt =====
-- The sliding window of crates/pmd/src/daemon/failure_detector.rs: what `heartbeat_at` retains.
use Prim.Native.Nat.{min, max}
use mathlib.Core.List.{append_assoc, append-nil}
use pmd.Prelude.{
  ℕ, zero, suc, ◌-◌, ◌≤◌, ◌≡◌, refl, sym, some, List, [], ◌∷◌, ◌++◌, arith, length, drop,
  length-append, length-drop, drop-append_le, leb, Bool-cases, inl, inr, if◌then◌else◌, true,
}
use pmd.Platform.{Real}
use pmd.FailureDetector.{
  PhiAccrualDetector, pop_front, new, elapsed_ms, push_interval, heartbeat_at, run,
}

-- The size that the window really has: one sample is kept also where none is asked for.
abbrev pub capacity : ℕ → ℕ
capacity w = max w 1

module _ {ℓ} {A : Type ℓ} where
  -- The last `k` elements.
  abbrev pub keep_last : ℕ → List A → List A
  keep_last k xs = drop (length xs - k) xs

  drop-nil : (n : ℕ) → drop {A = A} n [] ≡ []
  drop-nil zero = refl
  drop-nil (suc n) = refl

  pop_front-drop : (n : ℕ) (xs : List A) → pop_front (drop n xs) ≡ drop (suc n) xs
  pop_front-drop zero [] = refl
  pop_front-drop zero (x ∷ xs) = refl
  pop_front-drop (suc n) [] = refl
  pop_front-drop (suc n) (x ∷ xs) = pop_front-drop n xs

  pop_front-empty : (xs : List A) → length xs ≡ 0 → pop_front xs ≡ xs
  pop_front-empty [] h = refl
  pop_front-empty (x ∷ xs) h = absurd (omega arith)

  push-keep_last_full :
      (w : ℕ) (xs : List A) (x : A)
      → capacity w ≤ length xs
      → pop_front (keep_last (capacity w) xs) ++ x ∷ [] ≡ keep_last (capacity w) (xs ++ x ∷ [])
  push-keep_last_full w xs x h =
      let n = length xs - capacity w in
      let e : length (xs ++ x ∷ []) - capacity w ≡ suc n =
        omega (arith, length-append xs (x ∷ [])) in
      rw (e, pop_front-drop n xs) (sym (drop-append_le (suc n) xs (x ∷ []) (omega arith)))

  push-keep_last_room :
      (w : ℕ) (xs : List A) (x : A)
      → suc (length xs) ≤ capacity w
      → xs ++ x ∷ [] ≡ keep_last (capacity w) (xs ++ x ∷ [])
  push-keep_last_room w xs x h =
      let e : length (xs ++ x ∷ []) - capacity w ≡ 0 = omega (arith, length-append xs (x ∷ [])) in
      rw e

  -- What the test and the two calls of `heartbeat_at` do to a window.
  pub push-keep_last :
      (w : ℕ) (xs : List A) (x : A)
      → (if leb w (length (keep_last (capacity w) xs))
            then pop_front (keep_last (capacity w) xs)
            else keep_last (capacity w) xs)
          ++ x ∷ []
        ≡ keep_last (capacity w) (xs ++ x ∷ [])
  push-keep_last w xs x = elim (Bool-cases (leb (capacity w) (length xs))) [
    | inl full ↦
        let e : leb w (length (keep_last (capacity w) xs)) ≡ true =
          ground (arith, length-drop (length xs - capacity w) xs) in
        rw e (push-keep_last_full w xs x (ground arith))
    | inr room ↦
        let none_dropped : length xs - capacity w ≡ 0 = ground arith in
        rw none_dropped (elim (Bool-cases (leb w (length xs))) [
          | inl empty ↦
              rw (empty, pop_front-empty xs (ground arith))
                (push-keep_last_room w xs x (ground arith))
          | inr below ↦ rw below (push-keep_last_room w xs x (ground arith))
        ])
  ]

module _ (R : Real) where
  open R use {Float}

  -- The times between successive heartbeats.
  abbrev pub gaps : List ℕ → List Float
  gaps [] = []
  gaps (a ∷ []) = []
  gaps (a ∷ b ∷ rest) = elapsed_ms R b a ∷ gaps (b ∷ rest)

  length-gaps : (times : List ℕ) → length (gaps times) ≡ length times - 1
  length-gaps [] = omega arith
  length-gaps (a ∷ []) = omega arith
  length-gaps (a ∷ b ∷ rest) = omega (arith, length-gaps (b ∷ rest))

  heartbeat_at-some :
      (d : PhiAccrualDetector R) (last now : ℕ)
      → d.last_heartbeat ≡ some last
      → heartbeat_at R now d
        ≡ record (push_interval R d (elapsed_ms R now last)) { last_heartbeat = some now }
  unfolding heartbeat_at
  heartbeat_at-some d last now l = rw l

  run-cons :
      (d : PhiAccrualDetector R) (now : ℕ) (rest : List ℕ)
      → run R d (now ∷ rest) ≡ run R (heartbeat_at R now d) rest
  unfolding run
  run-cons d now rest = refl

  run-window :
      (d : PhiAccrualDetector R) (all : List Float) (last : ℕ) (times : List ℕ)
      → d.last_heartbeat ≡ some last
      → d.intervals ≡ keep_last (capacity d.max_window_size) all
      → (run R d times).intervals
        ≡ keep_last (capacity d.max_window_size) (all ++ gaps (last ∷ times))
  unfolding run
  run-window d all last [] l e = rw (append-nil, e)
  run-window d all last (now ∷ rest) l e =
      let x = elapsed_ms R now last in
      rw
        (
          run-cons d now rest,
          heartbeat_at-some d last now l,
          ← append_assoc all (x ∷ []) (gaps (now ∷ rest)),
        )
        (run-window (record (push_interval R d x) { last_heartbeat = some now }) (all ++ x ∷ []) now
          rest refl (rw e (push-keep_last d.max_window_size all x)))

  -- After heartbeats at any instants a new detector holds exactly the most recent of the times
  -- between them, in their order: as many as the window's size, and one if that size is zero.
  pub run-new-window :
      (w : ℕ) (floor : Float) (times : List ℕ)
      → (run R (new R w floor) times).intervals ≡ keep_last (capacity w) (gaps times)
  unfolding run new heartbeat_at
  run-new-window w floor [] = rw drop-nil
  run-new-window w floor (now ∷ rest) =
      run-window (heartbeat_at R now (new R w floor)) [] now rest refl (rw drop-nil)

  -- So after `n` heartbeats it holds the smaller of `n - 1` and the window's size, which is one at
  -- least.
  pub length-run-new :
      (w : ℕ) (floor : Float) (times : List ℕ)
      → length (run R (new R w floor) times).intervals ≡ min (length times - 1) (capacity w)
  length-run-new w floor times = rw (run-new-window w floor times) (
      omega (arith, length-drop (length (gaps times) - capacity w) (gaps times), length-gaps times))
