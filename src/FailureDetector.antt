-- ===== src/FailureDetector.antt =====
-- crates/pmd/src/daemon/failure_detector.rs: the phi accrual failure detector over the floats of
-- `Real`. A time is a parameter of the call: an `Instant` in nanoseconds, the wall clock as what
-- `duration_since(UNIX_EPOCH)` gives.
pub mod Window
pub mod Suspicion
use pmd.Prelude.{
  ℕ, ◌-◌, ◌/◌, ◌%◌, Bool, Option, none, some, List, [], ◌∷◌, ◌++◌, map, length, leb, ltb,
  if◌then◌else◌,
}
use pmd.Platform.{Real}
use mathlib.Core.List.{foldl}

pub record PhiAccrualDetector (R : Real) : Type 0 where
  pub intervals : List R.Float
  pub max_window_size : ℕ
  pub last_heartbeat : Option ℕ
  pub last_heartbeat_epoch : Option ℕ
  pub min_std_deviation_ms : R.Float

-- `VecDeque::pop_front`, the result dropped.
abbrev pub pop_front {ℓ} : {A : Type ℓ} → List A → List A
pop_front [] = []
pop_front (x ∷ xs) = xs

module _ (R : Real) where
  open R use {Float, literal, of_ℕ, add, sub, mul, div, neg, max, sqrt, exp, log10, lt}

  unfoldable pub new : ℕ → Float → PhiAccrualDetector R
  new max_window_size min_std_deviation_ms = record {
    intervals = [];
    max_window_size = max_window_size;
    last_heartbeat = none;
    last_heartbeat_epoch = none;
    min_std_deviation_ms = min_std_deviation_ms;
  }

  -- `Duration::as_secs_f64`, of a duration in nanoseconds: the seconds and the part of a second, each
  -- as a float.
  unfoldable as_secs_f64 : ℕ → Float
  as_secs_f64 nanos =
      add (of_ℕ (nanos / 1000000000)) (div (of_ℕ (nanos % 1000000000)) (literal "1e9"))

  -- `now.duration_since(last).as_secs_f64() * 1000.0`; `duration_since` stops at zero.
  unfoldable pub elapsed_ms : ℕ → ℕ → Float
  unfolding as_secs_f64
  elapsed_ms now last = mul (as_secs_f64 (now - last)) (literal "1000.0")

  abbrev pub push_interval : PhiAccrualDetector R → Float → PhiAccrualDetector R
  push_interval d interval_ms =
      let kept =
        if leb d.max_window_size (length d.intervals) then pop_front d.intervals else d.intervals in
      record d { intervals = kept ++ interval_ms ∷ [] }

  unfoldable pub heartbeat_at : ℕ → PhiAccrualDetector R → PhiAccrualDetector R
  heartbeat_at now d =
      let sampled : PhiAccrualDetector R = elim d.last_heartbeat [
        | none ↦ d
        | some last ↦ push_interval d (elapsed_ms now last)
      ] in
      record sampled { last_heartbeat = some now }

  -- `wall` is the clock's answer, none if the clock stands before the epoch.
  unfoldable pub heartbeat : Option ℕ → ℕ → PhiAccrualDetector R → PhiAccrualDetector R
  unfolding heartbeat_at
  heartbeat wall now d = heartbeat_at now (record d { last_heartbeat_epoch = wall })

  abbrev pub sum : List Float → Float
  sum = foldl add (literal "0.0")

  unfoldable pub mean : List Float → Float
  mean [] = literal "0.0"
  mean (x ∷ xs) = div (sum (x ∷ xs)) (of_ℕ (length (x ∷ xs)))

  unfoldable pub std_deviation : List Float → Float
  std_deviation intervals =
      if ltb (length intervals) 2
      then literal "0.0"
      else let m = mean intervals in
        let square = λ (x : Float). let diff = sub x m in mul diff diff in
        sqrt (div (sum (map square intervals)) (of_ℕ (length intervals)))

  unfoldable pub normal_cdf : Float → Float
  normal_cdf x = div (literal "1.0") (add (literal "1.0") (exp (mul (neg (literal "1.5976")) x)))

  -- The part of `phi_at` that is computed from a full enough window.
  unfoldable pub phi_of : PhiAccrualDetector R → Float → Float
  phi_of d elapsed =
      let std_dev = max (std_deviation d.intervals) d.min_std_deviation_ms in
      let p = normal_cdf (div (sub elapsed (mean d.intervals)) std_dev) in
      neg (log10 (max (sub (literal "1.0") p) (literal "1e-100")))

  unfoldable pub phi_at : ℕ → PhiAccrualDetector R → Float
  phi_at now d = elim d.last_heartbeat [
    | none ↦ literal "0.0"
    | some last ↦
        if ltb (length d.intervals) 2 then literal "0.0" else phi_of d (elapsed_ms now last)
  ]

  unfoldable pub is_available : ℕ → Float → PhiAccrualDetector R → Bool
  is_available now threshold d = lt (phi_at now d) threshold

  -- A detector after heartbeats at the given instants, in their order.
  unfoldable pub run : PhiAccrualDetector R → List ℕ → PhiAccrualDetector R
  run d [] = d
  run d (now ∷ rest) = run (heartbeat_at now d) rest
