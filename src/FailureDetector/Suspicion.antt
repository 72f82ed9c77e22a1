-- ===== src/FailureDetector/Suspicion.antt =====
-- When the detector of crates/pmd/src/daemon/failure_detector.rs reports no suspicion.
use pmd.Prelude.{ℕ, ◌<◌, ◌≡◌, ◌⊎◌, List, arith, length}
use pmd.Platform.{Real}
use pmd.FailureDetector.{PhiAccrualDetector, new, phi_at, run}
use pmd.FailureDetector.Window.{length-run-new}

module _ (R : Real) where
  open R use {Float, literal}

  phi_at-few :
      (now : ℕ) (d : PhiAccrualDetector R) → length d.intervals < 2 → phi_at R now d ≡ literal "0.0"
  unfolding phi_at
  phi_at-few now d h = ground arith

  -- A new detector reports a suspicion level of zero, at whatever time it is asked, as long as it
  -- has had fewer than three heartbeats, and for ever if its window holds fewer than two samples.
  pub phi_at-run-new :
      (w : ℕ) (floor : Float) (times : List ℕ) (now : ℕ)
      → (length times < 3) ⊎ (w < 2)
      → phi_at R now (run R (new R w floor) times) ≡ literal "0.0"
  phi_at-run-new w floor times now h =
      phi_at-few now _ (omega (arith, length-run-new R w floor times))
