-- ===== src/Daemon/MainLoop/Liveness.antt =====
-- That the main loop of crates/pmd/src/daemon/mod.rs comes to its end: the timers go on for ever.
use pmd.Prelude.{ℕ, zero, suc, ◌≤◌, ◌≡◌, ◌≢◌, ◌∙◌, true, none, List, [], ◌∷◌, arith}
use pmd.Platform.{Platform}
use pmd.Daemon.{DaemonState, sigint, tick, gossip_tick, mesh_tick, main_step, main_loop, Turn}
use pmd.Daemon.MainLoop.{requested-main_step}

module _ (P : Platform) where
  -- The turns that come, without an end.
  abbrev pub Schedule : Type 0
  Schedule = ℕ → Turn P

  abbrev pub first_turns : ℕ → Schedule → List (Turn P)
  first_turns zero s = []
  first_turns (suc n) s = s 0 ∷ first_turns n (λ i. s (suc i))

  -- No task takes a request to shut down back.
  abbrev pub IsKept : Schedule → Type 0
  IsKept s =
      (n : ℕ) (st : DaemonState P)
      → st.shutdown_requested ≡ true
      → ((s n).0 st).shutdown_requested ≡ true

  -- The timer of the ticks fires again and again.
  abbrev pub IsTicking : Schedule → Type 0
  IsTicking s = (n : ℕ) → (m : ℕ) × (n ≤ m) × ((s m).1 ≡ tick)

  later_ends :
      (grace : DaemonState P → DaemonState P) (turn : Turn P) (rest : List (Turn P))
      (st : DaemonState P)
      → main_loop P grace rest (main_step P turn.1 (turn.0 st)).0 ≢ none
      → main_loop P grace (turn ∷ rest) st ≢ none
  unfolding main_loop
  later_ends grace (others, event) rest st rec e = ground (arith, rec)

  tick_ends :
      (grace : DaemonState P → DaemonState P) (turn : Turn P) (rest : List (Turn P))
      (st : DaemonState P)
      → (turn.0 st).shutdown_requested ≡ true
      → turn.1 ≡ tick
      → main_loop P grace (turn ∷ rest) st ≢ none
  unfolding main_loop main_step
  tick_ends grace (others, tick) rest st h e f = ground (arith, h)
  tick_ends grace (others, sigint) rest st h e f = absurd (ground (arith, e))
  tick_ends grace (others, gossip_tick pick) rest st h e f = absurd (ground (arith, e))
  tick_ends grace (others, mesh_tick pick) rest st h e f = absurd (ground (arith, e))

  requested_ends :
      (grace : DaemonState P → DaemonState P) (s : Schedule) (m : ℕ) (st : DaemonState P)
      → IsKept s
      → ((s 0).0 st).shutdown_requested ≡ true
      → (s m).1 ≡ tick
      → main_loop P grace (first_turns (suc m) s) st ≢ none
  requested_ends grace s zero st keep h e = tick_ends grace (s 0) [] st h e
  requested_ends grace s (suc m) st keep h e =
      let st' = (main_step P (s 0).1 ((s 0).0 st)).0 in
      later_ends grace (s 0) (first_turns (suc m) (λ i. s (suc i))) st (
        requested_ends grace (λ i. s (suc i)) m st' (λ n. keep (suc n))
          (keep 1 st' (requested-main_step P (s 0).1 ((s 0).0 st) ∙ h)) e)

  reached_ends :
      (grace : DaemonState P → DaemonState P) (s : Schedule) (k m : ℕ) (st : DaemonState P)
      → IsKept s
      → k ≤ m
      → ((t : DaemonState P) → ((s k).0 t).shutdown_requested ≡ true)
      → (s m).1 ≡ tick
      → main_loop P grace (first_turns (suc m) s) st ≢ none
  reached_ends grace s zero m st keep le stop e = requested_ends grace s m st keep (stop st) e
  reached_ends grace s (suc k) zero st keep le stop e = absurd (omega arith)
  reached_ends grace s (suc k) (suc m) st keep le stop e =
      later_ends grace (s 0) (first_turns (suc m) (λ i. s (suc i))) st (
        reached_ends grace (λ i. s (suc i)) k m (main_step P (s 0).1 ((s 0).0 st)).0
          (λ n. keep (suc n)) (omega arith) stop e)

  -- The main loop comes to its end, from any state on, if its ticks recur for ever, some task requests
  -- the shutdown before some turn, and no task takes a request back.
  pub main_loop-eventually :
      (grace : DaemonState P → DaemonState P) (s : Schedule) (k : ℕ) (st : DaemonState P)
      → IsTicking s
      → ((t : DaemonState P) → ((s k).0 t).shutdown_requested ≡ true)
      → IsKept s
      → (n : ℕ) × (main_loop P grace (first_turns n s) st ≢ none)
  main_loop-eventually grace s k st ticking stop keep =
      let (m, le, e) = ticking k in (suc m, reached_ends grace s k m st keep le stop e)
