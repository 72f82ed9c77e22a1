-- ===== src/Daemon/Control/Socket/Channel.antt =====
-- The channel behind a subscription: `broadcast::channel(256)` of crates/pmd/src/daemon/mod.rs, from which
-- crates/pmd/src/daemon/control.rs receives.
use pmd.Prelude.{
  ℕ, zero, suc, ◌+◌, ◌-◌, ◌<◌, ◌≤◌, ◌≡◌, Bool, true, Option, none, some, List, [], ◌∷◌, ◌++◌,
  length, get_elem?, ltb, if◌then◌else◌,
}
use pmd.Membership.{MembershipChange}
use pmd.Daemon.Control.Socket.{Received, change, lagged}

abbrev pub event_capacity : ℕ
event_capacity = 256

-- `tokio::sync::broadcast`: what `recv` of a receiver that has taken a number of values makes of all that
-- was sent since it subscribed; none if it waits. A receiver gets the values in their order, until it is
-- more than the capacity behind.
pub record Channel : Type 0 where
  pub recv : ℕ → List MembershipChange → ℕ → Option Received
  pub recv-waits :
      (capacity : ℕ) (sent : List MembershipChange) → recv capacity sent (length sent) ≡ none
  pub recv-next :
      (capacity taken : ℕ) (sent : List MembershipChange) (c : MembershipChange)
      → get_elem? sent taken ≡ some c
      → length sent ≤ taken + capacity
      → recv capacity sent taken ≡ some (change c)
  pub recv-lags :
      (capacity taken : ℕ) (sent : List MembershipChange)
      → taken + capacity < length sent
      → recv capacity sent taken ≡ some (lagged (length sent - (taken + capacity)))

-- All that was sent, in batches between which the subscriber's loop receives once.
abbrev pub concat : List (List MembershipChange) → List MembershipChange
concat [] = []
concat (batch ∷ rest) = batch ++ concat rest

module _ (channel : Channel) where
  -- What the loop receives, each with a write that succeeds.
  unfoldable pub receive_all :
      List MembershipChange → ℕ → List (List MembershipChange) → List (Received × Bool)
  receive_all sent taken [] = []
  receive_all sent taken (batch ∷ rest) = elim (channel.recv event_capacity (sent ++ batch) taken) [
    | none ↦ receive_all (sent ++ batch) taken rest
    | some r ↦ (r, true) ∷ receive_all (sent ++ batch) (suc taken) rest
  ]

-- One change of those that are due.
abbrev pub less_one : ℕ → ℕ
less_one zero = 0
less_one (suc n) = n

abbrev pub and_one : ℕ → ℕ → ℕ
and_one zero later = later
and_one (suc n) later = suc later

-- How many changes are received before the subscriber is more than the capacity behind, from the number
-- of those that wait.
abbrev pub kept_up : ℕ → List (List MembershipChange) → ℕ
kept_up waiting [] = 0
kept_up waiting (batch ∷ rest) =
    let due = waiting + length batch in
    let later = kept_up (less_one due) rest in
    if ltb event_capacity due then 0 else and_one due later
