-- ===== src/Examples/Feed.antt =====
-- A subscriber that falls behind.
use pmd.Prelude.{
  ℕ, zero, suc, ◌+◌, ◌-◌, ◌≡◌, refl, Option, none, some, List, [], ◌∷◌, arith, length, get_elem?,
  ltb, map, if◌then◌else◌,
}
use pmd.Protocol.{ControlRequest, node_joined, node_left}
use pmd.Membership.{MembershipChange}
use pmd.Daemon.Control.Socket.{Received, change, lagged, sending, handle_control_client}
use pmd.Daemon.Control.Socket.Channel.{Channel, receive_all}
use pmd.Cli.Subscriber.{run_subscribe}
use pmd.Cli.Subscriber.Delivery.{change_line}
use pmd.Cli.Subscriber.Gapless.{run_subscribe-gapless}
use pmd.Examples.Toy.{toy}
use pmd.Examples.Codec.{codec}
use pmd.Examples.Sessions.{idle}

abbrev next_of : Option MembershipChange → Option Received
next_of none = none
next_of (some c) = some (change c)

abbrev recv : ℕ → List MembershipChange → ℕ → Option Received
recv capacity sent taken =
    if ltb (taken + capacity) (length sent)
    then some (lagged (length sent - (taken + capacity)))
    else next_of (get_elem? sent taken)

get_elem?-length : (sent : List MembershipChange) → get_elem? sent (length sent) ≡ none
get_elem?-length [] = refl
get_elem?-length (c ∷ sent) = get_elem?-length sent

recv-waits : (capacity : ℕ) (sent : List MembershipChange) → recv capacity sent (length sent) ≡ none
recv-waits capacity sent = ground (arith, get_elem?-length sent)

abbrev events : Channel
events = record {
  recv = recv;
  recv-waits = recv-waits;
  recv-next = λ capacity taken sent c e h. ground (arith, e, h);
  recv-lags = λ capacity taken sent h. ground (arith, h);
}

abbrev joined : MembershipChange
joined = record { event = node_joined; node_id = "bob"; addr = "10.0.0.2:4369" }

abbrev left : MembershipChange
left = record { event = node_left; node_id = "bob"; addr = "10.0.0.2:4369" }

abbrev many : ℕ → List MembershipChange
many zero = []
many (suc n) = joined ∷ many n

-- Two changes that are received at once, and then more than the channel holds.
abbrev batches : List (List MembershipChange)
batches = (joined ∷ left ∷ []) ∷ [] ∷ [] ∷ many 257 ∷ (left ∷ []) ∷ []

run_subscribe-gapless_example :
    (run_subscribe toy codec
        (handle_control_client toy codec 9
          (sending toy codec (receive_all events [] 0 batches) ControlRequest.subscribe)
          idle).outgoing
      ≡ map change_line (joined ∷ left ∷ []))
    × ((handle_control_client toy codec 9
          (sending toy codec (receive_all events [] 0 batches) ControlRequest.subscribe)
          idle).state
        ≡ idle)
run_subscribe-gapless_example = run_subscribe-gapless toy codec events 9 batches idle
