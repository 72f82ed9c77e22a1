-- ===== src/Daemon/Peer/Dialogue.antt =====
-- Two daemons on one connection: `connect_to_peer` and `run_inbound` of
-- crates/pmd/src/daemon/peer.rs, each reading what the other writes. All writes succeed; each loop begins
-- with the first tick of its two intervals, which is due at once, and no later tick falls into the
-- exchange; what the other tasks of a daemon do before its two first locks is an argument.
pub mod Turns
pub mod Agreed
pub mod Settled
pub mod Members
pub mod Crossing
pub mod Gossip
use pmd.Prelude.{ℕ, zero, suc, String, true, Option, none, some, List, [], ◌∷◌, map}
use pmd.Platform.{Platform}
use pmd.Config.{Config}
use pmd.Protocol.{Message}
use pmd.Protocol.Frame
use pmd.Daemon.{DaemonState}
use pmd.Daemon.Peer.{
  Surroundings, Step, Turn, heartbeat_due, phi_check, received, run_inbound, run_outbound,
}

-- One of the two daemons, with the nonce that it draws, its version, and its clocks.
pub record Side (P : Platform) : Type 0 where
  pub config : Config P
  pub cookie : List ℕ
  pub nonce : List ℕ
  pub version : String
  pub before_register : DaemonState P → DaemonState P
  pub before_sync : DaemonState P → DaemonState P
  pub wall : Option ℕ
  pub now : ℕ
  pub state : DaemonState P

module _ (P : Platform) where
  -- The first read: the end of the stream if the other side has written nothing.
  abbrev pub first_read : List (Message P) → Frame.Result (Option (Message P))
  first_read [] = Frame.Result.ok none
  first_read (msg ∷ rest) = Frame.Result.ok (some msg)

  abbrev pub behind : List (Message P) → List (Message P)
  behind [] = []
  behind (msg ∷ rest) = rest

  -- The messages behind the first one, as the loop gets them.
  abbrev pub arrivals : Side P → List (Message P) → List (Turn P)
  arrivals side msgs =
      map (λ msg. ((λ st. st), received (Frame.Result.ok msg) side.wall side.now true)) msgs

  -- The turns of the loop: the first tick of either interval completes at once. No later tick falls
  -- into the exchange.
  abbrev pub turns : Side P → List (Message P) → List (Turn P)
  turns side msgs =
      ((λ st. st), heartbeat_due true) ∷ ((λ st. st), phi_check side.now) ∷ arrivals side msgs

  abbrev pub surroundings : Side P → List (Message P) → Surroundings P
  surroundings side heard = record {
    before_register = side.before_register;
    greeting_written = true;
    before_sync = side.before_sync;
    sync_written = true;
    turns = turns side (behind heard);
    before_cleanup = λ st. st;
  }

  -- A side's whole session, from what the other side has written.
  unfoldable pub outbound : Side P → List (Message P) → Step P
  unfolding run_outbound
  outbound side heard =
      run_outbound P side.config side.cookie side.nonce side.version (first_read heard)
        (surroundings side heard) side.state

  unfoldable pub inbound : Side P → List (Message P) → Step P
  unfolding run_inbound
  inbound side heard =
      run_inbound P side.config side.cookie side.nonce side.version (first_read heard)
        (surroundings side heard) side.state

  -- The sessions of both sides, each on what the other has written after so many rounds.
  unfoldable pub talk : Side P → Side P → ℕ → Step P × Step P
  unfolding outbound inbound
  talk a b zero = (outbound a [], inbound b [])
  talk a b (suc rounds) = let (x, y) = talk a b rounds in (outbound a y.sent, inbound b x.sent)
