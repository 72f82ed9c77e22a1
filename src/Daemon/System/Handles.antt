-- ===== src/Daemon/System/Handles.antt =====
-- The handles of the peers, whatever the tasks of crates/pmd/src/daemon do.
use pmd.Prelude.{String, ◌≡◌, Bool, true, false, Option, none, some, ◌==◌}
use pmd.Prelude.Maps.{lookup}
use pmd.Platform.{Platform}
use pmd.Config.{Config}
use pmd.Daemon.{PeerHandle, DaemonState}
use pmd.Daemon.System.{Step, main, ended, Reach, SamePeer}
use pmd.Daemon.System.Keeps.{ticks_off}

module _ (P : Platform) where
  -- The steps in which the handle under an id may go: the end of a session with the id, and a tick that
  -- works off requests to leave.
  abbrev pub may_go :
      {config : Config P} {st st' : DaemonState P} → Step P config st st' → String → Bool
  may_go (main event st) k = ticks_off P event st
  may_go (ended j a st) k = j == k
  may_go _ k = false

  -- One step, seen at the handle under `k`.
  Stays : Bool → Option (PeerHandle P) → Option (PeerHandle P) → Type 0
  Stays goes (some h) (some h') = SamePeer P h h'
  Stays goes (some h) none = goes ≡ true
  Stays goes none o = Unit {0}

  -- A step in between that may take the handle under `k`, behind which there is none.
  abbrev pub Gone : Config P → String → DaemonState P → DaemonState P → Type 0
  Gone config k s t =
      (u v : DaemonState P) × Reach P config s u
      × ((step : Step P config u v) × (may_go step k ≡ true))
      × (lookup k v.peers ≡ none)
      × Reach P config v t
