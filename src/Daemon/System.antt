-- ===== src/Daemon/System.antt =====
-- The whole daemon: what its tasks (crates/pmd/src/daemon) may do to the shared state, one lock at a
-- time and in any order.
mod Slots
mod Keeps
pub mod Handles
use pmd.Prelude.{ℕ, String, ◌≡◌, false, none, List, [], ◌∷◌}
use pmd.Prelude.Maps.{contains_key}
use pmd.Platform.{Platform}
use pmd.Config.{Config}
use pmd.Protocol.{ControlRequest}
use pmd.Daemon.{
  PeerHandle, DaemonState, MainEvent, init, main_step, forward_discovered, begin_shutdown,
}
use pmd.Daemon.Control.{dispatch_request}
use pmd.Daemon.Peer.{PeerEvent, register_peer, peer_step, cleanup}

module _ (P : Platform) (config : Config P) where
  open P use {Addr, Vv}

  -- One task takes the lock once.
  pub data Step : DaemonState P → DaemonState P → Type 0 where
    main : (event : MainEvent) (st : DaemonState P) → Step st (main_step P event st).0
    discovered : (a : Addr) (st : DaemonState P) → Step st (forward_discovered P a st)
    requested :
        (now : ℕ) (request : ControlRequest) (st : DaemonState P)
        → Step st (dispatch_request P now request st).0
    stopping : (st : DaemonState P) → Step st (begin_shutdown P st)
    -- a session registers its peer, if it has no handle yet
    registered :
        (id : String) (a : Addr) (vv : Vv) (st : DaemonState P)
        → contains_key id st.peers ≡ false
        → Step st (register_peer P config id a vv st)
    session :
        (id : String) (event : PeerEvent P) (st : DaemonState P)
        → Step st (peer_step P config id event st).state
    ended : (id : String) (a : Addr) (st : DaemonState P) → Step st (cleanup P id a st)

  pub data Reach (s : DaemonState P) : DaemonState P → Type 0 where
    here : Reach s s
    next : {t u : DaemonState P} → Reach s t → Step t u → Reach s u

module _ (P : Platform) where
  -- The same peer at the same address.
  abbrev pub SamePeer : PeerHandle P → PeerHandle P → Type 0
  SamePeer h h' = (h'.node_id ≡ h.node_id) × (h'.addr ≡ h.addr)
