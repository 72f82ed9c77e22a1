-- ===== src/Daemon/System/Keeps.antt =====
-- Which handles the tasks of crates/pmd/src/daemon keep, one operation at a time.
use pmd.Prelude.{
  not, ◌&&◌, ℕ, String, ◌≡◌, refl, Bool, true, false, Option, none, some, List, [], ◌∷◌, arith,
  ◌==◌, Bool-cases, Option-cases, inl, inr,
}
use pmd.Prelude.Maps.{Map, lookup, remove, update}
use pmd.Platform.{Platform}
use pmd.Config.{Config}
use pmd.Protocol.{Message, ControlRequest, membership_sync, heartbeat, heartbeat_ack}
use pmd.Protocol.Frame
use pmd.Membership.{Membership, MembershipChange, merge_remote}
use pmd.Daemon.{
  PeerHandle, DaemonState, MainEvent, sigint, tick, gossip_tick, mesh_tick, main_step,
  forward_discovered, begin_shutdown, signal, peers_at, leave_peer, leave_all, process_tick, choose,
  gossip_sync_random_peer, mesh_expand_random_peer, keys,
}
use pmd.Daemon.Control.{dispatch_request}
use pmd.Daemon.Peer.{
  write, with_peer, PeerEvent, cancelled, heartbeat_due, phi_check, gossip_signal, received,
  reader_gone, after_merge, on_message, peer_step, cleanup,
}
use pmd.Daemon.System.Slots.{
  Keeps, Keeps-refl, Keeps-trans, remove-Keeps, remove_all-Keeps, update-Keeps, signal_all-Keeps,
}

-- Every handle stays.
abbrev stay_all : String → Bool
stay_all k = false

abbrev is_leaving : List String → Bool
is_leaving [] = false
is_leaving (l ∷ ls) = true

module _ (P : Platform) where
  -- A tick works off the requests to leave, unless it ends the main loop.
  abbrev pub ticks_off : MainEvent → DaemonState P → Bool
  ticks_off tick st = not st.shutdown_requested && is_leaving st.pending_leaves
  ticks_off _ st = false

  same_peers-Keeps :
      (st st' : DaemonState P) → st'.peers ≡ st.peers → Keeps P stay_all st.peers st'.peers
  same_peers-Keeps st st' e = rw e (Keeps-refl P _ st.peers)

  leave_all-Keeps_any :
      (ls : List String) (st : DaemonState P)
      → Keeps P (λ _. true) st.peers (leave_all P ls st).peers
  unfolding leave_all leave_peer
  leave_all-Keeps_any [] st = Keeps-refl P _ st.peers
  leave_all-Keeps_any (l ∷ ls) st =
      Keeps-trans P _ st.peers (leave_peer P l st).peers (leave_all P ls (leave_peer P l st)).peers
        (remove_all-Keeps P (peers_at P l st.peers) st.peers)
        (leave_all-Keeps_any ls (leave_peer P l st))

  leave_all-Keeps :
      (ls : List String) (st : DaemonState P)
      → Keeps P (λ _. is_leaving ls) st.peers (leave_all P ls st).peers
  unfolding leave_all
  leave_all-Keeps [] st = Keeps-refl P _ st.peers
  leave_all-Keeps (l ∷ ls) st = leave_all-Keeps_any (l ∷ ls) st

  gossip-Keeps :
      (pick : ℕ) (st : DaemonState P)
      → Keeps P stay_all st.peers (gossip_sync_random_peer P pick st).peers
  unfolding gossip_sync_random_peer
  gossip-Keeps pick st = go (choose P pick (keys st.peers))
    where
      go :
          (o : Option String)
          → Keeps P stay_all st.peers
              (elim o as (λ _. DaemonState P) [
                | none ↦ st
                | some k ↦ record st { peers = update k (signal P) st.peers }
              ]).peers
      go none = Keeps-refl P _ st.peers
      go (some k) = update-Keeps P _ k (signal P) (λ h. (refl, refl)) st.peers

  pub main_step-Keeps :
      (event : MainEvent) (st : DaemonState P)
      → Keeps P (λ _. ticks_off event st) st.peers (main_step P event st).0.peers
  unfolding main_step process_tick mesh_expand_random_peer
  main_step-Keeps sigint st = Keeps-refl P _ st.peers
  main_step-Keeps tick st = elim (Bool-cases st.shutdown_requested) [
    | inl asked ↦ rw (asked, main_step) (Keeps-refl P _ st.peers)
    | inr free ↦
        rw (free, main_step)
          (leave_all-Keeps st.pending_leaves
            (record st { pending_joins = []; pending_leaves = []; shutdown_requested = false }))
  ]
  main_step-Keeps (gossip_tick pick) st = gossip-Keeps pick st
  main_step-Keeps (mesh_tick pick) st =
      same_peers-Keeps st (mesh_expand_random_peer P pick st) (ground arith)

  on_message-Keeps :
      (k : String) (msg : Message P) (wall : Option ℕ) (now : ℕ) (written : Bool)
      (st : DaemonState P)
      → Keeps P stay_all st.peers (on_message P k msg wall now written st).state.peers
  unfolding on_message after_merge
  on_message-Keeps k heartbeat wall now true st = Keeps-refl P _ st.peers
  on_message-Keeps k heartbeat wall now false st = Keeps-refl P _ st.peers
  on_message-Keeps k heartbeat_ack wall now written st =
      update-Keeps P _ k _ (λ h. (refl, refl)) st.peers
  on_message-Keeps k (membership_sync bytes vv) wall now written st =
      go (merge_remote P bytes st.membership)
    where
      go :
          (o : Option (List MembershipChange × Membership P))
          → Keeps P stay_all st.peers (after_merge P k vv st o).state.peers
      go none = Keeps-refl P _ st.peers
      go (some p) = update-Keeps P _ k _ (λ h. (refl, refl)) st.peers
  on_message-Keeps k _ wall now written st = Keeps-refl P _ st.peers

  write-Keeps :
      (before : Map (PeerHandle P)) (written : Bool) (msg : Message P) (st : DaemonState P)
      → Keeps P stay_all before st.peers
      → Keeps P stay_all before (write P written msg st).state.peers
  write-Keeps before true msg st w = w
  write-Keeps before false msg st w = w

  pub peer_step-Keeps :
      (config : Config P) (k : String) (event : PeerEvent P) (st : DaemonState P)
      → Keeps P stay_all st.peers (peer_step P config k event st).state.peers
  unfolding peer_step
  peer_step-Keeps config k cancelled st = Keeps-refl P _ st.peers
  peer_step-Keeps config k (heartbeat_due written) st =
      write-Keeps st.peers written heartbeat st (Keeps-refl P _ st.peers)
  peer_step-Keeps config k (phi_check now) st =
      same_peers-Keeps st (peer_step P config k (phi_check now) st).state (ground arith)
  peer_step-Keeps config k (gossip_signal written) st = elim (Option-cases (lookup k st.peers)) [
    | inl gone ↦ rw (gone, peer_step) (Keeps-refl P _ st.peers)
    | inr (h, found) ↦
        rw (found, peer_step)
          (write-Keeps st.peers written _ (with_peer P st k (λ h. record h { gossip_tx = false }))
            (update-Keeps P _ k _ (λ h. (refl, refl)) st.peers))
  ]
  peer_step-Keeps config k (received (Frame.Result.ok msg) wall now written) st =
      on_message-Keeps k msg wall now written st
  peer_step-Keeps config k (received (Frame.Result.err e) wall now written) st =
      Keeps-refl P _ st.peers
  peer_step-Keeps config k reader_gone st = Keeps-refl P _ st.peers

  pub forward_discovered-Keeps :
      (a : P.Addr) (st : DaemonState P)
      → Keeps P stay_all st.peers (forward_discovered P a st).peers
  unfolding forward_discovered
  forward_discovered-Keeps a st = same_peers-Keeps st (forward_discovered P a st) (ground arith)

  pub dispatch_request-Keeps :
      (now : ℕ) (request : ControlRequest) (st : DaemonState P)
      → Keeps P stay_all st.peers (dispatch_request P now request st).0.peers
  unfolding dispatch_request
  dispatch_request-Keeps now ControlRequest.status st = Keeps-refl P _ st.peers
  dispatch_request-Keeps now ControlRequest.nodes st = Keeps-refl P _ st.peers
  dispatch_request-Keeps now (ControlRequest.join a) st = Keeps-refl P _ st.peers
  dispatch_request-Keeps now (ControlRequest.leave a) st = Keeps-refl P _ st.peers
  dispatch_request-Keeps now ControlRequest.shutdown st = Keeps-refl P _ st.peers
  dispatch_request-Keeps now (ControlRequest.register n p md) st = Keeps-refl P _ st.peers
  dispatch_request-Keeps now (ControlRequest.unregister n) st = Keeps-refl P _ st.peers
  dispatch_request-Keeps now (ControlRequest.lookup n) st = Keeps-refl P _ st.peers
  dispatch_request-Keeps now ControlRequest.subscribe st = Keeps-refl P _ st.peers

  pub begin_shutdown-Keeps :
      (st : DaemonState P) → Keeps P stay_all st.peers (begin_shutdown P st).peers
  unfolding begin_shutdown
  begin_shutdown-Keeps st = signal_all-Keeps P _ st.peers

  pub cleanup-Keeps :
      (j : String) (a : P.Addr) (st : DaemonState P)
      → Keeps P (λ k. j == k) st.peers (cleanup P j a st).peers
  unfolding cleanup
  cleanup-Keeps j a st =
      Keeps-trans P _ st.peers (remove j st.peers) (cleanup P j a st).peers
        (remove-Keeps P _ j st.peers (λ k e. e)) (signal_all-Keeps P _ (remove j st.peers))
