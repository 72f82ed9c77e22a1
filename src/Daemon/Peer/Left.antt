-- ===== src/Daemon/Peer/Left.antt =====
-- What a session of crates/pmd/src/daemon/peer.rs does after `pmd leave` removed its handle.
use pmd.Prelude.{ℕ, String, ◌≡◌, refl, true, Option, none, some, [], ◌∷◌, arith, eq_refl}
use pmd.Prelude.Maps.{lookup, Distinct}
use pmd.Platform.{Platform}
use pmd.Config.{Config}
use pmd.Protocol.{heartbeat, heartbeat_ack}
use pmd.Protocol.Frame
use pmd.Daemon.{PeerHandle, DaemonState, leave_peer}
use pmd.Daemon.Peers.{lookup-leave_peer}
use pmd.Daemon.Peer.{heartbeat_due, phi_check, gossip_signal, received, peer_step}

module _ (P : Platform) (config : Config P) (id : String) where
  open P use {addr_to_string}

  -- In a map of peers with distinct keys, a leave for a peer's address takes its handle away
  -- and does not end its session: the loop still sends heartbeats and answers those of the
  -- peer, sends no delta when it is signalled, and never declares the peer dead, however much
  -- time has passed.
  pub peer_step-leave_peer :
      (st : DaemonState P) (h : PeerHandle P) (wall : Option ℕ) (now : ℕ)
      → Distinct st.peers
      → lookup id st.peers ≡ some h
      → (left : DaemonState P) × (left ≡ leave_peer P (addr_to_string h.addr) st)
        × (lookup id left.peers ≡ none)
        × (peer_step P config id (heartbeat_due true) left
            ≡ record { state = left; sent = heartbeat ∷ []; ended = none })
        × (peer_step P config id (received (Frame.Result.ok heartbeat) wall now true) left
            ≡ record { state = left; sent = heartbeat_ack ∷ []; ended = none })
        × (peer_step P config id (phi_check now) left
            ≡ record { state = left; sent = []; ended = none })
        × (peer_step P config id (gossip_signal true) left
            ≡ record { state = left; sent = []; ended = none })
  unfolding peer_step
  peer_step-leave_peer st h wall now d here =
      let left = leave_peer P (addr_to_string h.addr) st in
      let gone : lookup id left.peers ≡ none = ground (
        arith,
        lookup-leave_peer P (addr_to_string h.addr) id st d,
        eq_refl (addr_to_string h.addr),
      ) in
      (left, refl, gone, refl, refl, ground (arith, gone), ground (arith, gone))
