-- ===== src/Daemon/Peer/Dialogue/Gossip.antt =====
-- The gossip between two connected daemons: the message loop of crates/pmd/src/daemon/peer.rs on both sides.
use pmd.Prelude.{
  String, ◌≡◌, refl, sym, ap, true, false, arith, eq_refl, none, some, List, [], ◌∷◌, length,
}
use pmd.Prelude.Maps.{lookup, lookup-update}
use mathlib.Core.Path.{subst}
use pmd.Platform.{Platform}
use pmd.Config.{Config}
use pmd.Protocol.{Message, membership_sync}
use pmd.Protocol.Frame
use pmd.Membership.{members, delta_for_peer}
use pmd.Membership.Merge.{members-cong}
use pmd.Membership.Replication.{Extends, Replication, Same-round}
use pmd.Daemon.Peer.Dialogue.Turns.{synced, peer_step-sync}
use pmd.Daemon.{PeerHandle, DaemonState, broadcast_events}
use pmd.Daemon.Peer.{Step, stay, with_peer, gossip_signal, received, peer_step}

module _ (P : Platform) where
  -- A loop that gets what the other side sent, with a clock that no delta looks at.
  abbrev pub hear : Config P → String → List (Message P) → DaemonState P → Step P
  hear config id [] st = stay P st
  hear config id (msg ∷ rest) st =
      peer_step P config id (received (Frame.Result.ok msg) none 0 true) st

  -- One side is signalled and sends its delta, and the other hears it.
  unfoldable pub tell :
      Config P → String → Config P → String → DaemonState P → DaemonState P → Step P × Step P
  tell config_a id_b config_b id_a a b =
      let x = peer_step P config_a id_b (gossip_signal true) a in (x, hear config_b id_a x.sent b)

  gossip_signal-sent :
      (config : Config P) (id : String) (st : DaemonState P) (peer : PeerHandle P)
      → lookup id st.peers ≡ some peer
      → peer_step P config id (gossip_signal true) st ≡ record {
        state = with_peer P st id (λ peer. record peer { gossip_tx = false });
        sent =
            membership_sync
              (delta_for_peer P peer.last_vv st.membership)
              (P.version_vector st.membership.doc)
            ∷ [];
        ended = none;
      }
  unfolding peer_step delta_for_peer
  gossip_signal-sent config id st peer e = rw (e, peer_step)

  -- The states behind a gossip of each side.
  abbrev signalled_off : String → DaemonState P → DaemonState P
  signalled_off id st = with_peer P st id (λ peer. record peer { gossip_tx = false })

  -- The side that tells.
  abbrev told : String → DaemonState P → PeerHandle P → Step P
  told id_b a peer_b = record {
    state = signalled_off id_b a;
    sent =
        membership_sync (delta_for_peer P peer_b.last_vv a.membership)
          (P.version_vector a.membership.doc)
        ∷ [];
    ended = none;
  }

  tell-synced :
      (config_a : Config P) (id_b : String) (config_b : Config P) (id_a : String)
      (a b : DaemonState P) (peer_b : PeerHandle P)
      → lookup id_b a.peers ≡ some peer_b
      → tell config_a id_b config_b id_a a b ≡ (
        told id_b a peer_b,
        stay P (
            synced P id_a
              (P.version_vector a.membership.doc)
              (P.delta_since a.membership.doc peer_b.last_vv)
              b),
      )
  unfolding tell
  tell-synced config_a id_b config_b id_a a b peer_b e =
      rw (gossip_signal-sent config_a id_b a peer_b e) (
        ap (λ y. (told id_b a peer_b, y))
          (peer_step-sync P config_b id_a a.membership peer_b.last_vv
            (P.version_vector a.membership.doc) none 0 b))

  lookup-synced :
      (id : String) (vv : P.Vv) (δ : P.Delta) (st : DaemonState P) (peer : PeerHandle P)
      → lookup id st.peers ≡ some peer
      → lookup id (synced P id vv δ st).peers ≡ some (record peer { last_vv = vv })
  unfolding broadcast_events
  lookup-synced id vv δ st peer e =
      ground
        (arith, e, eq_refl id, lookup-update id id (λ peer. record peer { last_vv = vv }) st.peers)

  -- One gossip of each side, in which `a` starts, brings two connected daemons together: neither
  -- session ends when it tells nor when it hears, each has sent one delta, and both show the same members; if each has a handle of the other,
  -- and `a` has as the version vector of `b` one that `b` was at, or from which it has grown since.
  pub gossip-members :
      (config_a : Config P) (id_b : String) (config_b : Config P) (id_a : String)
      (a b : DaemonState P) (peer_a peer_b : PeerHandle P) (b0 : P.Doc)
      → Replication P
      → lookup id_b a.peers ≡ some peer_b
      → lookup id_a b.peers ≡ some peer_a
      → peer_b.last_vv ≡ P.version_vector b0
      → Extends P b0 b.membership.doc
      → let (x, y) = tell config_a id_b config_b id_a a b in
        let (y', x') = tell config_b id_a config_a id_b y.state x.state in
        (x.ended ≡ none)
        × (y.ended ≡ none)
        × (y'.ended ≡ none)
        × (x'.ended ≡ none)
        × (length x.sent ≡ 1)
        × (length y'.sent ≡ 1)
        × (members P x'.state.membership ≡ members P y'.state.membership)
  unfolding broadcast_events
  gossip-members config_a id_b config_b id_a a b peer_a peer_b b0 R has_b has_a at grown =
      let vv_a = P.version_vector a.membership.doc in
      let δ = P.delta_since a.membership.doc peer_b.last_vv in
      let b' = synced P id_a vv_a δ b in
      let first = tell-synced config_a id_b config_b id_a a b peer_b has_b in
      let second =
        tell-synced config_b id_a config_a id_b b' (signalled_off id_b a)
          (record peer_a { last_vv = vv_a }) (lookup-synced id_a vv_a δ b peer_a has_a) in
      let same =
        subst
          (λ v.
            P.Same
              (P.merge_delta a.membership.doc (
                P.delta_since (P.merge_delta b.membership.doc (P.delta_since a.membership.doc v))
                  vv_a))
              (P.merge_delta b.membership.doc (P.delta_since a.membership.doc v)))
          (sym at) (Same-round P R a.membership.doc b.membership.doc b0 grown) in
      rw first (
        rw second (
          refl,
          refl,
          refl,
          refl,
          refl,
          refl,
          (members-cong P _ _ (P.Same-materialize _ _ same)).0,
        ))
