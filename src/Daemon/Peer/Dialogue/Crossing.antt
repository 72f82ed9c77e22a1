-- ===== src/Daemon/Peer/Dialogue/Crossing.antt =====
-- Two daemons that call each other at the same time: crates/pmd/src/daemon/peer.rs.
use pmd.Prelude.{ℕ, String, ◌≡◌, refl, sym, ◌∙◌, ap, true, false, some, List, [], ◌∷◌, arith}
use pmd.Prelude.Maps.{contains_key}
use mathlib.Core.Path.{subst}
use pmd.Platform.{Platform, IsSegment}
use pmd.Protocol.Cookie.{compute_cookie_hmac}
use pmd.Protocol.Frame
use pmd.Daemon.{DaemonState}
use pmd.Daemon.Peer.{
  ok, Step, Surroundings, stop, reader_gone, own_listen_addr, register_peer, message_loop,
  serve_peer, serve_inbound, serve_outbound, run_inbound, run_outbound,
}
use pmd.Daemon.Peer.Session.{Cleaned, serve_peer-Cleaned}
use pmd.Daemon.Peer.Leak.{lookup-register_peer}
use pmd.Daemon.Peer.Dialogue.{Side}
use pmd.Daemon.Peer.Dialogue.Agreed.{hello, ack, hello-accepted, ack-accepted, b_ready, CanConnect}

module _ (P : Platform) where
  -- A session that a daemon accepts, whose other end goes away behind the greeting.
  abbrev pub hung_up :
      Side P → (DaemonState P → DaemonState P) → (DaemonState P → DaemonState P) → Surroundings P
  hung_up side others before_cleanup = record {
    before_register = side.before_register;
    greeting_written = true;
    before_sync = side.before_sync;
    sync_written = true;
    turns = (others, reader_gone) ∷ [];
    before_cleanup = before_cleanup;
  }

  -- A session that a daemon opens, overtaken by the one that the peer opened: when the reply comes,
  -- that one has registered the peer.
  abbrev pub overtaken : Side P → String → P.Addr → Surroundings P
  overtaken side id addr = record {
    before_register = λ st. register_peer P side.config id addr P.vv_new (side.before_register st);
    greeting_written = true;
    before_sync = side.before_sync;
    sync_written = true;
    turns = [];
    before_cleanup = λ st. st;
  }

  -- The session that `a` opens, and the one that `b` accepts, on one connection.
  abbrev pub opened : Side P → Side P → P.Addr → P.Addr → Step P
  opened a b la lb =
      run_outbound P a.config a.cookie a.nonce a.version (Frame.Result.ok (some (ack P a b la lb)))
        (overtaken a b.state.membership.node_id lb) a.state

  abbrev pub accepted :
      Side P
      → Side P
      → P.Addr
      → P.Addr
      → (DaemonState P → DaemonState P)
      → (DaemonState P → DaemonState P)
      → Step P
  accepted a b la lb others before_cleanup =
      run_inbound P b.config b.cookie b.nonce b.version (Frame.Result.ok (some (hello P a b la lb)))
        (hung_up b others before_cleanup) b.state

  opened-duplicate :
      (a b : Side P) (la lb : P.Addr)
      → a.cookie ≡ b.cookie
      → own_listen_addr P a.config ≡ ok la
      → (b.before_register b.state).membership.node_id ≡ b.state.membership.node_id
      → opened a b la lb ≡ record {
        state =
            register_peer P a.config b.state.membership.node_id lb P.vv_new
              (a.before_register a.state);
        sent = hello P a b la lb ∷ [];
        ended = some (ok tt);
      }
  unfolding run_outbound
  opened-duplicate a b la lb same own kept =
      let id_b = b.state.membership.node_id in
      let found : contains_key id_b
            (register_peer P a.config id_b lb P.vv_new (a.before_register a.state)).peers
          ≡ true =
        ground (
          arith,
          lookup-register_peer P a.config a.cookie a.nonce a.version id_b lb
              (a.before_register a.state),
        ) in
      rw (
        own,
        run_outbound,
        ack-accepted P a b la lb (ap (λ k. compute_cookie_hmac P.crypto k b.nonce) same),
        kept,
        serve_outbound,
        found,
      )

  accepted-served :
      (a b : Side P) (la lb : P.Addr) (others before_cleanup : DaemonState P → DaemonState P)
      → a.cookie ≡ b.cookie
      → own_listen_addr P b.config ≡ ok lb
      → contains_key a.state.membership.node_id (b.before_register b.state).peers ≡ false
      → let rest =
          serve_peer P b.config a.state.membership.node_id la (hung_up b others before_cleanup) (
            register_peer P b.config a.state.membership.node_id la P.vv_new
              (b.before_register b.state)) in
        accepted a b la lb others before_cleanup
        ≡ record rest { sent = ack P a b la lb ∷ rest.sent }
  unfolding run_inbound
  accepted-served a b la lb others before_cleanup same own free = rw (
    hello-accepted P a b la lb (ap (λ k. compute_cookie_hmac P.crypto k a.nonce) same),
    run_inbound,
    free,
    serve_inbound,
    own,
  )

  message_loop-hung_up :
      (side : Side P) (id : String) (others : DaemonState P → DaemonState P) (st : DaemonState P)
      → message_loop P side.config id ((others, reader_gone) ∷ []) st ≡ stop P (ok tt) (others st)
  unfolding message_loop
  message_loop-hung_up side id others st = refl

  accepted-Cleaned :
      (a b : Side P) (la lb : P.Addr) (others before_cleanup : DaemonState P → DaemonState P)
      → a.cookie ≡ b.cookie
      → own_listen_addr P b.config ≡ ok lb
      → contains_key a.state.membership.node_id (b.before_register b.state).peers ≡ false
      → IsSegment a.state.membership.node_id
      → ((accepted a b la lb others before_cleanup).ended ≡ some (ok tt))
        × Cleaned P a.state.membership.node_id la
            (before_cleanup (others (b_ready P a b la lb)))
            (accepted a b la lb others before_cleanup).state
  accepted-Cleaned a b la lb others before_cleanup same own free seg =
      let id = a.state.membership.node_id in
      let env = hung_up b others before_cleanup in
      let registered = register_peer P b.config id la P.vv_new (b.before_register b.state) in
      let served = accepted-served a b la lb others before_cleanup same own free in
      let looped = message_loop-hung_up b id others (b.before_sync registered) in
      let (ended, cleaned) =
        serve_peer-Cleaned P b.config id la env registered (ok tt) seg refl
          (ap (λ (r : Step P). r.ended) looped) in
      rw served (
        ended,
        subst (λ st. Cleaned P id la st (serve_peer P b.config id la env registered).state)
            (ap (λ (r : Step P). before_cleanup r.state) looped) cleaned,
      )

  -- A daemon of the two, on a connection with other nonces.
  abbrev pub redraw : List ℕ → Side P → Side P
  redraw nonce side = record side { nonce = nonce }

  -- Two daemons that can connect call each other at the same time, so that each has registered the
  -- other in the session that it accepted when the reply comes to the session that it opened. Then
  -- both lose both connections: each drops the session that it opened as a duplicate, without an error;
  -- and each ends the session that it accepted, whose loop sees that end next, with neither a handle nor
  -- a member for the other. The ids are path segments, and no other task changes a daemon's own id.
  pub crossing-lost :
      (a b : Side P) (la lb : P.Addr) (nonce_a nonce_b : List ℕ)
      (others_a cleanup_a others_b cleanup_b : DaemonState P → DaemonState P)
      → CanConnect P a b la lb
      → (a.before_register a.state).membership.node_id ≡ a.state.membership.node_id
      → (b.before_register b.state).membership.node_id ≡ b.state.membership.node_id
      → IsSegment a.state.membership.node_id
      → IsSegment b.state.membership.node_id
      → let a' = redraw nonce_a a in
        let b' = redraw nonce_b b in
        ((opened a b la lb).ended ≡ some (ok tt))
        × ((opened b' a' lb la).ended ≡ some (ok tt))
        × ((accepted a b la lb others_b cleanup_b).ended ≡ some (ok tt))
        × ((accepted b' a' lb la others_a cleanup_a).ended ≡ some (ok tt))
        × Cleaned P a.state.membership.node_id la
            (cleanup_b (others_b (b_ready P a b la lb)))
            (accepted a b la lb others_b cleanup_b).state
        × Cleaned P b.state.membership.node_id lb
            (cleanup_a (others_a (b_ready P b' a' lb la)))
            (accepted b' a' lb la others_a cleanup_a).state
  crossing-lost a b la lb nonce_a nonce_b others_a cleanup_a others_b cleanup_b c kept_a kept_b
        seg_a seg_b =
      let a' = redraw nonce_a a in
      let b' = redraw nonce_b b in
      let at_b =
        accepted-Cleaned a b la lb others_b cleanup_b c.same_cookie c.b_listens c.a_unknown seg_a in
      let at_a =
        accepted-Cleaned b' a' lb la others_a cleanup_a (sym c.same_cookie) c.a_listens
          (ap (λ id. contains_key id (a.before_register a.state).peers) (sym kept_b) ∙ c.b_unknown)
          seg_b in
      (
        ap (λ (r : Step P). r.ended) (opened-duplicate a b la lb c.same_cookie c.a_listens kept_b),
        ap (λ (r : Step P). r.ended)
            (opened-duplicate b' a' lb la (sym c.same_cookie) c.b_listens kept_a),
        at_b.0,
        at_a.0,
        at_b.1,
        at_a.1,
      )
