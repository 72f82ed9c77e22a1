-- ===== src/Daemon/Peer/Dialogue/Agreed.antt =====
-- How the handshakes of crates/pmd/src/daemon/peer.rs fit together.
use pmd.Prelude.{ℕ, zero, suc, ◌≡◌, ◌≢◌, refl, ap, false, none, some, List, [], ◌∷◌, arith}
use pmd.Prelude.Maps.{contains_key}
use pmd.Platform.{Platform}
use pmd.Protocol.{Message, handshake, handshake_ack, protocol_version}
use pmd.Protocol.Cookie.{compute_cookie_hmac, verify_cookie_hmac_iff}
use pmd.Daemon.{DaemonState}
use pmd.Daemon.Peer.{
  ok, err, closed_early, invalid_hmac, Step, stop, check_handshake, check_handshake_ack,
  own_listen_addr, register_peer, initial_sync, serve_inbound, serve_outbound, message_loop,
  run_inbound, run_outbound,
}
use pmd.Daemon.Peer.Dialogue.{Side, turns, surroundings, outbound, inbound, talk}
use pmd.Daemon.Peer.Dialogue.Turns.{serve_peer-open}

module _ (P : Platform) (a b : Side P) (la lb : P.Addr) where
  open P use {Addr, Vv, crypto, vv_new, version_vector, delta_since}

  -- What the caller and the called write first.
  abbrev pub hello : Message P
  hello =
      handshake a.state.membership.node_id la a.nonce (compute_cookie_hmac crypto a.cookie a.nonce)
        a.version protocol_version

  -- The states in which the two come to register each other.
  abbrev pub a_free : DaemonState P
  a_free = a.before_register a.state

  abbrev pub b_free : DaemonState P
  b_free = b.before_register b.state

  abbrev pub ack : Message P
  ack =
      handshake_ack b_free.membership.node_id lb b.nonce
        (compute_cookie_hmac crypto b.cookie b.nonce) (version_vector b_free.membership.doc)
        b.version protocol_version

  -- The states in which they have registered each other, and come to their message loops.
  abbrev pub a_ready : DaemonState P
  a_ready = a.before_sync (
      register_peer P a.config b_free.membership.node_id lb (version_vector b_free.membership.doc)
        a_free)

  abbrev pub b_ready : DaemonState P
  b_ready = b.before_sync (register_peer P b.config a.state.membership.node_id la vv_new b_free)

  -- The caller that is hung up on.
  abbrev pub a_closed : Step P
  a_closed = record { state = a.state; sent = hello ∷ []; ended = some (err closed_early) }

  pub outbound-nil : own_listen_addr P a.config ≡ ok la → outbound P a [] ≡ a_closed
  unfolding outbound
  outbound-nil own = rw (own, run_outbound)

  pub inbound-nil : inbound P b [] ≡ stop P (err closed_early) b.state
  unfolding inbound run_inbound
  inbound-nil = refl

  pub talk_start :
      own_listen_addr P a.config ≡ ok la
      → talk P a b zero ≡ (a_closed, stop P (err closed_early) b.state)
  unfolding talk
  talk_start own = rw (outbound-nil own, inbound-nil)

  pub talk_next :
      (n : ℕ) {p : Step P × Step P} {x y : Step P}
      → talk P a b n ≡ p
      → outbound P a p.1.sent ≡ x
      → inbound P b p.0.sent ≡ y
      → talk P a b (suc n) ≡ (x, y)
  unfolding talk
  talk_next n e f g = rw (e, f, g)

  pub hello-accepted :
      compute_cookie_hmac crypto a.cookie a.nonce ≡ compute_cookie_hmac crypto b.cookie a.nonce
      → check_handshake P b.cookie hello ≡ ok (a.state.membership.node_id, la)
  unfolding check_handshake
  hello-accepted same = ground (
    arith,
    same,
    verify_cookie_hmac_iff crypto b.cookie a.nonce (compute_cookie_hmac crypto a.cookie a.nonce),
  )

  hello-refused :
      compute_cookie_hmac crypto a.cookie a.nonce ≢ compute_cookie_hmac crypto b.cookie a.nonce
      → check_handshake P b.cookie hello ≡ err invalid_hmac
  unfolding check_handshake
  hello-refused differ = ground (
    arith,
    differ,
    verify_cookie_hmac_iff crypto b.cookie a.nonce (compute_cookie_hmac crypto a.cookie a.nonce),
  )

  inbound-refused :
      (rest : List (Message P))
      → compute_cookie_hmac crypto a.cookie a.nonce ≢ compute_cookie_hmac crypto b.cookie a.nonce
      → inbound P b (hello ∷ rest) ≡ stop P (err invalid_hmac) b.state
  unfolding inbound
  inbound-refused rest differ = rw (hello-refused differ, run_inbound)

  pub ack-accepted :
      compute_cookie_hmac crypto a.cookie b.nonce ≡ compute_cookie_hmac crypto b.cookie b.nonce
      → check_handshake_ack P a.cookie ack
        ≡ ok (b_free.membership.node_id, lb, version_vector b_free.membership.doc)
  unfolding check_handshake_ack
  ack-accepted same = ground (
    arith,
    same,
    verify_cookie_hmac_iff crypto a.cookie b.nonce (compute_cookie_hmac crypto b.cookie b.nonce),
  )

  pub inbound-hello :
      (rest : List (Message P))
      → compute_cookie_hmac crypto a.cookie a.nonce ≡ compute_cookie_hmac crypto b.cookie a.nonce
      → own_listen_addr P b.config ≡ ok lb
      → contains_key a.state.membership.node_id b_free.peers ≡ false
      → (loop : Step P)
      → message_loop P b.config a.state.membership.node_id (turns P b rest) b_ready ≡ loop
      → loop.ended ≡ none
      → inbound P b (hello ∷ rest) ≡ record loop { sent = ack ∷ initial_sync P b_ready ∷ loop.sent }
  unfolding inbound
  inbound-hello rest same own free loop e open_end =
      rw (hello-accepted same, run_inbound, free, serve_inbound, own)
        (ap (λ (r : Step P). record r { sent = ack ∷ r.sent })
          (serve_peer-open P b.config a.state.membership.node_id la
            (surroundings P b (hello ∷ rest)) _ loop refl e open_end))

  pub outbound-ack :
      (rest : List (Message P))
      → compute_cookie_hmac crypto a.cookie b.nonce ≡ compute_cookie_hmac crypto b.cookie b.nonce
      → own_listen_addr P a.config ≡ ok la
      → contains_key b_free.membership.node_id a_free.peers ≡ false
      → (loop : Step P)
      → message_loop P a.config b_free.membership.node_id (turns P a rest) a_ready ≡ loop
      → loop.ended ≡ none
      → outbound P a (ack ∷ rest)
        ≡ record loop { sent = hello ∷ initial_sync P a_ready ∷ loop.sent }
  unfolding outbound
  outbound-ack rest same own free loop e open_end =
      rw (own, run_outbound, ack-accepted same, serve_outbound, free)
        (ap (λ (r : Step P). record r { sent = hello ∷ r.sent })
          (serve_peer-open P a.config b_free.membership.node_id lb (surroundings P a (ack ∷ rest)) _
            loop refl e open_end))

  -- The two can connect: they share a cookie, know where they listen, and have no handle of each other.
  pub record CanConnect : Type 0 where
    pub same_cookie : a.cookie ≡ b.cookie
    pub a_listens : own_listen_addr P a.config ≡ ok la
    pub b_listens : own_listen_addr P b.config ≡ ok lb
    pub b_unknown : contains_key b_free.membership.node_id a_free.peers ≡ false
    pub a_unknown : contains_key a.state.membership.node_id b_free.peers ≡ false

  -- A caller whose tag of its own nonce is not the one under the other's cookie is turned away: each
  -- of the two ends with an error, the caller has sent its handshake and the other nothing, and
  -- neither state has changed.
  pub talk-refused :
      own_listen_addr P a.config ≡ ok la
      → compute_cookie_hmac crypto a.cookie a.nonce ≢ compute_cookie_hmac crypto b.cookie a.nonce
      → (n : ℕ) → talk P a b (suc n) ≡ (a_closed, stop P (err invalid_hmac) b.state)
  talk-refused own differ zero =
      talk_next 0 (talk_start own) (outbound-nil own) (inbound-refused [] differ)
  talk-refused own differ (suc n) =
      talk_next (suc n) (talk-refused own differ n) (outbound-nil own) (inbound-refused [] differ)
