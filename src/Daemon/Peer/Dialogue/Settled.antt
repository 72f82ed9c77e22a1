-- ===== src/Daemon/Peer/Dialogue/Settled.antt =====
-- How the sessions of crates/pmd/src/daemon/peer.rs stand when each has heard all that the other writes.
use pmd.Prelude.{ℕ, zero, suc, ◌≡◌, refl, ap, none, List, [], ◌∷◌}
use pmd.Platform.{Platform}
use pmd.Protocol.{heartbeat, heartbeat_ack}
use pmd.Protocol.Cookie.{compute_cookie_hmac}
use pmd.Daemon.Peer.{Step, initial_sync}
use pmd.Daemon.Peer.Dialogue.{Side, outbound, inbound, talk}
use pmd.Daemon.Peer.Dialogue.Agreed.{
  hello, ack, b_free, a_ready, b_ready, a_closed, outbound-nil, talk_start, talk_next,
  inbound-hello, outbound-ack, CanConnect,
}
use pmd.Daemon.Peer.Dialogue.Turns.{
  IsCalm, joined, recorded, message_loop-nil, message_loop-full, message_loop-all,
}

module _ (P : Platform) (a b : Side P) (la lb : P.Addr) where
  open P use {crypto, vv_new, version_vector}

  -- Both come to their loops with the other's handle as they registered it, and thresholds that are not
  -- below zero.
  pub record BothCalm : Type 0 where
    pub a_calm :
        IsCalm P a
          (b_free P a b la lb).membership.node_id
          lb
          (version_vector (b_free P a b la lb).membership.doc)
          (a_ready P a b la lb)
    pub b_calm : IsCalm P b a.state.membership.node_id la vv_new (b_ready P a b la lb)

  -- The caller that has heard the first two messages, and the called that waits.
  abbrev a_half : Step P
  a_half = record {
    state =
        joined P a (b_free P a b la lb).membership.node_id lb
          (version_vector (b_free P a b la lb).membership.doc) (a_ready P a b la lb)
          (b_ready P a b la lb);
    sent =
        hello P a b la lb ∷ initial_sync P (a_ready P a b la lb) ∷ heartbeat ∷ heartbeat_ack ∷ [];
    ended = none;
  }

  abbrev b_waiting : Step P
  b_waiting = record {
    state = b_ready P a b la lb;
    sent = ack P a b la lb ∷ initial_sync P (b_ready P a b la lb) ∷ heartbeat ∷ [];
    ended = none;
  }

  -- The two when there is nothing more to hear.
  abbrev pub a_settled : Step P
  a_settled = record a_half {
    state = recorded P a (b_free P a b la lb).membership.node_id a_half.state;
  }

  abbrev pub b_settled : Step P
  b_settled = record {
    state = recorded P b a.state.membership.node_id (
        joined P b a.state.membership.node_id la vv_new (b_ready P a b la lb)
          (a_ready P a b la lb));
    sent = ack P a b la lb ∷ initial_sync P (b_ready P a b la lb) ∷ heartbeat ∷ heartbeat_ack ∷ [];
    ended = none;
  }

  module _ (c : CanConnect P a b la lb) (calm : BothCalm) where
    open c use {same_cookie, a_listens, b_listens, b_unknown, a_unknown}
    open calm use {a_calm, b_calm}

    tags :
        (nonce : List ℕ)
        → compute_cookie_hmac crypto a.cookie nonce ≡ compute_cookie_hmac crypto b.cookie nonce
    tags nonce = ap (λ k. compute_cookie_hmac crypto k nonce) same_cookie

    outbound-half : outbound P a b_waiting.sent ≡ a_half
    outbound-half =
        outbound-ack P a b la lb _ (tags b.nonce) a_listens b_unknown _
          (message_loop-full P a (b_free P a b la lb).membership.node_id lb _ (a_ready P a b la lb)
            (b_ready P a b la lb) a_calm)
          refl

    outbound-settled : outbound P a b_settled.sent ≡ a_settled
    outbound-settled =
        outbound-ack P a b la lb _ (tags b.nonce) a_listens b_unknown _
          (message_loop-all P a (b_free P a b la lb).membership.node_id lb _ (a_ready P a b la lb)
            (b_ready P a b la lb) a_calm)
          refl

    inbound-settled : inbound P b a_settled.sent ≡ b_settled
    inbound-settled =
        inbound-hello P a b la lb _ (tags a.nonce) b_listens a_unknown _
          (message_loop-all P b a.state.membership.node_id la vv_new (b_ready P a b la lb)
            (a_ready P a b la lb) b_calm)
          refl

    inbound-first : inbound P b (hello P a b la lb ∷ []) ≡ b_waiting
    inbound-first =
        inbound-hello P a b la lb [] (tags a.nonce) b_listens a_unknown _
          (message_loop-nil P b a.state.membership.node_id la vv_new (b_ready P a b la lb) b_calm)
          refl

    -- From the fourth round on both have heard all there is.
    pub talk-settled : (n : ℕ) → talk P a b (suc (suc (suc (suc n)))) ≡ (a_settled, b_settled)
    talk-settled zero = talk_next P a b la lb 3 three outbound-settled inbound-settled
      where
        one : talk P a b 1 ≡ (a_closed P a b la lb, b_waiting)
        one =
            talk_next P a b la lb 0 (talk_start P a b la lb a_listens)
              (outbound-nil P a b la lb a_listens) inbound-first

        two : talk P a b 2 ≡ (a_half, b_waiting)
        two = talk_next P a b la lb 1 one outbound-half inbound-first

        three : talk P a b 3 ≡ (a_half, b_settled)
        three = talk_next P a b la lb 2 two outbound-half inbound-settled
    talk-settled (suc n) =
        talk_next P a b la lb (suc (suc (suc (suc n)))) (talk-settled n) outbound-settled
          inbound-settled
