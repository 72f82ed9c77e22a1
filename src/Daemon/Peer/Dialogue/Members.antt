-- ===== src/Daemon/Peer/Dialogue/Members.antt =====
-- What two connected daemons know of each other: crates/pmd/src/daemon/peer.rs, over the merges of
-- crates/pmd/src/daemon/membership.rs.
use pmd.Prelude.{ℕ, suc, ◌≡◌, refl, none, [], ◌∷◌}
use pmd.Platform.{Platform}
use pmd.Protocol.{heartbeat, heartbeat_ack}
use pmd.Membership.Replication.{Replication, Same-exchange}
use pmd.Daemon.{broadcast_events}
use pmd.Membership.{members}
use pmd.Membership.Merge.{members-cong}
use pmd.Daemon.Peer.{initial_sync}
use pmd.Daemon.Peer.Dialogue.{Side, talk}
use pmd.Daemon.Peer.Dialogue.Agreed.{CanConnect, hello, ack, a_ready, b_ready}
use pmd.Daemon.Peer.Dialogue.Settled.{BothCalm, a_settled, b_settled, talk-settled}

module _ (P : Platform) where
  -- Two daemons that share a cookie, know where they listen, and have no handle of each other, connect:
  -- from the fourth round on each has sent four messages, its handshake or reply, its full delta, a
  -- heartbeat and a reply to the other's heartbeat, neither session has ended, and both show the same
  -- members. Each loop begins with the first tick of its two intervals, the handle that it finds
  -- then is as it was registered, and its threshold for phi is not below zero; no later tick falls into the
  -- exchange, and every write succeeds.
  pub talk-members :
      (a b : Side P) (la lb : P.Addr)
      → Replication P
      → CanConnect P a b la lb
      → BothCalm P a b la lb
      → (n : ℕ)
      → let (x, y) = talk P a b (suc (suc (suc (suc n)))) in
        (x.sent
          ≡ hello P a b la lb
            ∷ initial_sync P (a_ready P a b la lb)
            ∷ heartbeat
            ∷ heartbeat_ack
            ∷ [])
        × (y.sent
            ≡ ack P a b la lb
              ∷ initial_sync P (b_ready P a b la lb)
              ∷ heartbeat
              ∷ heartbeat_ack
              ∷ [])
        × (x.ended ≡ none)
        × (y.ended ≡ none)
        × (members P x.state.membership ≡ members P y.state.membership)
  unfolding broadcast_events
  talk-members a b la lb R c calm n = rw (talk-settled P a b la lb c calm n) (
    refl,
    refl,
    refl,
    refl,
    (members-cong P (a_settled P a b la lb).state.membership
        (b_settled P a b la lb).state.membership
        (P.Same-materialize _ _
          (Same-exchange P "" _ _ (R.Same-full_delta "" _) (R.Same-full_delta "" _)))).0,
  )
