-- ===== src/Daemon/Peer/Dialogue/Turns.antt =====
-- A session of crates/pmd/src/daemon/peer.rs whose loop takes a few messages and goes on.
use pmd.Prelude.{
  ℕ, Option, String, ◌≡◌, refl, ◌∙◌, ap, true, false, none, some, List, [], ◌∷◌, ◌++◌,
}
use pmd.Platform.{Platform}
use pmd.Membership.{Membership, delta_for_peer}
use pmd.Protocol.{membership_sync, heartbeat, heartbeat_ack}
use pmd.Config.{Config}
use pmd.Protocol.{Message}
use pmd.Membership.{member_ids, diff_members, full_delta}
use pmd.Membership.Merge.{merged, merge_remote-delta_for_peer}
use pmd.Protocol.Frame
use pmd.Daemon.{broadcast_events, DaemonState}
use pmd.Daemon.Peer.{
  PeerEvent, Turn, new_handle, heartbeat_due, phi_check, stay, with_peer, Surroundings, Step,
  initial_sync, serve_peer, message_loop, after_merge, peer_step, on_message, received,
}
use pmd.Daemon.Peer.Dialogue.{Side, arrivals, turns}
use pmd.FailureDetector
use pmd.Prelude.Maps.{lookup}

module _ (P : Platform) where
  -- A session whose loop has not ended.
  pub serve_peer-open :
      (config : Config P) (id : String) (addr : P.Addr) (env : Surroundings P)
      (registered : DaemonState P) (loop : Step P)
      → env.sync_written ≡ true
      → message_loop P config id env.turns (env.before_sync registered) ≡ loop
      → loop.ended ≡ none
      → serve_peer P config id addr env registered
        ≡ record loop { sent = initial_sync P (env.before_sync registered) ∷ loop.sent }
  unfolding serve_peer
  serve_peer-open config id addr env registered loop written e open_end =
      rw (← e)
        (let still = ap (λ (l : Step P). l.ended) e ∙ open_end in rw (written, still) (rw still))

  -- What the full delta of a peer makes of a state.
  abbrev pub synced : String → P.Vv → P.Delta → DaemonState P → DaemonState P
  synced id vv δ st =
      let joined = merged P st.membership δ in
      broadcast_events P (diff_members (member_ids P st.membership) (member_ids P joined))
        (with_peer P (record st { membership = joined }) id (λ peer. record peer { last_vv = vv }))

  -- A delta that a replica makes for a peer can be merged.
  pub peer_step-sync :
      (config : Config P) (id : String) (other : Membership P) (since vv : P.Vv) (wall : Option ℕ)
      (now : ℕ) (st : DaemonState P)
      → peer_step P config id
          (received
            (Frame.Result.ok (membership_sync (delta_for_peer P since other) vv))
            wall
            now
            true)
          st
        ≡ stay P (synced id vv (P.delta_since other.doc since) st)
  unfolding peer_step on_message after_merge
  peer_step-sync config id other since vv wall now st =
      ap (after_merge P id vv st) (merge_remote-delta_for_peer P other st.membership since)

  -- A turn after which the loop goes on.
  message_loop-cons :
      (config : Config P) (id : String) (event : PeerEvent P) (rest : List (Turn P))
      (st st' : DaemonState P) (written : List (Message P)) (loop : Step P)
      → peer_step P config id event st ≡ record { state = st'; sent = written; ended = none }
      → message_loop P config id rest st' ≡ loop
      → message_loop P config id (((λ st. st), event) ∷ rest) st
        ≡ record loop { sent = written ++ loop.sent }
  unfolding message_loop
  message_loop-cons config id event rest st st' written loop e f =
      ap
        (λ (r : Step P).
          let later = message_loop P config id rest r.state in
          elim r.ended as (λ _. Step P) [
            | none ↦ record later { sent = r.sent ++ later.sent }
            | some _ ↦ r
          ])
        e
      ∙ ap (λ (r : Step P). record r { sent = written ++ r.sent }) f

  -- A new handle is not suspected.
  peer_step-calm :
      (config config' : Config P) (id : String) (addr : P.Addr) (vv : P.Vv) (now : ℕ)
      (st : DaemonState P)
      → P.lt config.phi_threshold (P.literal "0.0") ≡ false
      → lookup id st.peers ≡ some (new_handle P config' id addr vv)
      → peer_step P config id (phi_check now) st ≡ stay P st
  unfolding peer_step new_handle FailureDetector.new FailureDetector.phi_at
  peer_step-calm config config' id addr vv now st above e = rw (e, peer_step) (rw above refl)

  -- The detector's record of a reply to a heartbeat.
  abbrev pub recorded : Side P → String → DaemonState P → DaemonState P
  recorded side id st = with_peer P st id λ peer. record peer {
    phi_detector = FailureDetector.heartbeat P.real side.wall side.now peer.phi_detector;
  }

  module _ (side : Side P) (id : String) (addr : P.Addr) (vv : P.Vv) (st : DaemonState P) where
    -- The loop comes to a handle that is as it was registered, and the threshold is not below zero.
    abbrev pub IsCalm : Type 0
    IsCalm =
        (P.lt side.config.phi_threshold (P.literal "0.0") ≡ false)
        × (lookup id st.peers ≡ some (new_handle P side.config id addr vv))

    message_loop-ticks :
        (msgs : List (Message P)) (loop : Step P)
        → IsCalm
        → message_loop P side.config id (arrivals P side msgs) st ≡ loop
        → message_loop P side.config id (turns P side msgs) st
          ≡ record loop { sent = heartbeat ∷ loop.sent }
    unfolding peer_step
    message_loop-ticks msgs loop calm e =
        message_loop-cons side.config id (heartbeat_due true) _ st st (heartbeat ∷ []) _ refl (
          message_loop-cons side.config id (phi_check side.now) _ st st [] loop
            (peer_step-calm side.config side.config id addr vv side.now st calm.0 calm.1) e)

    pub message_loop-nil :
        IsCalm
        → message_loop P side.config id (turns P side []) st
          ≡ record { state = st; sent = heartbeat ∷ []; ended = none }
    unfolding message_loop
    message_loop-nil calm = message_loop-ticks [] (stay P st) calm refl

    -- What the full delta of the other side makes of the state.
    abbrev pub joined : DaemonState P → DaemonState P
    joined other =
        synced id (P.version_vector other.membership.doc)
          (P.delta_since other.membership.doc P.vv_new) st

    arrivals-full :
        (other : DaemonState P) (rest : List (Message P)) (loop : Step P)
        → message_loop P side.config id (arrivals P side rest) (joined other) ≡ loop
        → message_loop P side.config id
            (arrivals P side (initial_sync P other ∷ heartbeat ∷ rest))
            st
          ≡ record loop { sent = heartbeat_ack ∷ loop.sent }
    unfolding initial_sync full_delta peer_step on_message
    arrivals-full other rest loop e =
        message_loop-cons side.config id _ _ st (joined other) [] _
          (peer_step-sync side.config id other.membership P.vv_new
            (P.version_vector other.membership.doc) side.wall side.now st)
          (message_loop-cons side.config id _ _ (joined other) (joined other) (heartbeat_ack ∷ [])
            loop refl e)

    pub message_loop-full :
        (other : DaemonState P)
        → IsCalm
        → message_loop P side.config id (turns P side (initial_sync P other ∷ heartbeat ∷ [])) st
          ≡ record { state = joined other; sent = heartbeat ∷ heartbeat_ack ∷ []; ended = none }
    unfolding message_loop
    message_loop-full other calm =
        message_loop-ticks (initial_sync P other ∷ heartbeat ∷ []) _ calm
          (arrivals-full other [] (stay P (joined other)) refl)

    pub message_loop-all :
        (other : DaemonState P)
        → IsCalm
        → message_loop P side.config id
            (turns P side (initial_sync P other ∷ heartbeat ∷ heartbeat_ack ∷ []))
            st
          ≡ record {
            state = recorded side id (joined other);
            sent = heartbeat ∷ heartbeat_ack ∷ [];
            ended = none;
          }
    unfolding message_loop peer_step on_message
    message_loop-all other calm =
        message_loop-ticks (initial_sync P other ∷ heartbeat ∷ heartbeat_ack ∷ []) _ calm
          (arrivals-full other (heartbeat_ack ∷ []) (stay P (recorded side id (joined other))) refl)
