-- ===== src/Daemon/Peer/Loop.antt =====
-- The message loop of crates/pmd/src/daemon/peer.rs.
use pmd.Prelude.{
  ℕ, String, arith, eq_refl, ◌≡◌, refl, Bool, Option, none, some, List, [], ◌++◌, if◌then◌else◌,
}
use pmd.Prelude.Maps.{lookup, contains_key, lookup-update}
use pmd.Platform.{Platform}
use pmd.Config.{Config}
use pmd.Protocol.{membership_sync}
use pmd.Protocol.Frame
use pmd.Membership.{◌>>=◌, Membership, MembershipChange, member_ids, diff_members, merge_remote}
use pmd.Membership.Changes.{reports, to_list}
use pmd.Membership.Merge.{merged, merge_remote-reports}
use pmd.Protocol.{node_joined, node_left}
use pmd.Daemon.{PeerHandle, DaemonState, broadcast_events}
use pmd.Daemon.Peer.{err, bad_delta, received, Step, after_merge, on_message, peer_step}

-- What became of the members, of which the subscribers are told in `changes`: nothing else than what
-- happened to `k` is reported of it.
abbrev pub Told : (P : Platform) → String → DaemonState P → DaemonState P → Type 0
Told P k before after =
    (changes : List MembershipChange) × (after.event_tx ≡ before.event_tx ++ changes)
    × (reports node_joined k changes ≡ (
        if contains_key k (member_ids P before.membership)
        then []
        else to_list (lookup k (member_ids P after.membership))))
    × (reports node_left k changes ≡ (
        if contains_key k (member_ids P after.membership)
        then []
        else to_list (lookup k (member_ids P before.membership))))

-- A step on bytes that are no delta: an error.
abbrev pub Refused : (P : Platform) → DaemonState P → Step P → Type 0
Refused P st step = step ≡ record { state = st; sent = []; ended = some (err bad_delta) }

-- A step on bytes that are the delta `δ`, from a peer `id` at `vv`.
abbrev pub Merged :
    (P : Platform) → String → String → P.Delta → P.Vv → DaemonState P → Step P → Type 0
Merged P id k δ vv st step =
    (step.ended ≡ none)
    × (step.sent ≡ [])
    × (step.state.membership ≡ record st.membership { doc = P.merge_delta st.membership.doc δ })
    × (lookup id step.state.peers ≡ (elim (lookup id st.peers) [
      | none ↦ none
      | some peer ↦ some (record peer { last_vv = vv })
    ]))
    × Told P k st step.state

abbrev pub SyncOutcome :
    (P : Platform) → String → String → P.Vv → Option P.Delta → DaemonState P → Step P → Type 0
SyncOutcome P id k vv none st step = Refused P st step
SyncOutcome P id k vv (some δ) st step = Merged P id k δ vv st step

module _ (P : Platform) (config : Config P) (id : String) where
  merge_remote-some :
      (bytes : List ℕ) (m : Membership P) (δ : P.Delta)
      → P.decode bytes ≡ some δ
      → merge_remote P bytes m
        ≡ some (diff_members (member_ids P m) (member_ids P (merged P m δ)), merged P m δ)
  unfolding merge_remote
  merge_remote-some bytes m δ e = rw (e, ◌>>=◌) refl

  -- Bytes that are no delta end the loop with an error, and change nothing. A delta is merged into the
  -- document, and the loop goes on and writes nothing; the peer's handle, if there is one, has the
  -- version vector that came with the delta; and the subscribers get, behind what was sent to them
  -- before, exactly the changes among the members: for every node one join if it has become a member,
  -- one departure if it has ceased to be one, and nothing else.
  pub peer_step-membership_sync :
      (bytes : List ℕ) (vv : P.Vv) (wall : Option ℕ) (now : ℕ) (written : Bool) (st : DaemonState P)
      (k : String)
      → SyncOutcome P id k vv (P.decode bytes) st (
          peer_step P config id
            (received (Frame.Result.ok (membership_sync bytes vv)) wall now written)
            st)
  unfolding peer_step on_message after_merge broadcast_events merge_remote
  peer_step-membership_sync bytes vv wall now written st k = go (P.decode bytes) refl
    where
      go :
          (o : Option P.Delta)
          → P.decode bytes ≡ o
          → SyncOutcome P id k vv o st (after_merge P id vv st (merge_remote P bytes st.membership))
      go none e = rw (e, ◌>>=◌) refl
      go (some δ) e =
          let m' : Membership P = record st.membership {
            doc = P.merge_delta st.membership.doc δ;
          } in
          let changes = diff_members (member_ids P st.membership) (member_ids P m') in
          let (joined, left) =
            merge_remote-reports P st.membership m' bytes changes k
              (merge_remote-some bytes st.membership δ e) in
          let hear = λ (peer : PeerHandle P). record peer { last_vv = vv } in
          rw (e, ◌>>=◌)
            (
              refl,
              refl,
              refl,
              ground (arith, lookup-update id id hear st.peers, eq_refl id),
              (changes, refl, joined, left),
            )
