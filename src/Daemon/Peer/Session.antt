-- ===== src/Daemon/Peer/Session.antt =====
-- How a session of crates/pmd/src/daemon/peer.rs ends.
use pmd.Prelude.{
  ℕ, String, ◌≡◌, ◌≢◌, refl, ◌∙◌, ap, true, Option, none, some, List, [], ◌∷◌, ◌++◌, arith, eq_iff,
  eq_refl,
}
use pmd.Prelude.Maps.{lookup, lookup-remove, remove}
use pmd.Platform.{Platform, IsSegment}
use pmd.Config.{Config}
use pmd.Protocol.{Message, node_left}
use pmd.Protocol.Frame
use pmd.Membership.{members}
use pmd.Membership.Views.{find_node}
use pmd.Membership.Nodes.{remove_node-members_self, remove_node-members_ne}
use pmd.Daemon.{DaemonState}
use pmd.Daemon.Peers.{signalled, lookup-signal_all}
use pmd.Daemon.Peer.{
  Result, err, ◌>>=◌, first_message, check_handshake, stop, message_loop, cleanup, Surroundings,
  serve_peer, run_inbound, Error,
}

module _ (P : Platform) where
  open P use {Addr, addr_to_string}

  -- What the end of a session of `id` at `a` makes of a state `st`.
  pub record Cleaned (id : String) (a : Addr) (st after : DaemonState P) : Type 0 where
    pub no_handle : lookup id after.peers ≡ none
    pub no_member : find_node P id (members P after.membership) ≡ none
    pub told :
        after.event_tx
        ≡ st.event_tx ++ record { event = node_left; node_id = id; addr = addr_to_string a } ∷ []

  pub cleanup-Cleaned :
      (id : String) (a : Addr) (st : DaemonState P)
      → IsSegment id
      → Cleaned id a st (cleanup P id a st)
  unfolding cleanup
  cleanup-Cleaned id a st seg = record {
    no_handle =
        lookup-signal_all P id (remove id st.peers)
        ∙ (rw (lookup-remove id id st.peers, eq_refl id));
    no_member = remove_node-members_self P st.membership id seg;
    told = refl;
  }

  -- The cleanup of a peer, whose id is one path segment, leaves the other members as they are,
  -- and keeps the other peers, each with a signal to send its delta.
  pub cleanup_others :
      (id j : String) (a : Addr) (st : DaemonState P)
      → IsSegment id
      → id ≢ j
      → (lookup j (cleanup P id a st).peers ≡ signalled P (lookup j st.peers))
        × (find_node P j (members P (cleanup P id a st).membership)
            ≡ find_node P j (members P st.membership))
  unfolding cleanup
  cleanup_others id j a st seg ne = (
    lookup-signal_all P j (remove id st.peers)
        ∙ ap (signalled P) (lookup-remove id j st.peers ∙ ground (arith, eq_iff id j)),
    remove_node-members_ne P st.membership id j seg ne,
  )

  -- A session whose initial sync was written and whose loop has ended, for whatever reason,
  -- has the loop's result, and leaves neither a handle nor a member for its peer, and the
  -- subscribers are told that the peer left, behind what they were told before, if the peer's
  -- id is one path segment. Nothing here asks that the peer be another node than this one.
  pub serve_peer-Cleaned :
      (config : Config P) (id : String) (a : Addr) (env : Surroundings P) (st : DaemonState P)
      (r : Result (Unit {0}))
      → IsSegment id
      → env.sync_written ≡ true
      → (message_loop P config id env.turns (env.before_sync st)).ended ≡ some r
      → ((serve_peer P config id a env st).ended ≡ some r)
        × Cleaned id a
            (env.before_cleanup (message_loop P config id env.turns (env.before_sync st)).state)
            (serve_peer P config id a env st).state
  unfolding serve_peer
  serve_peer-Cleaned config id a env st r seg written ended =
      rw written (rw ended (refl, cleanup-Cleaned id a _ seg))

  -- A first message that is no acceptable handshake has no effect, and nothing is sent.
  pub run_inbound-rejected :
      (config : Config P) (cookie nonce : List ℕ) (version : String)
      (hello : Frame.Result (Option (Message P))) (env : Surroundings P) (st : DaemonState P)
      (e : Error)
      → (first_message hello >>= check_handshake P cookie) ≡ err e
      → run_inbound P config cookie nonce version hello env st ≡ stop P (err e) st
  unfolding run_inbound
  run_inbound-rejected config cookie nonce version hello env st e rejected =
      rw (rejected, run_inbound)
