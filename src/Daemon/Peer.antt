-- ===== src/Daemon/Peer.antt =====
-- crates/pmd/src/daemon/peer.rs: the registration of a peer, its message loop, the cleanup, and the two
-- kinds of session, which begin with a handshake. The state is shared with other tasks, which run
-- whenever a session does not hold the lock: what they do there, what arrives, and whether a write
-- succeeds are arguments.
pub mod Handshake
unfoldable pub use Handshake.*
pub mod Auth
pub mod Dialogue
pub mod Loop
pub mod Session
pub mod Leak
pub mod Left
use pmd.Prelude.{
  ℕ, String, Bool, true, false, Option, none, some, List, [], ◌∷◌, ◌++◌, nat_eq, ◌^^◌,
  if◌then◌else◌,
}
use pmd.Prelude.Decimal.{show_ℕ}
use pmd.Prelude.Maps.{lookup, contains_key, insert, remove, update}
use pmd.Platform.{Platform}
use pmd.Config.{Config}
use pmd.Protocol.{
  Message, handshake, handshake_ack, membership_sync, notification, heartbeat, heartbeat_ack,
  protocol_version, node_left,
}
use pmd.Protocol.Cookie.{compute_cookie_hmac, verify_cookie_hmac}
use pmd.Protocol.Frame
use pmd.FailureDetector
use pmd.Membership.{
  Membership, MembershipChange, full_delta, delta_for_peer, merge_remote, remove_node,
}
use pmd.Daemon.{PeerHandle, DaemonState, signal_all, broadcast_events}

-- What wakes the message loop. A Boolean says whether the write that follows succeeds.
pub data PeerEvent (P : Platform) : Type 0 where
  cancelled : PeerEvent P
  heartbeat_due : Bool → PeerEvent P
  -- the time of the check
  phi_check : ℕ → PeerEvent P
  gossip_signal : Bool → PeerEvent P
  -- what the reader task sent, the wall clock, the time, and the write
  received : Frame.Result (Message P) → Option ℕ → ℕ → Bool → PeerEvent P
  reader_gone : PeerEvent P

-- A step of the loop: the state, what was written, and how the loop ended if it did.
pub record Step (P : Platform) : Type 0 where
  pub state : DaemonState P
  pub sent : List (Message P)
  pub ended : Option (Result (Unit {0}))

module _ (P : Platform) where
  open P use {Addr, Vv, Float, addr_to_string, addr_parse, crypto, real, vv_new, version_vector}

  unfoldable pub new_handle : Config P → String → Addr → Vv → PeerHandle P
  new_handle config node_id addr vv = record {
    node_id = node_id;
    addr = addr;
    last_vv = vv;
    phi_detector = FailureDetector.new real config.phi_window_size config.phi_min_std_deviation_ms;
    gossip_tx = false;
  }

  -- `st.peers.insert(..)`
  unfoldable pub register_peer : Config P → String → Addr → Vv → DaemonState P → DaemonState P
  unfolding new_handle
  register_peer config node_id addr vv st = record st {
    peers = insert node_id (new_handle config node_id addr vv) st.peers;
  }

  -- The initial full delta, read under one lock.
  unfoldable pub initial_sync : DaemonState P → Message P
  initial_sync st = membership_sync (full_delta P st.membership) (version_vector st.membership.doc)

  abbrev pub stay : DaemonState P → Step P
  stay st = record { state = st; sent = []; ended = none }

  abbrev pub stop : Result (Unit {0}) → DaemonState P → Step P
  stop r st = record { state = st; sent = []; ended = some r }

  -- `write_frame(..).await?`
  abbrev pub write : Bool → Message P → DaemonState P → Step P
  write written msg st =
      if written
      then record { state = st; sent = msg ∷ []; ended = none }
      else stop (err write_failed) st

  abbrev pub with_peer : DaemonState P → String → (PeerHandle P → PeerHandle P) → DaemonState P
  with_peer st id f = record st { peers = update id f st.peers }

  -- The branch for a delta, from what the merge gave: `?` on its error, else the handle's version
  -- vector and the notifications.
  unfoldable pub after_merge :
      String → Vv → DaemonState P → Option (List MembershipChange × Membership P) → Step P
  unfolding broadcast_events
  after_merge id sender_vv st none = stop (err bad_delta) st
  after_merge id sender_vv st (some (changes, membership)) = stay (
      broadcast_events P changes (
        with_peer (record st { membership = membership }) id
          λ peer. record peer { last_vv = sender_vv }))

  unfoldable pub on_message : String → Message P → Option ℕ → ℕ → Bool → DaemonState P → Step P
  unfolding after_merge
  on_message id heartbeat wall now written st = write written heartbeat_ack st
  on_message id heartbeat_ack wall now written st = stay (
      with_peer st id λ peer. record peer {
        phi_detector = FailureDetector.heartbeat real wall now peer.phi_detector;
      })
  on_message id (membership_sync delta_bytes sender_vv) wall now written st =
      after_merge id sender_vv st (merge_remote P delta_bytes st.membership)
  on_message id _ wall now written st = stay st

  unfoldable pub peer_step : Config P → String → PeerEvent P → DaemonState P → Step P
  unfolding on_message
  peer_step config id cancelled st = stop (ok tt) st
  peer_step config id (heartbeat_due written) st = write written heartbeat st
  peer_step config id (phi_check now) st = elim (lookup id st.peers) [
    | none ↦ stay st
    | some peer ↦
        if real.lt config.phi_threshold (FailureDetector.phi_at real now peer.phi_detector)
        then stop (ok tt) st
        else stay st
  ]
  peer_step config id (gossip_signal written) st =
      let taken = with_peer st id (λ peer. record peer { gossip_tx = false }) in
      elim (lookup id st.peers) [
        | none ↦ stay st
        | some peer ↦
            write written
              (membership_sync (delta_for_peer P peer.last_vv st.membership)
                (version_vector st.membership.doc))
              taken
      ]
  peer_step config id (received (Frame.Result.ok msg) wall now written) st =
      on_message id msg wall now written st
  peer_step config id (received (Frame.Result.err e) wall now written) st =
      stop (err (bad_frame e)) st
  peer_step config id reader_gone st = stop (ok tt) st

  -- What the other tasks did to the state, and then an event of this loop.
  abbrev pub Turn : Type 0
  Turn = (DaemonState P → DaemonState P) × PeerEvent P

  -- `peer_message_loop` over the turns that come; it has not ended if they run out.
  unfoldable pub message_loop : Config P → String → List Turn → DaemonState P → Step P
  unfolding peer_step
  message_loop config id [] st = stay st
  message_loop config id ((others, event) ∷ rest) st =
      let step = peer_step config id event (others st) in
      let later = message_loop config id rest step.state in
      elim step.ended [ none ↦ record later { sent = step.sent ++ later.sent } | some r ↦ step ]

  unfoldable pub cleanup : String → Addr → DaemonState P → DaemonState P
  unfolding broadcast_events
  cleanup id addr st =
      let gone : DaemonState P = record st {
        peers = remove id st.peers;
        membership = remove_node P id st.membership;
      } in
      let change : MembershipChange = record {
        event = node_left;
        node_id = id;
        addr = addr_to_string addr;
      } in
      let told = broadcast_events P (change ∷ []) gone in
      record told { peers = signal_all P told.peers }

  -- What surrounds a session: the other tasks before each lock, the writes, and the loop's turns.
  pub record Surroundings : Type 0 where
    pub before_register : DaemonState P → DaemonState P
    pub greeting_written : Bool
    pub before_sync : DaemonState P → DaemonState P
    pub sync_written : Bool
    pub turns : List Turn
    pub before_cleanup : DaemonState P → DaemonState P

  -- The rest of a session behind the registration: the initial sync, the loop, and the cleanup if
  -- the loop ended.
  unfoldable pub serve_peer : Config P → String → Addr → Surroundings → DaemonState P → Step P
  unfolding initial_sync message_loop cleanup
  serve_peer config id addr env registered =
      let st = env.before_sync registered in
      if env.sync_written
      then (let loop = message_loop config id env.turns st in
          elim loop.ended [
            | none ↦ record loop { sent = initial_sync st ∷ loop.sent }
            | some r ↦ record {
              state = cleanup id addr (env.before_cleanup loop.state);
              sent = initial_sync st ∷ loop.sent;
              ended = some r;
            }
          ])
      else stop (err write_failed) st

  -- An inbound session behind a handshake that was accepted; `nonce` is drawn here.
  unfoldable pub serve_inbound :
      Config P → List ℕ → List ℕ → String → Surroundings → String × Addr → DaemonState P → Step P
  unfolding own_listen_addr register_peer serve_peer
  serve_inbound config cookie nonce version env (id, addr) st =
      if contains_key id st.peers then stop (ok tt) st else elim (own_listen_addr P config) [
        | err e ↦ stop (err e) st
        | ok listen_addr ↦
            let registered = register_peer config id addr vv_new st in
            let ack =
              handshake_ack st.membership.node_id listen_addr nonce
                (compute_cookie_hmac crypto cookie nonce) (version_vector st.membership.doc) version
                protocol_version in
            if env.greeting_written
            then (let rest = serve_peer config id addr env registered in
                record rest { sent = ack ∷ rest.sent })
            else stop (err write_failed) registered
      ]

  -- `run_inbound`: `hello` is what the first read gave.
  unfoldable pub run_inbound :
      Config P
      → List ℕ
      → List ℕ
      → String
      → Frame.Result (Option (Message P))
      → Surroundings
      → DaemonState P
      → Step P
  unfolding check_handshake serve_inbound
  run_inbound config cookie nonce version hello env st =
      elim (first_message hello >>= check_handshake P cookie) [
        | err e ↦ stop (err e) st
        | ok peer ↦ serve_inbound config cookie nonce version env peer (env.before_register st)
      ]

  -- An outbound session behind a reply that was accepted.
  unfoldable pub serve_outbound :
      Config P → Surroundings → String × Addr × Vv → DaemonState P → Step P
  unfolding register_peer serve_peer
  serve_outbound config env (id, addr, vv) st =
      if contains_key id st.peers
      then stop (ok tt) st
      else serve_peer config id addr env (register_peer config id addr vv st)

  -- `connect_to_peer` over an open connection: `reply` is what the first read gave.
  unfoldable pub run_outbound :
      Config P
      → List ℕ
      → List ℕ
      → String
      → Frame.Result (Option (Message P))
      → Surroundings
      → DaemonState P
      → Step P
  unfolding own_listen_addr check_handshake_ack serve_outbound
  run_outbound config cookie nonce version reply env st = elim (own_listen_addr P config) [
    | err e ↦ stop (err e) st
    | ok listen_addr ↦
        let hello =
          handshake st.membership.node_id listen_addr nonce
            (compute_cookie_hmac crypto cookie nonce) version protocol_version in
        if env.greeting_written
        then (let rest : Step P = elim (first_message reply >>= check_handshake_ack P cookie) [
          | err e ↦ stop (err e) st
          | ok peer ↦ serve_outbound config env peer (env.before_register st)
        ] in
            record rest { sent = hello ∷ rest.sent })
        else stop (err write_failed) st
  ]
