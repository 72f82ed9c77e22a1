-- ===== src/Daemon.antt =====
-- crates/pmd/src/daemon/mod.rs: the shared state behind the mutex, and what the main loop, the
-- discovery task and the shutdown do to it. Each function is what runs under one lock. A channel of
-- capacity one (`gossip_tx`) is a flag that says whether a signal waits in it; the subscribers'
-- channel (`event_tx`) is the list of what was sent. Random choices are arguments.
pub mod Peers
pub mod Queues
pub mod Discovered
pub mod Server
pub mod Tls
pub mod Startup
pub mod Metrics
pub mod MainLoop
pub mod Control
pub mod Peer
pub mod System
use pmd.Prelude.{
  ℕ, ◌%◌, ◌-◌, String, Bool, true, false, not, ◌&&◌, ◌||◌, Option, none, some, List, [], ◌∷◌, ◌++◌,
  map, filter, filter_map, any, length, get_elem?, leb, ◌==◌, if◌then◌else◌,
}
use pmd.Prelude.Maps.{Map, lookup, contains_key, remove, update}
use pmd.Platform.{Platform}
use pmd.FailureDetector.{PhiAccrualDetector}
use pmd.Membership
use pmd.Membership.{Membership, MembershipChange, NodeInfo, members, remove_node}

-- `PeerHandle`, with the fields of its `PeerId`.
pub record PeerHandle (P : Platform) : Type 0 where
  pub node_id : String
  pub addr : P.Addr
  pub last_vv : P.Vv
  pub phi_detector : PhiAccrualDetector P.real
  pub gossip_tx : Bool

pub record DaemonState (P : Platform) : Type 0 where
  pub membership : Membership P
  pub listen_addr : P.Addr
  pub peers : Map (PeerHandle P)
  pub pending_joins : List String
  pub pending_leaves : List String
  pub shutdown : Bool
  pub shutdown_requested : Bool
  pub event_tx : List MembershipChange

abbrev pub keys {ℓ} : {V : Type ℓ} → Map V → List String
keys = map (λ e. e.0)

-- What wakes the main loop: SIGINT, and its three timers; a number is a random choice.
pub data MainEvent : Type 0 where
  sigint tick : MainEvent
  gossip_tick mesh_tick : ℕ → MainEvent

module _ (P : Platform) where
  open P use {Addr, addr_eq, addr_to_string, addr_parse, real}

  -- `let _ = peer.gossip_tx.try_send(())`: a signal that finds the channel full is dropped.
  abbrev pub signal : PeerHandle P → PeerHandle P
  signal peer = record peer { gossip_tx = true }

  -- The loop over `st.peers.values()` that signals each of them.
  unfoldable pub signal_all : Map (PeerHandle P) → Map (PeerHandle P)
  signal_all [] = []
  signal_all ((id, peer) ∷ rest) = (id, signal peer) ∷ signal_all rest

  unfoldable pub broadcast_events : List MembershipChange → DaemonState P → DaemonState P
  broadcast_events changes st = record st { event_tx = st.event_tx ++ changes }

  -- The keys of the peers at an address, and the loop that removes them.
  unfoldable pub peers_at : String → Map (PeerHandle P) → List String
  peers_at addr_str [] = []
  peers_at addr_str ((k, h) ∷ rest) =
      let others = peers_at addr_str rest in
      if addr_to_string h.addr == addr_str then k ∷ others else others

  unfoldable pub remove_all : List String → Map (PeerHandle P) → Map (PeerHandle P)
  remove_all [] peers = peers
  remove_all (k ∷ ks) peers = remove_all ks (remove k peers)

  unfoldable pub leave_peer : String → DaemonState P → DaemonState P
  unfolding peers_at remove_all
  leave_peer addr_str st = record st { peers = remove_all (peers_at addr_str st.peers) st.peers }

  unfoldable pub leave_all : List String → DaemonState P → DaemonState P
  unfolding leave_peer
  leave_all [] st = st
  leave_all (addr_str ∷ rest) st = leave_all rest (leave_peer addr_str st)

  -- The state afterwards, and the addresses for which a connecting task is spawned. The lock is
  -- taken again for each leave; here no other task comes between.
  unfoldable pub process_tick : DaemonState P → DaemonState P × List Addr
  unfolding leave_all
  process_tick st =
      let joins = st.pending_joins in
      let leaves = st.pending_leaves in
      let drained : DaemonState P = record st { pending_joins = []; pending_leaves = [] } in
      (leave_all leaves drained, filter_map addr_parse joins)

  -- `slice.choose(rng)`: none on an empty slice.
  abbrev pub choose {ℓ} : {A : Type ℓ} → ℕ → List A → Option A
  choose pick l = get_elem? l (pick % length l)

  unfoldable pub gossip_sync_random_peer : ℕ → DaemonState P → DaemonState P
  gossip_sync_random_peer pick st = elim (choose pick (keys st.peers)) [
    | none ↦ st
    | some id ↦ record st { peers = update id signal st.peers }
  ]

  -- Queue an address unless it is queued already.
  abbrev pub queue_join : String → DaemonState P → DaemonState P
  queue_join addr st =
      if any (λ a. a == addr) st.pending_joins
      then st
      else record st { pending_joins = st.pending_joins ++ addr ∷ [] }

  -- `(cluster_size as f64).sqrt().ceil() as usize`
  unfoldable pub mesh_target : ℕ → ℕ
  mesh_target cluster_size = real.to_usize (real.ceil (real.sqrt (real.of_ℕ cluster_size)))

  -- The known nodes other than this one without a connection.
  unfoldable pub indirect_nodes : DaemonState P → List (NodeInfo P)
  indirect_nodes st =
      filter
        (λ n. not (n.node_id == st.membership.node_id) && not (contains_key n.node_id st.peers))
        (members P st.membership)

  unfoldable pub mesh_expand_random_peer : ℕ → DaemonState P → DaemonState P
  unfolding indirect_nodes
  mesh_expand_random_peer pick st =
      let cluster_size = length (members P st.membership) in
      let direct_peers = length st.peers in
      if leb (mesh_target cluster_size) direct_peers || leb (cluster_size - 1) direct_peers
      then st
      else elim (choose pick (indirect_nodes st)) [
        | none ↦ st
        | some node ↦ queue_join (addr_to_string node.addr) st
      ]

  -- The task that takes discovered addresses.
  unfoldable pub forward_discovered : Addr → DaemonState P → DaemonState P
  forward_discovered addr st =
      let already_connected = any (λ e. addr_eq e.1.addr addr) st.peers in
      if already_connected then st else queue_join (addr_to_string addr) st

  -- Its loop over what comes out of the channel; no other task comes between.
  unfoldable pub forward_all : List Addr → DaemonState P → DaemonState P
  unfolding forward_discovered
  forward_all [] st = st
  forward_all (addr ∷ rest) st = forward_all rest (forward_discovered addr st)

  -- The block after the main loop, under the lock.
  unfoldable pub begin_shutdown : DaemonState P → DaemonState P
  begin_shutdown st = record st {
    membership = remove_node P st.membership.node_id st.membership;
    peers = signal_all st.peers;
  }

  -- `run`, up to the state that the tasks share.
  unfoldable pub init : ℕ → String → Addr → Map String → DaemonState P
  init now node_id actual_addr metadata = record {
    membership = Membership.add_node P now node_id actual_addr metadata (Membership.new P node_id);
    listen_addr = actual_addr;
    peers = [];
    pending_joins = [];
    pending_leaves = [];
    shutdown = false;
    shutdown_requested = false;
    event_tx = [];
  }

  -- One round of the main loop's `select!`: the state, the addresses to connect to, and whether the
  -- loop goes on.
  unfoldable pub main_step : MainEvent → DaemonState P → DaemonState P × List Addr × Bool
  main_step sigint st = (st, [], false)
  main_step tick st =
      if st.shutdown_requested
      then (st, [], false)
      else (let (st', joins) = process_tick st in (st', joins, true))
  main_step (gossip_tick pick) st = (gossip_sync_random_peer pick st, [], true)
  main_step (mesh_tick pick) st = (mesh_expand_random_peer pick st, [], true)

  -- What the other tasks did to the state, and then an event of the main loop.
  abbrev pub Turn : Type 0
  Turn = (DaemonState P → DaemonState P) × MainEvent

  -- The main loop over the turns that come, with the end of `run` behind it: none if the turns run
  -- out before the loop ends. `grace` is what the other tasks do while `run` waits for them to send
  -- their last messages.
  unfoldable pub main_loop :
      (DaemonState P → DaemonState P) → List Turn → DaemonState P → Option (DaemonState P)
  unfolding main_step
  main_loop grace [] st = none
  main_loop grace ((others, event) ∷ rest) st =
      let (st', joins, goes_on) = main_step event (others st) in
      let later = main_loop grace rest st' in
      if goes_on then later else some (record (grace (begin_shutdown st')) { shutdown = true })
