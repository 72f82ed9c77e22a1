-- ===== src/Examples/Replicas.antt =====
-- Two daemons over logs of writes.
use pmd.Prelude.{
  ℕ, String, ◌≡◌, refl, sym, ◌∙◌, ap, true, none, List, [], ◌∷◌, ◌++◌, arith, length, Bool-cases,
  inl, inr,
}
use pmd.Prelude.Decimal.{show_ℕ}
use pmd.Config.{Config}
use pmd.Membership.{members, register_service}
use pmd.Daemon.{PeerHandle, DaemonState, init}
use pmd.Daemon.Peer.{ok, own_listen_addr, register_peer, initial_sync}
use pmd.Daemon.Peer.Dialogue.{Side, talk}
use pmd.Daemon.Peer.Dialogue.Agreed.{CanConnect, hello, ack, a_ready, b_ready}
use pmd.Daemon.Peer.Dialogue.Settled.{BothCalm}
use pmd.Protocol.{heartbeat, heartbeat_ack}
use pmd.Daemon.Peer.Dialogue.Members.{talk-members}
use pmd.Daemon.Peer.Dialogue.Gossip.{tell, gossip-members}
use pmd.Membership.Replication.{
  register_service-Extends, Extends, same, set, removed, merged_with, Replication,
}
use pmd.Examples.Log.{Doc, logged, has, same_bytes, unknown, unknown-nil, whole_log}
use pmd.Examples.Log.Merge.{
  Blob, earlier_total, norm, insert, insert_all, insert_idem, insert_comm, insert-insert_all,
  norm-append,
}

-- What is in a log can be put into it again.
insert-norm : (x : Blob) (xs : List Blob) → has x xs ≡ true → insert x (norm xs) ≡ norm xs
insert-norm x [] h = absurd (ground (arith, h))
insert-norm x (y ∷ ys) h = elim (Bool-cases (same_bytes x y)) [
  | inl eq ↦
      rw (earlier_total x y (ground (arith, eq)) (ground (arith, eq))) (insert_idem y (norm ys))
  | inr ne ↦ insert_comm x y (norm ys) ∙ ap (insert y) (insert-norm x ys (ground (arith, h, ne)))
]

Holds : List Blob → List Blob → Type 0
Holds xs ys = (x : Blob) → has x xs ≡ true → has x ys ≡ true

insert_all-unknown :
    (known own xs : List Blob)
    → Holds known own
    → insert_all (unknown known xs) (norm own) ≡ insert_all xs (norm own)
unfolding Holds
insert_all-unknown known own [] h = refl
insert_all-unknown known own (x ∷ xs) h = elim (Bool-cases (has x known)) [
  | inl old ↦ rw old (
      insert_all-unknown known own xs h
      ∙ ap (insert_all xs) (sym (insert-norm x own (h x old)))
      ∙ sym (insert-insert_all x xs (norm own)))
  | inr fresh ↦ rw fresh (ap (insert x) (insert_all-unknown known own xs h))
]

has-append : (x : Blob) (xs ys : List Blob) → has x ys ≡ true → has x (xs ++ ys) ≡ true
has-append x [] ys h = h
has-append x (z ∷ xs) ys h = ground (arith, has-append x xs ys h)

Extends-Holds : {d e : Doc} → Extends logged d e → Holds d.writes e.writes
unfolding Holds
Extends-Holds same x h = h
Extends-Holds (set path v g) x h = ground (arith, Extends-Holds g x h)
Extends-Holds (removed path g) x h = ground (arith, Extends-Holds g x h)
Extends-Holds (merged_with {e} δ g) x h = has-append x δ e.writes (Extends-Holds g x h)

abbrev replication : Replication logged
replication = record {
  Same-full_delta = λ r d. whole_log d;
  Same-delta_since = λ d d' e g.
      norm-append (unknown d.writes e.writes) d'.writes
      ∙ insert_all-unknown d.writes d'.writes e.writes (Extends-Holds g)
      ∙ sym (norm-append e.writes d'.writes)
      ∙ ap (λ δ. norm (δ ++ d'.writes)) (sym (unknown-nil e.writes));
}

abbrev config : Config logged
config = record {
  port = 4;
  bind = "0.0.0.0";
  home_dir = [];
  socket_path = [];
  pid_path = [];
  cert_path = [];
  key_path = [];
  cookie_path = [];
  ca_cert_path = none;
  sync_interval_secs = 5;
  heartbeat_interval_secs = 10;
  heartbeat_timeout_secs = 30;
  phi_threshold = 8;
  phi_window_size = 1000;
  phi_min_std_deviation_ms = 500;
  metrics_port = 0;
}

-- A daemon behind its start: it is the one member that it knows.
abbrev started : String → String → DaemonState logged
started id addr = init logged 5 id addr []

abbrev side : String → String → Side logged
side id addr = record {
  config = config;
  cookie = 1 ∷ 2 ∷ [];
  nonce = 7 ∷ [];
  version = "0.1";
  before_register = λ st. st;
  before_sync = λ st. st;
  wall = none;
  now = 5;
  state = started id addr;
}

abbrev ann : Side logged
ann = side "ann" "10.0.0.1:4"

abbrev ben : Side logged
ben = side "ben" "10.0.0.2:4"

listening : own_listen_addr logged config ≡ ok "0.0.0.0:4"
unfolding own_listen_addr show_ℕ
listening = refl

can_connect : CanConnect logged ann ben "0.0.0.0:4" "0.0.0.0:4"
unfolding init
can_connect = record {
  same_cookie = refl;
  a_listens = listening;
  b_listens = listening;
  b_unknown = refl;
  a_unknown = refl;
}

calm : BothCalm logged ann ben "0.0.0.0:4" "0.0.0.0:4"
unfolding init register_peer pmd.Membership.add_node pmd.Membership.new
calm = record { a_calm = (refl, refl); b_calm = (refl, refl) }

talk-members_example :
    let (x, y) = talk logged ann ben 4 in
    (x.sent
      ≡ hello logged ann ben "0.0.0.0:4" "0.0.0.0:4"
        ∷ initial_sync logged (a_ready logged ann ben "0.0.0.0:4" "0.0.0.0:4")
        ∷ heartbeat
        ∷ heartbeat_ack
        ∷ [])
    × (y.sent
        ≡ ack logged ann ben "0.0.0.0:4" "0.0.0.0:4"
          ∷ initial_sync logged (b_ready logged ann ben "0.0.0.0:4" "0.0.0.0:4")
          ∷ heartbeat
          ∷ heartbeat_ack
          ∷ [])
    × (x.ended ≡ none)
    × (y.ended ≡ none)
    × (members logged x.state.membership ≡ members logged y.state.membership)
talk-members_example =
    talk-members logged ann ben "0.0.0.0:4" "0.0.0.0:4" replication can_connect calm 0

abbrev handle : String → List (List ℕ) → PeerHandle logged
handle id vv = record {
  node_id = id;
  addr = "0.0.0.0:4";
  last_vv = vv;
  phi_detector = record {
    intervals = [];
    max_window_size = 1000;
    last_heartbeat = none;
    last_heartbeat_epoch = none;
    min_std_deviation_ms = 500;
  };
  gossip_tx = true;
}

-- Ann has the version vector of ben's start; ben has registered a service since.
abbrev ann_state : DaemonState logged
ann_state = record (started "ann" "10.0.0.1:4") {
  peers = ("ben", handle "ben" (started "ben" "10.0.0.2:4").membership.doc.writes) ∷ [];
}

abbrev ben_state : DaemonState logged
ben_state = record (started "ben" "10.0.0.2:4") {
  membership = register_service logged "web" 80 [] (started "ben" "10.0.0.2:4").membership;
  peers = ("ann", handle "ann" []) ∷ [];
}

gossip-members_example :
    let (x, y) = tell logged config "ben" config "ann" ann_state ben_state in
    let (y', x') = tell logged config "ann" config "ben" y.state x.state in
    (x.ended ≡ none)
    × (y.ended ≡ none)
    × (y'.ended ≡ none)
    × (x'.ended ≡ none)
    × (length x.sent ≡ 1)
    × (length y'.sent ≡ 1)
    × (members logged x'.state.membership ≡ members logged y'.state.membership)
gossip-members_example =
    gossip-members logged config "ben" config "ann" ann_state ben_state (handle "ann" [])
      (handle "ben" (started "ben" "10.0.0.2:4").membership.doc.writes)
      (started "ben" "10.0.0.2:4").membership.doc replication refl refl refl
      (register_service-Extends logged "web" 80 [] (started "ben" "10.0.0.2:4").membership)
