-- ===== src/Examples/Sessions.antt =====
-- Peer sessions at concrete messages and states.
use pmd.Prelude.{ℕ, ◌≡◌, ◌↔◌, refl, true, false, none, some, List, [], ◌∷◌}
use pmd.Prelude.Maps.{lookup, contains_key}
use pmd.Prelude.Decimal.{show_ℕ}
use pmd.Config.{Config}
use pmd.Protocol.{Message, handshake, handshake_ack, membership_sync, heartbeat, heartbeat_ack}
use pmd.Protocol.Cookie.{compute_cookie_hmac, verify_cookie_hmac}
use pmd.Protocol.Frame
use pmd.Daemon.{PeerHandle, DaemonState, leave_peer}
use pmd.Daemon.Peer.{
  ok, err, write_failed, Surroundings, cancelled, heartbeat_due, phi_check, gossip_signal, received,
  stop, check_handshake, check_handshake_ack, own_listen_addr, peer_step, message_loop, serve_peer,
  run_inbound,
}
use pmd.Daemon.Peer.Auth.{check_handshake_iff, check_handshake_ack-replay}
use pmd.Daemon.Peer.Loop.{SyncOutcome, peer_step-membership_sync}
use pmd.Daemon.Peer.Session.{Cleaned, serve_peer-Cleaned}
use pmd.Daemon.Peer.Leak.{run_inbound-leak}
use pmd.Daemon.Peer.Left.{peer_step-leave_peer}
use pmd.Examples.Toy.{toy}
use pmd.Examples.Cluster.{bob-IsSegment, pair, carol_bytes}

abbrev pub config : Config toy
config = record {
  port = 4;
  bind = "0.0.0.0";
  home_dir = [];
  socket_path = [];
  pid_path = [];
  cert_path = [];
  key_path = [];
  cookie_path = [];
  ca_cert_path = none;
  sync_interval_secs = 5;
  heartbeat_interval_secs = 10;
  heartbeat_timeout_secs = 30;
  phi_threshold = 8;
  phi_window_size = 1000;
  phi_min_std_deviation_ms = 500;
  metrics_port = 0;
}

abbrev pub cookie : List ℕ
cookie = 1 ∷ 2 ∷ []

abbrev pub nonce : List ℕ
nonce = 7 ∷ 7 ∷ []

abbrev mac : List ℕ
mac = 1 ∷ 2 ∷ 7 ∷ 7 ∷ []

abbrev hello : Message toy
hello = handshake "bob" "10.0.0.2:4369" nonce mac "0.1" 1

hello_accepted : check_handshake toy cookie hello ≡ ok ("bob", "10.0.0.2:4369")
unfolding check_handshake verify_cookie_hmac
hello_accepted = refl

abbrev pub bob : PeerHandle toy
bob = record {
  node_id = "bob";
  addr = "10.0.0.2:4369";
  last_vv = (false, false);
  phi_detector = record {
    intervals = [];
    max_window_size = 1000;
    last_heartbeat = none;
    last_heartbeat_epoch = none;
    min_std_deviation_ms = 500;
  };
  gossip_tx = false;
}

-- Alice without a connection, and with one to bob.
abbrev pub idle : DaemonState toy
idle = record {
  membership = pair;
  listen_addr = "10.0.0.1:4369";
  peers = [];
  pending_joins = [];
  pending_leaves = [];
  shutdown = false;
  shutdown_requested = false;
  event_tx = [];
}

abbrev pub connected : DaemonState toy
connected = record idle { peers = ("bob", bob) ∷ [] }

abbrev env : Surroundings toy
env = record {
  before_register = λ s. s;
  greeting_written = true;
  before_sync = λ s. s;
  sync_written = true;
  turns = ((λ s. s), heartbeat_due true) ∷ ((λ s. s), cancelled) ∷ [];
  before_cleanup = λ s. s;
}

-- The greeting cannot be written.
abbrev unlucky : Surroundings toy
unlucky = record env { greeting_written = false }

check_handshake_iff_example :
    (check_handshake toy cookie hello ≡ ok ("bob", "10.0.0.2:4369"))
    ↔ ((Path ℕ 1 1) × (compute_cookie_hmac toy.crypto cookie nonce ≡ mac))
check_handshake_iff_example = check_handshake_iff toy cookie "bob" "10.0.0.2:4369" nonce mac "0.1" 1

check_handshake_ack-replay_example :
    check_handshake_ack toy cookie
      (handshake_ack "mallory" "10.6.6.6:4369" nonce mac (true, true) "9.9" 1)
    ≡ ok ("mallory", "10.6.6.6:4369", (true, true))
check_handshake_ack-replay_example =
    check_handshake_ack-replay toy cookie "bob" "mallory" "10.0.0.2:4369" "10.6.6.6:4369" nonce mac
      "0.1" "9.9" 1 (true, true) hello_accepted

pub listening : own_listen_addr toy config ≡ ok "0.0.0.0:4"
unfolding own_listen_addr show_ℕ
listening = refl

run_inbound-leak_example :
    (left : DaemonState toy) × (run_inbound toy config cookie nonce "0.1"
        (Frame.ok (some hello))
        unlucky
        idle
      ≡ stop toy (err write_failed) left)
    × (contains_key "bob" left.peers ≡ true)
    × (run_inbound toy config cookie nonce "0.1" (Frame.ok (some hello)) env left
        ≡ stop toy (ok tt) left)
run_inbound-leak_example =
    run_inbound-leak toy config cookie nonce "0.1" (Frame.ok (some hello)) (Frame.ok (some hello))
      unlucky env idle "bob" "10.0.0.2:4369" "10.0.0.2:4369" "0.0.0.0:4" hello_accepted refl
      listening refl hello_accepted (λ s. refl)

loop_ended : (message_loop toy config "bob" env.turns connected).ended ≡ some (ok tt)
unfolding message_loop
loop_ended = refl

serve_peer-Cleaned_example :
    ((serve_peer toy config "bob" "10.0.0.2:4369" env connected).ended ≡ some (ok tt))
    × Cleaned toy "bob" "10.0.0.2:4369"
        (message_loop toy config "bob" env.turns connected).state
        (serve_peer toy config "bob" "10.0.0.2:4369" env connected).state
serve_peer-Cleaned_example =
    serve_peer-Cleaned toy config "bob" "10.0.0.2:4369" env connected (ok tt) bob-IsSegment refl
      loop_ended

peer_step-membership_sync_example :
    SyncOutcome toy "bob" "carol"
      (true, false)
      (toy.decode carol_bytes)
      connected
      (peer_step toy config "bob"
        (received (Frame.ok (membership_sync carol_bytes (true, false))) none 5 true)
        connected)
peer_step-membership_sync_example =
    peer_step-membership_sync toy config "bob" carol_bytes (true, false) none 5 true connected
      "carol"

peer_step-leave_peer_example :
    (left : DaemonState toy) × (left ≡ leave_peer toy "10.0.0.2:4369" connected)
    × (lookup "bob" left.peers ≡ none)
    × (peer_step toy config "bob" (heartbeat_due true) left
        ≡ record { state = left; sent = heartbeat ∷ []; ended = none })
    × (peer_step toy config "bob" (received (Frame.ok heartbeat) none 99 true) left
        ≡ record { state = left; sent = heartbeat_ack ∷ []; ended = none })
    × (peer_step toy config "bob" (phi_check 99) left
        ≡ record { state = left; sent = []; ended = none })
    × (peer_step toy config "bob" (gossip_signal true) left
        ≡ record { state = left; sent = []; ended = none })
peer_step-leave_peer_example =
    peer_step-leave_peer toy config "bob" connected bob none 99 (refl, tt) refl
