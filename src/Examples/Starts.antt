-- ===== src/Examples/Starts.antt =====
-- Accept errors, the files of a start, and the end of the main loop, at concrete inputs.
use pmd.Prelude.{ℕ, ◌≡◌, ◌≢◌, refl, true, false, none, some, List, [], ◌∷◌, ◌++◌, arith, Option}
use pmd.Daemon.{tick, main_loop}
use pmd.Daemon.MainLoop.Liveness.{Schedule, first_turns, main_loop-eventually}
use pmd.Daemon.Control.Socket.{Accepted, client, accept_error, run_control_socket}
use pmd.Daemon.Server.{Event, failed, run_server}
use pmd.Daemon.Server.Accept.{arrivals, sessions_of, run_server-accept_error}
use pmd.Daemon.Startup.{
  Files, absent, Writes, ok, load_or_generate_cookie, generate_cookie, Pem, Generation,
  load_or_generate_identity, load_identity, generate_self_signed_cert, write_pems,
}
use pmd.Daemon.Startup.Again.{load_or_generate_cookie-again}
use pmd.Examples.Toy.{toy}
use pmd.Examples.Codec.{codec}
use pmd.Examples.Sessions.{connected, config}
use pmd.Examples.Cluster.{alice-IsSegment, zone, zone-Distinct}
use pmd.Daemon.Startup.Run.{Machine, RunningDaemon, start, with_cookie, open_sockets, start_metrics}
use pmd.Daemon.Startup.Run.Running.{Runs, start-Runs}
use pmd.Discovery.Plugins.{start_discovery_plugins}
use pmd.Daemon.{init}
use pmd.Membership.{NodeInfo, members}
use pmd.Membership.Views.{find_node}
use pmd.Prelude.{String}
use pmd.Prelude.Decimal.{show_ℕ}

abbrev questions : List (Accepted toy)
questions = client (λ s. s) 9 (record { incoming = none; writable = true; channel = [] }) ∷ []

abbrev connections : List (Option ℕ)
connections = some 1 ∷ none ∷ some 2 ∷ []

abbrev late : List (Event ℕ)
late = Event.accepted (some 3) ∷ []

run_server-accept_error_example :
    (run_server (arrivals connections ++ Event.accept_error ∷ late)
      ≡ (sessions_of connections, failed))
    × (run_control_socket toy codec (questions ++ accept_error ∷ questions) connected
        ≡ run_control_socket toy codec (questions ++ questions) connected)
run_server-accept_error_example =
    run_server-accept_error toy codec connections late questions questions connected

abbrev pub fresh : Files
fresh = record { cookie = absent; cert = absent; key = absent }

abbrev good : Writes
good = record { written = true; restricted = true }

abbrev bad : Writes
bad = record { written = false; restricted = false }

abbrev random : List ℕ
random =
    1 ∷ 2 ∷ 3 ∷ 4 ∷ 5 ∷ 6 ∷ 7 ∷ 8 ∷ 1 ∷ 2 ∷ 3 ∷ 4 ∷ 5 ∷ 6 ∷ 7 ∷ 8 ∷ 1 ∷ 2 ∷ 3 ∷ 4 ∷ 5 ∷ 6 ∷ 7 ∷ 8
    ∷ 1 ∷ 2 ∷ 3 ∷ 4 ∷ 5 ∷ 6 ∷ 7 ∷ 8 ∷ []

load_or_generate_cookie-again_example :
    load_or_generate_cookie [] bad (load_or_generate_cookie random good fresh).0
    ≡ ((load_or_generate_cookie random good fresh).0, ok random)
unfolding load_or_generate_cookie generate_cookie
load_or_generate_cookie-again_example =
    load_or_generate_cookie-again random [] good bad fresh random refl refl

abbrev pub pem : Pem
pem = record { Certs = List ℕ; Key = List ℕ; certs = some; first_key = λ k. some (some k) }

abbrev pub made : Generation
made = record { pems = some (1 ∷ [], 2 ∷ []); cert_written = true; key_disk = good }

abbrev unmade : Generation
unmade = record { pems = none; cert_written = true; key_disk = good }

-- The connector's generation would fail; the metrics' port is not free.
abbrev machine : Machine toy
machine = record {
  now = 5;
  dirs = true;
  random = random;
  cookie_disk = good;
  for_acceptor = made;
  for_connector = unmade;
  bound = some;
  socket_bound = true;
  pid_written = true;
  metrics_bound = false;
}

abbrev plugins : List String
plugins = "broadcast" ∷ "carrier-pigeon" ∷ []

abbrev here : String
here = "0.0.0.0:4"

abbrev daemon : RunningDaemon toy pem
daemon = record {
  state = init toy 5 "alice" here zone;
  cookie = random;
  acceptor = (1 ∷ [], 2 ∷ []);
  connector = (1 ∷ [], 2 ∷ []);
  metrics = false;
  plugins = start_discovery_plugins toy plugins "alice" here;
}

start-Runs_example :
    Runs toy pem machine config "alice" zone plugins
      (start toy pem machine config "alice" zone plugins fresh).0
      daemon
    × ((n : NodeInfo toy) × (find_node toy "alice" (members toy daemon.state.membership) ≡ some n)
        × (n.addr ≡ here))
unfolding start load_or_generate_cookie generate_cookie with_cookie load_or_generate_identity
    load_identity generate_self_signed_cert write_pems open_sockets start_metrics show_ℕ init
start-Runs_example =
    start-Runs toy pem machine config "alice" zone plugins fresh daemon alice-IsSegment
      (omega arith) zone-Distinct refl refl

-- Every turn brings a request to shut down, and a tick.
abbrev schedule : Schedule toy
schedule n = ((λ st. record st { shutdown_requested = true }), tick)

main_loop-eventually_example :
    (n : ℕ) × (main_loop toy (λ s. s) (first_turns toy n schedule) connected ≢ none)
main_loop-eventually_example =
    main_loop-eventually toy (λ s. s) schedule 2 connected (λ n. (n, omega arith, refl)) (λ _. refl)
      (λ n st h. refl)
