-- ===== src/Examples/Client.antt =====
-- The command line and the control socket at a concrete daemon.
use pmd.Prelude.{
  ℕ, String, ◌≡◌, refl, true, false, Bool, none, some, List, [], ◌∷◌, arith, ◌==◌, ◌&&◌, eq_refl,
  ◌↔◌, eq_iff,
}
use pmd.Protocol.{node_joined, node_left}
use pmd.Membership.{
  MembershipChange, new, add_node, members, object_at, node_info, node_addr, is_dead,
  lookup_service, register_service, endpoint_entry, node_json, service_json, parse_metadata,
  metadata_json,
}
use pmd.Config.{
  Config, missing, from_file_and_args, load_file, config_of, empty_file, effective_port, pmd_home,
}
use pmd.Daemon.{DaemonState}
use pmd.Daemon.Control.{dispatch_request}
use pmd.Daemon.Control.Socket.{Received, change, lagged}
use pmd.Cli.Print.{printed, print_response}
use pmd.Cli.Commands.{Commands, run_cli_command, request_of, socket_for}
use pmd.Cli.Commands.Services.{Prints, row_of, run_cli_command-dispatch, run_cli_command-register}
use pmd.Cli.Start.{StartArgs, Machine, start_command}
use pmd.Cli.Start.Twice.{refusal, start_command-refusal_iff}
use pmd.Examples.Toy.{toy}
use pmd.Examples.Codec.{codec}
use pmd.Examples.Cluster.{alice-IsSegment, web-IsSegment, alice_info, alice_found, alone}
use pmd.Examples.Sessions.{idle}

abbrev home : List String
home = "/home/alice" ∷ []

abbrev joined : MembershipChange
joined = record { event = node_joined; node_id = "bob"; addr = "10.0.0.2:4369" }

abbrev left : MembershipChange
left = record { event = node_left; node_id = "bob"; addr = "10.0.0.2:4369" }

-- The last change comes behind one that was missed.
abbrev channel : List (Received × Bool)
channel =
    (change joined, true) ∷ (change left, true) ∷ (lagged 3, true) ∷ (change joined, true) ∷ []

run_cli_command-dispatch_example :
    run_cli_command toy codec (some home) (λ _. true) 9 [] (Commands.join "10.0.0.7:4369" 4369) idle
    ≡ (record idle { pending_joins = "10.0.0.7:4369" ∷ [] }, printed ("OK" ∷ []))
unfolding dispatch_request request_of print_response
run_cli_command-dispatch_example =
    run_cli_command-dispatch toy codec home (λ _. true) 9 [] (Commands.join "10.0.0.7:4369" 4369)
      idle refl (λ e. absurd (ground (arith, e))) refl

abbrev lone : DaemonState toy
lone = record idle { membership = alone }

run_cli_command-register_example :
    ((run_cli_command toy codec
        (some home)
        (λ _. true)
        9
        []
        (Commands.register "web" 8080 4369)
        lone).1
      ≡ printed ("OK" ∷ []))
    × Prints
        (row_of toy codec "web" "alice" "10.0.0.1:4369" 8080)
        (run_cli_command toy codec
          (some home)
          (λ _. true)
          10
          []
          (Commands.lookup "web" 4369)
          (run_cli_command toy codec
            (some home)
            (λ _. true)
            9
            []
            (Commands.register "web" 8080 4369)
            lone).0).1
unfolding add_node new members node_info node_addr is_dead lookup_service object_at register_service
    dispatch_request endpoint_entry node_json service_json parse_metadata metadata_json
run_cli_command-register_example =
    run_cli_command-register toy codec home (λ _. true) 9 10 [] "web" 8080 4369 alice_info lone refl
      alice-IsSegment web-IsSegment (omega arith) alice_found refl

abbrev texts_eq : List String → List String → Bool
texts_eq [] [] = true
texts_eq [] (b ∷ bs) = false
texts_eq (a ∷ xs) [] = false
texts_eq (a ∷ xs) (b ∷ bs) = (a == b) && texts_eq xs bs

texts_eq_sound : (xs bs : List String) → texts_eq xs bs ≡ true → xs ≡ bs
texts_eq_sound [] [] h = refl
texts_eq_sound [] (b ∷ bs) h = absurd (ground (arith, h))
texts_eq_sound (a ∷ xs) [] h = absurd (ground (arith, h))
texts_eq_sound (a ∷ xs) (b ∷ bs) h = ground (arith, h, eq_iff a b, texts_eq_sound xs bs)

texts_eq_refl : (xs : List String) → texts_eq xs xs ≡ true
texts_eq_refl [] = refl
texts_eq_refl (a ∷ xs) = ground (arith, eq_refl a, texts_eq_refl xs)

texts_eq_complete : (xs bs : List String) → xs ≡ bs → texts_eq xs bs ≡ true
texts_eq_complete xs bs e = rw (e, texts_eq_refl bs)

abbrev started : Config toy
started = config_of toy (".pmd" ∷ home) none 4369 none (empty_file toy)

abbrev other : Config toy
other = config_of toy (".pmd" ∷ home) none 4370 none (empty_file toy)

abbrev args_of : ℕ → StartArgs
args_of port = record {
  port = port;
  bind = none;
  foreground = true;
  config = none;
  discovery = [];
  metrics_port = 9100;
}

-- No configuration file, and a daemon on the default port.
abbrev busy : Machine toy
busy = record {
  home = some home;
  disk = λ _. missing;
  local_ip = none;
  dirs = true;
  connects = λ p. texts_eq p started.socket_path;
  daemonized = true;
}

start_command-refusal_iff_example :
    ((texts_eq (socket_for toy home (Commands.stop 4370)) started.socket_path ≡ true)
      ↔ (4370 ≡ started.port))
    × ((start_command toy (args_of 4370) busy ≡ refusal toy (args_of 4370))
        ↔ (other.port ≡ started.port))
unfolding config_of effective_port from_file_and_args load_file pmd_home
start_command-refusal_iff_example =
    start_command-refusal_iff toy (args_of 4369) (args_of 4370) busy busy home started other [] []
      [] [] (Commands.stop 4370) refl refl refl refl refl
      (λ p. (texts_eq_sound p started.socket_path, texts_eq_complete p started.socket_path))
