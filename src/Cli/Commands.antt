-- ===== src/Cli/Commands.antt =====
-- `Commands` of crates/pmd/src/cli.rs and `run_cli_command` of crates/pmd/src/main.rs. `port` is the port
-- of the daemon that the command asks, for which clap has a default.
pub mod Services
pub mod Ports
use pmd.Prelude.{ℕ, String, Bool, true, false, Option, none, some, List, [], ◌∷◌, if◌then◌else◌}
use pmd.Platform.{Platform}
use pmd.Protocol.{ControlRequest, ControlResponse}
use pmd.Config
use pmd.Config.{Config, Result, ok, err}
use pmd.Daemon.{DaemonState}
use pmd.Daemon.Control.Socket.{
  LineCodec, Received, Client, send_control_request, sending, handle_control_client,
}
use pmd.Cli.Print.{Output, printed, print_response}
use pmd.Cli.Subscriber.{run_subscribe}

-- `default_value_t` of every `port`.
abbrev pub default_port : ℕ
default_port = 4369

-- The commands that ask a daemon.
pub data Commands : Type 0 where
  stop status nodes subscribe : ℕ → Commands
  join leave unregister lookup : String → ℕ → Commands
  -- name, service_port, port
  register : String → ℕ → ℕ → Commands

abbrev pub port_of : Commands → ℕ
port_of (Commands.stop port) = port
port_of (Commands.status port) = port
port_of (Commands.nodes port) = port
port_of (Commands.subscribe port) = port
port_of (Commands.join addr port) = port
port_of (Commands.leave addr port) = port
port_of (Commands.unregister name port) = port
port_of (Commands.lookup name port) = port
port_of (Commands.register name service_port port) = port

unfoldable pub request_of : Commands → ControlRequest
request_of (Commands.stop port) = ControlRequest.shutdown
request_of (Commands.status port) = ControlRequest.status
request_of (Commands.nodes port) = ControlRequest.nodes
request_of (Commands.subscribe port) = ControlRequest.subscribe
request_of (Commands.join addr port) = ControlRequest.join addr
request_of (Commands.leave addr port) = ControlRequest.leave addr
request_of (Commands.unregister name port) = ControlRequest.unregister name
request_of (Commands.lookup name port) = ControlRequest.lookup name
request_of (Commands.register name service_port port) = ControlRequest.register name service_port []

abbrev pub failed : Output
failed = record { lines = []; is_ok = false }

-- The socket that a command looks for.
module _ (P : Platform) where
  abbrev pub socket_for : P.FilePath → Commands → P.FilePath
  socket_for home command = Config.socket_of P (P.path_join home ".pmd") (port_of command)

module _ (P : Platform) (codec : LineCodec P) where
  open P use {FilePath}

  unfoldable pub print_result : Option (ControlResponse P) → Output
  unfolding print_response
  print_result none = failed
  print_result (some response) = print_response P response

  -- A command on the socket of a daemon in the state `st`. `connects` says at which paths a daemon
  -- listens, here always this one.
  unfoldable pub run_at :
      ℕ → List (Received × Bool) → Bool → Commands → DaemonState P → DaemonState P × Output
  unfolding print_result request_of
  run_at now channel connected (Commands.subscribe port) st =
      let served =
        handle_control_client P codec now (sending P codec channel ControlRequest.subscribe) st in
      if connected
      then (served.state, printed (run_subscribe P codec served.outgoing))
      else (st, failed)
  run_at now channel connected command st =
      let (st', response) =
        send_control_request P codec now connected channel (request_of command) st in
      (st', print_result response)

  unfoldable pub run_cli_command :
      Option FilePath
      → (FilePath → Bool)
      → ℕ
      → List (Received × Bool)
      → Commands
      → DaemonState P
      → DaemonState P × Output
  unfolding run_at
  run_cli_command home connects now channel command st =
      elim (Config.new P home (port_of command) "0.0.0.0") [
        | err e ↦ (st, failed)
        | ok config ↦ run_at now channel (connects config.socket_path) command st
      ]
