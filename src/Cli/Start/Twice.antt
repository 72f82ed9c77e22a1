-- ===== src/Cli/Start/Twice.antt =====
-- Which daemon the commands of crates/pmd/src/main.rs find, and which one keeps a second from starting.
use pmd.Prelude.{
  not, ◌||◌, if◌then◌else◌, ℕ, String, ◌^^◌, ◌≡◌, ◌↔◌, refl, sym, ◌∙◌, ap, Bool, true, false, some,
  List, arith,
}
use pmd.Prelude.Decimal.{show_ℕ}
use pmd.Prelude.Maps.{Map}
use pmd.Platform.{Platform}
use pmd.Config.{Config, ok, err, override_metrics_port, socket_of, from_file_and_args}
use pmd.Cli.Commands.{Commands, port_of, socket_for}
use pmd.Cli.Commands.Ports.{socket_of_cancel, from_file_and_args-socket_of, connects-socket_for_iff}
use pmd.Cli.Start.{
  StartArgs, Machine, Outcome, already_running, failed, runs, start_with, from_args, start_command,
}

module _ (P : Platform) where
  open P use {FilePath, path_join}

  -- The line of a start that finds a daemon.
  abbrev pub refusal : StartArgs → Outcome P
  refusal args =
      already_running ("PMD daemon is already running on port " ^^ (show_ℕ args.port ^^ "."))

  is_refusal : Outcome P → Bool
  is_refusal (already_running line) = true
  is_refusal failed = false
  is_refusal (runs config metadata plugins) = false

  decided :
      (dirs connected ready : Bool) (line : String) (config : Config P) (metadata : Map String)
      (plugins : List String)
      → dirs ≡ true
      → ((if not dirs
            then failed
            else if connected
            then already_running line
            else if ready
            then runs config metadata plugins
            else failed)
          ≡ already_running line)
        ↔ (connected ≡ true)
  decided false connected ready line config metadata plugins h = absurd (ground (arith, h))
  decided true true ready line config metadata plugins h = (λ _. refl, λ _. refl)
  decided true false true line config metadata plugins h =
      (λ e. absurd (ground (arith, ap is_refusal e)), λ c. absurd (ground (arith, c)))
  decided true false false line config metadata plugins h =
      (λ e. absurd (ground (arith, ap is_refusal e)), λ c. absurd (ground (arith, c)))

  start_with-refusal :
      (args : StartArgs) (machine : Machine P) (config : Config P) (metadata : Map String)
      (plugins : List String)
      → machine.dirs ≡ true
      → (start_with P args machine config metadata plugins ≡ refusal args)
        ↔ (machine.connects config.socket_path ≡ true)
  unfolding start_with
  start_with-refusal args machine config metadata plugins dirs =
      decided machine.dirs (machine.connects config.socket_path)
        (args.foreground || machine.daemonized) _ config metadata plugins dirs

  -- The metrics' port has no part in the socket.
  socket-override :
      (port : ℕ) (config : Config P)
      → (override_metrics_port P port config).socket_path ≡ config.socket_path
  unfolding override_metrics_port
  socket-override port config = ground arith

  start_command-start_with :
      (args : StartArgs) (machine : Machine P) (config : Config P) (metadata : Map String)
      (plugins : List String)
      → from_args P args machine ≡ ok (config, metadata, plugins)
      → start_command P args machine
        ≡ start_with P args machine
            (override_metrics_port P args.metrics_port config)
            metadata
            plugins
  unfolding start_command
  start_command-start_with args machine config metadata plugins loaded =
      ap
        (λ r. elim r as (λ _. Outcome P) [
          | err e ↦ failed
          | ok l ↦ start_with P args machine (override_metrics_port P args.metrics_port l.0) l.1 l.2
        ])
        loaded

  -- What a start loads from a home directory.
  loaded_from :
      (args : StartArgs) (machine : Machine P) (home : FilePath) (config : Config P)
      (metadata : Map String) (plugins : List String)
      → machine.home ≡ some home
      → from_args P args machine ≡ ok (config, metadata, plugins)
      → from_file_and_args P
          (some home)
          machine.disk
          machine.local_ip
          args.config
          args.port
          args.bind
          args.discovery
        ≡ ok (config, metadata, plugins)
  loaded_from args machine home config metadata plugins at loaded =
      sym (
        ap
          (λ h.
            from_file_and_args P h machine.disk machine.local_ip args.config args.port args.bind
              args.discovery)
          at)
      ∙ loaded

  -- Where one daemon listens, that of a configuration of this home directory: a command finds it exactly
  -- if it is given the port that the daemon's configuration has, and a start, whose own configuration
  -- loads and whose directories exist, finds it, says so and runs nothing exactly if its configuration
  -- has that port.
  pub start_command-refusal_iff :
      (first args : StartArgs) (before machine : Machine P) (home : FilePath)
      (running config : Config P) (metadata metadata' : Map String) (plugins plugins' : List String)
      (command : Commands)
      → before.home ≡ some home
      → machine.home ≡ some home
      → machine.dirs ≡ true
      → from_args P first before ≡ ok (running, metadata, plugins)
      → from_args P args machine ≡ ok (config, metadata', plugins')
      → ((p : FilePath) → (machine.connects p ≡ true) ↔ (p ≡ running.socket_path))
      → ((machine.connects (socket_for P home command) ≡ true) ↔ (port_of command ≡ running.port))
        × ((start_command P args machine ≡ refusal args) ↔ (config.port ≡ running.port))
  start_command-refusal_iff first args before machine home running config metadata metadata' plugins
        plugins' command home_before home_now dirs started loaded listens =
      let from_first = loaded_from first before home running metadata plugins home_before started in
      let from_second = loaded_from args machine home config metadata' plugins' home_now loaded in
      let dir = path_join home ".pmd" in
      let here =
        from_file_and_args-socket_of P home before.disk before.local_ip first.config first.port
          first.bind first.discovery running metadata plugins from_first in
      let there =
        from_file_and_args-socket_of P home machine.disk machine.local_ip args.config args.port
          args.bind args.discovery config metadata' plugins' from_second in
      let configured = override_metrics_port P args.metrics_port config in
      let same = start_command-start_with args machine config metadata' plugins' loaded in
      let refused = start_with-refusal args machine configured metadata' plugins' dirs in
      let socket = socket-override args.metrics_port config in
      (
        connects-socket_for_iff P home before.disk before.local_ip first.config first.port
            first.bind first.discovery running metadata plugins machine.connects command from_first
            listens,
        (
          λ e. socket_of_cancel P dir _ _ (
              sym there
              ∙ sym socket
              ∙ (listens configured.socket_path).0 (refused.0 (sym same ∙ e))
              ∙ here),
          λ ports.
              same
              ∙ refused.1 (
                  (listens configured.socket_path).1
                    (socket ∙ there ∙ ap (socket_of P dir) ports ∙ sym here)),
        ),
      )
