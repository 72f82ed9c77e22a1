-- ===== src/Cli/Start.antt =====
-- `pmd start`: the branch `Commands::Start` of `main` in crates/pmd/src/main.rs, up to the call of `run`.
pub mod Twice
use pmd.Prelude.{
  ℕ, String, ◌^^◌, Bool, true, false, not, ◌||◌, Option, none, some, List, [], ◌∷◌, if◌then◌else◌,
}
use pmd.Prelude.Decimal.{show_ℕ}
use pmd.Prelude.Maps.{Map}
use pmd.Platform.{Platform}
use pmd.Config.{Config, FileContents, Result, ok, err, from_file_and_args, override_metrics_port}

-- `Commands::Start` of crates/pmd/src/cli.rs.
pub record StartArgs : Type 0 where
  pub port : ℕ
  pub bind : Option String
  pub foreground : Bool
  pub config : Option String
  pub discovery : List String
  pub metrics_port : ℕ

-- What the machine answers: the home directory, the files, the local address, whether the directories
-- could be created, where a daemon listens, and whether the process could be made a daemon.
pub record Machine (P : Platform) : Type 0 where
  pub home : Option P.FilePath
  pub disk : P.FilePath → FileContents P
  pub local_ip : Option String
  pub dirs : Bool
  pub connects : P.FilePath → Bool
  pub daemonized : Bool

-- How the command ends: with a line, with an error, or in `run` with its arguments.
pub data Outcome (P : Platform) : Type 0 where
  already_running : String → Outcome P
  failed : Outcome P
  runs : Config P → Map String → List String → Outcome P

module _ (P : Platform) where
  unfoldable pub start_with :
      StartArgs → Machine P → Config P → Map String → List String → Outcome P
  start_with args machine config metadata discovery_plugins =
      if not machine.dirs
      then failed
      else if machine.connects config.socket_path
      then already_running ("PMD daemon is already running on port " ^^ (show_ℕ args.port ^^ "."))
      else if args.foreground || machine.daemonized
      then runs config metadata discovery_plugins
      else failed

  abbrev pub from_args : StartArgs → Machine P → Result (Config P × Map String × List String)
  from_args args machine =
      from_file_and_args P machine.home machine.disk machine.local_ip args.config args.port
        args.bind args.discovery

  unfoldable pub start_command : StartArgs → Machine P → Outcome P
  unfolding start_with
  start_command args machine = elim (from_args args machine) [
    | err e ↦ failed
    | ok loaded ↦
        start_with args machine (override_metrics_port P args.metrics_port loaded.0) loaded.1
          loaded.2
  ]
