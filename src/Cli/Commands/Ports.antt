-- ===== src/Cli/Commands/Ports.antt =====
-- Which daemon a command of crates/pmd/src/main.rs finds: the paths of crates/pmd/src/config.rs.
use text.Mathlib.TextLemmas.{append_cancel_left, append_cancel_right}
use pmd.Prelude.{ℕ, String, ◌≡◌, ◌↔◌, refl, sym, ◌∙◌, ap, Bool, true, Option, some, List, [], ◌∷◌}
use mathlib.Core.Path.{subst}
use pmd.Prelude.Decimal.{show_ℕ_inj}
use pmd.Prelude.Maps.{Map}
use pmd.Platform.{Platform}
use pmd.Config.{
  ◌>>=◌, Config, ConfigFile, FileContents, Result, ok, err, config_of, load_file, pmd_home,
  config_file_path, socket_of, from_file_and_args,
}
use pmd.Cli.Commands.{Commands, port_of, socket_for}

module _ (P : Platform) where
  open P use {FilePath, path_join, path_join_inj}

  pub socket_of_cancel :
      (home_dir : FilePath) (m n : ℕ) → socket_of P home_dir m ≡ socket_of P home_dir n → m ≡ n
  unfolding socket_of
  socket_of_cancel home_dir m n e = show_ℕ_inj m n (
      append_cancel_right _ _ ".sock"
        (append_cancel_left "pmd-" _ _ (path_join_inj home_dir _ _ e)))

  abbrev FromFile : Type 0
  FromFile = Result (Config P × Map String × List String)

  -- A configuration's socket carries its port.
  abbrev SocketAt : FilePath → FromFile → Type 0
  SocketAt home (ok started) =
      started.0.socket_path ≡ socket_of P (path_join home ".pmd") started.0.port
  SocketAt home (err e) = true ≡ true

  loaded-SocketAt :
      (home : FilePath) (local_ip : Option String) (port : ℕ) (bind : Option String)
      (plugins : ConfigFile P → List String) (file : Result (ConfigFile P))
      → SocketAt home (do
        cf ← file
        ok (config_of P (path_join home ".pmd") local_ip port bind cf, cf.metadata, plugins cf))
  unfolding config_of
  loaded-SocketAt home local_ip port bind plugins (ok cf) = refl
  loaded-SocketAt home local_ip port bind plugins (err x) = refl

  from_file_and_args-SocketAt :
      (home : FilePath) (disk : FilePath → FileContents P) (local_ip config_path : Option String)
      (port : ℕ) (bind : Option String) (discovery : List String)
      → SocketAt home
          (from_file_and_args P (some home) disk local_ip config_path port bind discovery)
  unfolding from_file_and_args pmd_home
  from_file_and_args-SocketAt home disk local_ip config_path port bind discovery =
      loaded-SocketAt home local_ip port bind
        (λ cf. elim discovery as (λ _. List String) [ [] ↦ cf.discovery | d ∷ ds ↦ d ∷ ds ])
        (load_file P (disk (config_file_path P (path_join home ".pmd") config_path)))

  -- A configuration from the file and the arguments has the socket of its port.
  pub from_file_and_args-socket_of :
      (home : FilePath) (disk : FilePath → FileContents P) (local_ip config_path : Option String)
      (port : ℕ) (bind : Option String) (discovery : List String) (config : Config P)
      (metadata : Map String) (plugins : List String)
      → from_file_and_args P (some home) disk local_ip config_path port bind discovery
        ≡ ok (config, metadata, plugins)
      → config.socket_path ≡ socket_of P (path_join home ".pmd") config.port
  from_file_and_args-socket_of home disk local_ip config_path port bind discovery config metadata
        plugins started =
      subst (SocketAt home) started
        (from_file_and_args-SocketAt home disk local_ip config_path port bind discovery)

  -- Where one daemon listens, that of a configuration of the same home directory, a command finds a
  -- daemon exactly if it is given the port that the configuration has.
  pub connects-socket_for_iff :
      (home : FilePath) (disk : FilePath → FileContents P) (local_ip config_path : Option String)
      (port : ℕ) (bind : Option String) (discovery : List String) (config : Config P)
      (metadata : Map String) (plugins : List String) (connects : FilePath → Bool)
      (command : Commands)
      → from_file_and_args P (some home) disk local_ip config_path port bind discovery
        ≡ ok (config, metadata, plugins)
      → ((p : FilePath) → (connects p ≡ true) ↔ (p ≡ config.socket_path))
      → (connects (socket_for P home command) ≡ true) ↔ (port_of command ≡ config.port)
  connects-socket_for_iff home disk local_ip config_path port bind discovery config metadata plugins
        connects command started listens =
      let at =
        from_file_and_args-socket_of home disk local_ip config_path port bind discovery config
          metadata plugins started in
      (
        λ found.
            socket_of_cancel (path_join home ".pmd") _ _
              ((listens (socket_for P home command)).0 found ∙ at),
        λ same.
            (listens (socket_for P home command)).1
              (ap (socket_of P (path_join home ".pmd")) same ∙ sym at),
      )
