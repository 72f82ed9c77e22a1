-- ===== src/Config/Precedence.antt =====
-- Which value wins in `from_file_and_args` of crates/pmd/src/config.rs, and which files daemons of
-- different ports use.
use text.Mathlib.TextLemmas.{append_cancel_left, append_cancel_right}
use pmd.Prelude.{
  ℕ, String, ◌≡◌, ◌≢◌, refl, Option, none, some, List, [], ◌∷◌, nat_eq, if◌then◌else◌,
}
use pmd.Prelude.Decimal.{show_ℕ_inj}
use pmd.Platform.{Platform}
use pmd.Config.{
  ◌>>=◌, load_file, config_of, Config, ConfigFile, FileContents, parsed, malformed, ok, err,
  failed_to_parse, or_default, pmd_home, config_file_path, socket_of, pid_of, effective_port,
  effective_bind, default_bind_address, from_file_and_args,
}

module _ (P : Platform) where
  open P use {FilePath, path_join, path_join_inj}

  bind_order :
      (cli file local_ip : Option String)
      → effective_bind P cli file local_ip
        ≡ or_default cli (or_default file (or_default local_ip "127.0.0.1"))
  unfolding effective_bind default_bind_address
  bind_order (some b) file local_ip = refl
  bind_order none file local_ip = refl

  -- With a readable home directory and a file that parses, the port of the command line wins unless
  -- it is 4369, the bind address of the command line wins over the file's, the file's over the
  -- default, and the socket and the PID file carry the port that won.
  pub from_file_and_args-parsed :
      (home : FilePath) (disk : FilePath → FileContents P) (local_ip config_path : Option String)
      (port : ℕ) (bind : Option String) (discovery : List String) (cf : ConfigFile P)
      → disk (config_file_path P (path_join home ".pmd") config_path) ≡ parsed cf
      → (c : Config P) × (found : List String) × (from_file_and_args P
            (some home)
            disk
            local_ip
            config_path
            port
            bind
            discovery
          ≡ ok (c, cf.metadata, found))
        × (c.port ≡ (if nat_eq port 4369 then or_default cf.port port else port))
        × (c.bind ≡ or_default bind (or_default cf.bind (or_default local_ip "127.0.0.1")))
        × (c.socket_path ≡ socket_of P (path_join home ".pmd") c.port)
        × (c.pid_path ≡ pid_of P (path_join home ".pmd") c.port)
  unfolding from_file_and_args pmd_home config_of effective_port load_file
  from_file_and_args-parsed home disk local_ip config_path port bind discovery cf e = (
    config_of P (path_join home ".pmd") local_ip port bind cf,
    (elim discovery as (λ _. List String) [ [] ↦ cf.discovery | d ∷ ds ↦ d ∷ ds ]),
    rw (e, ◌>>=◌, load_file),
    refl,
    bind_order bind cf.bind local_ip,
    refl,
    refl,
  )

  -- A file that does not parse stops the start.
  pub from_file_and_args-malformed :
      (home : FilePath) (disk : FilePath → FileContents P) (local_ip config_path : Option String)
      (port : ℕ) (bind : Option String) (discovery : List String)
      → disk (config_file_path P (path_join home ".pmd") config_path) ≡ malformed
      → from_file_and_args P (some home) disk local_ip config_path port bind discovery
        ≡ err failed_to_parse
  unfolding from_file_and_args pmd_home load_file
  from_file_and_args-malformed home disk local_ip config_path port bind discovery e =
      rw (e, ◌>>=◌, load_file)

  -- Two daemons of one home directory whose ports differ share neither the control socket nor the
  -- PID file.
  pub socket_of_inj :
      (home_dir : FilePath) (m n : ℕ)
      → m ≢ n
      → (socket_of P home_dir m ≢ socket_of P home_dir n)
        × (pid_of P home_dir m ≢ pid_of P home_dir n)
  unfolding socket_of pid_of
  socket_of_inj home_dir m n ne = (
    λ e. ne (
        show_ℕ_inj m n (
          append_cancel_right _ _ ".sock"
            (append_cancel_left "pmd-" _ _ (path_join_inj home_dir _ _ e)))),
    λ e. ne (
        show_ℕ_inj m n (
          append_cancel_right _ _ ".pid"
            (append_cancel_left "pmd-" _ _ (path_join_inj home_dir _ _ e)))),
  )
