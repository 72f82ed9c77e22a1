-- ===== src/Config.antt =====
-- crates/pmd/src/config.rs: the daemon's configuration, from the file and the command line, and the
-- override of the metrics port in crates/pmd/src/main.rs.
pub mod Precedence
use pmd.Prelude.{
  ℕ, String, Bool, true, false, Option, none, some, List, [], ◌∷◌, nat_eq, ltb, ◌^^◌, if◌then◌else◌,
}
use pmd.Prelude.Decimal.{show_ℕ}
use pmd.Prelude.Maps.{Map}
use pmd.Platform.{Platform}

pub record Config (P : Platform) : Type 0 where
  pub port : ℕ
  pub bind : String
  pub home_dir : P.FilePath
  pub socket_path : P.FilePath
  pub pid_path : P.FilePath
  pub cert_path : P.FilePath
  pub key_path : P.FilePath
  pub cookie_path : P.FilePath
  pub ca_cert_path : Option P.FilePath
  pub sync_interval_secs : ℕ
  pub heartbeat_interval_secs : ℕ
  pub heartbeat_timeout_secs : ℕ
  pub phi_threshold : P.Float
  pub phi_window_size : ℕ
  pub phi_min_std_deviation_ms : P.Float
  pub metrics_port : ℕ

pub record ConfigFile (P : Platform) : Type 0 where
  pub port : Option ℕ
  pub bind : Option String
  pub sync_interval_secs : Option ℕ
  pub heartbeat_interval_secs : Option ℕ
  pub heartbeat_timeout_secs : Option ℕ
  pub phi_threshold : Option P.Float
  pub phi_window_size : Option ℕ
  pub phi_min_std_deviation_ms : Option P.Float
  pub metrics_port : Option ℕ
  pub ca_cert_path : Option String
  pub discovery : List String
  pub metadata : Map String

-- What stands at the configuration file's path, by `exists`, `read_to_string` and `toml::from_str`.
pub data FileContents (P : Platform) : Type 0 where
  missing unreadable malformed : FileContents P
  parsed : ConfigFile P → FileContents P

pub data Error : Type 0 where
  no_home_dir failed_to_read failed_to_parse : Error

pub data Result {ℓ} (A : Type ℓ) : Type ℓ where
  ok : A → Result A
  err : Error → Result A

infixl 5 ◌>>=◌
abbrev pub ◌>>=◌ {ℓ κ} : {A : Type ℓ} {B : Type κ} → Result A → (A → Result B) → Result B
ok a >>= f = f a
err e >>= f = err e

-- `unwrap_or`
abbrev pub or_default {ℓ} : {A : Type ℓ} → Option A → A → A
or_default none d = d
or_default (some a) d = a

module _ (P : Platform) where
  open P use {FilePath, path_from, path_join, Float, literal}

  -- `dirs::home_dir().context(..)?.join(".pmd")`
  unfoldable pub pmd_home : Option FilePath → Result FilePath
  pmd_home none = err no_home_dir
  pmd_home (some home) = ok (path_join home ".pmd")

  unfoldable pub socket_of : FilePath → ℕ → FilePath
  socket_of home_dir port = path_join home_dir ("pmd-" ^^ (show_ℕ port ^^ ".sock"))

  unfoldable pub pid_of : FilePath → ℕ → FilePath
  pid_of home_dir port = path_join home_dir ("pmd-" ^^ (show_ℕ port ^^ ".pid"))

  -- `default_bind_address`, with what `local_ip_address::local_ip()` gave.
  unfoldable pub default_bind_address : Option String → String
  default_bind_address local_ip = or_default local_ip "127.0.0.1"

  -- `ConfigFile::default()`
  unfoldable pub empty_file : ConfigFile P
  empty_file = record {
    port = none;
    bind = none;
    sync_interval_secs = none;
    heartbeat_interval_secs = none;
    heartbeat_timeout_secs = none;
    phi_threshold = none;
    phi_window_size = none;
    phi_min_std_deviation_ms = none;
    metrics_port = none;
    ca_cert_path = none;
    discovery = [];
    metadata = [];
  }

  -- `Config::new`
  unfoldable pub new : Option FilePath → ℕ → String → Result (Config P)
  unfolding pmd_home socket_of pid_of
  new home port bind = do
    home_dir ← pmd_home home
    let tls_dir = path_join home_dir "tls"
    ok (record {
      port = port;
      bind = bind;
      home_dir = home_dir;
      socket_path = socket_of home_dir port;
      pid_path = pid_of home_dir port;
      cert_path = path_join tls_dir "cert.pem";
      key_path = path_join tls_dir "key.pem";
      cookie_path = path_join home_dir "cookie";
      ca_cert_path = none;
      sync_interval_secs = 5;
      heartbeat_interval_secs = 10;
      heartbeat_timeout_secs = 30;
      phi_threshold = literal "8.0";
      phi_window_size = 1000;
      phi_min_std_deviation_ms = literal "500.0";
      metrics_port = 0;
    })

  -- The path that is looked at, and what a file there is read as.
  unfoldable pub config_file_path : FilePath → Option String → FilePath
  config_file_path home_dir none = path_join home_dir "config.toml"
  config_file_path home_dir (some p) = path_from p

  unfoldable pub load_file : FileContents P → Result (ConfigFile P)
  unfolding empty_file
  load_file missing = ok empty_file
  load_file unreadable = err failed_to_read
  load_file malformed = err failed_to_parse
  load_file (parsed cf) = ok cf

  unfoldable pub effective_port : ℕ → Option ℕ → ℕ
  effective_port cli_port file_port =
      if nat_eq cli_port 4369 then or_default file_port cli_port else cli_port

  unfoldable pub effective_bind : Option String → Option String → Option String → String
  unfolding default_bind_address
  effective_bind (some b) file_bind local_ip = b
  effective_bind none file_bind local_ip = or_default file_bind (default_bind_address local_ip)

  unfoldable pub map_path : Option String → Option FilePath
  map_path none = none
  map_path (some p) = some (path_from p)

  -- The configuration from the arguments and the file's contents.
  unfoldable pub config_of : FilePath → Option String → ℕ → Option String → ConfigFile P → Config P
  unfolding socket_of pid_of effective_port effective_bind map_path
  config_of home_dir local_ip cli_port cli_bind cf =
      let port = effective_port cli_port cf.port in
      let tls_dir = path_join home_dir "tls" in
      record {
        port = port;
        bind = effective_bind cli_bind cf.bind local_ip;
        home_dir = home_dir;
        socket_path = socket_of home_dir port;
        pid_path = pid_of home_dir port;
        cert_path = path_join tls_dir "cert.pem";
        key_path = path_join tls_dir "key.pem";
        cookie_path = path_join home_dir "cookie";
        ca_cert_path = map_path cf.ca_cert_path;
        sync_interval_secs = or_default cf.sync_interval_secs 5;
        heartbeat_interval_secs = or_default cf.heartbeat_interval_secs 10;
        heartbeat_timeout_secs = or_default cf.heartbeat_timeout_secs 30;
        phi_threshold = or_default cf.phi_threshold (literal "8.0");
        phi_window_size = or_default cf.phi_window_size 1000;
        phi_min_std_deviation_ms = or_default cf.phi_min_std_deviation_ms (literal "500.0");
        metrics_port = or_default cf.metrics_port 0;
      }

  -- `Config::from_file_and_args`: the home directory, the disk and the local address are arguments.
  unfoldable pub from_file_and_args :
      Option FilePath
      → (FilePath → FileContents P)
      → Option String
      → Option String
      → ℕ
      → Option String
      → List String
      → Result (Config P × Map String × List String)
  unfolding pmd_home config_file_path load_file config_of
  from_file_and_args home disk local_ip config_path cli_port cli_bind cli_discovery = do
    home_dir ← pmd_home home
    cf ← load_file (disk (config_file_path home_dir config_path))
    let config = config_of home_dir local_ip cli_port cli_bind cf
    let discovery = elim cli_discovery as (λ _. List String) [ [] ↦ cf.discovery | d ∷ ds ↦ d ∷ ds ]
    ok (config, cf.metadata, discovery)

  -- `--metrics-port` in `main`: it replaces the file's value unless it is zero.
  unfoldable pub override_metrics_port : ℕ → Config P → Config P
  override_metrics_port metrics_port config =
      if ltb 0 metrics_port then record config { metrics_port = metrics_port } else config
