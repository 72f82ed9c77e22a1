-- ===== src/Daemon/Startup/Run.antt =====
-- `run` of crates/pmd/src/daemon/mod.rs up to its main loop, with `ensure_dirs` of
-- crates/pmd/src/config.rs: what a start opens, in its order, and what it fails at.
pub mod Opened
pub mod Running
use pmd.Prelude.{
  ℕ, String, ◌^^◌, Bool, true, false, not, Option, none, some, List, [], ◌∷◌, ltb, if◌then◌else◌,
}
use pmd.Prelude.Decimal.{show_ℕ}
use pmd.Prelude.Maps.{Map}
use pmd.Platform.{Platform}
use pmd.Config.{Config}
use pmd.Daemon.{DaemonState, init}
use pmd.Daemon.Startup.{
  Files, Writes, Error, dirs_failed, bad_address, bind_failed, socket_failed, pid_failed, Result,
  ok, err, ◌>>=◌, load_or_generate_cookie, Pem, Generation, load_or_generate_identity,
}
use pmd.Discovery.Plugins.{Started, start_discovery_plugins}

-- What the machine answers. `bound` gives the local address of a listener.
pub record Machine (P : Platform) : Type 0 where
  pub now : ℕ
  pub dirs : Bool
  pub random : List ℕ
  pub cookie_disk : Writes
  pub for_acceptor : Generation
  pub for_connector : Generation
  pub bound : P.Addr → Option P.Addr
  pub socket_bound : Bool
  pub pid_written : Bool
  pub metrics_bound : Bool

-- What runs then.
pub record RunningDaemon (P : Platform) (X : Pem) : Type 0 where
  pub state : DaemonState P
  pub cookie : List ℕ
  pub acceptor : X.Certs × X.Key
  pub connector : X.Certs × X.Key
  pub metrics : Bool
  pub plugins : List (Started P)

abbrev pub check : Bool → Error → Result Bool
check true e = ok true
check false e = err e

abbrev pub host_port : String → ℕ → String
host_port bind port = bind ^^ (":" ^^ show_ℕ port)

module _ (P : Platform) where
  open P use {Addr, addr_parse}

  abbrev pub parse : String → Result Addr
  parse text = elim (addr_parse text) [ none ↦ err bad_address | some a ↦ ok a ]

  abbrev pub bind_listener : Machine P → Addr → Result Addr
  bind_listener m a = elim (m.bound a) [ none ↦ err bind_failed | some actual ↦ ok actual ]

  -- Whether the metrics are served: a port that cannot be bound is passed over.
  unfoldable pub start_metrics : Machine P → Config P → Result Bool
  start_metrics m config =
      if ltb 0 config.metrics_port
      then (do a ← parse (host_port config.bind config.metrics_port); ok m.metrics_bound)
      else ok false

module _ (P : Platform) (X : Pem) where
  unfoldable pub open_sockets :
      Machine P
      → Config P
      → String
      → Map String
      → List String
      → List ℕ
      → X.Certs × X.Key
      → X.Certs × X.Key
      → Result (RunningDaemon P X)
  unfolding start_metrics
  open_sockets m config node_id metadata discovery_plugins cookie acceptor connector = do
    listen_addr ← parse P (host_port config.bind config.port)
    actual_addr ← bind_listener P m listen_addr
    _ ← check m.socket_bound socket_failed
    _ ← check m.pid_written pid_failed
    metrics ← start_metrics P m config
    ok (record {
      state = init P m.now node_id actual_addr metadata;
      cookie = cookie;
      acceptor = acceptor;
      connector = connector;
      metrics = metrics;
      plugins = start_discovery_plugins P discovery_plugins node_id actual_addr;
    })

  unfoldable pub with_cookie :
      Machine P
      → Config P
      → String
      → Map String
      → List String
      → Files
      → Result (List ℕ)
      → Files × Result (RunningDaemon P X)
  unfolding open_sockets
  with_cookie m config node_id metadata discovery_plugins files (err e) = (files, err e)
  with_cookie m config node_id metadata discovery_plugins files (ok cookie) =
      let (files', acceptor) = load_or_generate_identity X m.for_acceptor files in
      let (files'', connector) = load_or_generate_identity X m.for_connector files' in
      elim acceptor [
        | err e ↦ (files', err e)
        | ok a ↦ (
          files'',
          do c ← connector; open_sockets m config node_id metadata discovery_plugins cookie a c,
        )
      ]

  unfoldable pub start :
      Machine P
      → Config P
      → String
      → Map String
      → List String
      → Files
      → Files × Result (RunningDaemon P X)
  unfolding with_cookie
  start m config node_id metadata discovery_plugins files =
      let (files', cookie) = load_or_generate_cookie m.random m.cookie_disk files in
      if m.dirs
      then with_cookie m config node_id metadata discovery_plugins files' cookie
      else (files, err dirs_failed)
