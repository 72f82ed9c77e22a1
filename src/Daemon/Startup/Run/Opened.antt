-- ===== src/Daemon/Startup/Run/Opened.antt =====
-- What is opened in `run` of crates/pmd/src/daemon/mod.rs, behind the cookie and the TLS identities.
use mathlib.Core.Path.{subst}
use pmd.Prelude.{ℕ, String, ◌≡◌, refl, sym, ◌∙◌, ap, Bool, Option, none, some, List, arith}
use pmd.Prelude.Maps.{Map}
use pmd.Platform.{Platform}
use pmd.Config.{Config}
use pmd.Daemon.{init}
use pmd.Daemon.Startup.{
  Files, Error, bad_address, bind_failed, generation_failed, Result, ok, err, ◌>>=◌, Pem,
  Generation, generate_self_signed_cert, write_pems, load_or_generate_identity,
}
use pmd.Daemon.Startup.Run.{
  Machine, RunningDaemon, check, parse, bind_listener, host_port, start_metrics, open_sockets,
}
use pmd.Discovery.Plugins.{start_discovery_plugins}

pub bind_ok {ℓ κ} :
    {A : Type ℓ} {B : Type κ} (x : Result A) (f : A → Result B) (b : B)
    → (x >>= f) ≡ ok b
    → (a : A) × (x ≡ ok a) × (f a ≡ ok b)
bind_ok (ok a) f b h = (a, refl, h)
bind_ok (err e) f b h = absurd (ground (arith, h))

abbrev value_or {ℓ} : {A : Type ℓ} → A → Result A → A
value_or a (ok b) = b
value_or a (err e) = a

pub ok_inj {ℓ} : {A : Type ℓ} (a b : A) → ok a ≡ ok b → a ≡ b
ok_inj a b e = ap (value_or a) e

module _ (P : Platform) (X : Pem) where
  open P use {Addr, addr_parse}

  some_of {ℓ} :
      {A : Type ℓ} (o : Option A) (e : Error) (a : A)
      → (elim o as (λ _. Result A) [ none ↦ err e | some x ↦ ok x ]) ≡ ok a
      → o ≡ some a
  some_of none e a h = absurd (ground (arith, h))
  some_of (some x) e a h = ap some (ok_inj x a h)

  -- Where the daemon listens.
  abbrev pub Listens : Machine P → Config P → Addr → Type 0
  Listens m config actual =
      (a : Addr) × (addr_parse (host_port config.bind config.port) ≡ some a)
      × (m.bound a ≡ some actual)

  -- What is opened for a cookie and the two identities.
  abbrev pub Opened :
      Machine P
      → Config P
      → String
      → Map String
      → List String
      → List ℕ
      → X.Certs × X.Key
      → X.Certs × X.Key
      → RunningDaemon P X
      → Type 0
  Opened m config node_id metadata plugins cookie acceptor connector d =
      (d.cookie ≡ cookie)
      × (d.acceptor ≡ acceptor)
      × (d.connector ≡ connector)
      × (d.state ≡ init P m.now node_id d.state.listen_addr metadata)
      × (d.plugins ≡ start_discovery_plugins P plugins node_id d.state.listen_addr)
      × Listens m config d.state.listen_addr

  made-Opened :
      (m : Machine P) (config : Config P) (node_id : String) (metadata : Map String)
      (plugins : List String) (cookie : List ℕ) (acceptor connector : X.Certs × X.Key)
      (a actual : Addr) (metrics : Bool) (d : RunningDaemon P X)
      → parse P (host_port config.bind config.port) ≡ ok a
      → bind_listener P m a ≡ ok actual
      → ok (record {
        state = init P m.now node_id actual metadata;
        cookie = cookie;
        acceptor = acceptor;
        connector = connector;
        metrics = metrics;
        plugins = start_discovery_plugins P plugins node_id actual;
      })
        ≡ ok d
      → Opened m config node_id metadata plugins cookie acceptor connector d
  unfolding init
  made-Opened m config node_id metadata plugins cookie acceptor connector a actual metrics d parsed
        bound h =
      subst (Opened m config node_id metadata plugins cookie acceptor connector) (ok_inj _ d h) (
        refl,
        refl,
        refl,
        refl,
        refl,
        (
          a,
          some_of (addr_parse (host_port config.bind config.port)) bad_address a parsed,
          some_of (m.bound a) bind_failed actual bound,
        ),
      )

  pub open_sockets-Opened :
      (m : Machine P) (config : Config P) (node_id : String) (metadata : Map String)
      (plugins : List String) (cookie : List ℕ) (acceptor connector : X.Certs × X.Key)
      (d : RunningDaemon P X)
      → open_sockets P X m config node_id metadata plugins cookie acceptor connector ≡ ok d
      → Opened m config node_id metadata plugins cookie acceptor connector d
  unfolding open_sockets
  open_sockets-Opened m config node_id metadata plugins cookie acceptor connector d h =
      let (a, parsed, h1) = bind_ok (parse P (host_port config.bind config.port)) _ d h in
      let (actual, bound, h2) = bind_ok (bind_listener P m a) _ d h1 in
      let (_, _, h3) = bind_ok (check m.socket_bound _) _ d h2 in
      let (_, _, h4) = bind_ok (check m.pid_written _) _ d h3 in
      let (metrics, _, h5) = bind_ok (start_metrics P m config) _ d h4 in
      made-Opened m config node_id metadata plugins cookie acceptor connector a actual metrics d
        parsed bound h5

  cookie-write_pems :
      (cert key : List ℕ) (g : Generation) (files : Files)
      → (write_pems cert key g files).0.cookie ≡ files.cookie
  unfolding write_pems
  cookie-write_pems cert key g files = ground arith

  cookie-generate :
      (g : Generation) (files : Files) → (generate_self_signed_cert g files).0.cookie ≡ files.cookie
  unfolding generate_self_signed_cert
  cookie-generate g files = go g.pems
    where
      go :
          (pems : Option (List ℕ × List ℕ))
          → (elim pems as (λ _. Files × Option Error) [
            | none ↦ (files, some generation_failed)
            | some p ↦ write_pems p.0 p.1 g files
          ]).0.cookie
            ≡ files.cookie
      go none = refl
      go (some p) = cookie-write_pems p.0 p.1 g files

  pub cookie-identity :
      (g : Generation) (files : Files)
      → (load_or_generate_identity X g files).0.cookie ≡ files.cookie
  unfolding load_or_generate_identity
  cookie-identity g files = ground (arith, cookie-generate g files)

  -- Both identities were read before the sockets were opened.
  pub with_identities :
      (m : Machine P) (config : Config P) (node_id : String) (metadata : Map String)
      (plugins : List String) (cookie : List ℕ) (files files' : Files)
      (acceptor connector : Result (X.Certs × X.Key)) (d : RunningDaemon P X)
      → let r : Files × Result (RunningDaemon P X) = elim acceptor [
        | err e ↦ (files, err e)
        | ok a ↦ (
          files',
          do c ← connector; open_sockets P X m config node_id metadata plugins cookie a c,
        )
      ] in
        r.1 ≡ ok d
        → (acceptor ≡ ok d.acceptor)
          × (connector ≡ ok d.connector)
          × (r.0 ≡ files')
          × Opened m config node_id metadata plugins cookie d.acceptor d.connector d
  with_identities m config node_id metadata plugins cookie files files' (err e) connector d h =
      absurd (ground (arith, h))
  with_identities m config node_id metadata plugins cookie files files' (ok a) connector d h =
      let (c, is_c, opened) = bind_ok connector _ d h in
      let (same, is_a, is_c', state, started, listens) =
        open_sockets-Opened m config node_id metadata plugins cookie a c d opened in
      (
        ap ok (sym is_a),
        is_c ∙ ap ok (sym is_c'),
        refl,
        (same, refl, refl, state, started, listens),
      )
