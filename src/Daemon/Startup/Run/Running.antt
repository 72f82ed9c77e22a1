-- ===== src/Daemon/Startup/Run/Running.antt =====
-- What holds of a daemon that has started: `run` of crates/pmd/src/daemon/mod.rs.
use pmd.Prelude.{
  ℕ, ◌<◌, ◌^◌, String, ◌≡◌, refl, sym, ◌∙◌, ap, Bool, true, false, some, List, length, arith,
  if◌then◌else◌,
}
use pmd.Prelude.Maps.{Map, Distinct}
use pmd.Platform.{Platform, IsSegment}
use pmd.Config.{Config}
use pmd.Membership.{NodeInfo, members, new}
use pmd.Membership.Views.{find_node}
use pmd.Membership.Nodes.{add_node-members_self}
use pmd.Daemon.{init}
use pmd.Daemon.Startup.{
  Files, dirs_failed, Result, ok, err, load_cookie, load_or_generate_cookie, Pem, load_identity,
  load_or_generate_identity,
}
use pmd.Daemon.Startup.Again.{
  load_or_generate_cookie-loads, load_or_generate_identity-loads, load_or_generate_identity-again,
}
use pmd.Daemon.Startup.Run.{Machine, RunningDaemon, with_cookie, start}
use pmd.Discovery.Plugins.{start_discovery_plugins}
use pmd.Daemon.Startup.Run.Opened.{ok_inj, Listens, cookie-identity, with_identities}

module _ (P : Platform) (X : Pem) where
  open P use {Addr, addr_parse}

  -- What a start leads to.
  abbrev pub Runs :
      Machine P → Config P → String → Map String → List String → Files → RunningDaemon P X → Type 0
  Runs m config node_id metadata plugins files d =
      (d.connector ≡ d.acceptor)
      × (load_cookie files.cookie ≡ ok d.cookie)
      × (load_identity X files ≡ ok d.acceptor)
      × Listens P X m config d.state.listen_addr
      × (d.plugins ≡ start_discovery_plugins P plugins node_id d.state.listen_addr)
      × (d.state ≡ init P m.now node_id d.state.listen_addr metadata)

  with_cookie-Runs :
      (m : Machine P) (config : Config P) (node_id : String) (metadata : Map String)
      (plugins : List String) (files : Files) (cookie : Result (List ℕ)) (d : RunningDaemon P X)
      → ((c : List ℕ) → cookie ≡ ok c → load_cookie files.cookie ≡ ok c)
      → (with_cookie P X m config node_id metadata plugins files cookie).1 ≡ ok d
      → Runs m config node_id metadata plugins
          (with_cookie P X m config node_id metadata plugins files cookie).0
          d
  unfolding with_cookie
  with_cookie-Runs m config node_id metadata plugins files (err e) d kept h =
      absurd (ground (arith, h))
  with_cookie-Runs m config node_id metadata plugins files (ok cookie) d kept h =
      let r = load_or_generate_identity X m.for_acceptor files in
      let r' = load_or_generate_identity X m.for_connector r.0 in
      let (is_a, is_c, left, opened) =
        with_identities P X m config node_id metadata plugins cookie r.0 r'.0 r.1 r'.1 d h in
      let (same, _, _, state, started, listens) = opened in
      let loaded = load_or_generate_identity-loads X m.for_acceptor files d.acceptor is_a in
      let again = load_or_generate_identity-again X m.for_connector r.0 d.acceptor loaded in
      let files_eq = left ∙ ap (λ x. x.0) again in
      (
        ok_inj d.connector d.acceptor (sym is_c ∙ ap (λ x. x.1) again),
        ap (λ f. load_cookie f.cookie) files_eq
            ∙ ap load_cookie (cookie-identity P X m.for_acceptor files)
            ∙ kept cookie refl
            ∙ ap ok (sym same),
        ap (load_identity X) files_eq ∙ loaded,
        listens,
        started,
        state,
      )

  with_dirs-Runs :
      (m : Machine P) (config : Config P) (node_id : String) (metadata : Map String)
      (plugins : List String) (files files' : Files) (cookie : Result (List ℕ))
      (d : RunningDaemon P X) (dirs : Bool)
      → ((c : List ℕ) → cookie ≡ ok c → load_cookie files'.cookie ≡ ok c)
      → let r : Files × Result (RunningDaemon P X) =
          if dirs
          then with_cookie P X m config node_id metadata plugins files' cookie
          else (files, err dirs_failed) in
        r.1 ≡ ok d → Runs m config node_id metadata plugins r.0 d
  with_dirs-Runs m config node_id metadata plugins files files' cookie d true kept h =
      with_cookie-Runs m config node_id metadata plugins files' cookie d kept h
  with_dirs-Runs m config node_id metadata plugins files files' cookie d false kept h =
      absurd (ground (arith, h))

  -- A daemon that has started, with 32 random bytes at hand, listens at the address that the listener
  -- got for the configured host and port, uses one TLS identity for both directions, and left the
  -- identity and the cookie on the disk as the next start will read them. It is a member of its own
  -- cluster with that address, and the plugins were given its id and that address. Its id is one path
  -- segment, the time has 64 bits, and no key stands twice in the metadata.
  pub start-Runs :
      (m : Machine P) (config : Config P) (node_id : String) (metadata : Map String)
      (plugins : List String) (files : Files) (d : RunningDaemon P X)
      → IsSegment node_id
      → m.now < 2 ^ 64
      → Distinct metadata
      → length m.random ≡ 32
      → (start P X m config node_id metadata plugins files).1 ≡ ok d
      → Runs m config node_id metadata plugins
          (start P X m config node_id metadata plugins files).0
          d
        × ((n : NodeInfo P) × (find_node P node_id (members P d.state.membership) ≡ some n)
            × (n.addr ≡ d.state.listen_addr))
  unfolding start init
  start-Runs m config node_id metadata plugins files d seg fits distinct full h =
      let loaded = load_or_generate_cookie m.random m.cookie_disk files in
      let runs =
        with_dirs-Runs m config node_id metadata plugins files loaded.0 loaded.1 d m.dirs
          (λ c. load_or_generate_cookie-loads m.random m.cookie_disk files c full) h in
      let (n, found, addr, _, _, _) =
        add_node-members_self P (new P node_id) m.now node_id d.state.listen_addr metadata seg fits
          distinct in
      let state : d.state ≡ init P m.now node_id d.state.listen_addr metadata = runs.5 in
      (runs, (n, ap (λ st. find_node P node_id (members P st.membership)) state ∙ found, addr))
