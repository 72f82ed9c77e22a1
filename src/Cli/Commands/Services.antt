-- ===== src/Cli/Commands/Services.antt =====
-- What the commands of crates/pmd/src/main.rs print, with a daemon behind the control socket.
use pmd.Prelude.{
  eq_iff, ◌==◌, Bool-cases, inl, inr, ℕ, ◌<◌, ◌^◌, String, ◌≡◌, ◌≢◌, refl, sym, ◌∙◌, ap, Bool, true,
  some, List, [], ◌∷◌, arith, map, get_elem?, suc,
}
use pmd.Platform.{Platform, IsSegment}
use pmd.Protocol.{ControlRequest, ControlResponse}
use pmd.Config.{socket_of, pmd_home}
use pmd.Config
use pmd.Daemon.{DaemonState}
use pmd.Daemon.Control.{dispatch_request}
use pmd.Daemon.Control.Socket.{
  LineCodec, Received, is_exact_request, is_exact_response, send_control_request,
}
use pmd.Daemon.Control.Socket.Exchange.{send_control_request-dispatch}
use pmd.Protocol.{ServiceEntry}
use pmd.Membership.{Endpoint, NodeInfo, members}
use pmd.Membership.Services.{find_endpoint, lookup_service-register}
use pmd.Membership.{lookup_service}
use pmd.Membership.Views.{find_node}
use pmd.Daemon.Control.{service_entry}
use pmd.Cli.Print.{Output, printed, print_response, service_row}
use pmd.Cli.Commands.{Commands, socket_for, request_of, run_at, run_cli_command, print_result}

-- A line that is printed.
abbrev pub Prints : String → Output → Type 0
Prints line out = (i : ℕ) × (get_elem? out.lines i ≡ some line)

module _ (P : Platform) (codec : LineCodec P) where
  open P use {FilePath, path_join, ip_to_string}

  run_at-send :
      (now : ℕ) (channel : List (Received × Bool)) (connected : Bool) (command : Commands)
      (st : DaemonState P)
      → request_of command ≢ ControlRequest.subscribe
      → run_at P codec now channel connected command st ≡ (
        (send_control_request P codec now connected channel (request_of command) st).0,
        print_result P codec
            (send_control_request P codec now connected channel (request_of command) st).1,
      )
  unfolding run_at request_of
  run_at-send now channel connected (Commands.subscribe port) st ne = absurd (ne refl)
  run_at-send now channel connected (Commands.stop port) st ne = refl
  run_at-send now channel connected (Commands.status port) st ne = refl
  run_at-send now channel connected (Commands.nodes port) st ne = refl
  run_at-send now channel connected (Commands.join addr port) st ne = refl
  run_at-send now channel connected (Commands.leave addr port) st ne = refl
  run_at-send now channel connected (Commands.unregister name port) st ne = refl
  run_at-send now channel connected (Commands.lookup name port) st ne = refl
  run_at-send now channel connected (Commands.register name service_port port) st ne = refl

  exact_request : (command : Commands) → is_exact_request (request_of command) ≡ true
  unfolding request_of
  exact_request (Commands.subscribe port) = refl
  exact_request (Commands.stop port) = refl
  exact_request (Commands.status port) = refl
  exact_request (Commands.nodes port) = refl
  exact_request (Commands.join addr port) = refl
  exact_request (Commands.leave addr port) = refl
  exact_request (Commands.unregister name port) = refl
  exact_request (Commands.lookup name port) = refl
  exact_request (Commands.register name service_port port) = refl

  run_cli_command-run_at :
      (home : FilePath) (connects : FilePath → Bool) (now : ℕ) (channel : List (Received × Bool))
      (command : Commands) (st : DaemonState P)
      → run_cli_command P codec (some home) connects now channel command st
        ≡ run_at P codec now channel (connects (socket_for P home command)) command st
  unfolding run_cli_command Config.new pmd_home
  run_cli_command-run_at home connects now channel command st = refl

  -- A command other than the subscription, at whose socket the daemon listens, has the effect of
  -- `dispatch_request` on its request, and prints the response, if the response has one text only: no
  -- float is in it, and no map with two keys or more.
  pub run_cli_command-dispatch :
      (home : FilePath) (connects : FilePath → Bool) (now : ℕ) (channel : List (Received × Bool))
      (command : Commands) (st : DaemonState P)
      → connects (socket_for P home command) ≡ true
      → request_of command ≢ ControlRequest.subscribe
      → is_exact_response P (dispatch_request P now (request_of command) st).1 ≡ true
      → run_cli_command P codec (some home) connects now channel command st ≡ (
        (dispatch_request P now (request_of command) st).0,
        print_response P (dispatch_request P now (request_of command) st).1,
      )
  unfolding print_result
  run_cli_command-dispatch home connects now channel command st connected ne exact =
      run_cli_command-run_at home connects now channel command st
      ∙ ap (λ b. run_at P codec now channel b command st) connected
      ∙ run_at-send now channel true command st ne
      ∙ ap (λ r. (r.0, print_result P codec r.1))
          (send_control_request-dispatch P codec now channel (request_of command) st ne
            (exact_request command) exact)

  found_row :
      (name id : String) (es : List (Endpoint P)) (e : Endpoint P)
      → find_endpoint P id es ≡ some e
      → (i : ℕ) × (get_elem? (map service_row (map (service_entry P name) es)) i
          ≡ some (service_row (service_entry P name e)))
        × (e.node_id ≡ id)
  found_row name id [] e h = absurd (ground (arith, h))
  found_row name id (x ∷ es) e h = elim (Bool-cases (x.node_id == id)) [
    | inl same ↦
        let first : x ≡ e = ground (arith, h, same) in
        (
          0,
          ap (λ x. some (service_row (service_entry P name x))) first,
          ap (λ x. x.node_id) (sym first) ∙ (eq_iff x.node_id id).0 same,
        )
    | inr other ↦
        let (i, at, named) = found_row name id es e (ground (arith, h, other)) in (suc i, at, named)
  ]

  services-Prints :
      (es : List ServiceEntry) (i : ℕ) (line : String)
      → get_elem? (map service_row es) i ≡ some line
      → Prints line (print_response P (ControlResponse.services es))
  unfolding print_response
  services-Prints [] i line h = absurd (ground (arith, h))
  services-Prints (e ∷ es) i line h = (suc i, h)

  -- The row of an endpoint, whatever its metadata.
  abbrev pub row_of : String → String → P.Addr → ℕ → String
  row_of name id addr port =
      service_row
        (record { name = name; node_id = id; host = ip_to_string addr; port = port; metadata = [] })

  entry_row :
      (name id : String) (addr : P.Addr) (port : ℕ) (e : Endpoint P)
      → e.node_id ≡ id
      → e.addr ≡ addr
      → e.port ≡ port
      → service_row (service_entry P name e) ≡ row_of name id addr port
  unfolding service_row
  entry_row name id addr port e named at port_eq = rw (named, at, port_eq)

  -- `pmd register`, with `pmd lookup` of the same name on a connected daemon right behind it, prints OK,
  -- and then the line of the service with the id and the host of this node and with the service's port,
  -- among others, if this node is a member, its id and the name are path segments, the port has 16 bits,
  -- and the second response has one text only.
  pub run_cli_command-register :
      (home : FilePath) (connects : FilePath → Bool) (now later : ℕ)
      (channel : List (Received × Bool)) (name : String) (service_port port : ℕ) (n : NodeInfo P)
      (st : DaemonState P)
      → connects (socket_for P home (Commands.lookup name port)) ≡ true
      → IsSegment st.membership.node_id
      → IsSegment name
      → service_port < 2 ^ 16
      → find_node P st.membership.node_id (members P st.membership) ≡ some n
      → let after = (dispatch_request P now (ControlRequest.register name service_port []) st).0 in
        is_exact_response P (dispatch_request P later (ControlRequest.lookup name) after).1 ≡ true
        → let run : ℕ → Commands → DaemonState P → DaemonState P × Output =
            λ at. run_cli_command P codec (some home) connects at channel in
          let (registered, answer) = run now (Commands.register name service_port port) st in
          (answer ≡ printed ("OK" ∷ []))
          × Prints
              (row_of name st.membership.node_id n.addr service_port)
              (run later (Commands.lookup name port) registered).1
  unfolding dispatch_request request_of service_row print_response
  run_cli_command-register home connects now later channel name service_port port n st connected seg
        seg' fits member exact =
      let after = (dispatch_request P now (ControlRequest.register name service_port []) st).0 in
      let first =
        run_cli_command-dispatch home connects now channel
          (Commands.register name service_port port) st connected (λ e. absurd (ground (arith, e)))
          refl in
      let second =
        run_cli_command-dispatch home connects later channel (Commands.lookup name port) after
          connected (λ e. absurd (ground (arith, e))) exact in
      let (e, found, addr, port_eq, _) =
        lookup_service-register P st.membership n name service_port [] seg seg' fits tt member in
      let (i, at, named) =
        found_row name st.membership.node_id (lookup_service P name after.membership) e found in
      let (j, line) =
        services-Prints (map (service_entry P name) (lookup_service P name after.membership)) i _
          at in
      (
        ap (λ r. r.1) first,
        (
          j,
          ap
                (λ r.
                  get_elem?
                    (run_cli_command P codec (some home) connects later channel
                      (Commands.lookup name port) r.0).1.lines
                    j)
                first
              ∙ ap (λ r. get_elem? r.1.lines j) second
              ∙ line
              ∙ ap some
                  (entry_row name st.membership.node_id n.addr service_port e named addr port_eq),
        ),
      )
