-- ===== src/Daemon/Control/Socket.antt =====
-- The control socket: `run_control_socket`, `handle_control_client` and `send_control_request` of
-- crates/pmd/src/daemon/control.rs. A connection carries text in both directions; what is not text, or a
-- read that fails, is none. A write that fails reaches nobody.
pub mod Exchange
pub mod Channel
use pmd.Prelude.{
  ℕ, String, ◌≡◌, ◌^^◌, Bool, true, false, Option, none, some, List, [], ◌∷◌, ◌++◌, leb, length,
  not, ◌&&◌, if◌then◌else◌,
}
use pmd.Prelude.Lines.{read_line, trim, newline, IsLine}
use pmd.Prelude.Maps.{Map}
use pmd.Platform.{Platform}
use pmd.Protocol.{ControlRequest, ControlResponse, NodeInfoResponse, ServiceEntry}
use pmd.Membership.{MembershipChange}
use pmd.Daemon.{DaemonState}
use pmd.Daemon.Control.{dispatch_request}

-- A request, and a response, that has one text only: a map with two keys or more is written in any
-- order, and a float may be read back as its neighbour.
abbrev pub single {ℓ} : {V : Type ℓ} → Map V → Bool
single m = leb (length m) 1

abbrev pub is_exact_request : ControlRequest → Bool
is_exact_request (ControlRequest.register name port metadata) = single metadata
is_exact_request _ = true

abbrev pub exact_services : List ServiceEntry → Bool
exact_services [] = true
exact_services (e ∷ es) = single e.metadata && exact_services es

module _ (P : Platform) where
  abbrev pub has_phi : Option P.Float → Bool
  has_phi none = false
  has_phi (some phi) = true

  abbrev pub exact_nodes : List (NodeInfoResponse P) → Bool
  exact_nodes [] = true
  exact_nodes (n ∷ ns) =
      single n.metadata && not (has_phi n.phi) && exact_services n.services && exact_nodes ns

  abbrev pub is_exact_response : ControlResponse P → Bool
  is_exact_response (ControlResponse.nodes ns) = exact_nodes ns
  is_exact_response (ControlResponse.services es) = exact_services es
  is_exact_response _ = true

-- `serde_json::to_string` and `serde_json::from_str`. The compact form is one line without white space at
-- its ends. Writing these types to a string does not fail.
pub record LineCodec (P : Platform) : Type 0 where
  pub request_text : ControlRequest → String
  pub request_from_str : String → Option ControlRequest
  pub response_text : ControlResponse P → String
  pub response_from_str : String → Option (ControlResponse P)
  pub request_text-IsLine : (r : ControlRequest) → IsLine (request_text r)
  pub response_text-IsLine : (r : ControlResponse P) → IsLine (response_text r)
  pub request_from_str-text :
      (r : ControlRequest) → is_exact_request r ≡ true → request_from_str (request_text r) ≡ some r
  pub response_from_str-text :
      (r : ControlResponse P)
      → is_exact_response P r ≡ true
      → response_from_str (response_text r) ≡ some r

-- What `rx.recv()` gives a subscriber: a change, the number of changes that it missed, or the end.
pub data Received : Type 0 where
  change : MembershipChange → Received
  lagged : ℕ → Received
  closed : Received

-- What happens on a connection: the client's text, whether the writes of the first line succeed, and
-- what the subscriber's channel gives, with the success of its writes.
pub record Client : Type 0 where
  pub incoming : Option String
  pub writable : Bool
  pub channel : List (Received × Bool)

-- The state, the text that went to the client, and whether the task ends without an error. On a
-- subscription whose channel has given all there is, the task is still waiting.
pub record Served (P : Platform) : Type 0 where
  pub state : DaemonState P
  pub outgoing : String
  pub is_ok : Bool

module _ (P : Platform) (codec : LineCodec P) where
  abbrev pub line_of : ControlResponse P → String
  line_of r = codec.response_text r ^^ newline

  abbrev pub event_response : MembershipChange → ControlResponse P
  event_response c = ControlResponse.event c.event c.node_id c.addr

  -- `while let Ok(change) = rx.recv().await`
  unfoldable pub stream_events : List (Received × Bool) → String
  stream_events [] = ""
  stream_events ((change c, false) ∷ rest) = ""
  stream_events ((change c, true) ∷ rest) = line_of (event_response c) ^^ stream_events rest
  stream_events ((lagged n, written) ∷ rest) = ""
  stream_events ((closed, written) ∷ rest) = ""

  unfoldable pub subscribe : Client → DaemonState P → Served P
  unfolding stream_events
  subscribe client st =
      if client.writable
      then record {
        state = st;
        outgoing = line_of ControlResponse.ok ^^ stream_events client.channel;
        is_ok = true;
      }
      else record { state = st; outgoing = ""; is_ok = false }

  unfoldable pub respond : ℕ → Bool → ControlRequest → DaemonState P → Served P
  unfolding dispatch_request
  respond now writable request st =
      let (st', response) = dispatch_request P now request st in
      record { state = st'; outgoing = if writable then line_of response else ""; is_ok = writable }

  unfoldable pub handle_request : ℕ → Client → ControlRequest → DaemonState P → Served P
  unfolding subscribe respond
  handle_request now client ControlRequest.subscribe st = subscribe client st
  handle_request now client ControlRequest.status st =
      respond now client.writable ControlRequest.status st
  handle_request now client ControlRequest.nodes st =
      respond now client.writable ControlRequest.nodes st
  handle_request now client ControlRequest.shutdown st =
      respond now client.writable ControlRequest.shutdown st
  handle_request now client (ControlRequest.join addr) st =
      respond now client.writable (ControlRequest.join addr) st
  handle_request now client (ControlRequest.leave addr) st =
      respond now client.writable (ControlRequest.leave addr) st
  handle_request now client (ControlRequest.unregister name) st =
      respond now client.writable (ControlRequest.unregister name) st
  handle_request now client (ControlRequest.lookup name) st =
      respond now client.writable (ControlRequest.lookup name) st
  handle_request now client (ControlRequest.register name port metadata) st =
      respond now client.writable (ControlRequest.register name port metadata) st

  abbrev failed : DaemonState P → Served P
  failed st = record { state = st; outgoing = ""; is_ok = false }

  -- The request that a client's text starts with.
  unfoldable pub request_of : Option String → Option ControlRequest
  request_of none = none
  request_of (some text) = codec.request_from_str (trim (read_line text).0)

  unfoldable pub handle_control_client : ℕ → Client → DaemonState P → Served P
  unfolding request_of handle_request
  handle_control_client now client st = elim (request_of client.incoming) [
    | none ↦ failed st
    | some request ↦ handle_request now client request st
  ]

  -- `send_control_request`, the client's side: what it writes, and what it makes of what it reads.
  abbrev pub sent_text : ControlRequest → String
  sent_text request = codec.request_text request ^^ newline

  abbrev pub sending : List (Received × Bool) → ControlRequest → Client
  sending channel request = record {
    incoming = some (sent_text request);
    writable = true;
    channel = channel;
  }

  unfoldable pub read_response : Option String → Option (ControlResponse P)
  read_response none = none
  read_response (some text) = codec.response_from_str (trim (read_line text).0)

  -- The client and the daemon on one connection: the daemon's state, and the client's result. Without a
  -- connection the client has none.
  unfoldable pub send_control_request :
      ℕ
      → Bool
      → List (Received × Bool)
      → ControlRequest
      → DaemonState P
      → DaemonState P × Option (ControlResponse P)
  unfolding handle_control_client read_response
  send_control_request now connected channel request st =
      let served = handle_control_client now (sending channel request) st in
      if connected then (served.state, read_response (some served.outgoing)) else (st, none)

-- `run_control_socket`: what comes to the listener is a client, with the time of its request and what
-- other tasks did before it, or an accept error; the loop goes on after both, and after a client's error.
pub data Accepted (P : Platform) : Type 0 where
  client : (DaemonState P → DaemonState P) → ℕ → Client → Accepted P
  accept_error : Accepted P

module _ (P : Platform) (codec : LineCodec P) where
  unfoldable pub run_control_socket :
      List (Accepted P) → DaemonState P → DaemonState P × List String
  unfolding handle_control_client
  run_control_socket [] st = (st, [])
  run_control_socket (client others now c ∷ rest) st =
      let served = handle_control_client P codec now c (others st) in
      let (st', outgoing) = run_control_socket rest served.state in
      (st', served.outgoing ∷ outgoing)
  run_control_socket (accept_error ∷ rest) st = run_control_socket rest st
