-- ===== src/Daemon/Control/Socket/Exchange.antt =====
-- What a client of the control socket gets: crates/pmd/src/daemon/control.rs.
use pmd.Prelude.{ℕ, String, ◌≡◌, ◌≢◌, refl, sym, ◌∙◌, ap, Bool, true, some, List, ◌^^◌}
use pmd.Prelude.Lines.{read_line, read_line-append, trim, trim-newline, newline, IsLine}
use text.Mathlib.TextLemmas.{append-nil}
use pmd.Platform.{Platform}
use pmd.Protocol.{ControlRequest, ControlResponse}
use pmd.Daemon.{DaemonState}
use pmd.Daemon.Control.{dispatch_request}
use pmd.Daemon.Control.Socket.{
  LineCodec, Client, Received, is_exact_request, is_exact_response, line_of, handle_request,
  handle_control_client, request_of, respond, sent_text, sending, read_response,
  send_control_request,
}

-- A line is read back from the front of a stream, without its end.
pub trim-read_line : (s rest : String) → IsLine s → trim (read_line (s ^^ (newline ^^ rest))).0 ≡ s
trim-read_line s rest h = ap (λ r. trim r.0) (read_line-append s rest h.0) ∙ trim-newline s ∙ h.1

trim-read_line_last : (s : String) → IsLine s → trim (read_line (s ^^ newline)).0 ≡ s
trim-read_line_last s h =
    ap (λ e. trim (read_line (s ^^ e)).0) (sym (append-nil newline)) ∙ trim-read_line s "" h

module _ (P : Platform) (codec : LineCodec P) where
  request_of-sent_text :
      (request : ControlRequest)
      → is_exact_request request ≡ true
      → request_of P codec (some (sent_text P codec request)) ≡ some request
  unfolding request_of
  request_of-sent_text request exact =
      ap codec.request_from_str (trim-read_line_last _ (codec.request_text-IsLine request))
      ∙ codec.request_from_str-text request exact

  read_response-line_of :
      (r : ControlResponse P)
      → is_exact_response P r ≡ true
      → read_response P codec (some (line_of P codec r)) ≡ some r
  unfolding read_response
  read_response-line_of r exact =
      ap codec.response_from_str (trim-read_line_last _ (codec.response_text-IsLine r))
      ∙ codec.response_from_str-text r exact

  -- Every request but the subscription is answered by `dispatch_request`.
  handle_request-respond :
      (now : ℕ) (client : Client) (request : ControlRequest) (st : DaemonState P)
      → request ≢ ControlRequest.subscribe
      → handle_request P codec now client request st
        ≡ respond P codec now client.writable request st
  unfolding handle_request
  handle_request-respond now client ControlRequest.status st ne = refl
  handle_request-respond now client ControlRequest.nodes st ne = refl
  handle_request-respond now client ControlRequest.shutdown st ne = refl
  handle_request-respond now client ControlRequest.subscribe st ne = absurd (ne refl)
  handle_request-respond now client (ControlRequest.join addr) st ne = refl
  handle_request-respond now client (ControlRequest.leave addr) st ne = refl
  handle_request-respond now client (ControlRequest.unregister name) st ne = refl
  handle_request-respond now client (ControlRequest.lookup name) st ne = refl
  handle_request-respond now client (ControlRequest.register name port metadata) st ne = refl

  handle_control_client-request :
      (now : ℕ) (client : Client) (request : ControlRequest) (st : DaemonState P)
      → request_of P codec client.incoming ≡ some request
      → handle_control_client P codec now client st ≡ handle_request P codec now client request st
  unfolding handle_control_client
  handle_control_client-request now client request st e = rw (e, handle_control_client)

  pub handle_control_client-sent :
      (now : ℕ) (channel : List (Received × Bool)) (request : ControlRequest) (st : DaemonState P)
      → is_exact_request request ≡ true
      → handle_control_client P codec now (sending P codec channel request) st
        ≡ handle_request P codec now (sending P codec channel request) request st
  handle_control_client-sent now channel request st exact =
      handle_control_client-request now (sending P codec channel request) request st
        (request_of-sent_text request exact)

  -- A client that is connected, and whose request is no subscription, gets the response of
  -- `dispatch_request`, and the daemon has the state that it gives, if the request and the response have
  -- one text only: no map in them has two keys or more, and no float is in them.
  pub send_control_request-dispatch :
      (now : ℕ) (channel : List (Received × Bool)) (request : ControlRequest) (st : DaemonState P)
      → request ≢ ControlRequest.subscribe
      → is_exact_request request ≡ true
      → is_exact_response P (dispatch_request P now request st).1 ≡ true
      → send_control_request P codec now true channel request st
        ≡ ((dispatch_request P now request st).0, some (dispatch_request P now request st).1)
  unfolding send_control_request respond
  send_control_request-dispatch now channel request st ne exact exact_response =
      ap (λ served. (served.state, read_response P codec (some served.outgoing)))
        (handle_control_client-sent now channel request st exact
          ∙ handle_request-respond now (sending P codec channel request) request st ne)
      ∙ ap (λ r. ((dispatch_request P now request st).0, r))
          (read_response-line_of _ exact_response)
