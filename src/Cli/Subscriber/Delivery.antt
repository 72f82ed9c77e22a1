-- ===== src/Cli/Subscriber/Delivery.antt =====
-- What a subscriber sees of the membership: crates/pmd/src/daemon/control.rs and the command
-- `pmd subscribe` of crates/pmd/src/main.rs.
use Prim.Native.String.{count}
use pmd.Prelude.{
  ℕ, zero, suc, ◌≤◌, String, ◌≡◌, refl, ◌∙◌, ap, Bool, true, false, List, [], ◌∷◌, ◌++◌, ◌^^◌,
  arith, map, length, if◌then◌else◌,
}
use pmd.Prelude.Lines.{read_line, read_line-append, trim, trim-newline, newline, is_empty}
use text.Mathlib.TextLemmas.{append_assoc, nil-append, cons-append, length-append, length-cons}
use pmd.Platform.{Platform}
use pmd.Membership.{MembershipChange}
use pmd.Protocol.{ControlRequest, ControlResponse}
use pmd.Daemon.{DaemonState}
use pmd.Daemon.Control.Socket.{
  LineCodec, Received, change, lagged, closed, line_of, event_response, stream_events, subscribe,
  sending, handle_request, handle_control_client,
}
use pmd.Daemon.Control.Socket.Exchange.{handle_control_client-sent}
use pmd.Cli.Subscriber.{event_line, print_event, stream_lines, run_subscribe}

-- The changes that are sent: those before the first that was missed, the end of the channel, and the
-- first write that fails.
abbrev pub delivered : List (Received × Bool) → List MembershipChange
delivered [] = []
delivered ((change c, true) ∷ rest) = c ∷ delivered rest
delivered ((change c, false) ∷ rest) = []
delivered ((lagged n, written) ∷ rest) = []
delivered ((closed, written) ∷ rest) = []

abbrev pub change_line : MembershipChange → String
change_line c = event_line c.event c.node_id c.addr

module _ (P : Platform) (codec : LineCodec P) where
  read_line-line_of :
      (r : ControlResponse P) (rest : String)
      → read_line (line_of P codec r ^^ rest) ≡ (line_of P codec r, rest)
  read_line-line_of r rest =
      ap read_line (append_assoc (codec.response_text r) newline rest)
      ∙ read_line-append (codec.response_text r) rest (codec.response_text-IsLine r).0

  is_empty-newline : (s : String) → is_empty (s ^^ newline) ≡ false
  is_empty-newline String.[] = ap is_empty (nil-append newline)
  is_empty-newline (String.◌∷◌ c s) = ap is_empty (cons-append c s newline)

  trim-line_of : (r : ControlResponse P) → trim (line_of P codec r) ≡ codec.response_text r
  trim-line_of r = trim-newline (codec.response_text r) ∙ (codec.response_text-IsLine r).1

  -- One event and what is behind it.
  stream_lines-event :
      (rounds : ℕ) (c : MembershipChange) (rest : String)
      → stream_lines P codec (suc rounds) (line_of P codec (event_response P codec c) ^^ rest)
        ≡ change_line c ∷ stream_lines P codec rounds rest
  unfolding stream_lines print_event
  stream_lines-event rounds c rest =
      let ev = event_response P codec c in
      ap
        (λ r.
          if is_empty r.0
          then []
          else print_event P codec (codec.response_from_str (trim r.0))
            ++ stream_lines P codec rounds r.1)
        (read_line-line_of ev rest)
      ∙ rw (
        is_empty-newline (codec.response_text ev),
        trim-line_of ev,
        codec.response_from_str-text ev refl,
      )

  stream_lines-events :
      (rounds : ℕ) (channel : List (Received × Bool))
      → length (delivered channel) ≤ rounds
      → stream_lines P codec (suc rounds) (stream_events P codec channel)
        ≡ map change_line (delivered channel)
  unfolding stream_lines stream_events
  stream_lines-events rounds [] h = refl
  stream_lines-events rounds ((change c, false) ∷ rest) h = refl
  stream_lines-events rounds ((lagged n, written) ∷ rest) h = refl
  stream_lines-events rounds ((closed, written) ∷ rest) h = refl
  stream_lines-events zero ((change c, true) ∷ rest) h = absurd (omega arith)
  stream_lines-events (suc rounds) ((change c, true) ∷ rest) h =
      stream_lines-event (suc rounds) c (stream_events P codec rest)
      ∙ ap (◌∷◌ (change_line c)) (stream_lines-events rounds rest (omega arith))

  count-line_of : (r : ControlResponse P) → 1 ≤ count (line_of P codec r)
  count-line_of r =
      omega (arith, length-append (codec.response_text r) newline, length-cons "\n" "")

  -- Every change that is sent takes a character at least.
  length-delivered :
      (channel : List (Received × Bool))
      → length (delivered channel) ≤ count (stream_events P codec channel)
  unfolding stream_events
  length-delivered [] = omega arith
  length-delivered ((change c, false) ∷ rest) = omega arith
  length-delivered ((lagged n, written) ∷ rest) = omega arith
  length-delivered ((closed, written) ∷ rest) = omega arith
  length-delivered ((change c, true) ∷ rest) =
      let line = line_of P codec (event_response P codec c) in
      omega (
        arith,
        length-delivered rest,
        count-line_of (event_response P codec c),
        length-append line (stream_events P codec rest),
      )

  -- A subscriber prints a line for each change that was sent, in the order of the changes, and nothing
  -- else: the changes before the first that it missed, before the end of the channel, and before the
  -- first write that fails. The subscription leaves the state as it is,
  -- and gives no error.
  pub run_subscribe-delivered :
      (now : ℕ) (channel : List (Received × Bool)) (st : DaemonState P)
      → let served =
          handle_control_client P codec now (sending P codec channel ControlRequest.subscribe) st in
        (run_subscribe P codec served.outgoing ≡ map change_line (delivered channel))
        × (served.state ≡ st)
        × (served.is_ok ≡ true)
  unfolding run_subscribe handle_request subscribe
  run_subscribe-delivered now channel st =
      let first = line_of P codec ControlResponse.ok in
      let events = stream_events P codec channel in
      let e = handle_control_client-sent P codec now channel ControlRequest.subscribe st refl in
      (
        ap (λ served. run_subscribe P codec served.outgoing) e
            ∙ ap (λ r. stream_lines P codec (suc (count (first ^^ events))) r.1)
                (read_line-line_of ControlResponse.ok events)
            ∙ stream_lines-events (count (first ^^ events)) channel
                (omega (arith, length-append first events, length-delivered channel)),
        ap (λ served. served.state) e,
        ap (λ served. served.is_ok) e,
      )
