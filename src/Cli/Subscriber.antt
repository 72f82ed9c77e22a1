-- ===== src/Cli/Subscriber.antt =====
-- `pmd subscribe`: the branch `Commands::Subscribe` of crates/pmd/src/main.rs.
pub mod Delivery
pub mod Gapless
use Prim.Native.String.{count}
use pmd.Prelude.{
  ℕ, zero, suc, String, ◌^^◌, Bool, true, false, Option, none, some, List, [], ◌∷◌, ◌++◌,
  if◌then◌else◌,
}
use pmd.Prelude.Lines.{read_line, trim, is_empty}
use pmd.Platform.{Platform}
use pmd.Protocol.{ControlResponse, MembershipEvent}
use pmd.Daemon.Control.Socket.{LineCodec}

unfoldable pub event_line : MembershipEvent → String → String → String
event_line MembershipEvent.node_joined node_id addr = "JOINED " ^^ (node_id ^^ (" " ^^ addr))
event_line MembershipEvent.node_left node_id addr = "LEFT " ^^ (node_id ^^ (" " ^^ addr))

module _ (P : Platform) (codec : LineCodec P) where
  -- What a line prints: nothing unless it is an event.
  unfoldable pub print_event : Option (ControlResponse P) → List String
  unfolding event_line
  print_event (some (ControlResponse.event event node_id addr)) = event_line event node_id addr ∷ []
  print_event _ = []

  -- The loop over the lines of a text, until none is left.
  unfoldable pub stream_lines : ℕ → String → List String
  unfolding print_event
  stream_lines zero text = []
  stream_lines (suc rounds) text =
      let (line, rest) = read_line text in
      let later = stream_lines rounds rest in
      if is_empty line then [] else print_event (codec.response_from_str (trim line)) ++ later

  -- The first line is read and dropped. A round takes at least one character.
  unfoldable pub run_subscribe : String → List String
  unfolding stream_lines
  run_subscribe text = let (first, rest) = read_line text in stream_lines (suc (count text)) rest
