-- ===== src/Cli/Print.antt =====
-- `print_response` and `format_epoch` of crates/pmd/src/main.rs: the lines that are printed.
use pmd.Prelude.{ℕ, String, ◌^^◌, Bool, true, false, Option, none, some, List, [], ◌∷◌, ◌++◌, map}
use pmd.Prelude.Decimal.{show_ℕ, pad_zeros, pad_right}
use pmd.Platform.{Platform}
use pmd.Protocol.{ControlResponse, NodeInfoResponse, ServiceEntry}
use pmd.Cli.Epoch.{Moment, moment}

-- The pieces of a `format!`.
abbrev concat : List String → String
concat [] = ""
concat (s ∷ ss) = s ^^ concat ss

unfoldable pub format_moment : Moment → String
format_moment m = concat (
    pad_zeros 4 m.date.year
    ∷ "-"
    ∷ pad_zeros 2 m.date.month
    ∷ "-"
    ∷ pad_zeros 2 m.date.day
    ∷ " "
    ∷ pad_zeros 2 m.hours
    ∷ ":"
    ∷ pad_zeros 2 m.minutes
    ∷ ":"
    ∷ pad_zeros 2 m.seconds
    ∷ "Z"
    ∷ [])

unfoldable pub format_epoch : ℕ → String
unfolding format_moment
format_epoch epoch = format_moment (moment epoch)

-- What a command printed, and whether it exits without an error.
pub record Output : Type 0 where
  pub lines : List String
  pub is_ok : Bool

abbrev pub printed : List String → Output
printed lines = record { lines = lines; is_ok = true }

-- The columns of a row, each padded.
abbrev row4 : String → String → String → String → String → String
row4 a b c d e = concat (
    pad_right 40 a
    ∷ " "
    ∷ pad_right 22 b
    ∷ " "
    ∷ pad_right 12 c
    ∷ " "
    ∷ pad_right 22 d
    ∷ " "
    ∷ e
    ∷ [])

abbrev row2 : String → String → String → String
row2 a b c = concat (pad_right 20 a ∷ " " ∷ pad_right 40 b ∷ " " ∷ c ∷ [])

unfoldable pub service_row : ServiceEntry → String
service_row e = row2 e.name e.node_id (concat (e.host ∷ ":" ∷ show_ℕ e.port ∷ []))

unfoldable pub service_line : ServiceEntry → String
service_line s = concat ("  └─ " ∷ s.name ∷ " → " ∷ s.host ∷ ":" ∷ show_ℕ s.port ∷ [])

module _ (P : Platform) where
  open P use {Float, show_fixed}

  unfoldable pub last_seen : Bool → Option ℕ → String
  unfolding format_epoch
  last_seen true seen = "(local)"
  last_seen false (some ts) = format_epoch ts
  last_seen false none = "(indirect)"

  unfoldable pub phi_text : Option Float → String
  phi_text none = "-"
  phi_text (some phi) = show_fixed 2 phi

  unfoldable pub node_row : NodeInfoResponse P → String
  unfolding last_seen phi_text
  node_row n =
      row4 n.node_id n.addr (show_ℕ n.joined_at) (last_seen n.is_local n.last_seen_at)
        (phi_text n.phi)

  unfoldable pub node_rows : List (NodeInfoResponse P) → List String
  unfolding node_row
  node_rows [] = []
  node_rows (n ∷ ns) = node_row n ∷ (map service_line n.services ++ node_rows ns)

  unfoldable pub print_response : ControlResponse P → Output
  unfolding node_rows
  print_response ControlResponse.ok = printed ("OK" ∷ [])
  print_response (ControlResponse.error message) = record {
    lines = ("Error: " ^^ message) ∷ [];
    is_ok = false;
  }
  print_response (ControlResponse.status node_id listen_addr peer_count node_count) = printed (
      ("Node ID:     " ^^ node_id)
      ∷ ("Listen:      " ^^ listen_addr)
      ∷ ("Peers:       " ^^ show_ℕ peer_count)
      ∷ ("Cluster:     " ^^ (show_ℕ node_count ^^ " node(s)"))
      ∷ [])
  print_response (ControlResponse.nodes []) = printed ("No nodes in cluster." ∷ [])
  print_response (ControlResponse.nodes (n ∷ ns)) =
      printed (row4 "NODE ID" "ADDRESS" "JOINED AT" "LAST SEEN AT" "PHI" ∷ node_rows (n ∷ ns))
  print_response (ControlResponse.services []) = printed ("No services found." ∷ [])
  print_response (ControlResponse.services (e ∷ es)) =
      printed (row2 "SERVICE" "NODE" "ENDPOINT" ∷ map service_row (e ∷ es))
  print_response (ControlResponse.event event node_id addr) = printed []
