-- ===== src/Daemon/Metrics.antt =====
-- crates/pmd/src/daemon/metrics.rs: the metrics that are rendered, and the HTTP answer around them.
pub mod Counts
use Prim.Native.Char.{len_utf8}
use pmd.Prelude.{
  ℕ, suc, ◌+◌, String, ◌^^◌, Bool, true, false, List, [], ◌∷◌, map, filter, length, ltb,
  if◌then◌else◌,
}
use pmd.Prelude.Decimal.{show_ℕ}
use pmd.Platform.{Platform}
use pmd.FailureDetector
use pmd.Membership.{members}
use pmd.Daemon.{DaemonState}
use mathlib.Core.List.{foldl}

-- `env!("CARGO_PKG_VERSION")` is the argument `version`.
pub record Gauges (P : Platform) : Type 0 where
  pub node_id : String
  pub listen_addr : String
  pub cluster_size : ℕ
  pub peer_count : ℕ
  pub phi_max : P.Float
  pub phi_avg : P.Float
  pub service_count : ℕ

abbrev pub total : List ℕ → ℕ
total [] = 0
total (n ∷ ns) = n + total ns

-- `body.len()`: the bytes of the UTF-8 encoding.
abbrev pub byte_length : String → ℕ
byte_length String.[] = 0
byte_length (String.◌∷◌ c s) = let rest = byte_length s in len_utf8 c + rest

abbrev concat : List String → String
concat [] = ""
concat (s ∷ ss) = s ^^ concat ss

-- `push_str` of the lines of one gauge: its help, its type and its value.
abbrev gauge : String → String → String → String
gauge name help value =
    concat
      ("# HELP " ∷ name ∷ " " ∷ help ∷ "\n# TYPE " ∷ name ∷ " gauge\n" ∷ name ∷ value ∷ "\n" ∷ [])

module _ (P : Platform) where
  open P use {Float, addr_to_string, real, literal, add, div, max, of_ℕ, is_finite, show_fixed}

  -- The suspicion levels of the connected peers that are finite.
  unfoldable pub phi_values : ℕ → DaemonState P → List Float
  phi_values now st =
      filter is_finite (map (λ e. FailureDetector.phi_at real now e.1.phi_detector) st.peers)

  abbrev average : List Float → Float
  average [] = literal "0.0"
  average (x ∷ xs) = div (foldl add (literal "0.0") (x ∷ xs)) (of_ℕ (length (x ∷ xs)))

  -- What `render_metrics` takes from the state under the lock.
  unfoldable pub gauges : ℕ → DaemonState P → Gauges P
  unfolding phi_values
  gauges now st = record {
    node_id = st.membership.node_id;
    listen_addr = addr_to_string st.listen_addr;
    cluster_size = length (members P st.membership);
    peer_count = length st.peers;
    phi_max = foldl max (literal "0.0") (phi_values now st);
    phi_avg = average (phi_values now st);
    service_count = total (map (λ n. length n.services) (members P st.membership));
  }

  unfoldable pub render_metrics : String → Gauges P → String
  render_metrics version g = concat (
      gauge "pmd_cluster_nodes_total" "Total number of nodes known in the cluster."
        (" " ^^ show_ℕ g.cluster_size)
      ∷ "\n"
      ∷ gauge "pmd_peers_connected" "Number of directly connected peers."
          (" " ^^ show_ℕ g.peer_count)
      ∷ "\n"
      ∷ gauge "pmd_phi_max" "Maximum phi value across all connected peers."
          (" " ^^ show_fixed 4 g.phi_max)
      ∷ "\n"
      ∷ gauge "pmd_phi_avg" "Average phi value across all connected peers."
          (" " ^^ show_fixed 4 g.phi_avg)
      ∷ "\n"
      ∷ gauge "pmd_services_total" "Total number of services registered across the cluster."
          (" " ^^ show_ℕ g.service_count)
      ∷ "\n"
      ∷ gauge "pmd_info" "PMD daemon information." (
          concat (
            "{node_id=\"" ∷ g.node_id ∷ "\",listen_addr=\"" ∷ g.listen_addr ∷ "\",version=\""
            ∷ version ∷ "\"} 1" ∷ []))
      ∷ [])

  -- The answer to a connection, whatever was read from it.
  unfoldable pub http_response : String → String
  http_response body = concat (
      "HTTP/1.1 200 OK\r\nContent-Type: text/plain; version=0.0.4; charset=utf-8\r\nContent-Length: "
      ∷ show_ℕ (byte_length body)
      ∷ "\r\nConnection: close\r\n\r\n"
      ∷ body
      ∷ [])
