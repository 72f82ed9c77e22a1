-- ===== src/Discovery/Broadcast.antt =====
-- crates/pmd-broadcast/src/plugin.rs: beacons over UDP. The socket's events are arguments; what is sent is
-- kept in the session's state.
pub mod Beacons
pub mod Air
use pmd.Prelude.{
  ℕ, String, ◌≡◌, Bool, true, false, not, ◌&&◌, Option, none, some, List, [], ◌∷◌, ◌++◌, take, ◌==◌,
  if◌then◌else◌,
}
use pmd.Prelude.Sets.{insert_new}
use pmd.Platform.{Platform}
use pmd.Discovery.{NodeInfo, DiscoveryContext}

pub record BroadcastPlugin : Type 0 where
  pub port : ℕ
  pub interval : ℕ

unfoldable pub new : BroadcastPlugin
new = record { port = 4370; interval = 10 }

unfoldable pub with_port : ℕ → BroadcastPlugin → BroadcastPlugin
with_port port p = record p { port = port }

unfoldable pub with_interval : ℕ → BroadcastPlugin → BroadcastPlugin
with_interval interval p = record p { interval = interval }

pub record Beacon (P : Platform) : Type 0 where
  pub node_id : String
  pub listen_addr : P.Addr

-- `serde_json::to_vec` and `serde_json::from_slice`.
pub record BeaconCodec (P : Platform) : Type 0 where
  pub to_vec : Beacon P → Option (List ℕ)
  pub from_slice : List ℕ → Option (Beacon P)
  pub from_slice-to_vec :
      (b : Beacon P) (bytes : List ℕ) → to_vec b ≡ some bytes → from_slice bytes ≡ some b

-- What wakes the loop: the interval, with whether the beacon can be sent, a datagram, an error.
pub data Event : Type 0 where
  tick : Bool → Event
  datagram : List ℕ → Event
  recv_error : Event

pub record Session (P : Platform) : Type 0 where
  pub known_peers : List String
  pub sent : List (List ℕ)
  pub discovered_tx : List P.Addr

-- `running`, read before the event, and the event.
abbrev pub Turn : Type 0
Turn = Bool × Event

module _ (P : Platform) (codec : BeaconCodec P) where
  -- `let mut buf = vec![0u8; 1024]`: the rest of a longer datagram is lost.
  abbrev pub received : List ℕ → Option (Beacon P)
  received bytes = codec.from_slice (take 1024 bytes)

  unfoldable pub heard : String → Option (Beacon P) → Session P → Session P
  heard own none s = s
  heard own (some b) s =
      if b.node_id == own
      then s
      else (let (known, is_new) = insert_new b.node_id s.known_peers in
          if is_new
          then record s {
            known_peers = known;
            discovered_tx = s.discovered_tx ++ b.listen_addr ∷ [];
          }
          else s)

  unfoldable pub on_event : String → List ℕ → Event → Session P → Session P
  unfolding heard
  on_event own beacon_bytes (tick written) s =
      if written then record s { sent = s.sent ++ beacon_bytes ∷ [] } else s
  on_event own beacon_bytes (datagram bytes) s = heard own (received bytes) s
  on_event own beacon_bytes recv_error s = s

  -- The loop over the turns that come: it ends at the first turn that finds `running` unset.
  unfoldable pub run : String → List ℕ → List Turn → Session P → Session P
  unfolding on_event
  run own beacon_bytes [] s = s
  run own beacon_bytes ((running, event) ∷ rest) s =
      let later = run own beacon_bytes rest (on_event own beacon_bytes event s) in
      if running then later else s

  -- `start`: none is an error. `bound` says whether the socket could be set up.
  unfoldable pub start : Bool → DiscoveryContext P → List Turn → Option (Session P)
  unfolding run
  start bound ctx turns =
      let beacon : Beacon P = record {
        node_id = ctx.local_node.node_id;
        listen_addr = ctx.local_node.addr;
      } in
      if bound
      then elim (codec.to_vec beacon) [
        | none ↦ none
        | some bytes ↦ some (
            run ctx.local_node.node_id bytes turns
              (record { known_peers = []; sent = []; discovered_tx = ctx.discovered_tx }))
      ]
      else none
