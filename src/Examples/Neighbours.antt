-- ===== src/Examples/Neighbours.antt =====
-- The broadcast plugin, in the example program and in a daemon, with one neighbour.
use mathlib.Core.List.{Memᴰ}
use pmd.Prelude.{
  ℕ, ◌≡◌, refl, sym, ap, ap₂, Bool, true, false, ◌&&◌, Option, none, some, List, [], ◌∷◌, ◌++◌,
  arith, ◌==◌, eq_iff, if◌then◌else◌,
}
use pmd.Prelude.Decimal.{show_ℕ}
use pmd.Prelude.Parse.{parse_u16}
use pmd.Daemon.{main_step, forward_all}
use pmd.Daemon
use pmd.Daemon.Discovered.Connect.{tick-neighbour}
use pmd.Discovery.{NodeInfo}
use pmd.Discovery.Broadcast.{Beacon, BeaconCodec, Session, Turn, tick, datagram, recv_error, start}
use pmd.BroadcastDiscovery.{parse_port, listen_addr, context, banner, main}
use pmd.BroadcastDiscovery.Neighbours.{line, main-neighbours}
use pmd.Discovery.Broadcast.Air.{Air, only, timer, error, echo, word, silence}
use pmd.Examples.Toy.{toy}
use pmd.Examples.Sessions.{idle}

abbrev ann : Beacon toy
ann = record { node_id = "ann"; listen_addr = "127.0.0.1:4369" }

abbrev ben : Beacon toy
ben = record { node_id = "ben"; listen_addr = "127.0.0.1:4370" }

abbrev is_beacon : Beacon toy → Beacon toy → Bool
is_beacon c b = (b.node_id == c.node_id) && (b.listen_addr == c.listen_addr)

is_beacon-path : (c b : Beacon toy) → is_beacon c b ≡ true → c ≡ b
is_beacon-path c b h =
    ap₂ (λ id addr. record { node_id = id; listen_addr = addr })
      (sym ((eq_iff b.node_id c.node_id).0 (ground (arith, h))))
      (sym ((eq_iff b.listen_addr c.listen_addr).0 (ground (arith, h))))

abbrev printed : Beacon toy → Option (List ℕ)
printed b =
    if is_beacon ann b then some (1 ∷ []) else if is_beacon ben b then some (2 ∷ 2 ∷ []) else none

abbrev read_back : List ℕ → Option (Beacon toy)
read_back [] = none
read_back (x ∷ []) = some ann
read_back (x ∷ y ∷ bytes) = some ben

read_back-printed :
    (b : Beacon toy) (bytes : List ℕ) → printed b ≡ some bytes → read_back bytes ≡ some b
read_back-printed b [] h = absurd (ground (arith, h))
read_back-printed b (x ∷ []) h = ap some (is_beacon-path ann b (ground (arith, h)))
read_back-printed b (x ∷ y ∷ bytes) h = ap some (is_beacon-path ben b (ground (arith, h)))

abbrev two_beacons : BeaconCodec toy
two_beacons = record {
  to_vec = printed;
  from_slice = read_back;
  from_slice-to_vec = read_back-printed;
}

abbrev ann_turns : List Turn
ann_turns = (true, tick true) ∷ (true, tick false) ∷ []

abbrev ann_session : Session toy
ann_session = record { known_peers = []; sent = (1 ∷ []) ∷ []; discovered_tx = [] }

-- Ben hears himself, an error, and ann twice.
abbrev ben_turns : List Turn
ben_turns =
    (true, tick true)
    ∷ (true, datagram (2 ∷ 2 ∷ []))
    ∷ (true, datagram (1 ∷ []))
    ∷ (true, recv_error)
    ∷ (true, datagram (1 ∷ []))
    ∷ []

ben_hears : Air (2 ∷ 2 ∷ []) ann_session.sent ben_turns true
ben_hears =
    timer true
      (echo (word (1 ∷ []) (Memᴰ.head refl) (error (word (1 ∷ []) (Memᴰ.head refl) silence))))

ann_started :
    start toy two_beacons true (context toy "ann" "127.0.0.1:4369") ann_turns ≡ some ann_session
unfolding start context
ann_started = refl

ben_listens : listen_addr toy 4370 ≡ some "127.0.0.1:4370"
unfolding listen_addr
ben_listens = refl

main-neighbours_example :
    main toy two_beacons ("demo" ∷ "--port" ∷ show_ℕ 4370 ∷ []) "ben" true ben_turns 1
    ≡ some (banner toy "ben" "127.0.0.1:4370" ++ line toy two_beacons "127.0.0.1:4369" ∷ "" ∷ [])
main-neighbours_example =
    main-neighbours toy two_beacons "demo" "ann" "ben" 4370 "127.0.0.1:4369" "127.0.0.1:4370"
      (1 ∷ []) (2 ∷ 2 ∷ []) ann_turns ben_turns ann_session true 0 refl (omega arith) ben_listens
      refl refl refl (omega arith) (omega arith) ann_started ben_hears

-- A port that is passed over, and three that are refused.
ports :
    (parse_port ("demo" ∷ "--port" ∷ []) ≡ some 4369)
    × (parse_port ("demo" ∷ "--port" ∷ "+65535" ∷ []) ≡ some 65535)
    × (parse_port ("demo" ∷ "--port" ∷ "65536" ∷ []) ≡ none)
    × (parse_port ("demo" ∷ "--port" ∷ "-1" ∷ []) ≡ none)
    × (parse_port ("demo" ∷ "--port" ∷ "+" ∷ []) ≡ none)
unfolding parse_port parse_u16
ports = (refl, refl, refl, refl, refl)

abbrev ann_node : NodeInfo toy
ann_node = record { node_id = "ann"; addr = "127.0.0.1:4369" }

abbrev ben_node : NodeInfo toy
ben_node = record { node_id = "ben"; addr = "127.0.0.1:4370" }

ann_again : start toy two_beacons true (only toy two_beacons ann_node) ann_turns ≡ some ann_session
unfolding start
ann_again = refl

tick-neighbour_example :
    (t : Session toy) × (start toy two_beacons true (only toy two_beacons ben_node) ben_turns
      ≡ some t)
    × ((main_step toy Daemon.tick (forward_all toy t.discovered_tx idle)).1 ≡ "127.0.0.1:4369" ∷ [])
    × ((main_step toy Daemon.tick (forward_all toy t.discovered_tx idle)).2 ≡ true)
tick-neighbour_example =
    tick-neighbour toy two_beacons ben_node ann_node (2 ∷ 2 ∷ []) (1 ∷ []) ben_turns ann_turns
      ann_session idle refl refl refl (omega arith) (omega arith) ann_again ben_hears refl refl refl
