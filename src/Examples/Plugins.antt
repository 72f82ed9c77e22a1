-- ===== src/Examples/Plugins.antt =====
-- The discovery plugins at concrete beacons and answers.
use pmd.Prelude.{◌≡◌, refl, true, false, ◌||◌, none, some, List, [], ◌∷◌, arith}
use pmd.Prelude.Decimal.{show_ℕ}
use pmd.Daemon.{forward_all}
use pmd.Daemon.Discovered.{Once, is_connected, is_queued, forward_all-Once}
use pmd.Discovery.{DiscoveryContext}
use pmd.Discovery.Broadcast.{Turn, tick, datagram, recv_error, start, received, Session}
use pmd.Discovery.Broadcast.Beacons.{start-reports, copies}
use pmd.Discovery.Azure.{InstanceMetadata, Poll, address, new, ResourceGraphRow}
use pmd.Discovery.Azure
use pmd.Discovery.Azure.Machines.{start-addresses}
use pmd.Examples.Toy.{toy}
use pmd.Examples.Codec.{beacons, bob_beacon}
use pmd.Examples.Sessions.{connected}

-- Bob's plugin hears its own beacon only, and is stopped before its second one.
abbrev bob_context : DiscoveryContext toy
bob_context = record {
  local_node = record { node_id = "bob"; addr = "10.0.0.2:4369" };
  discovered_tx = "10.0.0.5:4369" ∷ [];
}

abbrev turns : List Turn
turns = (true, tick true) ∷ (true, datagram (7 ∷ [])) ∷ (true, recv_error) ∷ (false, tick true) ∷ []

start-reports_example :
    (s : Session toy) × (start toy beacons true bob_context turns ≡ some s)
    × (s.discovered_tx ≡ "10.0.0.5:4369" ∷ [])
    × (s.sent ≡ copies 1 (7 ∷ []))
    × (received toy beacons (7 ∷ []) ≡ some bob_beacon)
start-reports_example = start-reports toy beacons bob_context turns (7 ∷ []) refl (omega arith)

abbrev machine : InstanceMetadata
machine = record {
  compute = record { subscription_id = "s1" };
  network = record {
    interfaces =
        record { ipv4 = record { ip_address = record { private_ip_address = "10.0.0.2" } ∷ [] } }
        ∷ [];
  };
}

-- One row without an address, and one machine twice.
abbrev rows : List ResourceGraphRow
rows =
    record { private_ip = some "10.0.0.2" }
    ∷ record { private_ip = some "10.0.0.3" }
    ∷ record { private_ip = none }
    ∷ record { private_ip = some "10.0.0.3" }
    ∷ []

-- The second turn has no token; the first answer names the machine itself too.
abbrev polls : List Poll
polls =
    record { running = true; token = some "t"; post = λ _. some (record { data_rows = rows }) }
    ∷ record { running = true; token = none; post = λ _. none }
    ∷ []

start-addresses_example :
    (s : Azure.Session toy) × (Azure.start toy new (some machine) bob_context polls ≡ some s)
    × (s.discovered_tx ≡ "10.0.0.5:4369" ∷ "10.0.0.3:4369" ∷ [])
unfolding new Azure.local_ip Azure.answer Azure.query_tagged_vms Azure.addresses_of show_ℕ
start-addresses_example = start-addresses toy new machine bob_context polls

forward_all-Once_example :
    Once toy (forward_all toy ("10.0.0.2:4369" ∷ "10.0.0.3:4369" ∷ "10.0.0.3:4369" ∷ []) connected)
    × ((is_connected toy "10.0.0.3:4369" connected
          || is_queued toy "10.0.0.3:4369" (
              forward_all toy ("10.0.0.2:4369" ∷ "10.0.0.3:4369" ∷ "10.0.0.3:4369" ∷ []) connected))
        ≡ true)
    × ((forward_all toy ("10.0.0.2:4369" ∷ "10.0.0.3:4369" ∷ "10.0.0.3:4369" ∷ []) connected).peers
        ≡ connected.peers)
forward_all-Once_example =
    forward_all-Once toy ("10.0.0.2:4369" ∷ "10.0.0.3:4369" ∷ "10.0.0.3:4369" ∷ []) "10.0.0.3:4369"
      connected (λ k. omega arith) refl
