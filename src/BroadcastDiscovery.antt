-- ===== src/BroadcastDiscovery.antt =====
-- examples/broadcast_discovery.rs: a program that starts the broadcast plugin and prints the peers that it
-- discovers. Its arguments, the node's id that it draws, what its plugin's socket does, and how
-- many peers it takes from the channel before Ctrl-C are arguments.
pub mod Neighbours
use pmd.Prelude.{
  ℕ, String, Bool, Option, none, some, List, [], ◌∷◌, ◌++◌, map, take, ◌==◌, ◌^^◌, if◌then◌else◌,
}
use pmd.Prelude.Decimal.{show_ℕ}
use pmd.Prelude.Parse.{parse_u16}
use pmd.Platform.{Platform}
use pmd.Membership.{◌>>=◌}
use pmd.Discovery.{NodeInfo, DiscoveryContext}
use pmd.Discovery.Broadcast
use pmd.Discovery.Broadcast.{
  BroadcastPlugin, BeaconCodec, Session, Turn, with_port, with_interval, start,
}

-- The loop over the arguments: the first `--port` with an argument behind it decides. None is the
-- panic of `expect`.
unfoldable pub parse_port : List String → Option ℕ
parse_port [] = some 4369
parse_port (arg ∷ []) = some 4369
parse_port (arg ∷ value ∷ rest) =
    let later = parse_port (value ∷ rest) in if arg == "--port" then parse_u16 value else later

unfoldable pub plugin : BroadcastPlugin
unfolding Broadcast.new with_port with_interval
plugin = with_interval 3 (with_port 4380 Broadcast.new)

-- What `discovered_rx.recv()` or `ctrl_c()` wakes the loop with.
pub data Wake (P : Platform) : Type 0 where
  discovered : P.Addr → Wake P
  ctrl_c : Wake P

module _ (P : Platform) where
  open P use {Addr, addr_to_string, addr_parse}

  -- The lines that the loop prints.
  unfoldable pub print_loop : List (Wake P) → List String
  print_loop [] = []
  print_loop (discovered peer_addr ∷ rest) =
      ("  >>> Discovered peer at " ^^ addr_to_string peer_addr) ∷ print_loop rest
  print_loop (ctrl_c ∷ rest) = "" ∷ []

  unfoldable pub banner : String → Addr → List String
  banner node_id listen_addr =
      ""
      ∷ ("  Node ID: " ^^ node_id)
      ∷ ("  Listen:  " ^^ addr_to_string listen_addr)
      ∷ "  Beacon:  UDP broadcast on port 4380 every 3s"
      ∷ ""
      ∷ []

  -- `format!("127.0.0.1:{port}").parse()`
  unfoldable pub listen_addr : ℕ → Option Addr
  unfolding show_ℕ
  listen_addr port = addr_parse ("127.0.0.1:" ^^ show_ℕ port)

  unfoldable pub context : String → Addr → DiscoveryContext P
  context node_id addr = record {
    local_node = record { node_id = node_id; addr = addr };
    discovered_tx = [];
  }

  -- What the plugin's task sent to the channel; nothing if it ended with an error at once.
  abbrev pub found : Option (Session P) → List Addr
  found none = []
  found (some s) = s.discovered_tx

  module _ (codec : BeaconCodec P) where
    -- Behind the parse of the arguments. `taken` peers come out of the channel before Ctrl-C.
    unfoldable pub announce : String → Bool → List Turn → ℕ → Addr → List String
    unfolding start print_loop banner context
    announce node_id bound turns taken addr =
        banner node_id addr
        ++ print_loop (
            map discovered (take taken (found (start P codec bound (context node_id addr) turns)))
            ++ ctrl_c ∷ [])

    -- `main`: what is printed up to Ctrl-C, none if it panics before.
    unfoldable pub main : List String → String → Bool → List Turn → ℕ → Option (List String)
    unfolding parse_port listen_addr announce
    main args node_id bound turns taken = do
      port ← parse_port args
      addr ← listen_addr port
      some (announce node_id bound turns taken addr)
