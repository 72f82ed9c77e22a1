-- ===== src/Discovery/Plugins.antt =====
-- `start_discovery_plugins` of crates/pmd/src/daemon/mod.rs.
use pmd.Prelude.{String, Option, none, some, List, [], filter_map, ◌==◌, if◌then◌else◌}
use pmd.Platform.{Platform}
use pmd.Discovery.{DiscoveryContext}
use pmd.Discovery.Broadcast.{BroadcastPlugin}
use pmd.Discovery.Broadcast
use pmd.Discovery.Azure.{AzureTagPlugin}
use pmd.Discovery.Azure

-- A plugin that runs in a task of its own, with what it is given.
pub data Started (P : Platform) : Type 0 where
  broadcast : BroadcastPlugin → DiscoveryContext P → Started P
  azure_tag : AzureTagPlugin → DiscoveryContext P → Started P

module _ (P : Platform) where
  -- A fresh channel: nothing has been sent to it.
  abbrev pub context : String → P.Addr → DiscoveryContext P
  context node_id listen_addr = record {
    local_node = record { node_id = node_id; addr = listen_addr };
    discovered_tx = [];
  }

  unfoldable pub plugin_of : String → P.Addr → String → Option (Started P)
  unfolding Broadcast.new Azure.new
  plugin_of node_id listen_addr name =
      if name == "broadcast"
      then some (Started.broadcast Broadcast.new (context node_id listen_addr))
      else if name == "azure-tag"
      then some (Started.azure_tag Azure.new (context node_id listen_addr))
      else none

  -- The plugins that are started; unknown names are skipped.
  unfoldable pub start_discovery_plugins : List String → String → P.Addr → List (Started P)
  unfolding plugin_of
  start_discovery_plugins plugins node_id listen_addr =
      filter_map (plugin_of node_id listen_addr) plugins
