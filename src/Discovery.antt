-- ===== src/Discovery.antt =====
-- crates/pmd-discovery/src/lib.rs: what a discovery plugin is given. Its channel of discovered addresses is
-- the list of what was sent.
pub mod News
pub mod Broadcast
pub mod Azure
pub mod Plugins
use pmd.Prelude.{String, List}
use pmd.Platform.{Platform}

pub record NodeInfo (P : Platform) : Type 0 where
  pub node_id : String
  pub addr : P.Addr

pub record DiscoveryContext (P : Platform) : Type 0 where
  pub local_node : NodeInfo P
  pub discovered_tx : List P.Addr
