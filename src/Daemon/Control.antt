-- ===== src/Daemon/Control.antt =====
-- crates/pmd/src/daemon/control.rs: `dispatch_request`, which answers one request of the control
-- socket under the lock. The time that `phi()` reads is the argument `now`.
pub mod Effects
pub mod Socket
use pmd.Prelude.{
  ℕ, String, Bool, true, false, Option, none, some, List, [], ◌∷◌, ◌++◌, map, length, ◌==◌,
  if◌then◌else◌,
}
use pmd.Prelude.Maps.{lookup}
use pmd.Platform.{Platform}
use pmd.Protocol.{ControlRequest, ControlResponse, NodeInfoResponse, ServiceEntry}
use pmd.FailureDetector
use pmd.Membership.{
  NodeInfo, ServiceInfo, Endpoint, members, lookup_service, register_service, unregister_service,
}
use pmd.Daemon.{PeerHandle, DaemonState}

module _ (P : Platform) where
  open P use {Float, addr_to_string, ip_to_string, real}

  -- The entry of a member's service in the answer to `Nodes`.
  abbrev pub service_of : NodeInfo P → ServiceInfo → ServiceEntry
  service_of n s = record {
    name = s.name;
    node_id = n.node_id;
    host = ip_to_string n.addr;
    port = s.port;
    metadata = s.metadata;
  }

  -- (phi, last_seen_at) of a member: none for this node and for one without a connection.
  unfoldable pub suspicion : ℕ → DaemonState P → NodeInfo P → Option Float × Option ℕ
  suspicion now st n =
      if n.node_id == st.membership.node_id
      then (none, none)
      else elim (lookup n.node_id st.peers) [
        | none ↦ (none, none)
        | some peer ↦ (
          some (FailureDetector.phi_at real now peer.phi_detector),
          peer.phi_detector.last_heartbeat_epoch,
        )
      ]

  unfoldable pub node_response : ℕ → DaemonState P → NodeInfo P → NodeInfoResponse P
  unfolding suspicion
  node_response now st n = record {
    node_id = n.node_id;
    addr = addr_to_string n.addr;
    joined_at = n.joined_at;
    metadata = n.metadata;
    services = map (service_of n) n.services;
    phi = (suspicion now st n).0;
    last_seen_at = (suspicion now st n).1;
    is_local = n.node_id == st.membership.node_id;
  }

  abbrev pub service_entry : String → Endpoint P → ServiceEntry
  service_entry name e = record {
    name = name;
    node_id = e.node_id;
    host = ip_to_string e.addr;
    port = e.port;
    metadata = e.metadata;
  }

  unfoldable pub dispatch_request :
      ℕ → ControlRequest → DaemonState P → DaemonState P × ControlResponse P
  unfolding node_response
  dispatch_request now ControlRequest.status st = (
    st,
    ControlResponse.status st.membership.node_id (addr_to_string st.listen_addr) (length st.peers)
        (length (members P st.membership)),
  )
  dispatch_request now ControlRequest.nodes st =
      (st, ControlResponse.nodes (map (node_response now st) (members P st.membership)))
  dispatch_request now (ControlRequest.join addr) st =
      (record st { pending_joins = st.pending_joins ++ addr ∷ [] }, ControlResponse.ok)
  dispatch_request now (ControlRequest.leave addr) st =
      (record st { pending_leaves = st.pending_leaves ++ addr ∷ [] }, ControlResponse.ok)
  dispatch_request now ControlRequest.shutdown st =
      (record st { shutdown_requested = true }, ControlResponse.ok)
  dispatch_request now (ControlRequest.register name port metadata) st = (
    record st { membership = register_service P name port metadata st.membership },
    ControlResponse.ok,
  )
  dispatch_request now (ControlRequest.unregister name) st =
      (record st { membership = unregister_service P name st.membership }, ControlResponse.ok)
  dispatch_request now (ControlRequest.lookup name) st = (
    st,
    ControlResponse.services (map (service_entry name) (lookup_service P name st.membership)),
  )
  dispatch_request now ControlRequest.subscribe st = (st, ControlResponse.ok)
