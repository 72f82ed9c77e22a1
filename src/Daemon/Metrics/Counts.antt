-- ===== src/Daemon/Metrics/Counts.antt =====
-- The metrics of crates/pmd/src/daemon/metrics.rs and the answers of crates/pmd/src/daemon/control.rs.
use pmd.Prelude.{ℕ, ◌+◌, ◌≡◌, refl, ap₂, List, [], ◌∷◌, map, length, arith}
use pmd.Platform.{Platform}
use pmd.Membership.{NodeInfo, members}
use pmd.Protocol.{ControlRequest, ControlResponse, NodeInfoResponse}
use pmd.Daemon.{DaemonState}
use pmd.Daemon.Control.{dispatch_request, node_response, service_of}
use pmd.Daemon.Metrics.{gauges, total}

length-map {ℓ κ} :
    {A : Type ℓ} {B : Type κ} (f : A → B) (xs : List A) → length (map f xs) ≡ length xs
length-map f [] = refl
length-map f (x ∷ xs) = omega (arith, length-map f xs)

module _ (P : Platform) where
  services_total :
      (now : ℕ) (st : DaemonState P) (ns : List (NodeInfo P))
      → total (map (λ n. length n.services) (map (node_response P now st) ns))
        ≡ total (map (λ n. length n.services) ns)
  unfolding node_response
  services_total now st [] = refl
  services_total now st (n ∷ ns) =
      ap₂ ◌+◌ (length-map (service_of P n) n.services) (services_total now st ns)

  -- The metrics agree with the control socket: the answer to `Status` has this node's id and address and
  -- the counts of peers and nodes that the metrics show, and the answer to `Nodes` lists as many nodes
  -- and as many services as they count.
  gauges-dispatch_request :
      (now : ℕ) (st : DaemonState P)
      → let g = gauges P now st in
        ((dispatch_request P now ControlRequest.status st).1
          ≡ ControlResponse.status g.node_id g.listen_addr g.peer_count g.cluster_size)
        × ((ns : List (NodeInfoResponse P)) × ((dispatch_request P now ControlRequest.nodes st).1
              ≡ ControlResponse.nodes ns)
            × (length ns ≡ g.cluster_size)
            × (total (map (λ n. length n.services) ns) ≡ g.service_count))
  unfolding gauges dispatch_request
  gauges-dispatch_request now st =
      let ms = members P st.membership in
      (
        refl,
        (
          map (node_response P now st) ms,
          refl,
          length-map (node_response P now st) ms,
          services_total now st ms,
        ),
      )
