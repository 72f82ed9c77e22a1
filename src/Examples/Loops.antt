-- ===== src/Examples/Loops.antt =====
-- The main loop, the queues and the control requests at concrete states.
use pmd.Daemon.Control.Effects.{main_step-join}
use pmd.Daemon.Control.{dispatch_request}
use pmd.Protocol.{ControlRequest}
use pmd.Prelude.{false, ◌≡◌, refl, true, none, some, [], ◌∷◌}
use pmd.Membership.{new, add_node, remove_node, node_services, object_at, members}
use pmd.Membership.Views.{find_node}
use pmd.Daemon
use pmd.Daemon.{
  init, DaemonState, sigint, begin_shutdown, mesh_expand_random_peer, main_loop, main_step,
}
use pmd.Daemon.Queues.{Expanded, mesh_expand_random_peer-Expanded}
use pmd.Daemon.MainLoop.{main_loop-leaves}
use pmd.Daemon.Peer.{register_peer, cleanup}
use pmd.Examples.Toy.{toy}
use pmd.Examples.Cluster.{alice-IsSegment}
use pmd.Examples.Sessions.{config, idle, connected}

abbrev asked : DaemonState toy
asked = record connected { shutdown_requested = true }

abbrev stopped : DaemonState toy
stopped = record (begin_shutdown toy connected) { shutdown = true }

interrupted : main_loop toy (λ s. s) (((λ s. s), sigint) ∷ []) connected ≡ some stopped
unfolding main_loop
interrupted = refl

main_loop-leaves_example :
    (stopped.shutdown ≡ true)
    × (find_node toy stopped.membership.node_id (members toy stopped.membership) ≡ none)
unfolding begin_shutdown remove_node node_services object_at add_node new
main_loop-leaves_example =
    main_loop-leaves toy (λ s. s) (((λ s. s), sigint) ∷ []) connected stopped (λ s. refl)
      alice-IsSegment interrupted

mesh_expand_random_peer-Expanded_example : Expanded toy idle (mesh_expand_random_peer toy 3 idle)
mesh_expand_random_peer-Expanded_example = mesh_expand_random_peer-Expanded toy 3 idle

-- Bob goes, and comes back from another address.
abbrev start : DaemonState toy
start = init toy 5 "alice" "10.0.0.1:4369" []

abbrev joined : DaemonState toy
joined = register_peer toy config "bob" "10.0.0.2:4369" (false, false) start

abbrev gone : DaemonState toy
gone = cleanup toy "bob" "10.0.0.2:4369" joined

abbrev moved : DaemonState toy
moved = register_peer toy config "bob" "10.0.0.3:4369" (true, false) gone

main_step-join_example :
    let after = (dispatch_request toy 9 (ControlRequest.join "10.0.0.7:4369") connected).0 in
    ((main_step toy Daemon.tick after).1 ≡ "10.0.0.7:4369" ∷ [])
    × ((main_step toy Daemon.tick after).0.pending_joins ≡ [])
    × ((main_step toy Daemon.tick after).2 ≡ true)
main_step-join_example = main_step-join toy 9 connected "10.0.0.7:4369" refl
