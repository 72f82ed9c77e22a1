-- ===== src/Daemon/MainLoop.antt =====
-- How the main loop of crates/pmd/src/daemon/mod.rs ends.
pub mod Liveness
use pmd.Prelude.{
  String, ◌≡◌, ◌≢◌, refl, sym, ◌∙◌, ap, Bool, true, false, none, some, List, [], ◌∷◌, ◌++◌, arith,
  if◌then◌else◌,
}
use pmd.Platform.{Platform, IsSegment}
use pmd.Membership.{Membership, members, remove_node}
use pmd.Membership.Views.{find_node}
use pmd.Membership.Nodes.{node_id-remove_node, remove_node-members_self}
use pmd.Daemon.{
  DaemonState, MainEvent, sigint, tick, gossip_tick, mesh_tick, begin_shutdown, process_tick,
  leave_peer, leave_all, gossip_sync_random_peer, mesh_expand_random_peer, main_step, main_loop,
  Turn,
}

module _ (P : Platform) where
  -- A turn that leaves a requested shutdown requested.
  abbrev pub KeepRequest : List (Turn P) → Type 0
  KeepRequest [] = Unit
  KeepRequest ((others, event) ∷ rest) =
      ((st : DaemonState P) → st.shutdown_requested ≡ true → (others st).shutdown_requested ≡ true)
      × KeepRequest rest

  requested-leave_all :
      (ls : List String) (st : DaemonState P)
      → (leave_all P ls st).shutdown_requested ≡ st.shutdown_requested
  unfolding leave_all
  requested-leave_all [] st = refl
  requested-leave_all (l ∷ ls) st = requested-leave_all ls (leave_peer P l st)

  pub requested-main_step :
      (event : MainEvent) (st : DaemonState P)
      → (main_step P event st).0.shutdown_requested ≡ st.shutdown_requested
  unfolding main_step process_tick gossip_sync_random_peer mesh_expand_random_peer
  requested-main_step sigint st = refl
  requested-main_step tick st = ground (
    arith,
    requested-leave_all st.pending_leaves (record st { pending_joins = []; pending_leaves = [] }),
  )
  requested-main_step (gossip_tick pick) st = ground arith
  requested-main_step (mesh_tick pick) st = ground arith

  -- Once a shutdown is requested, the next tick ends the main loop, whatever other events come
  -- before it, if the other tasks leave the request standing.
  pub main_loop-requested :
      (grace others : DaemonState P → DaemonState P) (before after : List (Turn P))
      (st : DaemonState P)
      → st.shutdown_requested ≡ true
      → KeepRequest (before ++ (others, tick) ∷ after)
      → main_loop P grace (before ++ (others, tick) ∷ after) st ≢ none
  unfolding main_loop main_step
  main_loop-requested grace others [] after st h keep e = ground (arith, keep.0 st h)
  main_loop-requested grace others ((o, event) ∷ before) after st h keep e = go (
      main_loop-requested grace others before after (main_step P event (o st)).0
        (requested-main_step event (o st) ∙ keep.0 st h) keep.1)
    where
      go :
          (main_loop P grace (before ++ (others, tick) ∷ after) (main_step P event (o st)).0 ≢ none)
          → ⊥
      go rec = ground (arith, rec)

  removed :
      (m n : Membership P)
      → n ≡ remove_node P m.node_id m
      → IsSegment n.node_id
      → find_node P n.node_id (members P n) ≡ none
  removed m n e seg =
      let same : n.node_id ≡ m.node_id =
        ap (λ x. x.node_id) e ∙ node_id-remove_node P m.node_id m in
      ap (λ x. find_node P n.node_id (members P x)) e
      ∙ ap (λ i. find_node P i (members P (remove_node P m.node_id m))) same
      ∙ remove_node-members_self P m m.node_id (rw (← same) seg)

  ending :
      (s t st' : DaemonState P)
      → t.membership ≡ (begin_shutdown P s).membership
      → IsSegment st'.membership.node_id
      → st' ≡ record t { shutdown = true }
      → (st'.shutdown ≡ true)
        × (find_node P st'.membership.node_id (members P st'.membership) ≡ none)
  unfolding begin_shutdown
  ending s t st' kept seg e = (
    ap (λ x. x.shutdown) e,
    removed s.membership st'.membership (ap (λ x. x.membership) e ∙ kept) seg,
  )

  -- When the main loop has ended, the node is no member any more in its own state, and the
  -- peers' tasks are cancelled, if its id is one path segment and the last writes of the other
  -- tasks leave the membership alone.
  pub main_loop-leaves :
      (grace : DaemonState P → DaemonState P) (turns : List (Turn P)) (st st' : DaemonState P)
      → ((s : DaemonState P) → (grace s).membership ≡ s.membership)
      → IsSegment st'.membership.node_id
      → main_loop P grace turns st ≡ some st'
      → (st'.shutdown ≡ true)
        × (find_node P st'.membership.node_id (members P st'.membership) ≡ none)
  unfolding main_loop
  main_loop-leaves grace [] st st' keep seg h = cc
  main_loop-leaves grace ((others, event) ∷ rest) st st' keep seg h =
      go (main_step P event (others st)).2
        (main_loop-leaves grace rest (main_step P event (others st)).0 st' keep seg) h
    where
      go :
          (goes_on : Bool)
          → (main_loop P grace rest (main_step P event (others st)).0 ≡ some st'
              → (st'.shutdown ≡ true)
                × (find_node P st'.membership.node_id (members P st'.membership) ≡ none))
          → (if goes_on
              then main_loop P grace rest (main_step P event (others st)).0
              else some (record (grace (begin_shutdown P (main_step P event (others st)).0)) {
                shutdown = true;
              }))
            ≡ some st'
          → (st'.shutdown ≡ true)
            × (find_node P st'.membership.node_id (members P st'.membership) ≡ none)
      go true rec e = rec e
      go false rec e =
          ending (main_step P event (others st)).0
            (grace (begin_shutdown P (main_step P event (others st)).0)) st' (keep _) seg
            (sym (ap (λ o. elim o [ none ↦ st' | some s ↦ s ]) e))
