-- ===== src/Daemon/Control/Effects.antt =====
-- What requests on the control socket lead to: crates/pmd/src/daemon/control.rs together with the
-- main loop of crates/pmd/src/daemon/mod.rs.
use pmd.Prelude.{
  ℕ, String, ◌≡◌, ◌∙◌, ap, refl, true, false, List, [], ◌∷◌, ◌++◌, arith, filter_map,
  filter_map-append,
}
use pmd.Platform.{Platform}
use pmd.Protocol.{ControlRequest}
use pmd.Daemon.{DaemonState, tick, main_step, process_tick, leave_peer, leave_all}
use pmd.Daemon.Control.{dispatch_request}

module _ (P : Platform) where
  open P use {Addr, addr_parse, addr_to_string, addr_parse-to_string}

  pending_joins-leave_all :
      (ls : List String) (st : DaemonState P) → (leave_all P ls st).pending_joins ≡ st.pending_joins
  unfolding leave_all
  pending_joins-leave_all [] st = refl
  pending_joins-leave_all (l ∷ ls) st = pending_joins-leave_all ls (leave_peer P l st)

  -- A request to join, with the next tick of the main loop behind it, leads to one more connecting
  -- task, behind those for the addresses that were queued before: for the address of the request.
  -- Nothing is left in the queue, and the main loop goes on; if no shutdown was requested before.
  pub main_step-join :
      (now : ℕ) (st : DaemonState P) (a : Addr)
      → st.shutdown_requested ≡ false
      → let after = (dispatch_request P now (ControlRequest.join (addr_to_string a)) st).0 in
        ((main_step P tick after).1 ≡ filter_map addr_parse st.pending_joins ++ a ∷ [])
        × ((main_step P tick after).0.pending_joins ≡ [])
        × ((main_step P tick after).2 ≡ true)
  unfolding dispatch_request main_step process_tick
  main_step-join now st a on = rw on (
    filter_map-append addr_parse st.pending_joins (addr_to_string a ∷ [])
        ∙ ap (λ l. filter_map addr_parse st.pending_joins ++ l)
            (ground (arith, addr_parse-to_string a)),
    pending_joins-leave_all st.pending_leaves _,
    refl,
  )
