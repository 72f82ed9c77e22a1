-- ===== src/Daemon/Discovered/Connect.antt =====
-- From a beacon to a connection: the broadcast plugin (crates/pmd-broadcast/src/plugin.rs), the task that takes
-- its addresses, and the main loop of crates/pmd/src/daemon/mod.rs.
use pmd.Prelude.{
  ℕ, ◌≤◌, ◌≡◌, refl, ◌∙◌, ap, true, false, some, List, [], ◌∷◌, ◌++◌, arith, length, filter_map,
  filter_map-append, ◌==◌,
}
use pmd.Platform.{Platform}
use pmd.Discovery.{NodeInfo}
use pmd.Discovery.Broadcast.{BeaconCodec, Session, Turn, start}
use pmd.Discovery.Broadcast.Beacons.{beacon}
use pmd.Discovery.Broadcast.Air.{Air, only, start-Air}
use pmd.Daemon.{DaemonState, tick, main_step, process_tick, forward_discovered, forward_all}
use pmd.Daemon.Discovered.{is_connected, is_queued}

module _ (P : Platform) where
  open P use {addr_to_string, addr_parse, addr_parse-to_string}

  forward_all-new :
      (a : P.Addr) (st : DaemonState P)
      → is_connected P a st ≡ false
      → is_queued P a st ≡ false
      → forward_all P (a ∷ []) st
        ≡ record st { pending_joins = st.pending_joins ++ addr_to_string a ∷ [] }
  unfolding forward_all forward_discovered
  forward_all-new a st free fresh = ground (arith, free, fresh)

  tick-joins :
      (st : DaemonState P)
      → st.shutdown_requested ≡ false
      → ((main_step P tick st).1 ≡ filter_map addr_parse st.pending_joins)
        × ((main_step P tick st).2 ≡ true)
  unfolding main_step process_tick
  tick-joins st on = rw on (refl, refl)

  -- A daemon on a network with one neighbour, whose plugin hears a beacon of the neighbour, once or more
  -- often: what the plugin reports makes the next tick of the main loop spawn one connecting task for
  -- the neighbour's address, behind those for what was queued before, if that address is neither
  -- connected nor queued then, and no shutdown was requested. The ids of the two differ, and both
  -- beacons are printed in at most 1024 bytes.
  pub tick-neighbour :
      (codec : BeaconCodec P) (me other : NodeInfo P) (own bytes : List ℕ)
      (turns turns' : List Turn) (s : Session P) (st : DaemonState P)
      → (other.node_id == me.node_id) ≡ false
      → codec.to_vec (beacon P codec me) ≡ some own
      → codec.to_vec (beacon P codec other) ≡ some bytes
      → length own ≤ 1024
      → length bytes ≤ 1024
      → start P codec true (only P codec other) turns' ≡ some s
      → Air own s.sent turns true
      → is_connected P other.addr st ≡ false
      → is_queued P other.addr st ≡ false
      → st.shutdown_requested ≡ false
      → (t : Session P) × (start P codec true (only P codec me) turns ≡ some t)
        × ((main_step P tick (forward_all P t.discovered_tx st)).1
            ≡ filter_map addr_parse st.pending_joins ++ other.addr ∷ [])
        × ((main_step P tick (forward_all P t.discovered_tx st)).2 ≡ true)
  tick-neighbour codec me other own bytes turns turns' s st ne print_own print_other short_own
        short_other started air free fresh on =
      let (t, e, found) =
        start-Air P codec me other own bytes turns turns' s true ne print_own print_other short_own
          short_other started air in
      let queued : DaemonState P = record st {
        pending_joins = st.pending_joins ++ addr_to_string other.addr ∷ [];
      } in
      let forwarded : forward_all P t.discovered_tx st ≡ queued =
        ap (λ addrs. forward_all P addrs st) found ∙ forward_all-new other.addr st free fresh in
      let (joins, goes_on) = tick-joins queued on in
      (
        t,
        e,
        ap (λ s. (main_step P tick s).1) forwarded
            ∙ joins
            ∙ filter_map-append addr_parse st.pending_joins (addr_to_string other.addr ∷ [])
            ∙ ap (λ l. filter_map addr_parse st.pending_joins ++ l)
                (ground (arith, addr_parse-to_string other.addr)),
        ap (λ s. (main_step P tick s).2) forwarded ∙ goes_on,
      )
