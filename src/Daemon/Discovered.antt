-- ===== src/Daemon/Discovered.antt =====
-- What becomes of the addresses that the discovery plugins send: the task in `run` of
-- crates/pmd/src/daemon/mod.rs.
pub mod Connect
use mathlib.Core.Logic.{inl, inr}
use mathlib.Core.Path.{subst}
use pmd.Prelude.{
  ◌≤◌, eq_iff, String, ◌≡◌, refl, sym, ◌∙◌, ap, Bool, true, false, ◌||◌, List, [], ◌∷◌, ◌++◌, arith,
  any, eq_refl, Bool-cases,
}
use pmd.Prelude.Sets.{
  count, contains, contains-append, count-append, count-contains, contains-count, contains_behind,
}
use pmd.Platform.{Platform}
use pmd.Daemon.{DaemonState, forward_discovered, forward_all}

module _ (P : Platform) where
  open P use {Addr, addr_eq, addr_eq_iff, addr_to_string}

  -- An address that is discovered while it is neither connected nor queued is put behind what
  -- is queued, stands there once, and its next discovery changes nothing.
  pub forward_discovered-once :
      (a : Addr) (st : DaemonState P)
      → any (λ e. addr_eq e.1.addr a) st.peers ≡ false
      → count (addr_to_string a) st.pending_joins ≡ 0
      → ((forward_discovered P a st).pending_joins ≡ st.pending_joins ++ addr_to_string a ∷ [])
        × (count (addr_to_string a) (forward_discovered P a st).pending_joins ≡ 1)
        × (forward_discovered P a (forward_discovered P a st) ≡ forward_discovered P a st)
  unfolding forward_discovered
  forward_discovered-once a st free fresh =
      let k = addr_to_string a in
      let queued : DaemonState P = record st { pending_joins = st.pending_joins ++ k ∷ [] } in
      let first : forward_discovered P a st ≡ queued =
        ground (arith, free, contains-count k st.pending_joins fresh) in
      let again : forward_discovered P a queued ≡ queued =
        ground (arith, free, contains_behind k st.pending_joins) in
      (
        ap (λ s. s.pending_joins) first,
        ap (λ s. count k s.pending_joins) first
            ∙ count-append k st.pending_joins (k ∷ [])
            ∙ ground (arith, fresh, eq_refl k),
        ap (forward_discovered P a) first ∙ again ∙ sym first,
      )

  abbrev pub is_connected : Addr → DaemonState P → Bool
  is_connected a st = any (λ e. addr_eq e.1.addr a) st.peers

  abbrev pub is_queued : Addr → DaemonState P → Bool
  is_queued a st = contains (addr_to_string a) st.pending_joins

  -- Nothing stands twice in the queue.
  abbrev pub Once : DaemonState P → Type 0
  Once st = (k : String) → count k st.pending_joins ≤ 1

  forward_discovered-Once :
      (a : Addr) (st : DaemonState P) → Once st → Once (forward_discovered P a st)
  unfolding forward_discovered
  forward_discovered-Once a st once k = ground (
    arith,
    once k,
    count-append k st.pending_joins (addr_to_string a ∷ []),
    count-contains k st.pending_joins,
    eq_iff (addr_to_string a) k,
  )

  forward_discovered-peers :
      (a : Addr) (st : DaemonState P) → (forward_discovered P a st).peers ≡ st.peers
  unfolding forward_discovered
  forward_discovered-peers a st = ground arith

  forward_discovered-keeps :
      (a b : Addr) (st : DaemonState P)
      → is_queued b st ≡ true
      → is_queued b (forward_discovered P a st) ≡ true
  unfolding forward_discovered
  forward_discovered-keeps a b st h =
      ground (arith, contains-append (addr_to_string b) st.pending_joins (addr_to_string a ∷ []))

  forward_discovered-handled :
      (a : Addr) (st : DaemonState P)
      → (is_connected a st || is_queued a (forward_discovered P a st)) ≡ true
  unfolding forward_discovered
  forward_discovered-handled a st =
      ground (arith, contains_behind (addr_to_string a) st.pending_joins)

  forward_all-keeps :
      (addrs : List Addr) (b : Addr) (st : DaemonState P)
      → is_queued b st ≡ true
      → is_queued b (forward_all P addrs st) ≡ true
  unfolding forward_all
  forward_all-keeps [] b st h = h
  forward_all-keeps (a ∷ addrs) b st h =
      forward_all-keeps addrs b _ (forward_discovered-keeps a b st h)

  forward_all-peers :
      (addrs : List Addr) (st : DaemonState P) → (forward_all P addrs st).peers ≡ st.peers
  unfolding forward_all
  forward_all-peers [] st = refl
  forward_all-peers (a ∷ addrs) st = forward_all-peers addrs _ ∙ forward_discovered-peers a st

  distinct : (addrs : List Addr) (st : DaemonState P) → Once st → Once (forward_all P addrs st)
  unfolding forward_all
  distinct [] st once = once
  distinct (a ∷ addrs) st once = distinct addrs _ (forward_discovered-Once a st once)

  forward_all-handled :
      (addrs : List Addr) (b : Addr) (st : DaemonState P)
      → any (λ a. addr_eq a b) addrs ≡ true
      → (is_connected b st || is_queued b (forward_all P addrs st)) ≡ true
  unfolding forward_all
  forward_all-handled [] b st h = absurd (ground (arith, h))
  forward_all-handled (a ∷ addrs) b st h =
      let st' = forward_discovered P a st in
      elim (Bool-cases (addr_eq a b)) [
        | inl same ↦
            let first : (is_connected b st || is_queued b st') ≡ true =
              subst (λ x. (is_connected x st || is_queued x st') ≡ true) ((addr_eq_iff a b).0 same)
                (forward_discovered-handled a st) in
            ground (arith, first, forward_all-keeps addrs b st')
        | inr other ↦
            let later = forward_all-handled addrs b st' (ground (arith, h, other)) in
            ap
              (λ peers.
                any (λ e. addr_eq e.1.addr b) peers || is_queued b (forward_all P addrs st'))
              (sym (forward_discovered-peers a st))
            ∙ later
      ]

  -- If nothing stands twice in the queue, then, when the task has taken addresses from the channel, each
  -- of them is connected or queued, still nothing stands twice in the queue, and the peers are as they
  -- were.
  pub forward_all-Once :
      (addrs : List Addr) (b : Addr) (st : DaemonState P)
      → Once st
      → any (λ a. addr_eq a b) addrs ≡ true
      → Once (forward_all P addrs st)
        × ((is_connected b st || is_queued b (forward_all P addrs st)) ≡ true)
        × ((forward_all P addrs st).peers ≡ st.peers)
  forward_all-Once addrs b st once named =
      (distinct addrs st once, forward_all-handled addrs b st named, forward_all-peers addrs st)
