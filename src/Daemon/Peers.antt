-- ===== src/Daemon/Peers.antt =====
-- The operations of crates/pmd/src/daemon/mod.rs on the map of peers.
use pmd.Prelude.{
  String, ◌≡◌, refl, ◌∙◌, Bool, false, Option, none, some, List, [], ◌∷◌, arith, any, ◌==◌, eq_iff,
  if◌then◌else◌,
}
use pmd.Prelude.Maps.{Map, lookup, Distinct, remove, lookup-remove}
use pmd.Platform.{Platform}
use pmd.Daemon.{PeerHandle, DaemonState, signal, signal_all, peers_at, remove_all, leave_peer}

module _ (P : Platform) where
  open P use {addr_to_string}

  abbrev pub signalled : Option (PeerHandle P) → Option (PeerHandle P)
  signalled none = none
  signalled (some h) = some (signal P h)

  pub lookup-signal_all :
      (k : String) (m : Map (PeerHandle P)) → lookup k (signal_all P m) ≡ signalled (lookup k m)
  unfolding signal_all
  lookup-signal_all k [] = refl
  lookup-signal_all k ((j, h) ∷ m) = ground (arith, lookup-signal_all k m)

  lookup-remove_all :
      (ks : List String) (k : String) (m : Map (PeerHandle P))
      → lookup k (remove_all P ks m) ≡ (if any (λ j. j == k) ks then none else lookup k m)
  unfolding remove_all
  lookup-remove_all [] k m = refl
  lookup-remove_all (j ∷ ks) k m =
      ground (arith, lookup-remove_all ks k (remove j m), lookup-remove j k m)

  -- Whether a peer is at an address.
  abbrev pub is_at : String → Option (PeerHandle P) → Bool
  is_at addr none = false
  is_at addr (some h) = addr_to_string h.addr == addr

  absent-peers_at :
      (addr k : String) (m : Map (PeerHandle P))
      → lookup k m ≡ none
      → any (λ j. j == k) (peers_at P addr m) ≡ false
  unfolding peers_at
  absent-peers_at addr k [] h = refl
  absent-peers_at addr k ((j, p) ∷ m) h = ground (arith, absent-peers_at addr k m)

  any-peers_at :
      (addr k : String) (m : Map (PeerHandle P))
      → Distinct m
      → any (λ j. j == k) (peers_at P addr m) ≡ is_at addr (lookup k m)
  unfolding peers_at
  any-peers_at addr k [] d = refl
  any-peers_at addr k ((j, p) ∷ m) d =
      ground (arith, eq_iff j k, d.0, absent-peers_at addr j m, any-peers_at addr k m d.1)

  -- A leave removes the handles of the peers at its address, and no others, from a map of
  -- peers with distinct keys.
  pub lookup-leave_peer :
      (addr k : String) (st : DaemonState P)
      → Distinct st.peers
      → lookup k (leave_peer P addr st).peers
        ≡ (if is_at addr (lookup k st.peers) then none else lookup k st.peers)
  unfolding leave_peer
  lookup-leave_peer addr k st d =
      lookup-remove_all (peers_at P addr st.peers) k st.peers
      ∙ (rw (any-peers_at addr k st.peers d))
