-- ===== src/Discovery/Broadcast/Air.antt =====
-- What the plugin of crates/pmd-broadcast/src/plugin.rs makes of one neighbour on its network.
use mathlib.Core.List.{Memᴰ}
use mathlib.Core.Path.{subst}
use pmd.Prelude.{
  ℕ, zero, suc, ◌≤◌, String, ◌≡◌, refl, ◌∙◌, ap, Bool, true, false, some, List, [], ◌∷◌, arith,
  length, map, ◌==◌, if◌then◌else◌, not, ◌&&◌, eq_refl, eq_iff,
}
use pmd.Prelude.Sets.{contains}
use pmd.Platform.{Platform}
use pmd.Discovery.{NodeInfo, DiscoveryContext}
use pmd.Discovery.News.{firsts}
use pmd.Discovery.Broadcast.{
  Beacon, BeaconCodec, Session, Turn, tick, datagram, recv_error, received, start,
}
use pmd.Discovery.Broadcast.Beacons.{beacon, beacons, sends, copies, start-reports}

-- What a socket brings while the program runs: the timer, errors, this node's own beacons, and what
-- the neighbour sent; the last argument says whether anything of the neighbour is among it.
pub data Air (own : List ℕ) (neighbour : List (List ℕ)) : List Turn → Bool → Type 0 where
  silence : Air own neighbour [] false
  timer :
      (written : Bool) {turns : List Turn} {heard : Bool}
      → Air own neighbour turns heard
      → Air own neighbour ((true, tick written) ∷ turns) heard
  error :
      {turns : List Turn} {heard : Bool}
      → Air own neighbour turns heard
      → Air own neighbour ((true, recv_error) ∷ turns) heard
  echo :
      {turns : List Turn} {heard : Bool}
      → Air own neighbour turns heard
      → Air own neighbour ((true, datagram own) ∷ turns) heard
  word :
      (bytes : List ℕ) {turns : List Turn} {heard : Bool}
      → Memᴰ bytes neighbour
      → Air own neighbour turns heard
      → Air own neighbour ((true, datagram bytes) ∷ turns) true

Mem-copies : (n : ℕ) {bytes own : List ℕ} → Memᴰ bytes (copies n own) → bytes ≡ own
Mem-copies zero m = absurd (elim m [ ])
Mem-copies (suc n) (Memᴰ.head e) = e
Mem-copies (suc n) (Memᴰ.tail m) = Mem-copies n m

module _ (P : Platform) (codec : BeaconCodec P) where
  abbrev name : Beacon P → String
  name b = b.node_id

  module _ (me other : Beacon P) (own bytes : List ℕ) (mine : received P codec own ≡ some me)
      (theirs : received P codec bytes ≡ some other)
      (ne : (other.node_id == me.node_id) ≡ false) where
    abbrev reported : List String → List Turn → List (Beacon P)
    reported earlier turns = firsts name me.node_id earlier (beacons P codec turns)

    reported-echo :
        (earlier : List String) (turns : List Turn)
        → reported earlier ((true, datagram own) ∷ turns) ≡ reported (me.node_id ∷ earlier) turns
    reported-echo earlier turns = rw (mine) (ground (arith, eq_refl me.node_id))

    reported-word :
        (earlier : List String) (turns : List Turn)
        → reported earlier ((true, datagram bytes) ∷ turns) ≡ (
            if contains other.node_id earlier
            then reported (other.node_id ∷ earlier) turns
            else other ∷ reported (other.node_id ∷ earlier) turns)
    reported-word earlier turns = rw (theirs) (ground (arith, ne))

    -- The neighbour is reported once, if it is heard and has not been before.
    pub reported-Air :
        (n : ℕ) (earlier : List String) {turns : List Turn} {heard : Bool}
        → Air own (copies n bytes) turns heard
        → reported earlier turns
          ≡ (if heard && not (contains other.node_id earlier) then other ∷ [] else [])
    reported-Air n earlier silence = refl
    reported-Air n earlier (timer w air) = reported-Air n earlier air
    reported-Air n earlier (error air) = reported-Air n earlier air
    reported-Air n earlier (echo {turns} air) =
        reported-echo earlier turns
        ∙ ground (
          arith,
          reported-Air n (me.node_id ∷ earlier) air,
          ne,
          eq_iff me.node_id other.node_id,
          eq_iff other.node_id me.node_id,
        )
    reported-Air n earlier (word d {turns} m air) = rw (Mem-copies n m) (
        reported-word earlier turns
        ∙ ground (arith, reported-Air n (other.node_id ∷ earlier) air, eq_refl other.node_id))

module _ (P : Platform) (codec : BeaconCodec P) where
  -- A node behind its start.
  abbrev pub only : NodeInfo P → DiscoveryContext P
  only node = record { local_node = node; discovered_tx = [] }

  start-sent :
      (node : NodeInfo P) (turns : List Turn) (bytes : List ℕ) (s : Session P)
      → codec.to_vec (beacon P codec node) ≡ some bytes
      → length bytes ≤ 1024
      → start P codec true (only node) turns ≡ some s
      → s.sent ≡ copies (sends turns) bytes
  start-sent node turns bytes s printed short started =
      let (t, e, found, sent, back) = start-reports P codec (only node) turns bytes printed short in
      let same : s ≡ t = ground (arith, started, e) in rw same sent

  -- Two nodes with different ids, whose beacons are printed in at most 1024 bytes: the plugin of the one
  -- reports the address of the other, once, if it hears a beacon of the other, and else nothing.
  pub start-Air :
      (me other : NodeInfo P) (own bytes : List ℕ) (turns turns' : List Turn) (s : Session P)
      (heard : Bool)
      → (other.node_id == me.node_id) ≡ false
      → codec.to_vec (beacon P codec me) ≡ some own
      → codec.to_vec (beacon P codec other) ≡ some bytes
      → length own ≤ 1024
      → length bytes ≤ 1024
      → start P codec true (only other) turns' ≡ some s
      → Air own s.sent turns heard
      → (t : Session P) × (start P codec true (only me) turns ≡ some t)
        × (t.discovered_tx ≡ (if heard then other.addr ∷ [] else []))
  start-Air me other own bytes turns turns' s heard ne print_own print_other short_own short_other
        started air =
      let (_, _, _, _, theirs) =
        start-reports P codec (only other) turns' bytes print_other short_other in
      let (t, e, found, _, mine) = start-reports P codec (only me) turns own print_own short_own in
      let heard_all =
        subst (λ sent. Air own sent turns heard)
          (start-sent other turns' bytes s print_other short_other started) air in
      (
        t,
        e,
        found
            ∙ ap (map (λ (b : Beacon P). b.listen_addr)) (
                reported-Air P codec (beacon P codec me) (beacon P codec other) own bytes mine
                  theirs ne (sends turns') [] heard_all)
            ∙ addresses heard,
      )
    where
      addresses :
          (h : Bool)
          → map
              (λ (b : Beacon P). b.listen_addr)
              (if h && true then beacon P codec other ∷ [] else [])
            ≡ (if h then other.addr ∷ [] else [])
      addresses true = refl
      addresses false = refl
