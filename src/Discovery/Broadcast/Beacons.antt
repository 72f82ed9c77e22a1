-- ===== src/Discovery/Broadcast/Beacons.antt =====
-- What crates/pmd-broadcast/src/plugin.rs reports.
use pmd.Prelude.{
  ℕ, zero, suc, String, ◌≡◌, refl, sym, ◌∙◌, ap, true, false, Option, none, some, List, [], ◌∷◌,
  ◌++◌, map, take, length, ◌≤◌, arith, ◌==◌, eq_iff, eq_refl, if◌then◌else◌, Bool-cases, inl, inr,
}
use mathlib.Core.List.{append_assoc, append-nil}
use pmd.Prelude.Sets.{contains}
use pmd.Platform.{Platform}
use pmd.Discovery.{NodeInfo, DiscoveryContext}
use pmd.Discovery.News.{firsts, Agree, Agree-own, Agree-insert_new}
use pmd.Discovery.Broadcast.{
  Beacon, BeaconCodec, Event, tick, datagram, recv_error, Session, Turn, received, heard, on_event,
  run, start,
}

take_all : (n : ℕ) (xs : List ℕ) → length xs ≤ n → take n xs ≡ xs
take_all zero [] h = refl
take_all zero (x ∷ xs) h = absurd (omega arith)
take_all (suc n) [] h = refl
take_all (suc n) (x ∷ xs) h = ap (◌∷◌ x) (take_all n xs (omega arith))

-- The number of beacons that could be sent before the plugin is stopped.
abbrev pub sends : List Turn → ℕ
sends [] = 0
sends ((false, event) ∷ rest) = 0
sends ((true, tick true) ∷ rest) = suc (sends rest)
sends ((true, tick false) ∷ rest) = sends rest
sends ((true, datagram d) ∷ rest) = sends rest
sends ((true, recv_error) ∷ rest) = sends rest

abbrev pub copies : ℕ → List ℕ → List (List ℕ)
copies zero bytes = []
copies (suc n) bytes = bytes ∷ copies n bytes

module _ (P : Platform) (codec : BeaconCodec P) where
  abbrev name : Beacon P → String
  name b = b.node_id

  abbrev pub to_list {ℓ} : {A : Type ℓ} → Option A → List A
  to_list none = []
  to_list (some a) = a ∷ []

  abbrev pub beacon_of : Event → List (Beacon P)
  beacon_of (tick w) = []
  beacon_of (datagram bytes) = to_list (received P codec bytes)
  beacon_of recv_error = []

  -- The beacons that arrive before the plugin is stopped.
  abbrev pub beacons : List Turn → List (Beacon P)
  beacons [] = []
  beacons ((running, event) ∷ rest) =
      let later = beacon_of event ++ beacons rest in if running then later else []

  abbrev addrs : List (Beacon P) → List P.Addr
  addrs = map (λ b. b.listen_addr)

  heard-Agree :
      (own : String) (b : Beacon P) (s : Session P) (earlier : List String)
      → Agree own s.known_peers earlier
      → Agree own (heard P codec own (some b) s).known_peers (b.node_id ∷ earlier)
  unfolding heard
  heard-Agree own b s earlier agree k ne = ground (
    arith,
    agree k ne,
    Agree-own own s.known_peers earlier b.node_id agree,
    Agree-insert_new own s.known_peers earlier b.node_id agree k ne,
    eq_iff b.node_id own,
    eq_iff b.node_id k,
    eq_iff k own,
    eq_refl b.node_id,
  )

  heard-firsts :
      (own : String) (b : Beacon P) (s : Session P) (earlier : List String) (rest : List (Beacon P))
      → Agree own s.known_peers earlier
      → (heard P codec own (some b) s).discovered_tx
          ++ addrs (firsts name own (b.node_id ∷ earlier) rest)
        ≡ s.discovered_tx ++ addrs (firsts name own earlier (b ∷ rest))
  unfolding heard
  heard-firsts own b s earlier rest agree = elim (Bool-cases (b.node_id == own)) [
    | inl own_true ↦ rw own_true
    | inr own_false ↦ elim (Bool-cases (contains b.node_id s.known_peers)) [
      | inl known ↦ rw (own_false, known, sym (agree b.node_id own_false) ∙ known)
      | inr fresh ↦ rw (
        own_false,
        fresh,
        sym (agree b.node_id own_false) ∙ fresh,
        append_assoc s.discovered_tx (b.listen_addr ∷ [])
            (addrs (firsts name own (b.node_id ∷ earlier) rest)),
      )
    ]
  ]

  -- What is known later, and what is reported, behind one datagram.
  abbrev Reports : String → Option (Beacon P) → Session P → List String → Type 0
  Reports own o s earlier =
      (later : List String) × (Agree own (heard P codec own o s).known_peers later)
      × ((rest : List (Beacon P))
          → (heard P codec own o s).discovered_tx ++ addrs (firsts name own later rest)
            ≡ s.discovered_tx ++ addrs (firsts name own earlier (to_list o ++ rest)))

  heard-Reports :
      (own : String) (o : Option (Beacon P)) (s : Session P) (earlier : List String)
      → Agree own s.known_peers earlier
      → Reports own o s earlier
  unfolding heard
  heard-Reports own none s earlier agree = (earlier, agree, λ rest. refl)
  heard-Reports own (some b) s earlier agree = (
    b.node_id ∷ earlier,
    heard-Agree own b s earlier agree,
    λ rest. heard-firsts own b s earlier rest agree,
  )

  run-firsts :
      (own : String) (bytes : List ℕ) (turns : List Turn) (s : Session P) (earlier : List String)
      → Agree own s.known_peers earlier
      → (run P codec own bytes turns s).discovered_tx
        ≡ s.discovered_tx ++ addrs (firsts name own earlier (beacons turns))
  unfolding run
  run-firsts own bytes [] s earlier agree = sym (append-nil s.discovered_tx)
  run-firsts own bytes ((false, event) ∷ rest) s earlier agree = sym (append-nil s.discovered_tx)
  run-firsts own bytes ((true, tick false) ∷ rest) s earlier agree =
      run-firsts own bytes rest s earlier agree
  run-firsts own bytes ((true, tick true) ∷ rest) s earlier agree =
      run-firsts own bytes rest (on_event P codec own bytes (tick true) s) earlier agree
  run-firsts own bytes ((true, recv_error) ∷ rest) s earlier agree =
      run-firsts own bytes rest s earlier agree
  run-firsts own bytes ((true, datagram d) ∷ rest) s earlier agree =
      let (later, agree_later, e) = heard-Reports own (received P codec d) s earlier agree in
      run-firsts own bytes rest (heard P codec own (received P codec d) s) later agree_later
      ∙ e (beacons rest)

  heard-sent :
      (own : String) (o : Option (Beacon P)) (s : Session P) → (heard P codec own o s).sent ≡ s.sent
  unfolding heard
  heard-sent own none s = refl
  heard-sent own (some b) s = ground arith

  run-sent :
      (own : String) (bytes : List ℕ) (turns : List Turn) (s : Session P)
      → (run P codec own bytes turns s).sent ≡ s.sent ++ copies (sends turns) bytes
  unfolding run
  run-sent own bytes [] s = sym (append-nil s.sent)
  run-sent own bytes ((false, event) ∷ rest) s = sym (append-nil s.sent)
  run-sent own bytes ((true, tick false) ∷ rest) s = run-sent own bytes rest s
  run-sent own bytes ((true, tick true) ∷ rest) s =
      run-sent own bytes rest (on_event P codec own bytes (tick true) s)
      ∙ append_assoc s.sent (bytes ∷ []) (copies (sends rest) bytes)
  run-sent own bytes ((true, recv_error) ∷ rest) s = run-sent own bytes rest s
  run-sent own bytes ((true, datagram d) ∷ rest) s =
      run-sent own bytes rest (heard P codec own (received P codec d) s)
      ∙ ap (λ sent. sent ++ copies (sends rest) bytes) (heard-sent own (received P codec d) s)

  -- The beacon of a node.
  abbrev pub beacon : NodeInfo P → Beacon P
  beacon n = record { node_id = n.node_id; listen_addr = n.addr }

  -- A plugin that could set up its socket, with a beacon that is printed in at most 1024 bytes, reports,
  -- behind what was sent to the channel before, the address of each other node once, that of its first
  -- beacon, in the order of these, and sends nothing but its beacon, which every plugin reads back.
  pub start-reports :
      (ctx : DiscoveryContext P) (turns : List Turn) (bytes : List ℕ)
      → codec.to_vec (beacon ctx.local_node) ≡ some bytes
      → length bytes ≤ 1024
      → (s : Session P) × (start P codec true ctx turns ≡ some s)
        × (s.discovered_tx
            ≡ ctx.discovered_tx ++ addrs (firsts name ctx.local_node.node_id [] (beacons turns)))
        × (s.sent ≡ copies (sends turns) bytes)
        × (received P codec bytes ≡ some (beacon ctx.local_node))
  unfolding start
  start-reports ctx turns bytes printed short =
      let s0 : Session P = record {
        known_peers = [];
        sent = [];
        discovered_tx = ctx.discovered_tx;
      } in
      (
        run P codec ctx.local_node.node_id bytes turns s0,
        rw printed,
        run-firsts ctx.local_node.node_id bytes turns s0 [] (λ k ne. refl),
        run-sent ctx.local_node.node_id bytes turns s0,
        ap codec.from_slice (take_all 1024 bytes short)
            ∙ codec.from_slice-to_vec (beacon ctx.local_node) bytes printed,
      )
