-- ===== src/Daemon/Queues.antt =====
-- What crates/pmd/src/daemon/mod.rs puts into the queue of addresses to connect to.
use mathlib.Core.List.{Memᴰ}
use mathlib.Core.Logic.{◌⊎◌, inl, inr}
use pmd.Prelude.{
  ℕ, zero, suc, ◌≤◌, ◌<◌, ◌≡◌, refl, sym, Bool, true, false, ◌||◌, Option, none, some, List, [],
  ◌∷◌, ◌++◌, arith, any, filter, get_elem?, length, leb, ◌==◌, if◌then◌else◌, ◌%◌, ◌-◌, ◌+◌,
}
use pmd.Prelude.Maps.{contains_key}
use pmd.Platform.{Platform}
use pmd.Membership.{NodeInfo, members}
use pmd.Daemon.{
  DaemonState, choose, queue_join, mesh_target, indirect_nodes, mesh_expand_random_peer,
}

module _ (P : Platform) where
  open P use {Addr, addr_eq, addr_eq_iff, addr_to_string}

  -- What is taken from a filtered list is an element of the list that passes the filter.
  chosen :
      (pick : ℕ) (p : NodeInfo P → Bool) (l : List (NodeInfo P)) (n : NodeInfo P)
      → get_elem? (filter p l) pick ≡ some n
      → Memᴰ n l × (p n ≡ true)
  chosen pick p [] n h = absurd (ground (arith, h))
  chosen pick p (x ∷ xs) n h = go (p x) refl pick (λ i. chosen i p xs n) h
    where
      go :
          (b : Bool)
          → p x ≡ b
          → (i : ℕ) → ((k : ℕ) → get_elem? (filter p xs) k ≡ some n → Memᴰ n xs × (p n ≡ true))
          → get_elem? (if b then x ∷ filter p xs else filter p xs) i ≡ some n
          → Memᴰ n (x ∷ xs) × (p n ≡ true)
      go false e i rec h = let (found, passed) = rec i h in (Memᴰ.tail found, passed)
      go true e zero rec h =
          let same : x ≡ n = ground (arith, h) in (Memᴰ.head (sym same), rw (← same) e)
      go true e (suc i) rec h = let (found, passed) = rec i h in (Memᴰ.tail found, passed)

  -- A member other than this node to which there is no connection.
  abbrev pub IsIndirect : DaemonState P → NodeInfo P → Type 0
  IsIndirect st n =
      Memᴰ n (members P st.membership)
      × ((n.node_id == st.membership.node_id) ≡ false)
      × (contains_key n.node_id st.peers ≡ false)

  abbrev pub queued : DaemonState P → NodeInfo P → Bool
  queued st n = any (λ a. a == addr_to_string n.addr) st.pending_joins

  -- Fewer connections than the target, and than the other members.
  abbrev pub Wanting : DaemonState P → Type 0
  Wanting st =
      (length st.peers < mesh_target P (length (members P st.membership)))
      × (length st.peers + 1 < length (members P st.membership))

  -- What a round of the mesh expansion may do to the queue.
  abbrev pub Expanded : DaemonState P → DaemonState P → Type 0
  Expanded st after =
      ((after ≡ st)
        × ((¬ Wanting st)
            ⊎ ((n : NodeInfo P) → ¬ IsIndirect st n)
            ⊎ ((n : NodeInfo P) × IsIndirect st n × (queued st n ≡ true))))
      ⊎ ((n : NodeInfo P) × IsIndirect st n
          × (queued st n ≡ false)
          × Wanting st
          × (after ≡ record st { pending_joins = st.pending_joins ++ addr_to_string n.addr ∷ [] }))

  get_elem?-none : {A : Type 0} (l : List A) (i : ℕ) → get_elem? l i ≡ none → length l ≤ i
  get_elem?-none [] i h = omega arith
  get_elem?-none (x ∷ xs) zero h = absurd (ground (arith, h))
  get_elem?-none (x ∷ xs) (suc i) h = let rest = get_elem?-none xs i h in omega (arith, rest)

  -- There is a choice from every list that is not empty.
  choose-none : {A : Type 0} (pick : ℕ) (l : List A) → choose P pick l ≡ none → l ≡ []
  choose-none pick [] h = refl
  choose-none pick (x ∷ xs) h =
      let beyond = get_elem?-none (x ∷ xs) (pick % length (x ∷ xs)) h in
      absurd (omega (arith, beyond))

  filter-nil :
      (p : NodeInfo P → Bool) (l : List (NodeInfo P)) (n : NodeInfo P)
      → filter p l ≡ []
      → Memᴰ n l
      → p n ≡ false
  filter-nil p [] n h m = elim m [ ]
  filter-nil p (x ∷ xs) n h (Memᴰ.head e) = rw e (ground (arith, h))
  filter-nil p (x ∷ xs) n h (Memᴰ.tail m) = filter-nil p xs n (ground (arith, h)) m

  -- A round of the mesh expansion puts one address into the queue, behind the others, or changes
  -- nothing. It puts one there only while there are fewer connections than the target, and than the
  -- other members: that of a member other than this node to which there is no connection, and which
  -- is not queued yet. It changes nothing only if there are connections enough, or there is no
  -- such member, or the address of one is queued already.
  pub mesh_expand_random_peer-Expanded :
      (pick : ℕ) (st : DaemonState P) → Expanded st (mesh_expand_random_peer P pick st)
  unfolding mesh_expand_random_peer indirect_nodes
  mesh_expand_random_peer-Expanded pick st =
      go (choose P pick (indirect_nodes P st)) refl (leb (mesh_target P size) direct)
        (leb (size - 1) direct) refl refl
    where
      size : ℕ
      size = length (members P st.membership)

      direct : ℕ
      direct = length st.peers

      queue :
          (n : NodeInfo P)
          → IsIndirect st n
          → Wanting st
          → (b : Bool) → queued st n ≡ b
          → Expanded st (
              if b
              then st
              else record st { pending_joins = st.pending_joins ++ addr_to_string n.addr ∷ [] })
      queue n indirect wanting true h = inl (refl, inr (inr (n, indirect, h)))
      queue n indirect wanting false h = inr (n, indirect, h, wanting, refl)

      go :
          (o : Option (NodeInfo P))
          → choose P pick (indirect_nodes P st) ≡ o
          → (b c : Bool) → leb (mesh_target P size) direct ≡ b
          → leb (size - 1) direct ≡ c
          → Expanded st (
              if b || c
              then st
              else elim o [ none ↦ st | some node ↦ queue_join P (addr_to_string node.addr) st ])
      go o e true c f g = inl (refl, inl (λ w. ground (arith, f, w.0)))
      go o e false true f g = inl (refl, inl (λ w. ground (arith, g, w.1)))
      go none e false false f g =
          let no_one = choose-none pick (indirect_nodes P st) e in
          inl (
            refl,
            inr (
                inl (λ n m.
                  let fails = filter-nil _ (members P st.membership) n no_one m.0 in
                  ground (arith, fails, m.1, m.2))),
          )
      go (some n) e false false f g =
          let (found, passed) =
            chosen (pick % length (indirect_nodes P st)) _ (members P st.membership) n e in
          queue n (found, ground (arith, passed), ground (arith, passed))
            (ground (arith, f), ground (arith, g)) (queued st n) refl
