-- ===== src/Daemon/System/Slots.antt =====
-- What the operations of crates/pmd/src/daemon do to the handle under one id.
use pmd.Prelude.{
  ◌≡◌, ◌∙◌, String, refl, Bool, true, false, Option, none, some, List, [], ◌∷◌, if◌then◌else◌, ◌==◌,
}
use pmd.Prelude.Maps.{Map, lookup, remove, update, lookup-remove, lookup-update}
use pmd.Platform.{Platform}
use pmd.Daemon.{PeerHandle, signal_all, remove_all}
use pmd.Daemon.Peers.{signalled, lookup-signal_all}
use pmd.Daemon.System.{SamePeer}

module _ (P : Platform) where
  -- The handle stays that of the same peer, or goes where it may; none comes.
  abbrev pub Kept : Bool → Option (PeerHandle P) → Option (PeerHandle P) → Type 0
  Kept may_go none none = Unit {0}
  Kept may_go none (some h) = ⊥
  Kept may_go (some h) none = may_go ≡ true
  Kept may_go (some h) (some h') = SamePeer P h h'

  pub Kept-refl : (b : Bool) (o : Option (PeerHandle P)) → Kept b o o
  Kept-refl b none = tt
  Kept-refl b (some h) = (refl, refl)

  Kept-trans : (b : Bool) (o p q : Option (PeerHandle P)) → Kept b o p → Kept b p q → Kept b o q
  Kept-trans b none none q f g = g
  Kept-trans b (some h) none none f g = f
  Kept-trans b (some h) (some i) none f g = g
  Kept-trans b (some h) (some i) (some j) f g = (g.0 ∙ f.0, g.1 ∙ f.1)
  Kept-trans b none (some i) q f g = absurd f
  Kept-trans b (some h) none (some j) f g = absurd g

  -- Of all handles, of which some may go.
  abbrev pub Keeps : (String → Bool) → Map (PeerHandle P) → Map (PeerHandle P) → Type 0
  Keeps may_go m m' = (k : String) → Kept (may_go k) (lookup k m) (lookup k m')

  pub Keeps-refl : (b : String → Bool) (m : Map (PeerHandle P)) → Keeps b m m
  Keeps-refl b m k = Kept-refl (b k) (lookup k m)

  pub Keeps-trans :
      (b : String → Bool) (m n r : Map (PeerHandle P)) → Keeps b m n → Keeps b n r → Keeps b m r
  Keeps-trans b m n r f g k = Kept-trans (b k) (lookup k m) (lookup k n) (lookup k r) (f k) (g k)

  pub remove-Keeps :
      (b : String → Bool) (j : String) (m : Map (PeerHandle P))
      → ((k : String) → (j == k) ≡ true → b k ≡ true)
      → Keeps b m (remove j m)
  remove-Keeps b j m may k = rw (lookup-remove j k m) (go (j == k) refl (lookup k m))
    where
      go :
          (c : Bool)
          → (j == k) ≡ c
          → (o : Option (PeerHandle P)) → Kept (b k) o (if c then none else o)
      go true e none = tt
      go true e (some h) = may k e
      go false e o = Kept-refl (b k) o

  pub remove_all-Keeps :
      (ks : List String) (m : Map (PeerHandle P)) → Keeps (λ _. true) m (remove_all P ks m)
  unfolding remove_all
  remove_all-Keeps [] m = Keeps-refl _ m
  remove_all-Keeps (j ∷ ks) m =
      Keeps-trans _ m (remove j m) (remove_all P ks (remove j m)) (remove-Keeps _ j m (λ k e. refl))
        (remove_all-Keeps ks (remove j m))

  pub update-Keeps :
      (b : String → Bool) (j : String) (f : PeerHandle P → PeerHandle P)
      → ((h : PeerHandle P) → SamePeer P h (f h))
      → (m : Map (PeerHandle P)) → Keeps b m (update j f m)
  update-Keeps b j f same m k = rw (lookup-update j k f m) (go (j == k) (lookup k m))
    where
      go :
          (c : Bool) (o : Option (PeerHandle P))
          → Kept (b k) o (if c then (elim o [ none ↦ none | some h ↦ some (f h) ]) else o)
      go true none = tt
      go true (some h) = same h
      go false o = Kept-refl (b k) o

  pub signal_all-Keeps : (b : String → Bool) (m : Map (PeerHandle P)) → Keeps b m (signal_all P m)
  signal_all-Keeps b m k = rw (lookup-signal_all P k m) (go (lookup k m))
    where
      go : (o : Option (PeerHandle P)) → Kept (b k) o (signalled P o)
      go none = tt
      go (some h) = (refl, refl)
