-- ===== src/Prelude/Maps.antt =====
-- `HashMap<String, V>` and `serde_json::Map`: association lists. Iteration goes through the list in
-- its order; insertion replaces the value of a key that is there.
use Prim.Native.String.{String}
use text.Mathlib.Text.{◌==◌}
use text.Mathlib.TextEquality.{eq_iff}
use mathlib.Core.Path.{◌≡◌, refl}
use mathlib.Core.Bool.{Bool, true, false}
use mathlib.Core.Option.{Option, none, some}
use mathlib.Core.List.{List, [], ◌∷◌}
use native.Mathlib.Omega.{arith}
use pmd.Prelude.Tests.{if◌then◌else◌}
use pmd.Prelude.Lists.{filter_map}

abbrev pub Map {ℓ} : Type ℓ → Type ℓ
Map V = List (String × V)

module _ {ℓ} {V : Type ℓ} where
  abbrev pub lookup : String → Map V → Option V
  lookup k [] = none
  lookup k ((j, v) ∷ m) = if j == k then some v else lookup k m

  abbrev pub contains_key : String → Map V → Bool
  contains_key k m = elim (lookup k m) [ none ↦ false | some _ ↦ true ]

  abbrev pub insert : String → V → Map V → Map V
  insert k v [] = (k, v) ∷ []
  insert k v ((j, w) ∷ m) = if j == k then (k, v) ∷ m else (j, w) ∷ insert k v m

  abbrev pub remove : String → Map V → Map V
  remove k [] = []
  remove k ((j, v) ∷ m) = let rest = remove k m in if j == k then rest else (j, v) ∷ rest

  -- `get_mut` and an update of what it points at.
  abbrev pub update : String → (V → V) → Map V → Map V
  update k f [] = []
  update k f ((j, v) ∷ m) = if j == k then (j, f v) ∷ m else (j, v) ∷ update k f m

  -- No key stands twice.
  abbrev pub Distinct : Map V → Type ℓ
  Distinct [] = Unit {ℓ}
  Distinct ((k, v) ∷ m) = (lookup k m ≡ none) × Distinct m

  pub lookup-insert :
      (k j : String) (v : V) (m : Map V)
      → lookup j (insert k v m) ≡ (if k == j then some v else lookup j m)
  lookup-insert k j v [] = refl
  lookup-insert k j v ((i, w) ∷ m) =
      ground (arith, eq_iff k j, eq_iff i k, eq_iff i j, lookup-insert k j v m)

  pub lookup-remove :
      (k j : String) (m : Map V) → lookup j (remove k m) ≡ (if k == j then none else lookup j m)
  lookup-remove k j [] = ground arith
  lookup-remove k j ((i, w) ∷ m) =
      ground (arith, eq_iff k j, eq_iff i k, eq_iff i j, lookup-remove k j m)

  pub lookup-update :
      (k j : String) (f : V → V) (m : Map V)
      → lookup j (update k f m)
        ≡ (if k == j then (elim (lookup j m) [ none ↦ none | some v ↦ some (f v) ]) else lookup j m)
  lookup-update k j f [] = ground arith
  lookup-update k j f ((i, w) ∷ m) =
      ground (arith, eq_iff k j, eq_iff i k, eq_iff i j, lookup-update k j f m)

module _ {κ} {W : Type κ} (key : W → String) where
  -- The first element with a key, in a list whose elements carry their keys.
  abbrev pub find_key : String → List W → Option W
  find_key k [] = none
  find_key k (w ∷ ws) = if key w == k then some w else find_key k ws

module _ {ℓ κ} {V : Type ℓ} {W : Type κ} where
  abbrev pub apply_at : (String × V → Option W) → String → Option V → Option W
  apply_at f k none = none
  apply_at f k (some v) = f (k, v)

  -- A pass over a map's entries that keeps or drops each one finds for a key what it makes of that
  -- key's entry.
  pub find_key-filter_map :
      (key : W → String) (f : String × V → Option W)
      → ((j : String) (v : V) (w : W) → f (j, v) ≡ some w → key w ≡ j)
      → (k : String) (m : Map V) → Distinct m
      → find_key key k (filter_map f m) ≡ apply_at f k (lookup k m)
  find_key-filter_map key f keyed k [] d = refl
  find_key-filter_map key f keyed k ((j, v) ∷ m) d =
      go (f (j, v)) refl (find_key-filter_map key f keyed k m d.1)
    where
      go :
          (o : Option W)
          → f (j, v) ≡ o
          → find_key key k (filter_map f m) ≡ apply_at f k (lookup k m)
          → find_key key k (elim o [ none ↦ filter_map f m | some w ↦ w ∷ filter_map f m ])
            ≡ apply_at f k (lookup k ((j, v) ∷ m))
      go none e ih = ground (arith, eq_iff j k, e, d.0, ih)
      go (some w) e ih = ground (arith, eq_iff j k, eq_iff (key w) k, e, keyed j v w e, ih)
