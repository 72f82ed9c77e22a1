-- ===== src/Prelude/Sets.antt =====
-- `HashSet<String>`: a list in which `insert` puts a text once.
use Prim.Native.Nat.{ℕ, ◌+◌}
use Prim.Native.String.{String}
use text.Mathlib.Text.{◌==◌}
use text.Mathlib.TextEquality.{eq_iff}
use text.Mathlib.TextPositions.{eq_refl}
use mathlib.Core.Path.{◌≡◌, refl}
use mathlib.Core.Bool.{Bool, true, false, ◌||◌}
use mathlib.Core.List.{List, [], ◌∷◌, ◌++◌}
use native.Mathlib.Omega.{arith}
use pmd.Prelude.Tests.{if◌then◌else◌}
use pmd.Prelude.Lists.{any}

-- How often a text stands in a list.
abbrev pub count : String → List String → ℕ
count k [] = 0
count k (x ∷ xs) = let rest = count k xs in if x == k then 1 + rest else rest

abbrev pub contains : String → List String → Bool
contains k = any (λ a. a == k)

-- The set afterwards, and whether the text is new.
abbrev pub insert_new : String → List String → List String × Bool
insert_new k s = if contains k s then (s, false) else (s ++ k ∷ [], true)

pub count-append : (k : String) (xs ys : List String) → count k (xs ++ ys) ≡ count k xs + count k ys
count-append k [] ys = omega arith
count-append k (x ∷ xs) ys = ground (arith, count-append k xs ys)

pub contains-count : (k : String) (xs : List String) → count k xs ≡ 0 → contains k xs ≡ false
contains-count k [] h = refl
contains-count k (x ∷ xs) h = ground (arith, contains-count k xs)

pub count-contains : (k : String) (xs : List String) → contains k xs ≡ false → count k xs ≡ 0
count-contains k [] h = refl
count-contains k (x ∷ xs) h = ground (arith, count-contains k xs)

pub contains-append :
    (k : String) (xs ys : List String) → contains k (xs ++ ys) ≡ (contains k xs || contains k ys)
contains-append k [] ys = refl
contains-append k (x ∷ xs) ys = ground (arith, contains-append k xs ys)

pub contains_behind : (k : String) (xs : List String) → contains k (xs ++ k ∷ []) ≡ true
contains_behind k [] = ground (arith, eq_refl k)
contains_behind k (x ∷ xs) = ground (arith, contains_behind k xs)

-- Insertion counts a text once, and the others as before.
pub count-insert_new :
    (j k : String) (s : List String)
    → count j (insert_new k s).0
      ≡ (if k == j then (if contains k s then count j s else 1) else count j s)
count-insert_new j k s = ground (arith, eq_iff k j, count-append j s (k ∷ []), count-contains k s)
