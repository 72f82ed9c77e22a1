-- ===== src/Examples/Values.antt =====
-- JSON values of the small platform: objects are lists of entries, read with the first entry of each
-- key.
use pmd.Prelude.{
  ℕ, String, ◌≡◌, refl, ◌∙◌, ap, Bool, true, false, Option, none, some, [], ◌∷◌, arith, ◌==◌,
  eq_iff, if◌then◌else◌,
}
use pmd.Prelude.Maps.{Map, lookup, remove, Distinct, lookup-remove}
use pmd.Platform.{Json, get}

mutual
  pub data Value : Type 0 where
    str : String → Value
    num : ℕ → Value
    obj : Entries → Value

  pub data Entries : Type 0 where
    none_left : Entries
    entry : String → Value → Entries → Entries

abbrev from_map : Map Value → Entries
from_map [] = none_left
from_map ((k, v) ∷ m) = entry k v (from_map m)

abbrev to_map : Entries → Map Value
to_map none_left = []
to_map (entry k v es) = (k, v) ∷ to_map es

abbrev first_only : Map Value → Map Value
first_only [] = []
first_only ((k, v) ∷ m) = (k, v) ∷ remove k (first_only m)

pub to_map-from_map : (m : Map Value) → to_map (from_map m) ≡ m
to_map-from_map [] = refl
to_map-from_map ((k, v) ∷ m) = rw (to_map-from_map m)

pub lookup-first_only : (k : String) (m : Map Value) → lookup k (first_only m) ≡ lookup k m
lookup-first_only k [] = refl
lookup-first_only k ((j, v) ∷ m) =
    ground (arith, lookup-remove j k (first_only m), lookup-first_only k m)

remove-Distinct : (k : String) (m : Map Value) → Distinct m → Distinct (remove k m)
remove-Distinct k [] d = tt
remove-Distinct k ((j, v) ∷ m) d = go (j == k) (remove-Distinct k m d.1)
  where
    go :
        (b : Bool)
        → Distinct (remove k m)
        → Distinct (if b then remove k m else (j, v) ∷ remove k m)
    go true ih = ih
    go false ih = (ground (arith, lookup-remove k j m, d.0), ih)

first_only-Distinct : (m : Map Value) → Distinct (first_only m)
first_only-Distinct [] = tt
first_only-Distinct ((k, v) ∷ m) = (
  ground (arith, lookup-remove k k (first_only m), eq_iff k k),
  remove-Distinct k (first_only m) (first_only-Distinct m),
)

abbrev pub object : Map Value → Value
object m = obj (from_map m)

abbrev pub as_object : Value → Option (Map Value)
as_object (obj es) = some (first_only (to_map es))
as_object _ = none

abbrev as_str : Value → Option String
as_str (str s) = some s
as_str _ = none

abbrev as_u64 : Value → Option ℕ
as_u64 (num n) = some n
as_u64 _ = none

pub as_object-Distinct : (v : Value) {m : Map Value} → as_object v ≡ some m → Distinct m
as_object-Distinct (obj es) {m} e =
    rw (← ap (λ o. elim o as (λ _. Map Value) [ none ↦ m | some x ↦ x ]) e)
      (first_only-Distinct (to_map es))
as_object-Distinct (str s) e = absurd (ground (arith, e))
as_object-Distinct (num n) e = absurd (ground (arith, e))

abbrev pub json : Json
json = record {
  Value = Value;
  object = object;
  string = str;
  number = num;
  as_object = as_object;
  as_str = as_str;
  as_u64 = as_u64;
  as_object-Distinct = as_object-Distinct;
  as_object-object = λ m _. (
    first_only (to_map (from_map m)),
    refl,
    λ k. lookup-first_only k (to_map (from_map m)) ∙ (rw (to_map-from_map m)),
  );
  as_str-string = λ _. refl;
  as_u64-number = λ _ _. refl;
}

pub get-object : (k : String) (m : Map Value) → get json k (object m) ≡ lookup k m
get-object k m = lookup-first_only k (to_map (from_map m)) ∙ (rw (to_map-from_map m))
