-- ===== src/Examples/Log/Bytes.antt =====
-- Bytes for JSON values and for writes, and back.
use Prim.Native.Nat.{compare, Ordering}
use Prim.Native.Char.{Char, char, code, IsLt}
use pmd.Prelude.{
  ℕ, zero, suc, ◌+◌, ◌≤◌, String, ◌≡◌, refl, ap, Option, none, some, List, [], ◌∷◌, length, arith,
}
use pmd.Examples.Values.{Value, Entries, str, num, obj, none_left, entry}

infixl 5 ◌>>=◌
abbrev ◌>>=◌ {ℓ κ} : {A : Type ℓ} {B : Type κ} → Option A → (A → Option B) → Option B
none >>= f = none
some a >>= f = f a

-- `IsScalar` as a type of three comparisons, and its decision.
abbrev IsBelow : Ordering → Ordering → Type 0
IsBelow Ordering.lt o = IsLt o
IsBelow Ordering.eq o = ⊥
IsBelow Ordering.gt o = ⊥

abbrev IsAllowed : Ordering → Ordering → Ordering → Type 0
IsAllowed Ordering.lt o p = Unit
IsAllowed Ordering.eq o p = IsBelow o p
IsAllowed Ordering.gt o p = IsBelow o p

below : (o p : Ordering) → Option (IsBelow o p)
below Ordering.lt Ordering.lt = some tt
below Ordering.lt Ordering.eq = none
below Ordering.lt Ordering.gt = none
below Ordering.eq p = none
below Ordering.gt p = none

allowed : (o p q : Ordering) → Option (IsAllowed o p q)
unfolding below
allowed Ordering.lt p q = some tt
allowed Ordering.eq p q = below p q
allowed Ordering.gt p q = below p q

below-some : (o p : Ordering) (h : IsBelow o p) → below o p ≡ some h
unfolding below
below-some Ordering.lt Ordering.lt h = refl
below-some Ordering.lt Ordering.eq h = absurd h
below-some Ordering.lt Ordering.gt h = absurd h
below-some Ordering.eq p h = absurd h
below-some Ordering.gt p h = absurd h

allowed-some : (o p q : Ordering) (h : IsAllowed o p q) → allowed o p q ≡ some h
unfolding allowed
allowed-some Ordering.lt p q h = refl
allowed-some Ordering.eq p q h = below-some p q h
allowed-some Ordering.gt p q h = below-some p q h

from_code : ℕ → Option Char
from_code n =
    allowed (compare n 55296) (compare 57343 n) (compare n 1114112) >>= (λ h. some (char n h))

from_code-code : (c : Char) → from_code (code c) ≡ some c
unfolding from_code
from_code-code (char n h) =
    ap (λ o. o >>= (λ h. some (char n h)))
      (allowed-some (compare n 55296) (compare 57343 n) (compare n 1114112) h)

unfoldable pub put_string : String → List ℕ → List ℕ
put_string String.[] rest = 0 ∷ rest
put_string (String.◌∷◌ c s) rest = suc (code c) ∷ put_string s rest

get_string : List ℕ → Option (String × List ℕ)
get_string [] = none
get_string (zero ∷ rest) = some ("", rest)
get_string (suc n ∷ rest) =
    from_code n >>= (λ c. get_string rest >>= (λ r. some (String.◌∷◌ c r.0, r.1)))

get-put_string : (s : String) (rest : List ℕ) → get_string (put_string s rest) ≡ some (s, rest)
unfolding put_string get_string
get-put_string String.[] rest = refl
get-put_string (String.◌∷◌ c s) rest =
    rw (from_code-code c)
      (ap (λ o. o >>= (λ r. some (String.◌∷◌ c r.0, r.1))) (get-put_string s rest))

abbrev mutual
  put_value : Value → List ℕ → List ℕ
  put_value (str s) rest = 0 ∷ put_string s rest
  put_value (num n) rest = 1 ∷ n ∷ rest
  put_value (obj es) rest = 2 ∷ put_entries es rest

  put_entries : Entries → List ℕ → List ℕ
  put_entries none_left rest = 0 ∷ rest
  put_entries (entry k v es) rest = 1 ∷ put_string k (put_value v (put_entries es rest))

abbrev mutual
  get_value : ℕ → List ℕ → Option (Value × List ℕ)
  get_value zero bytes = none
  get_value (suc n) [] = none
  get_value (suc n) (zero ∷ rest) = get_string rest >>= (λ r. some (str r.0, r.1))
  get_value (suc n) (suc zero ∷ []) = none
  get_value (suc n) (suc zero ∷ k ∷ rest) = some (num k, rest)
  get_value (suc n) (suc (suc t) ∷ rest) = get_entries n rest >>= (λ r. some (obj r.0, r.1))

  get_entries : ℕ → List ℕ → Option (Entries × List ℕ)
  get_entries zero bytes = none
  get_entries (suc n) [] = none
  get_entries (suc n) (zero ∷ rest) = some (none_left, rest)
  get_entries (suc n) (suc t ∷ rest) = get_string rest >>= (λ k.
      get_value n k.1 >>= (λ v. get_entries n v.1 >>= (λ es. some (entry k.0 v.0 es.0, es.1))))

abbrev mutual
  size : Value → ℕ
  size (str s) = 1
  size (num n) = 1
  size (obj es) = suc (size_all es)

  size_all : Entries → ℕ
  size_all none_left = 1
  size_all (entry k v es) = suc (size v + size_all es)

mutual
  get-put_value :
      (v : Value) (n : ℕ) (rest : List ℕ)
      → size v ≤ n
      → get_value n (put_value v rest) ≡ some (v, rest)
  get-put_value (str s) zero rest h = absurd (omega arith)
  get-put_value (num k) zero rest h = absurd (omega arith)
  get-put_value (obj es) zero rest h = absurd (omega arith)
  get-put_value (str s) (suc n) rest h =
      ap (λ o. o >>= (λ r. some (str r.0, r.1))) (get-put_string s rest)
  get-put_value (num k) (suc n) rest h = refl
  get-put_value (obj es) (suc n) rest h =
      ap (λ o. o >>= (λ r. some (obj r.0, r.1))) (get-put_entries es n rest (omega arith))

  get-put_entries :
      (es : Entries) (n : ℕ) (rest : List ℕ)
      → size_all es ≤ n
      → get_entries n (put_entries es rest) ≡ some (es, rest)
  get-put_entries none_left zero rest h = absurd (omega arith)
  get-put_entries (entry k v es) zero rest h = absurd (omega arith)
  get-put_entries none_left (suc n) rest h = refl
  get-put_entries (entry k v es) (suc n) rest h = rw (
    get-put_string k (put_value v (put_entries es rest)),
    get-put_value v n (put_entries es rest) (omega arith),
    get-put_entries es n rest (omega arith),
  )

-- A text takes a byte at least, and a value at least as many as its size.
length-put_string : (s : String) (rest : List ℕ) → suc (length rest) ≤ length (put_string s rest)
unfolding put_string
length-put_string String.[] rest = omega arith
length-put_string (String.◌∷◌ c s) rest = omega (arith, length-put_string s rest)

mutual
  length-put_value : (v : Value) (rest : List ℕ) → size v + length rest ≤ length (put_value v rest)
  length-put_value (str s) rest = omega (arith, length-put_string s rest)
  length-put_value (num k) rest = omega arith
  length-put_value (obj es) rest = omega (arith, length-put_entries es rest)

  length-put_entries :
      (es : Entries) (rest : List ℕ) → size_all es + length rest ≤ length (put_entries es rest)
  length-put_entries none_left rest = omega arith
  length-put_entries (entry k v es) rest = omega (
    arith,
    length-put_string k (put_value v (put_entries es rest)),
    length-put_value v (put_entries es rest),
    length-put_entries es rest,
  )

-- A write: its time, its path, and its value, none for a removal.
pub record Write : Type 0 where
  pub time : ℕ
  pub path : String
  pub value : Option Value

abbrev put_option : Option Value → List ℕ
put_option none = []
put_option (some v) = put_value v []

unfoldable pub put_write : Write → List ℕ
put_write w = w.time ∷ put_string w.path (put_option w.value)

get_option : List ℕ → Option (Option Value)
get_option [] = some none
get_option (b ∷ bytes) = get_value (length (b ∷ bytes)) (b ∷ bytes) >>= (λ r. some (some r.0))

pub get_write : List ℕ → Option Write
get_write [] = none
get_write (t ∷ bytes) =
    get_string bytes
    >>= (λ p. get_option p.1 >>= (λ v. some (record { time = t; path = p.0; value = v })))

read_back :
    (v : Value)
    → (get_value (length (put_value v [])) (put_value v []) >>= (λ r. some (some r.0)))
      ≡ some (some v)
read_back v =
    ap (λ o. o >>= (λ r. some (some r.0)))
      (get-put_value v (length (put_value v [])) [] (omega (arith, length-put_value v [])))

get-put_option : (o : Option Value) → get_option (put_option o) ≡ some o
unfolding get_option
get-put_option none = refl
get-put_option (some (str s)) = read_back (str s)
get-put_option (some (num n)) = read_back (num n)
get-put_option (some (obj es)) = read_back (obj es)

pub get-put_write : (w : Write) → get_write (put_write w) ≡ some w
unfolding get_write put_write
get-put_write w = rw (get-put_string w.path (put_option w.value), get-put_option w.value)
