-- ===== src/Prelude/Decimal.antt =====
-- Decimal numbers as `Display` prints them, and the paddings of `format!`.
use Prim.Native.Nat.{ℕ, zero, suc, ◌+◌, ◌-◌, ◌*◌, ◌/◌, ◌%◌, ◌<◌}
use Prim.Native.String.{String, count, ◌++◌ as ◌^^◌}
use Prim.Native.Char.{Char, code}
use mathlib.Core.Path.{◌≡◌, refl, ap, ◌∙◌, sym}
use mathlib.Core.Bool.{Bool, true, false}
use native.Mathlib.Omega.{arith}
use text.Mathlib.TextLemmas.{nil-append, cons-append}
use mathlib.Core.Logic.{inl, inr}
use pmd.Prelude.Tests.{ltb, ltb→lt, nat_eq, if◌then◌else◌, Bool-cases}

-- The digit for a number below ten.
unfoldable pub digit : ℕ → Char
digit n =
    if nat_eq n 0
    then "0"
    else if nat_eq n 1
    then "1"
    else if nat_eq n 2
    then "2"
    else if nat_eq n 3
    then "3"
    else if nat_eq n 4
    then "4"
    else if nat_eq n 5
    then "5"
    else if nat_eq n 6
    then "6"
    else if nat_eq n 7
    then "7"
    else if nat_eq n 8
    then "8"
    else "9"

unfoldable pub text_of : Char → String
text_of c = String.◌∷◌ c ""

unfoldable pub decimal : ℕ → ℕ → String
decimal zero n = ""
decimal (suc fuel) n =
    let higher = decimal fuel (n / 10) in
    if ltb n 10 then text_of (digit n) else higher ^^ text_of (digit (n % 10))

unfoldable pub show_ℕ : ℕ → String
unfolding decimal text_of digit
show_ℕ n = decimal (suc n) n

-- `c` repeated.
abbrev pub fill : Char → ℕ → String
fill c zero = ""
fill c (suc n) = String.◌∷◌ c (fill c n)

-- `{:0width}` and `{:<width}`.
unfoldable pub pad_zeros : ℕ → ℕ → String
pad_zeros width n = let s = show_ℕ n in fill "0" (width - count s) ^^ s

unfoldable pub pad_right : ℕ → String → String
pad_right width s = s ^^ fill " " (width - count s)

-- The number that digits stand for, behind those of `acc`.
abbrev read_from : ℕ → String → ℕ
read_from acc String.[] = acc
read_from acc (String.◌∷◌ c s) = read_from (acc * 10 + (code c - 48)) s

pub code-if : (b : Bool) (c d : Char) → code (if b then c else d) ≡ (if b then code c else code d)
code-if true c d = refl
code-if false c d = refl

pub code_of_digit : (n : ℕ) → n < 10 → code (digit n) ≡ n + 48
unfolding digit
code_of_digit n h = simp code-if (ground arith)

code-digit : (n : ℕ) → n < 10 → code (digit n) - 48 ≡ n
code-digit n h = omega (arith, code_of_digit n h)

read_from-digit :
    (acc n : ℕ) (s : String)
    → n < 10
    → read_from acc (s ^^ text_of (digit n)) ≡ read_from acc s * 10 + n
unfolding text_of
read_from-digit acc n String.[] h =
    rw (nil-append (String.◌∷◌ (digit n) "")) (omega (arith, code-digit n h))
read_from-digit acc n (String.◌∷◌ c s) h =
    rw (cons-append c s (String.◌∷◌ (digit n) ""))
      (read_from-digit (acc * 10 + (code c - 48)) n s h)

read_from-decimal : (fuel n : ℕ) → n < fuel → read_from 0 (decimal fuel n) ≡ n
unfolding decimal text_of
read_from-decimal zero n h = absurd (omega arith)
read_from-decimal (suc fuel) n h = elim (Bool-cases (ltb n 10)) [
  | inl small ↦ rw small (omega (arith, code-digit n (ltb→lt n 10 small)))
  | inr large ↦ rw large (
      read_from-digit 0 (n % 10) (decimal fuel (n / 10)) (omega arith)
      ∙ (rw (read_from-decimal fuel (n / 10) (ground arith)) (omega arith)))
]

-- What is printed determines the number.
pub show_ℕ_inj : (m n : ℕ) → show_ℕ m ≡ show_ℕ n → m ≡ n
unfolding show_ℕ
show_ℕ_inj m n e =
    sym (read_from-decimal (suc m) m (omega arith))
    ∙ ap (read_from 0) e
    ∙ read_from-decimal (suc n) n (omega arith)
