-- ===== src/Prelude/Parse.antt =====
-- `str::parse::<u16>`: an optional plus sign, then digits, with every overflow refused.
use Prim.Native.Nat.{ℕ, zero, suc, ◌+◌, ◌-◌, ◌*◌, ◌/◌, ◌%◌, ◌<◌, ◌^◌}
use Prim.Native.String.{String, ◌++◌ as ◌^^◌}
use Prim.Native.Char.{Char, code}
use mathlib.Core.Path.{◌≡◌, refl, ap, ◌∙◌}
use mathlib.Core.Bool.{Bool, true, false, ◌&&◌}
use mathlib.Core.Option.{Option, none, some}
use mathlib.Core.Logic.{inl, inr}
use native.Mathlib.Omega.{arith}
use text.Mathlib.TextLemmas.{nil-append, cons-append}
use pmd.Prelude.Tests.{ltb, ltb→lt, leb, nat_eq, if◌then◌else◌, Bool-cases}
use pmd.Prelude.Decimal.{show_ℕ, digit, text_of, decimal, code_of_digit}

abbrev pub is_digit : Char → Bool
is_digit c = leb b'0' (code c) && leb (code c) b'9'

abbrev pub next_digit : ℕ → Char → Option ℕ
next_digit acc c =
    let n = acc * 10 + (code c - b'0') in if is_digit c && ltb n (2 ^ 16) then some n else none

abbrev pub scan : ℕ → String → Option ℕ
scan acc String.[] = some acc
scan acc (String.◌∷◌ c s) = elim (next_digit acc c) [ none ↦ none | some n ↦ scan n s ]

unfoldable pub parse_u16 : String → Option ℕ
parse_u16 String.[] = none
parse_u16 (String.◌∷◌ c String.[]) = scan 0 (String.◌∷◌ c "")
parse_u16 (String.◌∷◌ c (String.◌∷◌ d s)) =
    if nat_eq (code c) b'+' then scan 0 (String.◌∷◌ d s) else scan 0 (String.◌∷◌ c (String.◌∷◌ d s))

scan-digit :
    (acc n : ℕ)
    → n < 10
    → acc * 10 + n < 2 ^ 16
    → scan acc (text_of (digit n)) ≡ some (acc * 10 + n)
unfolding text_of
scan-digit acc n h small = ground (arith, code_of_digit n h)

-- One more digit behind a text.
scan-append_digit :
    (acc m n : ℕ) (s : String)
    → scan acc s ≡ some m
    → n < 10
    → m * 10 + n < 2 ^ 16
    → scan acc (s ^^ text_of (digit n)) ≡ some (m * 10 + n)
scan-append_digit acc m n String.[] e h small =
    rw (nil-append (text_of (digit n))) (ground (arith, scan-digit acc n h (ground arith)))
scan-append_digit acc m n (String.◌∷◌ c s) e h small =
    rw (cons-append c s (text_of (digit n)))
      (go (next_digit acc c) e (λ k. scan-append_digit k m n s))
  where
    go :
        (o : Option ℕ)
        → (elim o [ none ↦ none | some k ↦ scan k s ]) ≡ some m
        → ((k : ℕ)
            → scan k s ≡ some m
            → n < 10
            → m * 10 + n < 2 ^ 16
            → scan k (s ^^ text_of (digit n)) ≡ some (m * 10 + n))
        → (elim o [ none ↦ none | some k ↦ scan k (s ^^ text_of (digit n)) ]) ≡ some (m * 10 + n)
    go none f ih = absurd (ground arith)
    go (some k) f ih = ih k f h small

scan-decimal : (fuel n : ℕ) → n < fuel → n < 2 ^ 16 → scan 0 (decimal fuel n) ≡ some n
unfolding decimal
scan-decimal zero n h small = absurd (omega arith)
scan-decimal (suc fuel) n h small = elim (Bool-cases (ltb n 10)) [
  | inl one ↦ rw one (scan-digit 0 n (ltb→lt n 10 one) (omega arith) ∙ ap some (omega arith))
  | inr more ↦ rw more (
      scan-append_digit 0 (n / 10) (n % 10) (decimal fuel (n / 10))
        (scan-decimal fuel (n / 10) (ground arith) (omega arith)) (omega arith) (omega arith)
      ∙ ap some (omega arith))
]

-- A text of digits is read by its digits.
abbrev starts_with_digit : String → Bool
starts_with_digit String.[] = false
starts_with_digit (String.◌∷◌ c s) = is_digit c

parse_u16-scan : (s : String) → starts_with_digit s ≡ true → parse_u16 s ≡ scan 0 s
unfolding parse_u16
parse_u16-scan String.[] h = absurd (ground arith)
parse_u16-scan (String.◌∷◌ c String.[]) h = refl
parse_u16-scan (String.◌∷◌ c (String.◌∷◌ d s)) h = ground arith

starts_with_digit-append :
    (s t : String) → starts_with_digit s ≡ true → starts_with_digit (s ^^ t) ≡ true
starts_with_digit-append String.[] t h = absurd (ground arith)
starts_with_digit-append (String.◌∷◌ c s) t h = rw (cons-append c s t) h

starts_with_digit-decimal : (fuel n : ℕ) → n < fuel → starts_with_digit (decimal fuel n) ≡ true
unfolding decimal text_of
starts_with_digit-decimal zero n h = absurd (omega arith)
starts_with_digit-decimal (suc fuel) n h = elim (Bool-cases (ltb n 10)) [
  | inl one ↦ rw one (ground (arith, code_of_digit n (ltb→lt n 10 one)))
  | inr more ↦ rw more (
      starts_with_digit-append (decimal fuel (n / 10)) _
        (starts_with_digit-decimal fuel (n / 10) (ground arith)))
]

-- Every port is read back from its print.
pub parse_u16-show_ℕ : (n : ℕ) → n < 2 ^ 16 → parse_u16 (show_ℕ n) ≡ some n
unfolding show_ℕ
parse_u16-show_ℕ n small =
    parse_u16-scan (decimal (suc n) n) (starts_with_digit-decimal (suc n) n (omega arith))
    ∙ scan-decimal (suc n) n (omega arith) small
