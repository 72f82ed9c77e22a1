-- ===== src/Examples/Coding.antt =====
-- Texts for values, and back: numbers, characters, lists and pairs, on one line.
use Prim.Native.Char.{Char, code}
use text.Mathlib.TextEquality.{Char-path}
use pmd.Prelude.{
  ℕ, zero, suc, String, ◌≡◌, refl, sym, ◌∙◌, ap, true, false, Option, none, some, List, [], ◌∷◌,
  length, nat_eq, arith, if◌then◌else◌, Bool-cases, inl, inr,
}
use pmd.Prelude.Lines.{no_newline, is_newline, is_empty, trim_end}

-- A text whose end stays as it is, on one line.
abbrev pub IsFine : String → Type 0
IsFine s = (no_newline s ≡ true) × (trim_end s ≡ s) × (is_empty s ≡ false)

pub IsFine-cons :
    (c : Char) (s : String) → is_newline c ≡ false → IsFine s → IsFine (String.◌∷◌ c s)
IsFine-cons c s line (h, end, full) =
    let kept : is_empty (trim_end s) ≡ false = ap is_empty end ∙ full in
    (ground (arith, line, h), ground (arith, kept, end), refl)

infixl 5 ◌>>=◌
abbrev ◌>>=◌ {ℓ κ} : {A : Type ℓ} {B : Type κ} → Option A → (A → Option B) → Option B
none >>= f = none
some a >>= f = f a

-- `put` writes a value in front of a text, `get` takes it off.
pub record Coding (A : Type 0) : Type 0 where
  pub put : A → String → String
  pub get : String → Option (A × String)
  pub get-put : (a : A) (rest : String) → get (put a rest) ≡ some (a, rest)
  pub put-IsFine : (a : A) (rest : String) → IsFine rest → IsFine (put a rest)

put_number : ℕ → String → String
put_number zero rest = String.◌∷◌ "e" rest
put_number (suc n) rest = String.◌∷◌ "s" (put_number n rest)

get_number : String → Option (ℕ × String)
get_number String.[] = none
get_number (String.◌∷◌ c s) =
    let more = get_number s >>= (λ r. some (suc r.0, r.1)) in
    if nat_eq (code c) 115 then more else some (0, s)

number-get : (n : ℕ) (rest : String) → get_number (put_number n rest) ≡ some (n, rest)
unfolding put_number get_number
number-get zero rest = refl
number-get (suc n) rest = ap (λ o. o >>= (λ r. some (suc r.0, r.1))) (number-get n rest)

number-IsFine : (n : ℕ) (rest : String) → IsFine rest → IsFine (put_number n rest)
unfolding put_number
number-IsFine zero rest h = IsFine-cons "e" rest refl h
number-IsFine (suc n) rest h = IsFine-cons "s" (put_number n rest) refl (number-IsFine n rest h)

pub number : Coding ℕ
number = record {
  put = put_number;
  get = get_number;
  get-put = number-get;
  put-IsFine = number-IsFine;
}

newline_char : Char
newline_char = "\n"

put_char : Char → String → String
put_char c rest =
    if is_newline c
    then String.◌∷◌ "n" (String.◌∷◌ "n" rest)
    else String.◌∷◌ "c" (String.◌∷◌ c rest)

get_char : String → Option (Char × String)
get_char String.[] = none
get_char (String.◌∷◌ k String.[]) = none
get_char (String.◌∷◌ k (String.◌∷◌ c s)) =
    if nat_eq (code k) 110 then some (newline_char, s) else some (c, s)

char-get : (c : Char) (rest : String) → get_char (put_char c rest) ≡ some (c, rest)
unfolding put_char get_char newline_char
char-get c rest = elim (Bool-cases (is_newline c)) [
  | inl line ↦ rw line (ap (λ k. some (k, rest)) (sym (Char-path c "\n" (ground (arith, line)))))
  | inr other ↦ rw other
]

char-IsFine : (c : Char) (rest : String) → IsFine rest → IsFine (put_char c rest)
unfolding put_char
char-IsFine c rest h = elim (Bool-cases (is_newline c)) [
  | inl line ↦ rw line (IsFine-cons "n" _ refl (IsFine-cons "n" rest refl h))
  | inr other ↦ rw other (IsFine-cons "c" _ refl (IsFine-cons c rest other h))
]

pub char : Coding Char
char = record { put = put_char; get = get_char; get-put = char-get; put-IsFine = char-IsFine }

module _ {A : Type 0} (a : Coding A) where
  puts : List A → String → String
  puts [] rest = rest
  puts (x ∷ xs) rest = a.put x (puts xs rest)

  gets : ℕ → String → Option (List A × String)
  gets zero s = some ([], s)
  gets (suc n) s = a.get s >>= (λ x. gets n x.1 >>= (λ xs. some (x.0 ∷ xs.0, xs.1)))

  gets-puts : (xs : List A) (rest : String) → gets (length xs) (puts xs rest) ≡ some (xs, rest)
  unfolding gets puts
  gets-puts [] rest = refl
  gets-puts (x ∷ xs) rest =
      ap (λ o. o >>= (λ x. gets (length xs) x.1 >>= (λ xs. some (x.0 ∷ xs.0, xs.1))))
        (a.get-put x (puts xs rest))
      ∙ ap (λ o. o >>= (λ r. some (x ∷ r.0, r.1))) (gets-puts xs rest)

  puts-IsFine : (xs : List A) (rest : String) → IsFine rest → IsFine (puts xs rest)
  unfolding puts
  puts-IsFine [] rest h = h
  puts-IsFine (x ∷ xs) rest h = a.put-IsFine x (puts xs rest) (puts-IsFine xs rest h)

  -- The length, and then the elements.
  pub list : Coding (List A)
  list = record {
    put = λ xs rest. put_number (length xs) (puts xs rest);
    get = λ s. get_number s >>= (λ n. gets n.0 n.1);
    get-put = λ xs rest.
        ap (λ o. o >>= (λ n. gets n.0 n.1)) (number-get (length xs) (puts xs rest))
        ∙ gets-puts xs rest;
    put-IsFine = λ xs rest h. number-IsFine (length xs) (puts xs rest) (puts-IsFine xs rest h);
  }

module _ {A B : Type 0} where
  pub pair : Coding A → Coding B → Coding (A × B)
  pair a b = record {
    put = λ x rest. a.put x.0 (b.put x.1 rest);
    get = λ s. a.get s >>= (λ x. b.get x.1 >>= (λ y. some ((x.0, y.0), y.1)));
    get-put = λ x rest.
        ap (λ o. o >>= (λ x. b.get x.1 >>= (λ y. some ((x.0, y.0), y.1))))
          (a.get-put x.0 (b.put x.1 rest))
        ∙ ap (λ o. o >>= (λ y. some ((x.0, y.0), y.1))) (b.get-put x.1 rest);
    put-IsFine = λ x rest h. a.put-IsFine x.0 _ (b.put-IsFine x.1 rest h);
  }

  -- A value is written as another one, which determines it.
  pub via : (f : A → B) (g : B → A) → ((x : A) → g (f x) ≡ x) → Coding B → Coding A
  via f g back b = record {
    put = λ x. b.put (f x);
    get = λ s. b.get s >>= (λ y. some (g y.0, y.1));
    get-put = λ x rest.
        ap (λ o. o >>= (λ y. some (g y.0, y.1))) (b.get-put (f x) rest)
        ∙ ap (λ z. some (z, rest)) (back x);
    put-IsFine = λ x. b.put-IsFine (f x);
  }

abbrev chars : String → List Char
chars String.[] = []
chars (String.◌∷◌ c s) = c ∷ chars s

abbrev text_of : List Char → String
text_of [] = ""
text_of (c ∷ cs) = String.◌∷◌ c (text_of cs)

text_of-chars : (s : String) → text_of (chars s) ≡ s
text_of-chars String.[] = refl
text_of-chars (String.◌∷◌ c s) = ap (String.◌∷◌ c) (text_of-chars s)

pub string : Coding String
string = via chars text_of text_of-chars (list char)
