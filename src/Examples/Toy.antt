-- ===== src/Examples/Toy.antt =====
-- The small platform: addresses are texts, floats are numbers, and the tag of a nonce under a key
-- is the key with the nonce behind it.
use pmd.Prelude.{
  ℕ, ◌+◌, ◌*◌, ◌-◌, String, ◌≡◌, refl, ap, Bool, true, false, ◌&&◌, some, List, [], ◌∷◌, ◌++◌,
  arith, ◌==◌, eq_iff, nat_eq, ltb,
}
use pmd.Prelude.Decimal.{show_ℕ}
use pmd.Platform.{Net, Crypto, Real, Os, Platform}
use pmd.Examples.Values.{json}
use pmd.Examples.Store.{crdt}

abbrev pub net : Net
net = record {
  Addr = String;
  addr_eq = ◌==◌;
  addr_to_string = λ a. a;
  addr_parse = some;
  ip_to_string = λ a. a;
  addr_eq_iff = eq_iff;
  addr_parse-to_string = λ _. refl;
}

abbrev pub bytes_eq : List ℕ → List ℕ → Bool
bytes_eq [] [] = true
bytes_eq [] (b ∷ bs) = false
bytes_eq (a ∷ xs) [] = false
bytes_eq (a ∷ xs) (b ∷ bs) = nat_eq a b && bytes_eq xs bs

pub bytes_eq_sound : (xs bs : List ℕ) → bytes_eq xs bs ≡ true → xs ≡ bs
bytes_eq_sound [] [] h = refl
bytes_eq_sound [] (b ∷ bs) h = absurd (ground (arith, h))
bytes_eq_sound (a ∷ xs) [] h = absurd (ground (arith, h))
bytes_eq_sound (a ∷ xs) (b ∷ bs) h = ground (arith, h, bytes_eq_sound xs bs)

pub bytes_eq_refl : (xs : List ℕ) → bytes_eq xs xs ≡ true
bytes_eq_refl [] = refl
bytes_eq_refl (a ∷ xs) = ground (arith, bytes_eq_refl xs)

pub bytes_eq_complete : (xs bs : List ℕ) → xs ≡ bs → bytes_eq xs bs ≡ true
bytes_eq_complete xs bs e = rw (e, bytes_eq_refl bs)

abbrev pub crypto : Crypto
crypto = record {
  hmac_sha256 = λ key nonce. key ++ nonce;
  verify_slice = bytes_eq;
  verify_slice_iff = λ xs bs. (bytes_eq_sound xs bs, bytes_eq_complete xs bs);
}

abbrev pub real : Real
real = record {
  Float = ℕ;
  literal = λ _. 8;
  of_ℕ = λ n. n;
  add = ◌+◌;
  sub = ◌-◌;
  mul = ◌*◌;
  div = λ a b. a;
  neg = λ a. a;
  max = λ a b. a + b;
  sqrt = λ a. a;
  exp = λ a. a;
  log10 = λ a. a;
  ceil = λ a. a;
  to_usize = λ a. a;
  lt = ltb;
  is_finite = λ _. true;
  show_fixed = λ _ x. show_ℕ x;
}

abbrev pub first_step : List String → String
first_step [] = ""
first_step (s ∷ _) = s

abbrev pub os : Os
os = record {
  FilePath = List String;
  path_from = λ s. s ∷ [];
  path_join = λ p s. s ∷ p;
  path_join_inj = λ p a b e. ap first_step e;
}

abbrev pub toy : Platform
toy = record { net = net; os = os; json = json; crdt = crdt; crypto = crypto; real = real }
