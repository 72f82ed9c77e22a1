-- ===== src/Examples/Log/Merge.antt =====
-- Logs of writes: their order, and what a log amounts to.
use pmd.Prelude.{
  ℕ, suc, ◌<◌, ◌≤◌, ◌≡◌, refl, sym, ◌∙◌, ap, Bool, true, false, List, [], ◌∷◌, ◌++◌, ltb, nat_eq,
  arith, if◌then◌else◌,
}

abbrev pub Blob : Type 0
Blob = List ℕ

-- The order of writes: by their times, and then by what follows.
abbrev pub earlier : Blob → Blob → Bool
earlier [] [] = false
earlier [] (b ∷ bs) = true
earlier (a ∷ xs) [] = false
earlier (a ∷ xs) (b ∷ bs) =
    let rest = earlier xs bs in if ltb a b then true else if nat_eq a b then rest else false

earlier_irrefl : (x : Blob) → earlier x x ≡ false
earlier_irrefl [] = refl
earlier_irrefl (a ∷ x) = ground (arith, earlier_irrefl x)

earlier_trans : (x y z : Blob) → earlier x y ≡ true → earlier y z ≡ true → earlier x z ≡ true
earlier_trans [] [] z h k = absurd (ground (arith, h))
earlier_trans [] (b ∷ y) [] h k = absurd (ground (arith, k))
earlier_trans [] (b ∷ y) (c ∷ z) h k = refl
earlier_trans (a ∷ x) [] z h k = absurd (ground (arith, h))
earlier_trans (a ∷ x) (b ∷ y) [] h k = absurd (ground (arith, k))
earlier_trans (a ∷ x) (b ∷ y) (c ∷ z) h k = ground (arith, h, k, earlier_trans x y z)

pub earlier_total : (x y : Blob) → earlier x y ≡ false → earlier y x ≡ false → x ≡ y
earlier_total [] [] h k = refl
earlier_total [] (b ∷ y) h k = absurd (ground (arith, h))
earlier_total (a ∷ x) [] h k = absurd (ground (arith, k))
earlier_total (a ∷ x) (b ∷ y) h k = ground (arith, h, k, earlier_total x y)

-- A write is put at its place, once.
abbrev pub insert : Blob → List Blob → List Blob
insert x [] = x ∷ []
insert x (y ∷ l) =
    let later = y ∷ insert x l in
    if earlier x y then x ∷ y ∷ l else if earlier y x then later else y ∷ l

pub insert_idem : (x : Blob) (l : List Blob) → insert x (insert x l) ≡ insert x l
insert_idem x [] = ground (arith, earlier_irrefl x)
insert_idem x (y ∷ l) = ground (arith, earlier_irrefl x, insert_idem x l)

pub insert_comm : (x y : Blob) (l : List Blob) → insert x (insert y l) ≡ insert y (insert x l)
insert_comm x y [] = ground (arith, earlier_total x y, earlier_trans x y x, earlier_irrefl x)
insert_comm x y (z ∷ l) = ground (
  arith,
  insert_comm x y l,
  earlier_total x y,
  earlier_total x z,
  earlier_total y z,
  earlier_trans x y x,
  earlier_irrefl x,
  earlier_irrefl y,
  earlier_trans x y z,
  earlier_trans y x z,
  earlier_trans x z y,
  earlier_trans y z x,
  earlier_trans z x y,
  earlier_trans z y x,
)

-- All the writes of one log, put into another.
abbrev pub insert_all : List Blob → List Blob → List Blob
insert_all [] l = l
insert_all (x ∷ xs) l = insert x (insert_all xs l)

-- A log, in order and without repetitions.
abbrev pub norm : List Blob → List Blob
norm xs = insert_all xs []

pub norm-append : (xs ys : List Blob) → norm (xs ++ ys) ≡ insert_all xs (norm ys)
norm-append [] ys = refl
norm-append (x ∷ xs) ys = ap (insert x) (norm-append xs ys)

pub insert-insert_all :
    (x : Blob) (ys l : List Blob) → insert x (insert_all ys l) ≡ insert_all ys (insert x l)
insert-insert_all x [] l = refl
insert-insert_all x (y ∷ ys) l =
    insert_comm x y (insert_all ys l) ∙ ap (insert y) (insert-insert_all x ys l)

pub insert_all_comm :
    (xs ys l : List Blob) → insert_all xs (insert_all ys l) ≡ insert_all ys (insert_all xs l)
insert_all_comm [] ys l = refl
insert_all_comm (x ∷ xs) ys l =
    ap (insert x) (insert_all_comm xs ys l) ∙ insert-insert_all x ys (insert_all xs l)

pub insert_all_idem : (xs l : List Blob) → insert_all xs (insert_all xs l) ≡ insert_all xs l
insert_all_idem [] l = refl
insert_all_idem (x ∷ xs) l =
    ap (insert x) (sym (insert-insert_all x xs (insert_all xs l)))
    ∙ insert_idem x (insert_all xs (insert_all xs l))
    ∙ ap (insert x) (insert_all_idem xs l)

-- Times, and the writes up to a time.
abbrev pub time_of : Blob → ℕ
time_of [] = 0
time_of (t ∷ rest) = t

abbrev pub latest : List Blob → ℕ
latest [] = 0
latest (x ∷ xs) = if ltb (latest xs) (time_of x) then time_of x else latest xs

abbrev AreUpTo : ℕ → List Blob → Type 0
AreUpTo t [] = Unit
AreUpTo t (x ∷ xs) = (time_of x ≤ t) × AreUpTo t xs

AreUpTo-weaken : (s t : ℕ) (xs : List Blob) → s ≤ t → AreUpTo s xs → AreUpTo t xs
AreUpTo-weaken s t [] le h = tt
AreUpTo-weaken s t (x ∷ xs) le (h, hs) = (omega arith, AreUpTo-weaken s t xs le hs)

latest-AreUpTo : (xs : List Blob) → AreUpTo (latest xs) xs
latest-AreUpTo [] = tt
latest-AreUpTo (x ∷ xs) = (
  ground arith,
  AreUpTo-weaken (latest xs) (latest (x ∷ xs)) xs (ground arith) (latest-AreUpTo xs),
)

insert-AreUpTo :
    (t : ℕ) (x : Blob) (l : List Blob) → time_of x ≤ t → AreUpTo t l → AreUpTo t (insert x l)
insert-AreUpTo t x [] h hs = (h, tt)
insert-AreUpTo t x (y ∷ l) h (hy, hs) = go (earlier x y) (earlier y x) (insert-AreUpTo t x l h hs)
  where
    go :
        (b c : Bool)
        → AreUpTo t (insert x l)
        → AreUpTo t (if b then x ∷ y ∷ l else if c then y ∷ insert x l else y ∷ l)
    go true c k = (h, (hy, hs))
    go false true k = (hy, k)
    go false false k = (hy, hs)

norm-AreUpTo : (t : ℕ) (xs : List Blob) → AreUpTo t xs → AreUpTo t (norm xs)
norm-AreUpTo t [] h = tt
norm-AreUpTo t (x ∷ xs) (h, hs) = insert-AreUpTo t x (norm xs) h (norm-AreUpTo t xs hs)

-- A write behind all others comes last.
insert-last :
    (t s : ℕ) (rest : Blob) (l : List Blob)
    → AreUpTo t l
    → t < s
    → insert (s ∷ rest) l ≡ l ++ (s ∷ rest) ∷ []
insert-last t s rest [] h lt = refl
insert-last t s rest ([] ∷ l) (hy, hs) lt = ap (◌∷◌ []) (insert-last t s rest l hs lt)
insert-last t s rest ((u ∷ y) ∷ l) (hy, hs) lt =
    ground (arith, hy, lt, insert-last t s rest l hs lt)

pub norm-last :
    (rest : Blob) (xs : List Blob)
    → norm ((suc (latest xs) ∷ rest) ∷ xs) ≡ norm xs ++ (suc (latest xs) ∷ rest) ∷ []
norm-last rest xs =
    insert-last (latest xs) (suc (latest xs)) rest (norm xs)
      (norm-AreUpTo (latest xs) xs (latest-AreUpTo xs)) (omega arith)
