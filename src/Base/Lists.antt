-- ===== src/Base/Lists.antt =====
-- Lists measured and indexed by native numbers, and membership of numbers as a Boolean test.
use Prim.Native.Nat.{ℕ, zero, suc, ◌+◌}
use mathlib.Core.Bool.{Bool, true, false, ◌&&◌, ◌||◌}
use mathlib.Core.List.{List, [], ◌∷◌, ◌++◌}
use mathlib.Core.Logic.{inl, inr}
use mathlib.Core.Option.{Option, none, some}
use mathlib.Core.Path.{◌≡◌, refl, ap}
use native.Mathlib.Omega.{arith}
use parlevision.Base.Tests.{◌==◌, ltb, if◌then◌else◌, Bool-cases}

module _ {ℓ} {A : Type ℓ} where
  abbrev pub length : List A → ℕ
  length [] = 0
  length (x ∷ xs) = suc (length xs)

  abbrev pub get_elem? : List A → ℕ → Option A
  get_elem? [] i = none
  get_elem? (x ∷ xs) zero = some x
  get_elem? (x ∷ xs) (suc i) = get_elem? xs i

  abbrev pub get_or : List A → ℕ → A → A
  get_or [] i d = d
  get_or (x ∷ xs) zero d = x
  get_or (x ∷ xs) (suc i) d = get_or xs i d

  abbrev pub take : ℕ → List A → List A
  take zero xs = []
  take (suc n) [] = []
  take (suc n) (x ∷ xs) = x ∷ take n xs

  abbrev pub drop : ℕ → List A → List A
  drop zero xs = xs
  drop (suc n) [] = []
  drop (suc n) (x ∷ xs) = drop n xs

  -- A write out of bounds changes nothing.
  abbrev pub set : List A → ℕ → A → List A
  set [] i v = []
  set (x ∷ xs) zero v = v ∷ xs
  set (x ∷ xs) (suc i) v = x ∷ set xs i v

  abbrev pub replicate : ℕ → A → List A
  replicate zero a = []
  replicate (suc n) a = a ∷ replicate n a

  abbrev pub is_empty : List A → Bool
  is_empty [] = true
  is_empty (x ∷ xs) = false

  -- Every entry passes the test, and some entry passes it.
  abbrev pub all : (A → Bool) → List A → Bool
  all p [] = true
  all p (x ∷ xs) = p x && all p xs

  abbrev pub any : (A → Bool) → List A → Bool
  any p [] = false
  any p (x ∷ xs) = p x || any p xs

  pub length-append : (xs ys : List A) → length (xs ++ ys) ≡ length xs + length ys
  length-append [] ys = omega arith
  length-append (x ∷ xs) ys = omega (arith, length-append xs ys)

  pub length-set : (xs : List A) (i : ℕ) (v : A) → length (set xs i v) ≡ length xs
  length-set [] i v = refl
  length-set (x ∷ xs) zero v = refl
  length-set (x ∷ xs) (suc i) v = ap suc (length-set xs i v)

  pub length-replicate : (n : ℕ) (a : A) → length (replicate n a) ≡ n
  length-replicate zero a = refl
  length-replicate (suc n) a = ap suc (length-replicate n a)

-- A predicate of every entry, which computes to a tuple.
abbrev pub All {ℓ κ} : {A : Type ℓ} → (A → Type κ) → List A → Type κ
All P [] = Unit
All P (x ∷ xs) = P x × All P xs

abbrev pub contains : ℕ → List ℕ → Bool
contains a [] = false
contains a (x ∷ xs) = x == a || contains a xs

pub contains-append :
    (a : ℕ) (xs ys : List ℕ) → contains a (xs ++ ys) ≡ (contains a xs || contains a ys)
contains-append a [] ys = refl
contains-append a (x ∷ xs) ys = ground (arith, contains-append a xs ys)

-- Every number of the first list is in the second.
abbrev pub Subset : List ℕ → List ℕ → Type 0
Subset xs ys = (a : ℕ) → contains a xs ≡ true → contains a ys ≡ true

pub All-get {κ} : (P : ℕ → Type κ) (xs : List ℕ) (a : ℕ) → All P xs → contains a xs ≡ true → P a
All-get P [] a h m = absurd (ground arith)
All-get P (x ∷ xs) a h m = elim (Bool-cases (x == a)) [
  | inl e ↦ let q : a ≡ x = ground arith in rw q h.0
  | inr e ↦ All-get P xs a h.1 (ground arith)
]

abbrev pub erase_all : ℕ → List ℕ → List ℕ
erase_all a [] = []
erase_all a (x ∷ xs) = if x == a then erase_all a xs else x ∷ erase_all a xs

pub erase_all-absent : (a : ℕ) (xs : List ℕ) → contains a xs ≡ false → erase_all a xs ≡ xs
erase_all-absent a [] h = refl
erase_all-absent a (x ∷ xs) h = ground (arith, erase_all-absent a xs)

-- How often a number stands in a list.
abbrev pub occurrences : ℕ → List ℕ → ℕ
occurrences a [] = 0
occurrences a (x ∷ xs) = let rest = occurrences a xs in if x == a then suc rest else rest

pub occurrences-concat :
    (a b : ℕ) (xs : List ℕ)
    → occurrences a (xs ++ b ∷ []) ≡ (if b == a then suc (occurrences a xs) else occurrences a xs)
occurrences-concat a b [] = ground arith
occurrences-concat a b (x ∷ xs) = ground (arith, occurrences-concat a b xs)

pub occurrences-absent : (a : ℕ) (xs : List ℕ) → contains a xs ≡ false → occurrences a xs ≡ 0
occurrences-absent a [] h = refl
occurrences-absent a (x ∷ xs) h = ground (arith, occurrences-absent a xs)

pub absent_of_occurrences : (c : ℕ) (xs : List ℕ) → occurrences c xs ≡ 0 → contains c xs ≡ false
absent_of_occurrences c [] h = refl
absent_of_occurrences c (x ∷ xs) h = ground (arith, absent_of_occurrences c xs)

module _ {A : Type 0} where
  pub get_elem?-before :
      (xs : List A) (y x : A) (i : ℕ)
      → get_elem? xs i ≡ some x
      → get_elem? (xs ++ y ∷ []) i ≡ some x
  get_elem?-before [] y x i h = absurd (ground (arith, h))
  get_elem?-before (z ∷ xs) y x zero h = h
  get_elem?-before (z ∷ xs) y x (suc i) h = get_elem?-before xs y x i h

  pub get_elem?-last : (xs : List A) (y : A) → get_elem? (xs ++ y ∷ []) (length xs) ≡ some y
  get_elem?-last [] y = refl
  get_elem?-last (z ∷ xs) y = get_elem?-last xs y

  pub get_elem?-bound :
      (xs : List A) (x : A) (i : ℕ) → get_elem? xs i ≡ some x → ltb i (length xs) ≡ true
  get_elem?-bound [] x i h = absurd (ground (arith, h))
  get_elem?-bound (z ∷ xs) x zero h = ground arith
  get_elem?-bound (z ∷ xs) x (suc i) h = ground (arith, get_elem?-bound xs x i h)

  pub get_elem?-set :
      (xs : List A) (i : ℕ) (x y : A) → get_elem? xs i ≡ some x → get_elem? (set xs i y) i ≡ some y
  get_elem?-set [] i x y h = absurd (ground (arith, h))
  get_elem?-set (z ∷ xs) zero x y h = refl
  get_elem?-set (z ∷ xs) (suc i) x y h = get_elem?-set xs i x y h

  pub get_elem?-set_other :
      (xs : List A) (i j : ℕ) (y : A) → (i == j) ≡ false → get_elem? (set xs i y) j ≡ get_elem? xs j
  get_elem?-set_other [] i j y h = refl
  get_elem?-set_other (z ∷ xs) zero zero y h = absurd (ground (arith, h))
  get_elem?-set_other (z ∷ xs) zero (suc j) y h = refl
  get_elem?-set_other (z ∷ xs) (suc i) zero y h = refl
  get_elem?-set_other (z ∷ xs) (suc i) (suc j) y h =
      get_elem?-set_other xs i j y (ground (arith, h))
