-- ===== src/RefPtr/Held.antt =====
-- What inc and dec of include/plvcore/RefCounted.h do to counts, and how many RefPtrs of
-- include/plvcore/RefPtr.h there are to an object.
use parlevision.Base.{
  ℕ, zero, suc, ◌+◌, ◌-◌, ◌≡◌, refl, sym, ap, ◌∙◌, true, false, [], ◌∷◌, Option, none, some, ◌==◌,
  ==_refl, ltb, if◌then◌else◌, arith, Bool-cases, inl, inr,
}
use parlevision.Base.Table.{Table, lookup}
use parlevision.RefPtr.{Counts, write, Refs, inc, dec, inc_if_set, dec_if_set, replace, drop_first}

-- 1 for a pointer to an object, 0 for any other.
abbrev pub one : Option ℕ → ℕ → ℕ
one none x = 0
one (some o) x = if o == x then 1 else 0

-- How many RefPtrs point to an object.
abbrev pub refs : ℕ → Table (Option ℕ) → ℕ
refs x [] = 0
refs x ((v, p) ∷ pointers) = one p x + refs x pointers

abbrev pub Agree : Option ℕ → ℕ → Type 0
Agree none n = n ≡ 0
Agree (some m) n = m ≡ n

-- Each object that is there has the count of the RefPtrs to it, and the others have none.
abbrev pub IsCounted : Refs → Type 0
IsCounted s = (x : ℕ) → Agree (s.counts x) (refs x s.pointers)

pub refs-drop_first :
    (x v : ℕ) (p : Option ℕ) (pointers : Table (Option ℕ))
    → lookup v pointers ≡ some p
    → refs x pointers ≡ one p x + refs x (drop_first v pointers)
unfolding lookup
refs-drop_first x v p [] h = absurd (ground (arith, h))
refs-drop_first x v p ((w, q) ∷ pointers) h = elim (Bool-cases (w == v)) [
  | inl e ↦
      let same : q ≡ p = ground (arith, h, e) in rw e (ap (λ r. one r x + refs x pointers) same)
  | inr e ↦
      let rest = refs-drop_first x v p pointers (ground (arith, h, e)) in rw e (omega (arith, rest))
]

pub refs-replace :
    (x v : ℕ) (p new : Option ℕ) (pointers : Table (Option ℕ))
    → lookup v pointers ≡ some p
    → refs x (replace v new pointers) + one p x ≡ refs x pointers + one new x
unfolding lookup
refs-replace x v p new [] h = absurd (ground (arith, h))
refs-replace x v p new ((w, q) ∷ pointers) h = elim (Bool-cases (w == v)) [
  | inl e ↦
      let same : q ≡ p = ground (arith, h, e) in
      let counts : one q x ≡ one p x = ap (λ r. one r x) same in rw e (omega (arith, counts))
  | inr e ↦
      let rest = refs-replace x v p new pointers (ground (arith, h, e)) in
      rw e (omega (arith, rest))
]

abbrev pub Fits : Counts → (ℕ → ℕ) → Type 0
Fits counts e = (x : ℕ) → Agree (counts x) (e x)

-- The object of a pointer, if it has one, is there.
abbrev pub IsLive : Option ℕ → Counts → Type 0
IsLive none counts = Unit {0}
IsLive (some o) counts = (n : ℕ) × (counts o ≡ some n)

pub Agree-same : (c : Option ℕ) (n m : ℕ) → Agree c n → n ≡ m → Agree c m
Agree-same none n m a h = omega (arith, a, h)
Agree-same (some k) n m a h = omega (arith, a, h)

Agree-some : (c : Option ℕ) (n m : ℕ) → c ≡ some m → Agree c n → m ≡ n
Agree-some none n m h a = absurd (ground (arith, h))
Agree-some (some k) n m h a = ground (arith, h, a)

pub Agree-found : (c : Option ℕ) (n : ℕ) → Agree c (suc n) → c ≡ some (suc n)
Agree-found none n a = absurd (omega (arith, a))
Agree-found (some k) n a = ap some a

pub inc_if_set-Fits :
    (p : Option ℕ) (counts : Counts) (e : ℕ → ℕ)
    → Fits counts e
    → IsLive p counts
    → (after : Counts) × (inc_if_set p counts ≡ some after) × Fits after (λ x. one p x + e x)
unfolding inc_if_set inc
inc_if_set-Fits none counts e f live =
    (counts, refl, λ x. Agree-same (counts x) (e x) (0 + e x) (f x) (omega arith))
inc_if_set-Fits (some o) counts e f (n, there) =
    (write o (some (suc n)) counts, rw (inc, there) refl, fit)
  where
    fit : Fits (write o (some (suc n)) counts) (λ x. one (some o) x + e x)
    fit x = elim (Bool-cases (x == o)) [
      | inl h ↦
          let q : x ≡ o = ground (arith, h) in
          let count : n ≡ e x = Agree-some (counts x) (e x) n (ap counts q ∙ there) (f x) in
          let back : (o == x) ≡ true = ground (arith, h) in rw (h, back) (omega (arith, count))
      | inr h ↦
          let back : (o == x) ≡ false = ground (arith, h) in
          rw (h, back) (Agree-same (counts x) (e x) (0 + e x) (f x) (omega arith))
    ]

-- Whether the objects that lose their last reference are deleted.
abbrev pub Freed : (ℕ → ℕ) → Counts → (ℕ → ℕ) → Type 0
Freed before counts e = (x n : ℕ) → before x ≡ suc n → e x ≡ 0 → counts x ≡ none

-- What dec leaves of a count above 0 by one.
abbrev left : ℕ → Option ℕ
left zero = none
left (suc k) = some (suc k)

left-Agree : (k : ℕ) → Agree (left k) k
left-Agree zero = refl
left-Agree (suc k) = refl

dec-left :
    (o k : ℕ) (counts : Counts)
    → counts o ≡ some (suc k)
    → dec o counts ≡ some (write o (left k) counts)
unfolding dec
dec-left o zero counts h = rw (dec, h) refl
dec-left o (suc k) counts h =
    let less : suc (suc k) - 1 ≡ suc k = omega arith in
    let more : ltb (suc k) 1 ≡ false = ground arith in rw (dec, h, less, more) refl

dec-Fits :
    (o k : ℕ) (counts : Counts) (e : ℕ → ℕ)
    → Fits counts e
    → e o ≡ suc k
    → Fits (write o (left k) counts) (λ x. e x - one (some o) x)
      × Freed e (write o (left k) counts) (λ x. e x - one (some o) x)
dec-Fits o k counts e f h = (fit, freed)
  where
    fit : Fits (write o (left k) counts) (λ x. e x - one (some o) x)
    fit x = elim (Bool-cases (x == o)) [
      | inl g ↦
          let q : x ≡ o = ground (arith, g) in
          let back : (o == x) ≡ true = ground (arith, g) in
          let count : k ≡ e x - 1 = omega (arith, ap e q, h) in
          rw (g, back) (Agree-same (left k) k (e x - 1) (left-Agree k) count)
      | inr g ↦
          let back : (o == x) ≡ false = ground (arith, g) in
          rw (g, back) (Agree-same (counts x) (e x) (e x - 0) (f x) (omega arith))
    ]

    freed : Freed e (write o (left k) counts) (λ x. e x - one (some o) x)
    freed x n before after = elim (Bool-cases (x == o)) [
      | inl g ↦
          let q : x ≡ o = ground (arith, g) in
          let back : (o == x) ≡ true = ground (arith, g) in
          let last : e x - 1 ≡ 0 = ap (λ b. e x - (if b then 1 else 0)) (sym back) ∙ after in
          let gone : k ≡ 0 = omega (arith, ap e q, h, last) in rw g (ap left gone)
      | inr g ↦
          let back : (o == x) ≡ false = ground (arith, g) in
          let same : e x - 0 ≡ 0 = ap (λ b. e x - (if b then 1 else 0)) (sym back) ∙ after in
          absurd (omega (arith, before, same))
    ]

pub dec_if_set-Fits :
    (p : Option ℕ) (counts : Counts) (e : ℕ → ℕ)
    → Fits counts e
    → ((x : ℕ) → (k : ℕ) × (e x ≡ one p x + k))
    → (after : Counts) × (dec_if_set p counts ≡ some after)
      × Fits after (λ x. e x - one p x)
      × Freed e after (λ x. e x - one p x)
unfolding dec_if_set dec
dec_if_set-Fits none counts e f enough = (
  counts,
  refl,
  λ x. Agree-same (counts x) (e x) (e x - 0) (f x) (omega arith),
  λ x n h g. absurd (omega (arith, h, g)),
)
dec_if_set-Fits (some o) counts e f enough =
    let (k, h) = enough o in
    let here : one (some o) o ≡ 1 = ap (λ b. if b then 1 else 0) (==_refl o) in
    let size : e o ≡ suc k = omega (arith, h, here) in
    let there : counts o ≡ some (suc k) =
      Agree-found (counts o) k (Agree-same (counts o) (e o) (suc k) (f o) size) in
    let (fit, freed) = dec-Fits o k counts e f size in
    (write o (left k) counts, dec-left o k counts there, fit, freed)
