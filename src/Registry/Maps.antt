-- ===== src/Registry/Maps.antt =====
-- A QMap: its entries in the ascending order of their keys.
use parlevision.Base.{
  ℕ, ◌≡◌, refl, subst, true, false, List, [], ◌∷◌, Option, none, some, ◌==◌, ltb, if◌then◌else◌,
  contains, arith, Bool-cases, inl, inr,
}
use parlevision.Base.Table.{Table, keys}

-- All numbers are above the first, and ascend.
abbrev pub Above : ℕ → List ℕ → Type 0
Above b [] = Unit {0}
Above b (k ∷ ks) = (ltb b k ≡ true) × Above k ks

abbrev pub Ascending : List ℕ → Type 0
Ascending [] = Unit {0}
Ascending (k ∷ ks) = Above k ks

pub Above-absent : (b k : ℕ) (ks : List ℕ) → Above b ks → ltb b k ≡ false → contains k ks ≡ false
Above-absent b k [] a h = refl
Above-absent b k (j ∷ ks) a h = ground (arith, a.0, Above-absent j k ks a.1)

Above-weaken : (b c : ℕ) (ks : List ℕ) → ltb b c ≡ true → Above c ks → Above b ks
Above-weaken b c [] h a = tt
Above-weaken b c (j ∷ ks) h a = (ground (arith, a.0), a.1)

pub Above-Ascending : (b : ℕ) (ks : List ℕ) → Above b ks → Ascending ks
Above-Ascending b [] a = tt
Above-Ascending b (k ∷ ks) a = a.1

module _ {V : Type 0} where
  unfoldable pub value : ℕ → Table V → Option V
  value k [] = none
  value k ((j, v) ∷ entries) = if j == k then some v else value k entries

  unfoldable pub insert : ℕ → V → Table V → Table V
  insert k v [] = (k, v) ∷ []
  insert k v ((j, held) ∷ entries) =
      let rest = insert k v entries in
      if j == k
      then (k, v) ∷ entries
      else if ltb k j
      then (k, v) ∷ (j, held) ∷ entries
      else (j, held) ∷ rest

  unfoldable pub remove : ℕ → Table V → Table V
  remove k [] = []
  remove k ((j, held) ∷ entries) =
      let rest = remove k entries in if j == k then entries else (j, held) ∷ rest

  pub value-insert :
      (k j : ℕ) (v : V) (entries : Table V)
      → value j (insert k v entries) ≡ (if k == j then some v else value j entries)
  unfolding value insert
  value-insert k j v [] = refl
  value-insert k j v ((i, held) ∷ entries) = ground (arith, value-insert k j v entries)

  pub value-absent :
      (k : ℕ) (entries : Table V) → contains k (keys entries) ≡ false → value k entries ≡ none
  unfolding value
  value-absent k [] h = refl
  value-absent k ((i, held) ∷ entries) h = ground (arith, value-absent k entries)

  pub value-present :
      (k : ℕ) (v : V) (entries : Table V)
      → value k entries ≡ some v
      → contains k (keys entries) ≡ true
  unfolding value
  value-present k v [] h = absurd (ground arith)
  value-present k v ((i, held) ∷ entries) h = ground (arith, value-present k v entries)

  value-remove-Above :
      (b k j : ℕ) (entries : Table V)
      → Above b (keys entries)
      → value j (remove k entries) ≡ (if k == j then none else value j entries)
  unfolding value remove
  value-remove-Above b k j [] a = ground arith
  value-remove-Above b k j ((i, held) ∷ entries) a = ground (
    arith,
    value-remove-Above i k j entries a.1,
    Above-absent i i (keys entries) a.1,
    value-absent j entries,
  )

  pub value-remove :
      (k j : ℕ) (entries : Table V)
      → Ascending (keys entries)
      → value j (remove k entries) ≡ (if k == j then none else value j entries)
  unfolding value remove
  value-remove k j [] a = ground arith
  value-remove k j ((i, held) ∷ entries) a = ground (
    arith,
    value-remove-Above i k j entries a,
    Above-absent i i (keys entries) a,
    value-absent j entries,
  )

  insert-Above :
      (b k : ℕ) (v : V) (entries : Table V)
      → ltb b k ≡ true
      → Above b (keys entries)
      → Above b (keys (insert k v entries))
  unfolding insert
  insert-Above b k v [] h a = (h, tt)
  insert-Above b k v ((i, held) ∷ entries) h a = elim (Bool-cases (i == k)) [
    | inl e ↦ let q : i ≡ k = ground arith in rw e (h, subst (λ x. Above x (keys entries)) q a.1)
    | inr e ↦ elim (Bool-cases (ltb k i)) [
      | inl f ↦ rw (e, f) (h, (f, a.1))
      | inr f ↦ rw (e, f) (a.0, insert-Above i k v entries (ground arith) a.1)
    ]
  ]

  pub insert-Ascending :
      (k : ℕ) (v : V) (entries : Table V)
      → Ascending (keys entries)
      → Ascending (keys (insert k v entries))
  unfolding insert
  insert-Ascending k v [] a = tt
  insert-Ascending k v ((i, held) ∷ entries) a = elim (Bool-cases (i == k)) [
    | inl e ↦ let q : i ≡ k = ground arith in rw e (subst (λ x. Above x (keys entries)) q a)
    | inr e ↦ elim (Bool-cases (ltb k i)) [
      | inl f ↦ rw (e, f) (f, a)
      | inr f ↦ rw (e, f) (insert-Above i k v entries (ground arith) a)
    ]
  ]

  remove-Above :
      (b k : ℕ) (entries : Table V) → Above b (keys entries) → Above b (keys (remove k entries))
  unfolding remove
  remove-Above b k [] a = tt
  remove-Above b k ((i, held) ∷ entries) a = elim (Bool-cases (i == k)) [
    | inl e ↦ rw e (Above-weaken b i (keys entries) a.0 a.1)
    | inr e ↦ rw e (a.0, remove-Above i k entries a.1)
  ]

  pub remove-Ascending :
      (k : ℕ) (entries : Table V) → Ascending (keys entries) → Ascending (keys (remove k entries))
  unfolding remove
  remove-Ascending k [] a = tt
  remove-Ascending k ((i, held) ∷ entries) a = elim (Bool-cases (i == k)) [
    | inl e ↦ rw e (Above-Ascending i (keys entries) a)
    | inr e ↦ rw e (remove-Above i k entries a)
  ]

  pub value-of_contains :
      (k : ℕ) (entries : Table V)
      → contains k (keys entries) ≡ true
      → (v : V) × (value k entries ≡ some v)
  unfolding value
  value-of_contains k [] h = absurd (ground arith)
  value-of_contains k ((i, held) ∷ entries) h = elim (Bool-cases (i == k)) [
    | inl e ↦ (held, rw e refl)
    | inr e ↦ let (v, f) = value-of_contains k entries (ground arith) in (v, rw e f)
  ]
