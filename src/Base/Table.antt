-- ===== src/Base/Table.antt =====
-- A QHash or a QMap with numbers for keys, as a list of its entries in the order of iteration.
use Prim.Native.Nat.{ℕ}
use mathlib.Core.Bool.{false, ◌||◌}
use mathlib.Core.List.{List, [], ◌∷◌}
use mathlib.Core.Logic.{inl, inr}
use mathlib.Core.Option.{Option, none, some}
use mathlib.Core.Path.{◌≡◌, refl, sym, ap, ◌∙◌}
use native.Mathlib.Omega.{arith}
use parlevision.Base.Lists.{contains, erase_all}
use parlevision.Base.Tests.{◌==◌, if◌then◌else◌, Bool-cases}

abbrev pub Table {ℓ} : Type ℓ → Type ℓ
Table V = List (ℕ × V)

module _ {ℓ} {V : Type ℓ} where
  -- value(k), find(k)
  unfoldable pub lookup : ℕ → Table V → Option V
  lookup k [] = none
  lookup k ((j, new) ∷ entries) = if j == k then some new else lookup k entries

  -- insert(k, new) replaces the value of a key that is there. A new key stands at the end.
  unfoldable pub insert : ℕ → V → Table V → Table V
  insert k new [] = (k, new) ∷ []
  insert k new ((j, held) ∷ entries) =
      if j == k then (j, new) ∷ entries else (j, held) ∷ insert k new entries

  unfoldable pub remove : ℕ → Table V → Table V
  remove k [] = []
  remove k ((j, held) ∷ entries) = if j == k then remove k entries else (j, held) ∷ remove k entries

  abbrev pub keys : Table V → List ℕ
  keys [] = []
  keys ((j, new) ∷ entries) = j ∷ keys entries

  abbrev pub values : Table V → List V
  values [] = []
  values ((j, new) ∷ entries) = new ∷ values entries

  pub lookup-insert :
      (k j : ℕ) (new : V) (entries : Table V)
      → lookup j (insert k new entries) ≡ (if k == j then some new else lookup j entries)
  unfolding lookup insert
  lookup-insert k j new [] = refl
  lookup-insert k j new ((i, held) ∷ entries) = ground (arith, lookup-insert k j new entries)

  pub lookup-remove :
      (k j : ℕ) (entries : Table V)
      → lookup j (remove k entries) ≡ (if k == j then none else lookup j entries)
  unfolding lookup remove
  lookup-remove k j [] = ground arith
  lookup-remove k j ((i, held) ∷ entries) = ground (arith, lookup-remove k j entries)

  pub contains-keys-insert :
      (k j : ℕ) (new : V) (entries : Table V)
      → contains j (keys (insert k new entries)) ≡ (k == j || contains j (keys entries))
  unfolding insert
  contains-keys-insert k j new [] = refl
  contains-keys-insert k j new ((i, held) ∷ entries) =
      ground (arith, contains-keys-insert k j new entries)

  pub keys-remove :
      (k : ℕ) (entries : Table V) → keys (remove k entries) ≡ erase_all k (keys entries)
  unfolding remove
  keys-remove k [] = refl
  keys-remove k ((i, held) ∷ entries) = ground (arith, keys-remove k entries)

module _ {V : Type 0} where
  pub lookup-absent : (k : ℕ) (t : Table V) → contains k (keys t) ≡ false → lookup k t ≡ none
  unfolding lookup
  lookup-absent k [] h = refl
  lookup-absent k ((j, v) ∷ t) h = ground (arith, h, lookup-absent k t)

  pub lookup-contains : (k : ℕ) (t : Table V) → lookup k t ≡ none → contains k (keys t) ≡ false
  unfolding lookup
  lookup-contains k [] h = refl
  lookup-contains k ((j, v) ∷ t) h = ground (arith, h, lookup-contains k t)

  pub apart_of_absent :
      (k j : ℕ) (v : V) (t : Table V)
      → lookup j t ≡ some v
      → contains k (keys t) ≡ false
      → (k == j) ≡ false
  apart_of_absent k j v t h free = elim (Bool-cases (k == j)) [
    | inr apart ↦ apart
    | inl same ↦
        let q : k ≡ j = ground (arith, same) in
        absurd (ground (arith, sym h ∙ ap (λ i. lookup i t) (sym q) ∙ lookup-absent k t free))
  ]
