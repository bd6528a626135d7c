-- ===== src/Graph/Topological.antt =====
-- An ordering in which every element stands behind all that it takes data from.
use parlevision.Base.{
  ℕ, suc, ◌<◌, ◌≡◌, ◌⊎◌, inl, inr, true, false, ◌||◌, List, [], ◌∷◌, ◌++◌, arith, ◌==◌,
  if◌then◌else◌, contains, Subset, Bool-cases,
}
use parlevision.Graph.Paths.{sources, Upstream, link, extend}
use parlevision.Graph.{Graph}

-- `before` are the elements in front of the list.
abbrev pub IsTopological : Graph → List ℕ → List ℕ → Type 0
IsTopological g before [] = Unit {0}
IsTopological g before (x ∷ xs) =
    (contains x before ≡ false)
    × (contains x g.children ≡ true)
    × Subset (sources g x) before
    × IsTopological g (x ∷ before) xs

-- The place of the first occurrence.
abbrev pub position : ℕ → List ℕ → ℕ
position a [] = 0
position a (x ∷ xs) = if x == a then 0 else suc (position a xs)

pub IsTopological-concat :
    (g : Graph) (n : ℕ) (before xs : List ℕ)
    → IsTopological g before xs
    → (contains n before || contains n xs) ≡ false
    → contains n g.children ≡ true
    → ((a : ℕ) → contains a (sources g n) ≡ true → (contains a before || contains a xs) ≡ true)
    → IsTopological g before (xs ++ n ∷ [])
IsTopological-concat g n before [] t fresh child from =
    (ground arith, child, λ a m. ground (arith, from a m), tt)
IsTopological-concat g n before (x ∷ xs) t fresh child from = (
  t.0,
  t.1,
  t.2,
  IsTopological-concat g n (x ∷ before) xs t.3 (ground arith) child
      (λ a m. ground (arith, from a m)),
)

source-lt :
    (g : Graph) (before xs : List ℕ) (a b : ℕ)
    → IsTopological g before xs
    → contains a xs ≡ true
    → contains b (sources g a) ≡ true
    → (contains b before ≡ true) ⊎ ((contains b xs ≡ true) × (position b xs < position a xs))
source-lt g before [] a b t m s = absurd (ground arith)
source-lt g before (x ∷ xs) a b t m s = elim (Bool-cases (x == a)) [
  | inl e ↦ let q : a ≡ x = ground arith in inl (t.2 b (rw q at s))
  | inr e ↦ ground (arith, source-lt g (x ∷ before) xs a b t.3)
]

-- In such an ordering the sources of an element stand before it.
pub source_before :
    (g : Graph) (xs : List ℕ) (a b : ℕ)
    → IsTopological g [] xs
    → contains a xs ≡ true
    → contains b (sources g a) ≡ true
    → (contains b xs ≡ true) × (position b xs < position a xs)
source_before g xs a b t m s = ground (arith, source-lt g [] xs a b t m s)

Upstream_before :
    (g : Graph) (xs : List ℕ) (a b : ℕ)
    → IsTopological g [] xs
    → contains a xs ≡ true
    → Upstream g a b
    → (contains b xs ≡ true) × (position b xs < position a xs)
Upstream_before g xs a b t m (link s) = source_before g xs a b t m s
Upstream_before g xs a c t m (extend {b} p s) =
    let ih = Upstream_before g xs a b t m p in
    let st = source_before g xs b c t ih.0 s in (st.0, omega (arith, ih.1, st.1))

-- So nothing in it lies on a cycle.
pub no_cycle :
    (g : Graph) (xs : List ℕ) (a : ℕ)
    → IsTopological g [] xs
    → contains a xs ≡ true
    → ¬ Upstream g a a
no_cycle g xs a t m p = omega (arith, (Upstream_before g xs a a t m p).1)
