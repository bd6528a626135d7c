-- ===== src/RefPtr/Examples.antt =====
-- Two objects and two RefPtrs.
use parlevision.Base.{
  ℕ, ◌≡◌, refl, List, [], ◌∷◌, ◌++◌, Option, none, some, ◌==◌, if◌then◌else◌, map, Bool-cases, inl,
  inr,
}
use parlevision.Base.Table.{lookup}
use parlevision.RefPtr.{
  Refs, no_refs, set_pointer, Action, make_object, from_pointer, assign, destroy, perform,
}
use parlevision.RefPtr.Held.{IsCounted}
use parlevision.RefPtr.Counts.{IsDone, perform-IsDone}

abbrev run : List Action → Refs → Option Refs
run [] s = some s
run (a ∷ actions) s = elim (perform a s) [ none ↦ none | some t ↦ run actions t ]

-- The object 7 is held once.
abbrev held : Refs
held = record { counts = λ o. if 7 == o then some 1 else none; pointers = (0, some 7) ∷ [] }

held-IsCounted : IsCounted held
held-IsCounted x = elim (Bool-cases (7 == x)) [ inl e ↦ rw e refl | inr e ↦ rw e refl ]

perform-IsDone_example : IsDone held (perform (destroy 0) held)
unfolding lookup
perform-IsDone_example = perform-IsDone (destroy 0) held held-IsCounted (some 7, refl)

-- How often objects are counted after some calls.
abbrev counts_after : List Action → List ℕ → Option (List (Option ℕ))
counts_after actions objects = elim (run actions no_refs) [
  | none ↦ none
  | some s ↦ some (map s.counts objects)
]

abbrev two_held : List Action
two_held = make_object 7 ∷ make_object 8 ∷ from_pointer 0 (some 7) ∷ from_pointer 1 (some 8) ∷ []

assigned_over : counts_after (two_held ++ assign 0 1 ∷ []) (7 ∷ 8 ∷ []) ≡ some (none ∷ some 2 ∷ [])
unfolding perform lookup
assigned_over = refl

-- After set the object 8 has two RefPtrs and a count of one, so that the first destructor deletes
-- it, and the second uses it.
abbrev after_set : Option Refs
after_set = elim (run two_held no_refs) [ none ↦ none | some s ↦ set_pointer 0 (some 7) (some 8) s ]

set-counts_too_little :
    (elim after_set [ none ↦ none | some s ↦ run (destroy 0 ∷ destroy 1 ∷ []) s ]) ≡ none
unfolding perform set_pointer lookup
set-counts_too_little = refl
