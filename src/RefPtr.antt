-- ===== src/RefPtr.antt =====
-- The pointers that count references: include/plvcore/RefPtr.h and include/plvcore/RefCounted.h. An
-- object is a number, its address, and has no such pointer in it. RefPtrs are variables under names
-- on a stack, the last one first.
pub mod Held
pub mod Counts
mod Examples
use parlevision.Base.{
  ℕ, suc, ◌-◌, Bool, true, false, List, [], ◌∷◌, Option, none, some, ◌==◌, ltb, if◌then◌else◌,
}
use parlevision.Base.Table.{Table, lookup}

-- m_referenceCount of each object; `none` is an object that is deleted or not made yet.
abbrev pub Counts : Type 0
Counts = ℕ → Option ℕ

abbrev pub write : ℕ → Option ℕ → Counts → Counts
write o count counts = λ x. if x == o then count else counts x

-- pointers: m_ptr of each RefPtr, where `none` is the null pointer.
pub record Refs : Type 0 where
  pub counts : Counts
  pub pointers : Table (Option ℕ)

abbrev pub no_refs : Refs
no_refs = record { counts = λ o. none; pointers = [] }

-- RefCounted::inc and RefCounted::dec; `none` is an access to an object that is deleted.
unfoldable pub inc : ℕ → Counts → Option Counts
inc o counts = elim (counts o) [ none ↦ none | some n ↦ some (write o (some (suc n)) counts) ]

unfoldable pub dec : ℕ → Counts → Option Counts
dec o counts = elim (counts o) [
  | none ↦ none
  | some n ↦
      if ltb (n - 1) 1 then some (write o none counts) else some (write o (some (n - 1)) counts)
]

-- inc and dec on a pointer that is not null.
unfoldable pub inc_if_set : Option ℕ → Counts → Option Counts
unfolding inc
inc_if_set none counts = some counts
inc_if_set (some o) counts = inc o counts

unfoldable pub dec_if_set : Option ℕ → Counts → Option Counts
unfolding dec
dec_if_set none counts = some counts
dec_if_set (some o) counts = dec o counts

abbrev pub is_same : Option ℕ → Option ℕ → Bool
is_same none none = true
is_same none (some p) = false
is_same (some o) none = false
is_same (some o) (some p) = o == p

-- The last variable with a name changes or goes.
abbrev pub replace : ℕ → Option ℕ → Table (Option ℕ) → Table (Option ℕ)
replace v p [] = []
replace v p ((w, q) ∷ pointers) =
    if w == v then (w, p) ∷ pointers else (w, q) ∷ replace v p pointers

abbrev pub drop_first : ℕ → Table (Option ℕ) → Table (Option ℕ)
drop_first v [] = []
drop_first v ((w, q) ∷ pointers) = if w == v then pointers else (w, q) ∷ drop_first v pointers

-- RefPtr( T* ptr )
unfoldable pub construct : ℕ → Option ℕ → Refs → Option Refs
unfolding inc_if_set
construct v p s = elim (inc_if_set p s.counts) [
  | none ↦ none
  | some counts ↦ some (record { counts = counts; pointers = (v, p) ∷ s.pointers })
]

-- ~RefPtr(), for a variable with the pointer p
unfoldable pub destroy_pointer : ℕ → Option ℕ → Refs → Option Refs
unfolding dec_if_set
destroy_pointer v p s = elim (dec_if_set p s.counts) [
  | none ↦ none
  | some counts ↦ some (record { counts = counts; pointers = drop_first v s.pointers })
]

-- operator = ( T* ptr ), for a variable with the pointer old
unfoldable pub assign_pointer : ℕ → (old new : Option ℕ) → Refs → Option Refs
unfolding inc_if_set dec_if_set
assign_pointer v old new s = if is_same old new then some s else elim (inc_if_set new s.counts) [
  | none ↦ none
  | some counts ↦ elim (dec_if_set old counts) [
    | none ↦ none
    | some less ↦ some (record { counts = less; pointers = replace v new s.pointers })
  ]
]

-- set( T* obj ), for a variable with the pointer old
unfoldable pub set_pointer : ℕ → (old new : Option ℕ) → Refs → Option Refs
unfolding dec_if_set
set_pointer v old new s = elim (dec_if_set old s.counts) [
  | none ↦ none
  | some counts ↦ some (record { counts = counts; pointers = replace v new s.pointers })
]

-- What a program does with objects and RefPtrs; set is apart.
pub data Action : Type 0 where
  make_object : ℕ → Action
  from_pointer : (v : ℕ) → Option ℕ → Action
  copy : (v from : ℕ) → Action
  assign : (v from : ℕ) → Action
  assign_from_pointer : (v : ℕ) → Option ℕ → Action
  destroy : ℕ → Action

unfoldable pub on_variable : ℕ → (Option ℕ → Refs → Option Refs) → Refs → Option Refs
unfolding lookup
on_variable v f s = elim (lookup v s.pointers) [ none ↦ none | some p ↦ f p s ]

unfoldable pub perform : Action → Refs → Option Refs
unfolding construct assign_pointer destroy_pointer on_variable
perform (make_object o) s = some (record s { counts = write o (some 0) s.counts })
perform (from_pointer v p) s = construct v p s
perform (copy v from) s = on_variable from (construct v) s
perform (assign v from) s =
    on_variable from (λ new. on_variable v (λ old. assign_pointer v old new)) s
perform (assign_from_pointer v new) s = on_variable v (λ old. assign_pointer v old new) s
perform (destroy v) s = on_variable v (destroy_pointer v) s
