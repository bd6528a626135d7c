-- ===== src/RefPtr/Counts.antt =====
-- The counts of include/plvcore/RefCounted.h under the calls of include/plvcore/RefPtr.h.
use parlevision.Base.{
  ℕ, suc, ◌+◌, ◌-◌, ◌≡◌, refl, sym, ap, ◌∙◌, ◌∷◌, Option, none, some, ◌==◌, ==_refl, if◌then◌else◌,
  arith, Bool-cases, inl, inr, subst,
}
use parlevision.Base.Table.{lookup}
use parlevision.RefPtr.{
  write, Refs, is_same, replace, drop_first, construct, destroy_pointer, assign_pointer, Action,
  make_object, from_pointer, copy, assign, assign_from_pointer, destroy, on_variable, perform,
}
use parlevision.RefPtr.Held.{
  one, refs, Agree, IsCounted, IsLive, refs-drop_first, refs-replace, Agree-same, Agree-found,
  inc_if_set-Fits, dec_if_set-Fits,
}

-- That a call ends without an access to a deleted object, leaves the counts right, and deletes each
-- object that loses its last RefPtr.
pub record IsDone (s : Refs) (result : Option Refs) : Type 0 where
  pub after : Refs
  pub ends : result ≡ some after
  pub counted : IsCounted after
  pub freed :
      (x n : ℕ) → refs x s.pointers ≡ suc n → refs x after.pointers ≡ 0 → after.counts x ≡ none

construct-IsDone :
    (v : ℕ) (p : Option ℕ) (s : Refs) → IsCounted s → IsLive p s.counts → IsDone s (construct v p s)
unfolding construct
construct-IsDone v p s counted live =
    let (counts, same, fit) = inc_if_set-Fits p s.counts (λ x. refs x s.pointers) counted live in
    record {
      after = record { counts = counts; pointers = (v, p) ∷ s.pointers };
      ends = rw (construct, same) refl;
      counted = fit;
      freed = λ x n before gone. absurd (omega (arith, before, gone));
    }

destroy_pointer-IsDone :
    (v : ℕ) (p : Option ℕ) (s : Refs)
    → IsCounted s
    → lookup v s.pointers ≡ some p
    → IsDone s (destroy_pointer v p s)
unfolding destroy_pointer
destroy_pointer-IsDone v p s counted there =
    let rest = drop_first v s.pointers in
    let (counts, same, fit, freed) =
      dec_if_set-Fits p s.counts (λ x. refs x s.pointers) counted
        (λ x. (refs x rest, refs-drop_first x v p s.pointers there)) in
    record {
      after = record { counts = counts; pointers = rest };
      ends = rw (destroy_pointer, same) refl;
      counted = λ x.
          Agree-same (counts x) (refs x s.pointers - one p x) (refs x rest) (fit x)
            (omega (arith, refs-drop_first x v p s.pointers there));
      freed = λ x n before gone.
          freed x n before (omega (arith, refs-drop_first x v p s.pointers there, gone));
    }

assign_pointer-IsDone :
    (v : ℕ) (old new : Option ℕ) (s : Refs)
    → IsCounted s
    → lookup v s.pointers ≡ some old
    → IsLive new s.counts
    → IsDone s (assign_pointer v old new s)
unfolding assign_pointer
assign_pointer-IsDone v old new s counted there live = elim (Bool-cases (is_same old new)) [
  | inl e ↦ record {
    after = s;
    ends = rw e refl;
    counted = counted;
    freed = λ x n before gone. absurd (omega (arith, before, gone));
  }
  | inr e ↦
      let held = λ (x : ℕ). refs x s.pointers in
      let (counts, same, fit) = inc_if_set-Fits new s.counts held counted live in
      let (less, ends, fit_less, freed) =
        dec_if_set-Fits old counts (λ x. one new x + held x) fit
          (λ x. (
            one new x + refs x (drop_first v s.pointers),
            omega (arith, refs-drop_first x v old s.pointers there),
          )) in
      record {
        after = record { counts = less; pointers = replace v new s.pointers };
        ends = rw (assign_pointer, e, same, ends) refl;
        counted = λ x.
            Agree-same (less x) ((one new x + held x) - one old x)
              (refs x (replace v new s.pointers)) (fit_less x)
              (omega (arith, refs-replace x v old new s.pointers there));
        freed = λ x n before gone.
            freed x (one new x + n) (omega (arith, before))
              (omega (arith, refs-replace x v old new s.pointers there, gone));
      }
]

lookup-IsLive :
    (v : ℕ) (p : Option ℕ) (s : Refs)
    → IsCounted s
    → lookup v s.pointers ≡ some p
    → IsLive p s.counts
lookup-IsLive v none s counted there = tt
lookup-IsLive v (some o) s counted there =
    let rest = refs o (drop_first v s.pointers) in
    let here : one (some o) o ≡ 1 = ap (λ b. if b then 1 else 0) (==_refl o) in
    let size : refs o s.pointers ≡ suc rest =
      refs-drop_first o v (some o) s.pointers there ∙ omega (arith, here) in
    (
      suc rest,
      Agree-found (s.counts o) rest
          (Agree-same (s.counts o) (refs o s.pointers) (suc rest) (counted o) size),
    )

abbrev pub HasVariable : ℕ → Refs → Type 0
HasVariable v s = (p : Option ℕ) × (lookup v s.pointers ≡ some p)

-- What a program must keep to: an object is made where there is none, a pointer that is not a
-- RefPtr leads to an object that is there, and a variable is used while it is there.
abbrev pub Allowed : Action → Refs → Type 0
Allowed (make_object o) s = s.counts o ≡ none
Allowed (from_pointer v p) s = IsLive p s.counts
Allowed (copy v from) s = HasVariable from s
Allowed (assign v from) s = HasVariable v s × HasVariable from s
Allowed (assign_from_pointer v p) s = HasVariable v s × IsLive p s.counts
Allowed (destroy v) s = HasVariable v s

make_object-IsDone :
    (o : ℕ) (s : Refs)
    → IsCounted s
    → s.counts o ≡ none
    → IsDone s (some (record s { counts = write o (some 0) s.counts }))
make_object-IsDone o s counted free = record {
  after = record s { counts = write o (some 0) s.counts };
  ends = refl;
  counted = λ x. elim (Bool-cases (x == o)) [
    | inl e ↦
        let q : x ≡ o = ground (arith, e) in
        let none_here : Agree none (refs x s.pointers) =
          subst (λ c. Agree c (refs x s.pointers)) (ap s.counts q ∙ free) (counted x) in
        rw e (sym none_here)
    | inr e ↦ rw e (counted x)
  ];
  freed = λ x n before gone. absurd (omega (arith, before, gone));
}

-- If the counts are right, what a program does that keeps to the rules ends without an access to a
-- deleted object, leaves the counts right, and deletes each object that loses its last RefPtr by it.
-- The program does not use set, and no object has a RefPtr in it.
pub perform-IsDone :
    (action : Action) (s : Refs) → IsCounted s → Allowed action s → IsDone s (perform action s)
unfolding perform on_variable
perform-IsDone (make_object o) s counted free = make_object-IsDone o s counted free
perform-IsDone (from_pointer v p) s counted live = construct-IsDone v p s counted live
perform-IsDone (copy v from) s counted (p, there) =
    rw (perform, on_variable, there)
      (construct-IsDone v p s counted (lookup-IsLive from p s counted there))
perform-IsDone (assign v from) s counted ((old, here), (p, there)) =
    rw (perform, on_variable, there, here)
      (assign_pointer-IsDone v old p s counted here (lookup-IsLive from p s counted there))
perform-IsDone (assign_from_pointer v p) s counted ((old, here), live) =
    rw (perform, on_variable, here) (assign_pointer-IsDone v old p s counted here live)
perform-IsDone (destroy v) s counted (p, here) =
    rw (perform, on_variable, here) (destroy_pointer-IsDone v p s counted here)
