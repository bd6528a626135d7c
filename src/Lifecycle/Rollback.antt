-- ===== src/Lifecycle/Rollback.antt =====
-- src/plvcore/Pipeline.cpp (init): what is left when an element could not be initialized.
use parlevision.Base.{
  ℕ, ◌≡◌, refl, Bool, true, false, ◌||◌, List, [], ◌∷◌, if◌then◌else◌, contains, arith, ◌⊎◌, inl,
  inr,
}
use parlevision.Store.{
  State, undefined, initialized, started, dispatched, running, finished, failed, update,
}
use parlevision.Lifecycle.{
  Outcome, returns, throwing, Phase, said, threw, Hooks, Ending, done, refused, Elements, init,
  deinit, deinit_all, roll_back, init_all,
}

abbrev pub fresh : Phase
fresh = record { state = undefined; reported = false }

abbrev pub Distinct : List ℕ → Type 0
Distinct [] = Unit {0}
Distinct (e ∷ es) = (contains e es ≡ false) × Distinct es

-- Whether __deinit may be called.
abbrev pub can_deinit : State → Bool
can_deinit undefined = false
can_deinit initialized = true
can_deinit started = false
can_deinit dispatched = false
can_deinit running = false
can_deinit finished = false
can_deinit failed = true

-- Whether a method that fails has called setError.
abbrev pub is_reported : Outcome → Bool
is_reported (returns true r) = true
is_reported (returns false r) = r
is_reported (throwing r) = r

pub deinit_lem : (p : Phase) → can_deinit p.state ≡ true → deinit true p ≡ (said true, fresh)
unfolding deinit
deinit_lem p h = go p.state refl
  where
    go : (st : State) → p.state ≡ st → deinit true p ≡ (said true, fresh)
    go undefined e = absurd (ground arith)
    go initialized e = rw e
    go started e = absurd (ground arith)
    go dispatched e = absurd (ground arith)
    go running e = absurd (ground arith)
    go finished e = absurd (ground arith)
    go failed e = rw e

-- All elements of the list are undefined after __deinit of each.
pub deinit_all-fresh :
    (h : Hooks) (es : List ℕ) (s : Elements)
    → Distinct es
    → ((e : ℕ) → h.on_deinit e ≡ true)
    → ((e : ℕ) → contains e es ≡ true → can_deinit (s e).state ≡ true)
    → ((deinit_all h es s).0 ≡ done)
      × ((x : ℕ) → (deinit_all h es s).1 x ≡ (if contains x es then fresh else s x))
unfolding deinit_all
deinit_all-fresh h [] s dis good can = (refl, λ x. refl)
deinit_all-fresh h (e ∷ es) s dis good can =
    let here : deinit (h.on_deinit e) (s e) ≡ (said true, fresh) =
      rw (good e) (deinit_lem (s e) (can e (ground arith))) in
    let there =
      deinit_all-fresh h es (update s e fresh) dis.1 good (λ x m. ground (arith, can x)) in
    (ground (arith, here, there.0), λ x. ground (arith, here, there.1 x))

-- What the loop of init leaves, after the elements in `before`.
Initialized : List ℕ → List ℕ → Elements → Ending × Elements → Type 0
Initialized before es s (r, t) =
    ((r ≡ done) × ((x : ℕ) → (t x).state ≡ (if contains x es then initialized else (s x).state)))
    ⊎ ((r ≡ refused)
        × ((x : ℕ) → t x ≡ (if contains x before || contains x es then fresh else s x)))

-- A failed element, and those before it, are fresh after the roll back.
roll_back-fresh :
    (h : Hooks) (e : ℕ) (es before : List ℕ) (s : Elements) (p : Phase)
    → Distinct (e ∷ before)
    → ((x : ℕ) → h.on_deinit x ≡ true)
    → ((x : ℕ) → contains x before ≡ true → can_deinit (s x).state ≡ true)
    → ((x : ℕ) → contains x es ≡ true → s x ≡ fresh)
    → p.state ≡ failed
    → Initialized before (e ∷ es) s (roll_back h e before (update s e p))
unfolding Initialized roll_back
roll_back-fresh h e es before s p dis good can new f =
    let (ending, after) =
      deinit_all-fresh h (e ∷ before) (update s e p) dis good (λ x m. ground (arith, f, can x)) in
    inr (ground (arith, ending), λ x. ground (arith, after x, new x))

goes_on :
    (h : Hooks) (e : ℕ) (es before : List ℕ) (s : Elements) (p : Phase)
    → init (h.on_init e) (s e) ≡ (said true, p)
    → init_all h before (e ∷ es) s ≡ init_all h (e ∷ before) es (update s e p)
unfolding init_all
goes_on h e es before s p q = ground (arith, q)

gives_up :
    (h : Hooks) (e : ℕ) (es before : List ℕ) (s : Elements) (p : Phase)
    → (init (h.on_init e) (s e) ≡ (said false, p)) ⊎ (init (h.on_init e) (s e) ≡ (threw, p))
    → p.reported ≡ true
    → init_all h before (e ∷ es) s ≡ roll_back h e before (update s e p)
unfolding init_all
gives_up h e es before s p (inl q) told = ground (arith, q, told)
gives_up h e es before s p (inr q) told = ground (arith, q, told)

Initialized-step :
    (before es : List ℕ) (e : ℕ) (s : Elements) (p : Phase) (r : Ending × Elements)
    → p.state ≡ initialized
    → contains e es ≡ false
    → Initialized (e ∷ before) es (update s e p) r
    → Initialized before (e ∷ es) s r
unfolding Initialized
Initialized-step before es e s p r i a (inl (q, t)) = inl (q, λ x. ground (arith, t x))
Initialized-step before es e s p r i a (inr (q, t)) = inr (q, λ x. ground (arith, t x))

init_all-Initialized :
    (h : Hooks) (before es : List ℕ) (s : Elements)
    → Distinct before
    → Distinct es
    → ((x : ℕ) → contains x es ≡ true → contains x before ≡ false)
    → ((x : ℕ) → is_reported (h.on_init x) ≡ true)
    → ((x : ℕ) → h.on_deinit x ≡ true)
    → ((x : ℕ) → contains x before ≡ true → can_deinit (s x).state ≡ true)
    → ((x : ℕ) → contains x es ≡ true → s x ≡ fresh)
    → Initialized before es s (init_all h before es s)
unfolding Initialized init_all init
init_all-Initialized h before [] s db de apart told good can new = inl (refl, λ x. refl)
init_all-Initialized h before (e ∷ es) s db de apart told good can new =
    by_outcome (h.on_init e) refl (λ p f.
      init_all-Initialized h (e ∷ before) es (update s e p) (apart e (ground arith), db) de.1
        (λ x m. ground (arith, apart x)) told good (λ x m. ground (arith, f, can x))
        (λ x m. ground (arith, new x)))
  where
    broken : Phase
    broken = record { state = failed; reported = true }

    gone :
        (init (h.on_init e) (s e) ≡ (said false, broken))
          ⊎ (init (h.on_init e) (s e) ≡ (threw, broken))
        → Initialized before (e ∷ es) s (init_all h before (e ∷ es) s)
    gone f = rw (gives_up h e es before s broken f refl) (
        roll_back-fresh h e es before s broken (apart e (ground arith), db) good can
          (λ x m. new x (ground arith)) refl)

    by_outcome :
        (o : Outcome)
        → h.on_init e ≡ o
        → ((p : Phase)
            → p.state ≡ initialized
            → Initialized
                (e ∷ before)
                es
                (update s e p)
                (init_all h (e ∷ before) es (update s e p)))
        → Initialized before (e ∷ es) s (init_all h before (e ∷ es) s)
    by_outcome (returns true r) q next =
        let p : Phase = record { state = initialized; reported = r } in
        let first : init (h.on_init e) (s e) ≡ (said true, p) = rw (q, new e (ground arith)) refl in
        rw (goes_on h e es before s p first) (
          Initialized-step before es e s p (init_all h (e ∷ before) es (update s e p)) refl de.0
            (next p refl))
    by_outcome (returns false false) q next = absurd (ground (arith, told e))
    by_outcome (throwing false) q next = absurd (ground (arith, told e))
    by_outcome (returns false true) q next = gone (inl (rw (q, new e (ground arith)) refl))
    by_outcome (throwing true) q next = gone (inr (rw (q, new e (ground arith)) refl))

-- Pipeline::init on elements that are all undefined, when an element that fails in init has called
-- setError and every deinit succeeds: either all elements are initialized, or init fails and every
-- element of the pipeline is as it was before, undefined and without an error.
pub init_all-rolls_back :
    (h : Hooks) (es : List ℕ) (s : Elements)
    → Distinct es
    → ((e : ℕ) → is_reported (h.on_init e) ≡ true)
    → ((e : ℕ) → h.on_deinit e ≡ true)
    → ((e : ℕ) → contains e es ≡ true → s e ≡ fresh)
    → let (r, t) = init_all h [] es s in
      ((r ≡ done) × ((x : ℕ) → (t x).state ≡ (if contains x es then initialized else (s x).state)))
      ⊎ ((r ≡ refused) × ((x : ℕ) → t x ≡ s x))
unfolding Initialized
init_all-rolls_back h es s de told good new =
    elim (init_all-Initialized h [] es s tt de (λ x m. refl) told good
      (λ x m. absurd (ground arith)) new) [
        | inl w ↦ inl w
        | inr (q, t) ↦ inr (q, λ x. ground (arith, t x, new x))
      ]
