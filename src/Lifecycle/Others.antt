-- ===== src/Lifecycle/Others.antt =====
-- src/plvcore/Pipeline.cpp (init, start): the elements that are not in the pipeline.
use parlevision.Base.{
  ℕ, ◌≡◌, ◌≢◌, refl, ◌∙◌, true, false, not, ◌&&◌, List, [], ◌∷◌, contains, arith, Bool-cases, inl,
  inr,
}
use parlevision.Store.{update}
use parlevision.Lifecycle.{
  Phase, Called, said, threw, asserted, Hooks, done, Elements, init, start, init_all, start_all,
  roll_back, abandon,
}

pub abandon-not_done :
    (h : Hooks) (e : ℕ) (before : List ℕ) (s : Elements) → (abandon h e before s).0 ≢ done
unfolding abandon
abandon-not_done h e before s d = ground arith

roll_back-not_done :
    (h : Hooks) (e : ℕ) (before : List ℕ) (s : Elements) → (roll_back h e before s).0 ≢ done
unfolding roll_back
roll_back-not_done h e before s d = ground arith

-- An init without an error changes only the elements of the list.
pub init_all-others :
    (h : Hooks) (before es : List ℕ) (s : Elements)
    → (init_all h before es s).0 ≡ done
    → (x : ℕ) → contains x es ≡ false
    → (init_all h before es s).1 x ≡ s x
unfolding init_all
init_all-others h before [] s d x m = refl
init_all-others h before (e ∷ es) s d x m =
    go (init (h.on_init e) (s e)).0 (init (h.on_init e) (s e)).1
      (λ p q. init_all-others h (e ∷ before) es (update s e p) q x (ground (arith, m))) refl
  where
    go :
        (r : Called) (p : Phase)
        → ((p : Phase)
            → (init_all h (e ∷ before) es (update s e p)).0 ≡ done
            → (init_all h (e ∷ before) es (update s e p)).1 x ≡ update s e p x)
        → init (h.on_init e) (s e) ≡ (r, p)
        → (init_all h before (e ∷ es) s).1 x ≡ s x
    go asserted p later k = absurd (ground (arith, k, d))
    go threw p later k =
        let back : init_all h before (e ∷ es) s ≡ roll_back h e before (update s e p) =
          ground (arith, k) in
        absurd (roll_back-not_done h e before (update s e p) (rw (← back) d))
    go (said b) p later k = elim (Bool-cases (not b && p.reported)) [
      | inl y ↦
          let back : init_all h before (e ∷ es) s ≡ roll_back h e before (update s e p) =
            ground (arith, k, y) in
          absurd (roll_back-not_done h e before (update s e p) (rw (← back) d))
      | inr z ↦
          let next : init_all h before (e ∷ es) s ≡ init_all h (e ∷ before) es (update s e p) =
            ground (arith, k, z) in
          let there = later p (rw (← next) d) in rw next (there ∙ ground (arith, m))
    ]

-- A start without an error changes only the elements of the list.
pub start_all-others :
    (h : Hooks) (before es : List ℕ) (s : Elements)
    → (start_all h before es s).0 ≡ done
    → (x : ℕ) → contains x es ≡ false
    → (start_all h before es s).1 x ≡ s x
unfolding start_all
start_all-others h before [] s d x m = refl
start_all-others h before (e ∷ es) s d x m =
    go (start (h.on_start e) (s e)).0 (start (h.on_start e) (s e)).1
      (λ p q. start_all-others h (e ∷ before) es (update s e p) q x (ground (arith, m))) refl
  where
    abandoned :
        (p : Phase)
        → start_all h before (e ∷ es) s ≡ abandon h e before (update s e p)
        → (start_all h before (e ∷ es) s).1 x ≡ s x
    abandoned p back = absurd (abandon-not_done h e before (update s e p) (rw (← back) d))

    go :
        (r : Called) (p : Phase)
        → ((p : Phase)
            → (start_all h (e ∷ before) es (update s e p)).0 ≡ done
            → (start_all h (e ∷ before) es (update s e p)).1 x ≡ update s e p x)
        → start (h.on_start e) (s e) ≡ (r, p)
        → (start_all h before (e ∷ es) s).1 x ≡ s x
    go asserted p later k = absurd (ground (arith, k, d))
    go threw p later k = abandoned p (ground (arith, k))
    go (said false) p later k = abandoned p (ground (arith, k))
    go (said true) p later k =
        let next : start_all h before (e ∷ es) s ≡ start_all h (e ∷ before) es (update s e p) =
          ground (arith, k) in
        let there = later p (rw (← next) d) in rw next (there ∙ ground (arith, m))
