-- ===== src/Lifecycle/Restart.antt =====
-- src/plvcore/Pipeline.cpp (start, stop): whether a pipeline can be started again.
use parlevision.Base.{
  ℕ, ◌≡◌, refl, Bool, true, false, ◌||◌, List, [], ◌∷◌, if◌then◌else◌, contains, arith, ◌⊎◌, inl,
  inr,
}
use parlevision.Store.{initialized, started, failed, update}
use parlevision.Lifecycle.{
  Outcome, returns, throwing, Phase, said, threw, Hooks, done, refused, lost, Elements, is_started,
  init, deinit, start, stop, init_all, stop_all, start_all, abandon, start_pipeline,
}
use parlevision.Lifecycle.Others.{abandon-not_done}
use parlevision.Lifecycle.Rollback.{fresh, Distinct, is_reported, deinit_lem, init_all-rolls_back}

abbrev pub is_returned : Outcome → Bool
is_returned (returns b r) = true
is_returned (throwing r) = false

-- __stop and then __deinit of an element that was started.
stop-then-deinit :
    (o : Outcome) (p : Phase)
    → is_started p.state ≡ true
    → is_returned o ≡ true
    → (b : Bool) × (q : Phase) × (stop o p ≡ (said b, q)) × (deinit true q ≡ (said true, fresh))
unfolding stop
stop-then-deinit (returns true r) p h k = (
  true,
  record { state = initialized; reported = p.reported || r },
  ground arith,
  deinit_lem (record { state = initialized; reported = p.reported || r }) refl,
)
stop-then-deinit (returns false r) p h k = (
  false,
  record { state = failed; reported = p.reported || r },
  ground arith,
  deinit_lem (record { state = failed; reported = p.reported || r }) refl,
)
stop-then-deinit (throwing r) p h k = absurd (ground arith)

pub stop_all-fresh :
    (h : Hooks) (es : List ℕ) (s : Elements)
    → Distinct es
    → ((e : ℕ) → is_returned (h.on_stop e) ≡ true)
    → ((e : ℕ) → h.on_deinit e ≡ true)
    → ((e : ℕ) → contains e es ≡ true → is_started (s e).state ≡ true)
    → ((stop_all h es s).0 ≡ done)
      × ((x : ℕ) → (stop_all h es s).1 x ≡ (if contains x es then fresh else s x))
unfolding stop_all
stop_all-fresh h [] s de quiet good up = (refl, λ x. refl)
stop_all-fresh h (e ∷ es) s de quiet good up =
    let (b, q, first, second) =
      stop-then-deinit (h.on_stop e) (s e) (up e (ground arith)) (quiet e) in
    let there =
      stop_all-fresh h es (update s e fresh) de.1 quiet good (λ x m. ground (arith, up x)) in
    let torn : deinit (h.on_deinit e) q ≡ (said true, fresh) = rw (good e) second in
    (ground (arith, first, torn, there.0), λ x. ground (arith, first, torn, there.1 x))

start-cases :
    (o : Outcome) (p : Phase)
    → p.state ≡ initialized
    → ((q : Phase) × (start o p ≡ (said true, q)) × (q.state ≡ started))
      ⊎ ((q : Phase) × ((start o p ≡ (said false, q)) ⊎ (start o p ≡ (threw, q))))
unfolding start
start-cases (returns true r) p i =
    inl (record { state = started; reported = p.reported || r }, ground arith, refl)
start-cases (returns false r) p i =
    inr (record { state = failed; reported = p.reported || r }, inl (ground arith))
start-cases (throwing true) p i =
    inr (record { state = failed; reported = true }, inr (ground arith))
start-cases (throwing false) p i = inr (p, inr (ground arith))

-- A start without an error leaves every element started.
pub start_all-started :
    (h : Hooks) (before es : List ℕ) (s : Elements)
    → Distinct es
    → ((e : ℕ) → contains e es ≡ true → (s e).state ≡ initialized)
    → (start_all h before es s).0 ≡ done
    → (x : ℕ)
    → ((start_all h before es s).1 x).state ≡ (if contains x es then started else (s x).state)
unfolding start_all
start_all-started h before [] s de up d x = refl
start_all-started h before (e ∷ es) s de up d x =
    elim (start-cases (h.on_start e) (s e) (up e (ground arith))) [
      | inl (q, first, k) ↦
          let next : start_all h before (e ∷ es) s ≡ start_all h (e ∷ before) es (update s e q) =
            ground (arith, first) in
          let there =
            start_all-started h (e ∷ before) es (update s e q) de.1 (λ y m. ground (arith, up y))
              (rw (← next) d) x in
          rw next (ground (arith, there))
      | inr (q, inl first) ↦
          let back : start_all h before (e ∷ es) s ≡ abandon h e before (update s e q) =
            ground (arith, first) in
          absurd (abandon-not_done h e before (update s e q) (rw (← back) d))
      | inr (q, inr first) ↦
          let back : start_all h before (e ∷ es) s ≡ abandon h e before (update s e q) =
            ground (arith, first) in
          absurd (abandon-not_done h e before (update s e q) (rw (← back) d))
    ]

init_all-initialized :
    (h : Hooks) (e : ℕ) (es : List ℕ) (s : Elements)
    → (s e).state ≡ initialized
    → (init_all h [] (e ∷ es) s).0 ≡ lost
unfolding init_all init
init_all-initialized h e es s i = ground (arith, i)

-- start on a graph with a cycle, when all elements could be initialized: it is refused, but the
-- elements stay initialized, so that the next start fails the assertion in __init.
pub start_pipeline-cycle :
    (h : Hooks) (e : ℕ) (es : List ℕ) (s : Elements)
    → Distinct (e ∷ es)
    → ((x : ℕ) → is_reported (h.on_init x) ≡ true)
    → ((x : ℕ) → h.on_deinit x ≡ true)
    → ((x : ℕ) → contains x (e ∷ es) ≡ true → s x ≡ fresh)
    → (init_all h [] (e ∷ es) s).0 ≡ done
    → let (r, after) = start_pipeline h (e ∷ es) true false s in
      (r ≡ refused)
      × ((connected ordered : Bool) → (start_pipeline h (e ∷ es) connected ordered after).0 ≡ lost)
unfolding start_pipeline
start_pipeline-cycle h e es s de told good new d =
    elim (init_all-rolls_back h (e ∷ es) s de told good new) [
      | inr (q, t) ↦ absurd (ground arith)
      | inl (q, t) ↦
          let same : start_pipeline h (e ∷ es) true false s
              ≡ (refused, (init_all h [] (e ∷ es) s).1) =
            ground (arith, d) in
          let up : ((start_pipeline h (e ∷ es) true false s).1 e).state ≡ initialized =
            ground (arith, same, t e) in
          (
            ground (arith, same),
            λ connected ordered.
                again (start_pipeline h (e ∷ es) true false s).1 up connected ordered,
          )
    ]
  where
    again :
        (after : Elements)
        → (after e).state ≡ initialized
        → (connected ordered : Bool) → (start_pipeline h (e ∷ es) connected ordered after).0 ≡ lost
    again after up connected ordered = ground (arith, init_all-initialized h e es after up)
