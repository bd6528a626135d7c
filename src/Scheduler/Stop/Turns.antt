-- ===== src/Scheduler/Stop/Turns.antt =====
-- What the turns of the threads and a round of src/plvcore/Pipeline.cpp (stop) do to the runs of
-- elements.
use parlevision.Base.{
  ℕ, ◌≡◌, refl, ◌∙◌, Bool, true, false, ◌&&◌, ◌||◌, List, [], ◌∷◌, ◌++◌, Option, none, some, ◌==◌,
  if◌then◌else◌, contains, all, arith, Bool-cases, inl, inr,
}
use parlevision.Store.{
  State, undefined, initialized, started, dispatched, running, finished, failed,
}
use parlevision.Scheduler.{
  Run, queued, inside, leaving, returned, Scheduler, begin, set_error, end, finish,
}
use parlevision.Scheduler.Stop.{
  Turn, begins, reports, ends, returns, is_inside, perform_one, perform, is_over, take_out,
  take_out_all,
}

-- The states that go with the runs, if no element in the queue of the pool or in __process has
-- failed.
abbrev pub is_calm : Option Run → State → Bool
is_calm none undefined = false
is_calm none initialized = false
is_calm none started = true
is_calm none dispatched = false
is_calm none running = false
is_calm none finished = false
is_calm none failed = true
is_calm (some queued) undefined = false
is_calm (some queued) initialized = false
is_calm (some queued) started = false
is_calm (some queued) dispatched = true
is_calm (some queued) running = false
is_calm (some queued) finished = false
is_calm (some queued) failed = false
is_calm (some inside) undefined = false
is_calm (some inside) initialized = false
is_calm (some inside) started = false
is_calm (some inside) dispatched = false
is_calm (some inside) running = true
is_calm (some inside) finished = false
is_calm (some inside) failed = false
is_calm (some (leaving b)) undefined = false
is_calm (some (leaving b)) initialized = false
is_calm (some (leaving b)) started = false
is_calm (some (leaving b)) dispatched = false
is_calm (some (leaving b)) running = false
is_calm (some (leaving b)) finished = true
is_calm (some (leaving b)) failed = true
is_calm (some (returned b)) undefined = false
is_calm (some (returned b)) initialized = false
is_calm (some (returned b)) started = false
is_calm (some (returned b)) dispatched = false
is_calm (some (returned b)) running = false
is_calm (some (returned b)) finished = true
is_calm (some (returned b)) failed = true

abbrev pub Calm : Scheduler → Type 0
Calm s = (e : ℕ) → is_calm (s.run_queue e) (s.elements e) ≡ true

-- All turns but a call of setError in __process.
abbrev pub is_silent : Turn → Bool
is_silent (begins e) = true
is_silent (reports e) = false
is_silent (ends e outcome) = true
is_silent (returns e result) = true

-- Whether the run of an element that is in __process or not leaves it in some turns.
abbrev pub comes_to_end : ℕ → (begun : Bool) → List Turn → Bool
comes_to_end e begun [] = false
comes_to_end e begun (begins x ∷ turns) = comes_to_end e (begun || x == e) turns
comes_to_end e begun (reports x ∷ turns) = comes_to_end e begun turns
comes_to_end e begun (ends x outcome ∷ turns) = (begun && x == e) || comes_to_end e begun turns
comes_to_end e begun (returns x result ∷ turns) = comes_to_end e begun turns

abbrev pub is_unfinished : Option Run → Bool
is_unfinished none = false
is_unfinished (some queued) = true
is_unfinished (some inside) = true
is_unfinished (some (leaving b)) = false
is_unfinished (some (returned b)) = false

perform_one-Calm : (t : Turn) (s : Scheduler) → is_silent t ≡ true → Calm s → Calm (perform_one t s)
unfolding perform_one begin end finish
perform_one-Calm (begins e) s q calm = λ x. ground (arith, calm x)
perform_one-Calm (reports e) s q calm = absurd (ground (arith, q))
perform_one-Calm (ends e outcome) s q calm = λ x. ground (arith, calm x, calm e)
perform_one-Calm (returns e result) s q calm = λ x. ground (arith, calm x)

-- A turn, as an unfinished run sees it.
perform_one-unfinished :
    (t : Turn) (turns : List Turn) (s : Scheduler) (e : ℕ)
    → is_silent t ≡ true
    → Calm s
    → is_unfinished ((perform_one t s).run_queue e) ≡ true
    → (is_unfinished (s.run_queue e) ≡ true)
      × (comes_to_end e (is_inside (s.run_queue e)) (t ∷ turns)
          ≡ comes_to_end e (is_inside ((perform_one t s).run_queue e)) turns)
unfolding perform_one begin end finish
perform_one-unfinished (begins x) turns s e q calm h =
    (ground (arith, h, calm x, calm e), ground (arith, h, calm x, calm e))
perform_one-unfinished (reports x) turns s e q calm h = absurd (ground (arith, q))
perform_one-unfinished (ends x outcome) turns s e q calm h =
    (ground (arith, h, calm x, calm e), ground (arith, h, calm x, calm e))
perform_one-unfinished (returns x result) turns s e q calm h =
    (ground (arith, h, calm x, calm e), ground (arith, h, calm x, calm e))

take_out-one :
    (x e : ℕ) (s : Scheduler)
    → Calm s
    → ((take_out x s).run_queue e
        ≡ (if x == e && is_over (s.elements e) then none else s.run_queue e))
      × ((x == e && is_over (s.elements e)) ≡ false → (take_out x s).elements e ≡ s.elements e)
unfolding take_out
take_out-one x e s safe = (ground (arith, safe x, safe e), λ h. ground (arith, safe x, safe e, h))

take_out-Calm : (x : ℕ) (s : Scheduler) → Calm s → Calm (take_out x s)
unfolding take_out
take_out-Calm x s safe = λ e. ground (arith, safe e, safe x)

-- A round takes out the elements whose runs are over.
pub take_out_all-lem :
    (es : List ℕ) (s : Scheduler)
    → Calm s
    → Calm (take_out_all es s)
      × ((e : ℕ)
          → (take_out_all es s).run_queue e
            ≡ (if contains e es && is_over (s.elements e) then none else s.run_queue e))
unfolding take_out_all
take_out_all-lem [] s safe = (safe, λ e. refl)
take_out_all-lem (x ∷ es) s safe =
    let (still, there) = take_out_all-lem es (take_out x s) (take_out-Calm x s safe) in
    (
      still,
      λ e.
          let (a, b) = take_out-one x e s safe in
          elim (Bool-cases (x == e && is_over (s.elements e))) [
            | inl y ↦ ground (arith, there e, a, y)
            | inr z ↦ ground (arith, there e, a, b z, z)
          ],
    )

pub perform-Calm :
    (turns : List Turn) (s : Scheduler)
    → all is_silent turns ≡ true
    → Calm s
    → Calm (perform turns s)
unfolding perform
perform-Calm [] s q calm = calm
perform-Calm (t ∷ turns) s q calm =
    perform-Calm turns (perform_one t s) (ground (arith, q))
      (perform_one-Calm t s (ground (arith, q)) calm)

pub perform-unfinished :
    (turns later : List Turn) (s : Scheduler) (e : ℕ)
    → all is_silent turns ≡ true
    → Calm s
    → is_unfinished ((perform turns s).run_queue e) ≡ true
    → (is_unfinished (s.run_queue e) ≡ true)
      × (comes_to_end e (is_inside (s.run_queue e)) (turns ++ later)
          ≡ comes_to_end e (is_inside ((perform turns s).run_queue e)) later)
unfolding perform
perform-unfinished [] later s e q calm h = (h, refl)
perform-unfinished (t ∷ turns) later s e q calm h =
    let silent : is_silent t ≡ true = ground (arith, q) in
    let next = perform_one t s in
    let (u, f) =
      perform-unfinished turns later next e (ground (arith, q)) (perform_one-Calm t s silent calm)
        h in
    let (v, g) = perform_one-unfinished t (turns ++ later) s e silent calm u in (v, g ∙ f)

perform_one-none :
    (t : Turn) (s : Scheduler) (e : ℕ) → s.run_queue e ≡ none → (perform_one t s).run_queue e ≡ none
unfolding perform_one begin set_error end finish
perform_one-none (begins x) s e h = ground (arith, h)
perform_one-none (reports x) s e h = ground (arith, h)
perform_one-none (ends x outcome) s e h = ground (arith, h)
perform_one-none (returns x result) s e h = ground (arith, h)

pub perform-none :
    (turns : List Turn) (s : Scheduler) (e : ℕ)
    → s.run_queue e ≡ none
    → (perform turns s).run_queue e ≡ none
unfolding perform
perform-none [] s e h = h
perform-none (t ∷ turns) s e h = perform-none turns (perform_one t s) e (perform_one-none t s e h)
