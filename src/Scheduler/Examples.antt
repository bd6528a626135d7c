-- ===== src/Scheduler/Examples.antt =====
-- The producers 0 and 1 and the consumer 2.
use parlevision.Base.{
  ℕ, ◌+◌, ◌%◌, ◌^◌, ◌≡◌, ◌≢◌, refl, Bool, true, false, List, [], ◌∷◌, ◌++◌, some, none, ◌⊎◌, ◌==◌,
  if◌then◌else◌, contains, Bool-cases, inl, inr, arith,
}
use parlevision.Connection.{Data}
use parlevision.Lifecycle.{Hooks, returns, done, Elements}
use parlevision.Lifecycle.Rollback.{fresh}
use parlevision.Scheduler.States.{Safe}
use parlevision.Scheduler.Stop.{Turn, begins, ends, is_inside, stop}
use parlevision.Scheduler.Stop.Turns.{Calm, is_unfinished, comes_to_end}
use parlevision.Scheduler.Stop.Ends.{all_turns, AreEmpty, stop-ends}
use parlevision.Store.{started, dispatched, finished}
use parlevision.Scheduler.{
  queued, returned, Scheduler, set_error, proceeds, failed_assertion, run_producers, schedule,
}
use parlevision.Scheduler.Steps.{at_start, then_step, heartbeat, interrupts}
use parlevision.Scheduler.Producers.{can_produce, AllDispatched, run_producers-together}
use parlevision.Scheduler.Safe.{schedule-Reachable}

abbrev at_rest : Scheduler
at_rest = record {
  run_queue = λ e. none;
  items = λ e. 0;
  ready_queue = λ e. [];
  elements = λ e. started;
  serial = 4294967295;
}

abbrev willing : ℕ → Bool
willing p = true

run_producers-together_example :
    ((can_produce (4 ∷ 0 ∷ []) willing (0 ∷ 1 ∷ []) at_rest ≡ false)
      × (run_producers (4 ∷ 0 ∷ []) willing (0 ∷ 1 ∷ []) at_rest ≡ (proceeds, at_rest)))
    ⊎ ((can_produce (4 ∷ 0 ∷ []) willing (0 ∷ 1 ∷ []) at_rest ≡ true)
        × (t : Scheduler) × AllDispatched (0 ∷ 1 ∷ []) at_rest t
        × (run_producers (4 ∷ 0 ∷ []) willing (0 ∷ 1 ∷ []) at_rest
            ≡ (proceeds, record t { serial = (at_rest.serial + 1) % 2 ^ 32 })))
run_producers-together_example =
    run_producers-together (4 ∷ 0 ∷ []) willing (0 ∷ 1 ∷ []) at_rest (λ e. (refl, λ h. refl))
      (refl, (refl, tt))

wraps : (run_producers (4 ∷ 0 ∷ []) willing (0 ∷ 1 ∷ []) at_rest).1.serial ≡ 0
unfolding run_producers
wraps = refl

beat : (schedule [] willing (0 ∷ 1 ∷ 2 ∷ []) (0 ∷ 1 ∷ []) at_rest).0 ≡ proceeds
unfolding schedule
beat = refl

abbrev after_beat : Scheduler
after_beat = (schedule [] willing (0 ∷ 1 ∷ 2 ∷ []) (0 ∷ 1 ∷ []) at_rest).1

-- The camera of producer 0 quits before its run begins.
schedule-Reachable_example :
    Safe (0 ∷ 1 ∷ []) (set_error 0 after_beat)
    × ((sizes : List ℕ) (ready : ℕ → Bool)
        → (schedule sizes ready (0 ∷ 1 ∷ 2 ∷ []) (0 ∷ 1 ∷ []) (set_error 0 after_beat)).0
          ≢ failed_assertion)
schedule-Reachable_example =
    schedule-Reachable (0 ∷ 1 ∷ 2 ∷ []) (0 ∷ 1 ∷ []) (set_error 0 after_beat) (refl, (refl, tt))
      (then_step after_beat (set_error 0 after_beat)
        (then_step at_rest after_beat (at_start at_rest (λ e. refl, λ e. refl, λ e. refl))
          (heartbeat [] willing at_rest beat))
        (interrupts 0 after_beat refl))

-- Element 0 waits for its run, and the run of element 1 is over.
abbrev two_runs : Scheduler
two_runs = record {
  run_queue = λ e. if 0 == e then some queued else if 1 == e then some (returned true) else none;
  items = λ e. 8;
  ready_queue = λ e. 8 ∷ [];
  elements = λ e. if 0 == e then dispatched else if 1 == e then finished else started;
  serial = 9;
}

abbrev hooks : Hooks
hooks = record {
  on_init = λ e. returns true false;
  on_start = λ e. returns true false;
  on_stop = λ e. returns false true;
  on_deinit = λ e. true;
}

abbrev queue : List (Data Bool)
queue = record { serial = 8; payload = some true; is_null = false } ∷ []

abbrev turns : List (List Turn)
turns = (begins 0 ∷ []) ∷ (ends 0 (some true) ∷ []) ∷ []

two_runs-Calm : Calm two_runs
two_runs-Calm e = elim (Bool-cases (0 == e)) [
  | inl y ↦ ground (arith, y)
  | inr z ↦ elim (Bool-cases (1 == e)) [
    | inl y ↦ ground (arith, y, z)
    | inr w ↦ ground (arith, z, w)
  ]
]

only_two : (e : ℕ) → contains e (0 ∷ 1 ∷ []) ≡ false → two_runs.run_queue e ≡ none
only_two e h = elim (Bool-cases (0 == e)) [
  | inl y ↦ absurd (ground (arith, y, h))
  | inr z ↦ ground (arith, z, h)
]

zero_ends :
    (e : ℕ)
    → is_unfinished (two_runs.run_queue e) ≡ true
    → comes_to_end e (is_inside (two_runs.run_queue e)) (all_turns turns) ≡ true
zero_ends e h = elim (Bool-cases (0 == e)) [
  | inl y ↦ ground (arith, y)
  | inr z ↦ absurd (ground (arith, z, h))
]

stop-ends_example :
    (phases : Elements) × (flushed : List (List (Data Bool))) × (t : Scheduler) × (stop hooks
        (0 ∷ 1 ∷ [])
        (turns ++ [] ∷ [])
        (λ e. false)
        (queue ∷ [] ∷ queue ∷ [])
        two_runs
      ≡ some (done, phases, flushed, t))
    × ((e : ℕ) → t.run_queue e ≡ none)
    × ((e : ℕ) → t.ready_queue e ≡ [])
    × AreEmpty flushed
    × ((e : ℕ) → contains e (0 ∷ 1 ∷ []) ≡ true → phases e ≡ fresh)
stop-ends_example =
    stop-ends hooks (0 ∷ 1 ∷ []) turns (λ e. false) (queue ∷ [] ∷ queue ∷ []) two_runs
      (refl, (refl, tt)) two_runs-Calm only_two refl zero_ends (λ e. refl) (λ e. refl)
