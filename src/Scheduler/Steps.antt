-- ===== src/Scheduler/Steps.antt =====
-- A running pipeline as a step relation: the heartbeat calls schedule, a thread of the pool starts
-- the run of an element, leaves __process with the state set, and returns, a run makes consumers
-- ready, and setError is called. The calls are those of
-- src/plvcore/Pipeline.cpp and src/plvcore/PipelineElement.cpp (run).
use parlevision.Base.{ℕ, ◌≡◌, Bool, true, false, List, [], Option, none, some, contains}
use parlevision.Store.{started, dispatched}
use parlevision.Scheduler.{
  queued, inside, leaving, Scheduler, proceeds, schedule, begin, set_error, end, finish,
  consumer_ready,
}

-- What start leaves: every element is started, and the queues are empty.
abbrev pub IsFresh : Scheduler → Type 0
IsFresh s =
    ((e : ℕ) → s.elements e ≡ started)
    × ((e : ℕ) → s.run_queue e ≡ none)
    × ((e : ℕ) → s.ready_queue e ≡ [])

-- Heartbeats after which the pipeline goes on running, and what threads do. `begins` is what the
-- assertion at the start of run lets through. The process of an element may call setError in its
-- run (`reports`); only a producer does it outside of a run (`interrupts`), as a camera that quits.
-- A heartbeat is one step, so that no interrupt falls between two of its statements, and a queued
-- run whose element was interrupted does not begin. Only consumers become ready.
pub data Step (es ps : List ℕ) : Scheduler → Scheduler → Type 0 where
  heartbeat :
      (sizes : List ℕ) (willing : ℕ → Bool) (s : Scheduler)
      → (schedule sizes willing es ps s).0 ≡ proceeds
      → Step es ps s (schedule sizes willing es ps s).1
  begins :
      (e : ℕ) (s : Scheduler)
      → s.run_queue e ≡ some queued
      → s.elements e ≡ dispatched
      → Step es ps s (begin e s)
  reports : (e : ℕ) (s : Scheduler) → s.run_queue e ≡ some inside → Step es ps s (set_error e s)
  ends :
      (e : ℕ) (outcome : Option Bool) (s : Scheduler)
      → s.run_queue e ≡ some inside
      → Step es ps s (end e outcome s)
  returns :
      (e : ℕ) (result : Bool) (s : Scheduler)
      → s.run_queue e ≡ some (leaving result)
      → Step es ps s (finish e result s)
  interrupts : (p : ℕ) (s : Scheduler) → contains p ps ≡ true → Step es ps s (set_error p s)
  arrives :
      (e serial : ℕ) (s : Scheduler)
      → contains e ps ≡ false
      → Step es ps s (consumer_ready e serial s)

pub data Reachable (es ps : List ℕ) : Scheduler → Type 0 where
  at_start : (s : Scheduler) → IsFresh s → Reachable es ps s
  then_step : (s t : Scheduler) → Reachable es ps s → Step es ps s t → Reachable es ps t
