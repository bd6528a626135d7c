-- ===== src/Scheduler/States.antt =====
-- Which states of the elements and entries of the run queue go together.
use parlevision.Base.{ℕ, ◌≡◌, Bool, true, false, List, [], Option, none, some, contains, arith}
use parlevision.Store.{
  State, undefined, initialized, started, dispatched, running, finished, failed,
}
use parlevision.Lifecycle.{is_dispatched}
use parlevision.Scheduler.{Run, queued, inside, leaving, returned, Scheduler}

-- What state an element may have: started without an entry in the run queue, dispatched while its
-- run is queued, running or failed in __process, finished or failed after it. A producer may have
-- failed also without an entry and while its run is queued.
abbrev pub fits : (is_producer : Bool) → Option Run → State → Bool
fits p none undefined = false
fits p none initialized = false
fits p none started = true
fits p none dispatched = false
fits p none running = false
fits p none finished = false
fits p none failed = p
fits p (some queued) undefined = false
fits p (some queued) initialized = false
fits p (some queued) started = false
fits p (some queued) dispatched = true
fits p (some queued) running = false
fits p (some queued) finished = false
fits p (some queued) failed = p
fits p (some inside) undefined = false
fits p (some inside) initialized = false
fits p (some inside) started = false
fits p (some inside) dispatched = false
fits p (some inside) running = true
fits p (some inside) finished = false
fits p (some inside) failed = true
fits p (some (leaving b)) undefined = false
fits p (some (leaving b)) initialized = false
fits p (some (leaving b)) started = false
fits p (some (leaving b)) dispatched = false
fits p (some (leaving b)) running = false
fits p (some (leaving b)) finished = true
fits p (some (leaving b)) failed = true
fits p (some (returned b)) undefined = false
fits p (some (returned b)) initialized = false
fits p (some (returned b)) started = false
fits p (some (returned b)) dispatched = false
fits p (some (returned b)) running = false
fits p (some (returned b)) finished = true
fits p (some (returned b)) failed = true

-- The states go with the runs, and no producer is in the ready queue.
abbrev pub Safe : List ℕ → Scheduler → Type 0
Safe ps s =
    (e : ℕ)
    → (fits (contains e ps) (s.run_queue e) (s.elements e) ≡ true)
      × (contains e ps ≡ true → s.ready_queue e ≡ [])

pub fits-none : (s : State) → fits false none s ≡ true → s ≡ started
fits-none s h = ground (arith, h)

pub fits-idle :
    (p : Bool) (q : Option Run) (s : State)
    → fits p q s ≡ true
    → is_dispatched s ≡ false
    → (s ≡ started) × (q ≡ none)
fits-idle p q s h i = (ground (arith, h, i), ground (arith, h, i))
