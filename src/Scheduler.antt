-- ===== src/Scheduler.antt =====
-- The scheduler: src/plvcore/Pipeline.cpp (schedule, RunItem::dispatch, pipelineDataConsumerReady),
-- src/plvcore/PipelineElement.cpp (the states that run sets) and the test
-- `getState() < PLE_DISPATCHED` of __ready in src/plvcore/PipelineProducer.cpp. The code runs
-- elements in the threads of a pool; here these are steps between the steps of the scheduler. The
-- counter m_testCount, which finds out if schedule is entered twice, and the stop that a failed
-- run calls are left out.
pub mod Steps
pub mod States
pub mod Producers
pub mod Safe
pub mod Stop
mod Examples
use parlevision.Base.{
  ℕ, zero, suc, ◌+◌, ◌%◌, ◌^◌, Bool, true, false, not, ◌&&◌, ◌||◌, List, [], ◌∷◌, ◌++◌, Option,
  none, some, ◌==◌, ltb, if◌then◌else◌, contains, max,
}
use parlevision.Store.{
  State, undefined, initialized, started, dispatched, running, finished, failed, update,
}
use parlevision.Lifecycle.{is_dispatched}

-- How far the run of a RunItem is, whose future is finished in the last case only: in the queue of
-- the pool; in __process; after it, with the state set and the result to return; returned.
pub data Run : Type 0 where
  queued inside : Run
  leaving returned : (result : Bool) → Run

-- m_runQueue: for each element whether it has an entry, and how far its run is. items: m_serial of
-- the last RunItem of each element.
-- m_readyQueue: the serials of the waiting items of each element.
-- elements: the state of each element. serial: m_serial.
pub record Scheduler : Type 0 where
  pub run_queue : ℕ → Option Run
  pub items : ℕ → ℕ
  pub ready_queue : ℕ → List ℕ
  pub elements : ℕ → State
  pub serial : ℕ

-- `failed_assertion` ends the program. `stops` is the call of stop after an error.
pub data Scheduled : Type 0 where
  proceeds stops failed_assertion : Scheduled

abbrev is_started : State → Bool
is_started undefined = false
is_started initialized = false
is_started started = true
is_started dispatched = false
is_started running = false
is_started finished = false
is_started failed = false

abbrev is_failed : State → Bool
is_failed undefined = false
is_failed initialized = false
is_failed started = false
is_failed dispatched = false
is_failed running = false
is_failed finished = false
is_failed failed = true

-- RunItem::dispatch, and the entry in the run queue that each of its callers makes.
pub dispatch : ℕ → (serial : ℕ) → Scheduler → Scheduled × Scheduler
dispatch e serial s =
    if is_started (s.elements e)
    then (
      proceeds,
      record s {
        run_queue = update s.run_queue e (some queued);
        items = update s.items e serial;
        elements = update s.elements e dispatched;
      },
    )
    else (failed_assertion, s)

abbrev pub and_then :
    Scheduled × Scheduler → (Scheduler → Scheduled × Scheduler) → Scheduled × Scheduler
and_then (proceeds, s) f = f s
and_then (stops, s) f = (stops, s)
and_then (failed_assertion, s) f = (failed_assertion, s)

-- One entry of the run queue in the first loop of schedule.
pub clean_up_one : ℕ → Scheduler → Scheduled × Scheduler
clean_up_one e s = elim (s.run_queue e) [
  | none ↦ (proceeds, s)
  | some run ↦ elim run [
    | queued ↦ (proceeds, s)
    | inside ↦ (proceeds, s)
    | leaving result ↦ (proceeds, s)
    | returned result ↦
        if result
        then (
          proceeds,
          record s {
            run_queue = update s.run_queue e none;
            elements = update s.elements e started;
          },
        )
        else (stops, s)
  ]
]

-- The first loop of schedule, over the elements in the order of the hash.
pub clean_up : List ℕ → Scheduler → Scheduled × Scheduler
unfolding clean_up_one
clean_up [] s = (proceeds, s)
clean_up (e ∷ es) s = and_then (clean_up_one e s) (clean_up es)

-- The body of the loop over the ready queues.
pub dispatch_ready : ℕ → Scheduler → Scheduled × Scheduler
unfolding dispatch
dispatch_ready e s = elim (s.ready_queue e) [
  | [] ↦ (proceeds, s)
  | item ∷ queue ↦ elim (s.run_queue e) [
    | some run ↦ (proceeds, s)
    | none ↦
        if is_dispatched (s.elements e)
        then (failed_assertion, s)
        else and_then (dispatch e item s)
            (λ t. (proceeds, record t { ready_queue = update t.ready_queue e queue }))
  ]
]

pub dispatch_all_ready : List ℕ → Scheduler → Scheduled × Scheduler
unfolding dispatch_ready
dispatch_all_ready [] s = (proceeds, s)
dispatch_all_ready (e ∷ es) s = and_then (dispatch_ready e s) (dispatch_all_ready es)

-- The loop that computes allReady. `willing` says what readyToProduce of a producer answers.
pub all_ready : (willing : ℕ → Bool) → List ℕ → Scheduler → Bool
all_ready willing [] s = true
all_ready willing (p ∷ ps) s =
    not (is_dispatched (s.elements p)) && willing p && all_ready willing ps s

pub dispatch_all : List ℕ → Scheduler → Scheduled × Scheduler
unfolding dispatch
dispatch_all [] s = (proceeds, s)
dispatch_all (p ∷ ps) s = and_then (dispatch p s.serial s) (dispatch_all ps)

-- The loop that computes the size of the longest connection.
pub longest : List ℕ → ℕ → ℕ
longest [] m = m
longest (size ∷ sizes) m = longest sizes (max size m)

-- The last part of schedule. `sizes` are the sizes of the connections. The statistics of the
-- number of frames in a second are left out.
pub run_producers :
    (sizes : List ℕ) (willing : ℕ → Bool) → List ℕ → Scheduler → Scheduled × Scheduler
unfolding longest all_ready dispatch_all
run_producers sizes willing ps s =
    if ltb (longest sizes 0) 5 && all_ready willing ps s
    then and_then (dispatch_all ps s)
        (λ t. (proceeds, record t { serial = (t.serial + 1) % 2 ^ 32 }))
    else (proceeds, s)

-- Pipeline::schedule, for the elements `es` and the producers `ps`.
pub schedule :
    (sizes : List ℕ) (willing : ℕ → Bool) → List ℕ → List ℕ → Scheduler → Scheduled × Scheduler
unfolding clean_up dispatch_all_ready run_producers
schedule sizes willing es ps s =
    and_then (clean_up es s)
      (λ t. and_then (dispatch_all_ready es t) (run_producers sizes willing ps))

-- PipelineElement::run, up to the call of __process.
pub begin : ℕ → Scheduler → Scheduler
begin e s = record s {
  run_queue = update s.run_queue e (some inside);
  elements = update s.elements e running;
}

-- PipelineElement::setError: in __process, or from outside of a run.
pub set_error : ℕ → Scheduler → Scheduler
set_error e s = record s { elements = update s.elements e failed }

-- PipelineElement::run after __process, up to the return: an exception is caught (`none`), or
-- the state is set if it is not PLE_ERROR.
pub end : ℕ → (outcome : Option Bool) → Scheduler → Scheduler
unfolding set_error
end e outcome s = elim outcome [
  | none ↦ set_error e (record s { run_queue = update s.run_queue e (some (leaving false)) })
  | some result ↦ record s {
    run_queue = update s.run_queue e (some (leaving result));
    elements = update s.elements e (if is_failed (s.elements e) then failed else finished);
  }
]

-- The return of PipelineElement::run, which finishes the future.
pub finish : ℕ → (result : Bool) → Scheduler → Scheduler
finish e result s = record s { run_queue = update s.run_queue e (some (returned result)) }

-- Pipeline::pipelineDataConsumerReady
pub consumer_ready : ℕ → ℕ → Scheduler → Scheduler
consumer_ready e serial s = record s {
  ready_queue = update s.ready_queue e (s.ready_queue e ++ serial ∷ []);
}
