-- ===== src/Scheduler/Stop.antt =====
-- The end of a running pipeline: src/plvcore/Pipeline.cpp (stop). The threads of the pool go on
-- while stop waits for them, holding the mutex of the pipeline, so that no heartbeat comes in.
-- What they do is put between the rounds of the loop, and a ready consumer in the ready queue, which
-- stop clears, is left out.
pub mod Turns
pub mod Ends
use parlevision.Base.{
  ℕ, Bool, true, false, not, ◌&&◌, List, [], ◌∷◌, Option, none, some, if◌then◌else◌, map,
}
use parlevision.Connection.{Data, flush, has_data_items}
use parlevision.Store.{
  State, undefined, initialized, started, dispatched, running, finished, failed, update,
}
use parlevision.Lifecycle.{Hooks, Ending, done, refused, lost, Elements, stop_all}
use parlevision.Scheduler.{
  Run, queued, inside, leaving, returned, Scheduler, begin, set_error, end, finish,
}

-- What a thread does between two rounds of the loop in stop: it starts a run, calls setError in
-- __process, leaves __process, or returns. The guards are the assertion at the start of run, and
-- that a run does these one after the other.
pub data Turn : Type 0 where
  begins : (e : ℕ) → Turn
  reports : (e : ℕ) → Turn
  ends : (e : ℕ) (outcome : Option Bool) → Turn
  returns : (e : ℕ) (result : Bool) → Turn

abbrev pub is_queued : Option Run → Bool
is_queued none = false
is_queued (some queued) = true
is_queued (some inside) = false
is_queued (some (leaving b)) = false
is_queued (some (returned b)) = false

abbrev pub is_inside : Option Run → Bool
is_inside none = false
is_inside (some queued) = false
is_inside (some inside) = true
is_inside (some (leaving b)) = false
is_inside (some (returned b)) = false

abbrev pub is_leaving : Option Run → Bool
is_leaving none = false
is_leaving (some queued) = false
is_leaving (some inside) = false
is_leaving (some (leaving b)) = true
is_leaving (some (returned b)) = false

abbrev pub is_waiting : State → Bool
is_waiting dispatched = true
is_waiting _ = false

pub perform_one : Turn → Scheduler → Scheduler
unfolding begin set_error end finish
perform_one (begins e) s =
    if is_queued (s.run_queue e) && is_waiting (s.elements e) then begin e s else s
perform_one (reports e) s = if is_inside (s.run_queue e) then set_error e s else s
perform_one (ends e outcome) s = if is_inside (s.run_queue e) then end e outcome s else s
perform_one (returns e result) s = if is_leaving (s.run_queue e) then finish e result s else s

pub perform : List Turn → Scheduler → Scheduler
unfolding perform_one
perform [] s = s
perform (t ∷ turns) s = perform turns (perform_one t s)

-- Whether a state is PLE_DONE or PLE_ERROR.
abbrev pub is_over : State → Bool
is_over finished = true
is_over failed = true
is_over _ = false

-- One entry of the run queue in a round.
pub take_out : ℕ → Scheduler → Scheduler
take_out e s = elim (s.run_queue e) [
  | none ↦ s
  | some run ↦
      if is_over (s.elements e)
      then record s {
        run_queue = update s.run_queue e none;
        elements = update s.elements e started;
      }
      else s
]

-- A round, over the elements in the order of the hash.
pub take_out_all : List ℕ → Scheduler → Scheduler
unfolding take_out
take_out_all [] s = s
take_out_all (e ∷ es) s = take_out_all es (take_out e s)

-- Whether m_runQueue is empty.
pub nothing_runs : List ℕ → Scheduler → Bool
nothing_runs [] s = true
nothing_runs (e ∷ es) s =
    (elim (s.run_queue e) [ none ↦ true | some run ↦ false ]) && nothing_runs es s

-- The loop of stop, with the turns of the threads before each round; `none` if the turns end before
-- the loop does.
pub wait : List ℕ → List (List Turn) → Scheduler → Option Scheduler
unfolding perform take_out_all nothing_runs
wait es [] s = if nothing_runs es s then some s else none
wait es (turns ∷ later) s =
    let rest = wait es later (take_out_all es (perform turns s)) in
    if nothing_runs es s then some s else rest

module _ {V : Type 0} where
  -- The loop over the connections, with the assertion in it.
  pub flush_all : List (List (Data V)) → Bool × List (List (Data V))
  unfolding flush has_data_items
  flush_all [] = (true, [])
  flush_all (queue ∷ queues) =
      let (passes, rest) = flush_all queues in
      (not (has_data_items (flush queue)) && passes, flush queue ∷ rest)

  -- Pipeline::stop. `reported` says which elements have an error set, and `queues` are those of the
  -- connections.
  pub stop :
      Hooks
      → List ℕ
      → List (List Turn)
      → (reported : ℕ → Bool) → List (List (Data V))
      → Scheduler
      → Option (Ending × Elements × List (List (Data V)) × Scheduler)
  unfolding wait stop_all flush_all
  stop h es turns reported queues s = elim (wait es turns s) [
    | none ↦ none
    | some t ↦
        let (ending, phases) =
          stop_all h es (λ e. record { state = t.elements e; reported = reported e }) in
        let (passes, flushed) = flush_all queues in
        let after = record t { ready_queue = λ e. []; elements = λ e. (phases e).state } in
        elim ending [
          | lost ↦ some (lost, phases, queues, t)
          | refused ↦ some (refused, phases, queues, t)
          | done ↦ some (if passes then done else lost, phases, flushed, after)
        ]
  ]
