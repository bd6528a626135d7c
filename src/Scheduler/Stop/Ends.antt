-- ===== src/Scheduler/Stop/Ends.antt =====
-- src/plvcore/Pipeline.cpp (stop) ends, and what it leaves.
use parlevision.Base.{
  ℕ, ◌≡◌, refl, sym, ap, ◌∙◌, Bool, true, false, List, [], ◌∷◌, ◌++◌, none, some, ◌==◌, contains,
  all, arith, Bool-cases, inl, inr,
}
use parlevision.Connection.{Data, flush, has_data_items}
use parlevision.Lifecycle.{is_started, Hooks, done, Elements, stop_all}
use parlevision.Lifecycle.Rollback.{fresh, Distinct}
use parlevision.Lifecycle.Restart.{is_returned, stop_all-fresh}
use parlevision.Scheduler.{Scheduler}
use parlevision.Scheduler.Stop.{
  Turn, is_inside, perform, take_out_all, nothing_runs, wait, flush_all, stop,
}
use parlevision.Scheduler.Stop.Turns.{
  Calm, is_silent, comes_to_end, is_unfinished, take_out_all-lem, perform-Calm, perform-unfinished,
  perform-none,
}

nothing_runs-true :
    (es : List ℕ) (s : Scheduler)
    → ((e : ℕ) → contains e es ≡ true → s.run_queue e ≡ none)
    → nothing_runs es s ≡ true
unfolding nothing_runs
nothing_runs-true [] s h = refl
nothing_runs-true (x ∷ es) s h =
    let here : s.run_queue x ≡ none = h x (ground arith) in
    ground (arith, here, nothing_runs-true es s (λ e m. h e (ground (arith, m))))

nothing_runs-none :
    (es : List ℕ) (s : Scheduler) (e : ℕ)
    → nothing_runs es s ≡ true
    → contains e es ≡ true
    → s.run_queue e ≡ none
unfolding nothing_runs
nothing_runs-none [] s e h m = absurd (ground (arith, m))
nothing_runs-none (x ∷ es) s e h m = elim (Bool-cases (x == e)) [
  | inl y ↦ ground (arith, h, y)
  | inr z ↦ nothing_runs-none es s e (ground (arith, h)) (ground (arith, m, z))
]

abbrev pub all_turns : List (List Turn) → List Turn
all_turns [] = []
all_turns (turns ∷ later) = turns ++ all_turns later

-- The elements are all known, no run reports an error in __process, and each comes to its end.
record Fair (es : List ℕ) (turns : List Turn) (s : Scheduler) : Type 0 where
  calm : Calm s
  silent : all is_silent turns ≡ true
  known : (e : ℕ) → contains e es ≡ false → s.run_queue e ≡ none
  ended :
      (e : ℕ)
      → is_unfinished (s.run_queue e) ≡ true
      → comes_to_end e (is_inside (s.run_queue e)) turns ≡ true

-- Nothing runs, and all elements are started or have failed.
abbrev pub IsAtRest : Scheduler → Type 0
IsAtRest s = (e : ℕ) → (s.run_queue e ≡ none) × (is_started (s.elements e) ≡ true)

at_rest :
    (es : List ℕ) (turns : List Turn) (s : Scheduler)
    → Fair es turns s
    → nothing_runs es s ≡ true
    → IsAtRest s
at_rest es turns s f h e =
    let none_there : s.run_queue e ≡ none = elim (Bool-cases (contains e es)) [
      | inl y ↦ nothing_runs-none es s e h y
      | inr z ↦ f.known e z
    ] in
    (none_there, ground (arith, none_there, f.calm e))

all-append :
    (turns later : List Turn)
    → all is_silent (turns ++ later) ≡ true
    → (all is_silent turns ≡ true) × (all is_silent later ≡ true)
all-append [] later h = (refl, h)
all-append (t ∷ turns) later h =
    let (now, after) = all-append turns later (ground (arith, h)) in (ground (arith, h, now), after)

-- A round of the loop.
Fair-round :
    (es : List ℕ) (turns later : List Turn) (s : Scheduler)
    → Fair es (turns ++ later) s
    → Fair es later (take_out_all es (perform turns s))
Fair-round es turns later s f =
    let s_1 = perform turns s in
    let (now, after) = all-append turns later f.silent in
    let calm_1 = perform-Calm turns s now f.calm in
    let (calm_2, there) = take_out_all-lem es s_1 calm_1 in
    record {
      calm = calm_2;
      silent = after;
      known = λ e z. ground (arith, there e, z, perform-none turns s e (f.known e z));
      ended = λ e u.
          let unfinished_1 : is_unfinished (s_1.run_queue e) ≡ true = ground (arith, u, there e) in
          let (unfinished, same) = perform-unfinished turns later s e now f.calm unfinished_1 in
          let begun : is_inside ((take_out_all es s_1).run_queue e) ≡ is_inside (s_1.run_queue e) =
            ground (arith, there e, calm_1 e, unfinished_1) in
          ap (λ b. comes_to_end e b later) begun ∙ sym same ∙ f.ended e unfinished;
    }

-- With no unfinished run, one round is enough.
last_round :
    (es : List ℕ) (s : Scheduler)
    → Fair es [] s
    → nothing_runs es (take_out_all es (perform [] s)) ≡ true
unfolding perform
last_round es s f =
    let (calm, there) = take_out_all-lem es s f.calm in
    nothing_runs-true es (take_out_all es s)
      (λ e m. ground (arith, there e, m, f.calm e, f.ended e))

wait-at_rest :
    (es : List ℕ) (turns : List (List Turn)) (s : Scheduler)
    → Fair es (all_turns turns) s
    → (t : Scheduler) × (wait es (turns ++ [] ∷ []) s ≡ some t) × IsAtRest t
unfolding wait
wait-at_rest es [] s f = elim (Bool-cases (nothing_runs es s)) [
  | inl y ↦ (s, ground (arith, y), at_rest es [] s f y)
  | inr z ↦
      let after = take_out_all es (perform [] s) in
      let over = last_round es s f in
      (after, ground (arith, z, over), at_rest es [] after (Fair-round es [] [] s f) over)
]
wait-at_rest es (now ∷ turns) s f = elim (Bool-cases (nothing_runs es s)) [
  | inl y ↦ (s, ground (arith, y), at_rest es (now ++ all_turns turns) s f y)
  | inr z ↦
      let (t, e, r) =
        wait-at_rest es turns (take_out_all es (perform now s))
          (Fair-round es now (all_turns turns) s f) in
      (t, ground (arith, z, e), r)
]

module _ {V : Type 0} where
  -- Queues without items.
  abbrev pub AreEmpty : List (List (Data V)) → Type 0
  AreEmpty [] = Unit {0}
  AreEmpty (queue ∷ queues) = (queue ≡ []) × AreEmpty queues

  flush-empty : (queue : List (Data V)) → flush queue ≡ []
  unfolding flush
  flush-empty [] = refl
  flush-empty (d ∷ queue) = flush-empty queue

  flush_all-AreEmpty :
      (queues : List (List (Data V)))
      → ((flush_all queues).0 ≡ true) × AreEmpty (flush_all queues).1
  unfolding flush_all has_data_items
  flush_all-AreEmpty [] = (refl, tt)
  flush_all-AreEmpty (queue ∷ queues) =
      let (passes, empty) = flush_all-AreEmpty queues in
      (rw (flush-empty queue, passes) refl, (flush-empty queue, empty))

  -- stop of a pipeline, each element of which is stopped once, in a state in which the run queue
  -- and the states of the elements agree, only elements of the pipeline are in the run queue, and
  -- none that is queued or in __process has failed, when no call of setError comes while stop waits
  -- but that of run for an exception, the threads bring every run in the queue or in __process to
  -- the end of __process and then a round comes, the stop of no element throws and each deinit
  -- succeeds: its loop ends, and no assertion fails. Afterwards the run queue, the ready queue and
  -- the queues of all connections are empty, and every element is undefined and without an error.
  pub stop-ends :
      (h : Hooks) (es : List ℕ) (turns : List (List Turn)) (reported : ℕ → Bool)
      (queues : List (List (Data V))) (s : Scheduler)
      → Distinct es
      → Calm s
      → ((e : ℕ) → contains e es ≡ false → s.run_queue e ≡ none)
      → all is_silent (all_turns turns) ≡ true
      → ((e : ℕ)
          → is_unfinished (s.run_queue e) ≡ true
          → comes_to_end e (is_inside (s.run_queue e)) (all_turns turns) ≡ true)
      → ((e : ℕ) → is_returned (h.on_stop e) ≡ true)
      → ((e : ℕ) → h.on_deinit e ≡ true)
      → (phases : Elements) × (flushed : List (List (Data V))) × (t : Scheduler) × (stop h es
            (turns ++ [] ∷ [])
            reported
            queues
            s
          ≡ some (done, phases, flushed, t))
        × ((e : ℕ) → t.run_queue e ≡ none)
        × ((e : ℕ) → t.ready_queue e ≡ [])
        × AreEmpty flushed
        × ((e : ℕ) → contains e es ≡ true → phases e ≡ fresh)
  unfolding stop
  stop-ends h es turns reported queues s d calm known silent ended quiet good =
      let (t, waited, rest) =
        wait-at_rest es turns s
          (record { calm = calm; silent = silent; known = known; ended = ended }) in
      let phases : Elements = λ e. record { state = t.elements e; reported = reported e } in
      let (went, clean) = stop_all-fresh h es phases d quiet good (λ e m. (rest e).1) in
      let (passes, empty) = flush_all-AreEmpty queues in
      (
        (stop_all h es phases).1,
        (flush_all queues).1,
        record t { ready_queue = λ e. []; elements = λ e. ((stop_all h es phases).1 e).state },
        ground (arith, waited, went, passes),
        (λ e. (rest e).0),
        (λ e. refl),
        empty,
        (λ e m. ground (arith, clean e, m)),
      )
