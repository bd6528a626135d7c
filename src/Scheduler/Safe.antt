-- ===== src/Scheduler/Safe.antt =====
-- src/plvcore/Pipeline.cpp (schedule): the run queue and the states of the elements agree.
use parlevision.Base.{
  ℕ, ◌≢◌, Bool, List, [], ◌∷◌, contains, arith, Option-cases, Bool-cases, inl, inr,
}
use parlevision.Lifecycle.Rollback.{Distinct}
use parlevision.Scheduler.{
  Scheduler, Scheduled, proceeds, stops, failed_assertion, dispatch, and_then, clean_up_one,
  clean_up, dispatch_ready, dispatch_all_ready, run_producers, schedule, begin, set_error, end,
  finish, consumer_ready,
}
use parlevision.Scheduler.Steps.{
  Step, heartbeat, begins, reports, ends, returns, interrupts, arrives, Reachable, at_start,
  then_step,
}
use parlevision.Scheduler.States.{Safe, fits-none}
use parlevision.Scheduler.Producers.{run_producers-together}

-- No assertion fails, and the result is safe.
abbrev Keeps : List ℕ → Scheduled × Scheduler → Type 0
Keeps ps (r, s) = (r ≢ failed_assertion) × Safe ps s

and_then-Keeps :
    (ps : List ℕ) (r : Scheduled × Scheduler) (f : Scheduler → Scheduled × Scheduler)
    → Keeps ps r
    → ((s : Scheduler) → Safe ps s → Keeps ps (f s))
    → Keeps ps (and_then r f)
and_then-Keeps ps (proceeds, s) f k next = next s k.1
and_then-Keeps ps (stops, s) f k next = k
and_then-Keeps ps (failed_assertion, s) f k next = k

clean_up_one-Keeps : (ps : List ℕ) (e : ℕ) (s : Scheduler) → Safe ps s → Keeps ps (clean_up_one e s)
unfolding clean_up_one
clean_up_one-Keeps ps e s safe =
    (λ h. ground arith, λ x. (ground (arith, (safe x).0), ground (arith, (safe x).1)))

clean_up-Keeps : (ps es : List ℕ) (s : Scheduler) → Safe ps s → Keeps ps (clean_up es s)
unfolding clean_up
clean_up-Keeps ps [] s safe = (λ h. ground arith, safe)
clean_up-Keeps ps (e ∷ es) s safe =
    and_then-Keeps ps (clean_up_one e s) (clean_up es) (clean_up_one-Keeps ps e s safe)
      (clean_up-Keeps ps es)

dispatch_ready-Keeps :
    (ps : List ℕ) (e : ℕ) (s : Scheduler) → Safe ps s → Keeps ps (dispatch_ready e s)
unfolding dispatch_ready dispatch
dispatch_ready-Keeps ps e s safe = elim (Bool-cases (contains e ps)) [
  | inl p ↦
      let none_ready = (safe e).1 p in rw (dispatch_ready, none_ready) (λ h. ground arith, safe)
  | inr p ↦ elim (Option-cases (s.run_queue e)) [
    | inl q ↦
        let up = fits-none (s.elements e) (ground (arith, (safe e).0, q, p)) in
        (
          λ h. ground (arith, up),
          λ x. (ground (arith, up, (safe x).0), ground (arith, up, p, (safe x).1)),
        )
    | inr (f, q) ↦
        (λ h. ground arith, λ x. (ground (arith, (safe x).0), ground (arith, (safe x).1)))
  ]
]

dispatch_all_ready-Keeps :
    (ps es : List ℕ) (s : Scheduler) → Safe ps s → Keeps ps (dispatch_all_ready es s)
unfolding dispatch_all_ready
dispatch_all_ready-Keeps ps [] s safe = (λ h. ground arith, safe)
dispatch_all_ready-Keeps ps (e ∷ es) s safe =
    and_then-Keeps ps (dispatch_ready e s) (dispatch_all_ready es)
      (dispatch_ready-Keeps ps e s safe) (dispatch_all_ready-Keeps ps es)

run_producers-Keeps :
    (sizes : List ℕ) (willing : ℕ → Bool) (ps : List ℕ) (s : Scheduler)
    → Distinct ps
    → Safe ps s
    → Keeps ps (run_producers sizes willing ps s)
run_producers-Keeps sizes willing ps s d safe =
    elim (run_producers-together sizes willing ps s safe d) [
      | inl (test, went) ↦ rw went (λ h. ground arith, safe)
      | inr (test, t, all_of, went) ↦ rw went (
        λ h. ground arith,
        λ x. (
          ground (arith, (safe x).0, all_of.run_queue x, all_of.elements x),
          ground (arith, (safe x).1, all_of.ready_queue x),
        ),
      )
    ]

schedule-Keeps :
    (sizes : List ℕ) (willing : ℕ → Bool) (es ps : List ℕ) (s : Scheduler)
    → Distinct ps
    → Safe ps s
    → Keeps ps (schedule sizes willing es ps s)
unfolding schedule
schedule-Keeps sizes willing es ps s d safe =
    and_then-Keeps ps (clean_up es s)
      (λ t. and_then (dispatch_all_ready es t) (run_producers sizes willing ps))
      (clean_up-Keeps ps es s safe)
      (λ t k.
        and_then-Keeps ps (dispatch_all_ready es t) (run_producers sizes willing ps)
          (dispatch_all_ready-Keeps ps es t k) (λ u. run_producers-Keeps sizes willing ps u d))

Step-Safe :
    (es ps : List ℕ) (s t : Scheduler) → Distinct ps → Safe ps s → Step es ps s t → Safe ps t
unfolding begin set_error end finish consumer_ready
Step-Safe es ps s _ d safe (heartbeat sizes willing _ h) =
    (schedule-Keeps sizes willing es ps s d safe).1
Step-Safe es ps s _ d safe (begins e _ h k) = λ x. (ground (arith, (safe x).0), (safe x).1)
Step-Safe es ps s _ d safe (reports e _ h) = λ x. (ground (arith, (safe x).0, h), (safe x).1)
Step-Safe es ps s _ d safe (ends e outcome _ h) =
    λ x. (ground (arith, (safe x).0, h), ground (arith, (safe x).1))
Step-Safe es ps s _ d safe (returns e result _ h) = λ x. (ground (arith, (safe x).0, h), (safe x).1)
Step-Safe es ps s _ d safe (interrupts p _ h) = λ x. (ground (arith, (safe x).0, h), (safe x).1)
Step-Safe es ps s _ d safe (arrives e serial _ h) = λ x. ((safe x).0, ground (arith, (safe x).1, h))

Reachable-Safe : (es ps : List ℕ) (s : Scheduler) → Distinct ps → Reachable es ps s → Safe ps s
Reachable-Safe es ps s d (at_start _ f) = λ x. (ground (arith, f.0 x, f.1 x), λ h. f.2 x)
Reachable-Safe es ps t d (then_step s _ r k) = Step-Safe es ps s t d (Reachable-Safe es ps s d r) k

-- In every state that a running pipeline reaches by whole calls of schedule and the steps of runs,
-- when only producers call setError outside of their runs: an element without an entry in the run
-- queue is started, or a producer that has failed; one whose run is queued is dispatched, or such a
-- producer; one in __process is running or has failed; and one after it is finished or has failed.
-- No producer is in the ready queue. So an element that is started has no entry and is not run
-- twice at a time, and from such a state neither the assertion on the state of an element in
-- schedule fails nor that in dispatch.
pub schedule-Reachable :
    (es ps : List ℕ) (s : Scheduler)
    → Distinct ps
    → Reachable es ps s
    → Safe ps s
      × ((sizes : List ℕ) (willing : ℕ → Bool)
          → (schedule sizes willing es ps s).0 ≢ failed_assertion)
schedule-Reachable es ps s d r =
    let safe = Reachable-Safe es ps s d r in
    (safe, λ sizes willing. (schedule-Keeps sizes willing es ps s d safe).0)
