-- ===== src/Scheduler/Producers.antt =====
-- src/plvcore/Pipeline.cpp (schedule): the dispatch of the producers.
use parlevision.Base.{
  ℕ, ◌+◌, ◌%◌, ◌^◌, ◌≡◌, refl, ap, ◌∙◌, Bool, true, false, not, ◌&&◌, List, [], ◌∷◌, some, ◌==◌,
  ltb, max, if◌then◌else◌, contains, all, arith, Bool-cases, inl, inr, ◌⊎◌,
}
use parlevision.Store.{started, dispatched, update}
use parlevision.Lifecycle.{is_dispatched}
use parlevision.Lifecycle.Rollback.{Distinct}
use parlevision.Scheduler.{
  queued, Scheduler, proceeds, dispatch, all_ready, longest, dispatch_all, run_producers,
}
use parlevision.Scheduler.States.{Safe, fits-idle}

-- What the dispatch of several elements does.
pub record AllDispatched (ps : List ℕ) (s t : Scheduler) : Type 0 where
  pub run_queue : (x : ℕ) → t.run_queue x ≡ (if contains x ps then some queued else s.run_queue x)
  pub items : (x : ℕ) → t.items x ≡ (if contains x ps then s.serial else s.items x)
  pub elements : (x : ℕ) → t.elements x ≡ (if contains x ps then dispatched else s.elements x)
  pub ready_queue : (x : ℕ) → t.ready_queue x ≡ s.ready_queue x
  pub serial : t.serial ≡ s.serial

dispatch-one :
    (p : ℕ) (s : Scheduler)
    → s.elements p ≡ started
    → (t : Scheduler) × (dispatch p s.serial s ≡ (proceeds, t)) × AllDispatched (p ∷ []) s t
unfolding dispatch
dispatch-one p s up = (
  record s {
    run_queue = update s.run_queue p (some queued);
    items = update s.items p s.serial;
    elements = update s.elements p dispatched;
  },
  ground (arith, up),
  record {
    run_queue = λ x. ground arith;
    items = λ x. ground arith;
    elements = λ x. ground arith;
    ready_queue = λ x. refl;
    serial = refl;
  },
)

pub dispatch_all-AllDispatched :
    (ps : List ℕ) (s : Scheduler)
    → Distinct ps
    → ((p : ℕ) → contains p ps ≡ true → s.elements p ≡ started)
    → (t : Scheduler) × (dispatch_all ps s ≡ (proceeds, t)) × AllDispatched ps s t
unfolding dispatch_all
dispatch_all-AllDispatched [] s d up = (
  s,
  refl,
  record {
    run_queue = λ x. refl;
    items = λ x. refl;
    elements = λ x. refl;
    ready_queue = λ x. refl;
    serial = refl;
  },
)
dispatch_all-AllDispatched (p ∷ ps) s d up =
    let (u, first, one) = dispatch-one p s (up p (ground arith)) in
    let (t, rest, more) =
      dispatch_all-AllDispatched ps u d.1 (λ x m. ground (arith, one.elements x, up x, d.0)) in
    (
      t,
      rw first rest,
      record {
        run_queue = λ x. ground (arith, one.run_queue x, more.run_queue x);
        items = λ x. ground (arith, one.items x, more.items x, one.serial);
        elements = λ x. ground (arith, one.elements x, more.elements x);
        ready_queue = λ x. ground (arith, one.ready_queue x, more.ready_queue x);
        serial = ground (arith, one.serial, more.serial);
      },
    )

all_ready-started :
    (willing : ℕ → Bool) (all_ps ps : List ℕ) (s : Scheduler)
    → Safe all_ps s
    → all_ready willing ps s ≡ true
    → (p : ℕ) → contains p ps ≡ true
    → s.elements p ≡ started
unfolding all_ready
all_ready-started willing all_ps [] s safe h p m = absurd (ground arith)
all_ready-started willing all_ps (q ∷ ps) s safe h p m = elim (Bool-cases (q == p)) [
  | inl e ↦
      (fits-idle (contains p all_ps) (s.run_queue p) (s.elements p) (safe p).0
        (idle (ground arith))).0
  | inr e ↦ all_ready-started willing all_ps ps s safe (ground arith) p (ground arith)
]
  where
    idle : q ≡ p → is_dispatched (s.elements p) ≡ false
    idle e = ground arith

produced :
    (sizes : List ℕ) (willing : ℕ → Bool) (ps : List ℕ) (s t : Scheduler)
    → (ltb (longest sizes 0) 5 && all_ready willing ps s) ≡ true
    → dispatch_all ps s ≡ (proceeds, t)
    → t.serial ≡ s.serial
    → run_producers sizes willing ps s ≡ (proceeds, record t { serial = (s.serial + 1) % 2 ^ 32 })
unfolding run_producers
produced sizes willing ps s t e f g = rw (e, f, g) refl

-- Whether every connection has less than five items, and every producer is neither dispatched,
-- running, finished nor failed and is ready to produce.
abbrev pub can_produce : (sizes : List ℕ) (willing : ℕ → Bool) → List ℕ → Scheduler → Bool
can_produce sizes willing ps s =
    all (λ n. ltb n 5) sizes && all (λ p. not (is_dispatched (s.elements p)) && willing p) ps

longest-all :
    (sizes : List ℕ) (m : ℕ) → ltb (longest sizes m) 5 ≡ (ltb m 5 && all (λ n. ltb n 5) sizes)
unfolding longest
longest-all [] m = ground arith
longest-all (n ∷ sizes) m = longest-all sizes (max n m) ∙ ground arith

all_ready-all :
    (willing : ℕ → Bool) (ps : List ℕ) (s : Scheduler)
    → all_ready willing ps s ≡ all (λ p. not (is_dispatched (s.elements p)) && willing p) ps
unfolding all_ready
all_ready-all willing [] s = refl
all_ready-all willing (p ∷ ps) s = ground (arith, all_ready-all willing ps s)

test-can_produce :
    (sizes : List ℕ) (willing : ℕ → Bool) (ps : List ℕ) (s : Scheduler)
    → (ltb (longest sizes 0) 5 && all_ready willing ps s) ≡ can_produce sizes willing ps s
test-can_produce sizes willing ps s =
    ap (λ b. b && all_ready willing ps s) (longest-all sizes 0)
    ∙ ap (λ b. all (λ n. ltb n 5) sizes && b) (all_ready-all willing ps s)

-- The producers in one call of schedule, in a safe state: if every connection has less than five
-- items and every producer can produce, all of them are dispatched, each with a RunItem of the
-- same serial, m_serial, and the next serial is one more, back to 0 after 2 ^ 32 - 1; else nothing
-- changes. No assertion fails.
pub run_producers-together :
    (sizes : List ℕ) (willing : ℕ → Bool) (ps : List ℕ) (s : Scheduler)
    → Safe ps s
    → Distinct ps
    → ((can_produce sizes willing ps s ≡ false)
        × (run_producers sizes willing ps s ≡ (proceeds, s)))
      ⊎ ((can_produce sizes willing ps s ≡ true)
          × (t : Scheduler) × AllDispatched ps s t
          × (run_producers sizes willing ps s
              ≡ (proceeds, record t { serial = (s.serial + 1) % 2 ^ 32 })))
unfolding run_producers
run_producers-together sizes willing ps s safe d =
    let same = test-can_produce sizes willing ps s in
    elim (Bool-cases (can_produce sizes willing ps s)) [
      | inr e ↦ inl (e, rw (same, e) refl)
      | inl e ↦
          let test : (ltb (longest sizes 0) 5 && all_ready willing ps s) ≡ true = same ∙ e in
          let (t, went, all_of) =
            dispatch_all-AllDispatched ps s d
              (all_ready-started willing ps ps s safe (ground (arith, test))) in
          inr (e, t, all_of, produced sizes willing ps s t test went all_of.serial)
    ]
