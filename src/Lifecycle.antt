-- ===== src/Lifecycle.antt =====
-- The life of an element: src/plvcore/PipelineElement.cpp (__init, __deinit, __start,
-- __stop) and src/plvcore/Pipeline.cpp (the loops over the elements in init, deinit,
-- start and stop). The virtual methods init, deinit, start and stop of the element classes are
-- parameters: what a call of one of them does is an Outcome.
pub mod Rollback
pub mod Others
pub mod Restart
mod Examples
use parlevision.Base.{
  ℕ, Bool, true, false, not, ◌||◌, ◌&&◌, List, [], ◌∷◌, Option, none, some, ◌==◌, if◌then◌else◌,
}
use parlevision.Store.{
  State, undefined, initialized, started, dispatched, running, finished, failed, update,
}

-- What a call of a virtual method of an element does: it returns or throws, and has called
-- setError before that or not.
pub data Outcome : Type 0 where
  returns : (result reported : Bool) → Outcome
  throwing : (reported : Bool) → Outcome

-- The part of a PipelineElement that its life is about. `reported` says whether m_errorType is
-- other than PlvNoError.
pub record Phase : Type 0 where
  pub state : State
  pub reported : Bool

-- The result of a call of an element's __init, __deinit, __start or __stop.
pub data Called : Type 0 where
  said : Bool → Called
  threw : Called
  asserted : Called

-- Whether a state is at least PLE_STARTED.
abbrev pub is_started : State → Bool
is_started undefined = false
is_started initialized = false
is_started started = true
is_started dispatched = true
is_started running = true
is_started finished = true
is_started failed = true

-- Whether a state is at least PLE_DISPATCHED.
abbrev pub is_dispatched : State → Bool
is_dispatched undefined = false
is_dispatched initialized = false
is_dispatched started = false
is_dispatched dispatched = true
is_dispatched running = true
is_dispatched finished = true
is_dispatched failed = true

-- A virtual method is called, and the state is set to `next` if it returns true, to PLE_ERROR if
-- it returns false.
abbrev pub call : Outcome → State → Phase → Called × Phase
call (throwing true) next p = (threw, record { state = failed; reported = true })
call (throwing false) next p = (threw, p)
call (returns true r) next p = (said true, record { state = next; reported = p.reported || r })
call (returns false r) next p = (said false, record { state = failed; reported = p.reported || r })

-- PipelineElement::__init
pub init : Outcome → Phase → Called × Phase
init o p = elim p.state [
  | undefined ↦ call o initialized p
  | initialized ↦ (asserted, p)
  | started ↦ (asserted, p)
  | dispatched ↦ (asserted, p)
  | running ↦ (asserted, p)
  | finished ↦ (asserted, p)
  | failed ↦ (asserted, p)
]

-- The rest of __deinit. It is declared throw(), so that an exception ends the program; deinit is
-- a Boolean here.
abbrev pub torn_down : Bool → Phase → Called × Phase
torn_down true p = (said true, record { state = undefined; reported = false })
torn_down false p = (said false, record { state = failed; reported = p.reported })

-- PipelineElement::__deinit
pub deinit : Bool → Phase → Called × Phase
deinit o p = elim p.state [
  | undefined ↦ (asserted, p)
  | initialized ↦ torn_down o p
  | started ↦ (asserted, p)
  | dispatched ↦ (asserted, p)
  | running ↦ (asserted, p)
  | finished ↦ (asserted, p)
  | failed ↦ torn_down o p
]

-- PipelineElement::__start
pub start : Outcome → Phase → Called × Phase
start o p = elim p.state [
  | undefined ↦ (asserted, p)
  | initialized ↦ call o started p
  | started ↦ (asserted, p)
  | dispatched ↦ (asserted, p)
  | running ↦ (asserted, p)
  | finished ↦ (asserted, p)
  | failed ↦ (asserted, p)
]

-- PipelineElement::__stop
pub stop : Outcome → Phase → Called × Phase
stop o p = if is_started p.state then call o initialized p else (asserted, p)

-- What the methods of each element do when they are called.
pub record Hooks : Type 0 where
  pub on_init : ℕ → Outcome
  pub on_start : ℕ → Outcome
  pub on_stop : ℕ → Outcome
  pub on_deinit : ℕ → Bool

-- How a method of the pipeline ends. `lost` is a failed assertion or an uncaught exception.
pub data Ending : Type 0 where
  done refused lost : Ending

abbrev pub Elements : Type 0
Elements = ℕ → Phase

-- A loop that calls __deinit for the elements of a list.
pub deinit_all : Hooks → List ℕ → Elements → Ending × Elements
unfolding deinit
deinit_all h [] s = (done, s)
deinit_all h (e ∷ es) s =
    let (r, p) = deinit (h.on_deinit e) (s e) in
    let rest = deinit_all h es (update s e p) in
    elim r [ asserted ↦ (lost, s) | threw ↦ (lost, s) | said b ↦ rest ]

-- The calls after an element's __init failed: its own __deinit, and that of the elements in
-- `initialized`.
pub roll_back : Hooks → ℕ → List ℕ → Elements → Ending × Elements
unfolding deinit_all
roll_back h e before s =
    let (ending, after) = deinit_all h (e ∷ before) s in
    (elim ending [ done ↦ refused | refused ↦ refused | lost ↦ lost ], after)

-- The loop of Pipeline::init. `before` is the set `initialized`, iterated over from the last
-- element that came in.
pub init_all : Hooks → List ℕ → List ℕ → Elements → Ending × Elements
unfolding init roll_back
init_all h before [] s = (done, s)
init_all h before (e ∷ es) s =
    let (r, p) = init (h.on_init e) (s e) in
    let after = update s e p in
    let back = roll_back h e before after in
    let rest = init_all h (e ∷ before) es after in
    elim r [
      | asserted ↦ (lost, s)
      | threw ↦ back
      | said b ↦ if not b && p.reported then back else rest
    ]

-- The clean-up after an error in start: __stop and __deinit for the elements in `started`. It is
-- also the loop of Pipeline::stop over all elements.
unfoldable pub stop_all : Hooks → List ℕ → Elements → Ending × Elements
unfolding stop deinit
stop_all h [] s = (done, s)
stop_all h (e ∷ es) s =
    let (r, p) = stop (h.on_stop e) (s e) in
    let (d, q) = deinit (h.on_deinit e) p in
    let rest = stop_all h es (update s e q) in
    elim r [
      | asserted ↦ (lost, s)
      | threw ↦ (lost, s)
      | said b ↦ elim d [
        | asserted ↦ (lost, update s e p)
        | threw ↦ (lost, update s e p)
        | said c ↦ rest
      ]
    ]

-- The error branches of the loop in Pipeline::start: __deinit of the element, then the clean-up.
pub abandon : Hooks → ℕ → List ℕ → Elements → Ending × Elements
unfolding deinit stop_all
abandon h e before s =
    let (d, p) = deinit (h.on_deinit e) (s e) in
    let (ending, after) = stop_all h before (update s e p) in
    elim d [
      | asserted ↦ (lost, s)
      | threw ↦ (lost, s)
      | said b ↦ (elim ending [ done ↦ refused | refused ↦ refused | lost ↦ lost ], after)
    ]

-- The loop of Pipeline::start. `before` is the set `started`.
pub start_all : Hooks → List ℕ → List ℕ → Elements → Ending × Elements
unfolding start abandon
start_all h before [] s = (done, s)
start_all h before (e ∷ es) s =
    let (r, p) = start (h.on_start e) (s e) in
    let after = update s e p in
    let back = abandon h e before after in
    let rest = start_all h (e ∷ before) es after in
    elim r [ asserted ↦ (lost, s) | threw ↦ back | said b ↦ if b then rest else back ]

-- Pipeline::start up to the start of the heartbeat, for the elements `es`. Whether all required
-- pins are connected and whether the graph could be ordered are arguments: see
-- Consumer.required_input_pins_connected and Graph.generate_graph_ordering.
pub start_pipeline : Hooks → List ℕ → (connected ordered : Bool) → Elements → Ending × Elements
unfolding init_all deinit_all start_all
start_pipeline h es connected ordered s =
    if (elim es [ [] ↦ true | e ∷ rest ↦ false ])
    then (refused, s)
    else let (r, after) = init_all h [] es s in
      let (d, undone) = deinit_all h es after in
      elim r [
        | lost ↦ (lost, after)
        | refused ↦ (refused, after)
        | done ↦
            if not connected
            then (elim d [ done ↦ refused | refused ↦ refused | lost ↦ lost ], undone)
            else if not ordered
            then (refused, after)
            else start_all h [] es after
      ]
