-- ===== src/Store.antt =====
-- The objects of a pipeline that point at one another: elements, pins and connections
-- (include/plvcore: PinConnection.h, IInputPin.h, IOutputPin.h, Pin.h, DataConsumer.h,
-- PipelineElement.h). A number stands for the address of an object, one address space for each
-- kind of object. An element is addressed by its id in the pipeline.
pub mod Monad
use parlevision.Base.{ℕ, Bool, true, false, List, Option, ◌==◌, if◌then◌else◌}
use parlevision.Connection.{Data}
use parlevision.Scoreboard.{ScoreBoard}

-- The class of an input pin: InputPin<T>, CvMatDataInputPin or DynamicInputPin.
pub data InputKind : Type 0 where
  typed_input matrix_input dynamic_input : InputKind

-- The class of an output pin: OutputPin<T> or CvMatDataOutputPin.
pub data OutputKind : Type 0 where
  typed_output matrix_output : OutputKind

-- required, synchronous and guaranteed are the enums Required, Synchronized and DataGuarantee.
pub record InputPin : Type 0 where
  pub owner : ℕ
  pub required : Bool
  pub synchronous : Bool
  pub guaranteed : Bool
  pub kind : InputKind
  pub type_id : ℕ
  pub connection : Option ℕ
  pub called : Bool

pub record OutputPin : Type 0 where
  pub owner : ℕ
  pub kind : OutputKind
  pub type_id : ℕ
  pub connections : List ℕ
  pub called : Bool

-- The two ends are null after disconnect.
pub record PinConnection (V : Type 0) : Type 0 where
  pub producer : Option ℕ
  pub consumer : Option ℕ
  pub queue : List (Data V)

-- PipelineElement::State. The numbers behind the names order them.
pub data State : Type 0 where
  undefined initialized started dispatched running finished failed : State

-- inputs and outputs: the pins, in the order in which the QHash is iterated over.
pub record Element : Type 0 where
  pub inputs : List ℕ
  pub outputs : List ℕ
  pub has_asynchronous_pin : Bool
  pub has_synchronous_pin : Bool
  pub scoreboard : ScoreBoard
  pub serial : ℕ
  pub state : State

-- ready: the queue of m_readyQueue for an element, if there is one, as a list of serials.
pub record Store (V : Type 0) : Type 0 where
  pub inputs : ℕ → InputPin
  pub outputs : ℕ → OutputPin
  pub connections : ℕ → PinConnection V
  pub elements : ℕ → Element
  pub ready : ℕ → Option (List ℕ)

abbrev pub update {ℓ} : {A : Type ℓ} → (ℕ → A) → ℕ → A → ℕ → A
update f a v x = if a == x then v else f x
