-- ===== src/Connection.antt =====
-- include/plvcore/PinConnection.h (Data) and src/plvcore/PinConnection.cpp (the queue of a
-- connection). The payload of an item is a QVariant, here a type `V`; an item without payload
-- holds an invalid QVariant. A function that throws a RuntimeError here returns `none`.
pub mod Fifo
mod Examples
use parlevision.Base.{ℕ, Bool, true, false, List, [], ◌∷◌, ◌++◌, Option, none, some, ◌==◌, length}

pub record Data (V : Type 0) : Type 0 where
  pub serial : ℕ
  pub payload : Option V
  pub is_null : Bool

module _ {V : Type 0} where
  -- Data(serial), with isNull = true by default.
  abbrev pub null_data : ℕ → Data V
  null_data serial = record { serial = serial; payload = none; is_null = true }

  -- Data(serial, payload)
  abbrev pub data_of : ℕ → V → Data V
  data_of serial v = record { serial = serial; payload = some v; is_null = false }

  -- PinConnection::get
  unfoldable pub get : List (Data V) → Option (Data V × List (Data V))
  get [] = none
  get (d ∷ queue) = some (d, queue)

  -- PinConnection::peek
  unfoldable pub peek : List (Data V) → Option (Data V)
  peek [] = none
  peek (d ∷ queue) = some d

  -- PinConnection::peek(serial, isNull)
  unfoldable pub peek_serial : List (Data V) → Option (ℕ × Bool)
  peek_serial [] = none
  peek_serial (d ∷ queue) = some (d.serial, d.is_null)

  -- The part of put that changes the queue.
  unfoldable pub push : List (Data V) → Data V → List (Data V)
  push queue d = queue ++ d ∷ []

  unfoldable pub has_data_items : List (Data V) → Bool
  has_data_items [] = false
  has_data_items (d ∷ queue) = true

  unfoldable pub size : List (Data V) → ℕ
  size queue = length queue

  -- PinConnection::fastforward: pops until the first item has the serial, and says if one has.
  unfoldable pub fastforward : ℕ → List (Data V) → Bool × List (Data V)
  fastforward target [] = (false, [])
  fastforward target (d ∷ queue) = elim (d.serial == target) [
    | true ↦ (true, d ∷ queue)
    | false ↦ fastforward target queue
  ]

  -- PinConnection::flush
  unfoldable pub flush : List (Data V) → List (Data V)
  flush [] = []
  flush (d ∷ queue) = flush queue
