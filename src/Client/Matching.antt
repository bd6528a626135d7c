-- ===== src/Client/Matching.antt =====
-- src/plvtcpserver/TCPClientProducer.cpp (produce): the values of a frame and the output pins.
pub mod Fits
pub mod Counts
use parlevision.Base.{
  ℕ, Bool, true, false, not, ◌&&◌, ◌||◌, List, [], ◌∷◌, Option, none, some, ◌==◌, if◌then◌else◌,
  contains,
}
use parlevision.Client.{Client}

-- An output pin: its name, and getTypeId. A list of pins is in the order in which the hash of the
-- output pins of an element (include/plvcore/DataProducer.h) is gone through, which may be any.
pub record OutputPin : Type 0 where
  pub name : ℕ
  pub type_id : ℕ

-- user_type: QVariant::userType.
module _ {V : Type 0} (user_type : V → ℕ) where
  -- The inner loop of produce.
  pub find_pin : V → List OutputPin → (taken : List ℕ) → Option OutputPin
  find_pin v [] taken = none
  find_pin v (out ∷ pins) taken =
      if not (contains out.name taken) && (out.type_id == user_type v)
      then some out
      else find_pin v pins taken

  -- The outer loop: the names of the pins that get a value by putVariant, and the values.
  pub match_pins : List V → List OutputPin → (taken : List ℕ) → List (ℕ × V)
  unfolding find_pin
  match_pins [] pins taken = []
  match_pins (v ∷ frame) pins taken = elim (find_pin v pins taken) [
    | none ↦ match_pins frame pins taken
    | some out ↦ (out.name, v) ∷ match_pins frame pins (out.name ∷ taken)
  ]

  -- TCPClientProducer::produce, which is called when there is a frame in the list.
  pub produce : List OutputPin → Client V → Option (List (ℕ × V) × Client V)
  unfolding match_pins
  produce pins c = elim c.frame_list [
    | [] ↦ none
    | frame ∷ rest ↦ some (match_pins frame pins [], record c { frame_list = rest })
  ]

abbrev pub names : List OutputPin → List ℕ
names [] = []
names (out ∷ pins) = out.name ∷ names pins

abbrev pub put_names : {V : Type 0} → List (ℕ × V) → List ℕ
put_names [] = []
put_names (put ∷ puts) = put.0 ∷ put_names puts

-- No entry stands twice.
abbrev pub is_distinct : List ℕ → Bool
is_distinct [] = true
is_distinct (x ∷ xs) = not (contains x xs) && is_distinct xs

-- Some pin has the name and the type.
abbrev pub has_pin : ℕ → ℕ → List OutputPin → Bool
has_pin name type_id [] = false
has_pin name type_id (out ∷ pins) =
    (out.name == name && out.type_id == type_id) || has_pin name type_id pins
