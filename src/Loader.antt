-- ===== src/Loader.antt =====
-- The files of pipelines: src/plvcore/PipelineLoader.cpp. Strings are only compared and passed on,
-- so that a number stands for a string, and 0 for the empty one. The numbers of the strings that the
-- code writes out are constants.
pub mod Document
pub mod Writing
pub mod Adding
pub mod Reading
pub mod Ends
pub mod Sound
pub mod Properties
pub mod Restore
pub mod Rejoin
pub mod RoundTrip
mod Examples
use parlevision.Base.{
  ℕ, Bool, true, false, not, ◌&&◌, ◌||◌, List, [], ◌∷◌, Option, none, some, ◌==◌, any, contains,
}
use parlevision.Base.Table.{Table, values}
use parlevision.Registry.Maps.{value}
use parlevision.Enum.{Enum}
use parlevision.Factory.{Factory, answer, refused, fails, make}

-- The types of QVariant that convertData tells apart, apart from Bool and UserType. All other types
-- are other_type.
pub data QtType : Type 0 where
  char_type byte_array_type date_type double_type int_type long_long_type time_type : QtType
  uint_type ulong_long_type url_type other_type : QtType

-- The value of a property. Numbers stand for what a value of a type of Qt holds, and for a value of
-- a type of the program other than plv::Enum.
pub data Value : Type 0 where
  bool_value : Bool → Value
  enum_value : Enum → Value
  custom_value : ℕ → Value
  qt_value : QtType → ℕ → Value

-- QString, QVariant and QMetaObject. number and to_int: QString::number and toInt, where `none` is
-- -1. to_text and from_text: toString of a QVariant, and the conversions of a QString to a type.
-- is_same_ignoring_case: compare with Qt::CaseInsensitive.
pub record Qt : Type 0 where
  pub number : ℕ → ℕ
  pub to_int : ℕ → Option ℕ
  pub bool_to_text : Bool → ℕ
  pub to_text : QtType → ℕ → ℕ
  pub from_text : QtType → ℕ → ℕ
  pub is_same_ignoring_case : ℕ → ℕ → Bool

-- A PipelineElement. properties: those of its class, in the order of the meta object. dynamic: the
-- dynamic ones, as strings. The pins of an element that makes pins when others are connected are
-- left out.
pub record Element : Type 0 where
  pub class_name : ℕ
  pub properties : Table Value
  pub dynamic : Table ℕ
  pub is_producer : Bool
  pub is_consumer : Bool
  pub output_pins : List ℕ
  pub input_pins : List ℕ

-- A PinConnection: the ids of its ends.
pub record Connection : Type 0 where
  pub source : ℕ
  pub source_pin : ℕ
  pub sink : ℕ
  pub sink_pin : ℕ

-- m_children and m_connections
pub record Pipeline : Type 0 where
  pub elements : Table Element
  pub connections : Table Connection

abbrev pub new_pipeline : Pipeline
new_pipeline = record { elements = []; connections = [] }

-- Whether the input pin of a connection is that of another one.
abbrev pub has_same_sink : Connection → Connection → Bool
has_same_sink c d = c.sink == d.sink && c.sink_pin == d.sink_pin

abbrev pub is_taken : Connection → List Connection → Bool
is_taken c cs = any (has_same_sink c) cs

-- fits: whether the types of two pins go together, see Wiring.Objections.objection. The type that a
-- dynamic pin takes on when it is connected is left out.
abbrev pub Fits : Type 0
Fits = Element → ℕ → Element → ℕ → Bool

-- PinConnection::canConnectPins, for the elements at the ends of a connection.
unfoldable pub can_connect_pins : Fits → Element → Element → Connection → List Connection → Bool
can_connect_pins fits source sink c connections =
    not (c.source == c.sink)
    && not (is_taken c connections)
    && fits source c.source_pin sink c.sink_pin

-- PipelineElementFactory::elementId and construct, for the name of a class; `none` is an unknown
-- class.
unfoldable pub constructed : Factory Element → ℕ → Option Element
unfolding make
constructed f name = elim (make name f) [ answer e ↦ some e | refused ↦ none | fails ↦ none ]
