-- ===== src/Loader/Examples.antt =====
-- A tree read by recursive functions, a factory with two classes, and a pipeline of two elements.
use parlevision.Base.{
  ℕ, ◌≡◌, refl, Bool, true, false, List, [], ◌∷◌, ◌++◌, Option, none, some, ◌==◌, if◌then◌else◌,
}
use parlevision.Base.Table.{Table, lookup}
use parlevision.Registry.Maps.{value, insert}
use parlevision.Enum.{Enum, EnumPair}
use parlevision.Enum.Selection.{IsSelection}
use parlevision.Factory.{Factory}
use parlevision.Loader.{
  constructed, int_type, Qt, bool_value, enum_value, qt_value, Element, Connection, Pipeline, Fits,
  new_pipeline,
}
use parlevision.Loader.Document.{
  Node, text_node, element, Nodes, end, node, Dom, IsDom, or_empty, list_of, first_named, scene_x,
  scene_y,
}
use parlevision.Loader.Writing.{serialize}
use parlevision.Loader.Adding.{used_id, invalid_sink}
use parlevision.Loader.Reading.{deserialize}
use parlevision.Loader.Sound.{IsSound, deserialize-IsSound}
use parlevision.Loader.Properties.{
  IsQt, bool_survives, enum_survives, qt_survives, shown, no_properties, property, not_shown,
}
use parlevision.Loader.Restore.{IsRestorable}
use parlevision.Loader.RoundTrip.{serialize-deserialize}

abbrev plain_qt : Qt
plain_qt = record {
  number = λ n. n;
  to_int = λ s. some s;
  bool_to_text = λ b. if b then 15 else 17;
  to_text = λ t v. v;
  from_text = λ t s. s;
  is_same_ignoring_case = λ s t. s == t;
}

plain_qt-IsQt : IsQt plain_qt
plain_qt-IsQt = record {
  number_read = λ n. refl;
  true_written = refl;
  false_written = refl;
  false_apart = refl;
}

abbrev found : ℕ → Nodes → List Node
found t end = []
found t (node (text_node s) ns) = found t ns
found t (node (element u attributes children) ns) =
    (if u == t then element u attributes children ∷ [] else []) ++ (found t children ++ found t ns)

abbrev first_of : ℕ → Option Node → Option Node
first_of t none = none
first_of t (some (text_node s)) = none
first_of t (some (element u attributes children)) = first_named t children

abbrev children_of : Option Node → List Node
children_of none = []
children_of (some (text_node s)) = []
children_of (some (element u attributes children)) = list_of children

abbrev attribute_of : ℕ → Node → ℕ
attribute_of k (text_node s) = 0
attribute_of k (element u attributes children) = or_empty (lookup k attributes)

abbrev tag_of : Node → ℕ
tag_of (text_node s) = 0
tag_of (element u attributes children) = u

abbrev text_of : Option Node → ℕ
text_of none = 0
text_of (some (text_node s)) = s
text_of (some (element u attributes end)) = 0
text_of (some (element u attributes (node (text_node s) ns))) = s
text_of (some (element u attributes (node (element v more children) ns))) = 0

abbrev plain_dom : Dom
plain_dom = record {
  elements_by_tag_name = found;
  first_child_element = first_of;
  child_nodes = children_of;
  attribute = attribute_of;
  tag_name = tag_of;
  text = text_of;
}

plain_dom-IsDom : IsDom plain_dom
plain_dom-IsDom = record {
  elements-end = λ t. refl;
  elements-text = λ t s ns. refl;
  elements-element = λ t u attributes children ns. refl;
  first_child = λ t u attributes children. refl;
  children_listed = λ u attributes children. refl;
  attribute_found = λ k u attributes children. refl;
  tag_is = λ u attributes children. refl;
  text_is = λ u s attributes. refl;
}

abbrev modes : Table EnumPair
modes = (0, record { name = 40; value = 0 }) ∷ (1, record { name = 41; value = 1 }) ∷ []

abbrev mode : ℕ → Enum
mode i = record { selected_index = i; items = modes }

abbrev camera : (on : Bool) → (chosen : ℕ) → (width : ℕ) → Table ℕ → Element
camera on chosen width dynamic = record {
  class_name = 20;
  properties =
      (30, bool_value on) ∷ (31, enum_value (mode chosen)) ∷ (32, qt_value int_type width) ∷ [];
  dynamic = dynamic;
  is_producer = true;
  is_consumer = false;
  output_pins = 0 ∷ 1 ∷ [];
  input_pins = [];
}

abbrev viewer : Element
viewer = record {
  class_name = 21;
  properties = [];
  dynamic = [];
  is_producer = false;
  is_consumer = true;
  output_pins = [];
  input_pins = 0 ∷ [];
}

abbrev classes : Factory Element
classes = record {
  constructors =
      some (record { class_name = 20; made = camera false 0 5 [] })
      ∷ some (record { class_name = 21; made = viewer })
      ∷ [];
  ids = (20, 0) ∷ (21, 1) ∷ [];
}

abbrev factory : ℕ → Option Element
factory name = constructed classes name

abbrev all_fit : Fits
all_fit source source_pin sink sink_pin = true

abbrev joined : Connection
joined = record { source = 2; source_pin = 1; sink = 7; sink_pin = 0 }

abbrev sample : Pipeline
sample = record {
  elements = (2, camera true 1 640 ((scene_x, 3) ∷ (scene_y, 9) ∷ [])) ∷ (7, viewer) ∷ [];
  connections = (4, joined) ∷ [];
}

sample-IsSound : IsSound all_fit sample
unfolding value
sample-IsSound = record {
  elements_ascend = (refl, tt);
  connections_ascend = tt;
  ends = refl;
  apart = refl;
}

abbrev chosen-IsSelection : IsSelection (mode 0) (mode 1)
chosen-IsSelection = record {
  pairs = record { name = 40; value = 0 } ∷ record { name = 41; value = 1 } ∷ [];
  name = 41;
  old_items = refl;
  saved_items = refl;
  selected = (record { name = 41; value = 1 }, refl, refl);
  first = refl;
}

camera-IsRestorable :
    IsRestorable plain_qt factory (camera true 1 640 ((scene_x, 3) ∷ (scene_y, 9) ∷ []))
unfolding constructed lookup
camera-IsRestorable = record {
  old = (30, bool_value false) ∷ (31, enum_value (mode 0)) ∷ (32, qt_value int_type 5) ∷ [];
  made = refl;
  properties_restored =
      property 30 (bool_value false) (bool_value true)
        ((31, enum_value (mode 0)) ∷ (32, qt_value int_type 5) ∷ [])
        ((31, enum_value (mode 1)) ∷ (32, qt_value int_type 640) ∷ []) (bool_survives false true)
        refl refl refl
        (property 31 (enum_value (mode 0)) (enum_value (mode 1)) ((32, qt_value int_type 5) ∷ [])
          ((32, qt_value int_type 640) ∷ []) (enum_survives (mode 0) (mode 1) chosen-IsSelection)
          refl refl refl
          (property 32 (qt_value int_type 5) (qt_value int_type 640) [] []
            (qt_survives int_type 5 640 refl) refl refl refl no_properties));
  scene = shown 3 9;
}

viewer-IsRestorable : IsRestorable plain_qt factory viewer
unfolding constructed lookup
viewer-IsRestorable = record {
  old = [];
  made = refl;
  properties_restored = no_properties;
  scene = not_shown;
}

serialize-deserialize_example :
    (document : Nodes) × (serialize plain_qt sample ≡ some document)
    × (deserialize plain_qt plain_dom factory all_fit document new_pipeline
        ≡ (none, record { elements = sample.elements; connections = (0, joined) ∷ [] }))
serialize-deserialize_example =
    serialize-deserialize plain_qt plain_dom plain_qt-IsQt plain_dom-IsDom factory all_fit sample
      sample-IsSound (camera-IsRestorable, (viewer-IsRestorable, tt))

-- The second of the elements has the id of the first.
abbrev bad : Nodes
bad =
    node (element 3 ((4, 2) ∷ (5, 20) ∷ []) end) (node (element 3 ((4, 2) ∷ (5, 21) ∷ []) end) end)

deserialize-IsSound_example :
    IsSound all_fit (deserialize plain_qt plain_dom factory all_fit bad sample).1
deserialize-IsSound_example =
    deserialize-IsSound plain_qt plain_dom factory all_fit bad sample sample-IsSound

-- The element that was read before the error stays.
bad_document-leaves_first :
    deserialize plain_qt plain_dom factory all_fit bad new_pipeline
    ≡ (some used_id, record { elements = (2, camera false 0 5 []) ∷ []; connections = [] })
unfolding deserialize insert lookup constructed
bad_document-leaves_first = refl

-- A connection without a sink is one to the element 0.
abbrev unjoined : Nodes
unjoined =
    node
      (element 10 [] (
        node
          (element 12 [] (
            node (element 14 [] (node (text_node 2) end))
              (node (element 13 [] (node (text_node 1) end)) end)))
          end))
      end

missing_sink-refused :
    deserialize plain_qt plain_dom factory all_fit unjoined sample ≡ (some invalid_sink, sample)
unfolding deserialize value
missing_sink-refused = refl
