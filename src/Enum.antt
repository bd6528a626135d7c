-- ===== src/Enum.antt =====
-- The enumerations of the properties of elements: src/plvcore/Enum.cpp and
-- include/plvcore/Enum.h. Strings are only compared, so that they are numbers here, and the empty
-- string is 0. Indices and values are not negative. toString is left out.
pub mod Items
pub mod Selection
mod Examples
use parlevision.Base.{
  ℕ, zero, suc, ◌+◌, Bool, true, false, List, [], ◌∷◌, Option, none, some, ◌==◌, if◌then◌else◌,
  length, map, contains,
}
use parlevision.Base.Table.{Table, lookup, insert, keys, values}

pub record EnumPair : Type 0 where
  pub name : ℕ
  pub value : ℕ

-- items: m_items. selected_index: m_selectedIndex.
pub record Enum : Type 0 where
  pub selected_index : ℕ
  pub items : Table EnumPair

-- The constructor
abbrev pub new_enum : ℕ → Enum
new_enum selected = record { selected_index = selected; items = [] }

-- add(str, value)
unfoldable pub add_value : ℕ → ℕ → Enum → Enum
unfolding insert
add_value name value e = record e {
  items = insert (length e.items) (record { name = name; value = value }) e.items;
}

-- add(str)
unfoldable pub add : ℕ → Enum → Enum
unfolding insert
add name e = record e {
  items = insert (length e.items) (record { name = name; value = length e.items }) e.items;
}

-- setSelectedIndex; `none` is the assertion that fails.
pub set_selected_index : ℕ → Enum → Option Enum
set_selected_index i e =
    if contains i (keys e.items) then some (record e { selected_index = i }) else none

-- The loop of setSelected over the items from a number on.
pub select_from : ℕ → ℕ → List EnumPair → Enum → Enum
select_from selected i [] e = e
select_from selected i (p ∷ pairs) e =
    if p.name == selected
    then record e { selected_index = i }
    else select_from selected (suc i) pairs e

-- setSelected
unfoldable pub set_selected : ℕ → Enum → Enum
unfolding select_from
set_selected selected e = select_from selected 0 (values e.items) e

-- The name and the value of an item, if it is there.
abbrev pub name_of : Option EnumPair → Option ℕ
name_of none = none
name_of (some p) = some p.name

abbrev pub value_of : Option EnumPair → Option ℕ
value_of none = none
value_of (some p) = some p.value

-- getItemName and getItemValue; `none` is the exception.
unfoldable pub get_item_name : ℕ → Enum → Option ℕ
unfolding lookup
get_item_name i e = name_of (lookup i e.items)

unfoldable pub get_item_value : ℕ → Enum → Option ℕ
unfolding lookup
get_item_value i e = value_of (lookup i e.items)

-- getSelectedItemName
unfoldable pub get_selected_item_name : Enum → Option ℕ
unfolding get_item_name
get_selected_item_name e = get_item_name e.selected_index e

-- The loop of getItemNames over so many indices from a first one on. A missing item has the name
-- of an EnumPair made without arguments.
pub names_from : ℕ → ℕ → Table EnumPair → List ℕ
unfolding lookup
names_from i zero items = []
names_from i (suc n) items =
    (elim (lookup i items) [ none ↦ 0 | some p ↦ p.name ]) ∷ names_from (suc i) n items

-- getItemNames
unfoldable pub get_item_names : Enum → List ℕ
unfolding names_from
get_item_names e = names_from 0 (length e.items) e.items

-- getSelectedValue
pub get_selected_value : Enum → Option ℕ
unfolding get_item_value
get_selected_value e = get_item_value e.selected_index e
