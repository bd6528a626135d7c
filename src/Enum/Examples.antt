-- ===== src/Enum/Examples.antt =====
-- The names 11, 12 and 11, of which the second one has the value 40.
use parlevision.Base.{refl, ℕ, ◌≡◌, false, List, [], ◌∷◌, none, some, take, contains, ◌⊎◌}
use parlevision.Enum.{
  new_enum, add, add_value, set_selected, get_item_value, get_selected_item_name, get_item_names,
}
use parlevision.Enum.Items.{Added, fill}
use parlevision.Enum.Selection.{set_selected-get_selected_item_name}

abbrev added : List Added
added =
    record { name = 11; value = none }
    ∷ record { name = 12; value = some 40 }
    ∷ record { name = 11; value = none }
    ∷ []

fill_test :
    (get_item_value 1 (fill added (new_enum 0)) ≡ some 40)
    × (get_item_value 2 (fill added (new_enum 0)) ≡ some 2)
    × (get_item_names (fill added (new_enum 0)) ≡ 11 ∷ 12 ∷ 11 ∷ [])
unfolding get_item_value get_item_names fill add add_value
fill_test = (refl, refl, refl)

set_selected-get_selected_item_name_example :
    let e = fill added (new_enum 0) in
    ((i : ℕ) × (set_selected 12 e ≡ record e { selected_index = i })
      × (get_selected_item_name (set_selected 12 e) ≡ some 12)
      × (contains 12 (take i (11 ∷ 12 ∷ 11 ∷ [])) ≡ false))
    ⊎ ((contains 12 (11 ∷ 12 ∷ 11 ∷ []) ≡ false) × (set_selected 12 e ≡ e))
set_selected-get_selected_item_name_example = set_selected-get_selected_item_name added 0 12
