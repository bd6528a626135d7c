-- ===== src/Registry/Examples.antt =====
-- A pipeline with the producer 0 and the processor 2.
use parlevision.Base.{ℕ, ◌≡◌, refl, [], ◌∷◌, none, some, arith}
use parlevision.Registry.{
  producing, processing, Registry, next_pin_id, can_add_element, add_element, get_element,
  remove_element,
}
use parlevision.Registry.Fresh.{IsFirstFree, next_pin_id-IsFirstFree}
use parlevision.Registry.Agreement.{Agrees, add_element-Agrees, remove_element-Agrees}
use parlevision.Registry.Maps.{value}

abbrev camera_and_filter : Registry
camera_and_filter = record {
  children = (0, producing) ∷ (2, processing) ∷ [];
  producers = (0, tt) ∷ [];
  processors = (2, tt) ∷ [];
}

camera_and_filter-Agrees : Agrees camera_and_filter
unfolding value
camera_and_filter-Agrees = record {
  ascending = (refl, tt);
  ascending_producers = tt;
  ascending_processors = tt;
  producers = λ x. ground arith;
  processors = λ x. ground arith;
}

add_element-Agrees_example :
    get_element (add_element none processing camera_and_filter).0 camera_and_filter ≡ none
unfolding can_add_element
add_element-Agrees_example =
    (add_element-Agrees none processing camera_and_filter camera_and_filter-Agrees refl).0

remove_element-Agrees_example : get_element 2 (remove_element 2 camera_and_filter) ≡ none
remove_element-Agrees_example =
    (remove_element-Agrees 2 camera_and_filter camera_and_filter-Agrees).0 2

next_pin_id-IsFirstFree_example :
    (n : ℕ) × (next_pin_id 4 (3 ∷ 0 ∷ 1 ∷ []) ≡ some n) × IsFirstFree 0 n (3 ∷ 0 ∷ 1 ∷ [])
next_pin_id-IsFirstFree_example = next_pin_id-IsFirstFree (3 ∷ 0 ∷ 1 ∷ [])
