-- ===== src/Factory/Examples.antt =====
-- A factory with a class that is registered, unregistered and registered again.
use parlevision.Base.{ℕ, ◌≡◌, refl, List, [], ◌∷◌, some}
use parlevision.Base.Table.{lookup, insert}
use parlevision.Factory.{
  Constructor, new_factory, answer, refused, fails, register_element, construct, construct_named,
  make, Call, register, unregister, run,
}
use parlevision.Factory.Holds.{status}
use parlevision.Factory.Names.{make-status}

abbrev blur : Constructor ℕ
blur = record { class_name = 5; made = 50 }

abbrev crop : Constructor ℕ
crop = record { class_name = 6; made = 60 }

abbrev lost_calls : List (Call ℕ)
lost_calls = register blur ∷ register crop ∷ unregister 5 ∷ register blur ∷ []

make-status_example : make 5 (run lost_calls new_factory) ≡ refused
unfolding status
make-status_example = make-status lost_calls 5

crop_made : make 6 (run lost_calls new_factory) ≡ answer 60
unfolding run make lookup insert
crop_made = refl

-- The id that is as large as the list gets past the test of construct.
next_id-fails : construct (some 2) (run lost_calls new_factory) ≡ fails
unfolding run construct insert lookup
next_id-fails = refl

-- construct calls the null pointer of a class that was unregistered.
unregistered_name-fails : construct_named 5 (run lost_calls new_factory) ≡ fails
unfolding run construct_named lookup insert
unregistered_name-fails = refl

-- A class that is registered twice gets the id of the first class.
second_registration : (register_element crop (run lost_calls new_factory)).0 ≡ 0
unfolding run register_element lookup insert
second_registration = refl
