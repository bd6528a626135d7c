-- ===== src/Registry/Fresh.antt =====
-- The ids that the code hands out.
use parlevision.Base.{
  ℕ, zero, suc, ◌+◌, ◌≡◌, ◌≤◌, ◌<◌, refl, true, false, List, [], ◌∷◌, some, ◌==◌, ltb,
  if◌then◌else◌, contains, arith, Bool-cases, inl, inr, length,
}
use parlevision.Registry.{new_id_from, new_id, next_pin_id_from, next_pin_id}
use parlevision.Registry.Maps.{Ascending, Above-absent, Above-Ascending}

-- What an id is that is the smallest one, from a first one on, that is not in a list.
pub record IsFirstFree (first id : ℕ) (ks : List ℕ) : Type 0 where
  pub free : contains id ks ≡ false
  pub from : ltb id first ≡ false
  pub least : (x : ℕ) → ltb x id ≡ true → ltb x first ≡ false → contains x ks ≡ true

new_id_from-IsFirstFree :
    (id : ℕ) (ks : List ℕ)
    → Ascending ks
    → ((x : ℕ) → contains x ks ≡ true → ltb x id ≡ false)
    → IsFirstFree id (new_id_from id ks) ks
unfolding new_id_from
new_id_from-IsFirstFree id [] a low = record {
  free = refl;
  from = ground arith;
  least = λ x h k. ground arith;
}
new_id_from-IsFirstFree id (k ∷ ks) a low = elim (Bool-cases (ltb id k)) [
  | inl e ↦ rw e (record {
    free = ground (arith, Above-absent k id ks a);
    from = ground arith;
    least = λ x h f. ground arith;
  })
  | inr e ↦
      let here = low k (ground arith) in
      let rest =
        new_id_from-IsFirstFree (id + 1) ks (Above-Ascending k ks a)
          (λ x m. ground (arith, Above-absent k x ks a)) in
      rw e (record {
        free = ground (arith, rest.free, rest.from);
        from = ground (arith, rest.from);
        least = λ x h f. ground (arith, rest.least x);
      })
]

-- The id that getNewPipelineElementId (getNewPinConnectionId) finds in the map of the elements
-- (connections), whose keys ascend and are not negative: it is not in use, and all smaller ids are.
pub new_id-IsFirstFree : (ks : List ℕ) → Ascending ks → IsFirstFree 0 (new_id ks) ks
unfolding new_id
new_id-IsFirstFree ks a = new_id_from-IsFirstFree 0 ks a (λ x m. ground arith)

-- How many entries of a list are at least a number.
from_on : ℕ → List ℕ → ℕ
from_on id [] = 0
from_on id (k ∷ ks) = let rest = from_on id ks in if ltb k id then rest else suc rest

from_on-length : (id : ℕ) (ks : List ℕ) → from_on id ks ≤ length ks
unfolding from_on
from_on-length id [] = omega arith
from_on-length id (k ∷ ks) = ground (arith, from_on-length id ks)

from_on_mono : (id : ℕ) (ks : List ℕ) → from_on (id + 1) ks ≤ from_on id ks
unfolding from_on
from_on_mono id [] = omega arith
from_on_mono id (k ∷ ks) = ground (arith, from_on_mono id ks)

from_on-suc : (id : ℕ) (ks : List ℕ) → contains id ks ≡ true → from_on (id + 1) ks < from_on id ks
unfolding from_on
from_on-suc id [] h = absurd (ground arith)
from_on-suc id (k ∷ ks) h = ground (arith, from_on-suc id ks, from_on_mono id ks)

next_pin_id_from-IsFirstFree :
    (fuel id : ℕ) (ks : List ℕ)
    → from_on id ks < fuel
    → (n : ℕ) × (next_pin_id_from fuel id ks ≡ some n) × IsFirstFree id n ks
unfolding next_pin_id_from
next_pin_id_from-IsFirstFree zero id ks h = absurd (omega (arith, h))
next_pin_id_from-IsFirstFree (suc fuel) id ks h = elim (Bool-cases (contains id ks)) [
  | inr e ↦ (id, rw e refl, record { free = e; from = ground arith; least = λ x f g. ground arith })
  | inl e ↦
      let (n, same, rest) =
        next_pin_id_from-IsFirstFree fuel (id + 1) ks (omega (arith, h, from_on-suc id ks e)) in
      (
        n,
        rw e same,
        record {
          free = rest.free;
          from = ground (arith, rest.from);
          least = λ x f g. elim (Bool-cases (x == id)) [
            | inl q ↦ let same_id : x ≡ id = ground arith in rw same_id e
            | inr q ↦ rest.least x f (ground arith)
          ];
        },
      )
]

-- The loop of getNextInputPinId and getNextOutputPinId ends after at most one step more than the
-- element has pins, whatever their ids are, and finds the smallest id that no pin has.
pub next_pin_id-IsFirstFree :
    (ks : List ℕ) → (n : ℕ) × (next_pin_id (suc (length ks)) ks ≡ some n) × IsFirstFree 0 n ks
unfolding next_pin_id
next_pin_id-IsFirstFree ks =
    next_pin_id_from-IsFirstFree (suc (length ks)) 0 ks (omega (arith, from_on-length 0 ks))
