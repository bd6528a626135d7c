-- ===== src/Client/Matching/Counts.antt =====
-- src/plvtcpserver/TCPClientProducer.cpp (produce): as many pins of a type get a value as can.
use parlevision.Base.{
  ℕ, ◌+◌, ◌≡◌, refl, ap, sym, ◌∙◌, Bool, true, false, not, ◌&&◌, List, [], ◌∷◌, some, none, ◌==◌,
  ==_refl, ltb, if◌then◌else◌, contains, arith, Bool-cases, Option-cases, inl, inr,
}
use parlevision.Client.{Client}
use parlevision.Client.Matching.{OutputPin, find_pin, match_pins, produce, names, is_distinct}

-- 1 for true.
abbrev one_if : Bool → ℕ
one_if true = 1
one_if false = 0

abbrev pub least : ℕ → ℕ → ℕ
least m n = if ltb m n then m else n

-- The pins of a type that are not taken.
abbrev pub free_pins : ℕ → List OutputPin → (taken : List ℕ) → ℕ
free_pins t [] taken = 0
free_pins t (out ∷ pins) taken =
    one_if (not (contains out.name taken) && (out.type_id == t)) + free_pins t pins taken

free_pins-taken :
    (t n : ℕ) (pins : List OutputPin) (taken : List ℕ)
    → contains n (names pins) ≡ false
    → free_pins t pins (n ∷ taken) ≡ free_pins t pins taken
free_pins-taken t n [] taken h = refl
free_pins-taken t n (out ∷ pins) taken h =
    ground (arith, h, free_pins-taken t n pins taken (ground (arith, h)))

module _ {V : Type 0} (user_type : V → ℕ) where
  -- The values of a type, in a frame and among those put.
  abbrev pub values_of : ℕ → List V → ℕ
  values_of t [] = 0
  values_of t (v ∷ frame) = one_if (user_type v == t) + values_of t frame

  abbrev pub puts_of : ℕ → List (ℕ × V) → ℕ
  puts_of t [] = 0
  puts_of t (put ∷ puts) = one_if (user_type put.1 == t) + puts_of t puts

  find_pin-none :
      (v : V) (pins : List OutputPin) (taken : List ℕ)
      → find_pin user_type v pins taken ≡ none
      → free_pins (user_type v) pins taken ≡ 0
  unfolding find_pin
  find_pin-none v [] taken e = refl
  find_pin-none v (first ∷ pins) taken e =
      elim (Bool-cases (not (contains first.name taken) && (first.type_id == user_type v))) [
        | inl y ↦ absurd (ground (arith, e, y))
        | inr z ↦ ground (arith, e, z, find_pin-none v pins taken (ground (arith, e, z)))
      ]

  find_pin-listed :
      (v : V) (pins : List OutputPin) (taken : List ℕ) (out : OutputPin)
      → find_pin user_type v pins taken ≡ some out
      → contains out.name (names pins) ≡ true
  unfolding find_pin
  find_pin-listed v [] taken out e = absurd (ground arith)
  find_pin-listed v (first ∷ pins) taken out e =
      elim (Bool-cases (not (contains first.name taken) && (first.type_id == user_type v))) [
        | inl y ↦
            let same : out ≡ first = ground arith in rw same (ground (arith, ==_refl first.name))
        | inr z ↦ ground (arith, find_pin-listed v pins taken out (ground arith))
      ]

  -- The pin that is found is one less.
  find_pin-free :
      (v : V) (pins : List OutputPin) (taken : List ℕ) (out : OutputPin) (t : ℕ)
      → is_distinct (names pins) ≡ true
      → find_pin user_type v pins taken ≡ some out
      → free_pins t pins taken ≡ one_if (user_type v == t) + free_pins t pins (out.name ∷ taken)
  unfolding find_pin
  find_pin-free v [] taken out t d e = absurd (ground arith)
  find_pin-free v (first ∷ pins) taken out t d e =
      elim (Bool-cases (not (contains first.name taken) && (first.type_id == user_type v))) [
        | inl y ↦
            let same : out ≡ first = ground arith in
            let absent : contains first.name (names pins) ≡ false = ground (arith, d) in
            rw same (
              ground (arith, y, ==_refl first.name, free_pins-taken t first.name pins taken absent))
        | inr z ↦
            let later : find_pin user_type v pins taken ≡ some out = ground arith in
            let listed = find_pin-listed v pins taken out later in
            let absent : contains first.name (names pins) ≡ false = ground (arith, d) in
            let apart : (out.name == first.name) ≡ false =
              elim (Bool-cases (out.name == first.name)) [
                | inr w ↦ w
                | inl w ↦
                    let same : out.name ≡ first.name = ground (arith, w) in
                    absurd (ground (arith, listed, absent, ap (λ n. contains n (names pins)) same))
              ] in
            let there = find_pin-free v pins taken out t (ground (arith, d)) later in
            ground (arith, apart, there)
      ]

  match_pins-counts :
      (frame : List V) (pins : List OutputPin) (taken : List ℕ) (t : ℕ)
      → is_distinct (names pins) ≡ true
      → puts_of t (match_pins user_type frame pins taken)
        ≡ least (values_of t frame) (free_pins t pins taken)
  unfolding match_pins
  match_pins-counts [] pins taken t d = ground arith
  match_pins-counts (v ∷ frame) pins taken t d =
      elim (Option-cases (find_pin user_type v pins taken)) [
        | inl e ↦
            let zero_left = find_pin-none v pins taken e in
            let there = match_pins-counts frame pins taken t d in
            elim (Bool-cases (user_type v == t)) [
              | inl y ↦
                  let same : user_type v ≡ t = ground (arith, y) in
                  let no_more : free_pins t pins taken ≡ 0 =
                    ap (λ n. free_pins n pins taken) (sym same) ∙ zero_left in
                  ground (arith, e, y, there, no_more)
              | inr z ↦ ground (arith, e, z, there)
            ]
        | inr (out, e) ↦
            let there = match_pins-counts frame pins (out.name ∷ taken) t d in
            let less = find_pin-free v pins taken out t d e in ground (arith, e, there, less)
      ]

  -- produce, for pins with different names, in whatever order they come: the first frame is taken
  -- off the list, and of each type as many values are put on pins as there are values of that type
  -- in the frame, or as there are pins of that type, whichever is less. So a value is left out
  -- only if there are too few pins of its type.
  pub produce-counts :
      (frame : List V) (rest : List (List V)) (pins : List OutputPin) (c : Client V)
      → c.frame_list ≡ frame ∷ rest
      → is_distinct (names pins) ≡ true
      → (puts : List (ℕ × V)) × (produce user_type pins c
          ≡ some (puts, record c { frame_list = rest }))
        × ((t : ℕ) → puts_of t puts ≡ least (values_of t frame) (free_pins t pins []))
  unfolding produce
  produce-counts frame rest pins c e d = (
    match_pins user_type frame pins [],
    ground (arith, e),
    λ t. match_pins-counts frame pins [] t d,
  )
