-- ===== src/Client/Matching/Fits.antt =====
-- src/plvtcpserver/TCPClientProducer.cpp (produce): a pin gets one value at most, and one of its
-- type.
use parlevision.Base.{
  ℕ, ◌≡◌, refl, ap, Bool, true, false, not, ◌&&◌, List, [], ◌∷◌, some, ◌==◌, ==_refl, contains,
  arith, Bool-cases, Option-cases, inl, inr,
}
use parlevision.Client.{Client}
use parlevision.Client.Matching.{
  OutputPin, find_pin, match_pins, produce, put_names, is_distinct, has_pin,
}

module _ {V : Type 0} (user_type : V → ℕ) where
  find_pin-found :
      (v : V) (pins : List OutputPin) (taken : List ℕ) (out : OutputPin)
      → find_pin user_type v pins taken ≡ some out
      → (contains out.name taken ≡ false) × (has_pin out.name (user_type v) pins ≡ true)
  unfolding find_pin
  find_pin-found v [] taken out e = absurd (ground arith)
  find_pin-found v (first ∷ pins) taken out e =
      elim (Bool-cases (not (contains first.name taken) && (first.type_id == user_type v))) [
        | inl y ↦
            let same : out ≡ first = ground arith in
            rw same (ground (arith, y, ==_refl first.name), ground (arith, y, ==_refl first.name))
        | inr z ↦
            let (a, b) = find_pin-found v pins taken out (ground arith) in (a, ground (arith, b))
      ]

  differs :
      (a b : ℕ) (xs : List ℕ) → contains a xs ≡ false → contains b xs ≡ true → (a == b) ≡ false
  differs a b xs h k = elim (Bool-cases (a == b)) [
    | inr z ↦ z
    | inl y ↦
        let same : a ≡ b = ground arith in
        absurd (ground (arith, h, k, ap (λ n. contains n xs) same))
  ]

  -- What the puts keep: a pin that is taken gets nothing.
  match_pins-untaken :
      (frame : List V) (pins : List OutputPin) (taken : List ℕ) (a : ℕ)
      → contains a taken ≡ true
      → contains a (put_names (match_pins user_type frame pins taken)) ≡ false
  unfolding match_pins
  match_pins-untaken [] pins taken a h = refl
  match_pins-untaken (v ∷ frame) pins taken a h =
      elim (Option-cases (find_pin user_type v pins taken)) [
        | inl e ↦ ground (arith, e, match_pins-untaken frame pins taken a h)
        | inr (out, e) ↦
            let found = find_pin-found v pins taken out e in
            let other : (out.name == a) ≡ false = differs out.name a taken found.0 h in
            ground (
              arith,
              e,
              other,
              match_pins-untaken frame pins (out.name ∷ taken) a (ground (arith, h)),
            )
      ]

  -- Each put is of a value to a pin of its type.
  abbrev pub puts_fit : List (ℕ × V) → List OutputPin → Bool
  puts_fit [] pins = true
  puts_fit (put ∷ puts) pins = has_pin put.0 (user_type put.1) pins && puts_fit puts pins

  match_pins-fit :
      (frame : List V) (pins : List OutputPin) (taken : List ℕ)
      → (is_distinct (put_names (match_pins user_type frame pins taken)) ≡ true)
        × (puts_fit (match_pins user_type frame pins taken) pins ≡ true)
  unfolding match_pins
  match_pins-fit [] pins taken = (refl, refl)
  match_pins-fit (v ∷ frame) pins taken = elim (Option-cases (find_pin user_type v pins taken)) [
    | inl e ↦
        let (a, b) = match_pins-fit frame pins taken in (ground (arith, e, a), ground (arith, e, b))
    | inr (out, e) ↦
        let (a, b) = match_pins-fit frame pins (out.name ∷ taken) in
        let found = find_pin-found v pins taken out e in
        let once =
          match_pins-untaken frame pins (out.name ∷ taken) out.name
            (ground (arith, ==_refl out.name)) in
        (ground (arith, e, a, once), ground (arith, e, b, found.1))
  ]

  -- produce, whatever the types of the values and of the pins: the first frame is taken off the
  -- list, no pin gets two values, and each value goes to a pin of its type.
  pub produce-fits :
      (frame : List V) (rest : List (List V)) (pins : List OutputPin) (c : Client V)
      → c.frame_list ≡ frame ∷ rest
      → (puts : List (ℕ × V)) × (produce user_type pins c
          ≡ some (puts, record c { frame_list = rest }))
        × (is_distinct (put_names puts) ≡ true)
        × (puts_fit puts pins ≡ true)
  unfolding produce
  produce-fits frame rest pins c e =
      let (a, b) = match_pins-fit frame pins [] in
      (match_pins user_type frame pins [], ground (arith, e), a, b)
