-- ===== src/Consumer/Availability/Serials.antt =====
-- When dataAvailableOnInputPins reports a serial.
use parlevision.Base.{
  ℕ, ◌≡◌, refl, ◌↔◌, Bool, true, false, not, List, [], ◌∷◌, ◌++◌, Option, none, some, ◌==◌,
  if◌then◌else◌, all, arith, inl, inr, Bool-cases, Option-cases, ◌⊎◌, append-nil, append_assoc,
  is_empty, subst,
}
use parlevision.Connection.{Data}
use parlevision.Store.{Store, Element}
use parlevision.Consumer.{has_data_items, peek_next}
use parlevision.Consumer.Availability.{
  ready, synchronous_serials, compare_serials, data_available, head_serial, is_synchronous_input,
  AllWait, any_synchronous,
}

abbrev behind : List ℕ → Option (List ℕ) → Option (List ℕ)
behind front none = none
behind front (some ns) = some (front ++ ns)

behind-nil : (o : Option (List ℕ)) → behind [] o ≡ o
behind-nil none = refl
behind-nil (some ns) = refl

compare_serials-ready :
    (o : Option (List ℕ)) (n : ℕ)
    → (compare_serials o ≡ ready n)
      ↔ ((ns : List ℕ) × (o ≡ some ns) × (is_empty ns ≡ false) × (all (λ x. n == x) ns ≡ true))
unfolding compare_serials
compare_serials-ready none n = (λ e. cc, λ (ns, e, f, g). cc)
compare_serials-ready (some []) n = (λ e. cc, λ (ns, e, f, g). ground arith)
compare_serials-ready (some (m ∷ ms)) n = (
  λ e. elim (Bool-cases (all (λ x. m == x) ms)) [
    | inl y ↦
        let q : m ≡ n = ground arith in
        (m ∷ ms, refl, refl, subst (λ (k : ℕ). all (λ x. k == x) (m ∷ ms) ≡ true) q (ground arith))
    | inr z ↦ absurd (ground arith)
  ],
  λ (ns, e, f, g).
      let shape : ns ≡ m ∷ ms = ground arith in
      let here : all (λ x. n == x) (m ∷ ms) ≡ true =
        subst (λ (l : List ℕ). all (λ x. n == x) l ≡ true) shape g in
      let q : n ≡ m = ground arith in
      let there : all (λ x. m == x) ms ≡ true =
        subst (λ (k : ℕ). all (λ x. k == x) ms ≡ true) q (ground arith) in
      ground arith,
)

module _ {V : Type 0} where
  peek-head :
      (s : Store V) (q : ℕ)
      → ((has_data_items s q ≡ false) × (head_serial s q ≡ none))
        ⊎ ((n : ℕ) × (b : Bool) × (has_data_items s q ≡ true)
            × (peek_next s q ≡ some (n, b))
            × (head_serial s q ≡ some n))
  unfolding has_data_items peek_next
  peek-head s q = by_connection (s.inputs q).connection refl
    where
      by_queue :
          (k : List (Data V)) (c : ℕ)
          → (s.inputs q).connection ≡ some c
          → (s.connections c).queue ≡ k
          → ((has_data_items s q ≡ false) × (head_serial s q ≡ none))
            ⊎ ((n : ℕ) × (b : Bool) × (has_data_items s q ≡ true)
                × (peek_next s q ≡ some (n, b))
                × (head_serial s q ≡ some n))
      by_queue [] c e f = inl (ground arith, ground arith)
      by_queue (d ∷ k) c e f = inr (d.serial, d.is_null, ground arith, ground arith, ground arith)

      by_connection :
          (m : Option ℕ)
          → (s.inputs q).connection ≡ m
          → ((has_data_items s q ≡ false) × (head_serial s q ≡ none))
            ⊎ ((n : ℕ) × (b : Bool) × (has_data_items s q ≡ true)
                × (peek_next s q ≡ some (n, b))
                × (head_serial s q ≡ some n))
      by_connection none e = inl (ground arith, ground arith)
      by_connection (some c) e = by_queue (s.connections c).queue c e refl

  -- The serials at the front of the synchronous pins, if all of them have an item.
  heads : Store V → List ℕ → Option (List ℕ)
  heads s [] = some []
  heads s (q ∷ pins) =
      let rest = heads s pins in
      if is_synchronous_input s q
      then elim (head_serial s q) [
        | none ↦ none
        | some n ↦ elim rest [ none ↦ none | some ns ↦ some (n ∷ ns) ]
      ]
      else rest

  serials-heads :
      (s : Store V) (pins front : List ℕ)
      → synchronous_serials s pins front ≡ behind front (heads s pins)
  unfolding synchronous_serials heads
  serials-heads s [] front = ground (arith, append-nil front)
  serials-heads s (q ∷ pins) front = elim (peek-head s q) [
    | inl (e, f) ↦ ground (arith, serials-heads s pins front)
    | inr (n, b, e, f, g) ↦
        let here = serials-heads s pins (front ++ n ∷ []) in
        let there = serials-heads s pins front in
        elim (Option-cases (heads s pins)) [
          | inl h ↦ ground arith
          | inr (ns, h) ↦ ground (arith, append_assoc front (n ∷ []) ns)
        ]
  ]

  heads-AllWait :
      (s : Store V) (n : ℕ) (pins : List ℕ)
      → AllWait s n pins
      → (ns : List ℕ) × (heads s pins ≡ some ns)
        × (all (λ x. n == x) ns ≡ true)
        × (not (is_empty ns) ≡ any_synchronous s pins)
  unfolding heads
  heads-AllWait s n [] w = ([], refl, refl, refl)
  heads-AllWait s n (q ∷ pins) w =
      let (ns, e, same, some_pin) = heads-AllWait s n pins w.1 in
      elim (Bool-cases (is_synchronous_input s q)) [
        | inl y ↦ (n ∷ ns, ground (arith, w.0 y), ground arith, ground arith)
        | inr z ↦ (ns, ground arith, same, ground arith)
      ]

  AllWait-heads :
      (s : Store V) (n : ℕ) (pins ns : List ℕ)
      → heads s pins ≡ some ns
      → all (λ x. n == x) ns ≡ true
      → AllWait s n pins × (not (is_empty ns) ≡ any_synchronous s pins)
  unfolding heads
  AllWait-heads s n [] ns e same = (tt, ground arith)
  AllWait-heads s n (q ∷ pins) ns e same = elim (Bool-cases (is_synchronous_input s q)) [
    | inr z ↦
        let (w, count) = AllWait-heads s n pins ns (ground arith) same in
        ((λ y. cc, w), ground arith)
    | inl y ↦ elim (Option-cases (head_serial s q)) [
      | inl f ↦ absurd (ground arith)
      | inr (m, f) ↦ elim (Option-cases (heads s pins)) [
        | inl g ↦ absurd (ground arith)
        | inr (ms, g) ↦
            let shape : ns ≡ m ∷ ms = ground arith in
            let fits : all (λ x. n == x) (m ∷ ms) ≡ true =
              subst (λ (l : List ℕ). all (λ x. n == x) l ≡ true) shape same in
            let (w, count) = AllWait-heads s n pins ms g (ground arith) in
            let is_n : m ≡ n = ground arith in ((λ z. rw (f, is_n), w), rw (shape, y))
      ]
    ]
  ]

  data_available-heads :
      (s : Store V) (el : Element)
      → el.has_synchronous_pin ≡ true
      → data_available s el ≡ compare_serials (heads s el.inputs)
  unfolding data_available
  data_available-heads s el h = rw (h, serials-heads s el.inputs [], behind-nil (heads s el.inputs))

  -- A consumer with a synchronous pin may run for a serial exactly if it has a connected
  -- synchronous pin and at the front of each of them waits an item with that serial. In
  -- particular no serial is reported for items of different runs.
  pub data_available-ready :
      (s : Store V) (el : Element) (n : ℕ)
      → el.has_synchronous_pin ≡ true
      → (data_available s el ≡ ready n)
        ↔ ((any_synchronous s el.inputs ≡ true) × AllWait s n el.inputs)
  data_available-ready s el n h =
      let same = data_available-heads s el h in
      (
        λ e.
            let (ns, o, full, fits) =
              (compare_serials-ready (heads s el.inputs) n).0 (rw same at e) in
            let (w, count) = AllWait-heads s n el.inputs ns o fits in (ground arith, w),
        λ (some_pin, w).
            let (ns, o, fits, count) = heads-AllWait s n el.inputs w in
            rw same ((compare_serials-ready (heads s el.inputs) n).1 (ns, o, ground arith, fits)),
      )
