-- ===== src/Wiring/Cut.antt =====
-- Disconnecting takes a connection away from both of its ends.
use parlevision.Base.{
  ℕ, ◌≡◌, ◌≤◌, refl, true, false, not, occurrences, absent_of_occurrences, ◌||◌, ◌&&◌, List, [],
  ◌∷◌, none, some, ◌==◌, if◌then◌else◌, arith, contains, Bool-cases, inl, inr, ◌≢◌,
}
use parlevision.Store.{Store, update}
use parlevision.Store.Monad.{ok}
use parlevision.Wiring.{disconnect, erase_first}
use parlevision.Wiring.Links.{IsWired, IsUnused}

tail_kept :
    (c x : ℕ) (xs : List ℕ) (d : ℕ)
    → (x == c) ≡ true
    → contains c xs ≡ false
    → contains d xs ≡ ((x == d || contains d xs) && not (c == d))
tail_kept c x xs d y f = elim (Bool-cases (c == d)) [
  | inl e ↦ let q : d ≡ c = ground arith in rw q (ground arith)
  | inr e ↦ ground arith
]

erase_first_lem :
    (c : ℕ) (xs : List ℕ)
    → contains c xs ≡ true
    → occurrences c xs ≤ 1
    → (rest : List ℕ) × (erase_first c xs ≡ some rest)
      × ((d : ℕ) → contains d rest ≡ (contains d xs && not (c == d)))
      × ((d : ℕ) → occurrences d rest ≤ occurrences d xs)
unfolding erase_first
erase_first_lem c [] m h = cc
erase_first_lem c (x ∷ xs) m h = elim (Bool-cases (x == c)) [
  | inl y ↦ (
    xs,
    ground arith,
    λ d. tail_kept c x xs d y (absent_of_occurrences c xs (ground arith)),
    λ d. ground arith,
  )
  | inr n ↦
      let (rest, e, has, few) = erase_first_lem c xs (ground arith) (ground arith) in
      (x ∷ rest, ground arith, λ d. ground (arith, has d), λ d. ground (arith, few d))
]

module _ {V : Type 0} where
  cut : ℕ → ℕ → ℕ → List ℕ → Store V → Store V
  cut c p q rest s = record s {
    outputs = update s.outputs p (record (s.outputs p) { connections = rest });
    inputs = update s.inputs q (record (s.inputs q) { connection = none });
    connections = update s.connections c (record { producer = none; consumer = none; queue = [] });
  }

  disconnect-eq-cut :
      (s : Store V) (c p q : ℕ) (rest : List ℕ)
      → (s.connections c).producer ≡ some p
      → (s.connections c).consumer ≡ some q
      → (s.inputs q).connection ≡ some c
      → erase_first c (s.outputs p).connections ≡ some rest
      → disconnect c s ≡ (ok tt, cut c p q rest s)
  unfolding disconnect cut
  disconnect-eq-cut s c p q rest prod cons set e = ground arith

  module _ (s : Store V) (c p q : ℕ) (rest : List ℕ) (w : IsWired s)
      (prod : (s.connections c).producer ≡ some p) (cons : (s.connections c).consumer ≡ some q)
      (set : (s.inputs q).connection ≡ some c)
      (has : (d : ℕ) → contains d rest ≡ (contains d (s.outputs p).connections && not (c == d)))
      (few : (d : ℕ) → occurrences d rest ≤ occurrences d (s.outputs p).connections) where
    t : Store V
    unfolding cut
    t = cut c p q rest s

    input_of :
        (i : ℕ) → (t.inputs i).connection ≡ (if q == i then none else (s.inputs i).connection)
    unfolding t
    input_of i = ground arith

    output_of :
        (o d : ℕ)
        → contains d (t.outputs o).connections
          ≡ (contains d (s.outputs o).connections && not (c == d))
    unfolding t
    output_of o d = elim (Bool-cases (p == o)) [
      | inl y ↦ ground (arith, has d)
      | inr n ↦ ground (arith, w.output_wired o d)
    ]

    cut-IsUnused : IsUnused c t
    cut-IsUnused = record {
      no_input = λ i e. ground (arith, input_of i, w.input_wired i c);
      no_output = λ o. ground (arith, output_of o c);
    }

    input_cut :
        (i d : ℕ)
        → (t.inputs i).connection ≡ some d
        → ((t.connections d).consumer ≡ some i)
          × (o : ℕ) × ((t.connections d).producer ≡ some o)
          × (contains d (t.outputs o).connections ≡ true)
    unfolding t
    input_cut i d e =
        let old : (s.inputs i).connection ≡ some d = ground (arith, input_of i) in
        let other : q ≢ i = ground (arith, input_of i) in
        let (k, o, m, l) = w.input_wired i d old in
        let ne : c ≢ d = ground arith in
        (ground arith, o, ground arith, ground (arith, output_of o d))

    output_cut :
        (o d : ℕ)
        → contains d (t.outputs o).connections ≡ true
        → ((t.connections d).producer ≡ some o)
          × (i : ℕ) × ((t.connections d).consumer ≡ some i)
          × ((t.inputs i).connection ≡ some d)
    unfolding t
    output_cut o d e =
        let old : contains d (s.outputs o).connections ≡ true = ground (arith, output_of o d) in
        let ne : c ≢ d = ground (arith, output_of o d) in
        let (m, i, k, l) = w.output_wired o d old in
        (ground arith, i, ground arith, ground (arith, input_of i))

    cut-IsWired : IsWired t
    unfolding t
    cut-IsWired = record {
      input_wired = input_cut;
      output_wired = output_cut;
      once = λ o d. ground (arith, few d, w.once o d, w.once p d);
    }

  -- disconnect of a connection that an input pin holds, in a store whose pointers agree, fails no
  -- assertion; the pointers agree afterwards, and no pin refers to the connection any more.
  pub disconnect-IsWired :
      (s : Store V) (c q : ℕ)
      → IsWired s
      → (s.inputs q).connection ≡ some c
      → ((disconnect c s).0 ≡ ok tt) × IsWired (disconnect c s).1 × IsUnused c (disconnect c s).1
  unfolding cut t
  disconnect-IsWired s c q w set =
      let (cons, p, prod, listed) = w.input_wired q c set in
      let (rest, e, has, few) = erase_first_lem c (s.outputs p).connections listed (w.once p c) in
      rw (disconnect-eq-cut s c p q rest prod cons set e) (
        refl,
        cut-IsWired s c p q rest w prod cons set has few,
        cut-IsUnused s c p q rest w prod cons set has few,
      )

  -- What disconnect changes of the pins.
  pub disconnect-pins :
      (s : Store V) (c q : ℕ)
      → IsWired s
      → (s.inputs q).connection ≡ some c
      → ((i : ℕ)
          → ((disconnect c s).1.inputs i).connection
            ≡ (if q == i then none else (s.inputs i).connection))
        × ((o d : ℕ)
            → contains d ((disconnect c s).1.outputs o).connections
              ≡ (contains d (s.outputs o).connections && not (c == d)))
  unfolding t
  disconnect-pins s c q w set =
      let (cons, p, prod, listed) = w.input_wired q c set in
      let (rest, e, has, few) = erase_first_lem c (s.outputs p).connections listed (w.once p c) in
      rw (disconnect-eq-cut s c p q rest prod cons set e) (
        input_of s c p q rest w prod cons set has few,
        output_of s c p q rest w prod cons set has few,
      )
