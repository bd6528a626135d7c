-- ===== src/Delivery/Spread.antt =====
-- src/plvcore/IOutputPin.cpp: to which connections the loops of a pin put an item.
use parlevision.Base.{
  ℕ, ◌≡◌, ◌≤◌, refl, sym, ◌∙◌, ap, Bool, true, false, occurrences, absent_of_occurrences, ◌||◌,
  ◌&&◌, List, [], ◌∷◌, ◌++◌, Option, none, some, ◌==◌, if◌then◌else◌, arith, contains, Bool-cases,
  inl, inr,
}
use parlevision.Connection.{Data, null_data, push}
use parlevision.Store.{Store, InputPin, PinConnection}
use parlevision.Delivery.{put, put_null, is_synchronous}
use parlevision.Delivery.Frame.{put-Delivered}
use parlevision.Store.Monad.{M, Result, ok, for_each, when, split_ok}

head_or_tail :
    (chosen : ℕ → Bool) (c : ℕ) (cs : List ℕ) (x : ℕ)
    → ((c == x || contains x cs) && chosen x) ≡ (chosen c && c == x || contains x cs && chosen x)
head_or_tail chosen c cs x = elim (Bool-cases (c == x)) [
  | inl e ↦ let q : c ≡ x = ground arith in rw q (ground arith)
  | inr e ↦ ground arith
]

module _ {V : Type 0} where
  -- Whether the consumer of a connection is a synchronous pin.
  abbrev pub synchronous_of : Store V → ℕ → Bool
  synchronous_of s c = elim (s.connections c).consumer [
    | none ↦ false
    | some q ↦ (s.inputs q).synchronous
  ]

  abbrev pub appended : Data V → PinConnection V → PinConnection V
  appended d k = record k { queue = k.queue ++ d ∷ [] }

  -- The item went to the connections that are selected, and to no others.
  pub record Spread (selected : ℕ → Bool) (d : Data V) (s t : Store V) : Type 0 where
    pub inputs : t.inputs ≡ s.inputs
    pub outputs : t.outputs ≡ s.outputs
    pub connections :
        (x : ℕ)
        → t.connections x ≡ (if selected x then appended d (s.connections x) else s.connections x)
    pub serials : (e : ℕ) → (t.elements e).serial ≡ (s.elements e).serial

  pub put-Spread : (c : ℕ) (d : Data V) (s : Store V) → Spread (λ x. c == x) d s (put c d s).1
  unfolding push
  put-Spread c d s =
      let p = put-Delivered c d s in
      record {
        inputs = p.inputs;
        outputs = p.outputs;
        connections = λ x.
            ap (λ (f : ℕ → PinConnection V). f x) p.connections ∙ elim (Bool-cases (c == x)) [
              | inl e ↦ let q : c ≡ x = ground arith in rw (e, q)
              | inr e ↦ rw e
            ];
        serials = p.serials;
      }

  Spread-none : (d : Data V) (s : Store V) → Spread (λ x. false) d s s
  Spread-none d s = record {
    inputs = refl;
    outputs = refl;
    connections = λ x. refl;
    serials = λ e. refl;
  }

  pub put_null-Spread :
      (serial c : ℕ) (s : Store V)
      → (put_null serial c s).0 ≡ ok tt
      → Spread (λ x. synchronous_of s c && c == x) (null_data serial) s (put_null serial c s).1
  unfolding put_null
  put_null-Spread serial c s h = go (s.connections c).consumer refl
    where
      by_pin :
          (b : Bool)
          → Spread (λ x. b && c == x) (null_data serial) s (when b (put c (null_data serial)) s).1
      by_pin true = put-Spread c (null_data serial) s
      by_pin false = Spread-none (null_data serial) s

      go :
          (m : Option ℕ)
          → (s.connections c).consumer ≡ m
          → Spread (λ x. synchronous_of s c && c == x) (null_data serial) s (put_null serial c s).1
      go none e = absurd (ground arith)
      go (some q) e =
          rw (e, put_null, is_synchronous)
            (rw (e, synchronous_of) (by_pin (s.inputs q).synchronous))

  -- Two stores with the same pins and the same ends of connections.
  pub record SameEnds (s t : Store V) : Type 0 where
    pub inputs : t.inputs ≡ s.inputs
    pub consumers : (x : ℕ) → (t.connections x).consumer ≡ (s.connections x).consumer

  Spread-SameEnds : {f : ℕ → Bool} {d : Data V} {s t : Store V} → Spread f d s t → SameEnds s t
  Spread-SameEnds {f} {d} {s} {t} p = record {
    inputs = p.inputs;
    consumers = λ x. ground (arith, p.connections x);
  }

  SameEnds-trans : {s t u : Store V} → SameEnds s t → SameEnds t u → SameEnds s u
  SameEnds-trans p q = record {
    inputs = q.inputs ∙ p.inputs;
    consumers = λ x. q.consumers x ∙ p.consumers x;
  }

  pub synchronous_of-SameEnds :
      {s t : Store V} → SameEnds s t → (c : ℕ) → synchronous_of t c ≡ synchronous_of s c
  synchronous_of-SameEnds {s} {t} i c =
      rw (i.consumers c, synchronous_of) (flag (s.connections c).consumer)
    where
      flag :
          (m : Option ℕ)
          → ◌≡◌ {A = Bool}
              (elim m [ none ↦ false | some q ↦ (t.inputs q).synchronous ])
              (elim m [ none ↦ false | some q ↦ (s.inputs q).synchronous ])
      flag none = refl
      flag (some q) = ap (λ (f : ℕ → InputPin). (f q).synchronous) i.inputs

  Spread-after :
      {f g h : ℕ → Bool} {d : Data V} {s t u : Store V}
      → Spread f d s t
      → Spread g d t u
      → ((x : ℕ) → (f x && g x) ≡ false)
      → ((x : ℕ) → h x ≡ (f x || g x))
      → Spread h d s u
  Spread-after {f} {g} {h} {d} {s} {t} {u} p q apart both = record {
    inputs = q.inputs ∙ p.inputs;
    outputs = q.outputs ∙ p.outputs;
    connections = λ x. ground (arith, p.connections x, q.connections x, apart x, both x);
    serials = λ e. q.serials e ∙ p.serials e;
  }

  -- The loop over the connections of a pin, for a body that may skip some of them.
  pub for_each-Spread :
      (body : ℕ → M V (Unit {0})) (chosen : ℕ → Bool) (d : Data V) (start : Store V)
      → ((c : ℕ) (s : Store V)
          → SameEnds start s
          → (body c s).0 ≡ ok tt
          → Spread (λ x. chosen c && c == x) d s (body c s).1)
      → (cs : List ℕ) (s : Store V) → SameEnds start s
      → ((x : ℕ) → occurrences x cs ≤ 1)
      → (for_each cs body s).0 ≡ ok tt
      → Spread (λ x. contains x cs && chosen x) d s (for_each cs body s).1
  for_each-Spread body chosen d start step [] s same once h = Spread-none d s
  for_each-Spread body chosen d start step (c ∷ cs) s same once h =
      let (first, rest) = split_ok (body c) (for_each cs body) s h in
      let here = step c s same first in
      let there =
        for_each-Spread body chosen d start step cs (body c s).1
          (SameEnds-trans same (Spread-SameEnds here)) (λ x. ground (arith, once x))
          (ap (λ (r : Result (Unit {0}) × Store V). r.0) (sym rest) ∙ h) in
      rw rest (
        Spread-after here there (λ x. ground (arith, once x, absent_of_occurrences x cs))
          (head_or_tail chosen c cs))
