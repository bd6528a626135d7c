-- ===== src/Loader/Ends.antt =====
-- The ends of connections in src/plvcore/PipelineLoader.cpp (parseConnections) when elements and
-- connections are added.
use parlevision.Base.{
  ℕ, ◌≡◌, refl, ap, ◌∙◌, Bool, true, false, not, ◌&&◌, List, [], ◌∷◌, Option, none, some, ◌==◌, ltb,
  all, contains, arith, Bool-cases, Option-cases, inl, inr,
}
use parlevision.Base.Table.{Table, keys, values}
use parlevision.Registry.Maps.{value, insert, value-insert, value-present}
use parlevision.Loader.{Element, Connection, Fits, has_same_sink, is_taken}

abbrev pub ends_go : Fits → Connection → Option Element → Option Element → Bool
ends_go fits c none sink = false
ends_go fits c (some s) none = false
ends_go fits c (some s) (some k) =
    s.is_producer
    && k.is_consumer
    && contains c.source_pin s.output_pins
    && contains c.sink_pin k.input_pins
    && not (c.source == c.sink)
    && fits s c.source_pin k c.sink_pin

-- Whether the ends of a connection are pins of elements of the pipeline that go together.
abbrev pub ends_fit : Fits → Table Element → Connection → Bool
ends_fit fits elements c = ends_go fits c (value c.source elements) (value c.sink elements)

-- No input pin has two connections.
abbrev pub sinks_apart : List Connection → Bool
sinks_apart [] = true
sinks_apart (c ∷ cs) = not (is_taken c cs) && sinks_apart cs

pub all-values-insert :
    (test : Connection → Bool) (k : ℕ) (c : Connection) (table : Table Connection)
    → test c ≡ true
    → all test (values table) ≡ true
    → all test (values (insert k c table)) ≡ true
unfolding insert
all-values-insert test k c [] h a = ground (arith, h)
all-values-insert test k c ((j, d) ∷ table) h a =
    ground (arith, h, a, all-values-insert test k c table h (ground (arith, a)))

pub same_sink-sym : (c d : Connection) → has_same_sink c d ≡ has_same_sink d c
same_sink-sym c d = ground arith

is_taken-insert :
    (d : Connection) (k : ℕ) (c : Connection) (table : Table Connection)
    → is_taken d (values table) ≡ false
    → has_same_sink d c ≡ false
    → is_taken d (values (insert k c table)) ≡ false
unfolding insert
is_taken-insert d k c [] h a = ground (arith, a)
is_taken-insert d k c ((j, e) ∷ table) h a =
    let rest = is_taken-insert d k c table (ground (arith, h)) a in ground (arith, h, a, rest)

pub sinks_apart-insert :
    (k : ℕ) (c : Connection) (table : Table Connection)
    → is_taken c (values table) ≡ false
    → sinks_apart (values table) ≡ true
    → sinks_apart (values (insert k c table)) ≡ true
unfolding insert
sinks_apart-insert k c [] h a = refl
sinks_apart-insert k c ((j, d) ∷ table) h a =
    let rest = sinks_apart-insert k c table (ground (arith, h)) (ground (arith, a)) in
    let clear : has_same_sink d c ≡ false = same_sink-sym d c ∙ ground (arith, h) in
    let others : is_taken d (values (insert k c table)) ≡ false =
      is_taken-insert d k c table (ground (arith, a)) clear in
    elim (Bool-cases (j == k)) [
      | inl e ↦ rw e (ground (arith, h, a))
      | inr e ↦ elim (Bool-cases (ltb k j)) [
        | inl f ↦ rw (e, f) (ground (arith, h, a))
        | inr f ↦ rw (e, f) (ground (arith, others, rest))
      ]
    ]

ends-same :
    (fits : Fits) (old new : Table Element) (c : Connection)
    → value c.source new ≡ value c.source old
    → value c.sink new ≡ value c.sink old
    → ends_fit fits old c ≡ true
    → ends_fit fits new c ≡ true
ends-same fits old new c q r h =
    ap (λ v. ends_go fits c v (value c.sink new)) q ∙ ap (ends_go fits c (value c.source old)) r ∙ h

value-kept :
    (id k : ℕ) (e held : Element) (elements : Table Element)
    → contains id (keys elements) ≡ false
    → value k elements ≡ some held
    → value k (insert id e elements) ≡ value k elements
value-kept id k e held elements free h = elim (Bool-cases (id == k)) [
  | inl same ↦
      let q : id ≡ k = ground (arith, same) in
      absurd (
        ground
          (arith, value-present k held elements h, ap (λ i. contains i (keys elements)) q, free))
  | inr apart ↦ value-insert id k e elements ∙ ground (arith, apart)
]

ends_fit-insert :
    (fits : Fits) (id : ℕ) (e : Element) (elements : Table Element) (c : Connection)
    → contains id (keys elements) ≡ false
    → ends_fit fits elements c ≡ true
    → ends_fit fits (insert id e elements) c ≡ true
ends_fit-insert fits id e elements c free h = elim (Option-cases (value c.source elements)) [
  | inl z ↦ absurd (ground (arith, h, z))
  | inr (s, y) ↦ elim (Option-cases (value c.sink elements)) [
    | inl z ↦ absurd (ground (arith, h, y, z))
    | inr (k, z) ↦
        ends-same fits elements (insert id e elements) c
          (value-kept id c.source e s elements free y) (value-kept id c.sink e k elements free z) h
  ]
]

pub all_ends-insert :
    (fits : Fits) (id : ℕ) (e : Element) (elements : Table Element) (cs : List Connection)
    → contains id (keys elements) ≡ false
    → all (ends_fit fits elements) cs ≡ true
    → all (ends_fit fits (insert id e elements)) cs ≡ true
all_ends-insert fits id e elements [] free h = refl
all_ends-insert fits id e elements (c ∷ cs) free h =
    let here = ends_fit-insert fits id e elements c free (ground (arith, h)) in
    let rest = all_ends-insert fits id e elements cs free (ground (arith, h)) in
    rw (here, rest) refl
