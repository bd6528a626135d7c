-- ===== src/Loader/Rejoin.antt =====
-- The connections in a file and back: src/plvcore/PipelineLoader.cpp (serialize, parseConnections).
use parlevision.Base.{
  ℕ, suc, ◌+◌, ◌≡◌, refl, sym, ap, ◌∙◌, false, true, List, [], ◌∷◌, ◌++◌, some, none, contains,
  arith, all, length, append_assoc, append-nil, subst, ltb, ◌==◌, Option-cases, inl, inr,
}
use parlevision.Base.Table.{Table, keys, values}
use parlevision.Registry.{new_id, new_id_from}
use parlevision.Registry.Maps.{value, insert}
use parlevision.Loader.{
  Qt, Element, Connection, Pipeline, Fits, has_same_sink, is_taken, can_connect_pins,
}
use parlevision.Loader.Document.{
  Nodes, end, node, Dom, IsDom, list_of, element_tag, connection_tag, sink_tag, source_tag,
  pin_id_tag, processor_id_tag,
}
use parlevision.Loader.Writing.{text_element, end_node, connection_node, connection_nodes}
use parlevision.Loader.Adding.{add_connection, connect_pins, and_then}
use parlevision.Loader.Reading.{id_in, read_connection, read_connections}
use parlevision.Loader.Ends.{ends_fit, ends_go, sinks_apart}
use parlevision.Loader.Properties.{IsQt, text_element-unfound, text-text_element}

module _ (qt : Qt) (dom : Dom) (q : IsQt qt) (d : IsDom dom) where
  end_children : (pin owner : ℕ) → Nodes
  end_children pin owner =
      node (text_element pin_id_tag (qt.number pin))
        (node (text_element processor_id_tag (qt.number owner)) end)

  end_node-unfound :
      (x tag pin owner : ℕ) (ns : Nodes)
      → (tag == x) ≡ false
      → (x == pin_id_tag) ≡ false
      → (x == processor_id_tag) ≡ false
      → dom.elements_by_tag_name x (node (end_node qt tag pin owner) ns)
        ≡ dom.elements_by_tag_name x ns
  unfolding end_children
  end_node-unfound x tag pin owner ns h i j =
      let last = node (text_element processor_id_tag (qt.number owner)) end in
      let inner : dom.elements_by_tag_name x (end_children pin owner) ≡ [] =
        text_element-unfound qt dom q d x pin_id_tag (qt.number pin) last i
        ∙ text_element-unfound qt dom q d x processor_id_tag (qt.number owner) end j
        ∙ d.elements-end x in
      d.elements-element x tag [] (end_children pin owner) ns ∙ rw (h, inner) refl

  id_in-owner :
      (tag pin owner : ℕ)
      → id_in qt dom processor_id_tag (some (end_node qt tag pin owner)) ≡ some owner
  unfolding end_children
  id_in-owner tag pin owner =
      ap (λ n. qt.to_int (dom.text n))
        (d.first_child processor_id_tag tag [] (end_children pin owner))
      ∙ ap qt.to_int (text-text_element qt dom q d processor_id_tag (qt.number owner))
      ∙ q.number_read owner

  id_in-pin :
      (tag pin owner : ℕ) → id_in qt dom pin_id_tag (some (end_node qt tag pin owner)) ≡ some pin
  unfolding end_children
  id_in-pin tag pin owner =
      ap (λ n. qt.to_int (dom.text n)) (d.first_child pin_id_tag tag [] (end_children pin owner))
      ∙ ap qt.to_int (text-text_element qt dom q d pin_id_tag (qt.number pin))
      ∙ q.number_read pin

  ends_of : Connection → Nodes
  ends_of c =
      node (end_node qt sink_tag c.sink_pin c.sink)
        (node (end_node qt source_tag c.source_pin c.source) end)

  connection_node-found :
      (c : Connection) (ns : Nodes)
      → dom.elements_by_tag_name connection_tag (node (connection_node qt c) ns)
        ≡ connection_node qt c ∷ dom.elements_by_tag_name connection_tag ns
  unfolding connection_node ends_of
  connection_node-found c ns =
      let inner : dom.elements_by_tag_name connection_tag (ends_of c) ≡ [] =
        end_node-unfound connection_tag sink_tag c.sink_pin c.sink
          (node (end_node qt source_tag c.source_pin c.source) end) refl refl refl
        ∙ end_node-unfound connection_tag source_tag c.source_pin c.source end refl refl refl
        ∙ d.elements-end connection_tag in
      d.elements-element connection_tag connection_tag [] (ends_of c) ns ∙ rw inner refl

  connection_node-unfound :
      (c : Connection) (ns : Nodes)
      → dom.elements_by_tag_name element_tag (node (connection_node qt c) ns)
        ≡ dom.elements_by_tag_name element_tag ns
  unfolding connection_node ends_of
  connection_node-unfound c ns =
      let inner : dom.elements_by_tag_name element_tag (ends_of c) ≡ [] =
        end_node-unfound element_tag sink_tag c.sink_pin c.sink
          (node (end_node qt source_tag c.source_pin c.source) end) refl refl refl
        ∙ end_node-unfound element_tag source_tag c.source_pin c.source end refl refl refl
        ∙ d.elements-end element_tag in
      d.elements-element element_tag connection_tag [] (ends_of c) ns ∙ rw inner refl

  pub connection_nodes-found :
      (cs : List Connection)
      → dom.elements_by_tag_name connection_tag (connection_nodes qt cs)
        ≡ list_of (connection_nodes qt cs)
  unfolding connection_nodes
  connection_nodes-found [] = d.elements-end connection_tag
  connection_nodes-found (c ∷ cs) =
      connection_node-found c (connection_nodes qt cs)
      ∙ ap (λ l. connection_node qt c ∷ l) (connection_nodes-found cs)

  pub connection_nodes-unfound :
      (cs : List Connection) → dom.elements_by_tag_name element_tag (connection_nodes qt cs) ≡ []
  unfolding connection_nodes
  connection_nodes-unfound [] = d.elements-end element_tag
  connection_nodes-unfound (c ∷ cs) =
      connection_node-unfound c (connection_nodes qt cs) ∙ connection_nodes-unfound cs

  module _ (fits : Fits) where
    read_connection-connection_node :
        (c : Connection) (p : Pipeline)
        → read_connection qt dom fits (connection_node qt c) p
          ≡ add_connection fits
              (some c.source)
              (some c.source_pin)
              (some c.sink)
              (some c.sink_pin)
              p
    unfolding connection_node read_connection ends_of
    read_connection-connection_node c p =
        let sink_there : dom.first_child_element sink_tag (some (connection_node qt c))
            ≡ some (end_node qt sink_tag c.sink_pin c.sink) =
          d.first_child sink_tag connection_tag [] (ends_of c) in
        let source_there : dom.first_child_element source_tag (some (connection_node qt c))
            ≡ some (end_node qt source_tag c.source_pin c.source) =
          d.first_child source_tag connection_tag [] (ends_of c) in
        rw
          (
            read_connection,
            sink_there,
            source_there,
            id_in-owner sink_tag c.sink_pin c.sink,
            id_in-owner source_tag c.source_pin c.source,
            id_in-pin sink_tag c.sink_pin c.sink,
            id_in-pin source_tag c.source_pin c.source,
          )
          refl

-- Connections under the numbers from a first one on.
abbrev pub numbered : ℕ → List Connection → Table Connection
numbered i [] = []
numbered i (c ∷ cs) = (i, c) ∷ numbered (suc i) cs

values-numbered : (i : ℕ) (cs : List Connection) → values (numbered i cs) ≡ cs
values-numbered i [] = refl
values-numbered i (c ∷ cs) = ap (λ l. c ∷ l) (values-numbered (suc i) cs)

new_id-numbered :
    (i : ℕ) (cs : List Connection) → new_id_from i (keys (numbered i cs)) ≡ i + length cs
unfolding new_id_from
new_id-numbered i [] = omega arith
new_id-numbered i (c ∷ cs) =
    let here : ltb i i ≡ false = ground arith in
    let step : i + 1 ≡ suc i = omega arith in
    rw here (
      ap (λ n. new_id_from n (keys (numbered (suc i) cs))) step
      ∙ new_id-numbered (suc i) cs
      ∙ omega arith)

insert-numbered :
    (i : ℕ) (cs : List Connection) (c : Connection)
    → insert (i + length cs) c (numbered i cs) ≡ numbered i (cs ++ c ∷ [])
unfolding insert
insert-numbered i [] c = ap (λ (n : ℕ). (n, c) ∷ []) (omega arith)
insert-numbered i (e ∷ cs) c =
    let same : i + suc (length cs) ≡ suc i + length cs = omega arith in
    let other : (i == i + suc (length cs)) ≡ false = ground arith in
    let later : ltb (i + suc (length cs)) i ≡ false = ground arith in
    rw (other, later)
      (ap (λ n. (i, e) ∷ insert n c (numbered (suc i) cs)) same
        ∙ ap (λ l. (i, e) ∷ l) (insert-numbered (suc i) cs c))

ends_go-connect_pins :
    (fits : Fits) (c : Connection) (s k : Element) (p : Pipeline)
    → ends_go fits c (some s) (some k) ≡ true
    → is_taken c (values p.connections) ≡ false
    → connect_pins fits s k (some c.source) (some c.source_pin) (some c.sink) (some c.sink_pin) p
      ≡ (none, record p { connections = insert (new_id (keys p.connections)) c p.connections })
unfolding connect_pins can_connect_pins
ends_go-connect_pins fits c s k p h free =
    let producing : s.is_producer ≡ true = ground (arith, h) in
    let consuming : k.is_consumer ≡ true = ground (arith, h) in
    let source_pin_there : contains c.source_pin s.output_pins ≡ true = ground (arith, h) in
    let sink_pin_there : contains c.sink_pin k.input_pins ≡ true = ground (arith, h) in
    let can : can_connect_pins fits s k c (values p.connections) ≡ true = ground (arith, h, free) in
    rw (can, sink_pin_there, source_pin_there, consuming, producing) refl

add_connection-joins :
    (fits : Fits) (c : Connection) (p : Pipeline)
    → ends_fit fits p.elements c ≡ true
    → is_taken c (values p.connections) ≡ false
    → add_connection fits (some c.source) (some c.source_pin) (some c.sink) (some c.sink_pin) p
      ≡ (none, record p { connections = insert (new_id (keys p.connections)) c p.connections })
unfolding add_connection
add_connection-joins fits c p h free = elim (Option-cases (value c.source p.elements)) [
  | inl a ↦ absurd (ground (arith, h, a))
  | inr (s, a) ↦ elim (Option-cases (value c.sink p.elements)) [
    | inl b ↦ absurd (ground (arith, h, a, b))
    | inr (k, b) ↦
        let both : ends_go fits c (some s) (some k) ≡ true =
          sym (
            ap (λ v. ends_go fits c v (value c.sink p.elements)) a ∙ ap (ends_go fits c (some s)) b)
          ∙ h in
        rw (add_connection, a, b) (ends_go-connect_pins fits c s k p both free)
  ]
]

is_taken-before :
    (c : Connection) (done rest : List Connection)
    → sinks_apart (done ++ c ∷ rest) ≡ true
    → is_taken c done ≡ false
is_taken-before c [] rest h = refl
is_taken-before c (e ∷ done) rest h =
    let later = is_taken-before c done rest (ground (arith, h)) in
    let apart = not_taken e done (ground (arith, h)) in ground (arith, later, apart)
  where
    not_taken :
        (e : Connection) (done : List Connection)
        → is_taken e (done ++ c ∷ rest) ≡ false
        → has_same_sink e c ≡ false
    not_taken e [] h = ground (arith, h)
    not_taken e (f ∷ done) h = not_taken e done (ground (arith, h))

module _ (qt : Qt) (dom : Dom) (q : IsQt qt) (d : IsDom dom) (fits : Fits) where
  -- Reading the connections adds them behind those that are there, under the next numbers.
  pub read_connections-connection_nodes :
      (elements : Table Element) (done cs : List Connection)
      → all (ends_fit fits elements) cs ≡ true
      → sinks_apart (done ++ cs) ≡ true
      → read_connections qt dom fits
          (list_of (connection_nodes qt cs))
          (record { elements = elements; connections = numbered 0 done })
        ≡ (none, record { elements = elements; connections = numbered 0 (done ++ cs) })
  unfolding read_connections connection_nodes new_id
  read_connections-connection_nodes elements done [] h a =
      ap (λ l. (none, record { elements = elements; connections = numbered 0 l }))
        (sym (append-nil done))
  read_connections-connection_nodes elements done (c ∷ cs) h a =
      let p : Pipeline = record { elements = elements; connections = numbered 0 done } in
      let free : is_taken c (values p.connections) ≡ false =
        ap (is_taken c) (values-numbered 0 done) ∙ is_taken-before c done cs a in
      let placed : insert (new_id (keys p.connections)) c p.connections
          ≡ numbered 0 (done ++ c ∷ []) =
        ap (λ n. insert n c (numbered 0 done)) (new_id-numbered 0 done)
        ∙ insert-numbered 0 done c in
      let joined =
        read_connection-connection_node qt dom q d fits c p
        ∙ add_connection-joins fits c p (ground (arith, h)) free
        ∙ ap (λ l. (none, record { elements = elements; connections = l })) placed in
      let more =
        read_connections-connection_nodes elements (done ++ c ∷ []) cs (ground (arith, h))
          (subst (λ l. sinks_apart l ≡ true) (sym (append_assoc done (c ∷ []) cs)) a) in
      ap (λ r. and_then r (λ q. read_connections qt dom fits (list_of (connection_nodes qt cs)) q))
        joined
      ∙ more
      ∙ ap (λ l. (none, record { elements = elements; connections = numbered 0 l }))
          (append_assoc done (c ∷ []) cs)
