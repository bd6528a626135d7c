-- ===== src/Loader/Sound.antt =====
-- Whatever is in a file, src/plvcore/PipelineLoader.cpp (deserialize) leaves a sound pipeline.
use parlevision.Base.{
  ℕ, ◌≡◌, ap, ◌∙◌, true, false, List, [], ◌∷◌, Option, none, some, all, contains, arith, Bool-cases,
  Option-cases, inl, inr,
}
use parlevision.Base.Table.{Table, keys, values}
use parlevision.Registry.{new_id}
use parlevision.Registry.Maps.{Ascending, value, insert, insert-Ascending}
use parlevision.Registry.Fresh.{new_id-IsFirstFree}
use parlevision.Loader.{Qt, Element, Connection, Pipeline, Fits, is_taken, can_connect_pins}
use parlevision.Loader.Document.{
  Node, Nodes, Dom, id_attribute, name_attribute, properties_tag, element_tag, connection_tag,
  sink_tag, source_tag, pin_id_tag, processor_id_tag,
}
use parlevision.Loader.Adding.{
  Loaded, and_then, place_for, has_place, element_at, add_element, connect_pins, add_connection,
  has_pin, or_zero,
}
use parlevision.Loader.Reading.{
  read_element, read_elements, read_connection, read_connections, deserialize, read_properties,
  id_in,
}
use parlevision.Loader.Ends.{
  ends_go, ends_fit, sinks_apart, all-values-insert, sinks_apart-insert, all_ends-insert,
}

pub record IsSound (fits : Fits) (p : Pipeline) : Type 0 where
  pub elements_ascend : Ascending (keys p.elements)
  pub connections_ascend : Ascending (keys p.connections)
  pub ends : all (ends_fit fits p.elements) (values p.connections) ≡ true
  pub apart : sinks_apart (values p.connections) ≡ true

and_then-IsSound :
    (fits : Fits) (first : Loaded) (next : Pipeline → Loaded)
    → IsSound fits first.1
    → ((q : Pipeline) → IsSound fits q → IsSound fits (next q).1)
    → IsSound fits (and_then first next).1
and_then-IsSound fits (none, q) next sound keeps = keeps q sound
and_then-IsSound fits (some e, q) next sound keeps = sound

place-free :
    (id : Option ℕ) (elements : Table Element)
    → Ascending (keys elements)
    → has_place id elements ≡ true
    → contains (place_for id elements) (keys elements) ≡ false
place-free none elements a h = (new_id-IsFirstFree (keys elements) a).free
place-free (some id) elements a h = ground (arith, h)

add_element-IsSound :
    (fits : Fits) (id : Option ℕ) (e : Element) (p : Pipeline)
    → IsSound fits p
    → IsSound fits (add_element id e p).1
unfolding add_element
add_element-IsSound fits id e p sound = elim (Bool-cases (has_place id p.elements)) [
  | inr h ↦ rw h sound
  | inl h ↦
      let place = place_for id p.elements in
      let free = place-free id p.elements sound.elements_ascend h in
      rw h (record {
        elements_ascend = insert-Ascending place e p.elements sound.elements_ascend;
        connections_ascend = sound.connections_ascend;
        ends = all_ends-insert fits place e p.elements (values p.connections) free sound.ends;
        apart = sound.apart;
      })
]

connect-IsSound :
    (fits : Fits) (c : Connection) (p : Pipeline)
    → IsSound fits p
    → ends_fit fits p.elements c ≡ true
    → is_taken c (values p.connections) ≡ false
    → IsSound fits (record p { connections = insert (new_id (keys p.connections)) c p.connections })
connect-IsSound fits c p sound h free = record {
  elements_ascend = sound.elements_ascend;
  connections_ascend =
      insert-Ascending (new_id (keys p.connections)) c p.connections sound.connections_ascend;
  ends =
      all-values-insert (ends_fit fits p.elements) (new_id (keys p.connections)) c p.connections h
        sound.ends;
  apart = sinks_apart-insert (new_id (keys p.connections)) c p.connections free sound.apart;
}

has_pin-contains :
    (id : Option ℕ) (pins : List ℕ) → has_pin id pins ≡ true → contains (or_zero id) pins ≡ true
has_pin-contains none pins h = absurd (ground (arith, h))
has_pin-contains (some id) pins h = h

element_at-value :
    (id : Option ℕ) (elements : Table Element) (e : Element)
    → element_at id elements ≡ some e
    → value (or_zero id) elements ≡ some e
element_at-value none elements e h = absurd (ground (arith, h))
element_at-value (some id) elements e h = h

connect_pins-IsSound :
    (fits : Fits) (s k : Element) (source source_pin sink sink_pin : Option ℕ) (p : Pipeline)
    → element_at source p.elements ≡ some s
    → element_at sink p.elements ≡ some k
    → IsSound fits p
    → IsSound fits (connect_pins fits s k source source_pin sink sink_pin p).1
unfolding connect_pins can_connect_pins
connect_pins-IsSound fits s k source source_pin sink sink_pin p at_source at_sink sound =
    elim (Bool-cases s.is_producer) [
      | inr a ↦ rw a sound
      | inl a ↦ elim (Bool-cases k.is_consumer) [
        | inr b ↦ rw (a, b) sound
        | inl b ↦ elim (Bool-cases (has_pin source_pin s.output_pins)) [
          | inr c ↦ rw (a, b, c) sound
          | inl c ↦ elim (Bool-cases (has_pin sink_pin k.input_pins)) [
            | inr d ↦ rw (a, b, c, d) sound
            | inl d ↦ elim (Bool-cases (can_connect_pins fits s k joined (values p.connections))) [
              | inr e ↦ rw (e, d, c, b, a) sound
              | inl e ↦
                  rw (e, d, c, b, a)
                    (connect-IsSound fits joined p sound (go a b c d e) (ground (arith, e)))
            ]
          ]
        ]
      ]
    ]
  where
    joined : Connection
    joined = record {
      source = or_zero source;
      source_pin = or_zero source_pin;
      sink = or_zero sink;
      sink_pin = or_zero sink_pin;
    }

    go :
        s.is_producer ≡ true
        → k.is_consumer ≡ true
        → has_pin source_pin s.output_pins ≡ true
        → has_pin sink_pin k.input_pins ≡ true
        → can_connect_pins fits s k joined (values p.connections) ≡ true
        → ends_fit fits p.elements joined ≡ true
    go a b c d e =
        let source_there = element_at-value source p.elements s at_source in
        let sink_there = element_at-value sink p.elements k at_sink in
        let source_pin_there = has_pin-contains source_pin s.output_pins c in
        let sink_pin_there = has_pin-contains sink_pin k.input_pins d in
        ap (λ v. ends_go fits joined v (value (or_zero sink) p.elements)) source_there
        ∙ ap (ends_go fits joined (some s)) sink_there
        ∙ ground (arith, a, b, source_pin_there, sink_pin_there, e)

module _ (qt : Qt) (dom : Dom) (construct : ℕ → Option Element) (fits : Fits) where
  read_elements-IsSound :
      (ns : List Node) (p : Pipeline)
      → IsSound fits p
      → IsSound fits (read_elements qt dom construct ns p).1
  unfolding read_elements read_element
  read_elements-IsSound [] p sound = sound
  read_elements-IsSound (n ∷ ns) p sound =
      and_then-IsSound fits (read_element qt dom construct n p)
        (λ q. read_elements qt dom construct ns q)
        (elim (Option-cases (construct (dom.attribute name_attribute n))) [
          | inl h ↦ rw (h, read_element) sound
          | inr (e, h) ↦
              let id = qt.to_int (dom.attribute id_attribute n) in
              let nodes = dom.child_nodes (dom.first_child_element properties_tag (some n)) in
              rw (h, read_element)
                (add_element-IsSound fits id (read_properties qt dom nodes e) p sound)
        ])
        (read_elements-IsSound ns)

  add_connection-IsSound :
      (source source_pin sink sink_pin : Option ℕ) (p : Pipeline)
      → IsSound fits p
      → IsSound fits (add_connection fits source source_pin sink sink_pin p).1
  unfolding add_connection
  add_connection-IsSound source source_pin sink sink_pin p sound =
      elim (Option-cases (element_at source p.elements)) [
        | inl a ↦ rw (a, add_connection) sound
        | inr (s, a) ↦ elim (Option-cases (element_at sink p.elements)) [
          | inl b ↦ rw (a, b, add_connection) sound
          | inr (k, b) ↦
              rw (a, b, add_connection)
                (connect_pins-IsSound fits s k source source_pin sink sink_pin p a b sound)
        ]
      ]

  read_connections-IsSound :
      (ns : List Node) (p : Pipeline)
      → IsSound fits p
      → IsSound fits (read_connections qt dom fits ns p).1
  unfolding read_connections read_connection
  read_connections-IsSound [] p sound = sound
  read_connections-IsSound (n ∷ ns) p sound =
      let sink = dom.first_child_element sink_tag (some n) in
      let source = dom.first_child_element source_tag (some n) in
      and_then-IsSound fits (read_connection qt dom fits n p)
        (λ q. read_connections qt dom fits ns q)
        (add_connection-IsSound (id_in qt dom processor_id_tag source)
          (id_in qt dom pin_id_tag source) (id_in qt dom processor_id_tag sink)
          (id_in qt dom pin_id_tag sink) p sound)
        (read_connections-IsSound ns)

  -- Whatever is in the document, and whether or not deserialize ends with an exception, it leaves a
  -- sound pipeline if it gets one: ids ascend in the maps, each connection joins pins that are
  -- there, of two elements that are there, a producer and a consumer, and that fit, and no input
  -- pin has two connections.
  pub deserialize-IsSound :
      (document : Nodes) (p : Pipeline)
      → IsSound fits p
      → IsSound fits (deserialize qt dom construct fits document p).1
  unfolding deserialize
  deserialize-IsSound document p sound =
      and_then-IsSound fits
        (read_elements qt dom construct (dom.elements_by_tag_name element_tag document) p)
        (λ q. read_connections qt dom fits (dom.elements_by_tag_name connection_tag document) q)
        (read_elements-IsSound (dom.elements_by_tag_name element_tag document) p sound)
        (read_connections-IsSound (dom.elements_by_tag_name connection_tag document))
