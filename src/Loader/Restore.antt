-- ===== src/Loader/Restore.antt =====
-- The elements in a file and back: src/plvcore/PipelineLoader.cpp (serialize, parseElements).
use parlevision.Base.{
  ℕ, ◌≡◌, refl, sym, ap, ◌∙◌, false, true, [], ◌∷◌, ◌++◌, Option, some, none, contains, arith, All,
  append_assoc, append-nil, subst, ltb, ◌==◌,
}
use parlevision.Base.Table.{Table, keys, lookup}
use parlevision.Registry.Maps.{Above, Ascending, Above-Ascending, insert}
use parlevision.Loader.{Value, Qt, Element, Connection, Pipeline}
use parlevision.Loader.Document.{
  Node, element, Nodes, end, node, Dom, IsDom, list_of, element_tag, connection_tag, properties_tag,
  id_attribute, name_attribute,
}
use parlevision.Loader.Writing.{attributes_of, element_node, element_nodes}
use parlevision.Loader.Adding.{add_element}
use parlevision.Loader.Reading.{read_element, read_elements}
use parlevision.Loader.Properties.{
  IsQt, Restored, IsScene, properties-IsWritten, Restored-found_tags,
}

-- What makes an element come back from a file: the factory makes it anew, but for the values of its
-- properties, which survive.
pub record IsRestorable (qt : Qt) (construct : ℕ → Option Element) (e : Element) : Type 0 where
  pub old : Table Value
  pub made : construct e.class_name ≡ some (record e { properties = old; dynamic = [] })
  pub properties_restored : Restored qt old e.properties
  pub scene : IsScene e.dynamic

module _ {V : Type 0} where
  last-Above :
      (j k : ℕ) (v : V) (done rest : Table V)
      → Above j (keys (done ++ (k, v) ∷ rest))
      → ltb j k ≡ true
  last-Above j k v [] rest a = a.0
  last-Above j k v ((i, w) ∷ done) rest a =
      let below = last-Above i k v done rest a.1 in ground (arith, a.0, below)

  -- An entry of a map goes to the end if it comes after all others.
  pub insert-last :
      (k : ℕ) (v : V) (done rest : Table V)
      → Ascending (keys (done ++ (k, v) ∷ rest))
      → (insert k v done ≡ done ++ (k, v) ∷ []) × (contains k (keys done) ≡ false)
  unfolding insert
  insert-last k v [] rest a = (refl, refl)
  insert-last k v ((i, w) ∷ done) rest a =
      let below = last-Above i k v done rest a in
      let (there, absent) =
        insert-last k v done rest (Above-Ascending i (keys (done ++ (k, v) ∷ rest)) a) in
      let other : (i == k) ≡ false = ground (arith, below) in
      let later : ltb k i ≡ false = ground (arith, below) in
      (rw (other, later) (ap (λ l. (i, w) ∷ l) there), ground (arith, other, absent))

module _ (qt : Qt) (dom : Dom) (construct : ℕ → Option Element) where
  record IsReadable (id : ℕ) (e : Element) (n : Node) : Type 0 where
    is_written : element_node qt id e ≡ some n
    is_read : (p : Pipeline) → read_element qt dom construct n p ≡ add_element (some id) e p
    is_element :
        (ns : Nodes)
        → dom.elements_by_tag_name element_tag (node n ns)
          ≡ n ∷ dom.elements_by_tag_name element_tag ns
    is_no_connection :
        (ns : Nodes)
        → dom.elements_by_tag_name connection_tag (node n ns)
          ≡ dom.elements_by_tag_name connection_tag ns

  module _ (q : IsQt qt) (d : IsDom dom) where
    element_node-IsReadable :
        (id : ℕ) (e : Element) → IsRestorable qt construct e → (n : Node) × IsReadable id e n
    unfolding element_node read_element lookup
    element_node-IsReadable id e r =
        let (ns, w) =
          properties-IsWritten qt dom q d e r.old e.properties e.dynamic r.properties_restored
            r.scene in
        let inner = node (element properties_tag [] ns) end in
        let n = element element_tag (attributes_of qt id e) inner in
        let name_there : dom.attribute name_attribute n ≡ e.class_name =
          d.attribute_found name_attribute element_tag (attributes_of qt id e) inner in
        let id_there : dom.attribute id_attribute n ≡ qt.number id =
          d.attribute_found id_attribute element_tag (attributes_of qt id e) inner in
        let first_there : dom.first_child_element properties_tag (some n)
            ≡ some (element properties_tag [] ns) =
          d.first_child properties_tag element_tag (attributes_of qt id e) inner in
        let inner_plain = λ (t : ℕ). d.elements-element t properties_tag [] ns end in
        let no_element =
          w.unfound element_tag
            (Restored-found_tags qt r.old e.properties r.properties_restored element_tag refl)
            refl in
        let no_connection =
          w.unfound connection_tag
            (Restored-found_tags qt r.old e.properties r.properties_restored connection_tag refl)
            refl in
        (
          n,
          record {
            is_written = rw (element_node, w.nodes_are) refl;
            is_read = λ p.
                rw
                  (
                    read_element,
                    name_there,
                    r.made,
                    id_there,
                    q.number_read id,
                    first_there,
                    d.children_listed properties_tag [] ns,
                    w.restored,
                  )
                  refl;
            is_element = λ rest.
                d.elements-element element_tag element_tag (attributes_of qt id e) inner rest
                ∙ rw (inner_plain element_tag, no_element, d.elements-end element_tag) refl;
            is_no_connection = λ rest.
                d.elements-element connection_tag element_tag (attributes_of qt id e) inner rest
                ∙ rw (inner_plain connection_tag, no_connection, d.elements-end connection_tag)
                    refl;
          },
        )

    pub record AreReadable (es : Table Element) (ns : Nodes) : Type 0 where
      pub are_written : element_nodes qt es ≡ some ns
      pub are_read :
          (done : Table Element) (connections : Table Connection)
          → Ascending (keys (done ++ es))
          → read_elements qt dom construct
              (list_of ns)
              (record { elements = done; connections = connections })
            ≡ (none, record { elements = done ++ es; connections = connections })
      pub are_found : dom.elements_by_tag_name element_tag ns ≡ list_of ns
      pub are_no_connections : dom.elements_by_tag_name connection_tag ns ≡ []

    pub element_nodes-AreReadable :
        (es : Table Element)
        → All (λ entry. IsRestorable qt construct entry.1) es
        → (ns : Nodes) × AreReadable es ns
    unfolding element_nodes read_elements add_element
    element_nodes-AreReadable [] r = (
      end,
      record {
        are_written = refl;
        are_read = λ done cs a.
            ap (λ l. (none, record { elements = l; connections = cs })) (sym (append-nil done));
        are_found = d.elements-end element_tag;
        are_no_connections = d.elements-end connection_tag;
      },
    )
    element_nodes-AreReadable ((id, e) ∷ es) r =
        let (n, here) = element_node-IsReadable id e r.0 in
        let (ns, rest) = element_nodes-AreReadable es r.1 in
        (
          node n ns,
          record {
            are_written = rw (element_nodes, here.is_written, rest.are_written) refl;
            are_read = λ done cs a.
                let (put, free) = insert-last id e done es a in
                let more =
                  rest.are_read (done ++ (id, e) ∷ []) cs (
                    subst (λ l. Ascending (keys l)) (sym (append_assoc done ((id, e) ∷ []) es))
                      a) in
                rw
                  (
                    here.is_read (record { elements = done; connections = cs }),
                    add_element,
                    free,
                    put,
                  )
                  (more
                    ∙ ap (λ l. (none, record { elements = l; connections = cs }))
                        (append_assoc done ((id, e) ∷ []) es));
            are_found = here.is_element ns ∙ ap (λ l. n ∷ l) rest.are_found;
            are_no_connections = here.is_no_connection ns ∙ rest.are_no_connections;
          },
        )
