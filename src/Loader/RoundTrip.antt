-- ===== src/Loader/RoundTrip.antt =====
-- A pipeline in a file and back: src/plvcore/PipelineLoader.cpp (serialize, deserialize).
use parlevision.Base.{ℕ, ◌≡◌, refl, ◌∙◌, [], Option, some, none, All, append-nil, ◌++◌, ◌==◌, false}
use parlevision.Base.Table.{values}
use parlevision.Loader.{Qt, Element, Pipeline, Fits, new_pipeline}
use parlevision.Loader.Document.{
  Nodes, node, element, end, Dom, IsDom, pipeline_tag, elements_tag, connections_tag, element_tag,
  connection_tag, list_of,
}
use parlevision.Loader.Writing.{serialize, connection_nodes}
use parlevision.Loader.Reading.{deserialize}
use parlevision.Loader.Sound.{IsSound}
use parlevision.Loader.Properties.{IsQt}
use parlevision.Loader.Restore.{IsRestorable, element_nodes-AreReadable}
use parlevision.Loader.Rejoin.{
  numbered, connection_nodes-found, connection_nodes-unfound, read_connections-connection_nodes,
}

module _ (qt : Qt) (dom : Dom) (q : IsQt qt) (d : IsDom dom) where
  document : (ns cs : Nodes) → Nodes
  document ns cs =
      node
        (element pipeline_tag []
          (node (element elements_tag [] ns) (node (element connections_tag [] cs) end)))
        end

  -- The tags around the elements and the connections are not those of either.
  document-found :
      (t : ℕ) (ns cs : Nodes)
      → ((pipeline_tag == t) ≡ false)
      → ((elements_tag == t) ≡ false)
      → ((connections_tag == t) ≡ false)
      → dom.elements_by_tag_name t (document ns cs)
        ≡ dom.elements_by_tag_name t ns ++ dom.elements_by_tag_name t cs
  unfolding document
  document-found t ns cs h i j =
      let last = node (element connections_tag [] cs) end in
      let inner = node (element elements_tag [] ns) last in
      rw
        (
          d.elements-element t pipeline_tag [] inner end,
          h,
          d.elements-element t elements_tag [] ns last,
          i,
          d.elements-element t connections_tag [] cs end,
          j,
          d.elements-end t,
          append-nil (dom.elements_by_tag_name t cs),
          append-nil (dom.elements_by_tag_name t ns ++ dom.elements_by_tag_name t cs),
        )
        refl

  -- A sound pipeline all of whose elements are restorable is written without an exception, and
  -- what is written is read into a new pipeline without one: the pipeline that comes back has the
  -- same elements under the same ids, with the same properties, and the same connections in the
  -- same order, under new ids from 0 on. Qt is as documented.
  pub serialize-deserialize :
      (construct : ℕ → Option Element) (fits : Fits) (p : Pipeline)
      → IsSound fits p
      → All (λ entry. IsRestorable qt construct entry.1) p.elements
      → (document : Nodes) × (serialize qt p ≡ some document)
        × (deserialize qt dom construct fits document new_pipeline ≡ (
          none,
          record { elements = p.elements; connections = numbered 0 (values p.connections) },
        ))
  unfolding serialize deserialize document
  serialize-deserialize construct fits p sound restorable =
      let (ns, w) = element_nodes-AreReadable qt dom construct q d p.elements restorable in
      let cs = connection_nodes qt (values p.connections) in
      let found : dom.elements_by_tag_name element_tag (document ns cs) ≡ list_of ns =
        document-found element_tag ns cs refl refl refl
        ∙ rw (w.are_found, connection_nodes-unfound qt dom q d (values p.connections))
            (append-nil (list_of ns)) in
      let joined : dom.elements_by_tag_name connection_tag (document ns cs) ≡ list_of cs =
        document-found connection_tag ns cs refl refl refl
        ∙ rw (w.are_no_connections, connection_nodes-found qt dom q d (values p.connections))
            refl in
      (
        document ns cs,
        rw (serialize, w.are_written) refl,
        rw
            (
              found,
              joined,
              w.are_read [] [] sound.elements_ascend,
              read_connections-connection_nodes qt dom q d fits p.elements [] (values p.connections)
                  sound.ends sound.apart,
            )
            refl,
      )
