-- ===== src/Hnsw/Wiring.antt =====
-- Wiring a new node into the layers keeps the graph linked and its degrees bounded.
use gtvdb.Base.{
  ℕ, zero, suc, ◌≤◌, ◌<◌, ◌≡◌, refl, sym, ap, ◌∙◌, Bool, true, false, not, none, List, [], ◌∷◌,
  length, take, length-map, length-take, All, ◌==◌, arith,
}
use gtvdb.Base.Filter.{filter, All-filter, All-filter_self}
use gtvdb.Base.Sort.{IsWeakOrder}
use gtvdb.Flat.{Floats, squared_l2}
use gtvdb.Knn.Nearest.{All-take}
use gtvdb.Hnsw.{returned, Node, HnswIndex}
use gtvdb.Hnsw.Search.{search_layer}
use gtvdb.Hnsw.Insert.{take_nearest, first_or, wire_layers}
use gtvdb.Hnsw.Layers.{height, links, link_ok, IsLinked}
use gtvdb.Hnsw.Descent.{distance}
use gtvdb.Hnsw.Beam.{IsHit}
use gtvdb.Hnsw.Explore.{IsAnswer}
use gtvdb.Hnsw.Loop.{search_layer_answers}
use gtvdb.Hnsw.Links.{SameNodes, SameNodes-refl, SameNodes-trans, All-map_nodes}
use gtvdb.Hnsw.Linking.{degree_of, IsBounded, link_all_lem, All-both}

module _ {F : Type 0} (floats : Floats F) (vector : List F) (new : ℕ) where
  -- The nearest candidates other than the new node itself may be linked with it.
  selected_ok :
      (nodes : List (Node F)) (l ef start n : ℕ) (found : List (F × ℕ))
      → IsAnswer floats nodes vector none l ef start found
      → All
          (λ nb. link_ok nodes new l nb ≡ true)
          (take_nearest (filter (λ s. not (s.1 == new)) found) n)
  unfolding take_nearest
  selected_ok nodes l ef start n found a =
      let other : F × ℕ → Bool = λ s. not (s.1 == new) in
      let ok : F × ℕ → Type 0 = λ s. link_ok nodes new l s.1 ≡ true in
      let hit = IsHit floats nodes vector none l in
      All-map_nodes (λ nb. link_ok nodes new l nb ≡ true) (take n (filter other found))
        (All-take (λ _ _. false) ok n (filter other found)
          (All-both hit (λ s. other s ≡ true) ok (λ s h k. ground arith) (filter other found)
            (All-filter hit other found a.hits) (All-filter_self other found)))

  length-take_nearest : (candidates : List (F × ℕ)) (n : ℕ) → length (take_nearest candidates n) ≤ n
  unfolding take_nearest
  length-take_nearest candidates n =
      omega (arith, length-map (λ (s : F × ℕ). s.1) (take n candidates), length-take n candidates)

  -- A place from which the layers below `l` can be searched.
  abbrev pub IsStart : List (Node F) → ℕ → F × ℕ → Type 0
  IsStart nodes l s = (s.0 ≡ distance floats nodes vector s.1) × (l ≤ height nodes s.1)

  IsStart-first_or :
      (nodes : List (Node F)) (l : ℕ) (best : F × ℕ) (candidates : List (F × ℕ))
      → IsStart nodes (suc l) best
      → All (IsHit floats nodes vector none l) candidates
      → IsStart nodes l (first_or floats best candidates)
  IsStart-first_or nodes l best [] s h = (s.0, omega arith)
  IsStart-first_or nodes l best (c ∷ candidates) s h = (h.0.0.1, omega (arith, h.0.0.0))

  IsStart-same :
      (nodes nodes' : List (Node F)) (l : ℕ) (s : F × ℕ)
      → SameNodes nodes nodes'
      → IsStart nodes l s
      → IsStart nodes' l s
  IsStart-same nodes nodes' l s same h =
      (h.0 ∙ ap (squared_l2 floats vector) (sym (same.contents s.1).1), rw (same.heights s.1) h.1)

  module _ (weak : IsWeakOrder floats.lt) (index : HnswIndex F)
      (some_ef : 1 ≤ index.ef_construction) where
    -- The nodes with new links.
    pub record IsWoven (nodes nodes' : List (Node F)) : Type 0 where
      pub same : SameNodes nodes nodes'
      pub linked : IsLinked nodes'
      pub bounded : IsBounded (degree_of index) nodes'

    pub wire_layers_lem :
        (rounds : ℕ) (best : F × ℕ) (nodes : List (Node F))
        → IsLinked nodes
        → IsBounded (degree_of index) nodes
        → rounds ≤ height nodes new
        → IsStart nodes rounds best
        → ((k : ℕ) → k < rounds → links nodes new k ≡ [])
        → (nodes' : List (Node F)) × (wire_layers floats index vector new rounds best nodes
            ≡ returned nodes')
          × IsWoven nodes nodes'
    unfolding wire_layers
    wire_layers_lem zero best nodes linked bounded h start bare =
        (nodes, refl, record { same = SameNodes-refl nodes; linked = linked; bounded = bounded })
    wire_layers_lem (suc l) best nodes linked bounded h start bare =
        let found =
          search_layer_answers floats nodes vector none l weak linked refl index.ef_construction
            best.1 some_ef (omega (arith, start.1)) in
        let from : best ≡ (distance floats nodes vector best.1, best.1) =
          ap (λ d. (d, best.1)) start.0 in
        let searched : search_layer floats nodes vector none (best ∷ []) index.ef_construction l
            ≡ returned found.0 =
          ap (λ s. search_layer floats nodes vector none (s ∷ []) index.ef_construction l) from
          ∙ found.1 in
        let candidates = filter (λ s. not (s.1 == new)) found.0 in
        let selected = take_nearest candidates (degree_of index l) in
        let w =
          link_all_lem (degree_of index) floats new l selected nodes linked bounded (omega arith)
            (selected_ok nodes l _ _ (degree_of index l) found.0 found.2)
            (rw (bare l (omega arith))
              (omega (arith, length-take_nearest candidates (degree_of index l)))) in
        let next = first_or floats best candidates in
        let ih =
          wire_layers_lem l next w.0 w.2.linked w.2.bounded
            (rw (w.2.same.heights new) (omega arith))
            (IsStart-same nodes w.0 l next w.2.same (
              IsStart-first_or nodes l best candidates start (
                All-filter (IsHit floats nodes vector none l) (λ s. not (s.1 == new)) found.0
                  found.2.hits)))
            (λ k lt. w.2.others new k (ground arith) ∙ bare k (omega arith)) in
        (
          ih.0,
          rw (searched, w.1) ih.1,
          record {
            same = SameNodes-trans nodes w.0 ih.0 w.2.same ih.2.same;
            linked = ih.2.linked;
            bounded = ih.2.bounded;
          },
        )
