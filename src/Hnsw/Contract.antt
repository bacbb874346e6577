-- ===== src/Hnsw/Contract.antt =====
-- What the operations of the index promise: an insertion, a build, and a search of a valid index.
use Prim.Native.Nat.{max}
use gtvdb.Base.{
  ℕ, suc, ◌^◌, ◌<◌, ◌≡◌, refl, sym, ap, ◌∙◌, ◌⊎◌, inl, inr, Bool, true, false, Option, List, [],
  ◌∷◌, ◌++◌, map, length, take, All, All-imp, ◌==◌, ==_iff, arith, Bool-cases,
}
use gtvdb.Base.Sort.{IsWeakOrder, sort_by-sorted}
use gtvdb.Error.{invalid_argument}
use gtvdb.Flat.{Floats, score_lt, mask_fits}
use gtvdb.Knn.Nearest.{score-IsWeakOrder, All-take}
use gtvdb.Hnsw.{returned, failed, Node, HnswIndex, LevelFloats, random_level}
use gtvdb.Hnsw.Search.{descend_layers, search_layer, external, search, search_knn}
use gtvdb.Hnsw.Insert.{insert_node, insert}
use gtvdb.Hnsw.Layers.{node_at, height, height_pos, read-node}
use gtvdb.Hnsw.Descent.{distance, descend_layers_lem}
use gtvdb.Hnsw.Beam.{IsHit}
use gtvdb.Hnsw.Explore.{IsAnswer}
use gtvdb.Hnsw.Loop.{search_layer_answers}
use gtvdb.Hnsw.Shape.{IsWellFormed, contents}
use gtvdb.Hnsw.Growth.{insert_at_grows}

module _ {F : Type 0} (floats : Floats F) (nodes : List (Node F)) where
  abbrev pub id_of : F × ℕ → ℕ
  id_of s = (node_at nodes s.1).id

  external_lem :
      (scores : List (F × ℕ))
      → All (λ s. 0 < height nodes s.1) scores
      → external floats nodes scores ≡ returned (map (λ s. (s.0, id_of s)) scores)
  unfolding external
  external_lem [] h = refl
  external_lem (s ∷ scores) h =
      rw (read-node nodes s.1 (height_pos nodes s.1 0 h.0), external_lem scores h.1) refl

-- The node at which the greedy descent from the entry point through the upper layers ends.
abbrev pub IsStart : {F : Type 0} → Floats F → HnswIndex F → List F → ℕ → Type 0
IsStart floats index query start =
    (start < length index.nodes)
    × (descend_layers floats index.nodes query index.max_level 1
          (distance floats index.nodes query index.entry, index.entry)
        ≡ returned (distance floats index.nodes query start, start))

module _ {F : Type 0} (floats : Floats F) (weak : IsWeakOrder floats.lt) (index : HnswIndex F)
    (valid : IsWellFormed index) where
  abbrev nodes : List (Node F)
  nodes = index.nodes

  -- A search of a valid index that is not empty, with weakly ordered numbers and a mask of the number of
  -- its nodes or none, never panics and ends. It returns the first `k` results of a search of the bottom
  -- layer for the larger of `ef_search` and `k`, with their distances and ids. That search starts where
  -- the descent ends.
  pub search_answers :
      (query : List F) (k : ℕ) (mask : Option (List Bool))
      → 0 < length index.nodes
      → 0 < k
      → mask_fits mask (length index.nodes) ≡ true
      → (start : ℕ) × (results : List (F × ℕ)) × (search floats index query k mask
          ≡ returned (map (λ s. (s.0, id_of floats index.nodes s)) (take k results)))
        × IsAnswer floats index.nodes query mask 0 (max index.ef_search k) start results
        × IsStart floats index query start
  unfolding search
  search_answers query k mask some_node some_k fits =
      let ef : ℕ = max index.ef_search k in
      let top = valid.entered some_node in
      let inside = height_pos nodes index.entry index.max_level top in
      let d =
        descend_layers_lem floats nodes query weak valid.linked index.max_level 1
          (distance floats nodes query index.entry, index.entry) refl (omega (arith, top)) in
      let from : d.0 ≡ (distance floats nodes query d.0.1, d.0.1) = ap (λ x. (x, d.0.1)) d.2 in
      let found =
        search_layer_answers floats nodes query mask 0 weak valid.linked fits ef d.0.1
          (omega (arith, some_k)) d.3 in
      let full : (length nodes == 0) ≡ false = ground arith in
      let searched : search_layer floats nodes query mask (d.0 ∷ []) ef 0 ≡ returned found.0 =
        ap (λ s. search_layer floats nodes query mask (s ∷ []) ef 0) from ∙ found.1 in
      let sorted =
        sort_by-sorted (score_lt floats) (score-IsWeakOrder floats weak) found.0
          found.2.nearest.ascend in
      let bottom =
        All-imp {Q = λ s. 0 < height nodes s.1} (λ s (h : IsHit floats nodes query mask 0 s). h.0.0)
          found.0 found.2.hits in
      (
        d.0.1,
        found.0,
        rw (full, read-node nodes index.entry inside, d.1, searched, sorted)
            (external_lem floats nodes (take k found.0)
              (All-take (λ _ _. false) _ k found.0 bottom)),
        found.2,
        (height_pos nodes d.0.1 0 d.3, d.1 ∙ ap returned from),
      )

  map_ids :
      (scores : List (F × ℕ))
      → map (λ (s : F × ℕ). s.1) (map (λ s. (s.0, id_of floats nodes s)) scores)
        ≡ map (id_of floats nodes) scores
  map_ids [] = refl
  map_ids (s ∷ scores) = ap (◌∷◌ (id_of floats nodes s)) (map_ids scores)

  -- What `search_knn` returns, and from where it searched the bottom layer.
  pub search_knn_from :
      (query : List F) (k : ℕ) (mask : Option (List Bool))
      → 0 < length index.nodes
      → 0 < k
      → length query ≡ index.dim
      → mask_fits mask (length index.nodes) ≡ true
      → (start : ℕ) × (results : List (F × ℕ)) × (search_knn floats index query k mask
          ≡ returned (map (id_of floats index.nodes) (take k results)))
        × IsAnswer floats index.nodes query mask 0 (max index.ef_search k) start results
        × IsStart floats index query start
  unfolding search_knn
  search_knn_from query k mask some_node some_k dim fits =
      let found = search_answers query k mask some_node some_k fits in
      let same : (length query == index.dim) ≡ true = (==_iff (length query) index.dim).1 dim in
      let positive : (k == 0) ≡ false = ground arith in
      (
        found.0,
        found.1,
        rw (same, fits, positive, found.2) (ap returned (map_ids (take k found.1))),
        found.3,
        found.4,
      )

  -- `search_knn` on a valid index that is not empty, with weakly ordered numbers, a query of its dimension
  -- and a mask of the number of its nodes or none, never panics and ends. It returns the ids of the first
  -- `k` results of a search of the bottom layer for the larger of `ef_search` and `k`: the nearest of the
  -- nodes that the search saw and that the mask lets through, ascending, where it saw the neighbours of
  -- each node that it saw, save of nodes farther than each of that many results.
  pub search_knn_answers :
      (query : List F) (k : ℕ) (mask : Option (List Bool))
      → 0 < length index.nodes
      → 0 < k
      → length query ≡ index.dim
      → mask_fits mask (length index.nodes) ≡ true
      → (start : ℕ) × (results : List (F × ℕ)) × (search_knn floats index query k mask
          ≡ returned (map (id_of floats index.nodes) (take k results)))
        × IsAnswer floats index.nodes query mask 0 (max index.ef_search k) start results
  search_knn_answers query k mask some_node some_k dim fits =
      let found = search_knn_from query k mask some_node some_k dim fits in
      (found.0, found.1, found.2, found.3)

module _ {F : Type 0} (floats : Floats F) (level_floats : LevelFloats F) where
  -- The level that the next insertion draws, which is below the largest `usize`.
  abbrev pub IsShallow : HnswIndex F → Type 0
  IsShallow index = suc (random_level floats level_floats index.m index.rng).0 < 2 ^ 64

  pub insert_refuses :
      (index : HnswIndex F) (id : ℕ) (vector : List F)
      → (index.dim == 0) ≡ false
      → (length vector == index.dim) ≡ false
      → insert floats level_floats index id vector
        ≡ failed (invalid_argument "vector dim != index dim")
  unfolding insert
  insert_refuses index id vector h k = rw (h, k) refl

  -- `insert_node` into the index with a new dimension.
  insert_node_grows :
      IsWeakOrder floats.lt
      → (index : HnswIndex F) (d id : ℕ) (vector : List F) → IsWellFormed index
      → IsShallow index
      → (index' : HnswIndex F) × (insert_node floats level_floats
            (record index { dim = d })
            id
            vector
          ≡ returned index')
        × IsWellFormed index'
        × (contents index'.nodes ≡ contents index.nodes ++ (id, vector) ∷ [])
        × (index'.dim ≡ d)
        × (index'.m ≡ index.m)
  unfolding insert_node
  insert_node_grows weak index d id vector valid shallow =
      let drawn = random_level floats level_floats index.m index.rng in
      let valid' : IsWellFormed (record index { dim = d; rng = drawn.1 }) = record {
        linked = valid.linked;
        bounded = valid.bounded;
        entered = valid.entered;
        some_ef = valid.some_ef;
      } in
      let grown = insert_at_grows floats weak _ valid' id vector drawn.0 shallow in
      (grown.0, grown.1, grown.2, grown.3.holds, grown.3.dim, grown.3.degrees.0)

  -- An insertion of a vector of the index's dimension, or of any into an index without one, keeps a
  -- valid index valid, when numbers are weakly ordered and the level drawn is below the largest `usize`.
  -- It never panics, and the index then holds the new vector behind the old ones and has its dimension.
  pub insert-IsWellFormed :
      IsWeakOrder floats.lt
      → (index : HnswIndex F) (id : ℕ) (vector : List F) → IsWellFormed index
      → IsShallow index
      → (index.dim ≡ 0) ⊎ (length vector ≡ index.dim)
      → (index' : HnswIndex F) × (insert floats level_floats index id vector ≡ returned index')
        × IsWellFormed index'
        × (contents index'.nodes ≡ contents index.nodes ++ (id, vector) ∷ [])
        × (index'.dim ≡ length vector)
        × (index'.m ≡ index.m)
  unfolding insert
  insert-IsWellFormed weak index id vector valid shallow dim = elim (Bool-cases (index.dim == 0)) [
    | inl e ↦
        let grown = insert_node_grows weak index (length vector) id vector valid shallow in
        (grown.0, rw e grown.1, grown.2, grown.3, grown.4, grown.5)
    | inr e ↦
        let same : length vector ≡ index.dim = ground (arith, dim) in
        let grown = insert_node_grows weak index index.dim id vector valid shallow in
        let fits : (length vector == index.dim) ≡ true = (==_iff _ _).1 same in
        (grown.0, rw (e, fits) grown.1, grown.2, grown.3, grown.4 ∙ sym same, grown.5)
  ]
