-- ===== src/Hnsw/Growth.antt =====
-- An insertion keeps an index well formed and adds its vector.
use gtvdb.Base.{
  ℕ, suc, ◌+◌, ◌-◌, ◌^◌, ◌<◌, ◌≡◌, refl, ap, ◌∙◌, inl, inr, false, List, [], ◌∷◌, ◌++◌, length, min,
  leb, ltb, ◌==◌, if◌then◌else◌, arith, Bool-cases, if_true, if_false, subst,
}
use gtvdb.Base.Sort.{IsWeakOrder}
use gtvdb.Flat.{Floats}
use gtvdb.Hnsw.{Outcome, returned, Node, HnswIndex}
use gtvdb.Hnsw.Search.{descend_layers}
use gtvdb.Hnsw.Insert.{above, insert_at, wire_layers}
use gtvdb.Hnsw.Layers.{height, height_pos, read-node}
use gtvdb.Hnsw.Descent.{distance, descend_layers_lem}
use gtvdb.Hnsw.Linking.{degree_of}
use gtvdb.Hnsw.Wiring.{IsStart, IsWoven, wire_layers_lem}
use gtvdb.Hnsw.Shape.{
  contents, SameNodes-contents, IsWellFormed, grown, height-grown_new, links-grown_new,
  height-grown_old, grown-IsLinked, grown-IsBounded, contents-grown,
}

-- The index has the vector, behind all others, and its parameters are those that it had.
pub record IsGrown {F : Type 0} (index index' : HnswIndex F) (id : ℕ) (vector : List F)
    : Type 0 where
  pub holds : contents index'.nodes ≡ contents index.nodes ++ (id, vector) ∷ []
  pub dim : index'.dim ≡ index.dim
  pub degrees : (index'.m ≡ index.m) × (index'.m0 ≡ index.m0)
  pub beams :
      (index'.ef_construction ≡ index.ef_construction) × (index'.ef_search ≡ index.ef_search)

module _ {F : Type 0} (floats : Floats F) (weak : IsWeakOrder floats.lt) (index : HnswIndex F)
    (valid : IsWellFormed index) (id : ℕ) (vector : List F) (level : ℕ)
    (shallow : suc level < 2 ^ 64) where
  above_lem : above floats level ≡ suc level
  above_lem = omega arith

  abbrev nodes : List (Node F)
  nodes = grown index.nodes id vector (suc level)

  entry_top : 0 < length index.nodes → index.max_level < height nodes index.entry
  entry_top some_node =
      let top = valid.entered some_node in
      rw (height-grown_old index.nodes id vector (suc level) index.entry index.max_level top) top

  -- The descent to the top layer that the new node and the index share.
  start_found :
      0 < length index.nodes
      → (best : F × ℕ) × (descend_layers floats nodes vector
            (index.max_level + 1 - suc level)
            (suc level)
            (distance floats nodes vector index.entry, index.entry)
          ≡ returned best)
        × IsStart floats vector (length index.nodes) nodes (min level index.max_level + 1) best
  unfolding descend_layers
  start_found some_node =
      let entry = index.entry in
      let start : F × ℕ = (distance floats nodes vector entry, entry) in
      let top = entry_top some_node in
      elim (Bool-cases (leb (suc level) (index.max_level + 1))) [
        | inl e ↦
            let found =
              descend_layers_lem floats nodes vector weak
                (grown-IsLinked index.nodes id vector (suc level) valid.linked)
                (index.max_level + 1 - suc level) (suc level) start refl (ground (arith, top)) in
            (found.0, found.1, (found.2, omega (arith, found.3)))
        | inr e ↦
            let none_left : index.max_level + 1 - suc level ≡ 0 = ground arith in
            (start, rw none_left refl, (refl, omega (arith, top)))
      ]

  woven :
      0 < length index.nodes
      → (best : F × ℕ)
      → IsStart floats vector (length index.nodes) nodes (min level index.max_level + 1) best
      → (nodes' : List (Node F)) × (wire_layers floats index vector
            (length index.nodes)
            (min level index.max_level + 1)
            best
            nodes
          ≡ returned nodes')
        × IsWoven floats vector (length index.nodes) weak index valid.some_ef nodes nodes'
  woven some_node best start =
      wire_layers_lem floats vector (length index.nodes) weak index valid.some_ef
        (min level index.max_level + 1) best nodes
        (grown-IsLinked index.nodes id vector (suc level) valid.linked)
        (grown-IsBounded index.nodes id vector (suc level) (degree_of index) valid.bounded)
        (omega (arith, height-grown_new index.nodes id vector (suc level))) start
        (λ k lt. links-grown_new index.nodes id vector (suc level) k)

  -- The index with the new node as it stands before and after the wiring.
  insert_at_first :
      length index.nodes ≡ 0
      → insert_at floats index id vector level
        ≡ returned (record index { nodes = nodes; entry = 0; max_level = level })
  unfolding insert_at
  insert_at_first empty = rw (above_lem, empty) refl

  insert_at_wired :
      (some_node : 0 < length index.nodes)
      → (let w = woven some_node (start_found some_node).0 (start_found some_node).2 in
          insert_at floats index id vector level
          ≡ returned (
              if ltb index.max_level level
              then record index { nodes = w.0; max_level = level; entry = length index.nodes }
              else record index { nodes = w.0 }))
  unfolding insert_at
  insert_at_wired some_node =
      let start = start_found some_node in
      let w = woven some_node start.0 start.2 in
      let inside = height_pos nodes index.entry index.max_level (entry_top some_node) in
      let full : (length index.nodes == 0) ≡ false = ground arith in
      rw (full, above_lem, read-node nodes index.entry inside, start.1, w.1) refl

  grown_at_first : length index.nodes ≡ 0 → level < height nodes 0
  grown_at_first empty =
      let h = height-grown_new index.nodes id vector (suc level) in
      let top : height nodes 0 ≡ suc level = subst (λ i. height nodes i ≡ suc level) empty h in
      omega (arith, top)

  -- The result of an insertion.
  abbrev Grows : Outcome (HnswIndex F) → Type 0
  Grows r =
      (index' : HnswIndex F) × (r ≡ returned index')
      × IsWellFormed index'
      × IsGrown index index' id vector

  Grows-first : length index.nodes ≡ 0 → Grows (insert_at floats index id vector level)
  Grows-first empty = (
    record index { nodes = nodes; entry = 0; max_level = level },
    insert_at_first empty,
    record {
      linked = grown-IsLinked index.nodes id vector (suc level) valid.linked;
      bounded = grown-IsBounded index.nodes id vector (suc level) (degree_of index) valid.bounded;
      entered = λ h. grown_at_first empty;
      some_ef = valid.some_ef;
    },
    record {
      holds = contents-grown index.nodes id vector (suc level);
      dim = refl;
      degrees = (refl, refl);
      beams = (refl, refl);
    },
  )

  Grows-wired : 0 < length index.nodes → Grows (insert_at floats index id vector level)
  Grows-wired some_node =
      let start = start_found some_node in
      let w = woven some_node start.0 start.2 in
      let same = w.2.same in
      let holds =
        SameNodes-contents nodes w.0 same ∙ contents-grown index.nodes id vector (suc level) in
      let higher : HnswIndex F = record index {
        nodes = w.0;
        max_level = level;
        entry = length index.nodes;
      } in
      let level_same : HnswIndex F = record index { nodes = w.0 } in
      let new_top = height-grown_new index.nodes id vector (suc level) in
      elim (Bool-cases (ltb index.max_level level)) [
        | inl up ↦ (
          higher,
          insert_at_wired some_node ∙ ap returned (if_true higher level_same up),
          record {
            linked = w.2.linked;
            bounded = w.2.bounded;
            entered = λ h. omega (arith, same.heights (length index.nodes), new_top);
            some_ef = valid.some_ef;
          },
          record { holds = holds; dim = refl; degrees = (refl, refl); beams = (refl, refl) },
        )
        | inr down ↦ (
          level_same,
          insert_at_wired some_node ∙ ap returned (if_false higher level_same down),
          record {
            linked = w.2.linked;
            bounded = w.2.bounded;
            entered = λ h. omega (arith, same.heights index.entry, entry_top some_node);
            some_ef = valid.some_ef;
          },
          record { holds = holds; dim = refl; degrees = (refl, refl); beams = (refl, refl) },
        )
      ]

  pub insert_at_grows :
      (index' : HnswIndex F) × (insert_at floats index id vector level ≡ returned index')
      × IsWellFormed index'
      × IsGrown index index' id vector
  insert_at_grows = elim (Bool-cases (ltb 0 (length index.nodes))) [
    | inl e ↦ Grows-wired (ground arith)
    | inr e ↦ Grows-first (ground arith)
  ]
