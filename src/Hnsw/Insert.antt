-- ===== src/Hnsw/Insert.antt =====
-- gtv-index/src/hnsw.rs: prune, insert and build.
use gtvdb.Base.{
  ℕ, zero, suc, ◌+◌, ◌-◌, ◌%◌, ◌^◌, min, not, none, List, [], ◌∷◌, ◌++◌, map, length, take, set,
  replicate, ltb, leb, ◌==◌, if◌then◌else◌,
}
use gtvdb.Base.Filter.{filter}
use gtvdb.Base.Sort.{sort_by}
use gtvdb.Error.{invalid_argument}
use gtvdb.Flat.{Floats, squared_l2, score_lt}
use gtvdb.Hnsw.{
  Outcome, returned, failed, ◌>>=◌, read, Node, HnswIndex, LevelFloats, random_level, new,
}
use gtvdb.Hnsw.Search.{descend_layers, search_layer}

module _ {F : Type 0} where
  -- `self.nodes[i].layers[l].push(nb)`
  unfoldable pub push_link : List (Node F) → ℕ → ℕ → ℕ → Outcome (List (Node F))
  push_link nodes i l nb = read nodes i >>= λ node. read node.layers l >>= λ nbs.
      returned (set nodes i (record node { layers = set node.layers l (nbs ++ nb ∷ []) }))

  -- `take_nearest`
  unfoldable pub take_nearest : List (F × ℕ) → ℕ → List ℕ
  take_nearest candidates n = map (λ s. s.1) (take n candidates)

module _ {F : Type 0} (floats : Floats F) where
  -- The neighbours with their distances from the target.
  unfoldable pub score_links : List (Node F) → List F → List ℕ → Outcome (List (F × ℕ))
  score_links nodes target [] = returned []
  score_links nodes target (nb ∷ nbs) = read nodes nb >>= λ node.
      score_links nodes target nbs >>= λ rest.
      returned ((squared_l2 floats target node.vector, nb) ∷ rest)

  unfoldable pub prune : List (Node F) → ℕ → ℕ → ℕ → Outcome (List (Node F))
  unfolding score_links
  prune nodes i l max_deg = read nodes i >>= λ node. read node.layers l >>= λ nbs.
      let pruned = score_links nodes node.vector nbs >>= λ scored.
      let nearest = map (λ s. s.1) (take max_deg (sort_by (score_lt floats) scored)) in
      returned (set nodes i (record node { layers = set node.layers l nearest })) in
      if leb (length nbs) max_deg then returned nodes else pruned

  -- `for &nb in &selected`
  unfoldable pub link_all : ℕ → ℕ → ℕ → List ℕ → List (Node F) → Outcome (List (Node F))
  unfolding push_link prune
  link_all new_idx l max_deg [] nodes = returned nodes
  link_all new_idx l max_deg (nb ∷ selected) nodes = push_link nodes new_idx l nb >>= λ linked.
      push_link linked nb l new_idx >>= λ both.
      prune both nb l max_deg >>= link_all new_idx l max_deg selected

  -- The head of the list, if any.
  abbrev pub first_or : F × ℕ → List (F × ℕ) → F × ℕ
  first_or best [] = best
  first_or best (s ∷ _) = s

  -- `for l in (0..rounds).rev()`
  unfoldable pub wire_layers :
      HnswIndex F → List F → ℕ → ℕ → F × ℕ → List (Node F) → Outcome (List (Node F))
  unfolding link_all take_nearest search_layer
  wire_layers index vector new_idx zero best nodes = returned nodes
  wire_layers index vector new_idx (suc l) best nodes =
      search_layer floats nodes vector none (best ∷ []) index.ef_construction l >>= λ found.
      let candidates = filter (λ s. not (s.1 == new_idx)) found in
      let max_deg : ℕ = if l == 0 then index.m0 else index.m in
      link_all new_idx l max_deg (take_nearest candidates max_deg) nodes
      >>= wire_layers index vector new_idx l (first_or best candidates)

  -- `level + 1`
  abbrev pub above : ℕ → ℕ
  above level = (level + 1) % 2 ^ 64

  -- `insert` behind the sampling of the level, with the generator's new state in the index.
  unfoldable pub insert_at : HnswIndex F → ℕ → List F → ℕ → Outcome (HnswIndex F)
  unfolding wire_layers descend_layers
  insert_at index id vector level =
      let new_idx : ℕ = length index.nodes in
      let node : Node F = record {
        id = id;
        vector = vector;
        layers = replicate (above level) [];
      } in
      let nodes : List (Node F) = index.nodes ++ node ∷ [] in
      let first : HnswIndex F = record index { nodes = nodes; entry = 0; max_level = level } in
      let wired = read nodes index.entry >>= λ entry.
      descend_layers floats nodes vector (index.max_level + 1 - above level) (above level)
        (squared_l2 floats vector entry.vector, index.entry)
      >>= λ best.
          wire_layers index vector new_idx (min level index.max_level + 1) best nodes >>= λ nodes'.
          let same : HnswIndex F = record index { nodes = nodes' } in
          let higher : HnswIndex F = record index {
            nodes = nodes';
            max_level = level;
            entry = new_idx;
          } in
          returned (if ltb index.max_level level then higher else same) in
      if new_idx == 0 then returned first else wired

  module _ (level_floats : LevelFloats F) where
    unfoldable pub insert_node : HnswIndex F → ℕ → List F → Outcome (HnswIndex F)
    unfolding insert_at
    insert_node index id vector =
        let (level, rng) = random_level floats level_floats index.m index.rng in
        insert_at (record index { rng = rng }) id vector level

    -- The message leaves out the two numbers.
    unfoldable pub insert : HnswIndex F → ℕ → List F → Outcome (HnswIndex F)
    unfolding insert_node
    insert index id vector =
        if index.dim == 0
        then insert_node (record index { dim = length vector }) id vector
        else (if not (length vector == index.dim)
            then failed (invalid_argument "vector dim != index dim")
            else insert_node index id vector)

    unfoldable pub insert_all : List ℕ → List (List F) → HnswIndex F → Outcome (HnswIndex F)
    unfolding insert
    insert_all (id ∷ ids) (v ∷ vectors) index = insert index id v >>= insert_all ids vectors
    insert_all _ _ index = returned index

    unfoldable pub build : List ℕ → List (List F) → ℕ → ℕ → ℕ → Outcome (HnswIndex F)
    unfolding insert_all new
    build ids vectors m ef_construction ef_search =
        if not (length ids == length vectors)
        then failed (invalid_argument "ids and vectors length mismatch")
        else insert_all ids vectors (new m ef_construction ef_search)
