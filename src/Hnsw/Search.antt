-- ===== src/Hnsw/Search.antt =====
-- gtv-index/src/hnsw.rs: greedy_descend, search_layer, search and search_knn. The two loops that are
-- `while` loops take fuel. A hash set is a list, as only membership is asked.
use Prim.Native.Nat.{max}
use gtvdb.Base.{
  ℕ, zero, suc, ◌+◌, Bool, true, false, not, ◌&&◌, Option, none, some, List, [], ◌∷◌, ◌++◌, map,
  length, take, ltb, leb, ◌==◌, if◌then◌else◌,
}
use gtvdb.Base.Filter.{contains}
use gtvdb.Base.Sort.{sort_by}
use gtvdb.Error.{invalid_argument}
use gtvdb.Flat.{Floats, squared_l2, score_lt, mask_fits}
use gtvdb.Hnsw.{Outcome, returned, failed, stuck, ◌>>=◌, read, Node, HnswIndex}

-- `mask.map_or(true, |m| m.value(i))`
abbrev pub passes : Option (List Bool) → ℕ → Outcome Bool
passes none i = returned true
passes (some mask) i = read mask i

-- `results.last()`
abbrev pub last_distance : {F : Type 0} → List (F × ℕ) → Option F
last_distance [] = none
last_distance (s ∷ []) = some s.0
last_distance (s ∷ t ∷ scores) = last_distance (t ∷ scores)

-- The locals of `search_layer`.
pub record Beam (F : Type 0) : Type 0 where
  pub visited : List ℕ
  pub candidates : List (F × ℕ)
  pub results : List (F × ℕ)

module _ {F : Type 0} (floats : Floats F) where
  module _ (nodes : List (Node F)) (query : List F) where
    -- The `for` of `greedy_descend`.
    unfoldable pub closer : List ℕ → F × ℕ → Outcome (F × ℕ)
    closer [] best = returned best
    closer (nb ∷ nbs) best = read nodes nb >>= λ node.
        let d = squared_l2 floats query node.vector in
        closer nbs (if floats.lt d best.0 then (d, nb) else best)

    unfoldable pub descend_loop : ℕ → ℕ → F → ℕ → Outcome (F × ℕ)
    unfolding closer
    descend_loop zero layer cur_d cur = stuck
    descend_loop (suc fuel) layer cur_d cur = read nodes cur >>= λ node.
        read node.layers layer >>= λ nbs. closer nbs (cur_d, cur) >>= λ best.
        let further = descend_loop fuel layer best.0 best.1 in
        if best.1 == cur then returned best else further

    -- Each round but the last gets closer to the query.
    unfoldable pub greedy_descend : ℕ → ℕ → Outcome (F × ℕ)
    unfolding descend_loop
    greedy_descend cur layer = read nodes cur >>= λ node.
        descend_loop (length nodes) layer (squared_l2 floats query node.vector) cur

    -- `for l in (low..low + rounds).rev()`
    unfoldable pub descend_layers : ℕ → ℕ → F × ℕ → Outcome (F × ℕ)
    unfolding greedy_descend
    descend_layers zero low best = returned best
    descend_layers (suc rounds) low best =
        greedy_descend best.1 (low + rounds) >>= descend_layers rounds low

    module _ (mask : Option (List Bool)) where
      abbrev pub push_if : Bool → F × ℕ → List (F × ℕ) → List (F × ℕ)
      push_if keep s scores = if keep then scores ++ s ∷ [] else scores

      -- The first `for` of `search_layer`.
      unfoldable pub enter_points : List (F × ℕ) → Beam F → Outcome (Beam F)
      enter_points [] b = returned b
      enter_points (s ∷ eps) b = passes mask s.1 >>= λ keep. enter_points eps (record {
        visited = s.1 ∷ b.visited;
        candidates = b.candidates ++ s ∷ [];
        results = push_if keep s b.results;
      })

      -- The `for` over the neighbours of a candidate.
      unfoldable pub visit : List ℕ → Beam F → Outcome (Beam F)
      visit [] b = returned b
      visit (nb ∷ nbs) b =
          let fresh = read nodes nb >>= λ node. passes mask nb >>= λ keep.
          let s : F × ℕ = (squared_l2 floats query node.vector, nb) in
          visit nbs (record {
            visited = nb ∷ b.visited;
            candidates = b.candidates ++ s ∷ [];
            results = push_if keep s b.results;
          }) in
          let seen = visit nbs b in if contains nb b.visited then seen else fresh

      abbrev pub sort_beam : Beam F → Beam F
      sort_beam b = record b {
        candidates = sort_by (score_lt floats) b.candidates;
        results = sort_by (score_lt floats) b.results;
      }

      -- `results.len() >= ef && cd > farthest`, where no result is infinitely far.
      abbrev pub is_beyond : Option F → F → Bool
      is_beyond none cd = false
      is_beyond (some farthest) cd = floats.lt farthest cd

      abbrev pub is_done : ℕ → F → List (F × ℕ) → Bool
      is_done ef cd results = leb ef (length results) && is_beyond (last_distance results) cd

      abbrev pub truncate : ℕ → List (F × ℕ) → List (F × ℕ)
      truncate ef results = if ltb ef (length results) then take ef results else results

      -- The `while` of `search_layer`.
      unfoldable pub beam_loop :
          ℕ → ℕ → ℕ → List ℕ → List (F × ℕ) → List (F × ℕ) → Outcome (List (F × ℕ))
      unfolding visit
      beam_loop fuel ef layer visited [] results = returned results
      beam_loop zero ef layer visited (c ∷ candidates) results = stuck
      beam_loop (suc fuel) ef layer visited (c ∷ candidates) results =
          let round = read nodes c.1 >>= λ node. read node.layers layer >>= λ nbs.
          visit nbs (record { visited = visited; candidates = candidates; results = results })
          >>= λ b.
              let b' = sort_beam b in
              beam_loop fuel ef layer b'.visited b'.candidates (truncate ef b'.results) in
          if is_done ef c.0 results then returned results else round

      -- A round takes a candidate, and a node is a candidate once behind the entry points.
      unfoldable pub search_layer : List (F × ℕ) → ℕ → ℕ → Outcome (List (F × ℕ))
      unfolding enter_points beam_loop
      search_layer eps ef layer =
          enter_points eps (record { visited = []; candidates = []; results = [] }) >>= λ b.
          let b' = sort_beam b in
          beam_loop (length eps + length nodes) ef layer b'.visited b'.candidates b'.results

  -- `(d, self.nodes[i].id)`
  unfoldable pub external : List (Node F) → List (F × ℕ) → Outcome (List (F × ℕ))
  external nodes [] = returned []
  external nodes (s ∷ scores) =
      read nodes s.1 >>= λ node. external nodes scores >>= λ rest. returned ((s.0, node.id) ∷ rest)

  unfoldable pub search : HnswIndex F → List F → ℕ → Option (List Bool) → Outcome (List (F × ℕ))
  unfolding descend_layers search_layer external
  search index query k mask =
      let nodes = index.nodes in
      let ef : ℕ = max index.ef_search k in
      let found = read nodes index.entry >>= λ node.
      descend_layers nodes query index.max_level 1
        (squared_l2 floats query node.vector, index.entry)
      >>= λ best. search_layer nodes query mask (best ∷ []) ef 0 >>= λ results.
          external nodes (take k (sort_by (score_lt floats) results)) in
      if length nodes == 0 then returned [] else found

  -- The message of a wrong dimension leaves out the two numbers.
  unfoldable pub search_knn : HnswIndex F → List F → ℕ → Option (List Bool) → Outcome (List ℕ)
  unfolding search
  search_knn index query k filter_mask =
      if not (length query == index.dim)
      then failed (invalid_argument "query dim != index dim")
      else (if not (mask_fits filter_mask (length index.nodes))
          then failed (invalid_argument "filter mask length mismatch")
          else (if k == 0
              then returned []
              else search index query k filter_mask >>= λ scores. returned (map (λ s. s.1) scores)))
