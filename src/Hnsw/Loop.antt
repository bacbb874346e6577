-- ===== src/Hnsw/Loop.antt =====
-- The loop of the beam search: its rounds, and that the fuel lasts.
use gtvdb.Base.{
  ℕ, zero, suc, ◌+◌, ◌≤◌, ◌<◌, ◌≡◌, refl, ap, ◌∙◌, subst, inl, inr, Bool, true, false, not, Option,
  List, [], ◌∷◌, length, ◌==◌, ==_iff, arith, Bool-cases, if_true, if_false, Perm,
}
use gtvdb.Base.Filter.{contains, any-perm, length-perm}
use gtvdb.Base.Sort.{IsWeakOrder, sort_by, sort_by-perm, sort_by-IsSorted}
use gtvdb.Flat.{Floats, score_lt, masked, mask_fits}
use gtvdb.Knn.Nearest.{IsNearest, score-IsWeakOrder}
use gtvdb.Hnsw.{returned, Node}
use gtvdb.Hnsw.Search.{Beam, sort_beam, is_done, push_if, beam_loop, search_layer, enter_points}
use gtvdb.Hnsw.Layers.{
  count_below-le, height, links, IsLinked, height_pos, read-node, read-links, links_inside,
}
use gtvdb.Hnsw.Descent.{distance}
use gtvdb.Hnsw.Nearest.{IsNearest-append, IsNearest-nil}
use gtvdb.Hnsw.Beam.{
  passes_lem, IsSound, push, visited, visit_lem, push-IsSound, unvisited, scores, results-push,
  visited-IsVisit,
}
use gtvdb.Hnsw.Explore.{
  take-all, IsAnswer, IsSearch, done-explored, settle, sort_beam-IsSound, settle-IsSearch,
}

module _ {F : Type 0} (floats : Floats F) (nodes : List (Node F)) (query : List F)
    (mask : Option (List Bool)) (layer : ℕ) (weak : IsWeakOrder floats.lt) (linked : IsLinked nodes)
    (fits : mask_fits mask (length nodes) ≡ true) where
  round :
      (fuel ef : ℕ) (c : F × ℕ) (b : Beam F)
      → layer < height nodes c.1
      → is_done floats nodes query mask ef c.0 b.results ≡ false
      → beam_loop floats nodes query mask (suc fuel) ef layer b.visited (c ∷ b.candidates) b.results
        ≡ (let b' =
              settle floats nodes query mask layer weak ef
                (visited floats nodes query mask layer (links nodes c.1 layer) b) in
            beam_loop floats nodes query mask fuel ef layer b'.visited b'.candidates b'.results)
  unfolding beam_loop
  round fuel ef c b h e =
      if_false _ _ e
      ∙ rw
          (
            read-node nodes c.1 (height_pos nodes c.1 layer h),
            read-links nodes c.1 layer h,
            visit_lem floats nodes query mask layer (links nodes c.1 layer) b fits
                (links_inside nodes linked c.1 layer),
          )
          refl

  IsAnswer-at_end :
      (ef start : ℕ) (seen : List ℕ) (results : List (F × ℕ))
      → IsSearch floats nodes query mask layer ef start
          (record { visited = seen; candidates = []; results = results })
      → IsAnswer floats nodes query mask layer ef start results
  IsAnswer-at_end ef start seen results s = record {
    hits = s.sound.hits;
    seen = seen;
    begun = s.begun;
    inside = s.inside;
    nearest = s.nearest;
    explored = λ i m. elim (s.frontier i m) [ inl waits ↦ cc waits | inr all ↦ inl all ];
  }

  IsAnswer-when_done :
      (ef start : ℕ) (c : F × ℕ) (b : Beam F)
      → IsSearch floats nodes query mask layer ef start (record b { candidates = c ∷ b.candidates })
      → is_done floats nodes query mask ef c.0 b.results ≡ true
      → IsAnswer floats nodes query mask layer ef start b.results
  IsAnswer-when_done ef start c b s done = record {
    hits = s.sound.hits;
    seen = b.visited;
    begun = s.begun;
    inside = s.inside;
    nearest = s.nearest;
    explored = λ i m. elim (s.frontier i m) [
      | inr all ↦ inl all
      | inl waits ↦ inr (
          done-explored floats nodes query mask layer weak ef b.visited c b.candidates b.results i
            s.queue s.sound.near s.nearest.ascend done waits)
    ];
  }

  -- A round takes a candidate, and each further one is a node that was not visited before.
  beam_loop-IsAnswer :
      (fuel ef start : ℕ) (seen : List ℕ) (candidates results : List (F × ℕ))
      → IsSearch floats nodes query mask layer ef start
          (record { visited = seen; candidates = candidates; results = results })
      → length candidates + unvisited floats nodes query mask layer seen ≤ fuel
      → (out : List (F × ℕ)) × (beam_loop floats nodes query mask fuel ef layer seen candidates
            results
          ≡ returned out)
        × IsAnswer floats nodes query mask layer ef start out
  unfolding beam_loop
  beam_loop-IsAnswer fuel ef start seen [] results s enough =
      (results, refl, IsAnswer-at_end ef start seen results s)
  beam_loop-IsAnswer zero ef start seen (c ∷ candidates) results s enough = absurd (omega arith)
  beam_loop-IsAnswer (suc fuel) ef start seen (c ∷ candidates) results s enough =
      let b0 : Beam F = record { visited = seen; candidates = candidates; results = results } in
      let inside = links_inside nodes linked c.1 layer in
      elim (Bool-cases (is_done floats nodes query mask ef c.0 results)) [
        | inl e ↦ (results, if_true _ _ e, IsAnswer-when_done ef start c b0 s e)
        | inr e ↦
            let popped : IsSound floats nodes query mask layer b0 = record {
              near = s.sound.near.1;
              hits = s.sound.hits;
              once = s.sound.once;
            } in
            let nbs = links nodes c.1 layer in
            let v = visited-IsVisit floats nodes query mask layer nbs b0 inside popped in
            let b = visited floats nodes query mask layer nbs b0 in
            let b' = settle floats nodes query mask layer weak ef b in
            let s' = settle-IsSearch floats nodes query mask layer weak start c b0 b v ef s in
            let ih =
              beam_loop-IsAnswer fuel ef start b'.visited b'.candidates b'.results s' (
                omega
                  (arith, v.fewer, length-perm (sort_by-perm (score_lt floats) b.candidates))) in
            (ih.0, round fuel ef c b0 s.sound.near.0.0 e ∙ ih.1, ih.2)
      ]

  abbrev empty : Beam F
  empty = record { visited = []; candidates = []; results = [] }

  entered :
      (i : ℕ)
      → i < length nodes
      → enter_points floats nodes query mask ((distance floats nodes query i, i) ∷ []) empty
        ≡ returned (push floats nodes query mask layer i empty)
  unfolding enter_points
  entered i h = rw (passes_lem mask (length nodes) i fits h) refl

  abbrev first : ℕ → Beam F
  first i = push floats nodes query mask layer i empty

  abbrev first_results : ℕ → List (F × ℕ)
  first_results i = sort_by (score_lt floats) (first i).results

  first_few : (i : ℕ) → length (first_results i) ≤ 1
  first_few i = elim (Bool-cases (masked mask i)) [
    | inl e ↦ omega (
      arith,
      length-perm (sort_by-perm (score_lt floats) (first i).results),
      ap
          (λ (b : Bool).
            length (push_if floats nodes query mask b (distance floats nodes query i, i) []))
          e,
    )
    | inr e ↦ omega (
      arith,
      length-perm (sort_by-perm (score_lt floats) (first i).results),
      ap
          (λ (b : Bool).
            length (push_if floats nodes query mask b (distance floats nodes query i, i) []))
          e,
    )
  ]

  first-IsSearch :
      (ef i : ℕ)
      → 1 ≤ ef
      → layer < height nodes i
      → IsSearch floats nodes query mask layer ef i (sort_beam floats nodes query mask (first i))
  first-IsSearch ef i one h =
      let lt = score_lt floats in
      let order = score-IsWeakOrder floats weak in
      let all = take-all ef (first_results i) (omega (arith, first_few i)) in
      let pushed : IsSound floats nodes query mask layer (first i) =
        push-IsSound floats nodes query mask layer i empty h refl
          (record { near = tt; hits = tt; once = λ j. omega arith }) in
      let near_one =
        IsNearest-append lt order ef [] (scores floats nodes query mask layer (i ∷ [])) []
          (first_results i) (sort_by-IsSorted lt order (first i).results)
          (subst (λ xs. Perm (first_results i) xs)
            (results-push floats nodes query mask layer i empty)
            (sort_by-perm lt (first i).results))
          (IsNearest-nil lt order ef) in
      record {
        sound = sort_beam-IsSound floats nodes query mask layer weak (first i) pushed;
        begun = ground (arith, ==_iff i i);
        inside = (h, tt);
        nearest =
            subst (λ r. IsNearest lt ef (scores floats nodes query mask layer (i ∷ [])) r) all
              near_one;
        queue = sort_by-IsSorted lt order (first i).candidates;
        frontier = λ j m. inl (
            any-perm (λ s. s.1 == j) (sort_by-perm lt (first i).candidates)
            ∙ ground (arith, ==_iff i j, ==_iff j i));
      }

  -- On nodes whose links lead to nodes of the same layer, with weakly ordered numbers and a mask of their
  -- number or none, the search of a layer from a node that is in it ends. It returns the `ef` nearest of
  -- the nodes that it saw and that the mask lets through, ascending. It saw the start and all neighbours
  -- of every node that it saw, save of nodes farther than each of `ef` results.
  pub search_layer_answers :
      (ef start : ℕ)
      → 1 ≤ ef
      → layer < height nodes start
      → (results : List (F × ℕ)) × (search_layer floats nodes query mask
            ((distance floats nodes query start, start) ∷ [])
            ef
            layer
          ≡ returned results)
        × IsAnswer floats nodes query mask layer ef start results
  unfolding search_layer
  search_layer_answers ef start one h =
      let b = sort_beam floats nodes query mask (first start) in
      let found =
        beam_loop-IsAnswer (1 + length nodes) ef start b.visited b.candidates b.results
          (first-IsSearch ef start one h)
          (omega (
            arith,
            count_below-le (length nodes) (λ j. not (contains j (start ∷ []))),
            length-perm (sort_by-perm (score_lt floats) (first start).candidates),
          )) in
      (found.0, rw (entered start (height_pos nodes start layer h)) found.1, found.2)
