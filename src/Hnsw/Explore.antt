-- ===== src/Hnsw/Explore.antt =====
-- The beam search of a layer ends, with the nearest of the nodes that it has seen; and it has seen the
-- neighbours of every node that could be among them.
use mathlib.Core.List.Perm
use mathlib.Core.List.{perm_append_comm}
use gtvdb.Base.{
  ℕ, zero, suc, ◌≤◌, ◌<◌, ◌≡◌, refl, sym, ap, ◌∙◌, ◌⊎◌, subst, inl, inr, Bool, true, false, Option,
  some, List, [], ◌∷◌, ◌++◌, length, take, All, All-imp, All-mem, ltb, ◌==◌, ==_iff, arith,
  Bool-cases, Option-cases, if_true, if_false, Perm,
}
use gtvdb.Base.Filter.{contains, any-append, any-perm, any→mem, count-take, count-perm}
use gtvdb.Base.Sort.{IsWeakOrder, IsSorted, sort_by, sort_by-perm, sort_by-IsSorted, All-sort_by}
use gtvdb.Flat.{Floats, score_lt}
use gtvdb.Knn.Nearest.{IsNearest, score-IsWeakOrder, All-take}
use gtvdb.Hnsw.{Node}
use gtvdb.Hnsw.Search.{Beam, sort_beam, is_done, truncate, last_distance}
use gtvdb.Hnsw.Layers.{height, links}
use gtvdb.Hnsw.Descent.{distance, IsAt, irrefl}
use gtvdb.Hnsw.Nearest.{IsNearest-append, IsNearest-perm}
use gtvdb.Hnsw.Beam.{IsHit, IsSound, scores, scores-append, has, IsVisit, seen_later}

pub take-all {ℓ} : {A : Type ℓ} (k : ℕ) (xs : List A) → length xs ≤ k → take k xs ≡ xs
take-all zero [] h = refl
take-all zero (x ∷ xs) h = absurd (omega arith)
take-all (suc k) [] h = refl
take-all (suc k) (x ∷ xs) h = ap (◌∷◌ x) (take-all k xs (omega arith))

module _ {F : Type 0} (floats : Floats F) (weak : IsWeakOrder floats.lt) where
  score-le : (a b : F × ℕ) → score_lt floats a b ≡ false → floats.lt a.0 b.0 ≡ false
  score-le a b h = ground arith

  -- In an ascending list nothing is farther than the last item.
  last_distance-le :
      (results : List (F × ℕ)) (far : F)
      → IsSorted (score_lt floats) results
      → last_distance results ≡ some far
      → All (λ r. floats.lt far r.0 ≡ false) results
  last_distance-le [] far h e = tt
  last_distance-le (s ∷ []) far h e =
      let same : s.0 ≡ far = cc in (rw (← same) (irrefl weak s.0), tt)
  last_distance-le (s ∷ t ∷ results) far h e =
      let ih = last_distance-le (t ∷ results) far h.1 e in
      (weak.trans s.0 t.0 far (score-le t s h.0.0) ih.0, ih)

module _ {F : Type 0} (floats : Floats F) (nodes : List (Node F)) (query : List F)
    (mask : Option (List Bool)) (layer : ℕ) where
  -- The results of a search of the layer from a node: the `ef` nearest of the nodes that were seen and
  -- that the mask lets through. All links of a node that was seen lead to nodes that were seen, unless
  -- there are `ef` results and all are closer than the node.
  pub record IsAnswer (ef start : ℕ) (results : List (F × ℕ)) : Type 0 where
    pub hits : All (IsHit floats nodes query mask layer) results
    pub seen : List ℕ
    pub begun : contains start seen ≡ true
    pub inside : All (λ i. layer < height nodes i) seen
    pub nearest : IsNearest (score_lt floats) ef (scores floats nodes query mask layer seen) results
    pub explored :
        (i : ℕ)
        → contains i seen ≡ true
        → All (λ nb. contains nb seen ≡ true) (links nodes i layer)
          ⊎ ((ef ≤ length results)
              × All (λ r. floats.lt r.0 (distance floats nodes query i) ≡ true) results)

  -- The locals of the loop between two rounds.
  pub record IsSearch (ef start : ℕ) (b : Beam F) : Type 0 where
    pub sound : IsSound floats nodes query mask layer b
    pub begun : contains start b.visited ≡ true
    pub inside : All (λ i. layer < height nodes i) b.visited
    pub nearest :
        IsNearest (score_lt floats) ef (scores floats nodes query mask layer b.visited) b.results
    pub queue : IsSorted (score_lt floats) b.candidates
    pub frontier :
        (i : ℕ)
        → contains i b.visited ≡ true
        → (has floats nodes query mask layer i b.candidates ≡ true)
          ⊎ All (λ nb. contains nb b.visited ≡ true) (links nodes i layer)

  module _ (weak : IsWeakOrder floats.lt) where
    -- When the next candidate is farther than the last of `ef` results, the search is over.
    pub done-explored :
        (ef : ℕ) (seen : List ℕ) (c : F × ℕ) (candidates results : List (F × ℕ)) (i : ℕ)
        → IsSorted (score_lt floats) (c ∷ candidates)
        → All (IsAt floats nodes query layer) (c ∷ candidates)
        → IsSorted (score_lt floats) results
        → is_done floats nodes query mask ef c.0 results ≡ true
        → has floats nodes query mask layer i (c ∷ candidates) ≡ true
        → (ef ≤ length results)
          × All (λ r. floats.lt r.0 (distance floats nodes query i) ≡ true) results
    done-explored ef seen c candidates results i queue near ascend done waits =
        elim (Option-cases (last_distance results)) [
          | inl e ↦ absurd (ground arith)
          | inr (far, e) ↦
              let x = any→mem (λ s. s.1 == i) (c ∷ candidates) waits in
              let at = All-mem (IsAt floats nodes query layer) x.0 (c ∷ candidates) near x.1 in
              let same : x.0.0 ≡ distance floats nodes query i =
                at.1 ∙ ap (distance floats nodes query) ((==_iff x.0.1 i).0 x.2) in
              let first : floats.lt x.0.0 c.0 ≡ false =
                All-mem (λ y. floats.lt y.0 c.0 ≡ false) x.0 (c ∷ candidates)
                  (irrefl weak c.0, All-imp (λ y h. score-le floats weak y c h) candidates queue.0)
                  x.1 in
              let behind : floats.lt far c.0 ≡ true = ground arith in
              (
                ground arith,
                rw (← same) (
                    All-imp {P = λ r. floats.lt far r.0 ≡ false}
                      {Q = λ r. floats.lt r.0 x.0.0 ≡ true}
                      (λ r h. ground (arith, weak.trans x.0.0 r.0 far, weak.trans c.0 x.0.0 far))
                      results (last_distance-le floats weak results far ascend e)),
              )
        ]

    truncate-take :
        (ef : ℕ) (xs : List (F × ℕ)) → truncate floats nodes query mask ef xs ≡ take ef xs
    truncate-take ef xs = elim (Bool-cases (ltb ef (length xs))) [
      | inl e ↦ if_true _ _ e
      | inr e ↦ if_false _ _ e ∙ sym (take-all ef xs (ground arith))
    ]

    -- The locals behind a round.
    abbrev pub settle : ℕ → Beam F → Beam F
    settle ef b =
        let b' = sort_beam floats nodes query mask b in
        record b' { results = truncate floats nodes query mask ef b'.results }

    pub sort_beam-IsSound :
        (b : Beam F)
        → IsSound floats nodes query mask layer b
        → IsSound floats nodes query mask layer (sort_beam floats nodes query mask b)
    sort_beam-IsSound b s =
        let lt = score_lt floats in
        record {
          near = All-sort_by lt _ b.candidates s.near;
          hits = All-sort_by lt _ b.results s.hits;
          once = λ i.
              omega
                (arith, s.once i, count-perm (λ (t : F × ℕ). t.1 == i) (sort_by-perm lt b.results));
        }

    settle-IsSound :
        (ef : ℕ) (b : Beam F)
        → IsSound floats nodes query mask layer b
        → IsSound floats nodes query mask layer (settle ef b)
    settle-IsSound ef b s =
        let sorted = sort_by (score_lt floats) b.results in
        let s' = sort_beam-IsSound b s in
        rw (truncate-take ef sorted) (record {
          near = s'.near;
          hits = All-take (λ _ _. false) _ ef sorted s'.hits;
          once = λ i. omega (arith, s'.once i, count-take (λ (t : F × ℕ). t.1 == i) ef sorted);
        })

    -- A visit of all links of the candidate `c`.
    module _ (start : ℕ) (c : F × ℕ) (b0 b : Beam F)
        (v : IsVisit floats nodes query mask layer (links nodes c.1 layer) b0 b) where
      waits_settled :
          (i : ℕ)
          → has floats nodes query mask layer i b.candidates ≡ true
          → has floats nodes query mask layer i (sort_by (score_lt floats) b.candidates) ≡ true
      waits_settled i h = any-perm (λ s. s.1 == i) (sort_by-perm (score_lt floats) b.candidates) ∙ h

      frontier_kept :
          (i : ℕ)
          → (has floats nodes query mask layer i (c ∷ b0.candidates) ≡ true)
            ⊎ All (λ nb. contains nb b0.visited ≡ true) (links nodes i layer)
          → (has floats nodes query mask layer i (sort_by (score_lt floats) b.candidates) ≡ true)
            ⊎ All (λ nb. contains nb b.visited ≡ true) (links nodes i layer)
      frontier_kept i (inr all) = inr (
          All-imp (λ nb. seen_later floats nodes query mask layer nb _ b0 b v) (links nodes i layer)
            all)
      frontier_kept i (inl h) = elim (Bool-cases (c.1 == i)) [
        | inl e ↦ inr (
            subst (λ j. All (λ nb. contains nb b.visited ≡ true) (links nodes j layer))
              ((==_iff c.1 i).0 e) v.covers)
        | inr e ↦ inl (waits_settled i (v.kept i (ground arith)))
      ]

      settle-frontier :
          (i : ℕ)
          → (contains i b0.visited ≡ true
              → (has floats nodes query mask layer i (c ∷ b0.candidates) ≡ true)
                ⊎ All (λ nb. contains nb b0.visited ≡ true) (links nodes i layer))
          → contains i b.visited ≡ true
          → (has floats nodes query mask layer i (sort_by (score_lt floats) b.candidates) ≡ true)
            ⊎ All (λ nb. contains nb b.visited ≡ true) (links nodes i layer)
      settle-frontier i before m = elim (Bool-cases (contains i v.fresh)) [
        | inl e ↦ inl (waits_settled i (v.added i e))
        | inr e ↦
            let now = ap (contains i) v.seen_now ∙ any-append (λ x. i == x) v.fresh b0.visited in
            frontier_kept i (before (ground arith))
      ]

      scores-visited :
          Perm
            (scores floats nodes query mask layer b0.visited
              ++ scores floats nodes query mask layer v.fresh)
            (scores floats nodes query mask layer b.visited)
      scores-visited =
          rw (v.seen_now, scores-append floats nodes query mask layer v.fresh b0.visited)
            (perm_append_comm _ (scores floats nodes query mask layer v.fresh))

      pub settle-IsSearch :
          (ef : ℕ)
          → IsSearch ef start (record b0 { candidates = c ∷ b0.candidates })
          → IsSearch ef start (settle ef b)
      settle-IsSearch ef s =
          let lt = score_lt floats in
          let order = score-IsWeakOrder floats weak in
          let sorted = sort_by lt b.results in
          record {
            sound = settle-IsSound ef b v.sound;
            begun = seen_later floats nodes query mask layer start _ b0 b v s.begun;
            inside = v.inside s.inside;
            nearest = rw (truncate-take ef sorted) (
                IsNearest-perm lt order ef _ (scores floats nodes query mask layer b.visited)
                  (take ef sorted) scores-visited
                  (IsNearest-append lt order ef _ _ b0.results sorted
                    (sort_by-IsSorted lt order b.results)
                    (Perm.trans (sort_by-perm lt b.results) v.results_now) s.nearest));
            queue = sort_by-IsSorted lt order b.candidates;
            frontier = λ i. settle-frontier i (s.frontier i);
          }
