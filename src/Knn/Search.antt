-- ===== src/Knn/Search.antt =====
-- The search of a collection, by itself and beside that of the index.
use gtvdb.Base.{ℕ, ◌≡◌, refl, ap, subst, Option, List, [], map, get_or}
use Prim.Native.String.{String}
use gtvdb.Base.Sort.{IsWeakOrder}
use gtvdb.Flat.{Floats, score_lt, scored, nearest}
use gtvdb.Knn.{KnnCollection, labelled, search}
use gtvdb.Knn.Nearest.{IsNearest, candidates_of, scored_lem, zero_plus, nearest_lem}

module _ {F G : Type 0} (floats : Floats F) (to_distance : F → G)
    (weak : IsWeakOrder floats.lt) where
  -- When numbers are weakly ordered, the search of a collection answers with the `k` nearest vectors
  -- that have the label, or of all where no label is asked for or none is kept, by ascending distance
  -- and then id.
  pub search_correct :
      (c : KnnCollection F) (query : List F) (k : ℕ) (label : Option String)
      → (best : List (F × ℕ)) × (search floats to_distance c query k label
          ≡ map (λ s. (s.1, to_distance s.0)) best)
        × IsNearest
            (score_lt floats)
            k
            (candidates_of floats c.ids c.vectors (labelled c.labels label) query)
            best
  unfolding search
  search_correct c query k label =
      let all = scored floats (labelled c.labels label) query c.ids 0 c.vectors in
      (
        nearest floats k all,
        refl,
        subst (λ xs. IsNearest (score_lt floats) k xs (nearest floats k all))
            (scored_lem floats c.ids c.vectors c.vectors (labelled c.labels label) query 0
              (λ i lt. ap (λ m. get_or c.vectors m []) (zero_plus i)))
            (nearest_lem floats weak k all),
      )
