-- ===== src/Engine/Nearest.antt =====
-- What the SQL function `knn` answers: the nearest vectors of the collection that it names.
use Prim.Native.String.{String}
use gtvdb.Base.{
  ◌^◌, ◌<◌, ◌≤◌, ◌∙◌, min, arith, ℕ, ◌≡◌, refl, Option, List, ◌∷◌, map, length, ==_iff, Perm,
}
use gtvdb.Base.Int.{ℤ, negsuc}
use gtvdb.Base.Sort.{IsWeakOrder, IsSorted}
use gtvdb.Flat.{Floats, score_lt}
use gtvdb.Knn.{KnnCollection, labelled}
use gtvdb.Knn.Nearest.{IsNearest, IsNearest-all, candidates_of}
use gtvdb.Knn.Search.{search_correct}
use gtvdb.Engine.{done, Expr, Scalars, expr_to_i64, expr_to_string}
use gtvdb.Engine.Collections.{as_usize, parse_query, get_collection, dim, label_of, knn_call}

as_usize-negsuc : (n m : ℕ) → n < 2 ^ 63 → m ≤ 2 ^ 63 → min (as_usize (negsuc n)) m ≡ m
as_usize-negsuc n m h le = ground arith

module _ {S F G : Type 0} (scalars : Scalars S) (floats : Floats F) (to_distance : F → G)
    (parse : String → Option F) (weak : IsWeakOrder floats.lt) where
  -- When numbers are weakly ordered, the name is that of a registered collection and the query reads as
  -- a vector of its dimension, `knn` answers with the nearest vectors that have the label, at most as
  -- many as the third argument is as an unsigned integer.
  pub knn_call_correct :
      (collections : List (String × KnnCollection F)) (e f g : Expr S) (more : List (Expr S))
      (name text : String) (k : ℤ) (label : Option String) (query : List F) (c : KnnCollection F)
      → expr_to_string scalars e ≡ done name
      → expr_to_string scalars f ≡ done text
      → expr_to_i64 scalars g ≡ done k
      → label_of scalars more ≡ done label
      → parse_query parse text ≡ done query
      → get_collection name collections ≡ done c
      → length query ≡ dim c.vectors
      → (best : List (F × ℕ)) × (knn_call scalars floats to_distance parse collections
            (e ∷ f ∷ g ∷ more)
          ≡ done (map (λ s. (s.1, to_distance s.0)) best))
        × IsNearest
            (score_lt floats)
            (as_usize k)
            (candidates_of floats c.ids c.vectors (labelled c.labels label) query)
            best
  unfolding knn_call
  knn_call_correct collections e f g more name text k label query c n t i l q found size =
      let s = search_correct floats to_distance weak c query (as_usize k) label in
      (s.0, rw (n, t, i, l, q, found, size, (==_iff _ _).1 refl, s.1) refl, s.2)

  -- A negative third argument is not refused: when numbers are weakly ordered, the name is that of a
  -- registered collection of at most 2^63 candidates and the query reads as a vector of its dimension,
  -- `knn` answers with all vectors that have the label, each once, from the nearest to the farthest.
  pub knn_call_negative :
      (collections : List (String × KnnCollection F)) (e f g : Expr S) (more : List (Expr S))
      (name text : String) (n : ℕ) (label : Option String) (query : List F) (c : KnnCollection F)
      → expr_to_string scalars e ≡ done name
      → expr_to_string scalars f ≡ done text
      → expr_to_i64 scalars g ≡ done (negsuc n)
      → label_of scalars more ≡ done label
      → parse_query parse text ≡ done query
      → get_collection name collections ≡ done c
      → length query ≡ dim c.vectors
      → n < 2 ^ 63
      → length (candidates_of floats c.ids c.vectors (labelled c.labels label) query) ≤ 2 ^ 63
      → (best : List (F × ℕ)) × (knn_call scalars floats to_distance parse collections
            (e ∷ f ∷ g ∷ more)
          ≡ done (map (λ s. (s.1, to_distance s.0)) best))
        × Perm best (candidates_of floats c.ids c.vectors (labelled c.labels label) query)
        × IsSorted (score_lt floats) best
  knn_call_negative collections e f g more name text n label query c h t i l q found size small
        few =
      let s =
        knn_call_correct collections e f g more name text (negsuc n) label query c h t i l q found
          size in
      (
        s.0,
        s.1,
        IsNearest-all (score_lt floats) s.2 (s.2.size ∙ as_usize-negsuc n _ small few),
        s.2.ascend,
      )
