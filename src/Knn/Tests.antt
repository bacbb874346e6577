-- ===== src/Knn/Tests.antt =====
-- The flat index over three vectors, with numbers for floats.
use gtvdb.Base.{ℕ, ◌+◌, ◌-◌, ◌*◌, ◌≡◌, refl, true, false, none, some, List, [], ◌∷◌, map, ltb}
use gtvdb.Base.Order.{nat_order}
use gtvdb.Base.Sort.{IsWeakOrder, by_key-IsWeakOrder, sort_by}
use gtvdb.Error.{ok}
use gtvdb.Flat.{Floats, FlatIndex, score_lt, masked, search_knn}
use gtvdb.Knn.{KnnCollection}
use gtvdb.Knn.Nearest.{IsNearest, candidates_of, search_knn_correct}

abbrev floats : Floats ℕ
floats = record {
  nil = 0;
  add = λ x y. x + y;
  sub = λ x y. (x - y) + (y - x);
  mul = λ x y. x * y;
  lt = ltb;
}

weak : IsWeakOrder floats.lt
weak = by_key-IsWeakOrder nat_order (λ x. x)

abbrev ids : List ℕ
ids = 7 ∷ 8 ∷ 9 ∷ []

abbrev vectors : List (List ℕ)
vectors = (5 ∷ 5 ∷ []) ∷ (1 ∷ 1 ∷ []) ∷ (0 ∷ 0 ∷ []) ∷ []

abbrev index : FlatIndex ℕ
index = record { ids = ids; vectors = vectors; dim = 2 }

abbrev collection : KnnCollection ℕ
collection = record { ids = ids; vectors = vectors; labels = some ("a" ∷ "b" ∷ "a" ∷ []) }

two_nearest : search_knn floats index (0 ∷ 0 ∷ []) 2 none ≡ ok (9 ∷ 8 ∷ [])
unfolding search_knn sort_by
two_nearest = refl

search_knn_correct_example :
    (best : List (ℕ × ℕ)) × (search_knn floats index
        (0 ∷ 0 ∷ [])
        2
        (some (true ∷ false ∷ true ∷ []))
      ≡ ok (map (λ s. s.1) best))
    × IsNearest
        (score_lt floats)
        2
        (candidates_of floats ids vectors (masked (some (true ∷ false ∷ true ∷ []))) (0 ∷ 0 ∷ []))
        best
search_knn_correct_example =
    search_knn_correct floats weak index (0 ∷ 0 ∷ []) 2 (some (true ∷ false ∷ true ∷ [])) refl refl
