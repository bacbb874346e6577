-- ===== src/Hnsw/Tests.antt =====
-- Building and searching a small index, with numbers for floats and levels of zero or one.
use gtvdb.Base.{
  ℕ, ◌<◌, ◌≡◌, refl, inr, true, false, none, some, List, [], ◌∷◌, ◌++◌, map, length, take, arith,
}
use gtvdb.Base.Filter.{contains}
use gtvdb.Base.Sort.{sort_by}
use gtvdb.Error.{invalid_argument}
use gtvdb.Flat.{masked, squared_l2}
use gtvdb.Hnsw.{returned, failed, HnswIndex, random_level}
use gtvdb.Hnsw.Search.{greedy_descend, search_knn}
use gtvdb.Hnsw.Insert.{insert, build}
use gtvdb.Hnsw.Layers.{node_at}
use gtvdb.Hnsw.Descent.{distance, IsDescent, greedy_descend_settles}
use gtvdb.Hnsw.Explore.{IsAnswer}
use gtvdb.Hnsw.Shape.{IsWellFormed, contents}
use gtvdb.Hnsw.Contract.{id_of, IsStart, insert-IsWellFormed, search_knn_answers}
use gtvdb.Hnsw.Exhaustive.{Reach, search_knn-exhaustive}
use gtvdb.Hnsw.Samples.{
  level_floats, shallow, floats, weak, index, index-IsLinked, index-IsWellFormed,
}
use gtvdb.Hnsw.Build.{pairs, build-IsWellFormed}

-- The first state of the splitmix generator behind seed 0.
first_number : (random_level floats level_floats 4 0).1 ≡ 0x9E37_79B9_7F4A_7C15
unfolding random_level
first_number = refl

abbrev ids : List ℕ
ids = 0 ∷ 1 ∷ 2 ∷ []

abbrev vectors : List (List ℕ)
vectors = (0 ∷ 0 ∷ []) ∷ (1 ∷ 1 ∷ []) ∷ (5 ∷ 5 ∷ []) ∷ []

recovers_nearest : search_knn floats index (0 ∷ 0 ∷ []) 3 none ≡ returned (0 ∷ 1 ∷ 2 ∷ [])
unfolding search_knn sort_by squared_l2
recovers_nearest = refl

respects_bitmask :
    search_knn floats index (5 ∷ 5 ∷ []) 3 (some (false ∷ true ∷ true ∷ [])) ≡ returned (2 ∷ 1 ∷ [])
unfolding search_knn sort_by squared_l2
respects_bitmask = refl

wrong_dimension :
    insert floats level_floats index 3 (7 ∷ [])
    ≡ failed (invalid_argument "vector dim != index dim")
unfolding insert
wrong_dimension = refl

greedy_descend_settles_example :
    (best : ℕ × ℕ) × (greedy_descend floats index.nodes (6 ∷ 6 ∷ []) 0 0 ≡ returned best)
    × IsDescent floats index.nodes
        (6 ∷ 6 ∷ [])
        0
        (distance floats index.nodes (6 ∷ 6 ∷ []) 0, 0)
        best
greedy_descend_settles_example =
    greedy_descend_settles floats index.nodes (6 ∷ 6 ∷ []) weak index-IsLinked 0 0 (omega arith)

insert-IsWellFormed_example :
    (index' : HnswIndex ℕ) × (insert floats level_floats index 3 (2 ∷ 2 ∷ []) ≡ returned index')
    × IsWellFormed index'
    × (contents index'.nodes ≡ contents index.nodes ++ (3, 2 ∷ 2 ∷ []) ∷ [])
    × (index'.dim ≡ 2)
    × (index'.m ≡ 4)
insert-IsWellFormed_example =
    insert-IsWellFormed floats level_floats weak index 3 (2 ∷ 2 ∷ []) index-IsWellFormed
      (shallow 4 0) (inr refl)

build-IsWellFormed_example :
    (index' : HnswIndex ℕ) × (build floats level_floats ids vectors 4 20 20 ≡ returned index')
    × IsWellFormed index'
    × (contents index'.nodes ≡ pairs ids vectors)
    × (0 < 3 → index'.dim ≡ 2)
build-IsWellFormed_example =
    build-IsWellFormed floats level_floats weak 4 (shallow 4) 2 ids vectors 20 20 refl
      (refl, (refl, (refl, tt)))

search_knn_answers_example :
    (start : ℕ) × (results : List (ℕ × ℕ)) × (search_knn floats index
        (5 ∷ 5 ∷ [])
        2
        (some (false ∷ true ∷ true ∷ []))
      ≡ returned (map (id_of floats index.nodes) (take 2 results)))
    × IsAnswer floats index.nodes (5 ∷ 5 ∷ []) (some (false ∷ true ∷ true ∷ [])) 0 20 start results
search_knn_answers_example =
    search_knn_answers floats weak index index-IsWellFormed (5 ∷ 5 ∷ []) 2
      (some (false ∷ true ∷ true ∷ [])) (omega arith) (omega arith) refl refl

search_knn-exhaustive_example :
    (start : ℕ) × (found : List ℕ) × IsStart floats index (5 ∷ 5 ∷ []) start
    × (search_knn floats index (5 ∷ 5 ∷ []) 3 (some (false ∷ true ∷ true ∷ [])) ≡ returned found)
    × (length found < 3
        → (i : ℕ) → Reach index.nodes 0 start i
        → masked (some (false ∷ true ∷ true ∷ [])) i ≡ true
        → contains (node_at index.nodes i).id found ≡ true)
search_knn-exhaustive_example =
    search_knn-exhaustive floats weak index index-IsWellFormed (5 ∷ 5 ∷ []) 3
      (some (false ∷ true ∷ true ∷ [])) (omega arith) (omega arith) refl refl
