-- ===== src/Engine/Tests.antt =====
-- Calls of the SQL functions with literals.
use Prim.Native.String.{String, count}
use gtvdb.Base.{arith}
use gtvdb.Base.{
  ℕ, ◌+◌, ◌-◌, ◌*◌, ltb, ◌≡◌, ◌⊎◌, refl, Option, none, some, List, [], ◌∷◌, map, length,
}
use gtvdb.Base.Int.{ℤ, pos, negsuc}
use gtvdb.Base.Sort.{stable_sort}
use gtvdb.Base.{◌<◌, ◌≤◌, Perm}
use gtvdb.Base.Filter.{filter}
use gtvdb.Base.Sort.{IsSorted}
use gtvdb.Csr.{find_bad, EdgeRow, TemporalCsr, row_lt, zip_rows, build, from_arrays}
use gtvdb.Csr.Lookup.{live_edge}
use gtvdb.Csr.Batch.{table_of}
use gtvdb.Asof.Merge.{as_of}
use gtvdb.Window.{i64}
use gtvdb.Engine.{
  SqlError, SqlResult, done, failed, literal, Scalars, expr_to_i64, expr_to_u64, neighbors_call,
  exprs_to_i64, asof_call, rolling_msum, window_size, evaluate_all,
}
use gtvdb.Engine.Calls.{neighbors_call_correct, asof_call_correct}
use gtvdb.Base.Order.{nat_order}
use gtvdb.Base.Sort.{IsWeakOrder, by_key-IsWeakOrder}
use gtvdb.Flat.{Floats, score_lt}
use gtvdb.Knn.{KnnCollection, labelled}
use gtvdb.Knn.Nearest.{IsNearest, candidates_of}
use gtvdb.Engine.{expr_to_string}
use gtvdb.Engine.Collections.{as_usize, parse_query, label_of, knn_call}
use gtvdb.Knn.{new}
use gtvdb.Error.{GtvError, ok, err}
use gtvdb.Engine.{execution}
use gtvdb.Engine.Collections.{get_collection}
use gtvdb.Engine.Registry.{register_knn, register_knn-get_collection}
use gtvdb.Engine.Nearest.{knn_call_correct, knn_call_negative}
use gtvdb.Engine.Rolling.{rows, evaluate_all_returns}

-- Every literal is a natural number.
abbrev naturals : Scalars ℕ
naturals = record {
  as_i64 = λ n. done (some (pos n));
  as_u64 = λ n. done (some n);
  utf8 = λ n. none;
}

-- Two edges out of node 0, the later one first, and one out of node 1.
abbrev sources : List ℕ
sources = 0 ∷ 1 ∷ 0 ∷ []

abbrev targets : List ℕ
targets = 1 ∷ 0 ∷ 0 ∷ []

abbrev starts : List ℤ
starts = pos 3 ∷ pos 0 ∷ pos 1 ∷ []

abbrev ends : List ℤ
ends = pos 9 ∷ pos 9 ∷ pos 9 ∷ []

abbrev types : List ℕ
types = 7 ∷ 7 ∷ 8 ∷ []

abbrev csr : TemporalCsr
csr = build 2 (stable_sort.sort EdgeRow row_lt (zip_rows sources targets starts ends types))

csr_built : from_arrays stable_sort sources targets starts ends types 2 ≡ ok csr
unfolding from_arrays find_bad zip_rows
csr_built = refl

as_node : expr_to_u64 naturals (literal 0) ≡ done 0
unfolding expr_to_u64
as_node = refl

as_time : expr_to_i64 naturals (literal 5) ≡ done (pos 5)
unfolding expr_to_i64
as_time = refl

neighbors_call_correct_example :
    ((0 < 2)
      × ((found : List EdgeRow) × (neighbors_call naturals
              (λ e. "out of range")
              csr
              (literal 0 ∷ literal 5 ∷ [])
            ≡ done (table_of found))
          × Perm found (filter (live_edge 0 (pos 5)) (zip_rows sources targets starts ends types))
          × IsSorted row_lt found))
    ⊎ ((2 ≤ 0)
        × (neighbors_call naturals (λ e. "out of range") csr (literal 0 ∷ literal 5 ∷ [])
            ≡ failed (execution "out of range")))
neighbors_call_correct_example =
    neighbors_call_correct naturals (λ e. "out of range") stable_sort sources targets starts ends
      types 2 csr csr_built (omega arith) (literal 0) (literal 5) [] 0 (pos 5) as_node as_time

abbrev times : List ℤ
times = pos 0 ∷ pos 10 ∷ pos 20 ∷ []

abbrev values : List ℕ
values = 1 ∷ 2 ∷ 3 ∷ []

as_times : exprs_to_i64 naturals (literal 25 ∷ literal 5 ∷ []) ≡ done (pos 25 ∷ pos 5 ∷ [])
unfolding exprs_to_i64
as_times = refl

asof_call_correct_example :
    asof_call naturals stable_sort times values (literal 25 ∷ literal 5 ∷ [])
    ≡ done (some (pos 25 ∷ pos 5 ∷ [], map (λ t. as_of t times values none) (pos 25 ∷ pos 5 ∷ [])))
asof_call_correct_example =
    asof_call_correct naturals stable_sort times values (literal 25 ∷ literal 5 ∷ [])
      (pos 25 ∷ pos 5 ∷ []) ((refl, (refl, tt)), ((refl, tt), (tt, tt))) refl as_times

-- A column of integers, whose first value is the size of the window.
abbrev head_i64 : List ℕ → SqlResult (Option ℤ)
head_i64 [] = done none
head_i64 (n ∷ _) = done (some (pos n))

abbrev columns : List (List ℕ)
columns = values ∷ (2 ∷ 2 ∷ 2 ∷ []) ∷ []

evaluate_all_returns_example :
    ((out : List ℕ) × (evaluate_all head_i64 i64 (λ c. c) rolling_msum columns ≡ done (some out))
      × (length out ≡ length (rows head_i64 (λ c. c) columns)))
    ⊎ ((e : SqlError) × (window_size head_i64 columns ≡ failed e)
        × (evaluate_all head_i64 i64 (λ c. c) rolling_msum columns ≡ failed e))
evaluate_all_returns_example = evaluate_all_returns head_i64 i64 (λ c. c) rolling_msum columns

-- Every literal is a text, and stands for the number 1.
abbrev texts : Scalars String
texts = record {
  as_i64 = λ s. done (some (pos 1));
  as_u64 = λ s. done (some 1);
  utf8 = λ s. some s;
}

abbrev floats : Floats ℕ
floats = record {
  nil = 0;
  add = λ x y. x + y;
  sub = λ x y. (x - y) + (y - x);
  mul = λ x y. x * y;
  lt = ltb;
}

weak : IsWeakOrder floats.lt
weak = by_key-IsWeakOrder nat_order (λ x. x)

-- The length of a number's text, for its value.
abbrev digits : String → Option ℕ
digits s = some (count s)

abbrev collection : KnnCollection ℕ
collection = record {
  ids = 7 ∷ 8 ∷ [];
  vectors = (5 ∷ 5 ∷ []) ∷ (1 ∷ 1 ∷ []) ∷ [];
  labels = some ("a" ∷ "b" ∷ []);
}

abbrev collections : List (String × KnnCollection ℕ)
collections =
    ("other", record { ids = []; vectors = []; labels = none }) ∷ ("songs", collection) ∷ []

as_text : (s : String) → expr_to_string texts (literal s) ≡ done s
unfolding expr_to_string
as_text s = refl

one : expr_to_i64 texts (literal "1") ≡ done (pos 1)
unfolding expr_to_i64
one = refl

label_b : label_of texts (literal "b" ∷ []) ≡ done (some "b")
unfolding label_of
label_b = refl

query_read : parse_query digits "11, 1 " ≡ done (2 ∷ 1 ∷ [])
unfolding parse_query
query_read = refl

knn_call_correct_example :
    (best : List (ℕ × ℕ)) × (knn_call texts floats
        (λ d. d)
        digits
        collections
        (literal "songs" ∷ literal "11, 1 " ∷ literal "1" ∷ literal "b" ∷ [])
      ≡ done (map (λ s. (s.1, (λ (d : ℕ). d) s.0)) best))
    × IsNearest
        (score_lt floats)
        (as_usize (pos 1))
        (candidates_of floats collection.ids collection.vectors
          (labelled collection.labels (some "b"))
          (2 ∷ 1 ∷ []))
        best
knn_call_correct_example =
    knn_call_correct texts floats (λ d. d) digits weak collections (literal "songs")
      (literal "11, 1 ") (literal "1") (literal "b" ∷ []) "songs" "11, 1 " (pos 1) (some "b")
      (2 ∷ 1 ∷ []) collection (as_text "songs") (as_text "11, 1 ") one label_b query_read refl refl

-- Every number is minus one.
abbrev negatives : Scalars String
negatives = record {
  as_i64 = λ s. done (some (negsuc 0));
  as_u64 = λ s. done none;
  utf8 = λ s. some s;
}

name_read : (s : String) → expr_to_string negatives (literal s) ≡ done s
unfolding expr_to_string
name_read s = refl

minus_one : expr_to_i64 negatives (literal "-1") ≡ done (negsuc 0)
unfolding expr_to_i64
minus_one = refl

no_label : label_of negatives [] ≡ done none
unfolding label_of
no_label = refl

knn_call_negative_example :
    (best : List (ℕ × ℕ)) × (knn_call negatives floats
        (λ d. d)
        digits
        collections
        (literal "songs" ∷ literal "11, 1 " ∷ literal "-1" ∷ [])
      ≡ done (map (λ s. (s.1, (λ (d : ℕ). d) s.0)) best))
    × Perm best (
        candidates_of floats collection.ids collection.vectors
          (labelled collection.labels none)
          (2 ∷ 1 ∷ []))
    × IsSorted (score_lt floats) best
knn_call_negative_example =
    knn_call_negative negatives floats (λ d. d) digits weak collections (literal "songs")
      (literal "11, 1 ") (literal "-1") [] "songs" "11, 1 " 0 none (2 ∷ 1 ∷ []) collection
      (name_read "songs") (name_read "11, 1 ") minus_one no_label query_read refl refl (omega arith)
      (omega arith)

register_knn-get_collection_example :
    ((c : KnnCollection ℕ) × (after : List (String × KnnCollection ℕ)) × (new {F = ℕ}
          (7 ∷ [])
          ((1 ∷ []) ∷ [])
          none
        ≡ ok c)
      × (register_knn {F = ℕ} (λ _. "error") "songs" (7 ∷ []) ((1 ∷ []) ∷ []) none []
          ≡ (done tt, after))
      × (get_collection "songs" after ≡ done c))
    ⊎ ((e : GtvError) × (new {F = ℕ} (7 ∷ []) ((1 ∷ []) ∷ []) none ≡ err e)
        × (register_knn {F = ℕ} (λ _. "error") "songs" (7 ∷ []) ((1 ∷ []) ∷ []) none []
            ≡ (failed (execution "error"), [])))
register_knn-get_collection_example =
    register_knn-get_collection (λ _. "error") "songs" "songs" (7 ∷ []) ((1 ∷ []) ∷ []) none []
