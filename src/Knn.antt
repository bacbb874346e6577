-- ===== src/Knn.antt =====
-- gtv-engine/src/knn.rs: named collections of vectors, and the search behind the `knn` table
-- function. The reading of its arguments is the SQL library's.
pub mod Nearest
pub mod Search
mod Tests
use Prim.Native.String.{String}
use text.Mathlib.Text.{◌==◌ as str_eq}
use gtvdb.Base.{
  ℕ, Bool, true, false, not, ◌&&◌, Option, none, some, List, [], ◌∷◌, map, length, get_or, ◌==◌,
  if◌then◌else◌,
}
use gtvdb.Error.{Result, ok, err, invalid_argument}
use gtvdb.Flat.{Floats, scored, nearest, one_dimension}

pub record KnnCollection (F : Type 0) : Type 0 where
  pub ids : List ℕ
  pub vectors : List (List F)
  pub labels : Option (List String)

abbrev pub labels_fit : Option (List String) → ℕ → Bool
labels_fit none n = true
labels_fit (some labels) n = length labels == n

-- The checks of the vectors' dimensions, and what passes them.
unfoldable pub with_dimension :
    {F : Type 0} → List ℕ → Option (List String) → List (List F) → Result (KnnCollection F)
with_dimension ids labels [] = err (invalid_argument "knn collection: empty vector set")
with_dimension ids labels (first ∷ vectors) =
    if length first == 0
    then err (invalid_argument "knn collection: zero-dimension vectors")
    else (if not (one_dimension (length first) (first ∷ vectors))
        then err (invalid_argument "knn collection: inconsistent vector dimensions")
        else ok (record { ids = ids; vectors = first ∷ vectors; labels = labels }))

-- An execution error of the SQL library is an error with its message.
unfoldable pub new :
    {F : Type 0} → List ℕ → List (List F) → Option (List String) → Result (KnnCollection F)
unfolding with_dimension
new ids vectors labels =
    if not (length ids == length vectors)
    then err (invalid_argument "knn collection: ids/vectors length mismatch")
    else (if not (labels_fit labels (length vectors))
        then err (invalid_argument "knn collection: labels/vectors length mismatch")
        else with_dimension ids labels vectors)

-- `match (&self.labels, label) { .. }`
abbrev pub labelled : Option (List String) → Option String → ℕ → Bool
labelled (some labels) (some want) i = str_eq (get_or labels i "") want
labelled _ _ i = true

-- `to_distance` is `(d2 as f64).sqrt()`.
unfoldable pub search :
    {F G : Type 0}
    → Floats F
    → (F → G)
    → KnnCollection F
    → List F
    → ℕ
    → Option String
    → List (ℕ × G)
unfolding scored nearest
search floats to_distance c query k label =
    map (λ s. (s.1, to_distance s.0))
      (nearest floats k (scored floats (labelled c.labels label) query c.ids 0 c.vectors))
