-- ===== src/Flat.antt =====
-- gtv-index/src/flat.rs: the exact index of the k nearest neighbours. Floating-point numbers are a
-- type of the model with the operations that the code uses; `lt` is `partial_cmp` giving `Less`, and
-- two numbers of which neither is less compare as equal, as the code's `unwrap_or` has it.
use gtvdb.Base.{
  ℕ, suc, Bool, true, false, not, ◌&&◌, ◌||◌, Option, none, some, List, [], ◌∷◌, map, length,
  get_or, take, ltb, ◌==◌, if◌then◌else◌,
}
use gtvdb.Base.Sort.{sort_by}
use gtvdb.Error.{Result, ok, err, invalid_argument}

pub record Floats (F : Type 0) : Type 0 where
  pub nil : F
  pub add : F → F → F
  pub sub : F → F → F
  pub mul : F → F → F
  pub lt : F → F → Bool

module _ {F : Type 0} (floats : Floats F) where
  -- `a.iter().zip(b).map(|(x, y)| (x - y) * (x - y)).sum()`, from the sum so far on.
  unfoldable pub sum_squares : List F → List F → F → F
  sum_squares (x ∷ a) (y ∷ b) sum =
      let d = floats.sub x y in sum_squares a b (floats.add sum (floats.mul d d))
  sum_squares _ _ sum = sum

  unfoldable pub squared_l2 : List F → List F → F
  unfolding sum_squares
  squared_l2 a b = sum_squares a b floats.nil

  -- By distance, then by id.
  abbrev pub score_lt : F × ℕ → F × ℕ → Bool
  score_lt a b = floats.lt a.0 b.0 || (not (floats.lt b.0 a.0) && ltb a.1 b.1)

  -- The vectors of the positions `i..` that `keep` lets through, with their distance and id.
  unfoldable pub scored : (ℕ → Bool) → List F → List ℕ → ℕ → List (List F) → List (F × ℕ)
  unfolding squared_l2
  scored keep query ids i [] = []
  scored keep query ids i (v ∷ vectors) =
      let rest = scored keep query ids (suc i) vectors in
      if keep i then (squared_l2 query v, get_or ids i 0) ∷ rest else rest

  -- `sort_by`, then `truncate(k)`
  unfoldable pub nearest : ℕ → List (F × ℕ) → List (F × ℕ)
  nearest k scores = take k (sort_by score_lt scores)

-- All vectors have the dimension.
abbrev pub one_dimension {ℓ} : {F : Type ℓ} → ℕ → List (List F) → Bool
one_dimension dim [] = true
one_dimension dim (v ∷ vectors) = length v == dim && one_dimension dim vectors

pub record FlatIndex (F : Type 0) : Type 0 where
  pub ids : List ℕ
  pub vectors : List (List F)
  pub dim : ℕ

unfoldable pub new : {F : Type 0} → List ℕ → List (List F) → Result (FlatIndex F)
new ids [] =
    if length ids == 0
    then err (invalid_argument "empty index")
    else err (invalid_argument "ids and vectors length mismatch")
new ids (first ∷ vectors) =
    let dim = length first in
    if not (length ids == length (first ∷ vectors))
    then err (invalid_argument "ids and vectors length mismatch")
    else (if dim == 0
        then err (invalid_argument "zero-dimension vectors")
        else (if one_dimension dim (first ∷ vectors)
            then ok (record { ids = ids; vectors = first ∷ vectors; dim = dim })
            else err (invalid_argument "inconsistent vector dimensions")))

-- `filter_mask.map_or(true, |m| m.value(i))`
abbrev pub masked : Option (List Bool) → ℕ → Bool
masked none i = true
masked (some mask) i = get_or mask i false

abbrev pub mask_fits : Option (List Bool) → ℕ → Bool
mask_fits none n = true
mask_fits (some mask) n = length mask == n

-- The message of a wrong dimension leaves out the two numbers.
unfoldable pub search_knn :
    {F : Type 0} → Floats F → FlatIndex F → List F → ℕ → Option (List Bool) → Result (List ℕ)
unfolding scored nearest
search_knn floats index query k filter_mask =
    if not (length query == index.dim)
    then err (invalid_argument "query dim != index dim")
    else (if not (mask_fits filter_mask (length index.vectors))
        then err (invalid_argument "filter mask length mismatch")
        else (if k == 0
            then ok []
            else ok (
                map (λ s. s.1)
                  (nearest floats k
                    (scored floats (masked filter_mask) query index.ids 0 index.vectors)))))
