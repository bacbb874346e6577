-- ===== src/Engine/Collections.antt =====
-- gtv-engine/src/knn.rs: the table function `knn(name, query, k [, label])` over the registered
-- collections. `parse` is `str::parse::<f32>`.
use Prim.Native.String.{String}
use Prim.Native.Char.{Char, code}
use text.Mathlib.Text.{◌==◌ as str_eq}
use gtvdb.Base.{
  ℕ, suc, Bool, ◌&&◌, ◌||◌, ◌-◌, ◌%◌, ◌^◌, Option, none, some, List, [], ◌∷◌, length, leb, ◌==◌,
  if◌then◌else◌,
}
use gtvdb.Base.Int.{ℤ, pos, negsuc}
use gtvdb.Flat.{Floats}
use gtvdb.Knn.{KnnCollection, search}
use gtvdb.Engine.{
  SqlResult, done, failed, execution, ◌>>=◌, Expr, Scalars, expr_to_i64, expr_to_string,
}

-- `k as usize`: a negative number wraps around.
abbrev pub as_usize : ℤ → ℕ
as_usize (pos n) = n % 2 ^ 64
as_usize (negsuc n) = (2 ^ 64 - suc n) % 2 ^ 64

-- `char::is_whitespace`
abbrev pub is_whitespace : Char → Bool
is_whitespace c =
    let n = code c in
    (leb 9 n && leb n 13)
    || n == 32
    || n == 133
    || n == 160
    || n == 5760
    || (leb 8192 n && leb n 8202)
    || n == 8232
    || n == 8233
    || n == 8239
    || n == 8287
    || n == 12288

-- Puts a character before the first part.
abbrev pub onto_first : Char → List String → List String
onto_first c [] = String.◌∷◌ c String.[] ∷ []
onto_first c (part ∷ parts) = String.◌∷◌ c part ∷ parts

-- `split(',')`
unfoldable pub split_commas : String → List String
split_commas String.[] = String.[] ∷ []
split_commas (String.◌∷◌ c s) =
    let parts = split_commas s in if code c == 44 then String.[] ∷ parts else onto_first c parts

unfoldable pub trim_start : String → String
trim_start String.[] = String.[]
trim_start (String.◌∷◌ c s) =
    let rest = trim_start s in if is_whitespace c then rest else String.◌∷◌ c s

-- A character before a text whose end is trimmed.
abbrev pub before : Char → String → String
before c String.[] = if is_whitespace c then String.[] else String.◌∷◌ c String.[]
before c (String.◌∷◌ d s) = String.◌∷◌ c (String.◌∷◌ d s)

unfoldable pub trim_end : String → String
trim_end String.[] = String.[]
trim_end (String.◌∷◌ c s) = before c (trim_end s)

module _ {F : Type 0} (parse : String → Option F) where
  unfoldable pub parse_components : List String → SqlResult (List F)
  unfolding trim_start trim_end
  parse_components [] = done []
  parse_components (t ∷ parts) = elim (parse (trim_end (trim_start t))) [
    | none ↦ failed (execution "knn: invalid query component")
    | some x ↦ parse_components parts >>= λ xs. done (x ∷ xs)
  ]

  unfoldable pub parse_query : String → SqlResult (List F)
  unfolding parse_components split_commas
  parse_query text = parse_components (split_commas text)

-- `collections.get(&name)`
abbrev pub get_collection :
    {F : Type 0} → String → List (String × KnnCollection F) → SqlResult (KnnCollection F)
get_collection name [] = failed (execution "knn: unknown collection")
get_collection name ((known, c) ∷ collections) =
    if str_eq known name then done c else get_collection name collections

-- `self.vectors.first().map(Vec::len).unwrap_or(0)`
abbrev pub dim : {F : Type 0} → List (List F) → ℕ
dim [] = 0
dim (v ∷ _) = length v

module _ {S : Type 0} (scalars : Scalars S) where
  -- The optional fourth argument.
  unfoldable pub label_of : List (Expr S) → SqlResult (Option String)
  unfolding expr_to_string
  label_of [] = done none
  label_of (e ∷ _) = expr_to_string scalars e >>= λ label. done (some label)

  unfoldable pub knn_call :
      {F G : Type 0}
      → Floats F
      → (F → G)
      → (String → Option F)
      → List (String × KnnCollection F)
      → List (Expr S)
      → SqlResult (List (ℕ × G))
  unfolding expr_to_string expr_to_i64 label_of parse_query search
  knn_call floats to_distance parse collections [] =
      failed (execution "knn(name, query, k [, label]): missing `name`")
  knn_call floats to_distance parse collections (e ∷ []) = expr_to_string scalars e >>= λ name.
      failed (execution "knn(name, query, k [, label]): missing `query`")
  knn_call floats to_distance parse collections (e ∷ f ∷ []) = expr_to_string scalars e >>= λ name.
      expr_to_string scalars f >>= λ text.
      failed (execution "knn(name, query, k [, label]): missing `k`")
  knn_call floats to_distance parse collections (e ∷ f ∷ g ∷ more) =
      expr_to_string scalars e >>= λ name. expr_to_string scalars f >>= λ text.
      expr_to_i64 scalars g >>= λ k. label_of more >>= λ label. parse_query parse text >>= λ query.
      get_collection name collections >>= λ c.
      if length query == dim c.vectors
      then done (search floats to_distance c query (as_usize k) label)
      else failed (execution "knn: query dim != collection dim")
