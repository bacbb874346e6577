-- ===== src/Engine.antt =====
-- gtv-engine/src/expr_util.rs, graph.rs, asof.rs and udf.rs: the functions that SQL calls. Literals,
-- columns and their conversions are the SQL library's, here parameters; messages leave out the values
-- that the code prints. A panic is `none`.
pub mod Calls
pub mod Collections
pub mod Nearest
pub mod Registry
pub mod Rolling
mod Tests
use Prim.Native.String.{String}
use gtvdb.Base.{
  ℕ, Bool, true, false, Option, none, some, List, [], ◌∷◌, ◌++◌, length, ◌==◌, if◌then◌else◌, ltb,
}
use gtvdb.Base.Int.{ℤ, pos, negsuc}
use gtvdb.Base.Sort.{UnstableSort}
use gtvdb.Error.{GtvError, ok, err}
use gtvdb.Table.{EdgeTable}
use gtvdb.Csr.{Neighbor, TemporalCsr, neighbors}
use gtvdb.Asof.{asof_join}
use gtvdb.Window.{Arithmetic, msum, mavg, deltas}

-- An error of this code, or one that a library reports.
pub data SqlError : Type 0 where
  execution : String → SqlError
  library : SqlError

pub data SqlResult {ℓ} (A : Type ℓ) : Type ℓ where
  done : A → SqlResult A
  failed : SqlError → SqlResult A

infixl 5 ◌>>=◌
abbrev pub ◌>>=◌ {ℓ κ} : {V : Type ℓ} {W : Type κ} → SqlResult V → (V → SqlResult W) → SqlResult W
failed e >>= go_on = failed e
done v >>= go_on = go_on v

-- An argument of a table function.
pub data Expr (S : Type 0) : Type 0 where
  literal : S → Expr S
  compound : Expr S

-- `cast_to`, and the integer that it leaves, if any; the text of a literal that is one.
pub record Scalars (S : Type 0) : Type 0 where
  pub as_i64 : S → SqlResult (Option ℤ)
  pub as_u64 : S → SqlResult (Option ℕ)
  pub utf8 : S → Option String

abbrev pub the_integer {ℓ} : {A : Type ℓ} → Option A → SqlResult A
the_integer (some v) = done v
the_integer none = failed (execution "expected an integer literal")

-- `for nb in neighbors { .. }`: one row more at the end of the five columns for each neighbour.
unfoldable pub push_found : ℕ → List Neighbor → EdgeTable → EdgeTable
push_found src [] out = out
push_found src (nb ∷ neighbors) out = push_found src neighbors (record {
  src = out.src ++ src ∷ [];
  dst = out.dst ++ nb.dst ∷ [];
  edge_type = out.edge_type ++ nb.edge_type ∷ [];
  valid_from = out.valid_from ++ nb.valid_from ∷ [];
  valid_to = out.valid_to ++ nb.valid_to ∷ [];
})

module _ {S : Type 0} (scalars : Scalars S) where
  unfoldable pub expr_to_i64 : Expr S → SqlResult ℤ
  expr_to_i64 (literal s) = scalars.as_i64 s >>= the_integer
  expr_to_i64 compound = failed (execution "arguments must be literals")

  unfoldable pub expr_to_u64 : Expr S → SqlResult ℕ
  expr_to_u64 (literal s) = scalars.as_u64 s >>= the_integer
  expr_to_u64 compound = failed (execution "arguments must be literals")

  unfoldable pub expr_to_string : Expr S → SqlResult String
  expr_to_string (literal s) = elim (scalars.utf8 s) [
    | some text ↦ done text
    | none ↦ failed (execution "expected a string literal")
  ]
  expr_to_string compound = failed (execution "arguments must be literals")

  -- `neighbors(src, valid_at)`; `to_string` prints an error of the index.
  unfoldable pub neighbors_call :
      (GtvError → String) → TemporalCsr → List (Expr S) → SqlResult EdgeTable
  unfolding expr_to_i64 expr_to_u64 push_found
  neighbors_call to_string csr [] = failed (execution "neighbors(src, valid_at): missing `src`")
  neighbors_call to_string csr (e ∷ []) =
      expr_to_u64 e >>= λ _. failed (execution "neighbors(src, valid_at): missing `valid_at`")
  neighbors_call to_string csr (e ∷ f ∷ _) = expr_to_u64 e >>= λ src. expr_to_i64 f >>= λ valid_at.
      elim (neighbors csr src valid_at) [
        | ok nbs ↦ done (
            push_found src nbs
              (record { src = []; dst = []; edge_type = []; valid_from = []; valid_to = [] }))
        | err e ↦ failed (execution (to_string e))
      ]

  -- `args.exprs().iter().map(expr_to_i64).collect::<Result<_>>()`
  unfoldable pub exprs_to_i64 : List (Expr S) → SqlResult (List ℤ)
  unfolding expr_to_i64
  exprs_to_i64 [] = done []
  exprs_to_i64 (e ∷ exprs) = expr_to_i64 e >>= λ t. exprs_to_i64 exprs >>= λ times. done (t ∷ times)

  -- `asof_join(t0, t1, ...)`: the two columns of the answer.
  unfoldable pub asof_call :
      {V : Type 0}
      → UnstableSort
      → List ℤ
      → List V
      → List (Expr S)
      → SqlResult (Option (List ℤ × List (Option V)))
  unfolding exprs_to_i64
  asof_call us right_times right_values exprs = exprs_to_i64 exprs >>= λ left.
      done (elim (asof_join us left right_times right_values) [
        | none ↦ none
        | some matched ↦ some (left, matched)
      ])

pub data RollingOp : Type 0 where
  rolling_mavg rolling_msum rolling_deltas : RollingOp

-- `n.max(1) as usize`
abbrev pub at_least_one : ℤ → ℕ
at_least_one (pos n) = if n == 0 then 1 else n
at_least_one (negsuc n) = 1

module _ {Column : Type 0} (first_i64 : Column → SqlResult (Option ℤ)) where
  -- The size in the second column; `first_i64` is its first value, cast to an integer.
  unfoldable pub window_size : List Column → SqlResult ℕ
  window_size [] = done 1
  window_size (_ ∷ []) = done 1
  window_size (_ ∷ arg ∷ _) =
      first_i64 arg >>= λ v. done (elim v [ some n ↦ at_least_one n | none ↦ 1 ])

  unfoldable pub evaluate_all :
      {F : Type 0}
      → Arithmetic F
      → (Column → List F)
      → RollingOp
      → List Column
      → SqlResult (Option (List F))
  unfolding window_size
  evaluate_all ops extract_f64 op [] = done (some [])
  evaluate_all ops extract_f64 rolling_mavg (column ∷ values) =
      window_size (column ∷ values) >>= λ n. done (mavg ops (extract_f64 column) n)
  evaluate_all ops extract_f64 rolling_msum (column ∷ values) =
      window_size (column ∷ values) >>= λ n. done (msum ops (extract_f64 column) n)
  evaluate_all ops extract_f64 rolling_deltas (column ∷ values) =
      done (some (deltas ops (extract_f64 column)))
