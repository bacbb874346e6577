-- ===== src/Engine/Rolling.antt =====
-- The rolling window functions over a partition of rows: they never panic, and answer a value per row.
use gtvdb.Base.{
  ℕ, suc, ◌≤◌, ◌≡◌, ◌⊎◌, refl, ap, Option, none, some, List, [], ◌∷◌, length, inl, inr, arith,
}
use gtvdb.Base.Int.{ℤ}
use gtvdb.Window.{Arithmetic, msum_loop, msum, mavg_loop, mavg, deltas_loop, deltas}
use gtvdb.Engine.{
  SqlError, SqlResult, done, failed, RollingOp, rolling_mavg, rolling_msum, rolling_deltas,
  at_least_one, window_size, evaluate_all,
}

SqlResult-cases :
    {A : Type 0} (r : SqlResult A) → ((v : A) × (r ≡ done v)) ⊎ ((e : SqlError) × (r ≡ failed e))
SqlResult-cases (done v) = inl (v, refl)
SqlResult-cases (failed e) = inr (e, refl)

at_least_one-le : (n : ℤ) → 1 ≤ at_least_one n
at_least_one-le (ℤ.pos n) = ground arith
at_least_one-le (ℤ.negsuc n) = omega arith

module _ {F : Type 0} (ops : Arithmetic F) where
  length-msum_loop :
      (values : List F) (n i : ℕ) (rest : List F) (s : F)
      → length (msum_loop ops values n i rest s) ≡ length rest
  unfolding msum_loop
  length-msum_loop values n i [] s = refl
  length-msum_loop values n i (v ∷ rest) s = ap suc (length-msum_loop values n (suc i) rest _)

  length-mavg_loop :
      (values : List F) (n i : ℕ) (rest : List F) (s : F)
      → length (mavg_loop ops values n i rest s) ≡ length rest
  unfolding mavg_loop
  length-mavg_loop values n i [] s = refl
  length-mavg_loop values n i (v ∷ rest) s = ap suc (length-mavg_loop values n (suc i) rest _)

  length-deltas_loop :
      (values : List F) (i : ℕ) (rest : List F)
      → length (deltas_loop ops values i rest) ≡ length rest
  unfolding deltas_loop
  length-deltas_loop values i [] = refl
  length-deltas_loop values i (v ∷ rest) = ap suc (length-deltas_loop values (suc i) rest)

  msum-some :
      (values : List F) (n : ℕ)
      → 1 ≤ n
      → msum ops values n ≡ some (msum_loop ops values n 0 values ops.nil)
  unfolding msum
  msum-some values n h = ground arith

  mavg-some :
      (values : List F) (n : ℕ)
      → 1 ≤ n
      → mavg ops values n ≡ some (mavg_loop ops values n 0 values ops.nil)
  unfolding mavg
  mavg-some values n h = ground arith

at_first : (v : Option ℤ) → 1 ≤ elim v as (λ _. ℕ) [ some n ↦ at_least_one n | none ↦ 1 ]
at_first none = omega arith
at_first (some n) = at_least_one-le n

module _ {Column : Type 0} (first_i64 : Column → SqlResult (Option ℤ)) where
  window_size-cases :
      (columns : List Column)
      → ((n : ℕ) × (window_size first_i64 columns ≡ done n) × (1 ≤ n))
        ⊎ ((e : SqlError) × (window_size first_i64 columns ≡ failed e))
  unfolding window_size
  window_size-cases [] = inl (1, refl, omega arith)
  window_size-cases (c ∷ []) = inl (1, refl, omega arith)
  window_size-cases (c ∷ arg ∷ more) = elim (SqlResult-cases (first_i64 arg)) [
    | inl (v, h) ↦ inl (_, rw h refl, at_first v)
    | inr (e, h) ↦ inr (e, rw h refl)
  ]

  abbrev pub rows : {F : Type 0} → (Column → List F) → List Column → List F
  rows extract_f64 [] = []
  rows extract_f64 (column ∷ columns) = extract_f64 column

  -- A rolling function never panics: it answers with a value for each row of its column, or with the
  -- error of reading the window's size.
  pub evaluate_all_returns :
      {F : Type 0} (ops : Arithmetic F) (extract_f64 : Column → List F) (op : RollingOp)
      (columns : List Column)
      → ((out : List F) × (evaluate_all first_i64 ops extract_f64 op columns ≡ done (some out))
          × (length out ≡ length (rows extract_f64 columns)))
        ⊎ ((e : SqlError) × (window_size first_i64 columns ≡ failed e)
            × (evaluate_all first_i64 ops extract_f64 op columns ≡ failed e))
  unfolding evaluate_all deltas
  evaluate_all_returns ops extract_f64 op [] = inl ([], refl, refl)
  evaluate_all_returns ops extract_f64 rolling_mavg (c ∷ columns) =
      elim (window_size-cases (c ∷ columns)) [
        | inl (n, h, positive) ↦ inl (
          mavg_loop ops (extract_f64 c) n 0 (extract_f64 c) ops.nil,
          rw (h, mavg-some ops (extract_f64 c) n positive) refl,
          length-mavg_loop ops (extract_f64 c) n 0 (extract_f64 c) ops.nil,
        )
        | inr (e, h) ↦ inr (e, h, rw h refl)
      ]
  evaluate_all_returns ops extract_f64 rolling_msum (c ∷ columns) =
      elim (window_size-cases (c ∷ columns)) [
        | inl (n, h, positive) ↦ inl (
          msum_loop ops (extract_f64 c) n 0 (extract_f64 c) ops.nil,
          rw (h, msum-some ops (extract_f64 c) n positive) refl,
          length-msum_loop ops (extract_f64 c) n 0 (extract_f64 c) ops.nil,
        )
        | inr (e, h) ↦ inr (e, h, rw h refl)
      ]
  evaluate_all_returns ops extract_f64 rolling_deltas (c ∷ columns) =
      inl (_, refl, length-deltas_loop ops _ 0 _)
