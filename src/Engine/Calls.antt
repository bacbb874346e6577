-- ===== src/Engine/Calls.antt =====
-- What the SQL functions return, by what the engine's own operations return.
use Prim.Native.String.{String}
use mathlib.Core.List.{append_assoc, append-nil}
use gtvdb.Base.{
  ℕ, ◌^◌, ◌≤◌, ◌<◌, ◌≡◌, refl, ap, ◌∙◌, ◌⊎◌, inl, inr, none, some, List, [], ◌∷◌, ◌++◌, map, length,
  Perm, leb, arith, Bool-cases, true,
}
use gtvdb.Base.Filter.{filter, filter-perm}
use gtvdb.Base.Int.{ℤ, ltb_ℤ}
use gtvdb.Base.Sort.{UnstableSort, IsSorted, IsSorted-filter, by_key-IsWeakOrder}
use gtvdb.Error.{GtvError, ok, err, node_out_of_range}
use gtvdb.Csr.{
  EdgeRow, Neighbor, TemporalCsr, key_order, row_key, row_lt, zip_rows, from_arrays, neighbors,
  edge_range, push_neighbors,
}
use gtvdb.Csr.Slice.{to_neighbor}
use gtvdb.Csr.Lookup.{live_edge, from_rows-ok, node_count-build, neighbors-from_rows}
use gtvdb.Csr.Input.{built_lem}
use gtvdb.Csr.Batch.{table_of, row_of, push_neighbors-table_of, row_of-to_neighbor}
use gtvdb.Asof.Merge.{as_of}
use gtvdb.Asof.Restore.{asof_join_correct}
use gtvdb.Engine.{
  execution, done, failed, ◌>>=◌, Expr, Scalars, expr_to_i64, expr_to_u64, push_found,
  neighbors_call, exprs_to_i64, asof_call,
}

neighbors-outside :
    (csr : TemporalCsr) (s : ℕ) (valid_at : ℤ)
    → leb csr.node_count s ≡ true
    → neighbors csr s valid_at ≡ err (node_out_of_range s)
unfolding neighbors edge_range
neighbors-outside csr s valid_at h = rw h refl

push_found-table_of :
    (s : ℕ) (nbs : List Neighbor) (rows : List EdgeRow)
    → push_found s nbs (table_of rows) ≡ table_of (rows ++ map (row_of s) nbs)
unfolding push_found push_neighbors
push_found-table_of s [] rows = rw append-nil refl
push_found-table_of s (nb ∷ nbs) rows =
    ap (push_found s nbs) (push_neighbors-table_of s (nb ∷ []) rows)
    ∙ push_found-table_of s nbs (rows ++ row_of s nb ∷ [])
    ∙ ap table_of (append_assoc rows (row_of s nb ∷ []) (map (row_of s) nbs))

module _ {S : Type 0} (scalars : Scalars S) (to_string : GtvError → String) (us : UnstableSort)
    (src dst : List ℕ) (from to : List ℤ) (type : List ℕ) (n : ℕ) (csr : TemporalCsr)
    (built : from_arrays us src dst from to type n ≡ ok csr) (fits : length src < 2 ^ 32) where
  -- For an index built from fewer than 2^32 edges and two arguments that are integers, the SQL function
  -- `neighbors` answers a node with a table of the edges of the input that leave the node and are active
  -- at the time, each as often as the input has it, in the order of the sort key. A number that is no
  -- node gives the text of the index's error.
  pub neighbors_call_correct :
      (e f : Expr S) (more : List (Expr S)) (s : ℕ) (valid_at : ℤ)
      → expr_to_u64 scalars e ≡ done s
      → expr_to_i64 scalars f ≡ done valid_at
      → ((s < n)
          × ((found : List EdgeRow) × (neighbors_call scalars to_string csr (e ∷ f ∷ more)
                ≡ done (table_of found))
              × Perm found (filter (live_edge s valid_at) (zip_rows src dst from to type))
              × IsSorted row_lt found))
        ⊎ ((n ≤ s)
            × (neighbors_call scalars to_string csr (e ∷ f ∷ more)
                ≡ failed (execution (to_string (node_out_of_range s)))))
  unfolding neighbors_call
  neighbors_call_correct e f more s valid_at h k =
      let rows = zip_rows src dst from to type in
      let sorted = us.sort EdgeRow row_lt rows in
      let (kept, size) = built_lem us src dst from to type n csr built in
      elim (Bool-cases (leb n s)) [
        | inr inside ↦
            let pushed =
              push_found-table_of s (map to_neighbor (filter (live_edge s valid_at) sorted)) [] in
            inl (
              ground arith,
              (
                filter (live_edge s valid_at) sorted,
                rw
                    (
                      h,
                      k,
                      ◌>>=◌,
                      neighbors-from_rows us n rows csr kept s valid_at (omega (arith, size))
                          (ground arith),
                    )
                    (ap done (pushed ∙ ap table_of (row_of-to_neighbor s valid_at sorted))),
                filter-perm (live_edge s valid_at) (us.sort-perm EdgeRow row_lt rows),
                IsSorted-filter row_lt (live_edge s valid_at) sorted
                    (us.sort-IsSorted EdgeRow row_lt (by_key-IsWeakOrder key_order row_key) rows),
              ),
            )
        | inl outside ↦
            let (shape, _) = from_rows-ok us n rows csr kept in
            inr (
              ground arith,
              rw
                  (
                    h,
                    k,
                    ◌>>=◌,
                    neighbors-outside csr s valid_at
                        (rw shape (rw (node_count-build n sorted) outside)),
                  )
                  refl,
            )
      ]

-- For a right side of equal columns whose times ascend, the SQL function `asof_join` answers its
-- integer arguments, in their order, with the last right value at or before each.
pub asof_call_correct :
    {S V : Type 0} (scalars : Scalars S) (us : UnstableSort) (right_times : List ℤ)
    (right_values : List V) (exprs : List (Expr S)) (left : List ℤ)
    → IsSorted ltb_ℤ right_times
    → length right_times ≡ length right_values
    → exprs_to_i64 scalars exprs ≡ done left
    → asof_call scalars us right_times right_values exprs
      ≡ done (some (left, map (λ t. as_of t right_times right_values none) left))
unfolding asof_call
asof_call_correct scalars us right_times right_values exprs left ascend size h =
    rw (h, asof_join_correct us left right_times right_values ascend size) refl
