-- ===== src/Csr/Contract.antt =====
-- What `from_arrays`, `neighbors`, `neighbors_record_batch` and `khop` promise to their callers.
use mathlib.Core.List.Perm
use gtvdb.Base.{
  ℕ, suc, ◌^◌, ◌≤◌, ◌<◌, ◌≡◌, refl, ◌∙◌, ◌↔◌, Bool, true, false, List, [], ◌∷◌, map, Perm, arith,
  length, get_or, All, All-imp, ltb, ltb→lt,
}
use gtvdb.Base.Int.{ℤ}
use gtvdb.Base.Order.{nat_order, int_order, pair_order}
use gtvdb.Base.Filter.{filter, filter-perm, All-filter_self, All-perm, contains, length-perm}
use gtvdb.Base.Sort.{UnstableSort, IsSorted, IsSorted-filter, by_key, by_key-IsWeakOrder}
use gtvdb.Error.{ok, is_ok}
use gtvdb.Csr.{
  EdgeRow, Neighbor, TemporalCsr, key_order, row_key, row_lt, zip_rows, build, from_rows,
  from_arrays, edge_range, edge_count, neighbors, neighbors_record_batch, khop,
}
use gtvdb.Csr.Offsets.{below, below-suc, below-le-length, offsets-eq-below}
use gtvdb.Csr.Slice.{to_neighbor}
use gtvdb.Csr.Lookup.{
  live_edge, from_rows-ok, neighbors-from_rows, node_count-build, edge_count-build, edge_range_in,
}
use gtvdb.Csr.Frontier.{IsStrict, Walk}
use gtvdb.Csr.Walk.{khop_lem}
use gtvdb.Csr.Escape.{khop-fails}
use gtvdb.Csr.Input.{built_lem}
use gtvdb.Csr.Batch.{table_of, live_rows, neighbors_record_batch_lem}

-- Neighbors in the order of the sort key, which is that of `(valid_from, valid_to, dst)`.
abbrev pub neighbor_lt : Neighbor → Neighbor → Bool
neighbor_lt =
    by_key (pair_order int_order (pair_order int_order nat_order))
      λ nb. (nb.valid_from, (nb.valid_to, nb.dst))

neighbors_above :
    (s : ℕ) (t : ℤ) (r : EdgeRow) (rows : List EdgeRow)
    → r.src ≡ s
    → All (λ x. live_edge s t x ≡ true) rows
    → All (λ x. row_lt x r ≡ false) rows
    → All (λ nb. neighbor_lt nb (to_neighbor r) ≡ false) (map to_neighbor rows)
neighbors_above s t r [] e own h = tt
neighbors_above s t r (x ∷ rows) e own h = (ground arith, neighbors_above s t r rows e own.1 h.1)

neighbors-IsSorted :
    (s : ℕ) (t : ℤ) (rows : List EdgeRow)
    → All (λ x. live_edge s t x ≡ true) rows
    → IsSorted row_lt rows
    → IsSorted neighbor_lt (map to_neighbor rows)
neighbors-IsSorted s t [] own h = tt
neighbors-IsSorted s t (r ∷ rows) own h =
    (neighbors_above s t r rows (ground arith) own.1 h.0, neighbors-IsSorted s t rows own.1 h.1)

module _ (us : UnstableSort) (src dst : List ℕ) (from to : List ℤ) (type : List ℕ) (n : ℕ)
    (csr : TemporalCsr) (built : from_arrays us src dst from to type n ≡ ok csr)
    (fits : length src < 2 ^ 32) (valid_at : ℤ) where
  abbrev rows : List EdgeRow
  rows = zip_rows src dst from to type

  from_rows_built : from_rows us n rows ≡ ok csr
  from_rows_built = (built_lem us src dst from to type n csr built).0

  rows_fit : length rows < 2 ^ 32
  rows_fit = omega (arith, (built_lem us src dst from to type n csr built).1)

  -- An index built from fewer than 2^32 edges answers a node with the edges of the input that leave
  -- the node and are active at the time, each as often as the input has it, and in ascending order
  -- of `(valid_from, valid_to, dst)`.
  pub neighbors_correct :
      (s : ℕ)
      → s < n
      → (nbs : List Neighbor) × (neighbors csr s valid_at ≡ ok nbs)
        × Perm nbs (map to_neighbor (filter (live_edge s valid_at) rows))
        × IsSorted neighbor_lt nbs
  neighbors_correct s h =
      let sorted = us.sort EdgeRow row_lt rows in
      let order = us.sort-IsSorted EdgeRow row_lt (by_key-IsWeakOrder key_order row_key) rows in
      (
        map to_neighbor (filter (live_edge s valid_at) sorted),
        neighbors-from_rows us n rows csr from_rows_built s valid_at rows_fit h,
        Perm.map to_neighbor
            (filter-perm (live_edge s valid_at) (us.sort-perm EdgeRow row_lt rows)),
        neighbors-IsSorted s valid_at (filter (live_edge s valid_at) sorted)
            (All-filter_self (live_edge s valid_at) sorted)
            (IsSorted-filter row_lt (live_edge s valid_at) sorted order),
      )

  -- A batch lookup of nodes returns their live edges, one node after the other, each node's in the
  -- order of the sort key.
  pub neighbors_record_batch_correct :
      (src_nodes : List ℕ)
      → All (λ s. s < n) src_nodes
      → neighbors_record_batch csr src_nodes valid_at
        ≡ ok (table_of (live_rows us rows valid_at src_nodes))
  neighbors_record_batch_correct =
      neighbors_record_batch_lem us n rows csr from_rows_built rows_fit valid_at

  -- When `khop` returns it has `k` frontiers, each strictly ascending, and frontier `i` (from 0)
  -- holds exactly the ends of the walks of `i + 1` live edges from the seeds.
  pub khop_correct :
      (seeds : List ℕ) (k : ℕ) (frontiers : List (List ℕ)) (i v : ℕ)
      → khop csr seeds k valid_at ≡ ok frontiers
      → i < k
      → (length frontiers ≡ k)
        × All IsStrict frontiers
        × ((contains v (get_or frontiers i []) ≡ true) ↔ Walk rows valid_at seeds (suc i) v)
  khop_correct seeds k frontiers i v h lt =
      let (size, strict, walks) =
        khop_lem us n rows csr from_rows_built rows_fit valid_at k seeds frontiers h in
      (size, strict, walks i v lt)

  -- `khop` fails exactly when a walk of fewer than `k` live edges from the seeds ends at a number that
  -- is no node: the targets of edges are not checked when the index is built.
  pub khop_fails :
      (seeds : List ℕ) (k : ℕ)
      → (is_ok (khop csr seeds k valid_at) ≡ false)
        ↔ ((i : ℕ) × (v : ℕ) × (i < k) × Walk rows valid_at seeds i v × (n ≤ v))
  khop_fails seeds k = khop-fails us n rows csr from_rows_built rows_fit valid_at k seeds

  -- The index range of a node's run is in order and within the edge columns, so no read of
  -- `neighbors` is out of bounds.
  pub edge_range_bounds :
      (s : ℕ)
      → s < n
      → (start : ℕ) × (end : ℕ) × (edge_range csr s ≡ ok (start, end))
        × (start ≤ end)
        × (end ≤ edge_count csr)
  unfolding edge_count
  edge_range_bounds s h =
      let (shape, in_range) = from_rows-ok us n rows csr from_rows_built in
      let sorted = us.sort EdgeRow row_lt rows in
      let perm = us.sort-perm EdgeRow row_lt rows in
      let offset =
        offsets-eq-below n sorted
          (All-imp (λ r. ltb→lt r.src n) sorted
            (All-perm (λ r. ltb r.src n) (Perm.symm perm) in_range))
          (omega (arith, rows_fit, length-perm perm)) in
      (
        below s sorted,
        below (suc s) sorted,
        rw shape (
            edge_range_in (build n sorted) s (omega (arith, node_count-build n sorted))
            ∙ rw (offset s (omega arith), offset (suc s) (omega arith)) refl),
        omega (arith, below-suc s sorted),
        rw shape (omega (arith, below-le-length (suc s) sorted, edge_count-build n sorted)),
      )
