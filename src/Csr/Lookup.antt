-- ===== src/Csr/Lookup.antt =====
-- `from_arrays` and `neighbors` together: what a built index answers, on every branch.
use mathlib.Core.List.Perm
use gtvdb.Base.{
  ℕ, suc, ◌-◌, ◌^◌, ◌≤◌, ◌<◌, ◌≡◌, refl, sym, ap, ◌∙◌, inl, inr, Bool, true, ◌&&◌, none, List, [],
  ◌∷◌, map, arith, length, get_or, All, All-imp, ltb, leb, Bool-cases, Option-cases, ltb→lt, subst,
  length-map,
}
use gtvdb.Base.Int.{ℤ}
use gtvdb.Base.Filter.{filter, filter-filter, length-perm, All-perm, count_p}
use gtvdb.Base.Sort.{UnstableSort, IsSorted, by_key-IsWeakOrder}
use gtvdb.Error.{ok, err, node_out_of_range}
use gtvdb.Csr.{
  EdgeRow, TemporalCsr, key_order, row_key, row_lt, find_bad, from_rows, build, edge_count,
  edge_range, scan_range, neighbors,
}
use gtvdb.Csr.Offsets.{at, below-suc, offsets-eq-below}
use gtvdb.Csr.Slice.{
  is_src, is_live, to_neighbor, SrcAscends-of_IsSorted, split_sorted, scan_range_lem,
}

-- The edges out of `s` that are active at `valid_at`.
abbrev pub live_edge : ℕ → ℤ → EdgeRow → Bool
live_edge s valid_at r = is_src s r && is_live valid_at r

find_bad-none :
    (n : ℕ) (rows : List EdgeRow) → find_bad n rows ≡ none → All (λ r. ltb r.src n ≡ true) rows
unfolding find_bad
find_bad-none n [] h = tt
find_bad-none n (r ∷ rows) h = elim (Bool-cases (leb n r.src)) [
  | inl e ↦ absurd (ground arith)
  | inr e ↦ (ground arith, find_bad-none n rows (ground arith))
]

-- A successful build saw only sources in range, and is `build` of the sorted rows.
pub from_rows-ok :
    (us : UnstableSort) (n : ℕ) (rows : List EdgeRow) (csr : TemporalCsr)
    → from_rows us n rows ≡ ok csr
    → (csr ≡ build n (us.sort EdgeRow row_lt rows)) × All (λ r. ltb r.src n ≡ true) rows
unfolding from_rows
from_rows-ok us n rows csr h = elim (Option-cases (find_bad n rows)) [
  | inl e ↦ (ground arith, find_bad-none n rows e)
  | inr (bad, e) ↦ absurd (ground arith)
]

at-count : (s : ℕ) (rows : List EdgeRow) → at (suc s) rows ≡ count_p (is_src s) rows
at-count s [] = refl
at-count s (r ∷ rows) = ground (arith, at-count s rows)

pub edge_range_in :
    (csr : TemporalCsr) (s : ℕ)
    → s < csr.node_count
    → edge_range csr s ≡ ok (get_or csr.offsets s 0, get_or csr.offsets (suc s) 0)
unfolding edge_range
edge_range_in csr s h = ground arith

pub neighbors_in :
    (csr : TemporalCsr) (s : ℕ) (valid_at : ℤ)
    → s < csr.node_count
    → neighbors csr s valid_at
      ≡ ok (
          scan_range csr valid_at
            (get_or csr.offsets (suc s) 0 - get_or csr.offsets s 0)
            (get_or csr.offsets s 0))
unfolding neighbors
neighbors_in csr s t h = rw (edge_range_in csr s h)

pub neighbors_out :
    (csr : TemporalCsr) (s : ℕ) (valid_at : ℤ)
    → csr.node_count ≤ s
    → neighbors csr s valid_at ≡ err (node_out_of_range s)
unfolding neighbors
neighbors_out csr s t h = ground arith

pub node_count-build : (n : ℕ) (rows : List EdgeRow) → (build n rows).node_count ≡ n
unfolding build
node_count-build n rows = refl

pub edge_count-build : (n : ℕ) (rows : List EdgeRow) → edge_count (build n rows) ≡ length rows
unfolding build edge_count
edge_count-build n rows = length-map (λ r. r.dst) rows

-- On sorted rows in range the index answers with the live rows of the run, in order.
pub neighbors-build :
    (n : ℕ) (rows : List EdgeRow) (s : ℕ) (valid_at : ℤ)
    → IsSorted row_lt rows
    → All (λ r. ltb r.src n ≡ true) rows
    → length rows < 2 ^ 32
    → s < n
    → neighbors (build n rows) s valid_at
      ≡ ok (map to_neighbor (filter (live_edge s valid_at) rows))
neighbors-build n rows s t sorted in_range fits h =
    let offset = offsets-eq-below n rows (All-imp (λ r. ltb→lt r.src n) rows in_range) fits in
    let before = filter (λ r. ltb r.src s) rows in
    let run = filter (is_src s) rows in
    let start : get_or (build n rows).offsets s 0 ≡ length before = offset s (omega arith) in
    let width : get_or (build n rows).offsets (suc s) 0 - get_or (build n rows).offsets s 0
        ≡ length run =
      omega (arith, offset (suc s) (omega arith), start, below-suc s rows, at-count s rows) in
    let slice =
      subst
        (λ l.
          scan_range (build n l) t (length run) (length before)
          ≡ map to_neighbor (filter (is_live t) run))
        (sym (split_sorted s rows (SrcAscends-of_IsSorted rows sorted)))
        (scan_range_lem n t before run (filter (λ r. ltb s r.src) rows)) in
    neighbors_in (build n rows) s t (omega (arith, node_count-build n rows))
    ∙ rw (width, start)
        (ap ok (slice ∙ ap (map to_neighbor) (filter-filter (is_live t) (is_src s) rows)))

module _ (us : UnstableSort) (n : ℕ) (rows : List EdgeRow) (csr : TemporalCsr)
    (built : from_rows us n rows ≡ ok csr) where
  abbrev sorted_rows : List EdgeRow
  sorted_rows = us.sort EdgeRow row_lt rows

  -- The answer of a built index, as the live edges of the input in the order of the sort key.
  pub neighbors-from_rows :
      (s : ℕ) (valid_at : ℤ)
      → length rows < 2 ^ 32
      → s < n
      → neighbors csr s valid_at ≡ ok (map to_neighbor (filter (live_edge s valid_at) sorted_rows))
  neighbors-from_rows s t fits h =
      let (shape, in_range) = from_rows-ok us n rows csr built in
      let perm = us.sort-perm EdgeRow row_lt rows in
      rw shape (
        neighbors-build n sorted_rows s t
          (us.sort-IsSorted EdgeRow row_lt (by_key-IsWeakOrder key_order row_key) rows)
          (All-perm (λ r. ltb r.src n) (Perm.symm perm) in_range) (omega (arith, length-perm perm))
          h)
