-- ===== src/Csr/Tests.antt =====
-- Runs of the index on a small graph, and the contract at them.
use gtvdb.Base.{
  ℕ, ◌^◌, ◌≤◌, ◌<◌, ◌≡◌, refl, ◌↔◌, false, true, List, [], ◌∷◌, map, Perm, arith, length, get_or,
  All,
}
use gtvdb.Base.Int.{ℤ, pos}
use gtvdb.Base.Filter.{filter, contains}
use gtvdb.Base.Sort.{IsSorted, stable_sort, sort_by}
use gtvdb.Error.{ok, is_ok}
use gtvdb.Csr.{
  Neighbor, TemporalCsr, zip_rows, find_bad, build, from_arrays, edge_range, edge_count, neighbors,
  neighbors_record_batch, khop,
}
use gtvdb.Csr.Slice.{to_neighbor}
use gtvdb.Csr.Lookup.{live_edge}
use gtvdb.Csr.Batch.{table_of, live_rows}
use gtvdb.Csr.Frontier.{IsStrict, Walk}
use gtvdb.Csr.Contract.{
  neighbor_lt, neighbors_correct, neighbors_record_batch_correct, khop_correct, khop_fails,
  edge_range_bounds,
}

-- The edges 1 → 2 in [5, 10), 0 → 1 in [3, 10), 0 → 2 in [1, 2) and 2 → 9, which ends at no node.
abbrev src : List ℕ
src = 1 ∷ 0 ∷ 0 ∷ 2 ∷ []

abbrev dst : List ℕ
dst = 2 ∷ 1 ∷ 2 ∷ 9 ∷ []

abbrev from : List ℤ
from = pos 5 ∷ pos 3 ∷ pos 1 ∷ pos 0 ∷ []

abbrev to : List ℤ
to = pos 10 ∷ pos 10 ∷ pos 2 ∷ pos 10 ∷ []

abbrev type : List ℕ
type = 7 ∷ 7 ∷ 8 ∷ 7 ∷ []

abbrev csr : TemporalCsr
csr = record {
  node_count = 3;
  offsets = 0 ∷ 2 ∷ 3 ∷ 4 ∷ [];
  dst = 2 ∷ 1 ∷ 2 ∷ 9 ∷ [];
  valid_from = pos 1 ∷ pos 3 ∷ pos 5 ∷ pos 0 ∷ [];
  valid_to = pos 2 ∷ pos 10 ∷ pos 10 ∷ pos 10 ∷ [];
  edge_type = 8 ∷ 7 ∷ 7 ∷ 7 ∷ [];
}

built : from_arrays stable_sort src dst from to type 3 ≡ ok csr
unfolding from_arrays find_bad zip_rows build sort_by
built = refl

fits : length src < 2 ^ 32
fits = omega arith

neighbors_correct_example :
    (nbs : List Neighbor) × (neighbors csr 0 (pos 5) ≡ ok nbs)
    × Perm nbs (map to_neighbor (filter (live_edge 0 (pos 5)) (zip_rows src dst from to type)))
    × IsSorted neighbor_lt nbs
neighbors_correct_example =
    neighbors_correct stable_sort src dst from to type 3 csr built fits (pos 5) 0 (omega arith)

neighbors_record_batch_correct_example :
    neighbors_record_batch csr (0 ∷ 1 ∷ []) (pos 5)
    ≡ ok (table_of (live_rows stable_sort (zip_rows src dst from to type) (pos 5) (0 ∷ 1 ∷ [])))
neighbors_record_batch_correct_example =
    neighbors_record_batch_correct stable_sort src dst from to type 3 csr built fits (pos 5)
      (0 ∷ 1 ∷ []) (omega arith, (omega arith, tt))

abbrev hops : List (List ℕ)
hops = (1 ∷ []) ∷ (2 ∷ []) ∷ []

two_hops : khop csr (0 ∷ []) 2 (pos 5) ≡ ok hops
unfolding khop neighbors
two_hops = refl

khop_correct_example :
    (length hops ≡ 2)
    × All IsStrict hops
    × ((contains 2 (get_or hops 1 []) ≡ true)
        ↔ Walk (zip_rows src dst from to type) (pos 5) (0 ∷ []) 2 2)
khop_correct_example =
    khop_correct stable_sort src dst from to type 3 csr built fits (pos 5) (0 ∷ []) 2 hops 1 2
      two_hops (omega arith)

khop_fails_example : (is_ok (khop csr (0 ∷ []) 4 (pos 5)) ≡ false) ↔ (
    (i : ℕ) × (v : ℕ) × (i < 4)
    × Walk (zip_rows src dst from to type) (pos 5) (0 ∷ []) i v
    × (3 ≤ v))
khop_fails_example = khop_fails stable_sort src dst from to type 3 csr built fits (pos 5) (0 ∷ []) 4

edge_range_bounds_example :
    (start : ℕ) × (end : ℕ) × (edge_range csr 0 ≡ ok (start, end))
    × (start ≤ end)
    × (end ≤ edge_count csr)
edge_range_bounds_example =
    edge_range_bounds stable_sort src dst from to type 3 csr built fits (pos 5) 0 (omega arith)
