-- ===== src/Chunk/Tests.antt =====
-- A chunk of two edges, of which one leaves no node of an index of two.
use gtvdb.Base.{ℕ, ◌<◌, ◌≤◌, ◌≡◌, ◌⊎◌, All, List, [], ◌∷◌, ◌++◌}
use gtvdb.Base.Int.{pos}
use gtvdb.Base.Sort.{stable_sort}
use gtvdb.Error.{ok, err, invalid_argument, node_out_of_range}
use gtvdb.Csr.{TemporalCsr}
use gtvdb.Chunk.{TemporalEdgeChunk, IsRectangular, to_csr, to_csr_outcome}

abbrev chunk : TemporalEdgeChunk
chunk = record {
  src_nodes = 0 ∷ 5 ∷ [];
  dst_nodes = 1 ∷ 0 ∷ [];
  valid_from = pos 1 ∷ pos 2 ∷ [];
  valid_to = pos 9 ∷ pos 9 ∷ [];
  edge_type = 7 ∷ 7 ∷ [];
}

to_csr_outcome_example :
    ((¬ IsRectangular chunk)
      × (to_csr stable_sort chunk 2
          ≡ err (invalid_argument "TemporalEdgeChunk columns have mismatched lengths")))
    ⊎ (IsRectangular chunk
        × All (λ s. s < 2) (0 ∷ 5 ∷ [])
        × ((csr : TemporalCsr) × (to_csr stable_sort chunk 2 ≡ ok csr)))
    ⊎ (IsRectangular chunk
        × ((before : List ℕ) × (bad : ℕ) × (after : List ℕ) × (0 ∷ 5 ∷ [] ≡ before ++ bad ∷ after)
            × All (λ s. s < 2) before
            × (2 ≤ bad)
            × (to_csr stable_sort chunk 2 ≡ err (node_out_of_range bad))))
to_csr_outcome_example = to_csr_outcome stable_sort chunk 2
