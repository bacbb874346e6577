-- ===== src/Chunk.antt =====
-- gtv-core/src/chunk.rs: a columnar chunk of edges. The message of a failed validation leaves out the
-- five lengths that the code prints behind it.
mod Tests
use gtvdb.Base.{
  ℕ, ◌≡◌, ◌<◌, ◌≤◌, ◌⊎◌, All, [], ◌∷◌, ◌++◌, refl, Bool, true, false, not, ◌||◌, List, length, ◌==◌,
  if◌then◌else◌, arith, Bool-cases, inl, inr,
}
use gtvdb.Base.Int.{ℤ}
use gtvdb.Base.Sort.{UnstableSort}
use gtvdb.Error.{is_ok-value, Result, ok, err, invalid_argument, node_out_of_range, ◌>>=◌}
use gtvdb.Csr.{TemporalCsr, from_arrays, lengths_agree}
use gtvdb.Csr.Input.{
  Agree, Agree-of_test, test-of_Agree, first_outside, from_arrays_succeeds, from_arrays_reports,
}

pub record TemporalEdgeChunk : Type 0 where
  pub src_nodes : List ℕ
  pub dst_nodes : List ℕ
  pub valid_from : List ℤ
  pub valid_to : List ℤ
  pub edge_type : List ℕ

unfoldable pub len : TemporalEdgeChunk → ℕ
len c = length c.src_nodes

unfoldable pub validate : TemporalEdgeChunk → Result (Unit {0})
validate c =
    let n = length c.src_nodes in
    if not (length c.dst_nodes == n)
      || not (length c.valid_from == n)
      || not (length c.valid_to == n)
      || not (length c.edge_type == n)
    then err (invalid_argument "TemporalEdgeChunk columns have mismatched lengths")
    else ok tt

unfoldable pub to_csr : UnstableSort → TemporalEdgeChunk → ℕ → Result TemporalCsr
unfolding validate
to_csr us c node_count = do
  _ ← validate c
  from_arrays us c.src_nodes c.dst_nodes c.valid_from c.valid_to c.edge_type node_count

-- All columns of the chunk are as long as the first.
abbrev pub IsRectangular : TemporalEdgeChunk → Type 0
IsRectangular c = Agree c.src_nodes c.dst_nodes c.valid_from c.valid_to c.edge_type

validate_ok :
    (c : TemporalEdgeChunk)
    → lengths_agree c.src_nodes c.dst_nodes c.valid_from c.valid_to c.edge_type ≡ true
    → validate c ≡ ok tt
unfolding validate
validate_ok c h = ground arith

validate_err :
    (c : TemporalEdgeChunk)
    → lengths_agree c.src_nodes c.dst_nodes c.valid_from c.valid_to c.edge_type ≡ false
    → validate c ≡ err (invalid_argument "TemporalEdgeChunk columns have mismatched lengths")
unfolding validate
validate_err c h = ground arith

-- `to_csr` of a chunk whose columns differ in length reports the chunk, whatever its sources. When the
-- columns agree, either all sources are nodes and it builds an index, or it reports the first source that
-- is no node.
pub to_csr_outcome :
    (us : UnstableSort) (c : TemporalEdgeChunk) (n : ℕ)
    → ((¬ IsRectangular c)
        × (to_csr us c n
            ≡ err (invalid_argument "TemporalEdgeChunk columns have mismatched lengths")))
      ⊎ (IsRectangular c
          × All (λ s. s < n) c.src_nodes
          × ((csr : TemporalCsr) × (to_csr us c n ≡ ok csr)))
      ⊎ (IsRectangular c
          × ((before : List ℕ) × (bad : ℕ) × (after : List ℕ) × (c.src_nodes
                ≡ before ++ bad ∷ after)
              × All (λ s. s < n) before
              × (n ≤ bad)
              × (to_csr us c n ≡ err (node_out_of_range bad))))
unfolding to_csr
to_csr_outcome us c n =
    let columns = test-of_Agree c.src_nodes c.dst_nodes c.valid_from c.valid_to c.edge_type in
    elim (Bool-cases (lengths_agree c.src_nodes c.dst_nodes c.valid_from c.valid_to c.edge_type)) [
      | inr e ↦ inl (λ a. ground (arith, e, columns a), rw (validate_err c e) refl)
      | inl e ↦
          let same = Agree-of_test c.src_nodes c.dst_nodes c.valid_from c.valid_to c.edge_type e in
          elim (first_outside n c.src_nodes) [
            | inl all ↦
                let built =
                  is_ok-value
                    (from_arrays us c.src_nodes c.dst_nodes c.valid_from c.valid_to c.edge_type n)
                    ((from_arrays_succeeds us c.src_nodes c.dst_nodes c.valid_from c.valid_to
                        c.edge_type n).1
                      (e, all)) in
                inr (inl (same, all, (built.0, rw (validate_ok c e) built.1)))
            | inr (before, bad, after, shape, inside, outside) ↦ inr (
                inr (
                  same,
                  (
                    before,
                    bad,
                    after,
                    shape,
                    inside,
                    outside,
                    rw (validate_ok c e) (
                        from_arrays_reports us c.src_nodes c.dst_nodes c.valid_from c.valid_to
                          c.edge_type n before bad after e shape inside outside),
                  ),
                ))
          ]
    ]
