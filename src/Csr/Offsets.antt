-- ===== src/Csr/Offsets.antt =====
-- The offsets of the Temporal-CSR: after the counting loop and the prefix sums, entry `j` is the
-- number of rows whose source is below `j`, as long as the rows fit u32.
use gtvdb.Base.{
  ℕ, zero, suc, ◌+◌, ◌^◌, ◌≤◌, ◌<◌, ◌≡◌, refl, ◌∙◌, inl, inr, List, [], ◌∷◌, arith, length, get_or,
  set, replicate, All, ltb, ◌==◌, Bool-cases, length-set, length-replicate, get_or-replicate,
  get_or-set, if◌then◌else◌, ==_iff, All-imp,
}
use gtvdb.Base.Filter.{count_p}
use gtvdb.Csr.{EdgeRow, add_u32, count_sources, prefix_sums, build}

-- Rows with a source below `j`, and rows counted at entry `j`.
abbrev pub below : ℕ → List EdgeRow → ℕ
below j = count_p (λ r. ltb r.src j)

abbrev pub at : ℕ → List EdgeRow → ℕ
at j = count_p (λ r. suc r.src == j)

pub below-suc : (j : ℕ) (rows : List EdgeRow) → below (suc j) rows ≡ below j rows + at (suc j) rows
below-suc j [] = omega arith
below-suc j (r ∷ rows) = ground (arith, below-suc j rows)

pub below-zero : (rows : List EdgeRow) → below 0 rows ≡ 0
below-zero [] = refl
below-zero (r ∷ rows) = ground (arith, below-zero rows)

pub below-le-length : (j : ℕ) (rows : List EdgeRow) → below j rows ≤ length rows
below-le-length j [] = omega arith
below-le-length j (r ∷ rows) = ground (arith, below-le-length j rows)

length-count_sources :
    (rows : List EdgeRow) (offsets : List ℕ) → length (count_sources rows offsets) ≡ length offsets
unfolding count_sources
length-count_sources [] offsets = refl
length-count_sources (r ∷ rows) offsets =
    length-count_sources rows _ ∙ length-set offsets (suc r.src) _

length-prefix_sums :
    (n i : ℕ) (offsets : List ℕ) → length (prefix_sums n i offsets) ≡ length offsets
unfolding prefix_sums
length-prefix_sums zero i offsets = refl
length-prefix_sums (suc n) i offsets = length-prefix_sums n (suc i) _ ∙ length-set offsets (suc i) _

-- One round of the counting loop.
bumped : List ℕ → ℕ → List ℕ
bumped offsets s = set offsets (suc s) (add_u32 (get_or offsets (suc s) 0) 1)

bumped_lem :
    (offsets : List ℕ) (s k : ℕ)
    → suc s < length offsets
    → get_or offsets (suc s) 0 + 1 < 2 ^ 32
    → get_or (bumped offsets s) k 0 ≡ get_or offsets k 0 + (if suc s == k then 1 else 0)
unfolding bumped
bumped_lem offsets s k room fits =
    ground (arith, get_or-set offsets (suc s) k (add_u32 (get_or offsets (suc s) 0) 1) 0 room)

length-bumped : (offsets : List ℕ) (s : ℕ) → length (bumped offsets s) ≡ length offsets
unfolding bumped
length-bumped offsets s = length-set offsets (suc s) _

count_sources_lem :
    (rows : List EdgeRow) (offsets : List ℕ)
    → All (λ r. suc r.src < length offsets) rows
    → ((j : ℕ) → get_or offsets j 0 + length rows < 2 ^ 32)
    → (j : ℕ) → get_or (count_sources rows offsets) j 0 ≡ get_or offsets j 0 + at j rows
unfolding count_sources bumped
count_sources_lem [] offsets room fits j = omega arith
count_sources_lem (r ∷ rows) offsets room fits j =
    let round = λ (k : ℕ). bumped_lem offsets r.src k room.0 (omega (arith, fits (suc r.src))) in
    let ih =
      count_sources_lem rows (bumped offsets r.src) (rw (length-bumped offsets r.src) room.1)
        (λ k. ground (arith, round k, fits k)) j in
    ground (arith, ih, round j)

-- One round of the prefix sums, where entry `i` is done and entry `i + 1` is not.
prefix_sums_lem :
    (rows : List EdgeRow) (n i : ℕ) (offsets : List ℕ)
    → length rows < 2 ^ 32
    → i + n < length offsets
    → ((j : ℕ) → j ≤ i → get_or offsets j 0 ≡ below j rows)
    → ((j : ℕ) → i < j → get_or offsets j 0 ≡ at j rows)
    → (j : ℕ) → j ≤ i + n
    → get_or (prefix_sums n i offsets) j 0 ≡ below j rows
unfolding prefix_sums
prefix_sums_lem rows zero i offsets fits room done todo j h = done j (omega arith)
prefix_sums_lem rows (suc n) i offsets fits room done todo j h =
    let v = add_u32 (get_or offsets (suc i) 0) (get_or offsets i 0) in
    let write = λ (k : ℕ). get_or-set offsets (suc i) k v 0 (omega arith) in
    let value : v ≡ below (suc i) rows = omega (
      arith,
      todo (suc i) (omega arith),
      done i (omega arith),
      below-suc i rows,
      below-le-length (suc i) rows,
    ) in
    prefix_sums_lem rows n (suc i) (set offsets (suc i) v) fits
      (omega (arith, length-set offsets (suc i) v))
      (λ k le. elim (Bool-cases (suc i == k)) [
        | inl e ↦ write k ∙ rw e (value ∙ rw ((==_iff _ _).0 e))
        | inr e ↦ write k ∙ rw e (done k (ground arith))
      ])
      (λ k lt. write k ∙ ground (arith, todo k)) j (omega arith)

at-zero : (rows : List EdgeRow) → at 0 rows ≡ 0
at-zero [] = refl
at-zero (r ∷ rows) = ground (arith, at-zero rows)

-- The vector `vec![0u32; n]`.
zeros : ℕ → List ℕ
zeros n = replicate n 0

length-zeros : (n : ℕ) → length (zeros n) ≡ n
unfolding zeros
length-zeros n = length-replicate n 0

get_or-zeros : (n k : ℕ) → get_or (zeros n) k 0 ≡ 0
unfolding zeros
get_or-zeros n k = get_or-replicate n k 0

-- Entry `j` of the finished offsets.
pub offsets-eq-below :
    (node_count : ℕ) (rows : List EdgeRow)
    → All (λ r. r.src < node_count) rows
    → length rows < 2 ^ 32
    → (j : ℕ) → j ≤ node_count
    → get_or (build node_count rows).offsets j 0 ≡ below j rows
unfolding build zeros
offsets-eq-below nc rows in_range fits j h =
    let counted =
      count_sources_lem rows (zeros (suc nc))
        (All-imp (λ r lt. omega (arith, length-zeros (suc nc), lt)) rows in_range)
        (λ k. omega (arith, get_or-zeros (suc nc) k)) in
    prefix_sums_lem rows nc 0 (count_sources rows (zeros (suc nc))) fits
      (omega (arith, length-count_sources rows (zeros (suc nc)), length-zeros (suc nc)))
      (λ k le.
        let zero_k : k ≡ 0 = omega arith in
        rw zero_k (counted 0 ∙ omega (arith, at-zero rows, below-zero rows)))
      (λ k lt. counted k ∙ omega (arith, get_or-zeros (suc nc) k)) j (omega arith)

pub length-offsets :
    (node_count : ℕ) (rows : List EdgeRow) → length (build node_count rows).offsets ≡ suc node_count
unfolding build zeros
length-offsets nc rows =
    length-prefix_sums nc 0 _ ∙ length-count_sources rows (zeros (suc nc)) ∙ length-zeros (suc nc)
