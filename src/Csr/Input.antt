-- ===== src/Csr/Input.antt =====
-- `from_arrays` on its five columns: when it builds an index, and which source it refuses.
use gtvdb.Base.{
  ℕ, ◌≤◌, ◌<◌, ◌≡◌, refl, sym, ap, ◌∙◌, ◌↔◌, ◌⊎◌, inl, inr, true, false, Option, none, some, List,
  [], ◌∷◌, ◌++◌, map, arith, length, All, leb, Bool-cases, if◌then◌else◌, length-map,
}
use gtvdb.Base.Int.{ℤ}
use gtvdb.Base.Sort.{UnstableSort}
use gtvdb.Error.{ok, err, is_ok, node_out_of_range}
use gtvdb.Csr.{EdgeRow, TemporalCsr, zip_rows, find_bad, lengths_agree, from_rows, from_arrays}

zip_src :
    (src dst : List ℕ) (from to : List ℤ) (type : List ℕ)
    → length dst ≡ length src
    → length from ≡ length src
    → length to ≡ length src
    → length type ≡ length src
    → map (λ r. r.src) (zip_rows src dst from to type) ≡ src
unfolding zip_rows
zip_src (s ∷ src) (d ∷ dst) (f ∷ from) (t ∷ to) (e ∷ type) hd hf ht he =
    ap (◌∷◌ s)
      (zip_src src dst from to type (omega arith) (omega arith) (omega arith) (omega arith))
zip_src [] dst from to type hd hf ht he = refl
zip_src (s ∷ src) _ _ _ _ hd hf ht he = absurd (omega arith)

-- The search for a bad source, over the column.
find_src : ℕ → List ℕ → Option ℕ
find_src n [] = none
find_src n (s ∷ src) = if leb n s then some s else find_src n src

find_bad-map : (n : ℕ) (rows : List EdgeRow) → find_bad n rows ≡ find_src n (map (λ r. r.src) rows)
unfolding find_bad find_src
find_bad-map n [] = refl
find_bad-map n (r ∷ rows) = ground (arith, find_bad-map n rows)

find_src_first :
    (n : ℕ) (before : List ℕ) (bad : ℕ) (after : List ℕ)
    → All (λ s. s < n) before
    → n ≤ bad
    → find_src n (before ++ bad ∷ after) ≡ some bad
unfolding find_src
find_src_first n [] bad after h lt = ground arith
find_src_first n (b ∷ before) bad after h lt =
    ground (arith, find_src_first n before bad after h.1 lt)

find_src-none : (n : ℕ) (src : List ℕ) → (find_src n src ≡ none) ↔ All (λ s. s < n) src
unfolding find_src
find_src-none n [] = (λ _. tt, λ _. refl)
find_src-none n (s ∷ src) = ground (arith, find_src-none n src)

from_rows-is_ok :
    (us : UnstableSort) (n : ℕ) (rows : List EdgeRow)
    → (is_ok (from_rows us n rows) ≡ true) ↔ (find_bad n rows ≡ none)
unfolding from_rows
from_rows-is_ok us n rows = ground arith

-- The five columns agree in length, as numbers.
pub record Agree (src dst : List ℕ) (from to : List ℤ) (type : List ℕ) : Type 0 where
  pub dst_len : length dst ≡ length src
  pub from_len : length from ≡ length src
  pub to_len : length to ≡ length src
  pub type_len : length type ≡ length src

pub Agree-of_test :
    (src dst : List ℕ) (from to : List ℤ) (type : List ℕ)
    → lengths_agree src dst from to type ≡ true
    → Agree src dst from to type
Agree-of_test src dst from to type h = ground arith

pub test-of_Agree :
    (src dst : List ℕ) (from to : List ℤ) (type : List ℕ)
    → Agree src dst from to type
    → lengths_agree src dst from to type ≡ true
test-of_Agree src dst from to type a = ground (arith, a.dst_len, a.from_len, a.to_len, a.type_len)

-- Either every source is a node, or there is a first one that is none.
pub first_outside :
    (n : ℕ) (src : List ℕ)
    → All (λ s. s < n) src
      ⊎ ((before : List ℕ) × (bad : ℕ) × (after : List ℕ) × (src ≡ before ++ bad ∷ after)
          × All (λ s. s < n) before
          × (n ≤ bad))
first_outside n [] = inl tt
first_outside n (s ∷ src) = elim (Bool-cases (leb n s)) [
  | inl e ↦ inr ([], s, src, refl, tt, ground arith)
  | inr e ↦ elim (first_outside n src) [
    | inl all ↦ inl (ground arith, all)
    | inr (before, bad, after, shape, inside, outside) ↦
        inr (s ∷ before, bad, after, ap (◌∷◌ s) shape, (ground arith, inside), outside)
  ]
]

module _ (us : UnstableSort) (src dst : List ℕ) (from to : List ℤ) (type : List ℕ) (n : ℕ) where
  abbrev pub input_rows : List EdgeRow
  input_rows = zip_rows src dst from to type

  src-input_rows : lengths_agree src dst from to type ≡ true → map (λ r. r.src) input_rows ≡ src
  src-input_rows h =
      let a = Agree-of_test src dst from to type h in
      zip_src src dst from to type a.dst_len a.from_len a.to_len a.type_len

  from_arrays-agree :
      lengths_agree src dst from to type ≡ true
      → from_arrays us src dst from to type n ≡ from_rows us n input_rows
  unfolding from_arrays
  from_arrays-agree h = rw h

  from_arrays-disagree :
      lengths_agree src dst from to type ≡ false
      → is_ok (from_arrays us src dst from to type n) ≡ false
  unfolding from_arrays
  from_arrays-disagree h = rw h

  -- `from_arrays` succeeds exactly when the five columns agree in length and every source is a node.
  pub from_arrays_succeeds :
      (is_ok (from_arrays us src dst from to type n) ≡ true)
      ↔ ((lengths_agree src dst from to type ≡ true) × All (λ s. s < n) src)
  from_arrays_succeeds = elim (Bool-cases (lengths_agree src dst from to type)) [
    | inl h ↦
        let found = find_bad-map n input_rows ∙ ap (find_src n) (src-input_rows h) in
        ground
          (arith, from_arrays-agree h, from_rows-is_ok us n input_rows, found, find_src-none n src)
    | inr h ↦ ground (arith, from_arrays-disagree h)
  ]

  pub built_lem :
      (csr : TemporalCsr)
      → from_arrays us src dst from to type n ≡ ok csr
      → (from_rows us n input_rows ≡ ok csr) × (length input_rows ≡ length src)
  built_lem csr h = elim (Bool-cases (lengths_agree src dst from to type)) [
    | inl e ↦ (
      sym (from_arrays-agree e) ∙ h,
      sym (length-map (λ (r : EdgeRow). r.src) input_rows) ∙ ap length (src-input_rows e),
    )
    | inr e ↦ absurd (ground (arith, from_arrays-disagree e))
  ]

  -- The source that `from_arrays` reports is the first one that is no node.
  pub from_arrays_reports :
      (before : List ℕ) (bad : ℕ) (after : List ℕ)
      → lengths_agree src dst from to type ≡ true
      → src ≡ before ++ bad ∷ after
      → All (λ s. s < n) before
      → n ≤ bad
      → from_arrays us src dst from to type n ≡ err (node_out_of_range bad)
  unfolding from_rows
  from_arrays_reports before bad after h shape inside outside =
      let found =
        find_bad-map n input_rows
        ∙ ap (find_src n) (src-input_rows h ∙ shape)
        ∙ find_src_first n before bad after inside outside in
      from_arrays-agree h ∙ rw (found, from_rows) refl
