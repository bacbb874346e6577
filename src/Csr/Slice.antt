-- ===== src/Csr/Slice.antt =====
-- The run of a source node: rows that ascend by source are the rows below it, its own and those
-- above it, and the loop over the index range reads exactly its own.
use gtvdb.Base.{
  ◌&&◌, ℕ, suc, ◌≡◌, refl, ap, ◌∙◌, Bool, List, [], ◌∷◌, ◌++◌, map, arith, length, get_or, All-imp,
  ltb, ◌==◌, Bool-cases, inl, inr, if◌then◌else◌,
}
use mathlib.Core.List.{append_assoc}
use gtvdb.Base.Int.{ℤ, leb_ℤ, ltb_ℤ}
use gtvdb.Base.Filter.{filter, filter-none}
use gtvdb.Base.Sort.{IsSorted}
use gtvdb.Csr.{EdgeRow, Neighbor, TemporalCsr, row_lt, is_active, neighbor_at, scan_range, build}

abbrev pub is_src : ℕ → EdgeRow → Bool
is_src s r = r.src == s

abbrev pub is_live : ℤ → EdgeRow → Bool
is_live valid_at r = leb_ℤ r.valid_from valid_at && ltb_ℤ valid_at r.valid_to

abbrev pub to_neighbor : EdgeRow → Neighbor
to_neighbor r = record {
  dst = r.dst;
  edge_type = r.edge_type;
  valid_from = r.valid_from;
  valid_to = r.valid_to;
}

-- Sources ascend in rows that are sorted by the whole key.
abbrev pub SrcAscends : List EdgeRow → Type 0
SrcAscends = IsSorted (λ a b. ltb a.src b.src)

pub SrcAscends-of_IsSorted : (rows : List EdgeRow) → IsSorted row_lt rows → SrcAscends rows
SrcAscends-of_IsSorted [] h = tt
SrcAscends-of_IsSorted (r ∷ rows) h =
    (All-imp (λ y below. ground arith) rows h.0, SrcAscends-of_IsSorted rows h.1)

pub split_sorted :
    (s : ℕ) (rows : List EdgeRow)
    → SrcAscends rows
    → rows
      ≡ filter (λ r. ltb r.src s) rows ++ (filter (is_src s) rows ++ filter (λ r. ltb s r.src) rows)
split_sorted s [] h = refl
split_sorted s (r ∷ rows) h = elim (Bool-cases (ltb r.src s)) [
  | inl e ↦ ground (arith, split_sorted s rows h.1)
  | inr e ↦
      let none_below =
        filter-none (λ x. ltb x.src s) rows (All-imp (λ x below. ground arith) rows h.0) in
      elim (Bool-cases (r.src == s)) [
        | inl f ↦ ground (arith, split_sorted s rows h.1, none_below)
        | inr f ↦
            let none_equal =
              filter-none (is_src s) rows (All-imp (λ x below. ground arith) rows h.0) in
            ground (arith, split_sorted s rows h.1, none_below, none_equal)
      ]
]

get_or-map_middle {ℓ κ} :
    {A : Type ℓ} {B : Type κ} (f : A → B) (before : List A) (x : A) (after : List A) (d : B)
    → get_or (map f (before ++ x ∷ after)) (length before) d ≡ f x
get_or-map_middle f [] x after d = refl
get_or-map_middle f (y ∷ before) x after d = get_or-map_middle f before x after d

length-snoc {ℓ} : {A : Type ℓ} (xs : List A) (x : A) → length (xs ++ x ∷ []) ≡ suc (length xs)
length-snoc [] x = refl
length-snoc (y ∷ xs) x = ap suc (length-snoc xs x)

neighbor_at-build :
    (node_count : ℕ) (before : List EdgeRow) (r : EdgeRow) (after : List EdgeRow)
    → neighbor_at (build node_count (before ++ r ∷ after)) (length before) ≡ to_neighbor r
unfolding build
neighbor_at-build nc before r after = λ i. record {
  dst = get_or-map_middle (λ x. x.dst) before r after 0 i;
  edge_type = get_or-map_middle (λ x. x.edge_type) before r after 0 i;
  valid_from = get_or-map_middle (λ x. x.valid_from) before r after (ℤ.pos 0) i;
  valid_to = get_or-map_middle (λ x. x.valid_to) before r after (ℤ.pos 0) i;
}

scan_none : (csr : TemporalCsr) (valid_at : ℤ) (e : ℕ) → scan_range csr valid_at 0 e ≡ []
unfolding scan_range
scan_none csr t e = refl

-- One round of the loop, with the neighbor that it reads named.
scan_step :
    (csr : TemporalCsr) (valid_at : ℤ) (n e : ℕ) (nb : Neighbor)
    → neighbor_at csr e ≡ nb
    → scan_range csr valid_at (suc n) e ≡ (
        if is_active nb.valid_from nb.valid_to valid_at
        then nb ∷ scan_range csr valid_at n (suc e)
        else scan_range csr valid_at n (suc e))
unfolding scan_range
scan_step csr t n e nb read = rw (← read)

-- The loop over `before.len() .. before.len() + run.len()` gives the live rows of `run`.
pub scan_range_lem :
    (node_count : ℕ) (valid_at : ℤ) (before run after : List EdgeRow)
    → scan_range (build node_count (before ++ (run ++ after))) valid_at (length run) (length before)
      ≡ map to_neighbor (filter (is_live valid_at) run)
scan_range_lem nc t before [] after = scan_none (build nc (before ++ after)) t (length before)
scan_range_lem nc t before (r ∷ run) after =
    let csr = build nc (before ++ r ∷ (run ++ after)) in
    let step =
      scan_step csr t (length run) (length before) (to_neighbor r)
        (neighbor_at-build nc before r (run ++ after)) in
    let ih : scan_range csr t (length run) (suc (length before))
        ≡ map to_neighbor (filter (is_live t) run) =
      rw (append_assoc, length-snoc before r) at
        (scan_range_lem nc t (before ++ r ∷ []) run after) in
    step ∙ rw ih (elim (Bool-cases (is_live t r)) [ inl e ↦ rw e | inr e ↦ rw e ])
