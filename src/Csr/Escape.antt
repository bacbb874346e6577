-- ===== src/Csr/Escape.antt =====
-- When `khop` fails: a walk leaves the range of nodes.
use gtvdb.Base.{
  ℕ, zero, suc, ◌^◌, ◌≤◌, ◌<◌, ◌≡◌, refl, sym, ◌∙◌, ◌↔◌, inl, inr, true, false, List, [], ◌∷◌, ◌++◌,
  map, arith, length, not, leb→le, ltb, leb, Bool-cases, ltb→lt, tests,
}
use gtvdb.Base.Int.{ℤ}
use gtvdb.Base.Filter.{any, any→mem, mem→any, contains_iff}
use gtvdb.Base.Sort.{UnstableSort, sort_by}
use gtvdb.Error.{ok, err, is_ok, GtvError, Result-cases}
use gtvdb.Csr.{EdgeRow, TemporalCsr, from_rows, neighbors, dedup, expand, khop}
use gtvdb.Csr.Lookup.{from_rows-ok, node_count-build, neighbors_out, neighbors-from_rows}
use gtvdb.Csr.Walk.{Walk-suc}
use gtvdb.Csr.Frontier.{Walk, frontier_of}

module _ (us : UnstableSort) (n : ℕ) (rows : List EdgeRow) (csr : TemporalCsr)
    (built : from_rows us n rows ≡ ok csr) (fits : length rows < 2 ^ 32) (valid_at : ℤ) where
  count_of_built : csr.node_count ≡ n
  count_of_built =
      let (shape, _) = from_rows-ok us n rows csr built in rw shape (node_count-build n _)

  neighbors-is_ok : (s : ℕ) → is_ok (neighbors csr s valid_at) ≡ ltb s n
  neighbors-is_ok s = elim (Bool-cases (ltb s n)) [
    | inl e ↦ rw (e, neighbors-from_rows us n rows csr built s valid_at fits (ltb→lt s n e)) refl
    | inr e ↦ rw (e, neighbors_out csr s valid_at (omega (tests, count_of_built))) refl
  ]

  -- A hop is made exactly when no node of the frontier is out of range.
  expand-is_ok :
      (current next : List ℕ)
      → is_ok (expand csr valid_at current next) ≡ not (any (λ s. leb n s) current)
  unfolding expand
  expand-is_ok [] next = refl
  expand-is_ok (s ∷ current) next = elim (Result-cases (neighbors csr s valid_at)) [
    | inr (e, failed) ↦ ground (arith, neighbors-is_ok s)
    | inl (nbs, read) ↦
        ground (arith, neighbors-is_ok s, expand-is_ok current (next ++ map (λ nb. nb.dst) nbs))
  ]

  khop-suc-is_ok :
      (current next : List ℕ) (k : ℕ)
      → expand csr valid_at current [] ≡ ok next
      → is_ok (khop csr current (suc k) valid_at) ≡ is_ok (khop csr (frontier_of next) k valid_at)
  unfolding khop frontier_of
  khop-suc-is_ok current next k h =
      rw h (elim (Result-cases (khop csr (dedup (sort_by ltb next)) k valid_at)) [
        | inl (rest, deep) ↦ rw deep
        | inr (e, failed) ↦ rw failed
      ])

  khop-suc-failed :
      (current : List ℕ) (k : ℕ) (e : GtvError)
      → expand csr valid_at current [] ≡ err e
      → is_ok (khop csr current (suc k) valid_at) ≡ false
  unfolding khop
  khop-suc-failed current k e h = rw h

  khop-zero-is_ok : (current : List ℕ) → is_ok (khop csr current 0 valid_at) ≡ true
  unfolding khop
  khop-zero-is_ok current = refl

  -- A walk of fewer than `k` live edges from the nodes to one that is out of range.
  abbrev Escapes : List ℕ → ℕ → Type 0
  Escapes current k = (i : ℕ) × (v : ℕ) × (i < k) × Walk rows valid_at current i v × (n ≤ v)

  pub khop-fails :
      (k : ℕ) (current : List ℕ) → (is_ok (khop csr current k valid_at) ≡ false) ↔ Escapes current k
  khop-fails zero current =
      (λ h. cc (khop-zero-is_ok current, h), λ (i, v, lt, w, out). elim lt [ ])
  khop-fails (suc k) current = elim (Result-cases (expand csr valid_at current [])) [
    | inr (e, failed) ↦ (
      λ h.
          let some_out : any (λ s. leb n s) current ≡ true =
            ground (arith, expand-is_ok current [], failed) in
          let (s, m, out) = any→mem (λ s. leb n s) current some_out in
          (0, s, omega arith, (contains_iff s current).1 m, leb→le n s out),
      λ h. khop-suc-failed current k e failed,
    )
    | inl (next, read) ↦
        let ih = khop-fails k (frontier_of next) in
        let same = khop-suc-is_ok current next k read in
        (
          λ h.
              let (i, v, lt, w, out) = ih.0 (sym same ∙ h) in
              (
                suc i,
                v,
                omega arith,
                (Walk-suc us n rows csr built fits valid_at current next read i v).0 w,
                out,
              ),
          λ (i, v, lt, w, out). same ∙ ih.1 (shorter next read i v lt w out),
        )
  ]
    where
      shorter :
          (next : List ℕ)
          → expand csr valid_at current [] ≡ ok next
          → (i v : ℕ) → i < suc k
          → Walk rows valid_at current i v
          → n ≤ v
          → Escapes (frontier_of next) k
      shorter next read zero v lt w out = absurd (
          ground (
            arith,
            expand-is_ok current [],
            read,
            mem→any (λ s. leb n s) v current ((contains_iff v current).0 w),
          ))
      shorter next read (suc i) v lt w out = (
        i,
        v,
        omega arith,
        (Walk-suc us n rows csr built fits valid_at current next read i v).1 w,
        out,
      )
