-- ===== src/Csr/Walk.antt =====
-- What a hop and `khop` return, as walks over the live edges.
use mathlib.Core.Logic.Iff
use gtvdb.Base.{
  ℕ, zero, suc, ◌^◌, ◌<◌, ◌≡◌, refl, sym, ap, ◌∙◌, ◌↔◌, inl, inr, true, ◌||◌, List, [], ◌∷◌, ◌++◌,
  map, arith, length, get_or, All, ltb, ◌==◌, Bool-cases,
}
use gtvdb.Base.Int.{ℤ}
use gtvdb.Base.Filter.{
  filter, any, any-append, any-filter, any-map, any-perm, any→mem, mem→any, contains, contains_iff,
}
use gtvdb.Base.Sort.{UnstableSort, sort_by}
use gtvdb.Error.{ok, Result-cases, >>=-eq-ok}
use gtvdb.Csr.{EdgeRow, Neighbor, TemporalCsr, row_lt, from_rows, neighbors, dedup, expand, khop}
use gtvdb.Csr.Slice.{to_neighbor}
use gtvdb.Csr.Lookup.{live_edge, from_rows-ok, node_count-build, neighbors_out, neighbors-from_rows}
use gtvdb.Csr.Frontier.{
  IsStrict, has_edge, Walk, frontier_of, frontier_of-IsStrict, contains-frontier_of, frontiers-cons,
}

module _ (us : UnstableSort) (n : ℕ) (rows : List EdgeRow) (csr : TemporalCsr)
    (built : from_rows us n rows ≡ ok csr) (fits : length rows < 2 ^ 32) (valid_at : ℤ) where
  -- A node whose neighbors can be read is in range.
  neighbors-ok :
      (s : ℕ) (nbs : List Neighbor)
      → neighbors csr s valid_at ≡ ok nbs
      → map to_neighbor (filter (live_edge s valid_at) (us.sort EdgeRow row_lt rows)) ≡ nbs
  neighbors-ok s nbs h =
      let (shape, _) = from_rows-ok us n rows csr built in
      let count : csr.node_count ≡ n = rw shape (node_count-build n _) in
      elim (Bool-cases (ltb s n)) [
        | inl e ↦ cc (neighbors-from_rows us n rows csr built s valid_at fits (ground arith), h)
        | inr e ↦ cc (neighbors_out csr s valid_at (ground (arith, count)), h)
      ]

  -- Its targets are those of its live edges.
  targets-neighbors :
      (s v : ℕ) (nbs : List Neighbor)
      → neighbors csr s valid_at ≡ ok nbs
      → contains v (map (λ nb. nb.dst) nbs) ≡ has_edge rows valid_at s v
  targets-neighbors s v nbs h =
      let found = filter (live_edge s valid_at) (us.sort EdgeRow row_lt rows) in
      rw (← neighbors-ok s nbs h) (
        any-map (λ x. v == x) (λ nb. nb.dst) (map to_neighbor found)
        ∙ any-map (λ (nb : Neighbor). v == nb.dst) to_neighbor found
        ∙ any-filter (λ r. v == r.dst) (live_edge s valid_at) (us.sort EdgeRow row_lt rows)
        ∙ any-perm _ (us.sort-perm EdgeRow row_lt rows))

  expand_lem :
      (current next out : List ℕ) (v : ℕ)
      → expand csr valid_at current next ≡ ok out
      → contains v out ≡ (contains v next || any (λ u. has_edge rows valid_at u v) current)
  unfolding expand
  expand_lem [] next out v h = ground arith
  expand_lem (s ∷ current) next out v h = elim (Result-cases (neighbors csr s valid_at)) [
    | inr (e, failed) ↦ absurd (ground arith)
    | inl (nbs, read) ↦ ground (
      arith,
      targets-neighbors s v nbs read,
      any-append (λ x. v == x) next (map (λ nb. nb.dst) nbs),
      expand_lem current (next ++ map (λ nb. nb.dst) nbs) out v,
    )
  ]

  frontier_lem :
      (current next : List ℕ) (v : ℕ)
      → expand csr valid_at current [] ≡ ok next
      → (contains v (frontier_of next) ≡ true) ↔ Walk rows valid_at current 1 v
  frontier_lem current next v h =
      let edges = contains-frontier_of v next ∙ expand_lem current [] next v h in
      (
        λ m.
            let (u, mu, e) = any→mem (λ u. has_edge rows valid_at u v) current (sym edges ∙ m) in
            (u, (contains_iff u current).1 mu, e),
        λ (u, start, e).
            edges
            ∙ mem→any (λ u. has_edge rows valid_at u v) u current ((contains_iff u current).0 start)
                e,
      )

  -- A walk from the frontier is a walk from the nodes before it with one edge more.
  pub Walk-suc :
      (current next : List ℕ)
      → expand csr valid_at current [] ≡ ok next
      → (k v : ℕ) → Walk rows valid_at (frontier_of next) k v ↔ Walk rows valid_at current (suc k) v
  Walk-suc current next h zero v = frontier_lem current next v h
  Walk-suc current next h (suc k) v = (
    λ (u, w, e). (u, (Walk-suc current next h k u).0 w, e),
    λ (u, w, e). (u, (Walk-suc current next h k u).1 w, e),
  )

  khop-suc :
      (current : List ℕ) (k : ℕ) (frontiers : List (List ℕ))
      → khop csr current (suc k) valid_at ≡ ok frontiers
      → (next : List ℕ) × (rest : List (List ℕ)) × (expand csr valid_at current [] ≡ ok next)
        × (khop csr (frontier_of next) k valid_at ≡ ok rest)
        × (frontiers ≡ frontier_of next ∷ rest)
  unfolding khop frontier_of
  khop-suc current k frontiers h =
      let (next, read, tail) = >>=-eq-ok (expand csr valid_at current []) _ h in
      let (rest, deep, last) = >>=-eq-ok (khop csr (dedup (sort_by ltb next)) k valid_at) _ tail in
      (next, rest, read, deep, cc)

  pub khop_lem :
      (k : ℕ) (current : List ℕ) (frontiers : List (List ℕ))
      → khop csr current k valid_at ≡ ok frontiers
      → (length frontiers ≡ k)
        × All IsStrict frontiers
        × ((i v : ℕ)
            → i < k
            → (contains v (get_or frontiers i []) ≡ true) ↔ Walk rows valid_at current (suc i) v)
  unfolding khop
  khop_lem zero current frontiers h =
      let none_left : frontiers ≡ [] = cc in rw none_left (refl, tt, λ i v lt. elim lt [ ])
  khop_lem (suc k) current frontiers h =
      let (next, rest, read, deep, shape) = khop-suc current k frontiers h in
      let (size, strict, walks) = khop_lem k (frontier_of next) rest deep in
      rw shape (
        ap suc size,
        (frontier_of-IsStrict next, strict),
        frontiers-cons (λ i v. Walk rows valid_at current (suc i) v) k (frontier_of next) rest
            (λ v. frontier_lem current next v read)
            (λ i v lt. Iff.trans (walks i v lt) (Walk-suc current next read (suc i) v)),
      )
