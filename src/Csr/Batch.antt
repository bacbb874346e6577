-- ===== src/Csr/Batch.antt =====
-- Column tables as rows: the batch that `neighbors_record_batch` returns, row by row.
use mathlib.Core.List.{append_assoc, append-nil}
use gtvdb.Base.{
  ℕ, ◌^◌, ◌<◌, ◌≡◌, refl, sym, ap, ap₂, ◌∙◌, inl, inr, List, [], ◌∷◌, ◌++◌, map, arith, length, All,
  ==_iff, Bool-cases, flat_map,
}
use gtvdb.Base.Int.{ℤ}
use gtvdb.Base.Filter.{filter}
use gtvdb.Base.Sort.{UnstableSort}
use gtvdb.Error.{ok}
use gtvdb.Table.{EdgeTable}
use gtvdb.Csr.{
  EdgeRow, Neighbor, TemporalCsr, row_lt, zip_rows, from_rows, push_neighbors, batch_loop,
  neighbors_record_batch,
}
use gtvdb.Csr.Slice.{to_neighbor}
use gtvdb.Csr.Lookup.{live_edge, neighbors-from_rows}

-- The table whose rows are `rows`.
abbrev pub table_of : List EdgeRow → EdgeTable
table_of rows = record {
  src = map (λ r. r.src) rows;
  dst = map (λ r. r.dst) rows;
  edge_type = map (λ r. r.edge_type) rows;
  valid_from = map (λ r. r.valid_from) rows;
  valid_to = map (λ r. r.valid_to) rows;
}

-- The rows of a table, as `from_arrays` reads them.
abbrev pub table_rows : EdgeTable → List EdgeRow
table_rows t = zip_rows t.src t.dst t.valid_from t.valid_to t.edge_type

pub table_rows-table_of : (rows : List EdgeRow) → table_rows (table_of rows) ≡ rows
unfolding zip_rows
table_rows-table_of [] = refl
table_rows-table_of (r ∷ rows) = ap (◌∷◌ r) (table_rows-table_of rows)

abbrev pub row_of : ℕ → Neighbor → EdgeRow
row_of s nb = record {
  src = s;
  dst = nb.dst;
  valid_from = nb.valid_from;
  valid_to = nb.valid_to;
  edge_type = nb.edge_type;
}

map-push {ℓ κ μ} :
    {A : Type ℓ} {B : Type κ} {C : Type μ} (f : A → C) (g : B → A) (h : B → C) (rows : List A)
    (xs : List B)
    → ((x : B) → f (g x) ≡ h x)
    → map f rows ++ map h xs ≡ map f (rows ++ map g xs)
map-push f g h [] [] e = refl
map-push f g h [] (x ∷ xs) e = ap₂ ◌∷◌ (sym (e x)) (map-push f g h [] xs e)
map-push f g h (r ∷ rows) xs e = ap (◌∷◌ (f r)) (map-push f g h rows xs e)

pub push_neighbors-table_of :
    (s : ℕ) (nbs : List Neighbor) (rows : List EdgeRow)
    → push_neighbors s nbs (table_of rows) ≡ table_of (rows ++ map (row_of s) nbs)
unfolding push_neighbors
push_neighbors-table_of s nbs rows = λ i. record {
  src = map-push (λ r. r.src) (row_of s) (λ _. s) rows nbs (λ x. refl) i;
  dst = map-push (λ r. r.dst) (row_of s) (λ nb. nb.dst) rows nbs (λ x. refl) i;
  edge_type = map-push (λ r. r.edge_type) (row_of s) (λ nb. nb.edge_type) rows nbs (λ x. refl) i;
  valid_from = map-push (λ r. r.valid_from) (row_of s) (λ nb. nb.valid_from) rows nbs (λ x. refl) i;
  valid_to = map-push (λ r. r.valid_to) (row_of s) (λ nb. nb.valid_to) rows nbs (λ x. refl) i;
}

-- A neighbor with its source put back is the edge that it came from.
pub row_of-to_neighbor :
    (s : ℕ) (valid_at : ℤ) (rows : List EdgeRow)
    → map (row_of s) (map to_neighbor (filter (live_edge s valid_at) rows))
      ≡ filter (live_edge s valid_at) rows
row_of-to_neighbor s t [] = refl
row_of-to_neighbor s t (r ∷ rows) = elim (Bool-cases (live_edge s t r)) [
  | inl e ↦
      let same : r.src ≡ s = ground (arith, ==_iff r.src s) in
      rw e (ap₂ ◌∷◌ (λ i. record r { src = sym same i }) (row_of-to_neighbor s t rows))
  | inr e ↦ rw e (row_of-to_neighbor s t rows)
]

-- The live edges out of the sources, in the order of the sources and then of the sort key.
abbrev pub live_rows : UnstableSort → List EdgeRow → ℤ → List ℕ → List EdgeRow
live_rows us rows valid_at =
    flat_map (λ s. filter (live_edge s valid_at) (us.sort EdgeRow row_lt rows))

module _ (us : UnstableSort) (n : ℕ) (rows : List EdgeRow) (csr : TemporalCsr)
    (built : from_rows us n rows ≡ ok csr) (fits : length rows < 2 ^ 32) (valid_at : ℤ) where
  batch_loop_lem :
      (src_nodes : List ℕ) (done : List EdgeRow)
      → All (λ s. s < n) src_nodes
      → batch_loop csr valid_at src_nodes (table_of done)
        ≡ ok (table_of (done ++ live_rows us rows valid_at src_nodes))
  unfolding batch_loop
  batch_loop_lem [] done h = rw append-nil
  batch_loop_lem (s ∷ src_nodes) done h =
      let found = filter (live_edge s valid_at) (us.sort EdgeRow row_lt rows) in
      let step : push_neighbors s (map to_neighbor found) (table_of done)
          ≡ table_of (done ++ found) =
        push_neighbors-table_of s (map to_neighbor found) done
        ∙ rw (row_of-to_neighbor s valid_at (us.sort EdgeRow row_lt rows)) refl in
      rw (neighbors-from_rows us n rows csr built s valid_at fits h.0, batch_loop)
        (rw step (
          batch_loop_lem src_nodes (done ++ found) h.1
          ∙ rw (append_assoc done found (live_rows us rows valid_at src_nodes)) refl))

  pub neighbors_record_batch_lem :
      (src_nodes : List ℕ)
      → All (λ s. s < n) src_nodes
      → neighbors_record_batch csr src_nodes valid_at
        ≡ ok (table_of (live_rows us rows valid_at src_nodes))
  unfolding neighbors_record_batch
  neighbors_record_batch_lem src_nodes h = batch_loop_lem src_nodes [] h
