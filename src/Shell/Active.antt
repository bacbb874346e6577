-- ===== src/Shell/Active.antt =====
-- gtv-cli/src/main.rs: edges_active_at, and the snapshots that `build_demo` seeds the time-travel store with.
-- The kernels of arrow go down the columns; all columns of a table are of one length.
use gtvdb.Base.{◌≡◌, refl, ap, Bool, ◌&&◌, List, [], ◌∷◌, Bool-cases, inl, inr, if◌then◌else◌}
use gtvdb.Base.Int.{ℤ, ltb_ℤ, leb_ℤ}
use gtvdb.Base.Filter.{filter}
use gtvdb.Table.{EdgeTable}
use gtvdb.Csr.{is_active}
use gtvdb.Delta.{DeltaEdge}
use gtvdb.Delta.Apply.{table_with}

-- `lt_eq(from, t)`, `gt(to, t)` and their `and`.
unfoldable pub active_mask : List ℤ → List ℤ → ℤ → List Bool
active_mask (f ∷ from) (t ∷ to) at = (leb_ℤ f at && ltb_ℤ at t) ∷ active_mask from to at
active_mask _ _ at = []

-- `filter_record_batch` on a column
abbrev pub filter_column {ℓ} : {A : Type ℓ} → List Bool → List A → List A
filter_column (keep ∷ mask) (x ∷ xs) =
    if keep then x ∷ filter_column mask xs else filter_column mask xs
filter_column _ _ = []

unfoldable pub edges_active_at : EdgeTable → ℤ → EdgeTable
unfolding active_mask
edges_active_at edges t =
    let mask = active_mask edges.valid_from edges.valid_to t in
    record {
      src = filter_column mask edges.src;
      dst = filter_column mask edges.dst;
      edge_type = filter_column mask edges.edge_type;
      valid_from = filter_column mask edges.valid_from;
      valid_to = filter_column mask edges.valid_to;
    }

abbrev pub is_live : ℤ → DeltaEdge → Bool
is_live t e = is_active e.valid_from e.valid_to t

abbrev onto_table : DeltaEdge → EdgeTable → EdgeTable
onto_table e edges = record {
  src = e.src ∷ edges.src;
  dst = e.dst ∷ edges.dst;
  edge_type = e.edge_type ∷ edges.edge_type;
  valid_from = e.valid_from ∷ edges.valid_from;
  valid_to = e.valid_to ∷ edges.valid_to;
}

-- The snapshot of a table of edges at a time is the table of the edges that are active then, in their order.
pub edges_active_at-table_with :
    (es : List DeltaEdge) (t : ℤ)
    → edges_active_at (table_with es) t ≡ table_with (filter (is_live t) es)
unfolding edges_active_at
edges_active_at-table_with [] t = refl
edges_active_at-table_with (e ∷ es) t = elim (Bool-cases (is_live t e)) [
  | inl live ↦ rw live (ap (onto_table e) (edges_active_at-table_with es t))
  | inr dead ↦ rw dead (edges_active_at-table_with es t)
]
