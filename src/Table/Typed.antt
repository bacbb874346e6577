-- ===== src/Table/Typed.antt =====
-- A table whose schema was checked can be read: what the constructors of table.rs are for.
use Prim.Native.String.{String}
use gtvdb.Base.{
  ℕ, ◌<◌, ◌≡◌, refl, ◌↔◌, inl, inr, true, false, Option, some, List, length, All, arith, Bool-cases,
  Option-cases,
}
use gtvdb.Base.Sort.{UnstableSort}
use gtvdb.Error.{Result, ok, err, is_ok, ◌>>=◌}
use gtvdb.Csr.{lengths_agree}
use gtvdb.Csr.Input.{from_arrays_succeeds}
use gtvdb.Table.{EdgeTable}
use gtvdb.Graph.{to_csr}
use gtvdb.Table.Schema.{
  Arrow, expect, position, column, ensure_column_type, new_nodes, ids, new_edges, src, dst,
  edge_type, valid_from, valid_to,
}
use gtvdb.Table.Index.{batch_to_csr}

-- What arrow documents of a record batch: the column that a field names has the type of the field and
-- as many items as the batch has rows, and `downcast_ref` to the array type of that type casts it.
abbrev pub IsCast :
    (arrow : Arrow) {T : Type 0} → arrow.DataType → (arrow.Array → Option (List T)) → Type 0
IsCast arrow {T} type downcast =
    (batch : arrow.RecordBatch) (name : String) (i : ℕ)
    → arrow.index_of batch name ≡ some i
    → arrow.same_type (arrow.data_type batch i) type ≡ true
    → (xs : List T) × (downcast (arrow.column_at batch i) ≡ some xs)
      × (length xs ≡ arrow.num_rows batch)

pub record IsArrow (arrow : Arrow) : Type 0 where
  pub uint64_cast : IsCast arrow arrow.uint64 arrow.as_uint64
  pub uint16_cast : IsCast arrow arrow.uint16 arrow.as_uint16
  pub timestamp_cast : IsCast arrow arrow.timestamp_ns arrow.as_timestamp

module _ (arrow : Arrow) (lawful : IsArrow arrow) (batch : arrow.RecordBatch) where
  -- A column whose type was ensured is cast.
  column_ensured :
      {T : Type 0} (type : arrow.DataType) (downcast : arrow.Array → Option (List T))
      → IsCast arrow type downcast
      → (name : String) → ensure_column_type arrow batch name type ≡ ok tt
      → (xs : List T) × (expect (column arrow downcast batch name) ≡ some xs)
        × (length xs ≡ arrow.num_rows batch)
  unfolding column ensure_column_type position
  column_ensured type downcast cast name h = elim (Option-cases (arrow.index_of batch name)) [
    | inl e ↦
        let refused : is_ok (ensure_column_type arrow batch name type) ≡ false =
          rw (e, is_ok) refl in
        absurd (ground (arith, refused, h))
    | inr (i, e) ↦ elim (Bool-cases (arrow.same_type (arrow.data_type batch i) type)) [
      | inl same ↦
          let found = cast batch name i e same in (found.0, rw (e, found.1, expect) refl, found.2)
      | inr other ↦
          let refused : is_ok (ensure_column_type arrow batch name type) ≡ false =
            rw (e, is_ok, other, is_ok) refl in
          absurd (ground (arith, refused, h))
    ]
  ]

  ensured :
      (r : Result (Unit {0})) (k : Unit {0} → Result arrow.RecordBatch)
      → is_ok (r >>= k) ≡ true
      → (r ≡ ok tt) × (is_ok (k tt) ≡ true)
  ensured (ok x) k h = (refl, h)
  ensured (err e) k h = absurd (ground arith)

  -- A node table that was accepted has its ids.
  pub new_nodes-ids :
      is_ok (new_nodes arrow batch) ≡ true
      → (xs : List ℕ) × (ids arrow batch ≡ some xs) × (length xs ≡ arrow.num_rows batch)
  unfolding new_nodes ids
  new_nodes-ids h =
      column_ensured arrow.uint64 arrow.as_uint64 lawful.uint64_cast "id" (ensured _ _ h).0

  -- The columns of the table, each as long as the batch.
  pub record IsRead (edges : EdgeTable) : Type 0 where
    pub src_read : src arrow batch ≡ some edges.src
    pub dst_read : dst arrow batch ≡ some edges.dst
    pub edge_type_read : edge_type arrow batch ≡ some edges.edge_type
    pub valid_from_read : valid_from arrow batch ≡ some edges.valid_from
    pub valid_to_read : valid_to arrow batch ≡ some edges.valid_to
    pub lengths :
        lengths_agree edges.src edges.dst edges.valid_from edges.valid_to edges.edge_type ≡ true

  new_edges-IsRead : is_ok (new_edges arrow batch) ≡ true → (edges : EdgeTable) × IsRead edges
  unfolding new_edges src dst edge_type valid_from valid_to
  new_edges-IsRead h =
      let a = ensured _ _ h in
      let b = ensured _ _ a.1 in
      let c = ensured _ _ b.1 in
      let d = ensured _ _ c.1 in
      let e = ensured _ _ d.1 in
      let s = column_ensured arrow.uint64 arrow.as_uint64 lawful.uint64_cast "src" a.0 in
      let t = column_ensured arrow.uint64 arrow.as_uint64 lawful.uint64_cast "dst" b.0 in
      let type = column_ensured arrow.uint16 arrow.as_uint16 lawful.uint16_cast "edge_type" c.0 in
      let from =
        column_ensured arrow.timestamp_ns arrow.as_timestamp lawful.timestamp_cast "valid_from"
          d.0 in
      let to =
        column_ensured arrow.timestamp_ns arrow.as_timestamp lawful.timestamp_cast "valid_to" e.0 in
      (
        record { src = s.0; dst = t.0; edge_type = type.0; valid_from = from.0; valid_to = to.0 },
        record {
          src_read = s.1;
          dst_read = t.1;
          edge_type_read = type.1;
          valid_from_read = from.1;
          valid_to_read = to.1;
          lengths = ground (arith, s.2, t.2, type.2, from.2, to.2);
        },
      )

  -- When arrow keeps its promises, a batch that `EdgeTable::new` accepts is a table of five columns: no
  -- accessor panics, `to_csr` builds what `from_arrays` makes of the columns, and it fails only
  -- where a source is no node.
  pub new_edges-to_csr :
      (us : UnstableSort) (node_count : ℕ)
      → is_ok (new_edges arrow batch) ≡ true
      → (edges : EdgeTable) × IsRead edges
        × (batch_to_csr arrow us batch node_count ≡ some (to_csr us edges node_count))
        × ((is_ok (to_csr us edges node_count) ≡ true) ↔ All (λ s. s < node_count) edges.src)
  unfolding batch_to_csr to_csr
  new_edges-to_csr us node_count h =
      let (edges, read) = new_edges-IsRead h in
      let built =
        from_arrays_succeeds us edges.src edges.dst edges.valid_from edges.valid_to edges.edge_type
          node_count in
      (
        edges,
        read,
        rw
            (
              read.src_read, read.dst_read, read.valid_from_read, read.valid_to_read,
              read.edge_type_read,
            )
            refl,
        (λ g. (built.0 g).1, λ all. built.1 (read.lengths, all)),
      )
