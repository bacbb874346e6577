-- ===== src/Delta/View.antt =====
-- The edge set that a buffer over a snapshot stands for, and what each operation does to it.
use gtvdb.Base.{◌≡◌, ◌∙◌, Bool, false, not, ◌&&◌, ◌||◌, List, Perm, arith}
use gtvdb.Base.Filter.{any-perm}
use gtvdb.Base.Sort.{UnstableSort, IsSorted, by_key-IsWeakOrder}
use gtvdb.Base.OrderedSet.{
  IsAscending, contains-insert, contains-remove, set_insert-IsAscending, set_remove-IsAscending,
}
use gtvdb.Csr.{key_order}
use gtvdb.Error.{ok}
use gtvdb.Table.{EdgeTable}
use gtvdb.Delta.{DeltaEdge, DeltaBuffer, edge_order, insert, delete, edges_of, canonical_lt, apply}
use gtvdb.Delta.Apply.{
  contains, same, table_with, edges_of-table_with, collected, collected-IsAscending,
  contains-collected, apply_lem,
}

-- A pending insert, or an edge of the snapshot that has no tombstone.
abbrev pub view : DeltaBuffer → List DeltaEdge → DeltaEdge → Bool
view b snapshot z = contains z b.inserts || (contains z snapshot && not (contains z b.deletes))

-- After `insert` the edge is in the view, and nothing else has changed.
pub view-insert :
    (e : DeltaEdge) (b : DeltaBuffer) (snapshot : List DeltaEdge) (z : DeltaEdge)
    → view (insert e b) snapshot z ≡ (same z e || view b snapshot z)
unfolding insert
view-insert e b snapshot z =
    ground
      (arith, contains-insert edge_order z e b.inserts, contains-remove edge_order z e b.deletes)

-- After `delete` the edge is not in the view, and nothing else has changed.
pub view-delete :
    (e : DeltaEdge) (b : DeltaBuffer) (snapshot : List DeltaEdge) (z : DeltaEdge)
    → view (delete e b) snapshot z ≡ (not (same z e) && view b snapshot z)
unfolding delete
view-delete e b snapshot z =
    ground
      (arith, contains-remove edge_order z e b.inserts, contains-insert edge_order z e b.deletes)

-- `insert` puts the edge into the view and `delete` takes it out, and of every other edge the view says
-- what it said before.
pub operations-view :
    (e : DeltaEdge) (b : DeltaBuffer) (snapshot : List DeltaEdge) (z : DeltaEdge)
    → (view (insert e b) snapshot z ≡ (same z e || view b snapshot z))
      × (view (delete e b) snapshot z ≡ (not (same z e) && view b snapshot z))
operations-view e b snapshot z = (view-insert e b snapshot z, view-delete e b snapshot z)

-- The two sets ascend without duplicates and have no edge in common.
pub record IsValid (b : DeltaBuffer) : Type 0 where
  pub inserts_ascend : IsAscending edge_order b.inserts
  pub deletes_ascend : IsAscending edge_order b.deletes
  pub disjoint : (z : DeltaEdge) → (contains z b.inserts && contains z b.deletes) ≡ false

-- Both operations keep a valid buffer valid, whatever the edge.
pub operations-IsValid :
    (e : DeltaEdge) (b : DeltaBuffer) → IsValid b → IsValid (insert e b) × IsValid (delete e b)
unfolding insert delete
operations-IsValid e b v = (
  record {
    inserts_ascend = set_insert-IsAscending edge_order e b.inserts v.inserts_ascend;
    deletes_ascend = set_remove-IsAscending edge_order e b.deletes v.deletes_ascend;
    disjoint = λ z. ground (
      arith,
      v.disjoint z,
      contains-insert edge_order z e b.inserts,
      contains-remove edge_order z e b.deletes,
    );
  },
  record {
    inserts_ascend = set_remove-IsAscending edge_order e b.inserts v.inserts_ascend;
    deletes_ascend = set_insert-IsAscending edge_order e b.deletes v.deletes_ascend;
    disjoint = λ z. ground (
      arith,
      v.disjoint z,
      contains-remove edge_order z e b.inserts,
      contains-insert edge_order z e b.deletes,
    );
  },
)

-- `apply` never fails, and gives the edges of the view, each once, in the order
-- `(src, valid_from, valid_to, dst)`.
pub apply_correct :
    (us : UnstableSort) (b : DeltaBuffer) (t : EdgeTable)
    → (out : EdgeTable) × (apply us b t ≡ ok out)
      × ((z : DeltaEdge) → contains z (edges_of out) ≡ view b (edges_of t) z)
      × IsSorted canonical_lt (edges_of out)
      × (keep : List DeltaEdge) × IsAscending edge_order keep
      × Perm (edges_of out) keep
apply_correct us b t =
    let keep = collected b (edges_of t) in
    let ordered = us.sort DeltaEdge canonical_lt keep in
    let rows = edges_of-table_with ordered in
    let perm = us.sort-perm DeltaEdge canonical_lt keep in
    (
      table_with ordered,
      apply_lem us b t,
      λ z. rw rows (any-perm (λ y. same z y) perm ∙ contains-collected b (edges_of t) z),
      rw rows (
          us.sort-IsSorted DeltaEdge canonical_lt
            (by_key-IsWeakOrder key_order (λ e. (e.src, (e.valid_from, (e.valid_to, e.dst)))))
            keep),
      keep,
      collected-IsAscending b (edges_of t),
      rw rows perm,
    )
