-- ===== src/Delta.antt =====
-- gtv-delta/src/delta.rs: the buffer of pending edge insertions and deletions, and its application
-- to an edge table.
pub mod Apply
pub mod View
mod Tests
use gtvdb.Base.{
  ℕ, ◌+◌, ◌≡◌, Bool, true, false, not, ◌&&◌, List, [], ◌∷◌, map, length, if◌then◌else◌, ap,
}
use gtvdb.Base.Int.{ℤ}
use gtvdb.Base.Order.{Order, nat_order, int_order, pair_order, key_order}
use gtvdb.Base.Sort.{UnstableSort, by_key}
use gtvdb.Base.OrderedSet.{set_contains, set_insert, set_remove}
use gtvdb.Csr.{SortKey, key_order as sort_key_order}
use gtvdb.Error.{Result}
use gtvdb.Table.{EdgeTable, from_vecs}

pub record DeltaEdge : Type 0 where
  pub src : ℕ
  pub dst : ℕ
  pub edge_type : ℕ
  pub valid_from : ℤ
  pub valid_to : ℤ

abbrev pub EdgeKey : Type 0
EdgeKey = ℕ × (ℕ × (ℕ × (ℤ × ℤ)))

abbrev pub edge_key : DeltaEdge → EdgeKey
edge_key e = (e.src, (e.dst, (e.edge_type, (e.valid_from, e.valid_to))))

pub edge_key-injective : (a b : DeltaEdge) → edge_key a ≡ edge_key b → a ≡ b
edge_key-injective a b h = λ i. record {
  src = (h i).0;
  dst = (h i).1.0;
  edge_type = (h i).1.1.0;
  valid_from = (h i).1.1.1.0;
  valid_to = (h i).1.1.1.1;
}

-- The derived `Ord`: the fields in order.
unfoldable pub edge_order : Order DeltaEdge
edge_order =
    key_order
      (pair_order nat_order
        (pair_order nat_order (pair_order nat_order (pair_order int_order int_order))))
      edge_key edge_key-injective

pub record DeltaBuffer : Type 0 where
  pub inserts : List DeltaEdge
  pub deletes : List DeltaEdge

abbrev pub new_buffer : DeltaBuffer
new_buffer = record { inserts = []; deletes = [] }

unfoldable pub insert : DeltaEdge → DeltaBuffer → DeltaBuffer
insert edge b = record {
  inserts = set_insert edge_order edge b.inserts;
  deletes = set_remove edge_order edge b.deletes;
}

unfoldable pub delete : DeltaEdge → DeltaBuffer → DeltaBuffer
delete edge b = record {
  inserts = set_remove edge_order edge b.inserts;
  deletes = set_insert edge_order edge b.deletes;
}

unfoldable pub len : DeltaBuffer → ℕ
len b = length b.inserts + length b.deletes

abbrev pub no_items : List DeltaEdge → Bool
no_items [] = true
no_items (_ ∷ _) = false

unfoldable pub is_empty : DeltaBuffer → Bool
is_empty b = no_items b.inserts && no_items b.deletes

unfoldable pub clear : DeltaBuffer → DeltaBuffer
clear b = new_buffer

-- The edges at the positions `0..n` of the five columns, walked in step.
unfoldable pub zip_edges : List ℕ → List ℕ → List ℕ → List ℤ → List ℤ → List DeltaEdge
zip_edges (s ∷ src) (d ∷ dst) (e ∷ type) (f ∷ from) (t ∷ to) =
    record { src = s; dst = d; edge_type = e; valid_from = f; valid_to = t }
    ∷ zip_edges src dst type from to
zip_edges _ _ _ _ _ = []

abbrev pub edges_of : EdgeTable → List DeltaEdge
edges_of t = zip_edges t.src t.dst t.edge_type t.valid_from t.valid_to

-- The snapshot's edges without a tombstone, collected in the `BTreeMap` `keep`.
unfoldable pub keep_snapshot : List DeltaEdge → List DeltaEdge → List DeltaEdge → List DeltaEdge
keep_snapshot deletes [] keep = keep
keep_snapshot deletes (e ∷ edges) keep =
    keep_snapshot deletes edges
      (if set_contains edge_order e deletes then keep else set_insert edge_order e keep)

-- `for &e in &self.inserts { keep.insert(e, ()); }`
unfoldable pub keep_inserts : List DeltaEdge → List DeltaEdge → List DeltaEdge
keep_inserts [] keep = keep
keep_inserts (e ∷ inserts) keep = keep_inserts inserts (set_insert edge_order e keep)

-- The CSR's canonical order: `(src, valid_from, valid_to, dst)`.
abbrev pub canonical_lt : DeltaEdge → DeltaEdge → Bool
canonical_lt = by_key sort_key_order λ e. (e.src, (e.valid_from, (e.valid_to, e.dst)))

unfoldable pub apply : UnstableSort → DeltaBuffer → EdgeTable → Result EdgeTable
unfolding keep_snapshot keep_inserts zip_edges
apply us b edges =
    let keep = keep_inserts b.inserts (keep_snapshot b.deletes (edges_of edges) []) in
    let ordered = us.sort DeltaEdge canonical_lt keep in
    from_vecs (map (λ e. e.src) ordered) (map (λ e. e.dst) ordered) (map (λ e. e.edge_type) ordered)
      (map (λ e. e.valid_from) ordered) (map (λ e. e.valid_to) ordered)
