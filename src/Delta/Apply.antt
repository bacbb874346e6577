-- ===== src/Delta/Apply.antt =====
-- What `apply` keeps: never an error, the inserts and the snapshot's edges without tombstone, each
-- once, in the canonical order.
use gtvdb.Base.{
  ◌≡◌, refl, ap, ◌∙◌, Bool, true, false, not, ◌&&◌, ◌||◌, List, [], ◌∷◌, map, arith, length,
  length-map, Bool-cases, inl, inr, ==_iff,
}
use gtvdb.Base.Order.{eqb, eqb_iff}
use gtvdb.Base.Sort.{UnstableSort}
use gtvdb.Base.OrderedSet.{
  set_contains, set_insert, IsAscending, contains-insert, set_insert-IsAscending,
}
use gtvdb.Error.{ok}
use gtvdb.Table.{EdgeTable, from_vecs}
use gtvdb.Delta.{
  DeltaEdge, DeltaBuffer, edge_order, zip_edges, edges_of, keep_snapshot, keep_inserts,
  canonical_lt, apply,
}

abbrev pub contains : DeltaEdge → List DeltaEdge → Bool
contains = set_contains edge_order

abbrev pub same : DeltaEdge → DeltaEdge → Bool
same = eqb edge_order

-- The table whose edges are `es`.
abbrev pub table_with : List DeltaEdge → EdgeTable
table_with es = record {
  src = map (λ e. e.src) es;
  dst = map (λ e. e.dst) es;
  edge_type = map (λ e. e.edge_type) es;
  valid_from = map (λ e. e.valid_from) es;
  valid_to = map (λ e. e.valid_to) es;
}

pub edges_of-table_with : (es : List DeltaEdge) → edges_of (table_with es) ≡ es
unfolding zip_edges
edges_of-table_with [] = refl
edges_of-table_with (e ∷ es) = ap (◌∷◌ e) (edges_of-table_with es)

from_vecs-columns :
    (es : List DeltaEdge)
    → from_vecs
        (map (λ e. e.src) es)
        (map (λ e. e.dst) es)
        (map (λ e. e.edge_type) es)
        (map (λ e. e.valid_from) es)
        (map (λ e. e.valid_to) es)
      ≡ ok (table_with es)
unfolding from_vecs
from_vecs-columns es =
    rw
      (
        length-map (λ (e : DeltaEdge). e.src) es,
        length-map (λ (e : DeltaEdge). e.dst) es,
        length-map (λ (e : DeltaEdge). e.edge_type) es,
        length-map (λ (e : DeltaEdge). e.valid_from) es,
        length-map (λ (e : DeltaEdge). e.valid_to) es,
        (==_iff (length es) (length es)).1 refl,
      )
      refl

-- An edge that equals a tombstone is one.
same→eq : (z e : DeltaEdge) → same z e ≡ true → z ≡ e
same→eq z e = (eqb_iff edge_order z e).0

dead_edge :
    (k s c d : Bool) → (s ≡ true → d ≡ true) → (k || (c && not d)) ≡ (k || ((s || c) && not d))
dead_edge k true c d h = rw (h refl) (ground arith)
dead_edge k false c d h = refl

live_edge :
    (k s c d : Bool)
    → (s ≡ true → d ≡ false)
    → ((s || k) || (c && not d)) ≡ (k || ((s || c) && not d))
live_edge k true c d h = rw (h refl) (ground arith)
live_edge k false c d h = refl

or_rotate : (i s k : Bool) → (i || (s || k)) ≡ ((s || i) || k)
or_rotate i s k = ground arith

contains-keep_snapshot :
    (z : DeltaEdge) (deletes edges keep : List DeltaEdge)
    → contains z (keep_snapshot deletes edges keep)
      ≡ (contains z keep || (contains z edges && not (contains z deletes)))
unfolding keep_snapshot
contains-keep_snapshot z deletes [] keep = ground arith
contains-keep_snapshot z deletes (e ∷ edges) keep = elim (Bool-cases (contains e deletes)) [
  | inl dead ↦ rw dead (
      contains-keep_snapshot z deletes edges keep
      ∙ dead_edge (contains z keep) (same z e) (contains z edges) (contains z deletes)
          (λ h. rw (same→eq z e h) dead))
  | inr alive ↦ rw alive (
      contains-keep_snapshot z deletes edges (set_insert edge_order e keep)
      ∙ rw (contains-insert edge_order z e keep) (
          live_edge (contains z keep) (same z e) (contains z edges) (contains z deletes)
            (λ h. rw (same→eq z e h) alive)))
]

contains-keep_inserts :
    (z : DeltaEdge) (inserts keep : List DeltaEdge)
    → contains z (keep_inserts inserts keep) ≡ (contains z inserts || contains z keep)
unfolding keep_inserts
contains-keep_inserts z [] keep = refl
contains-keep_inserts z (e ∷ inserts) keep =
    contains-keep_inserts z inserts (set_insert edge_order e keep)
    ∙ rw (contains-insert edge_order z e keep)
        (or_rotate (contains z inserts) (same z e) (contains z keep))

keep_snapshot-IsAscending :
    (deletes edges keep : List DeltaEdge)
    → IsAscending edge_order keep
    → IsAscending edge_order (keep_snapshot deletes edges keep)
unfolding keep_snapshot
keep_snapshot-IsAscending deletes [] keep h = h
keep_snapshot-IsAscending deletes (e ∷ edges) keep h = elim (Bool-cases (contains e deletes)) [
  | inl dead ↦ rw dead (keep_snapshot-IsAscending deletes edges keep h)
  | inr alive ↦ rw alive (
      keep_snapshot-IsAscending deletes edges (set_insert edge_order e keep)
        (set_insert-IsAscending edge_order e keep h))
]

keep_inserts-IsAscending :
    (inserts keep : List DeltaEdge)
    → IsAscending edge_order keep
    → IsAscending edge_order (keep_inserts inserts keep)
unfolding keep_inserts
keep_inserts-IsAscending [] keep h = h
keep_inserts-IsAscending (e ∷ inserts) keep h =
    keep_inserts-IsAscending inserts (set_insert edge_order e keep)
      (set_insert-IsAscending edge_order e keep h)

-- The edges that `apply` collects, before it sorts them.
pub collected : DeltaBuffer → List DeltaEdge → List DeltaEdge
collected b edges = keep_inserts b.inserts (keep_snapshot b.deletes edges [])

pub collected-IsAscending :
    (b : DeltaBuffer) (edges : List DeltaEdge) → IsAscending edge_order (collected b edges)
unfolding collected
collected-IsAscending b edges =
    keep_inserts-IsAscending b.inserts _ (keep_snapshot-IsAscending b.deletes edges [] tt)

pub contains-collected :
    (b : DeltaBuffer) (edges : List DeltaEdge) (z : DeltaEdge)
    → contains z (collected b edges)
      ≡ (contains z b.inserts || (contains z edges && not (contains z b.deletes)))
unfolding collected
contains-collected b edges z =
    contains-keep_inserts z b.inserts (keep_snapshot b.deletes edges [])
    ∙ ap (◌||◌ (contains z b.inserts)) (contains-keep_snapshot z b.deletes edges [])

pub apply_lem :
    (us : UnstableSort) (b : DeltaBuffer) (t : EdgeTable)
    → apply us b t ≡ ok (table_with (us.sort DeltaEdge canonical_lt (collected b (edges_of t))))
unfolding apply collected
apply_lem us b t = from_vecs-columns _
