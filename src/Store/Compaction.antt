-- ===== src/Store/Compaction.antt =====
-- Compaction keeps the logical edges, and fails exactly on an edge that leaves no node.
use gtvdb.Base.{
  ◌≡◌, refl, ◌∙◌, ◌⊎◌, inl, inr, Bool, true, false, List, [], ◌∷◌, arith, length, Bool-cases,
}
use gtvdb.Base.Sort.{UnstableSort}
use gtvdb.Error.{ok, err, GtvError, Result-cases, >>=-eq-ok}
use gtvdb.Table.{EdgeTable, NodeTable, nodes_len}
use gtvdb.Graph.{TemporalGraph, new_graph, to_csr}
use gtvdb.Delta.{
  DeltaEdge, DeltaBuffer, new_buffer, edge_order, edges_of, is_empty, clear, apply, canonical_lt,
}
use gtvdb.Delta
use gtvdb.Delta.View.{view, apply_correct}
use gtvdb.Store.{LsmStore, fold_delta, compact_now, compact_quietly, pending}

-- The edges that a reader of the store sees.
abbrev pub store_view : LsmStore → DeltaEdge → Bool
store_view s = view s.delta (edges_of s.snapshot.edges)

new_graph-edges :
    (us : UnstableSort) (nodes : NodeTable) (edges : EdgeTable) (g : TemporalGraph)
    → new_graph us nodes edges ≡ ok g
    → (g.edges ≡ edges) × (g.nodes ≡ nodes)
unfolding new_graph
new_graph-edges us nodes edges g h =
    let (csr, _, built) = >>=-eq-ok (to_csr us edges (nodes_len nodes)) _ h in ground (arith, built)

-- What a successful compaction leaves.
pub record Folded (s s' : LsmStore) : Type 0 where
  pub emptied : s'.delta ≡ new_buffer
  pub same_nodes : s'.snapshot.nodes ≡ s.snapshot.nodes
  pub same_stop : s'.stop ≡ s.stop
  pub same_handle : s'.handle ≡ s.handle
  pub same_view : (z : DeltaEdge) → store_view s' z ≡ store_view s z

pub fold_delta-Folded :
    (us : UnstableSort) (s s' : LsmStore) → fold_delta us s ≡ ok s' → Folded s s'
unfolding fold_delta clear
fold_delta-Folded us s s' h =
    let (out, applied, views, _, _, _, _) = apply_correct us s.delta s.snapshot.edges in
    let (edges, e, rest) = >>=-eq-ok (apply us s.delta s.snapshot.edges) _ h in
    let (g, built, last) = >>=-eq-ok (new_graph us s.snapshot.nodes edges) _ rest in
    let (edges_g, nodes_g) = new_graph-edges us s.snapshot.nodes edges g built in
    let table : g.edges ≡ out = edges_g ∙ cc (applied, e) in
    let shape : record s { snapshot = g; delta = new_buffer } ≡ s' = cc last in
    rw (← shape) (record {
      emptied = refl;
      same_nodes = nodes_g;
      same_stop = refl;
      same_handle = refl;
      same_view = λ z. rw table (ground (arith, views z));
    })

compact_now-empty :
    (us : UnstableSort) (s : LsmStore) → is_empty s.delta ≡ true → compact_now us s ≡ (ok tt, s)
unfolding compact_now
compact_now-empty us s h = rw h

compact_now-folded :
    (us : UnstableSort) (s s' : LsmStore)
    → is_empty s.delta ≡ false
    → fold_delta us s ≡ ok s'
    → compact_now us s ≡ (ok tt, s')
unfolding compact_now
compact_now-folded us s s' h e = rw (h, e)

compact_now-failed :
    (us : UnstableSort) (s : LsmStore) (e : GtvError)
    → is_empty s.delta ≡ false
    → fold_delta us s ≡ err e
    → compact_now us s ≡ (err e, s)
unfolding compact_now
compact_now-failed us s e h f = rw (h, f)

no_items→length : (xs : List DeltaEdge) → Delta.no_items xs ≡ true → length xs ≡ 0
no_items→length [] h = refl
no_items→length (x ∷ xs) h = cc

pending-empty : (s : LsmStore) → is_empty s.delta ≡ true → pending s ≡ 0
unfolding pending Delta.len is_empty
pending-empty s h = ground (arith, no_items→length s.delta.inserts, no_items→length s.delta.deletes)

pending-Folded : (s s' : LsmStore) → Folded s s' → pending s' ≡ 0
unfolding pending Delta.len
pending-Folded s s' f = rw f.emptied refl

-- `compact_now` either folds the delta in, and the logical edges stay as they are, or reports an
-- error, and the store stays as it is.
pub compact_now_outcome :
    (us : UnstableSort) (s : LsmStore)
    → (((compact_now us s).0 ≡ ok tt)
        × (pending (compact_now us s).1 ≡ 0)
        × ((z : DeltaEdge) → store_view (compact_now us s).1 z ≡ store_view s z))
      ⊎ ((e : GtvError) × (compact_now us s ≡ (err e, s)))
compact_now_outcome us s = elim (Bool-cases (is_empty s.delta)) [
  | inl empty ↦ rw (compact_now-empty us s empty) (inl (refl, pending-empty s empty, λ z. refl))
  | inr full ↦ elim (Result-cases (fold_delta us s)) [
    | inl (s', e) ↦
        let folded = fold_delta-Folded us s s' e in
        rw (compact_now-folded us s s' full e)
          (inl (refl, pending-Folded s s' folded, folded.same_view))
    | inr (e, f) ↦ inr (e, compact_now-failed us s e full f)
  ]
]

-- The background body does to the store what `compact_now` does.
pub compact_quietly_lem :
    (us : UnstableSort) (s : LsmStore) → compact_quietly us s ≡ (compact_now us s).1
unfolding compact_quietly compact_now
compact_quietly_lem us s = elim (Bool-cases (is_empty s.delta)) [
  | inl empty ↦ rw empty
  | inr full ↦ elim (Result-cases (fold_delta us s)) [
    | inl (s', e) ↦ rw (full, e)
    | inr (e, f) ↦ rw (full, f)
  ]
]

pub compact_now-view :
    (us : UnstableSort) (s : LsmStore) (z : DeltaEdge)
    → store_view (compact_now us s).1 z ≡ store_view s z
compact_now-view us s z = elim (compact_now_outcome us s) [
  | inl (_, _, same_view) ↦ same_view z
  | inr (e, f) ↦ rw f refl
]

pub compact_now-stop :
    (us : UnstableSort) (s : LsmStore)
    → ((compact_now us s).1.stop ≡ s.stop) × ((compact_now us s).1.handle ≡ s.handle)
compact_now-stop us s = elim (Bool-cases (is_empty s.delta)) [
  | inl empty ↦ rw (compact_now-empty us s empty) (refl, refl)
  | inr full ↦ elim (Result-cases (fold_delta us s)) [
    | inl (s', e) ↦
        let folded = fold_delta-Folded us s s' e in
        rw (compact_now-folded us s s' full e) (folded.same_stop, folded.same_handle)
    | inr (e, f) ↦ rw (compact_now-failed us s e full f) (refl, refl)
  ]
]
