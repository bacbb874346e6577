-- ===== src/Shell/Seeds.antt =====
-- gtv-cli/src/main.rs: the snapshots of the edges that `build_demo` seeds the time-travel store with. All
-- snapshots have the schema of the one table.
use mathlib.Core.List.{append-nil, append_assoc, map-append}
use gtvdb.Base.{
  ◌≡◌, refl, sym, ap, ◌∙◌, subst, true, false, Option, none, some, Option-cases, List, [], ◌∷◌,
  ◌++◌, map, All, Bool-cases, inl, inr,
}
use gtvdb.Base.Int.{ℤ, leb_ℤ}
use gtvdb.Base.Order.{int_order}
use gtvdb.Base.Sort.{IsSorted, sort_by, sort_by-sorted, by_key-IsWeakOrder}
use gtvdb.Table.{EdgeTable}
use gtvdb.Snapshot.{
  StorageResult, ok, err, to_option, Snapshot, TableVersions, SnapshotStore, find_last,
  timestamp_lt, put, push, entry, insert, as_of,
}
use gtvdb.Snapshot.Reads.{batches_of, versions_of, as_of_lem, entry-versions, versions_of-put}
use gtvdb.Base.Filter.{filter}
use gtvdb.Delta.{DeltaEdge}
use gtvdb.Delta.Apply.{table_with}
use gtvdb.Shell.Active.{edges_active_at, is_live, edges_active_at-table_with}

unfoldable pub seed_snapshots :
    EdgeTable
    → List ℤ
    → SnapshotStore EdgeTable (Unit {0})
    → StorageResult (Unit {0}) × SnapshotStore EdgeTable (Unit {0})
seed_snapshots edges [] store = (ok tt, store)
seed_snapshots edges (t ∷ times) store =
    let (inserted, store') =
      insert (λ _. tt) (λ _ _. true) "edges" t (edges_active_at edges t ∷ []) store in
    elim inserted [ ok _ ↦ seed_snapshots edges times store' | err e ↦ (err e, store') ]

module _ (edges : EdgeTable) where
  abbrev snap : ℤ → Snapshot EdgeTable
  snap t = record { timestamp = t; batches = edges_active_at edges t ∷ [] }

  IsSorted-snap :
      (times : List ℤ) → IsSorted int_order.lt times → IsSorted timestamp_lt (map snap times)
  IsSorted-snap [] h = tt
  IsSorted-snap (t ∷ times) h = (later times h.0, IsSorted-snap times h.1)
    where
      later :
          (xs : List ℤ)
          → All (λ y. int_order.lt y t ≡ false) xs
          → All (λ s. timestamp_lt s (snap t) ≡ false) (map snap xs)
      later [] k = tt
      later (x ∷ xs) k = (k.0, later xs k.1)

  insert-snap :
      (before : List ℤ) (t : ℤ) (store : SnapshotStore EdgeTable (Unit {0}))
      → versions_of "edges" store ≡ map snap before
      → IsSorted int_order.lt (before ++ t ∷ [])
      → (store' : SnapshotStore EdgeTable (Unit {0})) × (insert
            (λ _. tt)
            (λ _ _. true)
            "edges"
            t
            (edges_active_at edges t ∷ [])
            store
          ≡ (ok tt, store'))
        × (versions_of "edges" store' ≡ map snap (before ++ t ∷ []))
  unfolding insert push
  insert-snap before t store shape sorted =
      let v : TableVersions EdgeTable (Unit {0}) = entry "edges" tt store in
      let pushed = push t (edges_active_at edges t ∷ []) v in
      let listed : v.snapshots ++ snap t ∷ [] ≡ map snap (before ++ t ∷ []) =
        ap (λ xs. xs ++ snap t ∷ []) (entry-versions "edges" tt store ∙ shape)
        ∙ sym (map-append snap before (t ∷ [])) in
      let ordered : sort_by timestamp_lt (v.snapshots ++ snap t ∷ [])
          ≡ map snap (before ++ t ∷ []) =
        ap (sort_by timestamp_lt) listed
        ∙ sort_by-sorted timestamp_lt (by_key-IsWeakOrder int_order (λ s. s.timestamp))
            (map snap (before ++ t ∷ [])) (IsSorted-snap (before ++ t ∷ []) sorted) in
      (put "edges" pushed store, refl, versions_of-put "edges" "edges" pushed store ∙ ordered)

  All-front : (P : ℤ → Type 0) (xs ys : List ℤ) → All P (xs ++ ys) → All P xs
  All-front P [] ys h = tt
  All-front P (x ∷ xs) ys h = (h.0, All-front P xs ys h.1)

  IsSorted-front : (xs ys : List ℤ) → IsSorted int_order.lt (xs ++ ys) → IsSorted int_order.lt xs
  IsSorted-front [] ys h = tt
  IsSorted-front (x ∷ xs) ys h = (All-front _ xs ys h.0, IsSorted-front xs ys h.1)

  seed_step :
      (times : List ℤ) (t : ℤ) (store store' : SnapshotStore EdgeTable (Unit {0}))
      → insert (λ _. tt) (λ _ _. true) "edges" t (edges_active_at edges t ∷ []) store
        ≡ (ok tt, store')
      → seed_snapshots edges (t ∷ times) store ≡ seed_snapshots edges times store'
  unfolding seed_snapshots
  seed_step times t store store' h =
      ap
        (λ r. elim r.0 as (λ _. StorageResult (Unit {0}) × SnapshotStore EdgeTable (Unit {0})) [
          | ok _ ↦ seed_snapshots edges times r.1
          | err e ↦ (err e, r.1)
        ])
        h

  seed_after :
      (times before : List ℤ) (store : SnapshotStore EdgeTable (Unit {0}))
      → versions_of "edges" store ≡ map snap before
      → IsSorted int_order.lt (before ++ times)
      → (store' : SnapshotStore EdgeTable (Unit {0})) × (seed_snapshots edges times store
          ≡ (ok tt, store'))
        × (versions_of "edges" store' ≡ map snap (before ++ times))
  unfolding seed_snapshots
  seed_after [] before store shape sorted =
      (store, refl, shape ∙ ap (map snap) (sym (append-nil before)))
  seed_after (t ∷ times) before store shape sorted =
      let joined = append_assoc before (t ∷ []) times in
      let all : IsSorted int_order.lt ((before ++ t ∷ []) ++ times) =
        subst (IsSorted int_order.lt) (sym joined) sorted in
      let one = insert-snap before t store shape (IsSorted-front (before ++ t ∷ []) times all) in
      let rest = seed_after times (before ++ t ∷ []) one.0 one.2 all in
      (rest.0, seed_step times t store one.0 one.1 ∙ rest.1, rest.2 ∙ ap (map snap) joined)

  -- What a read finds when the last time that is not later is `found`.
  abbrev seen_at : Option ℤ → Option (List EdgeTable)
  seen_at none = none
  seen_at (some t) = some (edges_active_at edges t ∷ [])

  find_last-snap :
      (t : ℤ) (times : List ℤ)
      → batches_of (find_last (λ s. leb_ℤ s.timestamp t) (map snap times))
        ≡ seen_at (find_last (λ x. leb_ℤ x t) times)
  find_last-snap t times = ap batches_of (found times) ∙ read (find_last (λ x. leb_ℤ x t) times)
    where
      snap_of : Option ℤ → Option (Snapshot EdgeTable)
      snap_of none = none
      snap_of (some x) = some (snap x)

      read : (r : Option ℤ) → batches_of (snap_of r) ≡ seen_at r
      read none = refl
      read (some x) = refl

      found :
          (xs : List ℤ)
          → find_last (λ s. leb_ℤ s.timestamp t) (map snap xs)
            ≡ snap_of (find_last (λ x. leb_ℤ x t) xs)
      found [] = refl
      found (x ∷ xs) = elim (Option-cases (find_last (λ x. leb_ℤ x t) xs)) [
        | inl e ↦ elim (Bool-cases (leb_ℤ x t)) [
          | inl k ↦ rw (found xs, e, k) refl
          | inr k ↦ rw (found xs, e, k) refl
        ]
        | inr (y, e) ↦ rw (found xs, e) refl
      ]

  seeded_read :
      (times : List ℤ) (t : ℤ)
      → IsSorted int_order.lt times
      → (store : SnapshotStore EdgeTable (Unit {0})) × (seed_snapshots edges times []
          ≡ (ok tt, store))
        × (to_option (as_of "edges" t store) ≡ seen_at (find_last (λ x. leb_ℤ x t) times))
  seeded_read times t sorted =
      let seeded = seed_after times [] [] refl sorted in
      (
        seeded.0,
        seeded.1,
        as_of_lem "edges" t seeded.0
            ∙ ap (λ xs. batches_of (find_last (λ s. leb_ℤ s.timestamp t) xs)) seeded.2
            ∙ find_last-snap t times,
      )

-- The table of the edges that are active at a time that was found.
abbrev pub live_at : List DeltaEdge → Option ℤ → Option (List EdgeTable)
live_at es none = none
live_at es (some t) = some (table_with (filter (is_live t) es) ∷ [])

seen_at-live_at :
    (es : List DeltaEdge) (found : Option ℤ) → seen_at (table_with es) found ≡ live_at es found
seen_at-live_at es none = refl
seen_at-live_at es (some t) = ap (λ b. some (b ∷ [])) (edges_active_at-table_with es t)

-- Seeding an empty store with the snapshots of a table at ascending times succeeds. A read then answers
-- with the edges of the table that are active, in their order, at the last of the times that is not
-- later than that of the read, and fails if there is none.
pub seed_snapshots-as_of :
    (es : List DeltaEdge) (times : List ℤ) (t : ℤ)
    → IsSorted int_order.lt times
    → (store : SnapshotStore EdgeTable (Unit {0})) × (seed_snapshots (table_with es) times []
        ≡ (ok tt, store))
      × (to_option (as_of "edges" t store) ≡ live_at es (find_last (λ x. leb_ℤ x t) times))
seed_snapshots-as_of es times t sorted =
    let seeded = seeded_read (table_with es) times t sorted in
    (seeded.0, seeded.1, seeded.2 ∙ seen_at-live_at es (find_last (λ x. leb_ℤ x t) times))
