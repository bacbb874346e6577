-- ===== src/Snapshot/TimeTravel.antt =====
-- What an insertion does to every later read of the store.
use Prim.Native.String.{String, ◌++◌ as append}
use text.Mathlib.Text.{◌==◌ as str_eq}
use text.Mathlib.TextEquality.{eq_iff}
use gtvdb.Base.{
  Bool, true, false, not, ◌&&◌, ◌≡◌, ◌≢◌, refl, sym, ap, ap₂, ◌∙◌, subst, Option, some, List, [],
  ◌∷◌, ◌⊎◌, if◌then◌else◌, inl, inr, Bool-cases, if_true, if_false,
}
use gtvdb.Base.Int.{ℤ, leb_ℤ}
use gtvdb.Base.Sort.{IsSorted}
use gtvdb.Snapshot.{
  StorageError, ok, err, msg, to_option, TableVersions, SnapshotStore, put, entry, find_last,
  timestamp_lt, push, insert, as_of,
}
use gtvdb.Snapshot.Versions.{and_false_left, find_last-push, push-IsSorted}
use gtvdb.Snapshot.Reads.{
  is_newest, batches_of, batches_of-if, and_true_left, versions_of, IsValid, as_of_lem,
  entry-versions, versions_of-put,
}

module _ {Batch Schema : Type 0} where
  -- What an accepted insertion answers a later read of `table'` at `t` with.
  abbrev pub after_insert :
      String → ℤ → List Batch → SnapshotStore Batch Schema → String → ℤ → Option (List Batch)
  after_insert table timestamp batches store table' t =
      if str_eq table table' && is_newest timestamp t (versions_of table store)
      then some batches
      else to_option (as_of table' t store)

module _ {Batch Schema : Type 0} (schema_of : Batch → Schema) (same_schema : Schema → Schema → Bool)
    (table : String) (timestamp : ℤ) where
  insert-accepted :
      (first : Batch) (batches : List Batch) (store : SnapshotStore Batch Schema)
      → same_schema (entry table (schema_of first) store).schema (schema_of first) ≡ true
      → insert schema_of same_schema table timestamp (first ∷ batches) store ≡ (
        ok tt,
        put table (push timestamp (first ∷ batches) (entry table (schema_of first) store)) store,
      )
  unfolding insert
  insert-accepted first batches store h = if_false _ _ (ap not h)

  insert-refused :
      (first : Batch) (batches : List Batch) (store : SnapshotStore Batch Schema)
      → same_schema (entry table (schema_of first) store).schema (schema_of first) ≡ false
      → insert schema_of same_schema table timestamp (first ∷ batches) store ≡ (
        err (msg (append "schema mismatch for `" (append table "`"))),
        put table (entry table (schema_of first) store) store,
      )
  unfolding insert
  insert-refused first batches store h = if_true _ _ (ap not h)

module _ {Batch Schema : Type 0} where
  insert-empty :
      (schema_of : Batch → Schema) (same_schema : Schema → Schema → Bool) (table : String)
      (timestamp : ℤ) (store : SnapshotStore Batch Schema)
      → insert schema_of same_schema table timestamp [] store
        ≡ (err (msg (append "snapshot for `" (append table "` has no batches"))), store)
  unfolding insert
  insert-empty schema_of same_schema table timestamp store = refl

  put_same :
      (table name : String) (v : TableVersions Batch Schema) (store : SnapshotStore Batch Schema)
      → v.snapshots ≡ versions_of table store
      → (if str_eq table name then v.snapshots else versions_of name store) ≡ versions_of name store
  put_same table name v store shape = elim (Bool-cases (str_eq table name)) [
    | inl e ↦ if_true _ _ e ∙ shape ∙ ap (λ x. versions_of x store) ((eq_iff table name).0 e)
    | inr e ↦ if_false _ _ e
  ]

  -- The store after an insertion: with one more snapshot of the table, with its entry as it is, or
  -- the store it was.
  insert_outcome :
      (schema_of : Batch → Schema) (same_schema : Schema → Schema → Bool) (table : String)
      (timestamp : ℤ) (batches : List Batch) (store : SnapshotStore Batch Schema)
      → ((v : TableVersions Batch Schema) × (v.snapshots ≡ versions_of table store)
          × (insert schema_of same_schema table timestamp batches store
              ≡ (ok tt, put table (push timestamp batches v) store)))
        ⊎ ((e : StorageError) × (store' : SnapshotStore Batch Schema) × ((name : String)
              → versions_of name store' ≡ versions_of name store)
            × (insert schema_of same_schema table timestamp batches store ≡ (err e, store')))
  insert_outcome schema_of same_schema table timestamp [] store =
      inr (_, store, λ name. refl, insert-empty schema_of same_schema table timestamp store)
  insert_outcome schema_of same_schema table timestamp (first ∷ batches) store =
      let v = entry table (schema_of first) store in
      let shape = entry-versions table (schema_of first) store in
      elim (Bool-cases (same_schema v.schema (schema_of first))) [
        | inl e ↦
            inl (
              v,
              shape,
              insert-accepted schema_of same_schema table timestamp first batches store e,
            )
        | inr e ↦ inr (
          _,
          put table v store,
          λ name. versions_of-put table name v store ∙ put_same table name v store shape,
          insert-refused schema_of same_schema table timestamp first batches store e,
        )
      ]

  -- A read where the versions of one table were put in.
  read-put :
      (table table' : String) (t : ℤ) (v : TableVersions Batch Schema)
      (store : SnapshotStore Batch Schema)
      → to_option (as_of table' t (put table v store)) ≡ (
          if str_eq table table'
          then batches_of (find_last (λ s. leb_ℤ s.timestamp t) v.snapshots)
          else to_option (as_of table' t store))
  read-put table table' t v store =
      as_of_lem table' t (put table v store)
      ∙ ap (λ xs. batches_of (find_last (λ s. leb_ℤ s.timestamp t) xs))
          (versions_of-put table table' v store)
      ∙ elim (Bool-cases (str_eq table table')) [
        | inl e ↦
            ap (λ xs. batches_of (find_last (λ s. leb_ℤ s.timestamp t) xs)) (if_true _ _ e)
            ∙ sym (if_true _ _ e)
        | inr e ↦
            ap (λ xs. batches_of (find_last (λ s. leb_ℤ s.timestamp t) xs)) (if_false _ _ e)
            ∙ sym (as_of_lem table' t store)
            ∙ sym (if_false _ _ e)
      ]

  read-push :
      (table table' : String) (timestamp t : ℤ) (batches : List Batch)
      (v : TableVersions Batch Schema) (store : SnapshotStore Batch Schema)
      → IsValid store
      → v.snapshots ≡ versions_of table store
      → to_option (as_of table' t (put table (push timestamp batches v) store))
        ≡ after_insert table timestamp batches store table' t
  read-push table table' timestamp t batches v store valid shape =
      let sorted : IsSorted timestamp_lt v.snapshots =
        subst (IsSorted timestamp_lt) (sym shape) (valid table) in
      read-put table table' t (push timestamp batches v) store
      ∙ elim (Bool-cases (str_eq table table')) [
        | inr e ↦ if_false _ _ e ∙ sym (if_false _ _ (and_false_left _ _ e))
        | inl e ↦
            if_true _ _ e
            ∙ ap batches_of (find_last-push timestamp batches v t sorted)
            ∙ batches_of-if (is_newest timestamp t v.snapshots) _ _
            ∙ ap₂ (λ xs r. if is_newest timestamp t xs then some batches else r) shape
                (ap (λ xs. batches_of (find_last (λ s. leb_ℤ s.timestamp t) xs))
                    (shape ∙ ap (λ name. versions_of name store) ((eq_iff table table').0 e))
                  ∙ sym (as_of_lem table' t store))
            ∙ ap (λ b. if b then some batches else to_option (as_of table' t store))
                (sym (and_true_left _ _ e))
      ]

  -- An accepted insertion answers every later read with the new batches where they are the newest of
  -- the table at that time (the last one inserted, of several with one timestamp), and as before
  -- everywhere else.
  pub insert_then_read :
      (schema_of : Batch → Schema) (same_schema : Schema → Schema → Bool) (table : String)
      (timestamp : ℤ) (batches : List Batch) (store : SnapshotStore Batch Schema) (table' : String)
      (t : ℤ)
      → IsValid store
      → (insert schema_of same_schema table timestamp batches store).0 ≡ ok tt
      → to_option (as_of table' t (insert schema_of same_schema table timestamp batches store).1)
        ≡ after_insert table timestamp batches store table' t
  insert_then_read schema_of same_schema table timestamp batches store table' t valid accepted =
      elim (insert_outcome schema_of same_schema table timestamp batches store) [
        | inl (v, shape, done) ↦
            ap (λ r. to_option (as_of table' t r.1)) done
            ∙ read-push table table' timestamp t batches v store valid shape
        | inr (e, store', same, done) ↦ cc (accepted, ap (λ r. r.0) done)
      ]

  -- A refused insertion leaves every read as it was.
  insert_refused_reads :
      (schema_of : Batch → Schema) (same_schema : Schema → Schema → Bool) (table : String)
      (timestamp : ℤ) (batches : List Batch) (store : SnapshotStore Batch Schema) (table' : String)
      (t : ℤ)
      → (insert schema_of same_schema table timestamp batches store).0 ≢ ok tt
      → to_option (as_of table' t (insert schema_of same_schema table timestamp batches store).1)
        ≡ to_option (as_of table' t store)
  insert_refused_reads schema_of same_schema table timestamp batches store table' t refused =
      elim (insert_outcome schema_of same_schema table timestamp batches store) [
        | inl (v, shape, done) ↦ absurd (refused (ap (λ r. r.0) done))
        | inr (e, store', same, done) ↦
            ap (λ r. to_option (as_of table' t r.1)) done
            ∙ as_of_lem table' t store'
            ∙ ap (λ xs. batches_of (find_last (λ s. leb_ℤ s.timestamp t) xs)) (same table')
            ∙ sym (as_of_lem table' t store)
      ]

  -- An insertion, accepted or refused, keeps the snapshots of every table in ascending time.
  pub insert-IsValid :
      (schema_of : Batch → Schema) (same_schema : Schema → Schema → Bool) (table : String)
      (timestamp : ℤ) (batches : List Batch) (store : SnapshotStore Batch Schema)
      → IsValid store
      → IsValid (insert schema_of same_schema table timestamp batches store).1
  insert-IsValid schema_of same_schema table timestamp batches store valid table' =
      elim (insert_outcome schema_of same_schema table timestamp batches store) [
        | inr (e, store', same, done) ↦
            subst (IsSorted timestamp_lt)
              (sym (ap (λ r. versions_of table' r.1) done ∙ same table')) (valid table')
        | inl (v, shape, done) ↦
            let found =
              ap (λ r. versions_of table' r.1) done
              ∙ versions_of-put table table' (push timestamp batches v) store in
            elim (Bool-cases (str_eq table table')) [
              | inl e ↦
                  subst (IsSorted timestamp_lt) (sym (found ∙ if_true _ _ e))
                    (push-IsSorted timestamp batches v)
              | inr e ↦ subst (IsSorted timestamp_lt) (sym (found ∙ if_false _ _ e)) (valid table')
            ]
      ]
