-- ===== src/Snapshot.antt =====
-- gtv-storage/src/snapshot.rs, with the errors of gtv-storage/src/error.rs: the time-travel store.
-- Batches and schemas are the arrow crate's: types of the model, with the schema of a batch and the
-- comparison of schemas as parameters. The hash map is an association list, since no operation here
-- looks at its order. Messages leave out the timestamp.
pub mod Versions
pub mod Reads
pub mod TimeTravel
mod Tests
use Prim.Native.String.{String, ◌++◌ as append}
use text.Mathlib.Text.{◌==◌ as str_eq}
use gtvdb.Base.{
  Bool, true, false, not, ◌≡◌, Option, none, some, List, [], ◌∷◌, ◌++◌, map, if◌then◌else◌,
}
use gtvdb.Base.Int.{ℤ, leb_ℤ}
use gtvdb.Base.Order.{int_order}
use gtvdb.Base.Sort.{by_key, sort_by}

-- Errors of the file system, of parquet and of arrow carry what those crates say.
pub data StorageError : Type 0 where
  io parquet arrow : StorageError
  msg : String → StorageError

pub data StorageResult {ℓ} (A : Type ℓ) : Type ℓ where
  ok : A → StorageResult A
  err : StorageError → StorageResult A

abbrev pub to_option {ℓ} : {A : Type ℓ} → StorageResult A → Option A
to_option (ok a) = some a
to_option (err e) = none

pub record Snapshot (Batch : Type 0) : Type 0 where
  pub timestamp : ℤ
  pub batches : List Batch

pub record TableVersions (Batch Schema : Type 0) : Type 0 where
  pub schema : Schema
  pub snapshots : List (Snapshot Batch)

abbrev pub SnapshotStore : Type 0 → Type 0 → Type 0
SnapshotStore Batch Schema = List (String × TableVersions Batch Schema)

-- `HashMap::get` and `HashMap::insert`.
abbrev pub get {ℓ} : {V : Type ℓ} → String → List (String × V) → Option V
get table [] = none
get table ((name, v) ∷ rest) = if str_eq name table then some v else get table rest

abbrev pub put {ℓ} : {V : Type ℓ} → String → V → List (String × V) → List (String × V)
put table v [] = (table, v) ∷ []
put table v ((name, w) ∷ rest) =
    if str_eq name table then (name, v) ∷ rest else (name, w) ∷ put table v rest

-- `iter().rev().find(p)`
abbrev pub find_last {ℓ} : {A : Type ℓ} → (A → Bool) → List A → Option A
find_last p [] = none
find_last p (x ∷ xs) = elim (find_last p xs) [
  | some y ↦ some y
  | none ↦ if p x then some x else none
]

-- `last()`
abbrev pub last {ℓ} : {A : Type ℓ} → List A → Option A
last [] = none
last (x ∷ xs) = elim (last xs) [ some y ↦ some y | none ↦ some x ]

abbrev pub timestamp_lt : {Batch : Type 0} → Snapshot Batch → Snapshot Batch → Bool
timestamp_lt = by_key int_order (λ s. s.timestamp)

abbrev pub unknown_table {ℓ} : {A : Type ℓ} → String → StorageResult A
unknown_table table = err (msg (append "unknown table `" (append table "`")))

module _ {Batch Schema : Type 0} where
  -- `push`, then `sort_by_key(|s| s.timestamp)`
  unfoldable pub push : ℤ → List Batch → TableVersions Batch Schema → TableVersions Batch Schema
  push timestamp batches v = record v {
    snapshots =
        sort_by timestamp_lt
          (v.snapshots ++ record { timestamp = timestamp; batches = batches } ∷ []);
  }

  -- The entry of a table, which `or_insert_with` makes of the first batch's schema.
  abbrev pub entry : String → Schema → SnapshotStore Batch Schema → TableVersions Batch Schema
  entry table schema store = elim (get table store) [
    | some versions ↦ versions
    | none ↦ record { schema = schema; snapshots = [] }
  ]

  unfoldable pub insert :
      (Batch → Schema)
      → (Schema → Schema → Bool)
      → String
      → ℤ
      → List Batch
      → SnapshotStore Batch Schema
      → StorageResult (Unit {0}) × SnapshotStore Batch Schema
  unfolding push
  insert schema_of same_schema table timestamp [] store =
      (err (msg (append "snapshot for `" (append table "` has no batches"))), store)
  insert schema_of same_schema table timestamp (first ∷ batches) store =
      let versions = entry table (schema_of first) store in
      if not (same_schema versions.schema (schema_of first))
      then (err (msg (append "schema mismatch for `" (append table "`"))), put table versions store)
      else (ok tt, put table (push timestamp (first ∷ batches) versions) store)

  unfoldable pub as_of : String → ℤ → SnapshotStore Batch Schema → StorageResult (List Batch)
  as_of table timestamp store = elim (get table store) [
    | none ↦ unknown_table table
    | some versions ↦ elim (find_last (λ s. leb_ℤ s.timestamp timestamp) versions.snapshots) [
      | some s ↦ ok s.batches
      | none ↦ err (msg (append "no snapshot of `" (append table "` at or before")))
    ]
  ]

  unfoldable pub latest : String → SnapshotStore Batch Schema → StorageResult (List Batch)
  latest table store = elim (get table store) [
    | none ↦ unknown_table table
    | some versions ↦ elim (last versions.snapshots) [
      | some s ↦ ok s.batches
      | none ↦ err (msg (append "no snapshot of `" (append table "`")))
    ]
  ]

  unfoldable pub timestamps : String → SnapshotStore Batch Schema → StorageResult (List ℤ)
  timestamps table store = elim (get table store) [
    | none ↦ unknown_table table
    | some versions ↦ ok (map (λ s. s.timestamp) versions.snapshots)
  ]

  unfoldable pub schema : String → SnapshotStore Batch Schema → Option Schema
  schema table store = elim (get table store) [ none ↦ none | some versions ↦ some versions.schema ]
