-- ===== src/Table/Schema.antt =====
-- gtv-core/src/table.rs: the tables as the record batches that they wrap. A column is looked up by name
-- and cast to its array type, and a constructor checks the types of the columns once. `column` of a
-- table that was checked is expected to be there: `expect` panics, which is `none`, where it is not.
use Prim.Native.String.{String, ◌++◌}
use gtvdb.Base.{ℕ, Bool, not, Option, none, some, List, if◌then◌else◌}
use gtvdb.Base.Int.{ℤ}
use gtvdb.Error.{Result, ok, err, schema, ◌>>=◌}

-- What the code uses of the arrow crate: the types of columns, arrays behind `dyn Array`, which
-- `downcast_ref` casts, and record batches with their schema.
pub record Arrow : Type 1 where
  pub DataType : Type 0
  pub uint64 : DataType
  pub uint16 : DataType
  pub timestamp_ns : DataType
  pub same_type : DataType → DataType → Bool
  pub show_type : DataType → String
  pub Array : Type 0
  pub as_uint64 : Array → Option (List ℕ)
  pub as_uint16 : Array → Option (List ℕ)
  pub as_timestamp : Array → Option (List ℤ)
  pub RecordBatch : Type 0
  pub num_rows : RecordBatch → ℕ
  pub index_of : RecordBatch → String → Option ℕ
  pub data_type : RecordBatch → ℕ → DataType
  pub column_at : RecordBatch → ℕ → Array

-- `Result::expect`
abbrev pub expect {ℓ} : {T : Type ℓ} → Result T → Option T
expect (ok value) = some value
expect (err e) = none

module _ (arrow : Arrow) where
  open arrow use {
    DataType, uint64, uint16, timestamp_ns, same_type, show_type, Array, as_uint64, as_uint16,
    as_timestamp, RecordBatch, num_rows, index_of, data_type, column_at,
  }

  unfoldable pub position : RecordBatch → String → Result ℕ
  position batch name = elim (index_of batch name) [
    | none ↦ err (schema ("missing column `" ++ name ++ "`"))
    | some idx ↦ ok idx
  ]

  unfoldable pub column : {T : Type 0} → (Array → Option T) → RecordBatch → String → Result T
  unfolding position
  column downcast batch name = position batch name >>= λ idx.
      elim (downcast (column_at batch idx)) [
        | none ↦ err (schema ("column `" ++ name ++ "` has unexpected type"))
        | some array ↦ ok array
      ]

  unfoldable pub ensure_column_type : RecordBatch → String → DataType → Result (Unit {0})
  unfolding position
  ensure_column_type batch name expected = position batch name >>= λ idx.
      let actual = data_type batch idx in
      if not (same_type actual expected)
      then err (
          schema (
            "column `"
            ++ name
            ++ "` expected "
            ++ show_type expected
            ++ ", found "
            ++ show_type actual))
      else ok tt

  -- `NodeTable::new`. A table is its batch.
  unfoldable pub new_nodes : RecordBatch → Result RecordBatch
  unfolding ensure_column_type
  new_nodes batch = ensure_column_type batch "id" uint64 >>= λ _. ok batch

  unfoldable pub ids : RecordBatch → Option (List ℕ)
  unfolding column
  ids batch = expect (column as_uint64 batch "id")

  -- `EdgeTable::new`
  unfoldable pub new_edges : RecordBatch → Result RecordBatch
  unfolding ensure_column_type
  new_edges batch = ensure_column_type batch "src" uint64 >>= λ _.
      ensure_column_type batch "dst" uint64 >>= λ _.
      ensure_column_type batch "edge_type" uint16 >>= λ _.
      ensure_column_type batch "valid_from" timestamp_ns >>= λ _.
      ensure_column_type batch "valid_to" timestamp_ns >>= λ _. ok batch

  unfoldable pub src : RecordBatch → Option (List ℕ)
  unfolding column
  src batch = expect (column as_uint64 batch "src")

  unfoldable pub dst : RecordBatch → Option (List ℕ)
  unfolding column
  dst batch = expect (column as_uint64 batch "dst")

  unfoldable pub edge_type : RecordBatch → Option (List ℕ)
  unfolding column
  edge_type batch = expect (column as_uint16 batch "edge_type")

  unfoldable pub valid_from : RecordBatch → Option (List ℤ)
  unfolding column
  valid_from batch = expect (column as_timestamp batch "valid_from")

  unfoldable pub valid_to : RecordBatch → Option (List ℤ)
  unfolding column
  valid_to batch = expect (column as_timestamp batch "valid_to")
