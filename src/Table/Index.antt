-- ===== src/Table/Index.antt =====
-- gtv-core/src/table.rs: `EdgeTable::to_csr` on the batch of a table. A missing column panics: `none`.
use gtvdb.Base.{ℕ, Option, none, some}
use gtvdb.Base.Sort.{UnstableSort}
use gtvdb.Error.{Result}
use gtvdb.Csr.{TemporalCsr, from_arrays}
use gtvdb.Table.Schema.{Arrow, src, dst, edge_type, valid_from, valid_to}

infixl 5 ◌>>=◌
abbrev pub ◌>>=◌ {ℓ κ} : {A : Type ℓ} {B : Type κ} → Option A → (A → Option B) → Option B
none >>= next = none
some value >>= next = next value

-- The columns are read in the order of the arguments.
unfoldable pub batch_to_csr :
    (arrow : Arrow) → UnstableSort → arrow.RecordBatch → ℕ → Option (Result TemporalCsr)
unfolding src dst edge_type valid_from valid_to
batch_to_csr arrow us batch node_count = do
  s ← src arrow batch
  d ← dst arrow batch
  from ← valid_from arrow batch
  to ← valid_to arrow batch
  type ← edge_type arrow batch
  some (from_arrays us s d from to type node_count)
