-- ===== src/Table/Tests.antt =====
-- Record batches whose columns are numbers by their row, and the tables over them.
use Prim.Native.String.{String}
use text.Mathlib.Text.{◌==◌ as str_eq}
use gtvdb.Base.{
  ℕ, zero, suc, ◌<◌, ◌≡◌, refl, ap, ◌∙◌, ◌↔◌, Bool, true, false, Option, none, some, List, [], ◌∷◌,
  length, map, get_or, All, length-map, if◌then◌else◌,
}
use gtvdb.Base.Int.{pos}
use gtvdb.Base.Sort.{stable_sort}
use gtvdb.Error.{ok, err, schema, is_ok}
use gtvdb.Table.{EdgeTable}
use gtvdb.Table.Schema.{Arrow, new_nodes, new_edges, ensure_column_type}
use gtvdb.Table.Index.{batch_to_csr}
use gtvdb.Table.Typed.{IsArrow, IsRead, new_edges-to_csr}
use gtvdb.Graph.{to_csr}

data Kind : Type 0 where
  u64 u16 timestamp utf8 : Kind

abbrev same : Kind → Kind → Bool
same u64 u64 = true
same u16 u16 = true
same timestamp timestamp = true
same utf8 utf8 = true
same _ _ = false

record Cells : Type 0 where
  kind : Kind
  values : List ℕ

record Column : Type 0 where
  name : String
  kind : Kind
  at : ℕ → ℕ

record Columns : Type 0 where
  rows : ℕ
  columns : List Column

abbrev values_of : ℕ → (ℕ → ℕ) → List ℕ
values_of zero at = []
values_of (suc n) at = at n ∷ values_of n at

length-values_of : (n : ℕ) (at : ℕ → ℕ) → length (values_of n at) ≡ n
length-values_of zero at = refl
length-values_of (suc n) at = ap suc (length-values_of n at)

abbrev no_column : Column
no_column = record { name = ""; kind = utf8; at = λ i. 0 }

abbrev map_option : {A B : Type 0} → (A → B) → Option A → Option B
map_option f none = none
map_option f (some a) = some (f a)

abbrev find_name : List Column → String → Option ℕ
find_name [] name = none
find_name (c ∷ columns) name =
    let rest = find_name columns name in if str_eq c.name name then some 0 else map_option suc rest

abbrev values_if : Bool → List ℕ → Option (List ℕ)
values_if fits values = if fits then some values else none

abbrev arrow : Arrow
arrow = record {
  DataType = Kind;
  uint64 = u64;
  uint16 = u16;
  timestamp_ns = timestamp;
  same_type = same;
  show_type = λ k. "type";
  Array = Cells;
  as_uint64 = λ c. values_if (same c.kind u64) c.values;
  as_uint16 = λ c. values_if (same c.kind u16) c.values;
  as_timestamp = λ c. map_option (map pos) (values_if (same c.kind timestamp) c.values);
  RecordBatch = Columns;
  num_rows = λ b. b.rows;
  index_of = λ b name. find_name b.columns name;
  data_type = λ b i. (get_or b.columns i no_column).kind;
  column_at = λ b i.
      let c = get_or b.columns i no_column in
      record { kind = c.kind; values = values_of b.rows c.at };
}

lawful : IsArrow arrow
lawful = record {
  uint64_cast = λ b name i e k.
      let values = values_of b.rows (get_or b.columns i no_column).at in
      (values, ap (λ fits. values_if fits values) k, length-values_of b.rows _);
  uint16_cast = λ b name i e k.
      let values = values_of b.rows (get_or b.columns i no_column).at in
      (values, ap (λ fits. values_if fits values) k, length-values_of b.rows _);
  timestamp_cast = λ b name i e k.
      let values = values_of b.rows (get_or b.columns i no_column).at in
      (
        map pos values,
        ap (λ fits. map_option (map pos) (values_if fits values)) k,
        length-map pos values ∙ length-values_of b.rows _,
      );
}

abbrev column : String → Kind → (ℕ → ℕ) → Column
column name kind at = record { name = name; kind = kind; at = at }

-- Two edges, `1 -> 0` and `0 -> 0`, with a column of notes that no table asks for.
abbrev edges : Columns
edges = record {
  rows = 2;
  columns =
      column "note" utf8 (λ i. 7)
      ∷ column "dst" u64 (λ i. 0)
      ∷ column "src" u64 (λ i. i)
      ∷ column "edge_type" u16 (λ i. 1)
      ∷ column "valid_from" timestamp (λ i. 10)
      ∷ column "valid_to" timestamp (λ i. 20)
      ∷ [];
}

accepts_edges : new_edges arrow edges ≡ ok edges
unfolding new_edges
accepts_edges = refl

no_ids : new_nodes arrow edges ≡ err (schema "missing column `id`")
unfolding new_nodes
no_ids = refl

wrong_type :
    ensure_column_type arrow edges "edge_type" u64
    ≡ err (schema "column `edge_type` expected type, found type")
unfolding ensure_column_type
wrong_type = refl

new_edges-to_csr_example :
    (table : EdgeTable) × IsRead arrow lawful edges table
    × (batch_to_csr arrow stable_sort edges 2 ≡ some (to_csr stable_sort table 2))
    × ((is_ok (to_csr stable_sort table 2) ≡ true) ↔ All (λ s. s < 2) table.src)
new_edges-to_csr_example =
    new_edges-to_csr arrow lawful edges stable_sort 2 (ap is_ok accepts_edges)
