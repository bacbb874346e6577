-- ===== src/Csr.antt =====
-- gtv-core/src/csr.rs: the immutable Temporal-CSR. The columns are lists read by an index; a read or
-- a write out of bounds does not occur in an index that `from_arrays` built (see `Csr/Offsets`), so
-- the defaults of `get_or` are never seen there. Offsets are u32 and wrap.
pub mod Offsets
pub mod Slice
pub mod Lookup
pub mod Frontier
pub mod Walk
pub mod Escape
pub mod Batch
pub mod Input
pub mod Contract
mod Tests
use gtvdb.Base.{
  ℕ, zero, suc, ◌+◌, ◌-◌, ◌%◌, ◌^◌, Bool, true, false, ◌&&◌, Option, none, some, List, [], ◌∷◌,
  ◌++◌, map, length, get_or, set, replicate, ltb, leb, ◌==◌, if◌then◌else◌,
}
use gtvdb.Base.Int.{ℤ, ltb_ℤ, leb_ℤ}
use gtvdb.Base.Order.{Order, nat_order, int_order, pair_order}
use gtvdb.Base.Sort.{UnstableSort, by_key, sort_by}
use gtvdb.Error.{Result, ok, err, invalid_argument, node_out_of_range, ◌>>=◌}
use gtvdb.Table.{EdgeTable}

pub record EdgeRow : Type 0 where
  pub src : ℕ
  pub dst : ℕ
  pub valid_from : ℤ
  pub valid_to : ℤ
  pub edge_type : ℕ

pub record Neighbor : Type 0 where
  pub dst : ℕ
  pub edge_type : ℕ
  pub valid_from : ℤ
  pub valid_to : ℤ

pub record TemporalCsr : Type 0 where
  pub node_count : ℕ
  pub offsets : List ℕ
  pub dst : List ℕ
  pub valid_from : List ℤ
  pub valid_to : List ℤ
  pub edge_type : List ℕ

-- The rows `0..n` of the five columns, walked in step: their lengths were compared before.
unfoldable pub zip_rows : List ℕ → List ℕ → List ℤ → List ℤ → List ℕ → List EdgeRow
zip_rows (s ∷ src) (d ∷ dst) (f ∷ from) (t ∷ to) (e ∷ type) =
    record { src = s; dst = d; valid_from = f; valid_to = t; edge_type = e }
    ∷ zip_rows src dst from to type
zip_rows _ _ _ _ _ = []

-- `rows.iter().map(|r| r.src).find(|s| *s >= node_count)`
unfoldable pub find_bad : ℕ → List EdgeRow → Option ℕ
find_bad node_count [] = none
find_bad node_count (r ∷ rows) =
    if leb node_count r.src then some r.src else find_bad node_count rows

-- `(r.src, r.valid_from, r.valid_to, r.dst)`, compared as a tuple.
abbrev pub SortKey : Type 0
SortKey = ℕ × (ℤ × (ℤ × ℕ))

abbrev pub key_order : Order SortKey
key_order = pair_order nat_order (pair_order int_order (pair_order int_order nat_order))

abbrev pub row_key : EdgeRow → SortKey
row_key r = (r.src, (r.valid_from, (r.valid_to, r.dst)))

abbrev pub row_lt : EdgeRow → EdgeRow → Bool
row_lt = by_key key_order row_key

-- `+=` on u32.
abbrev pub add_u32 : ℕ → ℕ → ℕ
add_u32 a b = (a + b) % 2 ^ 32

-- `for r in &rows { offsets[r.src as usize + 1] += 1; }`
unfoldable pub count_sources : List EdgeRow → List ℕ → List ℕ
count_sources [] offsets = offsets
count_sources (r ∷ rows) offsets =
    count_sources rows (set offsets (suc r.src) (add_u32 (get_or offsets (suc r.src) 0) 1))

-- `for i in 0..node_count { offsets[i + 1] += offsets[i]; }`, from round `i` on, with `n` rounds left.
unfoldable pub prefix_sums : ℕ → ℕ → List ℕ → List ℕ
prefix_sums zero i offsets = offsets
prefix_sums (suc n) i offsets =
    prefix_sums n (suc i)
      (set offsets (suc i) (add_u32 (get_or offsets (suc i) 0) (get_or offsets i 0)))

-- What `from_arrays` makes of the sorted rows.
unfoldable pub build : ℕ → List EdgeRow → TemporalCsr
unfolding count_sources prefix_sums
build node_count rows = record {
  node_count = node_count;
  offsets = prefix_sums node_count 0 (count_sources rows (replicate (suc node_count) 0));
  dst = map (λ r. r.dst) rows;
  valid_from = map (λ r. r.valid_from) rows;
  valid_to = map (λ r. r.valid_to) rows;
  edge_type = map (λ r. r.edge_type) rows;
}

abbrev pub lengths_agree : List ℕ → List ℕ → List ℤ → List ℤ → List ℕ → Bool
lengths_agree src dst valid_from valid_to edge_type =
    let n = length src in
    length dst == n && length valid_from == n && length valid_to == n && length edge_type == n

-- `from_arrays` once the lengths agree.
unfoldable pub from_rows : UnstableSort → ℕ → List EdgeRow → Result TemporalCsr
from_rows us node_count rows = elim (find_bad node_count rows) [
  | some bad ↦ err (node_out_of_range bad)
  | none ↦ ok (build node_count (us.sort EdgeRow row_lt rows))
]

unfoldable pub from_arrays :
    UnstableSort → List ℕ → List ℕ → List ℤ → List ℤ → List ℕ → ℕ → Result TemporalCsr
unfolding from_rows
from_arrays us src dst valid_from valid_to edge_type node_count =
    if lengths_agree src dst valid_from valid_to edge_type
    then from_rows us node_count (zip_rows src dst valid_from valid_to edge_type)
    else err (invalid_argument "edge arrays have mismatched lengths")

unfoldable pub edge_count : TemporalCsr → ℕ
edge_count csr = length csr.dst

unfoldable pub edge_range : TemporalCsr → ℕ → Result (ℕ × ℕ)
edge_range csr src =
    if leb csr.node_count src
    then err (node_out_of_range src)
    else ok (get_or csr.offsets src 0, get_or csr.offsets (suc src) 0)

-- `valid_from <= valid_at && valid_at < valid_to`
abbrev pub is_active : ℤ → ℤ → ℤ → Bool
is_active from to valid_at = leb_ℤ from valid_at && ltb_ℤ valid_at to

abbrev pub neighbor_at : TemporalCsr → ℕ → Neighbor
neighbor_at csr e = record {
  dst = get_or csr.dst e 0;
  edge_type = get_or csr.edge_type e 0;
  valid_from = get_or csr.valid_from e (ℤ.pos 0);
  valid_to = get_or csr.valid_to e (ℤ.pos 0);
}

-- `(start..end).filter(..).map(..)`, from index `e` on, with `n` indices left.
unfoldable pub scan_range : TemporalCsr → ℤ → ℕ → ℕ → List Neighbor
scan_range csr valid_at zero e = []
scan_range csr valid_at (suc n) e =
    let rest = scan_range csr valid_at n (suc e) in
    let nb = neighbor_at csr e in
    if is_active nb.valid_from nb.valid_to valid_at then nb ∷ rest else rest

unfoldable pub neighbors : TemporalCsr → ℕ → ℤ → Result (List Neighbor)
unfolding edge_range scan_range
neighbors csr src valid_at = do
  (start, end) ← edge_range csr src
  ok (scan_range csr valid_at (end - start) start)

-- The rows that one source node pushes to the five output columns.
unfoldable pub push_neighbors : ℕ → List Neighbor → EdgeTable → EdgeTable
push_neighbors s nbs out = record {
  src = out.src ++ map (λ _. s) nbs;
  dst = out.dst ++ map (λ nb. nb.dst) nbs;
  edge_type = out.edge_type ++ map (λ nb. nb.edge_type) nbs;
  valid_from = out.valid_from ++ map (λ nb. nb.valid_from) nbs;
  valid_to = out.valid_to ++ map (λ nb. nb.valid_to) nbs;
}

-- `for &s in src_nodes { for nb in self.neighbors(s, valid_at)? { .. } }`
unfoldable pub batch_loop : TemporalCsr → ℤ → List ℕ → EdgeTable → Result EdgeTable
batch_loop csr valid_at [] out = ok out
batch_loop csr valid_at (s ∷ src_nodes) out = elim (neighbors csr s valid_at) [
  | ok nbs ↦ batch_loop csr valid_at src_nodes (push_neighbors s nbs out)
  | err e ↦ err e
]

abbrev pub no_edges : EdgeTable
no_edges = record { src = []; dst = []; edge_type = []; valid_from = []; valid_to = [] }

unfoldable pub neighbors_record_batch : TemporalCsr → List ℕ → ℤ → Result EdgeTable
unfolding batch_loop push_neighbors
neighbors_record_batch csr src_nodes valid_at = batch_loop csr valid_at src_nodes no_edges

-- `Vec::dedup` behind its first item `x`: of equal neighbours the first stays.
unfoldable pub dedup_after : ℕ → List ℕ → List ℕ
dedup_after x [] = []
dedup_after x (y ∷ ys) = let rest = dedup_after y ys in if x == y then rest else y ∷ rest

unfoldable pub dedup : List ℕ → List ℕ
unfolding dedup_after
dedup [] = []
dedup (x ∷ xs) = x ∷ dedup_after x xs

-- One hop: the targets of every node of the frontier, in the order they are pushed.
unfoldable pub expand : TemporalCsr → ℤ → List ℕ → List ℕ → Result (List ℕ)
expand csr valid_at [] next = ok next
expand csr valid_at (s ∷ current) next = elim (neighbors csr s valid_at) [
  | ok nbs ↦ expand csr valid_at current (next ++ map (λ nb. nb.dst) nbs)
  | err e ↦ err e
]

-- One frontier per hop; u64 values that compare equal are equal, so the unstable sort has one result.
unfoldable pub khop : TemporalCsr → List ℕ → ℕ → ℤ → Result (List (List ℕ))
unfolding expand dedup sort_by
khop csr current zero valid_at = ok []
khop csr current (suc k) valid_at = do
  next ← expand csr valid_at current []
  let frontier = dedup (sort_by ltb next)
  rest ← khop csr frontier k valid_at
  ok (frontier ∷ rest)
