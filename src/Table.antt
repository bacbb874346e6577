-- ===== src/Table.antt =====
-- gtv-core/src/table.rs: the edge table, seen through its five column accessors, and the node
-- table, of which the graph uses the number of rows.
pub mod Schema
pub mod Index
pub mod Typed
mod Tests
use gtvdb.Base.{ℕ, ◌&&◌, List, length, ◌==◌, if◌then◌else◌}
use gtvdb.Base.Int.{ℤ}
use gtvdb.Error.{Result, ok, err, invalid_argument}

-- The canonical schema: u64, u64, u16 and two nanosecond timestamps.
pub record EdgeTable : Type 0 where
  pub src : List ℕ
  pub dst : List ℕ
  pub edge_type : List ℕ
  pub valid_from : List ℤ
  pub valid_to : List ℤ

pub record NodeTable : Type 0 where
  pub ids : List ℕ

-- Number of rows of the batch, which is the length of each column.
unfoldable pub edges_len : EdgeTable → ℕ
edges_len t = length t.src

unfoldable pub nodes_len : NodeTable → ℕ
nodes_len t = length t.ids

unfoldable pub from_vecs : List ℕ → List ℕ → List ℕ → List ℤ → List ℤ → Result EdgeTable
from_vecs src dst edge_type valid_from valid_to =
    let n = length src in
    if length dst == n && length edge_type == n && length valid_from == n && length valid_to == n
    then ok (record {
      src = src;
      dst = dst;
      edge_type = edge_type;
      valid_from = valid_from;
      valid_to = valid_to;
    })
    else err (invalid_argument "edge column vectors have mismatched lengths")
