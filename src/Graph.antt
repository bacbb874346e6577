-- ===== src/Graph.antt =====
-- gtv-core/src/graph.rs, with `to_csr` of gtv-core/src/table.rs: a graph is its two tables and the
-- index that was built from the edges.
use gtvdb.Base.{ℕ, List}
use gtvdb.Base.Int.{ℤ}
use gtvdb.Base.Sort.{UnstableSort}
use gtvdb.Error.{Result, ok, ◌>>=◌}
use gtvdb.Table.{EdgeTable, NodeTable, nodes_len}
use gtvdb.Csr.{TemporalCsr, from_arrays, khop}

unfoldable pub to_csr : UnstableSort → EdgeTable → ℕ → Result TemporalCsr
to_csr us edges node_count =
    from_arrays us edges.src edges.dst edges.valid_from edges.valid_to edges.edge_type node_count

pub record TemporalGraph : Type 0 where
  pub nodes : NodeTable
  pub edges : EdgeTable
  pub csr : TemporalCsr

unfoldable pub new_graph : UnstableSort → NodeTable → EdgeTable → Result TemporalGraph
unfolding to_csr nodes_len
new_graph us nodes edges = do
  csr ← to_csr us edges (nodes_len nodes)
  ok (record { nodes = nodes; edges = edges; csr = csr })

unfoldable pub graph_khop : TemporalGraph → List ℕ → ℕ → ℤ → Result (List (List ℕ))
graph_khop graph seeds k valid_at = khop graph.csr seeds k valid_at
