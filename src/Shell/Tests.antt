-- ===== src/Shell/Tests.antt =====
-- The shell on the index of Hnsw/Tests, on a small store, and on the edges of the demo.
use Prim.Native.String.{String}
use gtvdb.Base.{ℕ, ◌≡◌, refl, ◌||◌, none, some, List, [], ◌∷◌}
use gtvdb.Base.Int.{pos, leb_ℤ}
use gtvdb.Base.Sort.{stable_sort}
use gtvdb.Table.{EdgeTable}
use gtvdb.Csr.{TemporalCsr}
use gtvdb.Graph.{TemporalGraph}
use gtvdb.Delta.{DeltaEdge}
use gtvdb.Delta.Apply.{same, table_with}
use gtvdb.Store.{new_store}
use gtvdb.Store.Compaction.{store_view}
use gtvdb.Snapshot.{SnapshotStore, ok, to_option, as_of, find_last}
use gtvdb.Shell.{
  Demo, done, failed, message, count_or_three, optional_arg, parse_u64, parse_mask, knn_command,
  delta_command, demo_edge,
}
use gtvdb.Shell.Seeds.{seed_snapshots, live_at, seed_snapshots-as_of}
use gtvdb.Shell.Search.{IsKnnEnd}
use gtvdb.Shell.Edits.{IsDeltaEnd, delta_command_outcome}
use gtvdb.Hnsw.Samples.{floats, weak, level_floats, shallow}
use gtvdb.Shell.Startup.{build_demo, demo_knn_answers}

parses : parse_u64 "+42" ≡ some 42
unfolding parse_u64
parses = refl

too_large : parse_u64 "18446744073709551616" ≡ none
unfolding parse_u64
too_large = refl

masks : parse_mask ("knn" ∷ "1" ∷ "--mask" ∷ "1, 2" ∷ []) ≡ done (some (1 ∷ 2 ∷ []))
unfolding parse_mask
masks = refl

no_mask :
    parse_mask ("knn" ∷ "--mask" ∷ []) ≡ failed (message "usage: knn <node> [k] [--mask a,b,c]")
unfolding parse_mask
no_mask = refl

abbrev tokens : List String
tokens = "knn" ∷ "2" ∷ "2" ∷ "--mask" ∷ "0,1" ∷ []

demo_knn_answers_example :
    (demo : Demo ℕ) × (build_demo floats level_floats ≡ done demo)
    × IsKnnEnd
        (count_or_three (optional_arg tokens 2))
        (parse_mask tokens)
        (knn_command floats demo tokens)
demo_knn_answers_example = demo_knn_answers floats level_floats weak (shallow 4) tokens

abbrev edges : List DeltaEdge
edges =
    record { src = 0; dst = 1; edge_type = 1; valid_from = pos 0; valid_to = pos 100 }
    ∷ record { src = 0; dst = 2; edge_type = 1; valid_from = pos 50; valid_to = pos 200 }
    ∷ []

abbrev csr : TemporalCsr
csr = record {
  node_count = 4;
  offsets = 0 ∷ 2 ∷ 2 ∷ 2 ∷ 2 ∷ [];
  dst = 1 ∷ 2 ∷ [];
  valid_from = pos 0 ∷ pos 50 ∷ [];
  valid_to = pos 100 ∷ pos 200 ∷ [];
  edge_type = 1 ∷ 1 ∷ [];
}

abbrev graph : TemporalGraph
graph = record { nodes = record { ids = 0 ∷ 1 ∷ 2 ∷ 3 ∷ [] }; edges = table_with edges; csr = csr }

delta_command_outcome_example :
    IsDeltaEnd stable_sort (new_store graph) (delta_command stable_sort (new_store graph))
    × ((z : DeltaEdge)
        → store_view (delta_command stable_sort (new_store graph)).1 z
          ≡ (same z demo_edge || store_view (new_store graph) z))
delta_command_outcome_example = delta_command_outcome stable_sort (new_store graph)

seed_snapshots-as_of_example :
    (store : SnapshotStore EdgeTable (Unit {0})) × (seed_snapshots
        (table_with edges)
        (pos 0 ∷ pos 100 ∷ [])
        []
      ≡ (ok tt, store))
    × (to_option (as_of "edges" (pos 150) store)
        ≡ live_at edges (find_last (λ x. leb_ℤ x (pos 150)) (pos 0 ∷ pos 100 ∷ [])))
seed_snapshots-as_of_example =
    seed_snapshots-as_of edges (pos 0 ∷ pos 100 ∷ []) (pos 150) ((refl, tt), (tt, tt))
