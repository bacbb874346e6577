-- ===== src/Store/Tests.antt =====
-- Runs of the store and its background thread, and their properties at them.
use gtvdb.Base.{◌≡◌, refl, true, false, ◌⊎◌, none, some, List, [], ◌∷◌}
use gtvdb.Base.Int.{pos}
use gtvdb.Base.Sort.{stable_sort}
use gtvdb.Error.{ok, err, GtvError}
use gtvdb.Csr.{no_edges}
use gtvdb.Graph.{TemporalGraph}
use gtvdb.Delta.{DeltaEdge}
use gtvdb.Store.{
  LsmStore, checking, insert, delete, pending, compact_now, spawn_background, signal_stop, can_join,
}
use gtvdb.Store.Compaction.{store_view, compact_now_outcome}
use gtvdb.Store.Thread.{ticks, stop_ends_thread, respawned_thread_idles}
use gtvdb.Store.Refinement.{
  Event, inserted, deleted, internal, Run, stay, more, do_insert, do_delete, do_compact, spec_run,
  Run-refines,
}

-- A graph of two nodes without an edge.
abbrev graph : TemporalGraph
graph = record {
  nodes = record { ids = 0 ∷ 1 ∷ [] };
  edges = no_edges;
  csr = record {
    node_count = 2;
    offsets = 0 ∷ 0 ∷ 0 ∷ [];
    dst = [];
    valid_from = [];
    valid_to = [];
    edge_type = [];
  };
}

abbrev edge : DeltaEdge
edge = record { src = 0; dst = 1; edge_type = 7; valid_from = pos 1; valid_to = pos 9 }

abbrev store : LsmStore
store = record {
  snapshot = graph;
  delta = record { inserts = edge ∷ []; deletes = [] };
  stop = false;
  handle = none;
}

compact_now_outcome_example :
    (((compact_now stable_sort store).0 ≡ ok tt)
      × (pending (compact_now stable_sort store).1 ≡ 0)
      × ((z : DeltaEdge) → store_view (compact_now stable_sort store).1 z ≡ store_view store z))
    ⊎ ((e : GtvError) × (compact_now stable_sort store ≡ (err e, store)))
compact_now_outcome_example = compact_now_outcome stable_sort store

-- The thread of `store`, about to test the flag.
abbrev running : LsmStore
running = record store { handle = some checking }

stop_ends_thread_example : can_join (ticks stable_sort 2 (signal_stop running)) ≡ true
stop_ends_thread_example = stop_ends_thread stable_sort running

-- After `stop_background`: the flag is still set.
abbrev stopped : LsmStore
stopped = record store { stop = true }

respawned_thread_idles_example :
    ((ticks stable_sort 9 (spawn_background stopped)).snapshot ≡ stopped.snapshot)
    × ((ticks stable_sort 9 (spawn_background stopped)).delta ≡ stopped.delta)
respawned_thread_idles_example = respawned_thread_idles stable_sort stopped 9 refl refl

-- An insertion, a compaction and a deletion.
abbrev events : List Event
events = inserted edge ∷ internal ∷ deleted edge ∷ []

abbrev last_store : LsmStore
last_store = delete edge (compact_now stable_sort (insert edge store)).1

session : Run stable_sort store events last_store
session = more (do_insert _ edge) (more (do_compact _) (more (do_delete _ edge) (stay _)))

Run-refines_example : store_view last_store edge ≡ spec_run events (store_view store) edge
Run-refines_example = Run-refines stable_sort store last_store events session edge
