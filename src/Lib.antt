-- ===== src/Lib.antt =====
-- gtvdb, a temporal graph and vector database: a model of its engine in antt and proofs about it.
--
-- The program. A graph is a node table and an edge table, whose edges hold in a half-open interval of
-- time, with an immutable index over them and zone maps to skip edges by time (crates/gtv-core).
-- Updates go to a buffer of insertions and tombstones, which a compaction, by hand or by a background
-- thread, folds into a new snapshot (crates/gtv-delta). A pattern matcher searches the index
-- (crates/gtv-pattern). Time series are aligned and aggregated (crates/gtv-array), vectors are searched
-- for the nearest ones (crates/gtv-index, crates/gtv-engine), and whole tables are kept by timestamp in
-- a time-travel store (crates/gtv-storage). A shell offers these as commands on a demo data set
-- (crates/gtv-cli).
--
-- Which file models what:
--   Error        crates/gtv-core/src/error.rs: GtvError and the `?` chain
--   Table        crates/gtv-core/src/table.rs: the edge table by its five columns, from_vecs; in
--                Table/Schema the tables as record batches, with column, ensure_column_type, the
--                constructors and the accessors, and in Table/Index to_csr on a batch, over a parameter
--                for arrow; proofs in Table/Typed, which takes such a batch to the five columns
--   Csr          crates/gtv-core/src/csr.rs: from_arrays, edge_range, neighbors,
--                neighbors_record_batch, khop; proofs in Csr/: Offsets (prefix sums), Slice and Lookup
--                (a node's run), Frontier, Walk and Escape (khop), Batch, Input, Contract
--   Graph        crates/gtv-core/src/graph.rs: TemporalGraph::new, khop
--   Chunk        crates/gtv-core/src/chunk.rs: validate, to_csr
--   Zones        crates/gtv-core/src/temporal.rs: build_zone_maps and the two masks; proofs in
--                Zones/Bounds, Prune, Bits
--   Delta        crates/gtv-delta/src/delta.rs: DeltaBuffer and apply; proofs in Delta/Apply, View
--   Store        crates/gtv-delta/src/store.rs: LsmStore and its thread, one step per locked
--                section; proofs in Store/Compaction, Thread, Refinement
--   Pattern      crates/gtv-pattern/src/lib.rs: the pattern shapes, dfs, find_from, find; proofs in
--                Pattern/: State, Enter, Step, Loop and Search (the state through the search), Matches,
--                Soundness, Shapes, and Reference (a search with no limit and no state to restore), Same,
--                Complete and Enumeration (the code's search against it)
--   Asof         crates/gtv-array/src/asof.rs: both joins; proofs in Asof/Merge, Restore
--   Window       crates/gtv-array/src/window.rs: msum, mavg, deltas; proofs in Window/Sums, Deltas
--   Flat         crates/gtv-index/src/flat.rs: FlatIndex::new, search_knn
--   Knn          crates/gtv-engine/src/knn.rs: KnnCollection; proofs about both in Knn/Nearest, Search
--   Hnsw         crates/gtv-index/src/hnsw.rs: the generator, the levels and the state, in Hnsw/Search
--                greedy_descend, search_layer, search and search_knn, in Hnsw/Insert prune, insert and
--                build; proofs in Hnsw/: Layers (reads in range), Descent, Beam, Explore, Loop and
--                Nearest (the search of a layer), Links, Linking, Wiring, Shape and Growth (an insertion),
--                Contract, Build, Exhaustive
--   Engine       crates/gtv-engine/src/expr_util.rs, graph.rs, asof.rs, udf.rs: the SQL functions over
--                parameters for literals and columns, and in Engine/Collections the function knn of
--                crates/gtv-engine/src/knn.rs, in Engine/Registry register_knn of
--                crates/gtv-engine/src/context.rs; proofs there and in Engine/Calls, Rolling, Nearest
--   Shell        crates/gtv-cli/src/main.rs: the arguments and the commands knn and delta of the shell, in
--                Shell/Active edges_active_at and in Shell/Seeds and Shell/Startup the snapshots and the index
--                of build_demo; proofs there and in Shell/Search, Edits
--   Snapshot     crates/gtv-storage/src/snapshot.rs: SnapshotStore; proofs in Snapshot/Versions,
--                Reads, TimeTravel
--   Base         lists, numbers, Boolean tests, orders, sorting and ordered sets that these share
--
-- How it is modelled. Unsigned integers are numbers, and where the code's width matters it is written
-- out: u32 offsets and i64 sums wrap as in a release build. Timestamps are integers that are only
-- compared. Arrow arrays are lists; a `BTreeSet` is an ascending list without duplicates; a hash map is
-- an association list. `sort_unstable_by_key` is a parameter that promises an ascending permutation,
-- since it leaves the order of equal items open; the stable sort meets the promise. Floating-point
-- numbers and arrow batches are types with the operations that the code uses; where an order of floats
-- is assumed, a theorem says so. A lock is held for a whole operation, so operations and thread steps
-- interleave as single steps. A panic of an assertion is `none`; in Hnsw, where each read by an index
-- may panic, a call has an outcome, and the level 2^64 - 1 wraps when one is added, as in a release
-- build.
--
-- Loops and recursions go down a list or a count of rounds, so they end. Three loops have fuel.
-- `build_zone_maps` has one unit for each edge, and a round takes at least one edge. The greedy descent
-- has one for each node, and a round gets closer to the query. The beam search of a layer has one for
-- each entry point and each node, and a round takes a candidate, which no node is twice. A loop that ran
-- out would end as `stuck`, which the theorems rule out.
--
-- Not modelled: poisoned locks, allocation limits and durations of sleep; null values in a column;
-- how near the approximate index comes to the exact answer; the other commands of the shell; and the
-- registration of SQL functions, the server, the protocol, the WASM sandbox and parquet files, which are
-- glue over libraries.
pub mod Base
pub mod Error
pub mod Table
pub mod Csr
pub mod Graph
pub mod Chunk
pub mod Delta
pub mod Store
pub mod Asof
pub mod Snapshot
pub mod Zones
pub mod Pattern
pub mod Window
pub mod Flat
pub mod Knn
pub mod Hnsw
pub mod Engine
pub mod Shell
