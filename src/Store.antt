-- ===== src/Store.antt =====
-- gtv-delta/src/store.rs and `compact` of gtv-delta/src/lib.rs: the LSM store. Each operation holds
-- the locks of what it touches for its whole length, so it is one step; the background thread is a
-- program counter that the scheduler advances.
pub mod Compaction
pub mod Refinement
pub mod Thread
mod Tests
use gtvdb.Base.{ℕ, Bool, true, false, ◌≡◌, Option, none, some, if◌then◌else◌}
use gtvdb.Base.Sort.{UnstableSort}
use gtvdb.Error.{Result, ok, err, ◌>>=◌}
use gtvdb.Table.{EdgeTable}
use gtvdb.Graph.{TemporalGraph, new_graph}
use gtvdb.Delta
use gtvdb.Delta.{DeltaEdge, DeltaBuffer, new_buffer, apply, is_empty, clear}

-- Where the background thread stands: at the test of its `while`, asleep, at the test behind the
-- sleep, before the locks, or at its end.
pub data Phase : Type 0 where
  checking sleeping woken working finished : Phase

pub record LsmStore : Type 0 where
  pub snapshot : TemporalGraph
  pub delta : DeltaBuffer
  pub stop : Bool
  pub handle : Option Phase

unfoldable pub new_store : TemporalGraph → LsmStore
new_store snapshot = record { snapshot = snapshot; delta = new_buffer; stop = false; handle = none }

unfoldable pub insert : DeltaEdge → LsmStore → LsmStore
insert edge s = record s { delta = Delta.insert edge s.delta }

unfoldable pub delete : DeltaEdge → LsmStore → LsmStore
delete edge s = record s { delta = Delta.delete edge s.delta }

unfoldable pub pending : LsmStore → ℕ
pending s = Delta.len s.delta

unfoldable pub merged_edges : UnstableSort → LsmStore → Result EdgeTable
merged_edges us s = apply us s.delta s.snapshot.edges

-- `compact`: a snapshot with the delta folded in.
unfoldable pub compact : UnstableSort → TemporalGraph → DeltaBuffer → Result TemporalGraph
compact us graph delta = do
  new_edges ← apply us delta graph.edges
  new_graph us graph.nodes new_edges

-- What a compaction under both locks leaves: on an error nothing has changed.
unfoldable pub fold_delta : UnstableSort → LsmStore → Result LsmStore
fold_delta us s = do
  new_edges ← apply us s.delta s.snapshot.edges
  snapshot ← new_graph us s.snapshot.nodes new_edges
  ok (record s { snapshot = snapshot; delta = clear s.delta })

unfoldable pub compact_now : UnstableSort → LsmStore → Result (Unit {0}) × LsmStore
unfolding fold_delta
compact_now us s =
    if is_empty s.delta
    then (ok tt, s)
    else elim (fold_delta us s) [ ok s' ↦ (ok tt, s') | err e ↦ (err e, s) ]

-- The body of the background loop behind its tests: an error is dropped.
unfoldable pub compact_quietly : UnstableSort → LsmStore → LsmStore
unfolding fold_delta
compact_quietly us s =
    if is_empty s.delta then s else elim (fold_delta us s) [ ok s' ↦ s' | err e ↦ s ]

unfoldable pub spawn_background : LsmStore → LsmStore
spawn_background s = elim s.handle [ none ↦ record s { handle = some checking } | some _ ↦ s ]

abbrev pub at : LsmStore → Phase → LsmStore
at s p = record s { handle = some p }

unfoldable pub tick_from : UnstableSort → LsmStore → Phase → LsmStore
tick_from us s checking = if s.stop then at s finished else at s sleeping
tick_from us s sleeping = at s woken
tick_from us s woken = if s.stop then at s finished else at s working
tick_from us s working = at (compact_quietly us s) checking
tick_from us s finished = s

-- One step of the background thread, if there is one.
unfoldable pub tick : UnstableSort → LsmStore → LsmStore
unfolding tick_from
tick us s = elim s.handle [ none ↦ s | some p ↦ tick_from us s p ]

-- `stop_background`, up to the `join` ...
unfoldable pub signal_stop : LsmStore → LsmStore
signal_stop s = record s { stop = true }

-- ... and the `join`, which waits until the thread has ended.
abbrev pub can_join : LsmStore → Bool
can_join s = elim s.handle [ none ↦ true | some finished ↦ true | some _ ↦ false ]

unfoldable pub join : LsmStore → LsmStore
join s = record s { handle = none }
