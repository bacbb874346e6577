-- ===== src/Shell/Edits.antt =====
-- The command `delta` of the shell: an insertion and a compaction of the demo's store.
use gtvdb.Base.{◌≡◌, refl, ◌∙◌, ◌⊎◌, inl, inr, ◌||◌}
use gtvdb.Base.Sort.{UnstableSort}
use gtvdb.Error
use gtvdb.Error.{GtvError, Result}
use gtvdb.Table.{EdgeTable}
use gtvdb.Delta.{DeltaEdge}
use gtvdb.Delta.Apply.{same}
use gtvdb.Delta.View.{view-insert, apply_correct}
use gtvdb.Store.{LsmStore, insert, pending, merged_edges, compact_now}
use gtvdb.Store.Compaction.{store_view, compact_now_outcome}
use gtvdb.Shell.{Ended, done, failed, core, DeltaReport, demo_edge, delta_command}

module _ (us : UnstableSort) (s : LsmStore) where
  merged_edges-ok : (t : LsmStore) → (edges : EdgeTable) × (merged_edges us t ≡ Error.ok edges)
  unfolding merged_edges
  merged_edges-ok t =
      let applied = apply_correct us t.delta t.snapshot.edges in (applied.0, applied.1)

  inserted_view :
      (z : DeltaEdge) → store_view (insert demo_edge s) z ≡ (same z demo_edge || store_view s z)
  unfolding insert
  inserted_view z = view-insert demo_edge s.delta _ z

  -- How the command may end: with a report of an empty delta, or with the error of a compaction, which
  -- leaves the edge pending.
  abbrev pub IsDeltaEnd : Ended DeltaReport × LsmStore → Type 0
  IsDeltaEnd end =
      ((report : DeltaReport) × (end.0 ≡ done report)
        × (report.compacted_pending ≡ 0)
        × (pending end.1 ≡ 0))
      ⊎ ((e : GtvError) × (end ≡ (failed (core e), insert demo_edge s)))

  -- The command `delta` inserts its edge into the logical edges and changes no other. It reports an empty
  -- delta, or the error of the compaction, behind which the store has the edge pending.
  pub delta_command_outcome :
      IsDeltaEnd (delta_command us s)
      × ((z : DeltaEdge)
          → store_view (delta_command us s).1 z ≡ (same z demo_edge || store_view s z))
  unfolding delta_command
  delta_command_outcome =
      let before = merged_edges-ok s in
      let inserted = merged_edges-ok (insert demo_edge s) in
      let merged = merged_edges-ok (compact_now us (insert demo_edge s)).1 in
      elim (compact_now_outcome us (insert demo_edge s)) [
        | inl (compacted, empty, same_view) ↦
            rw (before.1, inserted.1, compacted, merged.1)
              (inl (_, refl, empty, empty), λ z. same_view z ∙ inserted_view z)
        | inr (e, refused) ↦ rw (before.1, inserted.1, refused) (inr (e, refl), inserted_view)
      ]
