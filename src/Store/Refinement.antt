-- ===== src/Store/Refinement.antt =====
-- Every interleaving of clients and background thread refines a plain set of edges: only `insert`
-- and `delete` change what a reader sees.
use gtvdb.Base.{
  ◌≡◌, refl, ap, ◌∙◌, Bool, true, not, ◌&&◌, ◌||◌, List, [], ◌∷◌, Option-cases, inl, inr, if_true,
  if_false, fun_ext, Bool-cases,
}
use gtvdb.Base.Sort.{UnstableSort}
use gtvdb.Delta.{DeltaEdge}
use gtvdb.Delta.Apply.{same}
use gtvdb.Delta.View.{view-insert, view-delete}
use gtvdb.Store.{
  LsmStore, Phase, checking, sleeping, woken, working, finished, insert, delete, compact_now,
  spawn_background, at, tick_from, tick, signal_stop, can_join, join,
}
use gtvdb.Store.Thread.{at_phase, step_free}
use gtvdb.Store.Compaction.{store_view, compact_now-view, compact_quietly_lem}

-- What a reader of the edge set may notice of a step.
pub data Event : Type 0 where
  inserted deleted : DeltaEdge → Event
  internal : Event

pub data Step (us : UnstableSort) : LsmStore → Event → LsmStore → Type 0 where
  do_insert : (s : LsmStore) (e : DeltaEdge) → Step us s (inserted e) (insert e s)
  do_delete : (s : LsmStore) (e : DeltaEdge) → Step us s (deleted e) (delete e s)
  do_compact : (s : LsmStore) → Step us s internal (compact_now us s).1
  do_spawn : (s : LsmStore) → Step us s internal (spawn_background s)
  do_tick : (s : LsmStore) → Step us s internal (tick us s)
  do_signal : (s : LsmStore) → Step us s internal (signal_stop s)
  do_join : (s : LsmStore) → can_join s ≡ true → Step us s internal (join s)

pub data Run (us : UnstableSort) : LsmStore → List Event → LsmStore → Type 0 where
  stay : (s : LsmStore) → Run us s [] s
  more :
      {s t u : LsmStore} {e : Event} {es : List Event}
      → Step us s e t
      → Run us t es u
      → Run us s (e ∷ es) u

-- The abstract store: a set of edges.
abbrev pub spec_step : Event → (DeltaEdge → Bool) → DeltaEdge → Bool
spec_step (inserted e) edges z = same z e || edges z
spec_step (deleted e) edges z = not (same z e) && edges z
spec_step internal edges z = edges z

abbrev pub spec_run : List Event → (DeltaEdge → Bool) → DeltaEdge → Bool
spec_run [] edges = edges
spec_run (e ∷ es) edges = spec_run es (spec_step e edges)

tick_from-view :
    (us : UnstableSort) (s : LsmStore) (p : Phase) (z : DeltaEdge)
    → store_view (tick_from us s p) z ≡ store_view s z
unfolding tick_from
tick_from-view us s checking z = elim (Bool-cases s.stop) [
  | inl e ↦ ap (λ t. store_view t z) (if_true _ _ e)
  | inr e ↦ ap (λ t. store_view t z) (if_false _ _ e)
]
tick_from-view us s sleeping z = refl
tick_from-view us s woken z = elim (Bool-cases s.stop) [
  | inl e ↦ ap (λ t. store_view t z) (if_true _ _ e)
  | inr e ↦ ap (λ t. store_view t z) (if_false _ _ e)
]
tick_from-view us s working z =
    ap (λ t. store_view t z) (compact_quietly_lem us s) ∙ compact_now-view us s z
tick_from-view us s finished z = refl

tick-view :
    (us : UnstableSort) (s : LsmStore) (z : DeltaEdge) → store_view (tick us s) z ≡ store_view s z
unfolding tick
tick-view us s z = elim (Option-cases s.handle) [
  | inl free ↦ ap (λ t. store_view t z) (step_free us s free)
  | inr (p, h) ↦
      ap (λ t. store_view (tick us t) z) (at_phase s p h) ∙ tick_from-view us (at s p) p z
]

spawn-view : (s : LsmStore) (z : DeltaEdge) → store_view (spawn_background s) z ≡ store_view s z
unfolding spawn_background
spawn-view s z = elim (Option-cases s.handle) [ inl free ↦ rw free refl | inr (p, h) ↦ rw h refl ]

Step-view :
    (us : UnstableSort) {s s' : LsmStore} {e : Event}
    → Step us s e s'
    → (z : DeltaEdge) → store_view s' z ≡ spec_step e (store_view s) z
unfolding insert delete signal_stop join
Step-view us (do_insert s e) z = view-insert e s.delta _ z
Step-view us (do_delete s e) z = view-delete e s.delta _ z
Step-view us (do_compact s) z = compact_now-view us s z
Step-view us (do_spawn s) z = spawn-view s z
Step-view us (do_tick s) z = tick-view us s z
Step-view us (do_signal s) z = refl
Step-view us (do_join s _) z = refl

-- After any sequence of operations of the store, with the background thread's steps between them, a
-- reader sees the edges that the insertions and deletions alone give; nothing else changes them.
pub Run-refines :
    (us : UnstableSort) (s s' : LsmStore) (events : List Event)
    → Run us s events s'
    → (z : DeltaEdge) → store_view s' z ≡ spec_run events (store_view s) z
Run-refines us s s' [] (stay _) z = refl
Run-refines us s s' (e ∷ es) (more {t = t} step run) z =
    Run-refines us t s' es run z ∙ ap (λ edges. spec_run es edges z) (fun_ext (Step-view us step))
