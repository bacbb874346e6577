-- ===== src/Store/Thread.antt =====
-- The background thread: one round compacts, a signal ends it, and a second one never works.
use gtvdb.Base.{
  ℕ, zero, suc, ◌≡◌, refl, ap, ◌∙◌, true, false, none, some, arith, Bool-cases, Option-cases,
  if_true, if_false, inl, inr,
}
use gtvdb.Base.Sort.{UnstableSort}
use gtvdb.Error.{Result-cases}
use gtvdb.Delta.{is_empty, apply}
use gtvdb.Graph.{new_graph}
use gtvdb.Store.Compaction.{compact_quietly_lem, compact_now-stop}
use gtvdb.Store.{
  LsmStore, Phase, checking, sleeping, woken, working, finished, compact_now, compact_quietly,
  spawn_background, at, tick, signal_stop, can_join,
}

-- `n` steps of the thread.
abbrev pub ticks : UnstableSort → ℕ → LsmStore → LsmStore
ticks us zero s = s
ticks us (suc n) s = ticks us n (tick us s)

pub at_phase : (s : LsmStore) (p : Phase) → s.handle ≡ some p → s ≡ at s p
at_phase s p h = λ i. record s { handle = h i }

module _ (us : UnstableSort) (s : LsmStore) where
  step_checking : s.stop ≡ false → tick us (at s checking) ≡ at s sleeping
  unfolding tick
  step_checking running = if_false _ _ running

  step_sleeping : tick us (at s sleeping) ≡ at s woken
  unfolding tick
  step_sleeping = refl

  step_woken : s.stop ≡ false → tick us (at s woken) ≡ at s working
  unfolding tick
  step_woken running = if_false _ _ running

  step_working : tick us (at s working) ≡ at (compact_quietly us (at s working)) checking
  unfolding tick
  step_working = refl

  step_finished : tick us (at s finished) ≡ at s finished
  unfolding tick
  step_finished = refl

  stop_checking : s.stop ≡ true → tick us (at s checking) ≡ at s finished
  unfolding tick
  stop_checking stopped = if_true _ _ stopped

  stop_woken : s.stop ≡ true → tick us (at s woken) ≡ at s finished
  unfolding tick
  stop_woken stopped = if_true _ _ stopped

  pub step_free : s.handle ≡ none → tick us s ≡ s
  unfolding tick
  step_free free = rw free refl

-- Compaction does not look at the thread.
compact_quietly-at :
    (us : UnstableSort) (s : LsmStore) (p q : Phase)
    → at (compact_quietly us (at s p)) q ≡ at (compact_quietly us s) q
unfolding compact_quietly
compact_quietly-at us s p q = elim (Bool-cases (is_empty s.delta)) [
  | inl empty ↦ rw empty
  | inr full ↦ elim (Result-cases (apply us s.delta s.snapshot.edges)) [
    | inr (e, f) ↦ rw (full, f)
    | inl (edges, e) ↦ elim (Result-cases (new_graph us s.snapshot.nodes edges)) [
      | inr (e', f) ↦ rw (full, e, f)
      | inl (g, f) ↦ rw (full, e, f)
    ]
  ]
]

-- A thread that is about to test the flag, while no stop is signalled, has after four steps done to
-- the store what `compact_now` does, and is about to test the flag again.
background_round :
    (us : UnstableSort) (s : LsmStore)
    → s.stop ≡ false
    → s.handle ≡ some checking
    → ticks us 4 s ≡ record (compact_now us s).1 { handle = some checking }
background_round us s running start =
    ap (ticks us 4) (at_phase s checking start)
    ∙ ap (ticks us 3) (step_checking us s running)
    ∙ ap (ticks us 2) (step_sleeping us s)
    ∙ ap (ticks us 1) (step_woken us s running)
    ∙ step_working us s
    ∙ compact_quietly-at us s working checking
    ∙ ap (λ t. at t checking) (compact_quietly_lem us s)

compact_quietly-stop : (us : UnstableSort) (s : LsmStore) → (compact_quietly us s).stop ≡ s.stop
compact_quietly-stop us s = rw (compact_quietly_lem us s) ((compact_now-stop us s).0)

two_steps :
    (us : UnstableSort) (s : LsmStore) (p : Phase)
    → s.stop ≡ true
    → can_join (ticks us 2 (at s p)) ≡ true
two_steps us s checking h =
    ap (λ t. can_join (tick us t)) (stop_checking us s h) ∙ ap can_join (step_finished us s)
two_steps us s sleeping h =
    ap (λ t. can_join (tick us t)) (step_sleeping us s) ∙ ap can_join (stop_woken us s h)
two_steps us s woken h =
    ap (λ t. can_join (tick us t)) (stop_woken us s h) ∙ ap can_join (step_finished us s)
two_steps us s working h =
    ap (λ t. can_join (tick us t)) (step_working us s)
    ∙ ap can_join (
        stop_checking us (compact_quietly us (at s working))
          (compact_quietly-stop us (at s working) ∙ h))
two_steps us s finished h =
    ap (λ t. can_join (tick us t)) (step_finished us s) ∙ ap can_join (step_finished us s)

-- After the signal the thread ends within two of its steps, wherever it stands, so `join` returns.
pub stop_ends_thread :
    (us : UnstableSort) (s : LsmStore) → can_join (ticks us 2 (signal_stop s)) ≡ true
unfolding signal_stop
stop_ends_thread us s =
    let t : LsmStore = record s { stop = true } in
    elim (Option-cases s.handle) [
      | inl free ↦
          ap (λ u. can_join (tick us u)) (step_free us t free)
          ∙ ap can_join (step_free us t free)
          ∙ rw free refl
      | inr (p, h) ↦ ap (λ u. can_join (ticks us 2 u)) (at_phase t p h) ∙ two_steps us t p refl
    ]

ticks_finished :
    (us : UnstableSort) (n : ℕ) (s : LsmStore) → ticks us n (at s finished) ≡ at s finished
ticks_finished us zero s = refl
ticks_finished us (suc n) s = ap (ticks us n) (step_finished us s) ∙ ticks_finished us n s

spawned : (s : LsmStore) → s.handle ≡ none → spawn_background s ≡ at s checking
unfolding spawn_background
spawned s free = ground arith

-- A thread that is spawned after a stop was signalled never changes the snapshot or the delta: the
-- flag is not reset.
pub respawned_thread_idles :
    (us : UnstableSort) (s : LsmStore) (n : ℕ)
    → s.stop ≡ true
    → s.handle ≡ none
    → ((ticks us n (spawn_background s)).snapshot ≡ s.snapshot)
      × ((ticks us n (spawn_background s)).delta ≡ s.delta)
respawned_thread_idles us s zero stopped free = rw (spawned s free) (refl, refl)
respawned_thread_idles us s (suc n) stopped free =
    let idle : ticks us (suc n) (at s checking) ≡ at s finished =
      ap (ticks us n) (stop_checking us s stopped) ∙ ticks_finished us n s in
    rw (spawned s free) (ap (λ t. t.snapshot) idle, ap (λ t. t.delta) idle)
