-- ===== src/Snapshot/Reads.antt =====
-- What a read looks at: the versions of one table in the map.
use Prim.Native.String.{String, ◌++◌ as append}
use text.Mathlib.Text.{◌==◌ as str_eq}
use text.Mathlib.TextEquality.{eq_iff}
use gtvdb.Base.{
  Bool, true, false, not, ◌&&◌, ◌≡◌, refl, sym, ap, ◌∙◌, Option, none, some, Option-cases, List, [],
  ◌∷◌, if◌then◌else◌, arith, inl, inr, Bool-cases, if_true, if_false,
}
use gtvdb.Base.Int.{ℤ, leb_ℤ, ltb_ℤ}
use gtvdb.Base.Filter.{any}
use gtvdb.Base.Sort.{IsSorted}
use gtvdb.Snapshot.{
  ok, err, msg, unknown_table, to_option, Snapshot, TableVersions, SnapshotStore, get, put, entry,
  find_last, timestamp_lt, as_of,
}

same_name : (a b c : String) → str_eq a b ≡ true → str_eq a c ≡ str_eq b c
same_name a b c h = ap (λ x. str_eq x c) ((eq_iff a b).0 h)

other_name : (a b c : String) → str_eq a b ≡ false → str_eq a c ≡ true → str_eq b c ≡ false
other_name a b c h k = elim (Bool-cases (str_eq b c)) [
  | inr e ↦ e
  | inl e ↦ cc (h, (eq_iff a b).1 ((eq_iff a c).0 k ∙ sym ((eq_iff b c).0 e)))
]

skipped {ℓ} :
    {V : Type ℓ} (table table' : String) (v : V) (a b : Option V)
    → (str_eq table table' ≡ false → a ≡ b)
    → (if str_eq table table' then some v else b) ≡ (if str_eq table table' then some v else a)
skipped table table' v a b h = elim (Bool-cases (str_eq table table')) [
  | inl k ↦ if_true _ _ k ∙ sym (if_true _ _ k)
  | inr k ↦ if_false _ _ k ∙ sym (h k) ∙ sym (if_false _ _ k)
]

pub get-put {ℓ} :
    {V : Type ℓ} (table table' : String) (v : V) (store : List (String × V))
    → get table' (put table v store) ≡ (if str_eq table table' then some v else get table' store)
get-put table table' v [] = refl
get-put table table' v ((name, w) ∷ rest) = elim (Bool-cases (str_eq name table)) [
  | inl e ↦
      ap (get table') (if_true _ _ e)
      ∙ ap (λ b. if b then some v else get table' rest) (same_name name table table' e)
      ∙ skipped table table' v (if str_eq name table' then some w else get table' rest)
          (get table' rest) (λ k. if_false _ _ (same_name name table table' e ∙ k))
  | inr e ↦ ap (get table') (if_false _ _ e) ∙ elim (Bool-cases (str_eq name table')) [
    | inl k ↦
        if_true _ _ k ∙ sym (if_true _ _ k) ∙ sym (if_false _ _ (other_name name table table' e k))
    | inr k ↦
        if_false _ _ k
        ∙ get-put table table' v rest
        ∙ ap (λ r. if str_eq table table' then some v else r) (sym (if_false _ _ k))
  ]
]

-- At `t` a snapshot taken at `timestamp` is past, and none of the others is between the two.
abbrev pub is_newest : {Batch : Type 0} → ℤ → ℤ → List (Snapshot Batch) → Bool
is_newest timestamp t snapshots =
    leb_ℤ timestamp t
    && not (any (λ s. ltb_ℤ timestamp s.timestamp && leb_ℤ s.timestamp t) snapshots)

abbrev pub batches_of : {Batch : Type 0} → Option (Snapshot Batch) → Option (List Batch)
batches_of none = none
batches_of (some s) = some s.batches

pub batches_of-if :
    {Batch : Type 0} (b : Bool) (s : Snapshot Batch) (r : Option (Snapshot Batch))
    → batches_of (if b then some s else r) ≡ (if b then some s.batches else batches_of r)
batches_of-if true s r = refl
batches_of-if false s r = refl

pub and_true_left : (a b : Bool) → a ≡ true → (a && b) ≡ b
and_true_left a b h = ground arith

module _ {Batch Schema : Type 0} where
  -- The snapshots of a table, none for a table that is not there.
  abbrev pub versions_of : String → SnapshotStore Batch Schema → List (Snapshot Batch)
  versions_of table store = elim (get table store) [ none ↦ [] | some v ↦ v.snapshots ]

  -- The snapshots of every table ascend in time.
  abbrev pub IsValid : SnapshotStore Batch Schema → Type 0
  IsValid store = (table : String) → IsSorted timestamp_lt (versions_of table store)

  -- What `as_of` finds, whatever the message of a failure.
  abbrev read : String → ℤ → SnapshotStore Batch Schema → Option (List Batch)
  read table t store = to_option (as_of table t store)

  pub as_of_lem :
      (table : String) (t : ℤ) (store : SnapshotStore Batch Schema)
      → read table t store
        ≡ batches_of (find_last (λ s. leb_ℤ s.timestamp t) (versions_of table store))
  unfolding as_of
  as_of_lem table t store =
      elim (get table store)
        as (λ r.
          to_option (elim r [
            | none ↦ unknown_table table
            | some versions ↦ elim (find_last (λ s. leb_ℤ s.timestamp t) versions.snapshots) [
              | some s ↦ ok s.batches
              | none ↦ err (msg (append "no snapshot of `" (append table "` at or before")))
            ]
          ])
          ≡ batches_of (
              find_last (λ s. leb_ℤ s.timestamp t) (elim r [ none ↦ [] | some v ↦ v.snapshots ]))) [
                | none ↦ refl
                | some v ↦ elim (Option-cases (find_last (λ s. leb_ℤ s.timestamp t) v.snapshots)) [
                  | inl f ↦ rw f refl
                  | inr (s, f) ↦ rw f refl
                ]
              ]

  pub entry-versions :
      (table : String) (schema : Schema) (store : SnapshotStore Batch Schema)
      → (entry table schema store).snapshots ≡ versions_of table store
  entry-versions table schema store =
      elim (get table store)
        as (λ r.
          (elim r as (λ _. TableVersions Batch Schema) [
            | some versions ↦ versions
            | none ↦ record { schema = schema; snapshots = [] }
          ]).snapshots
          ≡ elim r [ none ↦ [] | some v ↦ v.snapshots ]) [ none ↦ refl | some v ↦ refl ]

  pub versions_of-put :
      (table table' : String) (v : TableVersions Batch Schema) (store : SnapshotStore Batch Schema)
      → versions_of table' (put table v store)
        ≡ (if str_eq table table' then v.snapshots else versions_of table' store)
  versions_of-put table table' v store =
      ap (λ r. elim r [ none ↦ [] | some v ↦ v.snapshots ]) (get-put table table' v store)
      ∙ elim (Bool-cases (str_eq table table')) [ inl e ↦ rw e refl | inr e ↦ rw e refl ]
