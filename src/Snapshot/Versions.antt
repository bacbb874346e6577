-- ===== src/Snapshot/Versions.antt =====
-- The versions of one table: what a push does to the newest snapshot before a time.
use gtvdb.Base.{
  Bool, true, false, not, ◌&&◌, ◌≡◌, refl, sym, ap, ◌∙◌, ◌||◌, Option-cases, Option, none, some,
  List, [], ◌∷◌, if◌then◌else◌, All, All-imp, arith, inl, inr, Bool-cases, if_true, if_false,
}
use gtvdb.Base.Int.{ℤ, leb_ℤ, ltb_ℤ}
use gtvdb.Base.Filter.{any}
use gtvdb.Base.Order.{int_order}
use gtvdb.Base.Sort.{
  by_key, by_key-IsWeakOrder, sort_by-IsSorted, IsSorted, insert_last, sort_by-insert_last,
}
use gtvdb.Snapshot.{Snapshot, TableVersions, find_last, timestamp_lt, push}

module _ {A : Type 0} (p : A → Bool) where
  find_last-later :
      (x y : A) (xs : List A) → find_last p xs ≡ some y → find_last p (x ∷ xs) ≡ some y
  find_last-later x y xs h = rw h refl

  find_last-here :
      (x : A) (xs : List A)
      → find_last p xs ≡ none
      → find_last p (x ∷ xs) ≡ (if p x then some x else none)
  find_last-here x xs h = rw h refl

  find_last-some : (x : A) (xs : List A) → p x ≡ true → (y : A) × (find_last p (x ∷ xs) ≡ some y)
  find_last-some x xs h = elim (Option-cases (find_last p xs)) [
    | inl e ↦ (x, find_last-here x xs e ∙ if_true _ _ h)
    | inr (y, e) ↦ (y, find_last-later x y xs e)
  ]

pub and_false_left : (a b : Bool) → a ≡ false → (a && b) ≡ false
and_false_left a b h = ground arith

or_false_left : (a b : Bool) → a ≡ false → (a || b) ≡ b
or_false_left a b h = ground arith

barred : (a b c d : Bool) → c ≡ true → d ≡ true → (a && not ((c && d) || b)) ≡ false
barred a b c d h k = ground arith

open_to : (a b : Bool) → b ≡ false → (a && not b) ≡ a
open_to a b h = ground arith

late_trans : (x y t : ℤ) → ltb_ℤ y x ≡ false → leb_ℤ x t ≡ false → leb_ℤ y t ≡ false
late_trans x y t h k = ground arith

module _ {A : Type 0} (key : A → ℤ) where
  abbrev key_lt : A → A → Bool
  key_lt = by_key int_order key

  -- At or before `t`.
  abbrev by : ℤ → A → Bool
  by t x = leb_ℤ (key x) t

  -- An item after the time of `s`, but not after `t`.
  abbrev overtakes : A → ℤ → A → Bool
  overtakes s t x = key_lt s x && by t x

  find_last-none : (t : ℤ) (xs : List A) → All (λ x. by t x ≡ false) xs → find_last (by t) xs ≡ none
  find_last-none t [] h = refl
  find_last-none t (x ∷ xs) h = rw (find_last-none t xs h.1, h.0) refl

  none_overtakes :
      (s : A) (t : ℤ) (xs : List A) → All (λ x. by t x ≡ false) xs → any (overtakes s t) xs ≡ false
  none_overtakes s t [] h = refl
  none_overtakes s t (x ∷ xs) h = ground (arith, h.0, none_overtakes s t xs h.1)

  All-late :
      (t : ℤ) (x : A) (xs : List A)
      → by t x ≡ false
      → All (λ y. key_lt y x ≡ false) xs
      → All (λ y. by t y ≡ false) xs
  All-late t x xs late = All-imp (λ y above. late_trans (key x) (key y) t above late) xs

  -- What the list answers at `t` once `s` is among its items.
  abbrev answer : A → ℤ → List A → Option A
  answer s t xs = if by t s && not (any (overtakes s t) xs) then some s else find_last (by t) xs

  in_front :
      (s : A) (t : ℤ) (x : A) (xs : List A)
      → IsSorted key_lt (x ∷ xs)
      → key_lt s x ≡ true
      → find_last (by t) (s ∷ x ∷ xs) ≡ answer s t (x ∷ xs)
  in_front s t x xs h e = elim (Bool-cases (by t x)) [
    | inl k ↦
        let (y, found) = find_last-some (by t) x xs k in
        find_last-later (by t) s y (x ∷ xs) found
        ∙ sym found
        ∙ sym (if_false _ _ (barred (by t s) (any (overtakes s t) xs) _ _ e k))
    | inr k ↦
        let late : All (λ y. by t y ≡ false) (x ∷ xs) = (k, All-late t x xs k h.0) in
        let nothing = find_last-none t (x ∷ xs) late in
        find_last-here (by t) s (x ∷ xs) nothing
        ∙ ap (λ rest. if by t s then some s else rest) (sym nothing)
        ∙ ap (λ b. if b then some s else find_last (by t) (x ∷ xs))
            (sym (open_to (by t s) _ (none_overtakes s t (x ∷ xs) late)))
  ]

  behind :
      (s : A) (t : ℤ) (x : A) (xs ys : List A)
      → key_lt s x ≡ false
      → find_last (by t) ys ≡ answer s t xs
      → find_last (by t) (x ∷ ys) ≡ answer s t (x ∷ xs)
  behind s t x xs ys e ih =
      let same : any (overtakes s t) (x ∷ xs) ≡ any (overtakes s t) xs =
        or_false_left _ _ (and_false_left _ (by t x) e) in
      let same_test = ap (λ b. by t s && not b) same in
      elim (Bool-cases (by t s && not (any (overtakes s t) xs))) [
        | inl k ↦
            find_last-later (by t) x s ys (ih ∙ if_true _ _ k) ∙ sym (if_true _ _ (same_test ∙ k))
        | inr k ↦
            ap (λ r. elim r [ some y ↦ some y | none ↦ if by t x then some x else none ])
              (ih ∙ if_false _ _ k)
            ∙ sym (if_false _ _ (same_test ∙ k))
      ]

  pub find_last-insert_last :
      (s : A) (t : ℤ) (xs : List A)
      → IsSorted key_lt xs
      → find_last (by t) (insert_last key_lt s xs)
        ≡ (if by t s && not (any (overtakes s t) xs) then some s else find_last (by t) xs)
  find_last-insert_last s t [] h =
      sym (ap (λ b. if b then some s else none) (open_to (by t s) false refl))
  find_last-insert_last s t (x ∷ xs) h = elim (Bool-cases (key_lt s x)) [
    | inl e ↦ ap (find_last (by t)) (if_true _ _ e) ∙ in_front s t x xs h e
    | inr e ↦
        ap (find_last (by t)) (if_false _ _ e)
        ∙ behind s t x xs (insert_last key_lt s xs) e (find_last-insert_last s t xs h.1)
  ]

-- The newest snapshot at or before `t` once a table is given one more snapshot.
pub find_last-push :
    {Batch Schema : Type 0} (timestamp : ℤ) (batches : List Batch) (v : TableVersions Batch Schema)
    (t : ℤ)
    → IsSorted timestamp_lt v.snapshots
    → find_last (λ x. leb_ℤ x.timestamp t) (push timestamp batches v).snapshots ≡ (
        if leb_ℤ timestamp t
          && not (any (λ x. ltb_ℤ timestamp x.timestamp && leb_ℤ x.timestamp t) v.snapshots)
        then some (record { timestamp = timestamp; batches = batches })
        else find_last (λ x. leb_ℤ x.timestamp t) v.snapshots)
unfolding push
find_last-push {Batch = Batch} timestamp batches v t h =
    let new : Snapshot Batch = record { timestamp = timestamp; batches = batches } in
    ap (find_last (λ x. leb_ℤ x.timestamp t)) (
      sort_by-insert_last timestamp_lt (by_key-IsWeakOrder int_order (λ x. x.timestamp)) v.snapshots
        new h)
    ∙ find_last-insert_last (λ x. x.timestamp) new t v.snapshots h

pub push-IsSorted :
    {Batch Schema : Type 0} (timestamp : ℤ) (batches : List Batch) (v : TableVersions Batch Schema)
    → IsSorted timestamp_lt (push timestamp batches v).snapshots
unfolding push
push-IsSorted timestamp batches v =
    sort_by-IsSorted timestamp_lt (by_key-IsWeakOrder int_order (λ x. x.timestamp)) _
