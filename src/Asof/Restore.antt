-- ===== src/Asof/Restore.antt =====
-- The join for left times in any order: the argsort visits every position once, in ascending time.
use mathlib.Core.List.Perm
use gtvdb.Base.{
  ℕ, zero, suc, ◌+◌, ◌<◌, ◌≤◌, ◌≡◌, refl, sym, ap, ap₂, ◌∙◌, Bool, true, false, ◌||◌, Option, none,
  some, List, [], ◌∷◌, map, length, get_or, set, replicate, All, All-imp, arith, if◌then◌else◌,
  Bool-cases, inl, inr, ◌==◌, ==_iff, ltb, ltb→lt, lt→ltb, length-set, length-replicate, length-map,
  get_or-set, All-mem, if_true, if_false,
}
use gtvdb.Base.Int.{ℤ, ◌≤ℤ◌, ltb_ℤ}
use gtvdb.Base.Filter.{contains, contains_iff, any-perm, All-perm}
use gtvdb.Base.Order.{int_order}
use gtvdb.Base.Sort.{UnstableSort, IsSorted, by_key, by_key-IsWeakOrder}
use gtvdb.Asof.{
  Cursor, advance, merge_ordered, start, asof_join_unsorted_inner, asof_join, range, left_order,
}
use gtvdb.Asof.Merge.{as_of, last-advance, as_of-advance, advance-IsSorted, not_below}

-- Lists of one length with the same items are equal.
get_or-ext {ℓ} :
    {A : Type ℓ} (d : A) (xs ys : List A)
    → length xs ≡ length ys
    → ((j : ℕ) → j < length ys → get_or xs j d ≡ get_or ys j d)
    → xs ≡ ys
get_or-ext d [] [] size h = refl
get_or-ext d [] (y ∷ ys) size h = absurd (omega arith)
get_or-ext d (x ∷ xs) [] size h = absurd (omega arith)
get_or-ext d (x ∷ xs) (y ∷ ys) size h =
    ap₂ (◌∷◌) (h 0 (omega arith))
      (get_or-ext d xs ys (omega arith) (λ j lt. h (suc j) (omega arith)))

get_or-map {ℓ κ} :
    {A : Type ℓ} {B : Type κ} (f : A → B) (xs : List A) (j : ℕ) (a : A) (b : B)
    → j < length xs
    → get_or (map f xs) j b ≡ f (get_or xs j a)
get_or-map f [] j a b lt = elim lt [ ]
get_or-map f (x ∷ xs) zero a b lt = refl
get_or-map f (x ∷ xs) (suc j) a b lt = get_or-map f xs j a b (omega arith)

contains-range : (j i n : ℕ) → i ≤ j → j < i + n → contains j (range i n) ≡ true
contains-range j i zero h lt = absurd (omega arith)
contains-range j i (suc n) h lt = elim (Bool-cases (j == i)) [
  | inl e ↦ rw e refl
  | inr e ↦ rw e (contains-range j (suc i) n (ground (arith, ==_iff j i)) (omega arith))
]

All-range : (i n : ℕ) → All (λ j. ltb j (n + i) ≡ true) (range i n)
All-range i zero = tt
All-range i (suc n) = (
  lt→ltb i (suc n + i) (omega arith),
  All-imp (λ j lt. ground arith) (range (suc i) n) (All-range (suc i) n),
)

or_true_left : (a b : Bool) → a ≡ true → (a || b) ≡ true
or_true_left a b h = ground arith

or_true_right : (a b : Bool) → b ≡ true → (a || b) ≡ true
or_true_right a b h = ground arith

or_false : (a b : Bool) → a ≡ false → b ≡ false → (a || b) ≡ false
or_false a b h k = ground arith

==-flip : (a b : ℕ) → (a == b) ≡ false → (b == a) ≡ false
==-flip a b h = ground arith

abbrev time_at : List ℤ → ℕ → ℤ
time_at left_times i = get_or left_times i (ℤ.pos 0)

-- Positions in ascending order of their time.
abbrev IsInTime : List ℤ → List ℕ → Type 0
IsInTime left_times = IsSorted (by_key int_order (time_at left_times))

later_in_order :
    (left_times : List ℤ) (i j : ℕ) (order : List ℕ)
    → IsInTime left_times (i ∷ order)
    → contains j order ≡ true
    → time_at left_times i ≤ℤ time_at left_times j
later_in_order left_times i j order h m = not_below (time_at left_times i) (time_at left_times j) (
    All-mem (λ y. ltb_ℤ (time_at left_times y) (time_at left_times i) ≡ false) j order h.0
      ((contains_iff j order).0 m))

module _ {T : Type 0} (left_times : List ℤ) where
  merge_ordered-length :
      (order : List ℕ) (c : Cursor T) (out : List (Option T))
      → length (merge_ordered left_times order c out) ≡ length out
  unfolding merge_ordered
  merge_ordered-length [] c out = refl
  merge_ordered-length (i ∷ order) c out =
      merge_ordered-length order _ (set out i _) ∙ length-set out i _

  -- Position `j` is answered with its time where the order has it, and untouched elsewhere.
  merge_ordered_lem :
      (order : List ℕ) (times : List ℤ) (values : List T) (last : Option T) (out : List (Option T))
      (j : ℕ)
      → IsInTime left_times order
      → IsSorted ltb_ℤ times
      → All (λ i. i < length out) order
      → get_or
          (merge_ordered left_times order
            (record { times = times; values = values; last = last })
            out)
          j
          none
        ≡ (if contains j order
            then as_of (time_at left_times j) times values last
            else get_or out j none)
  unfolding merge_ordered
  merge_ordered_lem [] times values last out j ho hr inside = refl
  merge_ordered_lem (i ∷ order) times values last out j ho hr inside =
      let lt = time_at left_times i in
      let c = advance lt times values last in
      let out' = set out i c.last in
      let ih =
        merge_ordered_lem order c.times c.values c.last out' j ho.1
          (advance-IsSorted lt times values last hr)
          (All-imp (λ k below. omega (arith, length-set out i c.last)) order inside.1) in
      let written = get_or-set out i j c.last none inside.0 in
      let now = last-advance lt times values last hr in
      elim (Bool-cases (contains j order)) [
        | inl m ↦
            let rest =
              as_of-advance lt (time_at left_times j) times values last
                (later_in_order left_times i j order ho m) in
            ih ∙ if_true _ _ m ∙ rest ∙ sym (if_true _ _ (or_true_right (j == i) _ m))
        | inr m ↦ elim (Bool-cases (j == i)) [
          | inl e ↦
              let same = (==_iff j i).0 e in
              ih
              ∙ if_false _ _ m
              ∙ written
              ∙ if_true _ _ ((==_iff i j).1 (sym same))
              ∙ now
              ∙ ap (λ k. as_of (time_at left_times k) times values last) (sym same)
              ∙ sym (if_true _ _ (or_true_left (j == i) _ e))
          | inr e ↦
              ih
              ∙ if_false _ _ m
              ∙ written
              ∙ if_false _ _ (==-flip j i e)
              ∙ sym (if_false _ _ (or_false (j == i) _ e m))
        ]
      ]

module _ {T : Type 0} (us : UnstableSort) (left times : List ℤ) (values : List T)
    (ascend : IsSorted ltb_ℤ times) where
  order-inside : All (λ i. i < length left) (left_order us left)
  order-inside =
      All-imp (λ i h. ltb→lt i (length left) h) (left_order us left)
        (All-perm (λ i. ltb i (length left)) (Perm.symm (us.sort-perm ℕ _ (range 0 (length left))))
          (All-imp (λ j h. ground arith) (range 0 (length left)) (All-range 0 (length left))))

  order-contains : (j : ℕ) → j < length left → contains j (left_order us left) ≡ true
  order-contains j lt =
      any-perm (λ y. j == y) (us.sort-perm ℕ _ (range 0 (length left)))
      ∙ contains-range j 0 (length left) (omega arith) (omega arith)

  abbrev no_value : Option T
  no_value = none

  merged : List (Option T)
  merged =
      merge_ordered left (left_order us left) (start times values) (replicate (length left) none)

  merged_lem : merged ≡ map (λ t. as_of t times values none) left
  unfolding merged
  merged_lem =
      get_or-ext none _ _
        (merge_ordered-length left (left_order us left) _ _
          ∙ length-replicate (length left) none
          ∙ sym (length-map _ left))
        (λ j lt.
          let inside : j < length left =
            omega (arith, length-map (λ t. as_of t times values none) left) in
          merge_ordered_lem left (left_order us left) times values none _ j
            (us.sort-IsSorted ℕ _ (by_key-IsWeakOrder int_order (time_at left))
              (range 0 (length left)))
            ascend
            (All-imp (λ i below. omega (arith, length-replicate (length left) no_value))
              (left_order us left) order-inside)
          ∙ if_true _ _ (order-contains j inside)
          ∙ sym (get_or-map (λ t. as_of t times values none) left j (ℤ.pos 0) none inside))

  unsorted_inner_lem :
      asof_join_unsorted_inner us left times values ≡ map (λ t. as_of t times values none) left
  unfolding asof_join_unsorted_inner merged
  unsorted_inner_lem = elim (Bool-cases (length left == 0)) [
    | inl e ↦ if_true _ _ e ∙ no_left left ((==_iff (length left) 0).0 e)
    | inr e ↦ if_false _ _ e ∙ merged_lem
  ]
    where
      no_left : (xs : List ℤ) → length xs ≡ 0 → [] ≡ map (λ t. as_of t times values none) xs
      no_left [] h = refl
      no_left (x ∷ xs) h = absurd (omega arith)

  -- For columns of equal length, right times that ascend, and left times in any order, the join
  -- answers every left time, in place, with the last right value at or before it, and with nothing
  -- where there is none.
  pub asof_join_correct :
      length times ≡ length values
      → asof_join us left times values ≡ some (map (λ t. as_of t times values none) left)
  unfolding asof_join
  asof_join_correct size =
      if_true _ _ ((==_iff (length times) (length values)).1 size) ∙ ap some unsorted_inner_lem
