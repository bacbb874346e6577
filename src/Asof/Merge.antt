-- ===== src/Asof/Merge.antt =====
-- The monotone merge against a scan of the whole right series for every left time.
use gtvdb.Base.{
  ◌≡◌, refl, sym, ap, ap₂, ◌∙◌, true, false, Option, none, some, List, [], ◌∷◌, map, length, All,
  All-imp, arith, if◌then◌else◌, Bool-cases, inl, inr, ==_iff,
}
use gtvdb.Base.Int.{ℤ, ◌≤ℤ◌, leb_ℤ, ltb_ℤ}
use gtvdb.Base.Sort.{IsSorted}
use gtvdb.Asof.{advance, merge_sorted, asof_join_sorted_inner, asof_join_sorted}

late_trans : (x t lt : ℤ) → ltb_ℤ x t ≡ false → leb_ℤ t lt ≡ false → leb_ℤ x lt ≡ false
late_trans x t lt h k = ground arith

pub not_below : (x y : ℤ) → ltb_ℤ y x ≡ false → x ≤ℤ y
not_below x y h = ground arith

module _ {T : Type 0} where
  -- The last value of the series whose time is at or before `t`, or `otherwise`.
  abbrev pub as_of : ℤ → List ℤ → List T → Option T → Option T
  as_of t (x ∷ times) (v ∷ values) otherwise =
      as_of t times values (if leb_ℤ x t then some v else otherwise)
  as_of t _ _ otherwise = otherwise

  as_of-late :
      (t : ℤ) (times : List ℤ) (values : List T) (otherwise : Option T)
      → All (λ x. leb_ℤ x t ≡ false) times
      → as_of t times values otherwise ≡ otherwise
  as_of-late t [] values otherwise h = refl
  as_of-late t (x ∷ times) [] otherwise h = refl
  as_of-late t (x ∷ times) (v ∷ values) otherwise h =
      rw h.0 (as_of-late t times values otherwise h.1)

  -- What the cursor has seen after it was advanced.
  pub last-advance :
      (lt : ℤ) (times : List ℤ) (values : List T) (last : Option T)
      → IsSorted ltb_ℤ times
      → (advance lt times values last).last ≡ as_of lt times values last
  unfolding advance
  last-advance lt [] values last h = refl
  last-advance lt (t ∷ times) [] last h = refl
  last-advance lt (t ∷ times) (v ∷ values) last h = elim (Bool-cases (leb_ℤ t lt)) [
    | inl e ↦ rw e (last-advance lt times values (some v) h.1)
    | inr e ↦
        let late = All-imp (λ x above. late_trans x t lt above e) times h.0 in
        rw e (sym (as_of-late lt times values last late))
  ]

  -- A later time is answered by what is left as by the whole.
  pub as_of-advance :
      (lt t : ℤ) (times : List ℤ) (values : List T) (last : Option T)
      → lt ≤ℤ t
      → as_of t
          (advance lt times values last).times
          (advance lt times values last).values
          (advance lt times values last).last
        ≡ as_of t times values last
  unfolding advance
  as_of-advance lt t [] values last h = refl
  as_of-advance lt t (x ∷ times) [] last h = refl
  as_of-advance lt t (x ∷ times) (v ∷ values) last h = elim (Bool-cases (leb_ℤ x lt)) [
    | inl e ↦
        let later : leb_ℤ x t ≡ true = ground arith in
        rw (e, later) (as_of-advance lt t times values (some v) h)
    | inr e ↦ rw e refl
  ]

  pub advance-IsSorted :
      (lt : ℤ) (times : List ℤ) (values : List T) (last : Option T)
      → IsSorted ltb_ℤ times
      → IsSorted ltb_ℤ (advance lt times values last).times
  unfolding advance
  advance-IsSorted lt [] values last h = h
  advance-IsSorted lt (t ∷ times) [] last h = h
  advance-IsSorted lt (t ∷ times) (v ∷ values) last h = elim (Bool-cases (leb_ℤ t lt)) [
    | inl e ↦ rw e (advance-IsSorted lt times values (some v) h.1)
    | inr e ↦ rw e h
  ]

  map-as_of-advance :
      (lt : ℤ) (left : List ℤ) (times : List ℤ) (values : List T) (last : Option T)
      → All (λ t. lt ≤ℤ t) left
      → map
          (λ t.
            as_of t
              (advance lt times values last).times
              (advance lt times values last).values
              (advance lt times values last).last)
          left
        ≡ map (λ t. as_of t times values last) left
  map-as_of-advance lt [] times values last h = refl
  map-as_of-advance lt (t ∷ left) times values last h =
      ap₂ (◌∷◌) (as_of-advance lt t times values last h.0)
        (map-as_of-advance lt left times values last h.1)

  merge_sorted_lem :
      (left times : List ℤ) (values : List T) (last : Option T)
      → IsSorted ltb_ℤ left
      → IsSorted ltb_ℤ times
      → merge_sorted left (record { times = times; values = values; last = last })
        ≡ map (λ t. as_of t times values last) left
  unfolding merge_sorted
  merge_sorted_lem [] times values last hl hr = refl
  merge_sorted_lem (lt ∷ left) times values last hl hr =
      let c = advance lt times values last in
      ap₂ (◌∷◌) (last-advance lt times values last hr) (
        merge_sorted_lem left c.times c.values c.last hl.1
          (advance-IsSorted lt times values last hr)
        ∙ map-as_of-advance lt left times values last (All-imp (λ t. not_below lt t) left hl.0))

  -- For columns of equal length, and left and right times that ascend, the merge answers every left
  -- time with the last right value at or before it, and with nothing where there is none.
  pub asof_join_sorted_correct :
      (left times : List ℤ) (values : List T)
      → length times ≡ length values
      → IsSorted ltb_ℤ left
      → IsSorted ltb_ℤ times
      → asof_join_sorted left times values ≡ some (map (λ t. as_of t times values none) left)
  unfolding asof_join_sorted asof_join_sorted_inner
  asof_join_sorted_correct left times values size hl hr =
      rw ((==_iff (length times) (length values)).1 size)
        (ap some (merge_sorted_lem left times values none hl hr))
