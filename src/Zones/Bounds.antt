-- ===== src/Zones/Bounds.antt =====
-- The bounds of a zone, and that no edge of an excluded zone is active.
use gtvdb.Base.{
  ℕ, zero, suc, ◌+◌, ◌≤◌, ◌<◌, ◌≡◌, refl, sym, ap, subst, ◌∙◌, Bool, true, false, ◌&&◌, ◌||◌, List,
  arith, ◌==◌, ==_iff, Bool-cases, inl, inr, if_false,
}
use gtvdb.Base.Int.{ℤ, ◌≤ℤ◌, ltb_ℤ, leb_ℤ}
use gtvdb.Zones.{
  excludes, min_ℤ, max_ℤ, time_at, min_over, max_over, zone_at, is_active_at, mark_range, i64_max,
  i64_min,
}

min-le-left : (a b : ℤ) → min_ℤ a b ≤ℤ a
min-le-left a b = elim (Bool-cases (ltb_ℤ b a)) [
  | inl e ↦ rw e (ground arith)
  | inr e ↦ rw e (ground arith)
]

min-le-right : (a b : ℤ) → min_ℤ a b ≤ℤ b
min-le-right a b = elim (Bool-cases (ltb_ℤ b a)) [
  | inl e ↦ rw e (ground arith)
  | inr e ↦ rw e (ground arith)
]

le-max-left : (a b : ℤ) → a ≤ℤ max_ℤ a b
le-max-left a b = elim (Bool-cases (ltb_ℤ a b)) [
  | inl e ↦ rw e (ground arith)
  | inr e ↦ rw e (ground arith)
]

le-max-right : (a b : ℤ) → b ≤ℤ max_ℤ a b
le-max-right a b = elim (Bool-cases (ltb_ℤ a b)) [
  | inl e ↦ rw e (ground arith)
  | inr e ↦ rw e (ground arith)
]

≤ℤ-trans : (a b c : ℤ) → a ≤ℤ b → b ≤ℤ c → a ≤ℤ c
≤ℤ-trans a b c h k = omega (arith, h, k)

or_false_left : (a b : Bool) → a ≡ false → (a || b) ≡ b
or_false_left a b h = ground arith

min_over-le_start : (xs : List ℤ) (i n : ℕ) (m : ℤ) → min_over xs i n m ≤ℤ m
unfolding min_over
min_over-le_start xs i zero m = omega arith
min_over-le_start xs i (suc n) m =
    let m' = min_ℤ m (time_at xs i) in
    ≤ℤ-trans (min_over xs (suc i) n m') m' m (min_over-le_start xs (suc i) n m')
      (min-le-left m (time_at xs i))

min_over-le :
    (xs : List ℤ) (i n : ℕ) (m : ℤ) (j : ℕ) → i ≤ j → j < i + n → min_over xs i n m ≤ℤ time_at xs j
unfolding min_over
min_over-le xs i zero m j h k = absurd (omega arith)
min_over-le xs i (suc n) m j h k = elim (Bool-cases (i == j)) [
  | inl e ↦
      let m' = min_ℤ m (time_at xs i) in
      ≤ℤ-trans (min_over xs (suc i) n m') m' (time_at xs j) (min_over-le_start xs (suc i) n m')
        (subst (λ k. m' ≤ℤ time_at xs k) ((==_iff i j).0 e) (min-le-right m (time_at xs i)))
  | inr e ↦
      min_over-le xs (suc i) n (min_ℤ m (time_at xs i)) j (ground (arith, ==_iff i j)) (omega arith)
]

le-max_over_start : (xs : List ℤ) (i n : ℕ) (m : ℤ) → m ≤ℤ max_over xs i n m
unfolding max_over
le-max_over_start xs i zero m = omega arith
le-max_over_start xs i (suc n) m =
    let m' = max_ℤ m (time_at xs i) in
    ≤ℤ-trans m m' (max_over xs (suc i) n m') (le-max-left m (time_at xs i))
      (le-max_over_start xs (suc i) n m')

le-max_over :
    (xs : List ℤ) (i n : ℕ) (m : ℤ) (j : ℕ) → i ≤ j → j < i + n → time_at xs j ≤ℤ max_over xs i n m
unfolding max_over
le-max_over xs i zero m j h k = absurd (omega arith)
le-max_over xs i (suc n) m j h k = elim (Bool-cases (i == j)) [
  | inl e ↦
      let m' = max_ℤ m (time_at xs i) in
      subst (λ k. time_at xs k ≤ℤ max_over xs (suc i) n m') ((==_iff i j).0 e)
        (≤ℤ-trans (time_at xs i) m' (max_over xs (suc i) n m') (le-max-right m (time_at xs i))
          (le-max_over_start xs (suc i) n m'))
  | inr e ↦
      le-max_over xs (suc i) n (max_ℤ m (time_at xs i)) j (ground (arith, ==_iff i j)) (omega arith)
]

late_start : (a m t : ℤ) (b : Bool) → m ≤ℤ a → ltb_ℤ t m ≡ true → (leb_ℤ a t && b) ≡ false
late_start a m t b h k = ground arith

early_end : (a m t : ℤ) (b : Bool) → a ≤ℤ m → leb_ℤ m t ≡ true → (b && ltb_ℤ t a) ≡ false
early_end a m t b h k = ground arith

-- A zone that excludes the time has no active edge.
pub excludes→inactive :
    (from to : List ℤ) (t : ℤ) (offset len j : ℕ)
    → excludes (zone_at from to offset len) t ≡ true
    → offset ≤ j
    → j < offset + len
    → is_active_at from to t j ≡ false
unfolding excludes zone_at
excludes→inactive from to t offset len j h lo hi =
    elim (Bool-cases (ltb_ℤ t (min_over from offset len i64_max))) [
      | inl e ↦ late_start (time_at from j) _ t _ (min_over-le from offset len i64_max j lo hi) e
      | inr e ↦
          early_end (time_at to j) _ t _ (le-max_over to offset len i64_min j lo hi)
            (sym (or_false_left _ _ e) ∙ h)
    ]

-- Where no edge is active, the loop sets no bit.
pub mark_range-inactive :
    (from to : List ℤ) (t : ℤ) (i n : ℕ) (bits : List ℕ)
    → ((j : ℕ) → i ≤ j → j < i + n → is_active_at from to t j ≡ false)
    → mark_range from to t i n bits ≡ bits
unfolding mark_range
mark_range-inactive from to t i zero bits h = refl
mark_range-inactive from to t i (suc n) bits h =
    ap (mark_range from to t (suc i) n) (if_false _ _ (h i (omega arith) (omega arith)))
    ∙ mark_range-inactive from to t (suc i) n bits (λ j lo hi. h j (omega arith) (omega arith))
