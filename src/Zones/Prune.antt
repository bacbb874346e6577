-- ===== src/Zones/Prune.antt =====
-- The zones lie side by side from the first edge to the last, so skipping the excluded ones changes
-- no bit.
use gtvdb.Base.{
  ℕ, zero, suc, ◌+◌, ◌-◌, ◌≤◌, ◌<◌, ◌≡◌, refl, sym, ap, ap₂, ◌∙◌, min, some, List, arith, length,
  ltb, ltb→lt, ltb-false→le, if◌then◌else◌, Bool-cases, inl, inr, if_true, if_false,
}
use gtvdb.Base.Int.{ℤ}
use gtvdb.Zones.{
  ZoneMap, set_bit, excludes, zone_at, zones_from, build_zone_maps, is_active_at, mark_range,
  mark_zones, zero_bytes, temporal_mask_pruned, temporal_mask_full,
}
use gtvdb.Zones.Bounds.{excludes→inactive, mark_range-inactive}

mark_range-cong :
    (from to : List ℤ) (t : ℤ) (i j m n : ℕ) (bits : List ℕ)
    → i ≡ j
    → m ≡ n
    → mark_range from to t i m bits ≡ mark_range from to t j n bits
mark_range-cong from to t i j m n bits h k = ap₂ (λ a b. mark_range from to t a b bits) h k

mark_range-split :
    (from to : List ℤ) (t : ℤ) (i a b : ℕ) (bits : List ℕ)
    → mark_range from to t i (a + b) bits
      ≡ mark_range from to t (i + a) b (mark_range from to t i a bits)
unfolding mark_range
mark_range-split from to t i zero b bits =
    mark_range-cong from to t i i (0 + b) b bits refl (omega arith)
    ∙ mark_range-cong from to t i (i + 0) b b bits (omega arith) refl
mark_range-split from to t i (suc a) b bits =
    let bits' = if is_active_at from to t i then set_bit i bits else bits in
    mark_range-cong from to t i i (suc a + b) (suc (a + b)) bits refl (omega arith)
    ∙ mark_range-split from to t (suc i) a b bits'
    ∙ mark_range-cong from to t (suc i + a) (i + suc a) b b (mark_range from to t (suc i) a bits')
        (omega arith) refl

mark_zone :
    (from to : List ℤ) (t : ℤ) (offset len : ℕ) (bits : List ℕ)
    → (if excludes (zone_at from to offset len) t
        then bits
        else mark_range from to t offset len bits)
      ≡ mark_range from to t offset len bits
mark_zone from to t offset len bits = elim (Bool-cases (excludes (zone_at from to offset len) t)) [
  | inl e ↦
      if_true _ _ e
      ∙ sym (
          mark_range-inactive from to t offset len bits
            (λ j lo hi. excludes→inactive from to t offset len j e lo hi))
  | inr e ↦ if_false _ _ e
]

-- With fuel for the edges that are left, the zones from `offset` on cover them all.
mark_zones-zones_from :
    (from to : List ℤ) (chunk : ℕ) (t : ℤ) (fuel offset : ℕ) (bits : List ℕ)
    → 0 < chunk
    → length from ≤ offset + fuel
    → offset ≤ length from
    → mark_zones from to t (zones_from from to chunk fuel offset) bits
      ≡ mark_range from to t offset (length from - offset) bits
unfolding mark_zones zones_from zone_at
mark_zones-zones_from from to chunk t zero offset bits positive enough inside =
    mark_range-cong from to t offset offset (0) (length from - offset) bits refl (omega arith)
mark_zones-zones_from from to chunk t (suc fuel) offset bits positive enough inside =
    let n = length from in
    let len = min chunk (n - offset) in
    elim (Bool-cases (ltb offset n)) [
      | inr e ↦
          let done = ltb-false→le offset n e in
          ap (λ zones. mark_zones from to t zones bits) (if_false _ _ e)
          ∙ mark_range-cong from to t offset offset (0) (n - offset) bits refl (omega arith)
      | inl e ↦
          let more = ltb→lt offset n e in
          let marked = mark_range from to t offset len bits in
          ap (λ zones. mark_zones from to t zones bits) (if_true _ _ e)
          ∙ ap (mark_zones from to t (zones_from from to chunk fuel (offset + len)))
              (mark_zone from to t offset len bits)
          ∙ mark_zones-zones_from from to chunk t fuel (offset + len) marked positive (omega arith)
              (omega arith)
          ∙ sym (mark_range-split from to t offset len (n - (offset + len)) bits)
          ∙ mark_range-cong from to t offset offset (len + (n - (offset + len))) (n - offset) bits
              refl (omega arith)
    ]

built_zones :
    (from to : List ℤ) (chunk : ℕ) (zones : List ZoneMap)
    → build_zone_maps from to chunk ≡ some zones
    → (0 < chunk) × (zones ≡ zones_from from to chunk (length from) 0)
unfolding build_zone_maps
built_zones from to chunk zones h = ground arith

-- With the zones that `build_zone_maps` returns, for whatever chunk size it accepts, the pruned mask
-- is the full mask.
pub temporal_mask_pruned_lem :
    (from to : List ℤ) (chunk : ℕ) (zones : List ZoneMap) (t : ℤ)
    → build_zone_maps from to chunk ≡ some zones
    → temporal_mask_pruned from to t zones ≡ temporal_mask_full from to t
unfolding temporal_mask_pruned temporal_mask_full
temporal_mask_pruned_lem from to chunk zones t h =
    let (positive, shape) = built_zones from to chunk zones h in
    let blank = zero_bytes (length from) in
    let same =
      ap (λ zs. mark_zones from to t zs blank) shape
      ∙ mark_zones-zones_from from to chunk t (length from) 0 blank positive (omega arith)
          (omega arith)
      ∙ mark_range-cong from to t 0 0 (length from - 0) (length from) blank refl (omega arith) in
    λ i. record { bytes = same i; len = length from }
