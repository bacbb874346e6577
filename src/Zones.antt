-- ===== src/Zones.antt =====
-- gtv-core/src/temporal.rs: zone maps, and the bit mask of the active edges with and without them.
-- The byte buffer is a list of numbers below 256; a panic of an assertion is `none`. The columns are
-- read by an index, the slices of `build_zone_maps` too.
pub mod Bounds
pub mod Prune
pub mod Bits
mod Tests
use Prim.Native.Nat.{bit_or}
use gtvdb.Base.{
  ℕ, zero, suc, ◌+◌, ◌-◌, ◌/◌, ◌%◌, ◌^◌, min, Bool, true, false, ◌&&◌, ◌||◌, Option, none, some,
  List, [], ◌∷◌, length, get_or, set, replicate, ltb, leb, ◌==◌, if◌then◌else◌,
}
use gtvdb.Base.Int.{ℤ, ltb_ℤ, leb_ℤ}

pub record ZoneMap : Type 0 where
  pub offset : ℕ
  pub len : ℕ
  pub min_from : ℤ
  pub max_to : ℤ

unfoldable pub excludes : ZoneMap → ℤ → Bool
excludes z valid_at = ltb_ℤ valid_at z.min_from || leb_ℤ z.max_to valid_at

abbrev pub i64_max : ℤ
i64_max = ℤ.pos (2 ^ 63 - 1)

abbrev pub i64_min : ℤ
i64_min = ℤ.negsuc (2 ^ 63 - 1)

abbrev pub min_ℤ : ℤ → ℤ → ℤ
min_ℤ a b = if ltb_ℤ b a then b else a

abbrev pub max_ℤ : ℤ → ℤ → ℤ
max_ℤ a b = if ltb_ℤ a b then b else a

abbrev pub time_at : List ℤ → ℕ → ℤ
time_at column i = get_or column i (ℤ.pos 0)

-- `for &v in &valid_from[i..i + n] { min_from = min_from.min(v); }`
unfoldable pub min_over : List ℤ → ℕ → ℕ → ℤ → ℤ
min_over valid_from i zero min_from = min_from
min_over valid_from i (suc n) min_from =
    min_over valid_from (suc i) n (min_ℤ min_from (time_at valid_from i))

-- `for &v in &valid_to[i..i + n] { max_to = max_to.max(v); }`
unfoldable pub max_over : List ℤ → ℕ → ℕ → ℤ → ℤ
max_over valid_to i zero max_to = max_to
max_over valid_to i (suc n) max_to = max_over valid_to (suc i) n (max_ℤ max_to (time_at valid_to i))

unfoldable pub zone_at : List ℤ → List ℤ → ℕ → ℕ → ZoneMap
unfolding min_over max_over
zone_at valid_from valid_to offset len = record {
  offset = offset;
  len = len;
  min_from = min_over valid_from offset len i64_max;
  max_to = max_over valid_to offset len i64_min;
}

-- `while offset < n { .. }`, with one unit of fuel a round.
unfoldable pub zones_from : List ℤ → List ℤ → ℕ → ℕ → ℕ → List ZoneMap
unfolding zone_at
zones_from valid_from valid_to chunk_size zero offset = []
zones_from valid_from valid_to chunk_size (suc fuel) offset =
    let n = length valid_from in
    let len = min chunk_size (n - offset) in
    let rest = zones_from valid_from valid_to chunk_size fuel (offset + len) in
    if ltb offset n then zone_at valid_from valid_to offset len ∷ rest else []

-- A round moves on by at least one edge, so `n` rounds are enough.
unfoldable pub build_zone_maps : List ℤ → List ℤ → ℕ → Option (List ZoneMap)
unfolding zones_from
build_zone_maps valid_from valid_to chunk_size =
    if length valid_from == length valid_to && ltb 0 chunk_size
    then some (zones_from valid_from valid_to chunk_size (length valid_from) 0)
    else none

-- A `BooleanArray`: a bit buffer and the number of its values.
pub record BitMask : Type 0 where
  pub bytes : List ℕ
  pub len : ℕ

-- `bits[i >> 3] |= 1u8 << (i & 7)`
unfoldable pub set_bit : ℕ → List ℕ → List ℕ
set_bit i bits = set bits (i / 8) (bit_or (get_or bits (i / 8) 0) (2 ^ (i % 8)))

-- `valid_from[i] <= valid_at && valid_at < valid_to[i]`
abbrev pub is_active_at : List ℤ → List ℤ → ℤ → ℕ → Bool
is_active_at valid_from valid_to valid_at i =
    leb_ℤ (time_at valid_from i) valid_at && ltb_ℤ valid_at (time_at valid_to i)

-- The loop that sets the bits of the active edges of `i..i + n`.
unfoldable pub mark_range : List ℤ → List ℤ → ℤ → ℕ → ℕ → List ℕ → List ℕ
unfolding set_bit
mark_range valid_from valid_to valid_at i zero bits = bits
mark_range valid_from valid_to valid_at i (suc n) bits =
    mark_range valid_from valid_to valid_at (suc i) n
      (if is_active_at valid_from valid_to valid_at i then set_bit i bits else bits)

-- `n / 8 + usize::from(n % 8 != 0)` zero bytes.
abbrev pub zero_bytes : ℕ → List ℕ
zero_bytes n = replicate (n / 8 + (if n % 8 == 0 then 0 else 1)) 0

-- `for z in zones { .. }`
unfoldable pub mark_zones : List ℤ → List ℤ → ℤ → List ZoneMap → List ℕ → List ℕ
unfolding mark_range excludes
mark_zones valid_from valid_to valid_at [] bits = bits
mark_zones valid_from valid_to valid_at (z ∷ zones) bits =
    mark_zones valid_from valid_to valid_at zones (
      if excludes z valid_at
      then bits
      else mark_range valid_from valid_to valid_at z.offset z.len bits)

unfoldable pub temporal_mask_pruned : List ℤ → List ℤ → ℤ → List ZoneMap → BitMask
unfolding mark_zones
temporal_mask_pruned valid_from valid_to valid_at zones =
    let n = length valid_from in
    record { bytes = mark_zones valid_from valid_to valid_at zones (zero_bytes n); len = n }

unfoldable pub temporal_mask_full : List ℤ → List ℤ → ℤ → BitMask
unfolding mark_range
temporal_mask_full valid_from valid_to valid_at =
    let n = length valid_from in
    record { bytes = mark_range valid_from valid_to valid_at 0 n (zero_bytes n); len = n }
