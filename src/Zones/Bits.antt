-- ===== src/Zones/Bits.antt =====
-- What a bit of the masks of gtv-core/src/temporal.rs means.
use Prim.Native.Nat.{bit_or}
use gtvdb.Base.{
  ℕ, zero, suc, ◌+◌, ◌*◌, ◌/◌, ◌%◌, ◌^◌, ◌≤◌, ◌<◌, ◌≡◌, refl, sym, ap, ap₂, ◌∙◌, inl, inr, Bool,
  true, false, ◌&&◌, ◌||◌, List, length, get_or, get_or-set, get_or-replicate, length-set,
  replicate, length-replicate, ltb, leb, ◌==◌, ==_iff, if◌then◌else◌, if_true, if_false, arith,
  Bool-cases, some,
}
use gtvdb.Base.Int.{ℤ}
use gtvdb.Zones.{
  ZoneMap, BitMask, set_bit, is_active_at, mark_range, zero_bytes, build_zone_maps,
  temporal_mask_full, temporal_mask_pruned,
}
use gtvdb.Zones.Prune.{temporal_mask_pruned_lem}

abbrev all_below : ℕ → (ℕ → Bool) → Bool
all_below zero p = true
all_below (suc n) p = p n && all_below n p

all_below-at : (n : ℕ) (p : ℕ → Bool) (i : ℕ) → all_below n p ≡ true → i < n → p i ≡ true
all_below-at zero p i h lt = elim lt [ ]
all_below-at (suc n) p i h lt = elim (Bool-cases (i == n)) [
  | inl e ↦ ap p ((==_iff i n).0 e) ∙ ground (arith, h)
  | inr e ↦ all_below-at n p i (ground (arith, h)) (ground (arith, e, lt))
]

abbrev bit_of : ℕ → ℕ → Bool
bit_of byte j = byte / 2 ^ j % 2 == 1

abbrev same_bool : Bool → Bool → Bool
same_bool true b = b
same_bool false true = false
same_bool false false = true

-- A byte with a bit set is a byte, and has that bit and its own.
abbrev is_set : ℕ → ℕ → ℕ → Bool
is_set k j byte =
    let marked = bit_or byte (2 ^ k) in
    ltb marked 256 && same_bool (bit_of marked j) (k == j || bit_of byte j)

set_table : all_below 8 (λ k. all_below 8 (λ j. all_below 256 (is_set k j))) ≡ true
set_table = refl

is_set-at : (k j byte : ℕ) → k < 8 → j < 8 → byte < 256 → is_set k j byte ≡ true
is_set-at k j byte hk hj hb =
    all_below-at 256 (is_set k j) byte
      (all_below-at 8 (λ j. all_below 256 (is_set k j)) j
        (all_below-at 8 (λ k. all_below 8 (λ j. all_below 256 (is_set k j))) k set_table hk) hj)
      hb

same_bool-eq : (a b : Bool) → same_bool a b ≡ true → a ≡ b
same_bool-eq true b h = sym h
same_bool-eq false true h = cc
same_bool-eq false false h = refl

-- The bit of an item: bit `i & 7` of byte `i >> 3`.
abbrev pub bit : List ℕ → ℕ → Bool
bit bytes i = bit_of (get_or bytes (i / 8) 0) (i % 8)

abbrev AreBytes : List ℕ → Type 0
AreBytes bytes = (i : ℕ) → get_or bytes i 0 < 256

set_bit-AreBytes :
    (bytes : List ℕ) (i : ℕ) → i / 8 < length bytes → AreBytes bytes → AreBytes (set_bit i bytes)
unfolding set_bit
set_bit-AreBytes bytes i inside all j =
    let byte = get_or bytes (i / 8) 0 in
    let marked = bit_or byte (2 ^ (i % 8)) in
    let table = is_set-at (i % 8) 0 byte (omega arith) (omega arith) (all (i / 8)) in
    let small : marked < 256 = ground (arith, table) in
    rw (get_or-set bytes (i / 8) j marked 0 inside)
      (elim (Bool-cases (i / 8 == j)) [ inl e ↦ rw e small | inr e ↦ rw e (all j) ])

bit-set_bit :
    (bytes : List ℕ) (i j : ℕ)
    → i / 8 < length bytes
    → AreBytes bytes
    → bit (set_bit i bytes) j ≡ (i == j || bit bytes j)
unfolding set_bit
bit-set_bit bytes i j inside all =
    let byte = get_or bytes (i / 8) 0 in
    let marked = bit_or byte (2 ^ (i % 8)) in
    let table = is_set-at (i % 8) (j % 8) byte (omega arith) (omega arith) (all (i / 8)) in
    let here : bit_of marked (j % 8) ≡ (i % 8 == j % 8 || bit_of byte (j % 8)) =
      same_bool-eq _ _ (ground (arith, table)) in
    ap (λ b. bit_of b (j % 8)) (get_or-set bytes (i / 8) (j / 8) marked 0 inside)
    ∙ elim (Bool-cases (i / 8 == j / 8)) [
      | inl e ↦
          let place : i / 8 ≡ j / 8 = (==_iff (i / 8) (j / 8)).0 e in
          let digit : (i % 8 == j % 8) ≡ (i == j) = ground (arith, place) in
          ap (λ b. bit_of b (j % 8)) (if_true _ _ e)
          ∙ here
          ∙ ap₂ (λ a b. a || bit_of (get_or bytes b 0) (j % 8)) digit place
      | inr e ↦
          let apart : (i == j) ≡ false = ground (arith, e) in
          ap (λ b. bit_of b (j % 8)) (if_false _ _ e) ∙ ap (λ a. a || bit bytes j) (sym apart)
    ]

abbrev in_range : ℕ → ℕ → ℕ → Bool
in_range i n j = leb i j && ltb j (i + n)

range-later : (i n j : ℕ) → (i == j) ≡ false → in_range (suc i) n j ≡ in_range i (suc n) j
range-later i n j e = ground (arith, e)

range-idle :
    (active : ℕ → Bool) (i n j : ℕ)
    → active i ≡ false
    → (in_range (suc i) n j && active j) ≡ (in_range i (suc n) j && active j)
range-idle active i n j idle = elim (Bool-cases (i == j)) [
  | inl e ↦
      let off : active j ≡ false = ap active (sym ((==_iff i j).0 e)) ∙ idle in
      rw off (ground arith)
  | inr e ↦ ap (λ b. b && active j) (range-later i n j e)
]

range-active :
    (active : ℕ → Bool) (b : Bool) (i n j : ℕ)
    → active i ≡ true
    → ((i == j || b) || (in_range (suc i) n j && active j))
      ≡ (b || (in_range i (suc n) j && active j))
range-active active b i n j now = elim (Bool-cases (i == j)) [
  | inl e ↦
      let on : active j ≡ true = ap active (sym ((==_iff i j).0 e)) ∙ now in
      let here : in_range i (suc n) j ≡ true = ground (arith, e) in rw (e, on, here) (ground arith)
  | inr e ↦ rw (e, range-later i n j e) refl
]

module _ (from to : List ℤ) (t : ℤ) where
  length-set_bit : (i : ℕ) (bytes : List ℕ) → length (set_bit i bytes) ≡ length bytes
  unfolding set_bit
  length-set_bit i bytes = length-set bytes (i / 8) _

  -- A bit of the buffer behind the loop: the one it was, or that of an active item of the range.
  bit-mark_range :
      (n i j : ℕ) (bytes : List ℕ)
      → i + n ≤ 8 * length bytes
      → AreBytes bytes
      → bit (mark_range from to t i n bytes) j
        ≡ (bit bytes j || (in_range i n j && is_active_at from to t j))
  unfolding mark_range
  bit-mark_range zero i j bytes fits all = ground arith
  bit-mark_range (suc n) i j bytes fits all = elim (Bool-cases (is_active_at from to t i)) [
    | inr idle ↦ rw idle (
        bit-mark_range n (suc i) j bytes (omega (arith, fits)) all
        ∙ ap (λ b. bit bytes j || b) (range-idle (is_active_at from to t) i n j idle))
    | inl active ↦
        let inside : i / 8 < length bytes = omega (arith, fits) in
        rw active (
          bit-mark_range n (suc i) j (set_bit i bytes) (omega (arith, fits, length-set_bit i bytes))
            (set_bit-AreBytes bytes i inside all)
          ∙ ap (λ b. b || (in_range (suc i) n j && is_active_at from to t j))
              (bit-set_bit bytes i j inside all)
          ∙ range-active (is_active_at from to t) (bit bytes j) i n j active)
  ]

  blank-AreBytes : (n : ℕ) → AreBytes (replicate n 0)
  blank-AreBytes n i = omega (arith, get_or-replicate {A = ℕ} n i 0)

  bit-blank : (n j : ℕ) → bit (replicate n 0) j ≡ false
  bit-blank n j =
      ap (λ b. bit_of b (j % 8)) (get_or-replicate {A = ℕ} n (j / 8) 0)
      ∙ zero_bit (j % 8) (omega arith)
    where
      zero_bits : all_below 8 (λ k. same_bool (bit_of 0 k) false) ≡ true
      zero_bits = refl

      zero_bit : (k : ℕ) → k < 8 → bit_of 0 k ≡ false
      zero_bit k lt =
          same_bool-eq _ _ (all_below-at 8 (λ k. same_bool (bit_of 0 k) false) k zero_bits lt)

  bit-full :
      (j : ℕ)
      → j < length from
      → bit (temporal_mask_full from to t).bytes j ≡ is_active_at from to t j
  unfolding temporal_mask_full
  bit-full j lt =
      let n = length from in
      let size : ℕ = n / 8 + (if n % 8 == 0 then 0 else 1) in
      let room : n ≤ 8 * size = ground arith in
      let inside : in_range 0 n j ≡ true = ground (arith, lt) in
      bit-mark_range n 0 j (zero_bytes n) (omega (arith, room, length-replicate {A = ℕ} size 0))
        (blank-AreBytes size)
      ∙ rw (bit-blank size j, inside) refl

-- With the zones that `build_zone_maps` returns, for whatever chunk size it accepts, the pruned mask is
-- the full mask, and its bit of each edge says whether the edge is active at the time.
pub temporal_mask_pruned-bit :
    (from to : List ℤ) (chunk : ℕ) (zones : List ZoneMap) (t : ℤ) (j : ℕ)
    → build_zone_maps from to chunk ≡ some zones
    → j < length from
    → (temporal_mask_pruned from to t zones ≡ temporal_mask_full from to t)
      × (bit (temporal_mask_pruned from to t zones).bytes j ≡ is_active_at from to t j)
temporal_mask_pruned-bit from to chunk zones t j h inside =
    let same = temporal_mask_pruned_lem from to chunk zones t h in
    (same, ap (λ (m : BitMask). bit m.bytes j) same ∙ bit-full from to t j inside)
