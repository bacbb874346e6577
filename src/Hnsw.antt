-- ===== src/Hnsw.antt =====
-- gtv-index/src/hnsw.rs: the state of the approximate index, its random numbers and its reads.
-- Distances are those of Flat, whose `squared_l2` the code repeats. A read out of range panics.
pub mod Search
pub mod Insert
pub mod Layers
pub mod Descent
pub mod Beam
pub mod Explore
pub mod Loop
pub mod Links
pub mod Linking
pub mod Wiring
pub mod Shape
pub mod Growth
pub mod Contract
pub mod Build
pub mod Exhaustive
pub mod Nearest
pub mod Samples
mod Tests
use Prim.Native.Nat.{bit_xor, max}
use gtvdb.Base.{ℕ, ◌+◌, ◌*◌, ◌/◌, ◌%◌, ◌^◌, Option, none, some, List, [], get_elem?}
use gtvdb.Error.{GtvError}
use gtvdb.Flat.{Floats}

-- How a call ends. `stuck` is a loop of the model that ran out of fuel, which no call of the code does.
pub data Outcome {ℓ} (A : Type ℓ) : Type ℓ where
  returned : A → Outcome A
  failed : GtvError → Outcome A
  panicked stuck : Outcome A

infixl 5 ◌>>=◌
abbrev pub ◌>>=◌ {ℓ κ} : {A : Type ℓ} {B : Type κ} → Outcome A → (A → Outcome B) → Outcome B
returned v >>= next = next v
failed e >>= next = failed e
panicked >>= next = panicked
stuck >>= next = stuck

abbrev pub or_panic {ℓ} : {A : Type ℓ} → Option A → Outcome A
or_panic (some v) = returned v
or_panic none = panicked

-- `xs[i]`
abbrev pub read {ℓ} : {A : Type ℓ} → List A → ℕ → Outcome A
read xs i = or_panic (get_elem? xs i)

-- `SplitMix64` is its 64-bit state. The next number, and the state behind it.
unfoldable pub next_u64 : ℕ → ℕ × ℕ
next_u64 state =
    let state' : ℕ = (state + 0x9E37_79B9_7F4A_7C15) % 2 ^ 64 in
    let z : ℕ = (bit_xor state' (state' / 2 ^ 30) * 0xBF58_476D_1CE4_E5B9) % 2 ^ 64 in
    let z' : ℕ = (bit_xor z (z / 2 ^ 27) * 0x94D0_49BB_1331_11EB) % 2 ^ 64 in
    (bit_xor z' (z' / 2 ^ 31), state')

-- The operations of f32 that the sampling of a level uses besides those of distances: `as f32`, `/`,
-- `-`, `ln`, `max`, `as usize`, and the number 1e-6.
pub record LevelFloats (F : Type 0) : Type 0 where
  pub cast : ℕ → F
  pub div : F → F → F
  pub neg : F → F
  pub ln : F → F
  pub max_f32 : F → F → F
  pub to_usize : F → ℕ
  pub tiny : F

pub record Node (F : Type 0) : Type 0 where
  pub id : ℕ
  pub vector : List F
  pub layers : List (List ℕ)

pub record HnswIndex (F : Type 0) : Type 0 where
  pub nodes : List (Node F)
  pub entry : ℕ
  pub dim : ℕ
  pub m : ℕ
  pub m0 : ℕ
  pub ef_construction : ℕ
  pub ef_search : ℕ
  pub max_level : ℕ
  pub rng : ℕ

unfoldable pub new : {F : Type 0} → ℕ → ℕ → ℕ → HnswIndex F
new m ef_construction ef_search = record {
  nodes = [];
  entry = 0;
  dim = 0;
  m = max m 1;
  m0 = max (m * 2 % 2 ^ 64) 1;
  ef_construction = max ef_construction 1;
  ef_search = max ef_search 1;
  max_level = 0;
  rng = 0x243F_6A88_85A3_08D3;
}

module _ {F : Type 0} (floats : Floats F) (level_floats : LevelFloats F) where
  open level_floats use {cast, div, neg, ln, max_f32, to_usize, tiny}

  -- `next_f32`
  unfoldable pub next_f32 : ℕ → F × ℕ
  unfolding next_u64
  next_f32 state =
      let (z, state') = next_u64 state in (div (cast (z / 2 ^ 40)) (cast (2 ^ 24)), state')

  -- For the field `m`: the level, and the state of the generator behind it.
  unfoldable pub random_level : ℕ → ℕ → ℕ × ℕ
  unfolding next_f32
  random_level m state =
      let ml = div (cast 1) (ln (cast m)) in
      let (x, state') = next_f32 state in
      (to_usize (floats.mul (neg (ln (max_f32 x tiny))) ml), state')
