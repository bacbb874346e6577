-- ===== src/Window.antt =====
-- gtv-array/src/window.rs: moving sums, moving averages and differences. The arithmetic is an
-- argument: that of i64, as words of 64 bits that wrap around as in a release build, or that of f64,
-- of which the model knows nothing.
pub mod Sums
pub mod Deltas
mod Tests
use gtvdb.Base.{
  ℕ, zero, suc, ◌+◌, ◌-◌, ◌%◌, ◌^◌, min, Bool, Option, none, some, List, [], ◌∷◌, length, get_or,
  leb, ◌==◌, if◌then◌else◌,
}

-- The operations of a number type: `0`, `+`, `-`, and `/` by a count.
pub record Arithmetic (A : Type 0) : Type 0 where
  pub nil : A
  pub add : A → A → A
  pub sub : A → A → A
  pub div : A → ℕ → A

-- Words of 64 bits in two's complement.
abbrev pub add_i64 : ℕ → ℕ → ℕ
add_i64 a b = (a + b) % 2 ^ 64

abbrev pub sub_i64 : ℕ → ℕ → ℕ
sub_i64 a b = (a + (2 ^ 64 - b)) % 2 ^ 64

module _ {A : Type 0} (ops : Arithmetic A) where
  -- The window's sum after item `i`: what enters is added, and what leaves is taken off.
  abbrev pub slide : List A → ℕ → ℕ → A → A → A
  slide values n i v window_sum =
      let entered = ops.add window_sum v in
      if leb n i then ops.sub entered (get_or values (i - n) ops.nil) else entered

  -- `for (i, &v) in values.iter().enumerate() { .. }`, from item `i` on.
  unfoldable pub msum_loop : List A → ℕ → ℕ → List A → A → List A
  msum_loop values n i [] window_sum = []
  msum_loop values n i (v ∷ rest) window_sum =
      let s = slide values n i v window_sum in s ∷ msum_loop values n (suc i) rest s

  -- A window of no items makes the code panic.
  unfoldable pub msum : List A → ℕ → Option (List A)
  unfolding msum_loop
  msum values n = if leb 1 n then some (msum_loop values n 0 values ops.nil) else none

  unfoldable pub mavg_loop : List A → ℕ → ℕ → List A → A → List A
  mavg_loop values n i [] window_sum = []
  mavg_loop values n i (v ∷ rest) window_sum =
      let s = slide values n i v window_sum in
      ops.div s (min (i + 1) n) ∷ mavg_loop values n (suc i) rest s

  unfoldable pub mavg : List A → ℕ → Option (List A)
  unfolding mavg_loop
  mavg values n = if leb 1 n then some (mavg_loop values n 0 values ops.nil) else none

  unfoldable pub deltas_loop : List A → ℕ → List A → List A
  deltas_loop values i [] = []
  deltas_loop values i (v ∷ rest) =
      (if i == 0 then v else ops.sub v (get_or values (i - 1) ops.nil))
      ∷ deltas_loop values (suc i) rest

  unfoldable pub deltas : List A → List A
  unfolding deltas_loop
  deltas values = deltas_loop values 0 values

-- The moving sum and the differences of i64 divide by nothing.
abbrev pub i64 : Arithmetic ℕ
i64 = record { nil = 0; add = add_i64; sub = sub_i64; div = λ a n. a }

unfoldable pub msum_i64 : List ℕ → ℕ → Option (List ℕ)
unfolding msum
msum_i64 = msum i64

unfoldable pub deltas_i64 : List ℕ → List ℕ
unfolding deltas
deltas_i64 = deltas i64
