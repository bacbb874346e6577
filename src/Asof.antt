-- ===== src/Asof.antt =====
-- gtv-array/src/asof.rs: the as-of join. The index `j` into the two right columns is kept as their
-- suffixes from `j` on; a panic of an assertion is `none`.
pub mod Merge
pub mod Restore
mod Tests
use gtvdb.Base.{
  ℕ, zero, suc, ◌≡◌, Bool, Option, none, some, List, [], ◌∷◌, length, get_or, set, replicate, ◌==◌,
  if◌then◌else◌,
}
use gtvdb.Base.Int.{ℤ, leb_ℤ}
use gtvdb.Base.Order.{int_order}
use gtvdb.Base.Sort.{UnstableSort, by_key}

-- The locals `j` and `last` of the merge loops.
pub record Cursor (T : Type 0) : Type 0 where
  pub times : List ℤ
  pub values : List T
  pub last : Option T

module _ {T : Type 0} where
  -- `while j < right_len && right_times[j] <= lt { last = Some(right_values[j]); j += 1; }`
  unfoldable pub advance : ℤ → List ℤ → List T → Option T → Cursor T
  advance lt (t ∷ times) (v ∷ values) last =
      let rest = advance lt times values (some v) in
      if leb_ℤ t lt then rest else record { times = t ∷ times; values = v ∷ values; last = last }
  advance lt times values last = record { times = times; values = values; last = last }

  -- `for &lt in left_times { .. }`
  unfoldable pub merge_sorted : List ℤ → Cursor T → List (Option T)
  unfolding advance
  merge_sorted [] c = []
  merge_sorted (lt ∷ left_times) c =
      let c' = advance lt c.times c.values c.last in c'.last ∷ merge_sorted left_times c'

  abbrev pub start : List ℤ → List T → Cursor T
  start right_times right_values = record {
    times = right_times;
    values = right_values;
    last = none;
  }

  unfoldable pub asof_join_sorted_inner : List ℤ → List ℤ → List T → List (Option T)
  unfolding merge_sorted
  asof_join_sorted_inner left_times right_times right_values =
      merge_sorted left_times (start right_times right_values)

  -- `for &i in &order { .. out[i] = last; }`
  unfoldable pub merge_ordered : List ℤ → List ℕ → Cursor T → List (Option T) → List (Option T)
  unfolding advance
  merge_ordered left_times [] c out = out
  merge_ordered left_times (i ∷ order) c out =
      let c' = advance (get_or left_times i (ℤ.pos 0)) c.times c.values c.last in
      merge_ordered left_times order c' (set out i c'.last)

-- `(i..i + n).collect()`
abbrev pub range : ℕ → ℕ → List ℕ
range i zero = []
range i (suc n) = i ∷ range (suc i) n

-- The argsort `order` of the left times.
abbrev pub left_order : UnstableSort → List ℤ → List ℕ
left_order us left_times =
    us.sort ℕ (by_key int_order (λ i. get_or left_times i (ℤ.pos 0))) (range 0 (length left_times))

module _ {T : Type 0} where
  unfoldable pub asof_join_unsorted_inner :
      UnstableSort → List ℤ → List ℤ → List T → List (Option T)
  unfolding merge_ordered
  asof_join_unsorted_inner us left_times right_times right_values =
      let n = length left_times in
      if n == 0
      then []
      else merge_ordered left_times (left_order us left_times) (start right_times right_values)
          (replicate n none)

  -- `assert_right_aligned`, and the join for times that ascend.
  unfoldable pub asof_join_sorted : List ℤ → List ℤ → List T → Option (List (Option T))
  unfolding asof_join_sorted_inner
  asof_join_sorted left_times right_times right_values =
      if length right_times == length right_values
      then some (asof_join_sorted_inner left_times right_times right_values)
      else none

  -- The same for left times in any order.
  unfoldable pub asof_join : UnstableSort → List ℤ → List ℤ → List T → Option (List (Option T))
  unfolding asof_join_unsorted_inner
  asof_join us left_times right_times right_values =
      if length right_times == length right_values
      then some (asof_join_unsorted_inner us left_times right_times right_values)
      else none
