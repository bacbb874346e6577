-- ===== src/Window/Sums.antt =====
-- The moving sum of words against the sum of each window, and the average against the sum.
use gtvdb.Base.{
  ℕ, zero, suc, ◌+◌, ◌-◌, ◌%◌, ◌^◌, ◌≤◌, ◌<◌, ◌≡◌, refl, sym, ap, ap₂, ◌∙◌, subst, inl, inr, min,
  false, none, some, List, [], ◌∷◌, length, get_or, take, drop, All, arith, leb, leb→le, Bool-cases,
  if_true, if_false,
}
use gtvdb.Window.{
  Arithmetic, add_i64, sub_i64, slide, msum_loop, msum, mavg_loop, mavg, i64, msum_i64,
}

abbrev pub sum : List ℕ → ℕ
sum [] = 0
sum (x ∷ xs) = x + sum xs

-- The items of the window that ends at item `i`.
abbrev pub window : List ℕ → ℕ → ℕ → List ℕ
window values n i = drop (suc i - n) (take (suc i) values)

sum-drop-take :
    (xs : List ℕ) (k m : ℕ) → k ≤ m → sum (take k xs) + sum (drop k (take m xs)) ≡ sum (take m xs)
sum-drop-take xs zero m h = omega arith
sum-drop-take [] (suc k) zero h = refl
sum-drop-take [] (suc k) (suc m) h = refl
sum-drop-take (x ∷ xs) (suc k) zero h = absurd (omega arith)
sum-drop-take (x ∷ xs) (suc k) (suc m) h = omega (arith, sum-drop-take xs k m (omega arith))

sum-take-suc :
    (xs : List ℕ) (i : ℕ) → i < length xs → sum (take (suc i) xs) ≡ sum (take i xs) + get_or xs i 0
sum-take-suc [] i h = elim h [ ]
sum-take-suc (x ∷ xs) zero h = omega arith
sum-take-suc (x ∷ xs) (suc i) h = omega (arith, sum-take-suc xs i (omega arith))

add_mod : (w v : ℕ) → add_i64 (w % 2 ^ 64) v ≡ (w + v) % 2 ^ 64
add_mod w v = omega arith

sub_mod : (w x : ℕ) → x ≤ w → x < 2 ^ 64 → sub_i64 (w % 2 ^ 64) x ≡ (w - x) % 2 ^ 64
sub_mod w x h k = omega arith

abbrev prefix : List ℕ → ℕ → ℕ
prefix values i = sum (take i values)

prefix_mono : (values : List ℕ) (k m : ℕ) → k ≤ m → prefix values k ≤ prefix values m
prefix_mono values k m h = omega (arith, sum-drop-take values k m h)

sum-window :
    (values : List ℕ) (n i : ℕ)
    → sum (window values n i) ≡ prefix values (suc i) - prefix values (suc i - n)
sum-window values n i = omega (arith, sum-drop-take values (suc i - n) (suc i) (omega arith))

All-get_or : (xs : List ℕ) (i : ℕ) → All (λ x. x < 2 ^ 64) xs → get_or xs i 0 < 2 ^ 64
All-get_or [] i h = omega arith
All-get_or (x ∷ xs) zero h = h.0
All-get_or (x ∷ xs) (suc i) h = All-get_or xs i h.1

sub_zero : (n i : ℕ) → leb n i ≡ false → suc i - n ≡ 0
sub_zero n i h = ground arith

sub_zero_now : (n i : ℕ) → leb n i ≡ false → i - n ≡ 0
sub_zero_now n i h = ground arith

-- One round of the loop moves the window on by one item.
slide_lem :
    (values : List ℕ) (n i : ℕ)
    → All (λ x. x < 2 ^ 64) values
    → 1 ≤ n
    → i < length values
    → slide i64 values n i (get_or values i 0) ((prefix values i - prefix values (i - n)) % 2 ^ 64)
      ≡ sum (window values n i) % 2 ^ 64
slide_lem values n i words positive inside =
    let next = sum-take-suc values i inside in
    let start = prefix values (i - n) in
    let entered = add_mod (prefix values i - start) (get_or values i 0) in
    let below = prefix_mono values (i - n) i (omega arith) in
    elim (Bool-cases (leb n i)) [
      | inl e ↦
          let le = leb→le n i e in
          let shift : suc i - n ≡ suc (i - n) = omega (arith, le) in
          let gone : prefix values (suc i - n) ≡ start + get_or values (i - n) 0 =
            ap (prefix values) shift ∙ sum-take-suc values (i - n) (omega arith) in
          if_true _ _ e
          ∙ ap (λ s. sub_i64 s (get_or values (i - n) 0)) entered
          ∙ sub_mod (prefix values i - start + get_or values i 0) (get_or values (i - n) 0)
              (omega
                (arith, prefix_mono values (suc i - n) (suc i) (omega arith), gone, next, below))
              (All-get_or values (i - n) words)
          ∙ ap (λ s. s % 2 ^ 64) (omega (arith, sum-window values n i, gone, next, below))
      | inr e ↦
          let none_left : prefix values (suc i - n) ≡ 0 = ap (prefix values) (sub_zero n i e) in
          let none_gone : start ≡ 0 = ap (prefix values) (sub_zero_now n i e) in
          if_false _ _ e
          ∙ entered
          ∙ ap (λ s. s % 2 ^ 64) (omega (arith, sum-window values n i, none_left, none_gone, next))
    ]

zero_plus : (i : ℕ) → 0 + i ≡ i
zero_plus i = omega arith

none-some : {xs : List ℕ} → none ≡ some xs → ⊥
none-some h = cc

zero_start : (values : List ℕ) (n : ℕ) → 0 ≡ (prefix values 0 - prefix values (0 - n)) % 2 ^ 64
zero_start values n = omega arith

plus_zero : (i : ℕ) → i + 0 ≡ i
plus_zero i = omega arith

plus_suc : (i k : ℕ) → i + suc k ≡ suc i + k
plus_suc i k = omega arith

below_suc : {m : ℕ} (k j : ℕ) → j < suc m → suc k ≡ j → k < m
below_suc k j h e = omega (arith, h, e)

-- An item of a list is its first or one of the others.
first_or_later :
    (f : ℕ → ℕ) (x : ℕ) (xs : List ℕ) (j : ℕ)
    → x ≡ f 0
    → ((k : ℕ) → suc k ≡ j → get_or xs k 0 ≡ f (suc k))
    → get_or (x ∷ xs) j 0 ≡ f j
first_or_later f x xs zero h later = h
first_or_later f x xs (suc j) h later = later j refl

msum_loop_lem :
    (values rest : List ℕ) (n i j : ℕ) (s : ℕ)
    → All (λ x. x < 2 ^ 64) values
    → 1 ≤ n
    → i + length rest ≡ length values
    → ((k : ℕ) → k < length rest → get_or rest k 0 ≡ get_or values (i + k) 0)
    → s ≡ (prefix values i - prefix values (i - n)) % 2 ^ 64
    → j < length rest
    → get_or (msum_loop i64 values n i rest s) j 0 ≡ sum (window values n (i + j)) % 2 ^ 64
unfolding msum_loop
msum_loop_lem values [] n i j s words positive total suffix state lt = elim lt [ ]
msum_loop_lem values (v ∷ rest) n i j s words positive total suffix state lt =
    let here : v ≡ get_or values i 0 =
      suffix 0 (omega arith) ∙ ap (λ k. get_or values k 0) (plus_zero i) in
    let moved : slide i64 values n i v s ≡ sum (window values n i) % 2 ^ 64 =
      ap₂ (λ a b. slide i64 values n i a b) here state
      ∙ slide_lem values n i words positive (omega (arith, total)) in
    first_or_later (λ k. sum (window values n (i + k)) % 2 ^ 64) (slide i64 values n i v s)
      (msum_loop i64 values n (suc i) rest (slide i64 values n i v s)) j
      (moved ∙ ap (λ k. sum (window values n k) % 2 ^ 64) (sym (plus_zero i)))
      (λ k below.
        msum_loop_lem values rest n (suc i) k (slide i64 values n i v s) words positive
          (omega (arith, total))
          (λ m inside. suffix (suc m) (omega arith) ∙ ap (λ q. get_or values q 0) (plus_suc i m))
          (moved ∙ ap (λ q. q % 2 ^ 64) (sum-window values n i)) (below_suc k j lt below)
        ∙ ap (λ q. sum (window values n q) % 2 ^ 64) (sym (plus_suc i k)))

-- For 64-bit words and a window of at least one item, item `i` of the moving sum is the sum of the
-- last `n` items up to `i`, or of all of them where there are fewer, modulo 2^64.
pub msum_i64_correct :
    (values sums : List ℕ) (n i : ℕ)
    → All (λ x. x < 2 ^ 64) values
    → msum_i64 values n ≡ some sums
    → i < length values
    → get_or sums i 0 ≡ sum (window values n i) % 2 ^ 64
unfolding msum_i64 msum
msum_i64_correct values sums n i words h lt = elim (Bool-cases (leb 1 n)) [
  | inr e ↦ absurd (none-some (sym (if_false _ _ e) ∙ h))
  | inl e ↦
      let loop : msum_loop i64 values n 0 values 0 ≡ sums = cc (sym (if_true _ _ e) ∙ h) in
      subst (λ xs. get_or xs i 0 ≡ sum (window values n i) % 2 ^ 64) loop
        (msum_loop_lem values values n 0 i 0 words (leb→le 1 n e) (omega arith)
            (λ k inside. ap (λ q. get_or values q 0) (omega arith)) (zero_start values n) lt
          ∙ ap (λ q. sum (window values n q) % 2 ^ 64) (zero_plus i))
]

module _ {A : Type 0} (ops : Arithmetic A) where
  -- `f` at each item and its position.
  abbrev pub map_from : (ℕ → A → A) → ℕ → List A → List A
  map_from f i [] = []
  map_from f i (x ∷ xs) = f i x ∷ map_from f (suc i) xs

  mavg_loop-eq :
      (values rest : List A) (n i : ℕ) (s : A)
      → mavg_loop ops values n i rest s
        ≡ map_from (λ k x. ops.div x (min (k + 1) n)) i (msum_loop ops values n i rest s)
  unfolding mavg_loop msum_loop
  mavg_loop-eq values [] n i s = refl
  mavg_loop-eq values (v ∷ rest) n i s =
      ap (◌∷◌ (ops.div (slide ops values n i v s) (min (i + 1) n)))
        (mavg_loop-eq values rest n (suc i) (slide ops values n i v s))

  -- Whatever the arithmetic, the moving average is the moving sum divided, item by item, by the number
  -- of items in its window; both refuse the window of no items.
  mavg_lem :
      (values : List A) (n : ℕ)
      → mavg ops values n ≡ elim (msum ops values n) [
        | none ↦ none
        | some sums ↦ some (map_from (λ k x. ops.div x (min (k + 1) n)) 0 sums)
      ]
  unfolding mavg msum
  mavg_lem values n = elim (Bool-cases (leb 1 n)) [
    | inl e ↦ rw e (ap some (mavg_loop-eq values values n 0 ops.nil))
    | inr e ↦ rw e refl
  ]
