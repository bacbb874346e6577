-- ===== src/Window/Deltas.antt =====
-- The differences of words, undone by the running sum.
use gtvdb.Base.{
  ℕ, suc, ◌+◌, ◌-◌, ◌^◌, ◌<◌, ◌≡◌, refl, ap, ◌∙◌, List, [], ◌∷◌, length, get_or, All, arith, ◌==◌,
  false, if◌then◌else◌, if_false,
}
use gtvdb.Window.{add_i64, sub_i64, deltas_loop, deltas, i64, deltas_i64}

-- The running sums, from `acc` on.
abbrev pub running_sum : ℕ → List ℕ → List ℕ
running_sum acc [] = []
running_sum acc (x ∷ xs) = add_i64 acc x ∷ running_sum (add_i64 acc x) xs

add-sub : (p v : ℕ) → p < 2 ^ 64 → v < 2 ^ 64 → add_i64 p (sub_i64 v p) ≡ v
add-sub p v h k = omega arith

add-zero : (v : ℕ) → v < 2 ^ 64 → add_i64 0 v ≡ v
add-zero v h = omega arith

suc_not_zero : (i : ℕ) → (suc i == 0) ≡ false
suc_not_zero i = ground arith

one_less : (i : ℕ) → suc i - 1 ≡ i
one_less i = omega arith

plus_none : (i : ℕ) → suc i ≡ suc i + 0
plus_none i = omega arith

plus_one : (i k : ℕ) → suc (suc i) + k ≡ suc i + suc k
plus_one i k = omega arith

one_plus : (k : ℕ) → 1 + k ≡ suc k
one_plus k = omega arith

deltas_loop_lem :
    (values rest : List ℕ) (i p : ℕ)
    → p < 2 ^ 64
    → All (λ x. x < 2 ^ 64) rest
    → get_or values i 0 ≡ p
    → ((k : ℕ) → k < length rest → get_or values (suc i + k) 0 ≡ get_or rest k 0)
    → running_sum p (deltas_loop i64 values (suc i) rest) ≡ rest
unfolding deltas_loop
deltas_loop_lem values [] i p small words here suffix = refl
deltas_loop_lem values (v ∷ rest) i p small words here suffix =
    let item = if suc i == 0 then v else sub_i64 v (get_or values (suc i - 1) 0) in
    let back : add_i64 p item ≡ v =
      ap (add_i64 p) (if_false _ _ (suc_not_zero i))
      ∙ ap (λ q. add_i64 p (sub_i64 v q)) (ap (λ k. get_or values k 0) (one_less i) ∙ here)
      ∙ add-sub p v small words.0 in
    ap (λ x. x ∷ running_sum x (deltas_loop i64 values (suc (suc i)) rest)) back
    ∙ ap (◌∷◌ v) (
        deltas_loop_lem values rest (suc i) v words.0 words.1
          (ap (λ k. get_or values k 0) (plus_none i) ∙ suffix 0 (omega arith))
          (λ k lt. ap (λ m. get_or values m 0) (plus_one i k) ∙ suffix (suc k) (omega arith)))

-- For 64-bit words the running sum of the differences gives the values back.
pub deltas_i64_roundtrip :
    (values : List ℕ) → All (λ x. x < 2 ^ 64) values → running_sum 0 (deltas_i64 values) ≡ values
unfolding deltas_i64 deltas deltas_loop
deltas_i64_roundtrip [] words = refl
deltas_i64_roundtrip (v ∷ rest) words =
    ap (λ x. x ∷ running_sum x (deltas_loop i64 (v ∷ rest) 1 rest)) (add-zero v words.0)
    ∙ ap (◌∷◌ v) (
        deltas_loop_lem (v ∷ rest) rest 0 v words.0 words.1 refl
          (λ k lt. ap (λ m. get_or (v ∷ rest) m 0) (one_plus k)))
