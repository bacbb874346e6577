-- ===== src/Base/Filter.antt =====
-- The items that pass a Boolean test, and how the library's permutations carry tests over.
use mathlib.Core.List.{Permᴰ, Perm-prop}
use mathlib.Core.Logic.{∥∥₁_elim}
use mathlib.Core.List.Perm
use mathlib.Core.List.Memᴰ
use mathlib.Core.Bool.{Bool-set}
use native.Mathlib.Nat.{ℕ_set}
use gtvdb.Base.{
  ℕ, zero, suc, ◌+◌, ◌≤◌, take, ◌≡◌, refl, sym, ap, ◌∙◌, ◌↔◌, inl, inr, Bool, true, false, not,
  ◌&&◌, List, [], ◌∷◌, ◌++◌, map, Memᴰ, Perm, arith, if◌then◌else◌, Bool-cases, length, All,
  Memᴰ-cons, ◌||◌, ◌==◌, ==_iff,
}

module _ {ℓ} {A : Type ℓ} where
  abbrev pub filter : (A → Bool) → List A → List A
  filter p [] = []
  filter p (x ∷ xs) = if p x then x ∷ filter p xs else filter p xs

  -- How many items pass.
  abbrev pub count_p : (A → Bool) → List A → ℕ
  count_p p xs = length (filter p xs)

  pub filter-append :
      (p : A → Bool) (xs ys : List A) → filter p (xs ++ ys) ≡ filter p xs ++ filter p ys
  filter-append p [] ys = refl
  filter-append p (x ∷ xs) ys = ground (arith, filter-append p xs ys)

  pub count-push :
      (p : A → Bool) (xs : List A) (x : A)
      → count_p p (xs ++ x ∷ []) ≡ count_p p xs + (if p x then 1 else 0)
  count-push p [] x = ground arith
  count-push p (y ∷ xs) x = ground (arith, count-push p xs x)

  pub count-take : (p : A → Bool) (k : ℕ) (xs : List A) → count_p p (take k xs) ≤ count_p p xs
  count-take p zero xs = omega arith
  count-take p (suc k) [] = omega arith
  count-take p (suc k) (x ∷ xs) = ground (arith, count-take p k xs)

  pub filter-All : (p : A → Bool) (xs : List A) → All (λ x. p x ≡ true) xs → filter p xs ≡ xs
  filter-All p [] h = refl
  filter-All p (x ∷ xs) h = rw (h.0) (ap (◌∷◌ x) (filter-All p xs h.1))

  pub filter-none : (p : A → Bool) (xs : List A) → All (λ x. p x ≡ false) xs → filter p xs ≡ []
  filter-none p [] h = refl
  filter-none p (x ∷ xs) h = rw (h.0) (filter-none p xs h.1)

  pub filter-filter :
      (p q : A → Bool) (xs : List A) → filter p (filter q xs) ≡ filter (λ x. q x && p x) xs
  filter-filter p q [] = refl
  filter-filter p q (x ∷ xs) = ground (arith, filter-filter p q xs)

  pub All-filter {κ} :
      (P : A → Type κ) (p : A → Bool) (xs : List A) → All P xs → All P (filter p xs)
  All-filter P p [] h = tt
  All-filter P p (x ∷ xs) h = elim (Bool-cases (p x)) [
    | inl e ↦ rw e (h.0, All-filter P p xs h.1)
    | inr e ↦ rw e (All-filter P p xs h.1)
  ]

  pub All-filter_self : (p : A → Bool) (xs : List A) → All (λ x. p x ≡ true) (filter p xs)
  All-filter_self p [] = tt
  All-filter_self p (x ∷ xs) = elim (Bool-cases (p x)) [
    | inl e ↦ rw e (e, All-filter_self p xs)
    | inr e ↦ rw e (All-filter_self p xs)
  ]

  pub mem-filter :
      (p : A → Bool) (a : A) (xs : List A) → Memᴰ a (filter p xs) ↔ (Memᴰ a xs × (p a ≡ true))
  mem-filter p a [] = (λ m. absurd (Memᴰ.not-nil m), λ m. absurd (Memᴰ.not-nil m.0))
  mem-filter p a (x ∷ xs) = elim (Bool-cases (p x)) [
    | inl e ↦ ground (arith, mem-filter p a xs, Memᴰ-cons a x xs, Memᴰ-cons a x (filter p xs))
    | inr e ↦ ground (arith, mem-filter p a xs, Memᴰ-cons a x xs)
  ]

  count-permᴰ : (p : A → Bool) {xs ys : List A} → Permᴰ xs ys → count_p p xs ≡ count_p p ys
  count-permᴰ p Permᴰ.nil = refl
  count-permᴰ p (Permᴰ.cons {a} {b} e q) = rw e (ground (arith, count-permᴰ p q))
  count-permᴰ p (Permᴰ.swap e f) = rw (e, f) (ground arith)
  count-permᴰ p (Permᴰ.trans q r) = count-permᴰ p q ∙ count-permᴰ p r

  pub count-perm : (p : A → Bool) {xs ys : List A} → Perm xs ys → count_p p xs ≡ count_p p ys
  count-perm p h = ∥∥₁_elim h (ℕ_set _ _) (count-permᴰ p)

  filter-cons :
      (p : A → Bool) (x : A) (xs ys : List A)
      → Perm (filter p xs) (filter p ys)
      → Perm (filter p (x ∷ xs)) (filter p (x ∷ ys))
  filter-cons p x xs ys h = elim (Bool-cases (p x)) [
    | inl e ↦ rw e (Perm.cons x h)
    | inr e ↦ rw e h
  ]

  filter-swap :
      (p : A → Bool) (x y : A) (xs : List A) → Perm (filter p (x ∷ y ∷ xs)) (filter p (y ∷ x ∷ xs))
  filter-swap p x y xs = elim (Bool-cases (p x)) [
    | inl e ↦ elim (Bool-cases (p y)) [
      | inl f ↦ rw (e, f) (Perm.swap y x (filter p xs))
      | inr f ↦ rw (e, f) Perm.rfl
    ]
    | inr e ↦ rw e Perm.rfl
  ]

  filter-permᴰ : (p : A → Bool) {xs ys : List A} → Permᴰ xs ys → Perm (filter p xs) (filter p ys)
  filter-permᴰ p Permᴰ.nil = Perm.rfl
  filter-permᴰ p (Permᴰ.cons {b} e q) = rw e (filter-cons p b _ _ (filter-permᴰ p q))
  filter-permᴰ p (Permᴰ.swap {a' = x} {b' = y} {l} e f) = rw (e, f) (filter-swap p y x l)
  filter-permᴰ p (Permᴰ.trans q r) = Perm.trans (filter-permᴰ p q) (filter-permᴰ p r)

  pub filter-perm : (p : A → Bool) {xs ys : List A} → Perm xs ys → Perm (filter p xs) (filter p ys)
  filter-perm p h = ∥∥₁_elim h Perm-prop (filter-permᴰ p)

  length-permᴰ : {xs ys : List A} → Permᴰ xs ys → length xs ≡ length ys
  length-permᴰ Permᴰ.nil = refl
  length-permᴰ (Permᴰ.cons e q) = ap suc (length-permᴰ q)
  length-permᴰ (Permᴰ.swap e f) = refl
  length-permᴰ (Permᴰ.trans q r) = length-permᴰ q ∙ length-permᴰ r

  pub length-perm : {xs ys : List A} → Perm xs ys → length xs ≡ length ys
  length-perm h = ∥∥₁_elim h (ℕ_set _ _) length-permᴰ

  pub All-of_filter :
      (p : A → Bool) (xs : List A) → count_p (λ x. not (p x)) xs ≡ 0 → All (λ x. p x ≡ true) xs
  All-of_filter p [] h = tt
  All-of_filter p (x ∷ xs) h = elim (Bool-cases (p x)) [
    | inl e ↦ (e, All-of_filter p xs (rw e at h))
    | inr e ↦ absurd (ground arith)
  ]

  none-count :
      (p : A → Bool) (xs : List A) → All (λ x. p x ≡ true) xs → count_p (λ x. not (p x)) xs ≡ 0
  none-count p [] h = refl
  none-count p (x ∷ xs) h = ground (arith, none-count p xs h.1)

  -- A Boolean test of all items does not see their order.
  pub All-perm :
      (p : A → Bool) {xs ys : List A}
      → Perm xs ys
      → All (λ x. p x ≡ true) xs
      → All (λ x. p x ≡ true) ys
  All-perm p {xs} {ys} h all =
      All-of_filter p ys (sym (count-perm (λ x. not (p x)) h) ∙ none-count p xs all)

module _ {ℓ} {A : Type ℓ} where
  abbrev pub any : (A → Bool) → List A → Bool
  any p [] = false
  any p (x ∷ xs) = p x || any p xs

  pub any-append : (p : A → Bool) (xs ys : List A) → any p (xs ++ ys) ≡ (any p xs || any p ys)
  any-append p [] ys = refl
  any-append p (x ∷ xs) ys = ground (arith, any-append p xs ys)

  pub any-filter : (p q : A → Bool) (xs : List A) → any p (filter q xs) ≡ any (λ x. q x && p x) xs
  any-filter p q [] = refl
  any-filter p q (x ∷ xs) = ground (arith, any-filter p q xs)

  any-permᴰ : (p : A → Bool) {xs ys : List A} → Permᴰ xs ys → any p xs ≡ any p ys
  any-permᴰ p Permᴰ.nil = refl
  any-permᴰ p (Permᴰ.cons e q) = rw e (ground (arith, any-permᴰ p q))
  any-permᴰ p (Permᴰ.swap e f) = rw (e, f) (ground arith)
  any-permᴰ p (Permᴰ.trans q r) = any-permᴰ p q ∙ any-permᴰ p r

  pub any-perm : (p : A → Bool) {xs ys : List A} → Perm xs ys → any p xs ≡ any p ys
  any-perm p h = ∥∥₁_elim h (Bool-set _ _) (any-permᴰ p)

  -- A witness for a test that some item passes.
  pub any→mem : (p : A → Bool) (xs : List A) → any p xs ≡ true → (x : A) × Memᴰ x xs × (p x ≡ true)
  any→mem p [] h = cc
  any→mem p (x ∷ xs) h = elim (Bool-cases (p x)) [
    | inl e ↦ (x, Memᴰ.head refl, e)
    | inr e ↦ let (y, m, py) = any→mem p xs (ground arith) in (y, Memᴰ.tail m, py)
  ]

  pub mem→any : (p : A → Bool) (x : A) (xs : List A) → Memᴰ x xs → p x ≡ true → any p xs ≡ true
  mem→any p x [] m h = absurd (Memᴰ.not-nil m)
  mem→any p x (y ∷ xs) m h = elim ((Memᴰ-cons x y xs).0 m) [
    | inl e ↦ rw (← e) (rw h refl)
    | inr later ↦ rw (mem→any p x xs later h) (ground arith)
  ]

pub any-map {ℓ κ} :
    {A : Type ℓ} {B : Type κ} (p : B → Bool) (f : A → B) (xs : List A)
    → any p (map f xs) ≡ any (λ x. p (f x)) xs
any-map p f [] = refl
any-map p f (x ∷ xs) = ground (arith, any-map p f xs)

-- Membership of a number, as `contains` tests it.
abbrev pub contains : ℕ → List ℕ → Bool
contains v = any (λ x. v == x)

pub contains_iff : (v : ℕ) (xs : List ℕ) → (contains v xs ≡ true) ↔ Memᴰ v xs
contains_iff v xs = (
  λ h. let (x, m, e) = any→mem (λ x. v == x) xs h in rw ((==_iff v x).0 e) m,
  λ m. mem→any (λ x. v == x) v xs m ((==_iff v v).1 refl),
)
