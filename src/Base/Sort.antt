-- ===== src/Base/Sort.antt =====
-- Sorting by a Boolean test: what ascending means, a stable sort as Rust's `sort_by`, and the
-- promise of `sort_unstable_by`, which leaves the order of equal items open.
use mathlib.Core.List.Perm
use gtvdb.Base.{
  ◌≡◌, refl, sym, ap, ◌∙◌, if_true, if_false, Bool, true, false, List, [], ◌∷◌, ◌++◌, Perm, arith,
  if◌then◌else◌, Bool-cases, inl, inr, All, All-imp,
}
use gtvdb.Base.Filter.{filter, All-filter}
use gtvdb.Base.Order.{Order, lt_asymm, le_trans}

-- What `sort_by` wants of its comparison: a strict order on classes of equal items.
pub record IsWeakOrder {ℓ} {A : Type ℓ} (lt : A → A → Bool) : Type ℓ where
  pub asymm : (a b : A) → lt a b ≡ true → lt b a ≡ false
  pub trans : (a b c : A) → lt b a ≡ false → lt c b ≡ false → lt c a ≡ false

abbrev pub by_key {ℓ κ} : {A : Type ℓ} {K : Type κ} → Order K → (A → K) → A → A → Bool
by_key o key a b = o.lt (key a) (key b)

pub by_key-IsWeakOrder {ℓ κ} :
    {A : Type ℓ} {K : Type κ} (o : Order K) (key : A → K) → IsWeakOrder (by_key o key)
by_key-IsWeakOrder o key = record {
  asymm = λ a b. lt_asymm o (key a) (key b);
  trans = λ a b c. le_trans o (key a) (key b) (key c);
}

module _ {ℓ} {A : Type ℓ} (lt : A → A → Bool) where
  -- Nothing later is below anything earlier.
  abbrev pub IsSorted : List A → Type ℓ
  IsSorted [] = Unit
  IsSorted (x ∷ xs) = All (λ y. lt y x ≡ false) xs × IsSorted xs

module _ {ℓ} {A : Type ℓ} (lt : A → A → Bool) where
  insert : A → List A → List A
  insert x [] = x ∷ []
  insert x (y ∷ ys) = if lt y x then y ∷ insert x ys else x ∷ y ∷ ys

  -- Items that are equal keep their order: `x`, which stood first, goes before its equals.
  unfoldable pub sort_by : List A → List A
  unfolding insert
  sort_by [] = []
  sort_by (x ∷ xs) = insert x (sort_by xs)

  insert-perm : (x : A) (xs : List A) → Perm (insert x xs) (x ∷ xs)
  unfolding insert
  insert-perm x [] = Perm.rfl
  insert-perm x (y ∷ ys) = elim (Bool-cases (lt y x)) [
    | inl e ↦ rw (e, insert) (Perm.trans (Perm.cons y (insert-perm x ys)) (Perm.swap x y ys))
    | inr e ↦ rw (e, insert) Perm.rfl
  ]

  pub sort_by-perm : (xs : List A) → Perm (sort_by xs) xs
  unfolding sort_by
  sort_by-perm [] = Perm.rfl
  sort_by-perm (x ∷ xs) = Perm.trans (insert-perm x (sort_by xs)) (Perm.cons x (sort_by-perm xs))

  All-insert {κ} : (P : A → Type κ) (x : A) (xs : List A) → P x → All P xs → All P (insert x xs)
  unfolding insert
  All-insert P x [] hx h = (hx, tt)
  All-insert P x (y ∷ ys) hx h = elim (Bool-cases (lt y x)) [
    | inl e ↦ rw (e, insert) (h.0, All-insert P x ys hx h.1)
    | inr e ↦ rw (e, insert) (hx, h)
  ]

  pub All-sort_by {κ} : (P : A → Type κ) (xs : List A) → All P xs → All P (sort_by xs)
  unfolding sort_by
  All-sort_by P [] h = tt
  All-sort_by P (x ∷ xs) h = All-insert P x (sort_by xs) h.0 (All-sort_by P xs h.1)

module _ {ℓ} {A : Type ℓ} (lt : A → A → Bool) (w : IsWeakOrder lt) where
  insert-IsSorted : (x : A) (xs : List A) → IsSorted lt xs → IsSorted lt (insert lt x xs)
  unfolding insert
  insert-IsSorted x [] h = (tt, tt)
  insert-IsSorted x (y ∷ ys) h = elim (Bool-cases (lt y x)) [
    | inl e ↦
        rw e
          (All-insert lt (λ z. lt z y ≡ false) x ys (w.asymm y x e) h.0, insert-IsSorted x ys h.1)
    | inr e ↦ rw e ((e, All-imp (λ z below. w.trans x y z e below) ys h.0), h)
  ]

  pub sort_by-IsSorted : (xs : List A) → IsSorted lt (sort_by lt xs)
  unfolding sort_by
  sort_by-IsSorted [] = tt
  sort_by-IsSorted (x ∷ xs) = insert-IsSorted x (sort_by lt xs) (sort_by-IsSorted xs)

-- `sort_unstable_by`: some ascending permutation. Where equal items end up is not promised.
pub record UnstableSort : Type 1 where
  pub sort : (A : Type 0) → (A → A → Bool) → List A → List A
  pub sort-perm : (A : Type 0) (lt : A → A → Bool) (xs : List A) → Perm (sort A lt xs) xs
  pub sort-IsSorted :
      (A : Type 0) (lt : A → A → Bool) → IsWeakOrder lt → (xs : List A) → IsSorted lt (sort A lt xs)

-- The stable sort keeps the promise.
abbrev pub stable_sort : UnstableSort
stable_sort = record {
  sort = λ A lt xs. sort_by lt xs;
  sort-perm = λ A lt xs. sort_by-perm lt xs;
  sort-IsSorted = λ A lt w xs. sort_by-IsSorted lt w xs;
}

pub IsSorted-filter {ℓ} :
    {A : Type ℓ} (lt : A → A → Bool) (p : A → Bool) (xs : List A)
    → IsSorted lt xs
    → IsSorted lt (filter p xs)
IsSorted-filter lt p [] h = tt
IsSorted-filter lt p (x ∷ xs) h = elim (Bool-cases (p x)) [
  | inl e ↦ rw e (All-filter (λ y. lt y x ≡ false) p xs h.0, IsSorted-filter lt p xs h.1)
  | inr e ↦ rw e (IsSorted-filter lt p xs h.1)
]

-- Where a stable sort puts an item that stood last: behind everything that is not above it.
abbrev pub insert_last {ℓ} : {A : Type ℓ} → (A → A → Bool) → A → List A → List A
insert_last lt s [] = s ∷ []
insert_last lt s (x ∷ xs) = if lt s x then s ∷ x ∷ xs else x ∷ insert_last lt s xs

module _ {ℓ} {A : Type ℓ} (lt : A → A → Bool) (w : IsWeakOrder lt) where
  insert-front : (x : A) (xs : List A) → All (λ y. lt y x ≡ false) xs → insert lt x xs ≡ x ∷ xs
  unfolding insert
  insert-front x [] h = refl
  insert-front x (y ∷ ys) h = rw h.0 refl

  pub sort_by-sorted : (xs : List A) → IsSorted lt xs → sort_by lt xs ≡ xs
  unfolding sort_by
  sort_by-sorted [] h = refl
  sort_by-sorted (x ∷ xs) h = ap (insert lt x) (sort_by-sorted xs h.1) ∙ insert-front x xs h.0

  insert_last-below :
      (s x : A) (xs : List A)
      → lt s x ≡ true
      → All (λ y. lt y x ≡ false) xs
      → insert_last lt s xs ≡ s ∷ xs
  insert_last-below s x [] e h = refl
  insert_last-below s x (y ∷ ys) e h = elim (Bool-cases (lt s y)) [
    | inl below ↦ rw below refl
    | inr above ↦ absurd (ground (arith, w.trans x y s h.0 above))
  ]

  All-insert_last :
      (s x : A) (xs : List A)
      → lt s x ≡ false
      → All (λ y. lt y x ≡ false) xs
      → All (λ y. lt y x ≡ false) (insert_last lt s xs)
  All-insert_last s x [] e h = (e, tt)
  All-insert_last s x (y ∷ ys) e h = elim (Bool-cases (lt s y)) [
    | inl below ↦ rw below (e, h)
    | inr above ↦ rw above (h.0, All-insert_last s x ys e h.1)
  ]

  pub sort_by-insert_last :
      (xs : List A) (s : A) → IsSorted lt xs → sort_by lt (xs ++ s ∷ []) ≡ insert_last lt s xs
  unfolding sort_by insert
  sort_by-insert_last [] s h = refl
  sort_by-insert_last (x ∷ xs) s h =
      ap (insert lt x) (sort_by-insert_last xs s h.1) ∙ elim (Bool-cases (lt s x)) [
        | inl e ↦
            ap (insert lt x) (insert_last-below s x xs e h.0)
            ∙ if_true _ _ e
            ∙ ap (◌∷◌ s) (insert-front x xs h.0)
            ∙ sym (if_true _ _ e)
        | inr e ↦
            insert-front x (insert_last lt s xs) (All-insert_last s x xs e h.0)
            ∙ sym (if_false _ _ e)
      ]
