-- ===== src/Base/OrderedSet.antt =====
-- `BTreeSet` as the ascending list of its items, without duplicates.
use gtvdb.Base.{
  ◌≡◌, refl, Bool, true, not, ◌&&◌, ◌||◌, List, [], ◌∷◌, arith, if◌then◌else◌, Bool-cases, inl, inr,
  All, All-imp,
}
use gtvdb.Base.Order.{Order, eqb}
use gtvdb.Base.Filter.{filter, any, All-filter}

module _ {ℓ} {A : Type ℓ} (o : Order A) where
  abbrev pub set_contains : A → List A → Bool
  set_contains x = any (λ y. eqb o x y)

  -- An item that is there already stays as it is.
  unfoldable pub set_insert : A → List A → List A
  set_insert x [] = x ∷ []
  set_insert x (y ∷ ys) =
      if o.lt x y then x ∷ y ∷ ys else (if o.lt y x then y ∷ set_insert x ys else y ∷ ys)

  unfoldable pub set_remove : A → List A → List A
  set_remove x = filter (λ y. not (eqb o x y))

  -- Strictly ascending: what a `BTreeSet` keeps.
  abbrev pub IsAscending : List A → Type ℓ
  IsAscending [] = Unit
  IsAscending (x ∷ xs) = All (λ y. o.lt x y ≡ true) xs × IsAscending xs

module _ {ℓ} {A : Type ℓ} (o : Order A) where
  pub contains-insert :
      (z x : A) (xs : List A)
      → set_contains o z (set_insert o x xs) ≡ (eqb o z x || set_contains o z xs)
  unfolding set_insert
  contains-insert z x [] = refl
  contains-insert z x (y ∷ ys) = elim (Bool-cases (o.lt x y)) [
    | inl e ↦ rw e
    | inr e ↦ elim (Bool-cases (o.lt y x)) [
      | inl f ↦ rw (e, f) (ground (arith, contains-insert z x ys))
      | inr f ↦ rw (e, f) (rw (o.lt_total x y e f) (ground arith))
    ]
  ]

  contains_other :
      (z x : A) (xs : List A)
      → set_contains o z (filter (λ y. not (eqb o x y)) xs)
        ≡ (not (eqb o z x) && set_contains o z xs)
  contains_other z x [] = ground arith
  contains_other z x (y ∷ ys) =
      ground (arith, contains_other z x ys, o.lt_total x y, o.lt_total z y, o.lt_total z x)

  pub contains-remove :
      (z x : A) (xs : List A)
      → set_contains o z (set_remove o x xs) ≡ (not (eqb o z x) && set_contains o z xs)
  unfolding set_remove
  contains-remove = contains_other

  All-set_insert {κ} :
      (P : A → Type κ) (x : A) (xs : List A) → P x → All P xs → All P (set_insert o x xs)
  unfolding set_insert
  All-set_insert P x [] hx h = (hx, tt)
  All-set_insert P x (y ∷ ys) hx h = elim (Bool-cases (o.lt x y)) [
    | inl e ↦ rw e (hx, h)
    | inr e ↦ elim (Bool-cases (o.lt y x)) [
      | inl f ↦ rw (e, f) (h.0, All-set_insert P x ys hx h.1)
      | inr f ↦ rw (e, f) h
    ]
  ]

  pub set_insert-IsAscending :
      (x : A) (xs : List A) → IsAscending o xs → IsAscending o (set_insert o x xs)
  unfolding set_insert
  set_insert-IsAscending x [] h = (tt, tt)
  set_insert-IsAscending x (y ∷ ys) h = elim (Bool-cases (o.lt x y)) [
    | inl e ↦ rw e ((e, All-imp (λ z. o.lt_trans x y z e) ys h.0), h)
    | inr e ↦ elim (Bool-cases (o.lt y x)) [
      | inl f ↦
          rw (e, f)
            (All-set_insert (λ z. o.lt y z ≡ true) x ys f h.0, set_insert-IsAscending x ys h.1)
      | inr f ↦ rw (e, f) h
    ]
  ]

  filter-IsAscending : (p : A → Bool) (xs : List A) → IsAscending o xs → IsAscending o (filter p xs)
  filter-IsAscending p [] h = tt
  filter-IsAscending p (x ∷ xs) h = elim (Bool-cases (p x)) [
    | inl e ↦ rw e (All-filter (λ y. o.lt x y ≡ true) p xs h.0, filter-IsAscending p xs h.1)
    | inr e ↦ rw e (filter-IsAscending p xs h.1)
  ]

  pub set_remove-IsAscending :
      (x : A) (xs : List A) → IsAscending o xs → IsAscending o (set_remove o x xs)
  unfolding set_remove
  set_remove-IsAscending x = filter-IsAscending (λ y. not (eqb o x y))
