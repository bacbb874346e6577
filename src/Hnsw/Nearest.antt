-- ===== src/Hnsw/Nearest.antt =====
-- The `k` nearest of a collection that grows: later items are compared with the `k` nearest only.
use mathlib.Core.List.Perm
use mathlib.Core.List.Memᴰ
use mathlib.Core.List.{append_assoc, perm_append_comm}
use gtvdb.Base.{
  ℕ, zero, suc, ◌≤◌, ◌<◌, ◌≡◌, sym, ap, ◌∙◌, subst, inl, inr, Bool, true, false, min, List, [], ◌∷◌,
  ◌++◌, Memᴰ, Memᴰ-cons, Perm, length, take, drop, All, All-imp, All-mem, All-of_mem, All-append,
  arith, Bool-cases, length-take, length-append,
}
use gtvdb.Base.Filter.{
  count_p, count-perm, filter-append, filter, filter-All, filter-none, length-perm,
}
use gtvdb.Base.Sort.{IsWeakOrder, IsSorted}
use gtvdb.Knn.Nearest.{IsNearest, IsSorted-take, take-drop, rest_above}
use gtvdb.Hnsw.Descent.{irrefl}

length_pos {ℓ} : {A : Type ℓ} (a : A) (xs : List A) → Memᴰ a xs → 1 ≤ length xs
length_pos a [] m = absurd (Memᴰ.not-nil m)
length_pos a (x ∷ xs) m = omega arith

Perm_middle : {A : Type 0} (xs ys zs : List A) → Perm ((xs ++ ys) ++ zs) ((xs ++ zs) ++ ys)
Perm_middle xs ys zs =
    rw (append_assoc xs ys zs, append_assoc xs zs ys) (Perm.append_left xs (perm_append_comm ys zs))

module _ {A : Type 0} (lt : A → A → Bool) (weak : IsWeakOrder lt) where
  -- Fewer than `k` items are below one of the first `k`.
  count_below_first :
      (k : ℕ) (xs : List A) (t : A)
      → IsSorted lt xs
      → Memᴰ t (take k xs)
      → count_p (λ y. lt y t) xs < k
  count_below_first zero xs t h m = absurd (Memᴰ.not-nil m)
  count_below_first (suc k) [] t h m = absurd (Memᴰ.not-nil m)
  count_below_first (suc k) (x ∷ xs) t h m = elim ((Memᴰ-cons t x (take k xs)).0 m) [
    | inl e ↦
        let none_below = filter-none (λ y. lt y x) (x ∷ xs) (irrefl weak x, h.0) in
        let z : count_p (λ y. lt y x) (x ∷ xs) ≡ 0 = ap (λ (ys : List A). length ys) none_below in
        subst (λ u. count_p (λ y. lt y u) (x ∷ xs) < suc k) (sym e) (omega (arith, z))
    | inr later ↦ ground (arith, count_below_first k xs t h.1 later)
  ]

  -- With `k` items not above `l`, an item above `l` is not among the first `k`.
  first_not_above :
      (k : ℕ) (best more sorted : List A) (l t : A)
      → IsSorted lt sorted
      → Perm sorted (best ++ more)
      → k ≤ length best
      → All (λ r. lt l r ≡ false) best
      → Memᴰ t (take k sorted)
      → lt l t ≡ false
  first_not_above k best more sorted l t order same full above m = elim (Bool-cases (lt l t)) [
    | inr e ↦ e
    | inl e ↦
        let below : All (λ r. lt r t ≡ true) best =
          All-imp (λ r h. ground (arith, weak.trans t r l)) best above in
        absurd (
          omega (
            arith,
            count_below_first k sorted t order m,
            count-perm (λ y. lt y t) same,
            ap (λ (ys : List A). length ys) (filter-append (λ y. lt y t) best more),
            length-append (filter (λ y. lt y t) best) (filter (λ y. lt y t) more),
            ap (λ (ys : List A). length ys) (filter-All (λ y. lt y t) best below),
          ))
  ]

  pub IsNearest-append :
      (k : ℕ) (all more best sorted : List A)
      → IsSorted lt sorted
      → Perm sorted (best ++ more)
      → IsNearest lt k all best
      → IsNearest lt k (all ++ more) (take k sorted)
  IsNearest-append k all more best sorted order same n =
      let left = n.left in
      record {
        left = drop k sorted ++ left;
        parts = rw (← append_assoc (take k sorted) (drop k sorted) left) (
            rw (take-drop k sorted) (
              Perm.trans (Perm.append_right left same)
                (Perm.trans (Perm_middle best more left) (Perm.append_right more n.parts))));
        size = omega (
          arith,
          length-take k sorted,
          length-perm same,
          length-append best more,
          length-append all more,
          n.size,
        );
        ascend = IsSorted-take lt k sorted order;
        closest = All-of_mem _ (take k sorted) (λ t m.
            All-append (λ y. lt y t ≡ false) (drop k sorted) left
              (All-mem _ t (take k sorted) (rest_above lt k sorted order) m)
              (All-of_mem _ left (λ l o.
                first_not_above k best more sorted l t order same
                  (omega (
                    arith,
                    n.size,
                    length-perm n.parts,
                    length-append best left,
                    length_pos l left o,
                  ))
                  (All-imp (λ r h. All-mem (λ y. lt y r ≡ false) l left h o) best n.closest) m)));
      }

  pub IsNearest-perm :
      (k : ℕ) (all all' best : List A)
      → Perm all all'
      → IsNearest lt k all best
      → IsNearest lt k all' best
  IsNearest-perm k all all' best same n = record {
    left = n.left;
    parts = Perm.trans n.parts same;
    size = n.size ∙ ap (min k) (length-perm same);
    ascend = n.ascend;
    closest = n.closest;
  }

  pub IsNearest-nil : (k : ℕ) → IsNearest lt k [] []
  IsNearest-nil k = record {
    left = [];
    parts = Perm.rfl;
    size = omega arith;
    ascend = tt;
    closest = tt;
  }
