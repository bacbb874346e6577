-- ===== src/Knn/Nearest.antt =====
-- What both searches answer: the nearest vectors that the filter lets through.
use mathlib.Core.List.{append-nil}
use gtvdb.Base.{
  ℕ, zero, suc, ◌+◌, ◌≡◌, refl, sym, ap, ap₂, ◌<◌, ◌∙◌, subst, min, inl, inr, Bool, true, false,
  not, Option, none, List, [], ◌∷◌, ◌++◌, map, Perm, length, get_or, take, drop, All, arith, ◌==◌,
  ==_iff, if◌then◌else◌, Bool-cases, if_true, if_false, length-take, length-append, List-cases,
}
use gtvdb.Base.Filter.{filter, length-perm}
use gtvdb.Asof.{range}
use gtvdb.Base.Sort.{IsWeakOrder, IsSorted, sort_by, sort_by-perm, sort_by-IsSorted}
use gtvdb.Error.{ok, is_ok}
use gtvdb.Flat.{
  Floats, FlatIndex, score_lt, squared_l2, scored, nearest, masked, mask_fits, search_knn,
  new as new_index,
}
use gtvdb.Knn.{new, with_dimension}

pub take-drop {ℓ} : {A : Type ℓ} (k : ℕ) (xs : List A) → take k xs ++ drop k xs ≡ xs
take-drop zero xs = refl
take-drop (suc k) [] = refl
take-drop (suc k) (x ∷ xs) = ap (◌∷◌ x) (take-drop k xs)

module _ {A : Type 0} (lt : A → A → Bool) where
  pub All-take {κ} : (P : A → Type κ) (k : ℕ) (xs : List A) → All P xs → All P (take k xs)
  All-take P zero xs h = tt
  All-take P (suc k) [] h = tt
  All-take P (suc k) (x ∷ xs) h = (h.0, All-take P k xs h.1)

  All-drop {κ} : (P : A → Type κ) (k : ℕ) (xs : List A) → All P xs → All P (drop k xs)
  All-drop P zero xs h = h
  All-drop P (suc k) [] h = tt
  All-drop P (suc k) (x ∷ xs) h = All-drop P k xs h.1

  pub IsSorted-take : (k : ℕ) (xs : List A) → IsSorted lt xs → IsSorted lt (take k xs)
  IsSorted-take zero xs h = tt
  IsSorted-take (suc k) [] h = tt
  IsSorted-take (suc k) (x ∷ xs) h =
      (All-take (λ y. lt y x ≡ false) k xs h.0, IsSorted-take k xs h.1)

  pub rest_above :
      (k : ℕ) (xs : List A)
      → IsSorted lt xs
      → All (λ x. All (λ y. lt y x ≡ false) (drop k xs)) (take k xs)
  rest_above zero xs h = tt
  rest_above (suc k) [] h = tt
  rest_above (suc k) (x ∷ xs) h = (All-drop (λ y. lt y x ≡ false) k xs h.0, rest_above k xs h.1)

-- `best` are the `k` least of `all`, in order, or all of them where there are fewer.
pub record IsNearest {A : Type 0} (lt : A → A → Bool) (k : ℕ) (all best : List A) : Type 0 where
  pub left : List A
  pub parts : Perm (best ++ left) all
  pub size : length best ≡ min k (length all)
  pub ascend : IsSorted lt best
  pub closest : All (λ x. All (λ y. lt y x ≡ false) left) best

-- As many nearest items as there are items are all of them.
pub IsNearest-all :
    {A : Type 0} (lt : A → A → Bool) {k : ℕ} {all best : List A}
    → IsNearest lt k all best
    → length best ≡ length all
    → Perm best all
IsNearest-all {A} lt {all} {best} n full = elim (List-cases n.left) [
  | inl e ↦ subst (λ xs. Perm xs all) (ap (◌++◌ best) e ∙ append-nil best) n.parts
  | inr (x, rest, e) ↦ absurd (
      omega (
        arith,
        full,
        length-perm n.parts,
        length-append best n.left,
        ap (λ (xs : List A). length xs) e,
      ))
]

plus_suc : (i k : ℕ) → i + suc k ≡ suc i + k
plus_suc i k = omega arith

plus_zero : (i : ℕ) → i + 0 ≡ i
plus_zero i = omega arith

pub zero_plus : (i : ℕ) → i ≡ 0 + i
zero_plus i = omega arith

-- The positions that the filter lets through, each with its distance and id.
abbrev pub candidates_of :
    {F : Type 0} → Floats F → List ℕ → List (List F) → (ℕ → Bool) → List F → List (F × ℕ)
candidates_of floats ids vectors keep query =
    map (λ i. (squared_l2 floats query (get_or vectors i []), get_or ids i 0))
      (filter keep (range 0 (length vectors)))

pub scored_lem :
    {F : Type 0} (floats : Floats F) (ids : List ℕ) (vectors rest : List (List F)) (keep : ℕ → Bool)
    (query : List F) (i : ℕ)
    → ((k : ℕ) → k < length rest → get_or rest k [] ≡ get_or vectors (i + k) [])
    → scored floats keep query ids i rest
      ≡ map
          (λ j. (squared_l2 floats query (get_or vectors j []), get_or ids j 0))
          (filter keep (range i (length rest)))
unfolding scored
scored_lem floats ids vectors [] keep query i suffix = refl
scored_lem floats ids vectors (v ∷ rest) keep query i suffix =
    let ih =
      scored_lem floats ids vectors rest keep query (suc i)
        (λ k lt. suffix (suc k) (omega arith) ∙ ap (λ m. get_or vectors m []) (plus_suc i k)) in
    let here : v ≡ get_or vectors i [] =
      suffix 0 (omega arith) ∙ ap (λ m. get_or vectors m []) (plus_zero i) in
    elim (Bool-cases (keep i)) [
      | inl e ↦
          if_true _ _ e
          ∙ ap₂ (λ w xs. (squared_l2 floats query w, get_or ids i 0) ∷ xs) here ih
          ∙ ap (map (λ j. (squared_l2 floats query (get_or vectors j []), get_or ids j 0)))
              (sym (if_true _ _ e))
      | inr e ↦
          if_false _ _ e
          ∙ ih
          ∙ ap (map (λ j. (squared_l2 floats query (get_or vectors j []), get_or ids j 0)))
              (sym (if_false _ _ e))
    ]

module _ {F : Type 0} (floats : Floats F) (weak : IsWeakOrder floats.lt) where
  pub score-IsWeakOrder : IsWeakOrder (score_lt floats)
  score-IsWeakOrder = record {
    asymm = λ a b h. ground (arith, weak.asymm a.0 b.0, weak.asymm b.0 a.0);
    trans = λ a b c h k.
        ground (arith, weak.trans a.0 b.0 c.0, weak.trans b.0 c.0 a.0, weak.trans c.0 a.0 b.0);
  }

  pub nearest_lem :
      (k : ℕ) (scores : List (F × ℕ))
      → IsNearest (score_lt floats) k scores (nearest floats k scores)
  unfolding nearest
  nearest_lem k scores =
      let lt = score_lt floats in
      let sorted = sort_by lt scores in
      let order = sort_by-IsSorted lt score-IsWeakOrder scores in
      record {
        left = drop k sorted;
        parts = subst (λ xs. Perm xs scores) (sym (take-drop k sorted)) (sort_by-perm lt scores);
        size = length-take k sorted ∙ ap (min k) (length-perm (sort_by-perm lt scores));
        ascend = IsSorted-take lt k sorted order;
        closest = rest_above lt k sorted order;
      }

  none_wanted :
      (k : ℕ) (all : List (F × ℕ))
      → (if k == 0 then ok [] else ok (map (λ s. s.1) (nearest floats k all)))
        ≡ ok (map (λ s. s.1) (nearest floats k all))
  unfolding nearest
  none_wanted k all = elim (Bool-cases (k == 0)) [
    | inr e ↦ if_false _ _ e
    | inl e ↦
        if_true _ _ e
        ∙ ap (λ n. ok (map (λ s. s.1) (take n (sort_by (score_lt floats) all))))
            (sym ((==_iff k 0).0 e))
  ]

  -- When numbers are weakly ordered, which they are without NaN, the flat index answers a query of its
  -- dimension, with a mask of its length or none, with the ids of the `k` nearest vectors that the mask
  -- lets through, by ascending distance and then id.
  pub search_knn_correct :
      (index : FlatIndex F) (query : List F) (k : ℕ) (mask : Option (List Bool))
      → length query ≡ index.dim
      → mask_fits mask (length index.vectors) ≡ true
      → (best : List (F × ℕ)) × (search_knn floats index query k mask ≡ ok (map (λ s. s.1) best))
        × IsNearest
            (score_lt floats)
            k
            (candidates_of floats index.ids index.vectors (masked mask) query)
            best
  unfolding search_knn
  search_knn_correct index query k mask dim fits =
      let all = scored floats (masked mask) query index.ids 0 index.vectors in
      (
        nearest floats k all,
        if_false _ _ (ap not ((==_iff (length query) index.dim).1 dim))
            ∙ if_false _ _ (ap not fits)
            ∙ none_wanted k all,
        subst (λ xs. IsNearest (score_lt floats) k xs (nearest floats k all))
            (scored_lem floats index.ids index.vectors index.vectors (masked mask) query 0
              (λ i lt. ap (λ m. get_or index.vectors m []) (zero_plus i)))
            (nearest_lem k all),
      )

-- Both constructors, the index's and the collection's, accept the same ids and vectors.
is_ok-new :
    {F : Type 0} (ids : List ℕ) (vectors : List (List F))
    → is_ok (new ids vectors none) ≡ is_ok (new_index ids vectors)
unfolding new with_dimension new_index
is_ok-new ids [] = ground arith
is_ok-new ids (first ∷ vectors) = ground arith
