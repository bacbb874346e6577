-- ===== src/Csr/Frontier.antt =====
-- `dedup`, the frontier of a hop, and what a walk over the live edges is.
use gtvdb.Base.{
  ℕ, zero, suc, ◌<◌, ◌≡◌, refl, ◌∙◌, ◌↔◌, inl, inr, Bool, true, ◌&&◌, List, [], ◌∷◌, arith, get_or,
  All, All-imp, ltb, ◌==◌, ==_iff, Bool-cases,
}
use gtvdb.Base.Int.{ℤ}
use gtvdb.Base.Filter.{any, any-perm, contains}
use gtvdb.Base.Sort.{IsSorted, by_key-IsWeakOrder, sort_by, sort_by-perm, sort_by-IsSorted}
use gtvdb.Base.Order.{nat_order}
use gtvdb.Csr.{EdgeRow, dedup_after, dedup}
use gtvdb.Csr.Lookup.{live_edge}

-- Ascending with no value twice.
abbrev pub IsStrict : List ℕ → Type 0
IsStrict [] = Unit
IsStrict (x ∷ xs) = All (λ y. x < y) xs × IsStrict xs

-- An edge from `u` to `v` that is active at `valid_at`.
abbrev pub has_edge : List EdgeRow → ℤ → ℕ → ℕ → Bool
has_edge rows valid_at u v = any (λ r. live_edge u valid_at r && v == r.dst) rows

-- `v` is the end of a walk of exactly `k` live edges from one of the seeds.
abbrev pub Walk : List EdgeRow → ℤ → List ℕ → ℕ → ℕ → Type 0
Walk rows valid_at seeds zero v = contains v seeds ≡ true
Walk rows valid_at seeds (suc k) v =
    (u : ℕ) × Walk rows valid_at seeds k u × (has_edge rows valid_at u v ≡ true)

contains-dedup_after :
    (v x : ℕ) (xs : List ℕ) → contains v (x ∷ dedup_after x xs) ≡ contains v (x ∷ xs)
unfolding dedup_after
contains-dedup_after v x [] = refl
contains-dedup_after v x (y ∷ ys) = ground (arith, contains-dedup_after v y ys)

contains-dedup : (v : ℕ) (xs : List ℕ) → contains v (dedup xs) ≡ contains v xs
unfolding dedup
contains-dedup v [] = refl
contains-dedup v (x ∷ xs) = contains-dedup_after v x xs

dedup_after-IsStrict :
    (x : ℕ) (xs : List ℕ) → IsSorted ltb (x ∷ xs) → IsStrict (x ∷ dedup_after x xs)
unfolding dedup_after
dedup_after-IsStrict x [] h = (tt, tt)
dedup_after-IsStrict x (y ∷ ys) h =
    let ih = dedup_after-IsStrict y ys h.1 in
    elim (Bool-cases (x == y)) [
      | inl e ↦ rw e (rw ((==_iff x y).0 e) ih)
      | inr e ↦
          let x_lt : x < y = ground arith in
          rw e ((x_lt, All-imp (λ z lt. omega arith) (dedup_after y ys) ih.0), ih)
    ]

dedup-IsStrict : (xs : List ℕ) → IsSorted ltb xs → IsStrict (dedup xs)
unfolding dedup
dedup-IsStrict [] h = tt
dedup-IsStrict (x ∷ xs) h = dedup_after-IsStrict x xs h

-- A frontier: the sorted, deduplicated targets.
unfoldable pub frontier_of : List ℕ → List ℕ
frontier_of next = dedup (sort_by ltb next)

pub frontier_of-IsStrict : (next : List ℕ) → IsStrict (frontier_of next)
unfolding frontier_of
frontier_of-IsStrict next =
    dedup-IsStrict _ (sort_by-IsSorted ltb (by_key-IsWeakOrder nat_order (λ x. x)) next)

pub contains-frontier_of : (v : ℕ) (next : List ℕ) → contains v (frontier_of next) ≡ contains v next
unfolding frontier_of
contains-frontier_of v next = contains-dedup v _ ∙ any-perm (λ x. v == x) (sort_by-perm ltb next)

-- The meaning of each frontier, from that of the first and those of the rest.
pub frontiers-cons :
    (P : ℕ → ℕ → Type 0) (k : ℕ) (first : List ℕ) (rest : List (List ℕ))
    → ((v : ℕ) → (contains v first ≡ true) ↔ P 0 v)
    → ((i v : ℕ) → i < k → (contains v (get_or rest i []) ≡ true) ↔ P (suc i) v)
    → (i v : ℕ) → i < suc k
    → (contains v (get_or (first ∷ rest) i []) ≡ true) ↔ P i v
frontiers-cons P k first rest head tail zero v lt = head v
frontiers-cons P k first rest head tail (suc i) v lt = tail i v (omega arith)
