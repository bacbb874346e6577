-- ===== src/Pattern/Enumeration.antt =====
-- `find_from` and `find` against the reference search.
use mathlib.Core.List.{append-nil}
use gtvdb.Base.{
  ℕ, zero, suc, ◌-◌, ◌≤◌, ◌≡◌, refl, sym, ap, ◌∙◌, inl, inr, true, false, ◌||◌, List, [], ◌∷◌, ◌++◌,
  take, length, length-take, leb, ◌==◌, ==_iff, if◌then◌else◌, if_true, if_false, arith, Bool-cases,
}
use gtvdb.Base.Int.{ℤ}
use gtvdb.Error.{Result, ok, ◌>>=◌, >>=-eq-ok}
use gtvdb.Csr.{TemporalCsr}
use gtvdb.Pattern.{Pattern, Match, DfsState, new_state, bind, find_from, find_loop, find}
use gtvdb.Pattern.Reference.{extensions}
use gtvdb.Pattern.Same.{IsSame}
use gtvdb.Pattern.Complete.{take-joined, take-short, take-full, dfs-IsFirst}

-- All matches whose first variable is the start.
abbrev pub matches_from : TemporalCsr → Pattern → ℤ → ℕ → Result (List Match)
matches_from csr p valid_at start =
    if p.num_vars == 0
    then ok []
    else extensions csr p valid_at p.edges 0 (bind 0 start (new_state p))

-- All matches from `n` nodes on, start after start.
abbrev pub all_matches : TemporalCsr → Pattern → ℤ → ℕ → ℕ → Result (List Match)
all_matches csr p valid_at start zero = ok []
all_matches csr p valid_at start (suc n) = matches_from csr p valid_at start >>= λ first.
    all_matches csr p valid_at (suc start) n >>= λ rest. ok (first ++ rest)

IsSame-refl : (n ei : ℕ) (s : DfsState) → IsSame n ei s s
IsSame-refl n ei s = record {
  nodes = refl;
  from = record { size = refl; known = λ j h. refl };
  to = record { size = refl; known = λ j h. refl };
  type = record { size = refl; known = λ j h. refl };
}

no_items : (k : ℕ) → [] ≡ take {A = Match} k []
no_items zero = refl
no_items (suc k) = refl

take-of_rest :
    {A : Type 0} (k : ℕ) (xs ys : List A)
    → length xs ≤ k
    → xs ++ take (k - length xs) ys ≡ take k (xs ++ ys)
take-of_rest k [] ys h = ap (λ i. take i ys) (omega arith)
take-of_rest zero (x ∷ xs) ys h = absurd (omega (arith, h))
take-of_rest (suc k) (x ∷ xs) ys h =
    let same : suc k - suc (length xs) ≡ k - length xs = omega arith in
    ap (λ i. x ∷ (xs ++ take i ys)) same ∙ ap (◌∷◌ x) (take-of_rest k xs ys (omega (arith, h)))

module _ (csr : TemporalCsr) (p : Pattern) (valid_at : ℤ) where
  find_from_first :
      (start limit : ℕ) (found : List Match)
      → matches_from csr p valid_at start ≡ ok found
      → find_from csr p start valid_at limit ≡ ok (take limit found)
  unfolding find_from
  find_from_first start limit found h = elim (Bool-cases (p.num_vars == 0)) [
    | inl none ↦
        let none_found : [] ≡ found = cc (sym (if_true _ _ none) ∙ h) in
        let over : (limit == 0 || p.num_vars == 0) ≡ true = ground (arith, none) in
        if_true _ _ over ∙ ap ok (no_items limit ∙ ap (take limit) none_found)
    | inr some ↦ elim (Bool-cases (limit == 0)) [
      | inl e ↦
          let same : limit ≡ 0 = (==_iff limit 0).0 e in
          let over : (limit == 0 || p.num_vars == 0) ≡ true = ground (arith, e) in
          if_true _ _ over ∙ ap (λ k. ok (take k found)) (sym same)
      | inr e ↦
          let start_state = bind 0 start (new_state p) in
          let searched =
            dfs-IsFirst csr p valid_at (length p.edges) limit p.edges 0 (omega arith) start_state
              start_state [] found (IsSame-refl (length p.edges) 0 start_state) (omega arith)
              (sym (if_false _ _ some) ∙ h) in
          let on : (limit == 0 || p.num_vars == 0) ≡ false = ground (arith, some, e) in
          if_false _ _ on ∙ ap (λ r. r >>= λ q. ok q.1) searched.1
    ]
  ]

  find_loop_first :
      (n start limit : ℕ) (out found : List Match)
      → length out ≤ limit
      → all_matches csr p valid_at start n ≡ ok found
      → find_loop csr p valid_at limit start n out ≡ ok (take limit (out ++ found))
  unfolding find_loop
  find_loop_first zero start limit out found short h =
      let none_found : [] ≡ found = cc h in
      ap ok (
        sym (take-short limit out short)
        ∙ ap (take limit) (sym (append-nil out) ∙ ap (λ xs. out ++ xs) none_found))
  find_loop_first (suc n) start limit out found short h =
      elim (Bool-cases (leb limit (length out))) [
        | inl full ↦
            if_true _ _ full ∙ ap ok (sym (take-full limit out found (ground (arith, short, full))))
        | inr room ↦
            let (first, here, later) = >>=-eq-ok (matches_from csr p valid_at start) _ h in
            let (rest, there, last) =
              >>=-eq-ok (all_matches csr p valid_at (suc start) n) _ later in
            let joined : first ++ rest ≡ found = cc last in
            let got = find_from_first start (limit - length out) first here in
            let grown : out ++ take (limit - length out) first ≡ take limit (out ++ first) =
              take-of_rest limit out first short in
            if_false _ _ room
            ∙ ap (λ r. r >>= λ ms. find_loop csr p valid_at limit (suc start) n (out ++ ms)) got
            ∙ ap (find_loop csr p valid_at limit (suc start) n) grown
            ∙ find_loop_first n (suc start) limit (take limit (out ++ first)) rest
                (omega (arith, length-take limit (out ++ first))) there
            ∙ ap ok (take-joined limit out first rest found joined)
      ]

  -- Where the reference search ends without an error, `find_from` returns the first `limit` of the matches
  -- it lists from the start, and `find` the first `limit` of those from all nodes, start after start:
  -- below the limit no match is missing, and none is found twice that is listed once.
  pub find_complete :
      (limit start : ℕ) (found all : List Match)
      → matches_from csr p valid_at start ≡ ok found
      → all_matches csr p valid_at 0 csr.node_count ≡ ok all
      → (find_from csr p start valid_at limit ≡ ok (take limit found))
        × (find csr p valid_at limit ≡ ok (take limit all))
  unfolding find
  find_complete limit start found all h k = (
    find_from_first start limit found h,
    find_loop_first csr.node_count 0 limit [] all (omega arith) k,
  )
