-- ===== src/Pattern/Complete.antt =====
-- The search with its limit and its restored state finds the first matches of the reference search.
use mathlib.Core.List.{append-nil, append_assoc}
use gtvdb.Base.{
  ℕ, zero, suc, ◌+◌, ◌≤◌, ◌<◌, ◌≡◌, refl, sym, ap, ap₂, subst, ◌∙◌, inl, inr, Bool, true, false,
  not, ◌||◌, List, [], ◌∷◌, ◌++◌, take, get_or, length, length-append, length-take, leb, ◌==◌,
  if◌then◌else◌, if_true, if_false, arith, Bool-cases,
}
use gtvdb.Base.Int.{ℤ}
use gtvdb.Error.{Result, ok, ◌>>=◌, >>=-eq-ok}
use gtvdb.Csr.{Neighbor, TemporalCsr, neighbors}
use gtvdb.Pattern.{
  PatternEdge, Pattern, Match, MatchedEdge, DfsState, Search, u64_max, node, to_match, orders_hold,
  event_orders_satisfied, leave, scan, dfs,
}
use gtvdb.Pattern.Reference.{is_open, entered, enter_lem, each, extensions}
use gtvdb.Pattern.Search.{or_false_right}
use gtvdb.Pattern.Same.{IsSame, IsSame-entered, IsSame-leave, matched_edges-same, orders_hold-same}

take-append {ℓ} :
    {A : Type ℓ} (k : ℕ) (xs ys : List A) → take k (take k xs ++ ys) ≡ take k (xs ++ ys)
take-append zero xs ys = refl
take-append (suc k) [] ys = refl
take-append (suc k) (x ∷ xs) ys = ap (◌∷◌ x) (take-append k xs ys)

pub take-short {ℓ} : {A : Type ℓ} (k : ℕ) (xs : List A) → length xs ≤ k → take k xs ≡ xs
take-short zero [] h = refl
take-short zero (x ∷ xs) h = absurd (omega (arith, h))
take-short (suc k) [] h = refl
take-short (suc k) (x ∷ xs) h = ap (◌∷◌ x) (take-short k xs (omega (arith, h)))

pub take-full {ℓ} : {A : Type ℓ} (k : ℕ) (xs ys : List A) → length xs ≡ k → take k (xs ++ ys) ≡ xs
take-full zero [] ys h = refl
take-full zero (x ∷ xs) ys h = absurd (omega (arith, h))
take-full (suc k) [] ys h = absurd (omega (arith, h))
take-full (suc k) (x ∷ xs) ys h = ap (◌∷◌ x) (take-full k xs ys (omega (arith, h)))

pub take-joined {ℓ} :
    {A : Type ℓ} (k : ℕ) (xs ys zs both : List A)
    → ys ++ zs ≡ both
    → take k (take k (xs ++ ys) ++ zs) ≡ take k (xs ++ both)
take-joined k xs ys zs both h =
    take-append k (xs ++ ys) zs ∙ ap (take k) (append_assoc xs ys zs ∙ ap (λ l. xs ++ l) h)

-- From states that agree, the search finds as many of the matches of the reference search as there is
-- room for behind those it has, and it leaves a state that agrees.
abbrev pub IsFirst : ℕ → ℕ → ℕ → Search → (DfsState → Result (List Match)) → Type 0
IsFirst n ei limit go below =
    (s r : DfsState) (ms found : List Match)
    → IsSame n ei s r
    → length ms ≤ limit
    → below r ≡ ok found
    → (s' : DfsState) × (go s ms ≡ ok (s', take limit (ms ++ found))) × IsSame n ei s' r

module _ (csr : TemporalCsr) (p : Pattern) (valid_at : ℤ) (n limit : ℕ) where
  scan-open :
      (go : Search) (ei : ℕ) (e : PatternEdge) (to_bound : Bool) (nb : Neighbor)
      (nbs : List Neighbor) (s s1 : DfsState) (ms ms1 : List Match)
      → is_open p e to_bound nb s.nodes ≡ true
      → go (entered ei e to_bound nb s) ms ≡ ok (s1, ms1)
      → scan go p ei e to_bound (nb ∷ nbs) s ms
        ≡ scan go p ei e to_bound nbs (leave e to_bound s1) ms1
  unfolding scan
  scan-open go ei e to_bound nb nbs s s1 ms ms1 h k =
      let down = enter_lem p ei e to_bound nb s ∙ if_true _ _ h in rw (down, scan, k) refl

  scan-closed :
      (go : Search) (ei : ℕ) (e : PatternEdge) (to_bound : Bool) (nb : Neighbor)
      (nbs : List Neighbor) (s : DfsState) (ms : List Match)
      → is_open p e to_bound nb s.nodes ≡ false
      → scan go p ei e to_bound (nb ∷ nbs) s ms ≡ scan go p ei e to_bound nbs s ms
  unfolding scan
  scan-closed go ei e to_bound nb nbs s ms h =
      let skip = enter_lem p ei e to_bound nb s ∙ if_false _ _ h in rw (skip, scan) refl

  scan-IsFirst :
      (go : Search) (below : DfsState → Result (List Match)) (ei : ℕ) (e : PatternEdge)
      (to_bound : Bool)
      → IsFirst n (suc ei) limit go below
      → ei < n
      → (nbs : List Neighbor) (s r : DfsState) (ms found : List Match) → IsSame n ei s r
      → to_bound ≡ not (node r e.to == u64_max)
      → length ms ≤ limit
      → each below p ei e to_bound nbs r ≡ ok found
      → (s' : DfsState) × (scan go p ei e to_bound nbs s ms ≡ ok (s', take limit (ms ++ found)))
        × IsSame n ei s' r
  unfolding scan
  scan-IsFirst go below ei e to_bound first lt [] s r ms found c b short h =
      let none_found : [] ≡ found = cc h in
      (
        s,
        ap (λ xs. ok (s, xs))
            (sym (take-short limit ms short)
              ∙ ap (take limit) (sym (append-nil ms) ∙ ap (λ xs. ms ++ xs) none_found)),
        c,
      )
  scan-IsFirst go below ei e to_bound first lt (nb ∷ nbs) s r ms found c b short h =
      elim (Bool-cases (is_open p e to_bound nb r.nodes)) [
        | inr shut ↦
            let same : is_open p e to_bound nb s.nodes ≡ false =
              ap (is_open p e to_bound nb) c.nodes ∙ shut in
            let rest =
              scan-IsFirst go below ei e to_bound first lt nbs s r ms found c b short
                (sym (if_false _ _ shut) ∙ h) in
            (rest.0, scan-closed go ei e to_bound nb nbs s ms same ∙ rest.1, rest.2)
        | inl open_here ↦
            let same : is_open p e to_bound nb s.nodes ≡ true =
              ap (is_open p e to_bound nb) c.nodes ∙ open_here in
            let (here, searched, later) =
              >>=-eq-ok (below (entered ei e to_bound nb r)) _ (sym (if_true _ _ open_here) ∙ h) in
            let (others, listed, last) = >>=-eq-ok (each below p ei e to_bound nbs r) _ later in
            let joined : here ++ others ≡ found = cc last in
            let down =
              first (entered ei e to_bound nb s) (entered ei e to_bound nb r) ms here
                (IsSame-entered n ei e to_bound nb s r c) short searched in
            let up = IsSame-leave n ei e to_bound nb down.0 r lt b down.2 in
            let ms1 = take limit (ms ++ here) in
            let rest =
              scan-IsFirst go below ei e to_bound first lt nbs (leave e to_bound down.0) r ms1
                others up b (omega (arith, length-take limit (ms ++ here))) listed in
            (
              rest.0,
              scan-open go ei e to_bound nb nbs s down.0 ms ms1 same down.1
                  ∙ rest.1
                  ∙ ap (λ xs. ok (rest.0, xs)) (take-joined limit ms here others found joined),
              rest.2,
            )
      ]

  abbrev match_of : List ℕ → List MatchedEdge → Match
  match_of nodes edges = record { nodes = nodes; edges = edges }

  last-take :
      (b : Bool) (m : Match) (ms : List Match)
      → length ms < limit
      → (if b then ms ++ m ∷ [] else ms) ≡ take limit (ms ++ (if b then m ∷ [] else []))
  last-take true m ms room =
      sym (take-short limit (ms ++ m ∷ []) (omega (arith, room, length-append ms (m ∷ []))))
  last-take false m ms room =
      sym (take-short limit ms (omega (arith, room))) ∙ ap (take limit) (sym (append-nil ms))

  dfs-leaf :
      (s r : DfsState) (ms : List Match)
      → IsSame n n s r
      → length ms ≤ limit
      → dfs csr p valid_at limit [] n s ms
        ≡ ok (s, take limit (ms ++ (if event_orders_satisfied r p then to_match r p ∷ [] else [])))
  unfolding dfs event_orders_satisfied to_match
  dfs-leaf s r ms c short =
      let matched : to_match s p ≡ to_match r p =
        ap₂ match_of c.nodes (matched_edges-same n s r c 0 p.edges) in
      let ordered = orders_hold-same n s r c p.event_orders in
      elim (Bool-cases (leb limit (length ms))) [
        | inl full ↦
            if_true _ _ full
            ∙ ap (λ xs. ok (s, xs)) (sym (take-full limit ms _ (ground (arith, short, full))))
        | inr room ↦
            if_false _ _ room
            ∙ ap (λ b. ok (s, if b then ms ++ to_match s p ∷ [] else ms)) ordered
            ∙ ap (λ m. ok (s, if orders_hold r p.event_orders then ms ++ m ∷ [] else ms)) matched
            ∙ ap (λ xs. ok (s, xs)) (last-take _ _ ms (ground (arith, room)))
      ]

  dfs-stops :
      (ei : ℕ) (e : PatternEdge) (remaining : List PatternEdge) (s : DfsState) (ms : List Match)
      → (leb limit (length ms) || node s e.from == u64_max) ≡ true
      → dfs csr p valid_at limit (e ∷ remaining) ei s ms ≡ ok (s, ms)
  unfolding dfs
  dfs-stops ei e remaining s ms h = if_true _ _ h

  dfs-goes_on :
      (ei : ℕ) (e : PatternEdge) (remaining : List PatternEdge) (s : DfsState) (ms : List Match)
      → (leb limit (length ms) || node s e.from == u64_max) ≡ false
      → dfs csr p valid_at limit (e ∷ remaining) ei s ms ≡ (
          neighbors csr (node s e.from) valid_at >>= λ nbs.
          scan
            (dfs csr p valid_at limit remaining (suc ei))
            p
            ei
            e
            (not (node s e.to == u64_max))
            nbs
            s
            ms)
  unfolding dfs
  dfs-goes_on ei e remaining s ms h = if_false _ _ h

  pub dfs-IsFirst :
      (remaining : List PatternEdge) (ei : ℕ)
      → ei + length remaining ≡ n
      → IsFirst n ei limit
          (dfs csr p valid_at limit remaining ei)
          (extensions csr p valid_at remaining ei)
  dfs-IsFirst [] ei total s r ms found c short h =
      let same : ei ≡ n = omega (arith, total) in
      let result : found ≡ (if event_orders_satisfied r p then to_match r p ∷ [] else []) = cc h in
      (
        s,
        ap (λ i. dfs csr p valid_at limit [] i s ms) same
            ∙ dfs-leaf s r ms (subst (λ i. IsSame n i s r) same c) short
            ∙ ap (λ xs. ok (s, take limit (ms ++ xs))) (sym result),
        c,
      )
  dfs-IsFirst (e ∷ remaining) ei total s r ms found c short h =
      let node_same : node s e.from ≡ node r e.from = ap (λ ns. get_or ns e.from u64_max) c.nodes in
      elim (Bool-cases (leb limit (length ms) || node s e.from == u64_max)) [
        | inl over ↦
            let kept : ms ≡ take limit (ms ++ found) = elim (Bool-cases (leb limit (length ms))) [
              | inl full ↦ sym (take-full limit ms found (ground (arith, short, full)))
              | inr room ↦
                  let unbound : (node r e.from == u64_max) ≡ true =
                    ap (λ i. i == u64_max) (sym node_same) ∙ ground (arith, over, room) in
                  let none_found : [] ≡ found = cc (sym (if_true _ _ unbound) ∙ h) in
                  sym (take-short limit ms short)
                  ∙ ap (take limit) (sym (append-nil ms) ∙ ap (λ xs. ms ++ xs) none_found)
            ] in
            (s, dfs-stops ei e remaining s ms over ∙ ap (λ xs. ok (s, xs)) kept, c)
        | inr on ↦
            let bound : (node r e.from == u64_max) ≡ false =
              ap (λ i. i == u64_max) (sym node_same)
              ∙ or_false_right (leb limit (length ms)) _ on in
            let (nbs, listed, searched) =
              >>=-eq-ok (neighbors csr (node r e.from) valid_at) _ (sym (if_false _ _ bound) ∙ h) in
            let scanned =
              scan-IsFirst (dfs csr p valid_at limit remaining (suc ei))
                (extensions csr p valid_at remaining (suc ei)) ei e (not (node r e.to == u64_max))
                (dfs-IsFirst remaining (suc ei) (omega (arith, total))) (omega (arith, total)) nbs s
                r ms found c refl short searched in
            (
              scanned.0,
              dfs-goes_on ei e remaining s ms on
                  ∙ ap
                      (λ i. neighbors csr i valid_at >>= λ nbs.
                        scan (dfs csr p valid_at limit remaining (suc ei)) p ei e
                          (not (node s e.to == u64_max)) nbs s ms)
                      node_same
                  ∙ ap
                      (λ l. l >>= λ nbs.
                        scan (dfs csr p valid_at limit remaining (suc ei)) p ei e
                          (not (node s e.to == u64_max)) nbs s ms)
                      listed
                  ∙ ap
                      (λ ns.
                        scan (dfs csr p valid_at limit remaining (suc ei)) p ei e
                          (not (get_or ns e.to u64_max == u64_max)) nbs s ms)
                      c.nodes
                  ∙ scanned.1,
              scanned.2,
            )
      ]
