-- ===== src/Pattern/Search.antt =====
-- The search from any edge on keeps what the loops over neighbours keep.
use gtvdb.Base.{
  ℕ, suc, ◌+◌, ◌≤◌, ◌<◌, ◌≡◌, refl, sym, ap, ◌∙◌, subst, ◌⊎◌, inl, inr, Bool, true, false, not,
  ◌||◌, none, List, [], ◌∷◌, ◌++◌, length, get_or, All, All-append, arith, ◌==◌, leb, Bool-cases,
  if_true, if_false, length-append,
}
use gtvdb.Base.Int.{ℤ}
use gtvdb.Error.{ok, >>=-eq-ok}
use gtvdb.Csr.{Neighbor, TemporalCsr, neighbors}
use gtvdb.Pattern.{
  PatternEdge, Pattern, Match, DfsState, u64_max, node, to_match, event_orders_satisfied, scan, dfs,
}
use gtvdb.Pattern.State.{edge_at, IsBound, IsGood, Agree, Agree-refl}
use gtvdb.Pattern.Matches.{IsWellFormed, IsMatch, to_match-IsMatch}
use gtvdb.Pattern.Loop.{IsSound, stopped, scan_lem}

pub or_false_right : (a b : Bool) → (a || b) ≡ false → b ≡ false
or_false_right a b h = ground arith

room_for :
    {limit : ℕ} (ms : List Match) (m : Match)
    → leb limit (length ms) ≡ false
    → length (ms ++ m ∷ []) ≤ limit
room_for ms m h = ground (arith, length-append ms (m ∷ []))

-- The remaining edges are those of the pattern from `ei` on.
pub record Rest (p : Pattern) (ei : ℕ) (remaining : List PatternEdge) : Type 0 where
  pub total : ei + length remaining ≡ length p.edges
  pub suffix :
      (k : ℕ)
      → k < length remaining
      → get_or remaining k (record { from = 0; to = 0; edge_type = none }) ≡ edge_at p (ei + k)

Rest-tail :
    (p : Pattern) (ei : ℕ) (e : PatternEdge) (remaining : List PatternEdge)
    → Rest p ei (e ∷ remaining)
    → Rest p (suc ei) remaining
Rest-tail p ei e remaining r = record {
  total = omega (arith, r.total);
  suffix = λ k lt. r.suffix (suc k) (omega arith) ∙ ap (edge_at p) (omega arith);
}

Rest-head :
    (p : Pattern) (ei : ℕ) (e : PatternEdge) (remaining : List PatternEdge)
    → Rest p ei (e ∷ remaining)
    → (ei < length p.edges) × (e ≡ edge_at p ei)
Rest-head p ei e remaining r =
    (omega (arith, r.total), r.suffix 0 (omega arith) ∙ ap (edge_at p) (omega arith))

pub Rest-whole : (p : Pattern) → Rest p 0 p.edges
Rest-whole p = record { total = omega arith; suffix = λ k lt. ap (edge_at p) (omega arith) }

module _ (csr : TemporalCsr) (p : Pattern) (valid_at : ℤ) (start limit : ℕ) (wf : IsWellFormed p)
    (real : (start == u64_max) ≡ false) where
  -- At the last edge a match is added, if there is room and the event times are in order.
  dfs-end :
      (ei : ℕ) (s s' : DfsState) (ms ms' : List Match)
      → dfs csr p valid_at limit [] ei s ms ≡ ok (s', ms')
      → (s ≡ s')
        × ((ms' ≡ ms)
            ⊎ ((event_orders_satisfied s p ≡ true)
                × (leb limit (length ms) ≡ false)
                × (ms' ≡ ms ++ to_match s p ∷ [])))
  unfolding dfs
  dfs-end ei s s' ms ms' h = elim (Bool-cases (leb limit (length ms))) [
    | inl full ↦ let e = sym (if_true _ _ full) ∙ h in (cc e, inl (cc e))
    | inr room ↦ elim (Bool-cases (event_orders_satisfied s p)) [
      | inl sat ↦
          let e = sym (if_false _ _ room) ∙ h in
          (cc e, inr (sat, room, cc (e, if_true (ms ++ to_match s p ∷ []) ms sat)))
      | inr unsat ↦
          let e = sym (if_false _ _ room) ∙ h in
          (cc e, inl (cc (e, if_false (ms ++ to_match s p ∷ []) ms unsat)))
    ]
  ]

  -- At any other edge the search stops, or the neighbours of its source are walked.
  dfs-step :
      (ei : ℕ) (e : PatternEdge) (remaining : List PatternEdge) (s s' : DfsState)
      (ms ms' : List Match)
      → dfs csr p valid_at limit (e ∷ remaining) ei s ms ≡ ok (s', ms')
      → ((s ≡ s') × (ms ≡ ms'))
        ⊎ (IsBound s e.from
            × (nbs : List Neighbor) × (neighbors csr (node s e.from) valid_at ≡ ok nbs)
            × (scan
                  (dfs csr p valid_at limit remaining (suc ei))
                  p
                  ei
                  e
                  (not (node s e.to == u64_max))
                  nbs
                  s
                  ms
                ≡ ok (s', ms')))
  unfolding dfs
  dfs-step ei e remaining s s' ms ms' h =
      elim (Bool-cases (leb limit (length ms) || node s e.from == u64_max)) [
        | inl stop ↦ let q = sym (if_true _ _ stop) ∙ h in inl (cc q, cc q)
        | inr go_on ↦
            let (nbs, read, scanned) =
              >>=-eq-ok (neighbors csr (node s e.from) valid_at) _ (sym (if_false _ _ go_on) ∙ h) in
            inr (or_false_right (leb limit (length ms)) _ go_on, nbs, read, scanned)
      ]

  pub dfs_lem :
      (remaining : List PatternEdge) (ei : ℕ)
      → Rest p ei remaining
      → IsSound csr p valid_at start limit ei (dfs csr p valid_at limit remaining ei)
  unfolding IsSound
  dfs_lem [] ei r s s' ms ms' g good short h =
      let (same, added) = dfs-end ei s s' ms ms' h in
      elim added [
        | inl kept ↦
            stopped csr p valid_at start limit wf real ei s s' ms ms' good short (same, sym kept)
        | inr (sat, room, shape) ↦
            let whole : IsGood csr p valid_at start (length p.edges) s =
              subst (λ k. IsGood csr p valid_at start k s) (omega (arith, r.total)) g in
            let found_one = to_match-IsMatch csr p valid_at start s wf whole sat in
            record {
              good = subst (All (IsMatch csr p valid_at start)) (sym shape) (
                  All-append (IsMatch csr p valid_at start) ms (to_match s p ∷ []) good
                    (found_one, tt));
              short = subst (λ xs. length xs ≤ limit) (sym shape) (room_for ms (to_match s p) room);
              agree = subst (Agree ei s) same (Agree-refl ei s);
            }
      ]
  dfs_lem (e ∷ remaining) ei r s s' ms ms' g good short h =
      let (inside, here) = Rest-head p ei e remaining r in
      let h' =
        subst (λ x. dfs csr p valid_at limit (x ∷ remaining) ei s ms ≡ ok (s', ms')) here h in
      elim (dfs-step ei (edge_at p ei) remaining s s' ms ms' h') [
        | inl same ↦ stopped csr p valid_at start limit wf real ei s s' ms ms' good short same
        | inr (bound, nbs, read, scanned) ↦
            scan_lem csr p valid_at start limit wf real
              (dfs csr p valid_at limit remaining (suc ei)) ei _ nbs nbs s s' ms ms'
              (dfs_lem remaining (suc ei) (Rest-tail p ei e remaining r)) inside (λ nb m. m)
              (record { good = g; test = refl; bound = bound; read = read }) good short scanned
      ]
