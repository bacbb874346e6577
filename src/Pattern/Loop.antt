-- ===== src/Pattern/Loop.antt =====
-- The loop over the neighbours of one edge keeps what the search below it keeps.
use gtvdb.Base.{
  ℕ, suc, ◌≤◌, ◌<◌, ◌≡◌, refl, sym, ap, ◌∙◌, subst, inl, inr, Bool, false, not, none, some,
  Option-cases, List, [], ◌∷◌, length, get_or, Memᴰ, All, ◌==◌,
}
use gtvdb.Base.Int.{ℤ}
use gtvdb.Error.{ok, ◌>>=◌, >>=-eq-ok}
use gtvdb.Csr.{Neighbor, TemporalCsr, neighbors}
use gtvdb.Pattern.{PatternEdge, Pattern, Match, DfsState, Search, u64_max, node, enter, leave, scan}
use gtvdb.Pattern.State.{edge_at, IsBound, IsGood, Agree, Agree-refl, Agree-trans, IsGood-Agree}
use gtvdb.Pattern.Enter.{enter-Entered}
use gtvdb.Pattern.Step.{enter-IsGood, leave-Agree}
use gtvdb.Pattern.Matches.{IsWellFormed, IsMatch}

-- What a search leaves: matches, within the limit, and a state that agrees on what was there.
pub record Outcome (csr : TemporalCsr) (p : Pattern) (valid_at : ℤ) (start limit ei : ℕ)
    (s s' : DfsState) (ms : List Match) : Type 0 where
  pub good : All (IsMatch csr p valid_at start) ms
  pub short : length ms ≤ limit
  pub agree : Agree ei s s'

-- The search below edge `ei` ends in such an outcome.
unfoldable pub IsSound : TemporalCsr → Pattern → ℤ → ℕ → ℕ → ℕ → Search → Type 0
IsSound csr p valid_at start limit ei go =
    (s s' : DfsState) (ms ms' : List Match)
    → IsGood csr p valid_at start ei s
    → All (IsMatch csr p valid_at start) ms
    → length ms ≤ limit
    → go s ms ≡ ok (s', ms')
    → Outcome csr p valid_at start limit ei s s' ms'

-- A state from which the neighbours of edge `ei` are walked.
pub record Ready (csr : TemporalCsr) (p : Pattern) (valid_at : ℤ) (start ei : ℕ) (to_bound : Bool)
    (nbs : List Neighbor) (s : DfsState) : Type 0 where
  pub good : IsGood csr p valid_at start ei s
  pub test : to_bound ≡ not (node s (edge_at p ei).to == u64_max)
  pub bound : IsBound s (edge_at p ei).from
  pub read : neighbors csr (node s (edge_at p ei).from) valid_at ≡ ok nbs

module _ (csr : TemporalCsr) (p : Pattern) (valid_at : ℤ) (start limit : ℕ) (wf : IsWellFormed p)
    (real : (start == u64_max) ≡ false) where
  Ready-Agree :
      (ei : ℕ) (to_bound : Bool) (nbs : List Neighbor) (s s' : DfsState)
      → Agree ei s s'
      → Ready csr p valid_at start ei to_bound nbs s
      → Ready csr p valid_at start ei to_bound nbs s'
  Ready-Agree ei to_bound nbs s s' a r =
      let here : (v : ℕ) → node s v ≡ node s' v =
        λ v. ap (λ ns. get_or ns v u64_max) (sym a.nodes_same) in
      record {
        good = IsGood-Agree csr p valid_at start ei s s' a r.good;
        test = subst (λ n. to_bound ≡ not (n == u64_max)) (here (edge_at p ei).to) r.test;
        bound = subst (λ n. (n == u64_max) ≡ false) (here (edge_at p ei).from) r.bound;
        read = subst (λ n. neighbors csr n valid_at ≡ ok nbs) (here (edge_at p ei).from) r.read;
      }

  scan-skip :
      (go : Search) (ei : ℕ) (e : PatternEdge) (to_bound : Bool) (nb : Neighbor)
      (nbs : List Neighbor) (s : DfsState) (ms : List Match)
      → enter p ei e to_bound nb s ≡ none
      → scan go p ei e to_bound (nb ∷ nbs) s ms ≡ scan go p ei e to_bound nbs s ms
  unfolding scan
  scan-skip go ei e to_bound nb nbs s ms h = rw (h, scan) refl

  scan-enter :
      (go : Search) (ei : ℕ) (e : PatternEdge) (to_bound : Bool) (nb : Neighbor)
      (nbs : List Neighbor) (s s1 : DfsState) (ms : List Match)
      → enter p ei e to_bound nb s ≡ some s1
      → scan go p ei e to_bound (nb ∷ nbs) s ms
        ≡ (go s1 ms >>= λ r. scan go p ei e to_bound nbs (leave e to_bound r.0) r.1)
  unfolding scan
  scan-enter go ei e to_bound nb nbs s s1 ms h = rw (h, scan) refl

  scan-end :
      (go : Search) (ei : ℕ) (e : PatternEdge) (to_bound : Bool) (s s' : DfsState)
      (ms ms' : List Match)
      → scan go p ei e to_bound [] s ms ≡ ok (s', ms')
      → (s ≡ s') × (ms ≡ ms')
  unfolding scan
  scan-end go ei e to_bound s s' ms ms' h = (cc, cc)

  pub stopped :
      (ei : ℕ) (s s' : DfsState) (ms ms' : List Match)
      → All (IsMatch csr p valid_at start) ms
      → length ms ≤ limit
      → (s ≡ s') × (ms ≡ ms')
      → Outcome csr p valid_at start limit ei s s' ms'
  stopped ei s s' ms ms' good short (same, rest) =
      subst (Outcome csr p valid_at start limit ei s s') rest
        (record { good = good; short = short; agree = subst (Agree ei s) same (Agree-refl ei s) })

  pub scan_lem :
      (go : Search) (ei : ℕ) (to_bound : Bool) (all nbs : List Neighbor) (s s' : DfsState)
      (ms ms' : List Match)
      → IsSound csr p valid_at start limit (suc ei) go
      → ei < length p.edges
      → ((nb : Neighbor) → Memᴰ nb nbs → Memᴰ nb all)
      → Ready csr p valid_at start ei to_bound all s
      → All (IsMatch csr p valid_at start) ms
      → length ms ≤ limit
      → scan go p ei (edge_at p ei) to_bound nbs s ms ≡ ok (s', ms')
      → Outcome csr p valid_at start limit ei s s' ms'
  unfolding IsSound
  scan_lem go ei to_bound all [] s s' ms ms' sound inside sub r good short h =
      stopped ei s s' ms ms' good short (scan-end go ei (edge_at p ei) to_bound s s' ms ms' h)
  scan_lem go ei to_bound all (nb ∷ nbs) s s' ms ms' sound inside sub r good short h =
      let e = edge_at p ei in
      elim (Option-cases (enter p ei e to_bound nb s)) [
        | inl skip ↦
            scan_lem go ei to_bound all nbs s s' ms ms' sound inside (λ x m. sub x (Memᴰ.tail m)) r
              good short (sym (scan-skip go ei e to_bound nb nbs s ms skip) ∙ h)
        | inr (s1, entered) ↦
            let ((t, ms1), went, rest) =
              >>=-eq-ok (go s1 ms) _
                (sym (scan-enter go ei e to_bound nb nbs s s1 ms entered) ∙ h) in
            let d =
              enter-Entered p ei e to_bound nb s s1 entered r.test r.good.sized.nodes_len
                (wf.edges_in ei inside).1 in
            let deep =
              sound s1 t ms ms1
                (enter-IsGood csr p valid_at start ei to_bound nb all s s1 d r.good inside real
                  r.bound r.read (sub nb (Memᴰ.head refl)))
                good short went in
            let back = leave-Agree p ei e to_bound nb s s1 t d deep.agree in
            let tail =
              scan_lem go ei to_bound all nbs (leave e to_bound t) s' ms1 ms' sound inside
                (λ x m. sub x (Memᴰ.tail m))
                (Ready-Agree ei to_bound all s (leave e to_bound t) back r) deep.good deep.short
                rest in
            record {
              good = tail.good;
              short = tail.short;
              agree = Agree-trans ei s (leave e to_bound t) s' back tail.agree;
            }
      ]
