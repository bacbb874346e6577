-- ===== src/Pattern/Soundness.antt =====
-- Every match that the search returns is one, and there are no more than asked for.
use gtvdb.Base.{
  ℕ, zero, suc, ◌+◌, ◌-◌, ◌≤◌, ◌<◌, ◌≡◌, sym, ◌∙◌, subst, inl, inr, false, ◌||◌, List, [], ◌++◌,
  length, replicate, All, All-append, All-imp, arith, ◌==◌, ==_iff, leb, Bool-cases, if_true,
  if_false, length-append, length-set, length-replicate, get_or-set_self,
}
use gtvdb.Base.Int.{ℤ}
use gtvdb.Error.{ok, >>=-eq-ok}
use gtvdb.Csr.{TemporalCsr}
use gtvdb.Pattern.{Pattern, Match, u64_max, new_state, bind, dfs, find_from, find_loop, find}
use gtvdb.Pattern.State.{IsGood}
use gtvdb.Pattern.Matches.{IsWellFormed, IsMatch}
use gtvdb.Pattern.Loop.{IsSound}
use gtvdb.Pattern.Search.{or_false_right, Rest-whole, dfs_lem}

some_vars : (n : ℕ) → (n == 0) ≡ false → 0 < n
some_vars n e = ground arith

not_unbound : (start n : ℕ) → start < n → n ≤ u64_max → (start == u64_max) ≡ false
not_unbound start n h k = ground (arith, ==_iff start u64_max)

module _ (csr : TemporalCsr) (p : Pattern) (valid_at : ℤ) (start limit : ℕ) (wf : IsWellFormed p)
    (real : (start == u64_max) ≡ false) where
  start-IsGood : 0 < p.num_vars → IsGood csr p valid_at start 0 (bind 0 start (new_state p))
  unfolding new_state
  start-IsGood some_var = record {
    sized = record {
      nodes_len =
          length-set (replicate p.num_vars u64_max) 0 start ∙ length-replicate p.num_vars u64_max;
      from_len = length-replicate (length p.edges) (ℤ.pos 0);
      to_len = length-replicate (length p.edges) (ℤ.pos 0);
      type_len = length-replicate (length p.edges) 0;
    };
    start_kept =
        get_or-set_self (replicate p.num_vars u64_max) 0 start u64_max
          (omega (arith, some_var, length-replicate p.num_vars u64_max));
    matched = λ j lt. elim lt [ ];
  }

  -- For a pattern that names only what it has and a start other than the unbound value, every match
  -- that `find_from` returns is one: anchored at the start, each pattern edge a neighbour of its source
  -- that is active at the time and of the wanted type, with the event times in order. There are at
  -- most `limit`.
  pub find_from_sound :
      (matches : List Match)
      → find_from csr p start valid_at limit ≡ ok matches
      → All (IsMatch csr p valid_at start) matches × (length matches ≤ limit)
  unfolding find_from IsSound
  find_from_sound matches h = elim (Bool-cases (limit == 0 || p.num_vars == 0)) [
    | inl trivial ↦
        let q : [] ≡ matches = cc (sym (if_true _ _ trivial) ∙ h) in
        subst (λ ms. All (IsMatch csr p valid_at start) ms × (length ms ≤ limit)) q
          (tt, omega arith)
    | inr go_on ↦
        let ((s, ms), searched, last) =
          >>=-eq-ok (dfs csr p valid_at limit p.edges 0 (bind 0 start (new_state p)) []) _
            (sym (if_false _ _ go_on) ∙ h) in
        let q : ms ≡ matches = cc last in
        let out =
          dfs_lem csr p valid_at start limit wf real p.edges 0 (Rest-whole p)
            (bind 0 start (new_state p)) s [] ms
            (start-IsGood (some_vars p.num_vars (or_false_right (limit == 0) _ go_on))) tt
            (omega arith) searched in
        subst (λ ms. All (IsMatch csr p valid_at start) ms × (length ms ≤ limit)) q
          (out.good, out.short)
  ]

-- A match from one of the nodes.
abbrev pub IsMatchFrom : TemporalCsr → Pattern → ℤ → Match → Type 0
IsMatchFrom csr p valid_at m =
    (start : ℕ) × (start < csr.node_count) × IsMatch csr p valid_at start m

All-from :
    (csr : TemporalCsr) (p : Pattern) (valid_at : ℤ) (start : ℕ) (ms : List Match)
    → start < csr.node_count
    → All (IsMatch csr p valid_at start) ms
    → All (IsMatchFrom csr p valid_at) ms
All-from csr p valid_at start ms lt = All-imp (λ m h. (start, lt, h)) ms

module _ (csr : TemporalCsr) (p : Pattern) (valid_at : ℤ) (limit : ℕ) (wf : IsWellFormed p)
    (real : csr.node_count ≤ u64_max) where
  find_loop_lem :
      (n start : ℕ) (out matches : List Match)
      → start + n ≡ csr.node_count
      → All (IsMatchFrom csr p valid_at) out
      → length out ≤ limit
      → find_loop csr p valid_at limit start n out ≡ ok matches
      → All (IsMatchFrom csr p valid_at) matches × (length matches ≤ limit)
  unfolding find_loop
  find_loop_lem zero start out matches total good short h =
      let q : out ≡ matches = cc h in
      subst (λ ms. All (IsMatchFrom csr p valid_at) ms × (length ms ≤ limit)) q (good, short)
  find_loop_lem (suc n) start out matches total good short h =
      elim (Bool-cases (leb limit (length out))) [
        | inl full ↦
            let q : out ≡ matches = cc (sym (if_true _ _ full) ∙ h) in
            subst (λ ms. All (IsMatchFrom csr p valid_at) ms × (length ms ≤ limit)) q (good, short)
        | inr room ↦
            let (got, searched, rest) =
              >>=-eq-ok (find_from csr p start valid_at (limit - length out)) _
                (sym (if_false _ _ room) ∙ h) in
            let lt : start < csr.node_count = omega (arith, total) in
            let (sound, few) =
              find_from_sound csr p valid_at start (limit - length out) wf
                (not_unbound start csr.node_count lt real) got searched in
            find_loop_lem n (suc start) (out ++ got) matches (omega (arith, total))
              (All-append (IsMatchFrom csr p valid_at) out got good
                (All-from csr p valid_at start got lt sound))
              (omega (arith, length-append out got, few, short)) rest
      ]

  -- For a pattern that names only what it has and an index of fewer than 2^64 nodes, every match that
  -- `find` returns is a match from some node of the index, and there are at most `limit`.
  pub find_sound :
      (matches : List Match)
      → find csr p valid_at limit ≡ ok matches
      → All (IsMatchFrom csr p valid_at) matches × (length matches ≤ limit)
  unfolding find
  find_sound matches h = find_loop_lem csr.node_count 0 [] matches (omega arith) tt (omega arith) h
