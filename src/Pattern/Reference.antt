-- ===== src/Pattern/Reference.antt =====
-- A reference search: all matches in the order of the neighbours, with no limit and no state to restore.
use gtvdb.Base.{
  ℕ, zero, suc, ◌≤◌, ◌<◌, ◌≡◌, ◌≢◌, refl, sym, ◌∙◌, ◌⊎◌, inl, inr, Bool, true, false, not, ◌&&◌,
  none, some, List, [], ◌∷◌, ◌++◌, take, set, get_or, length, length-set, get_or-set_ne, ◌==◌,
  ==_iff, if◌then◌else◌, arith, Bool-cases,
}
use gtvdb.Base.Int.{ℤ}
use gtvdb.Base.Filter.{contains}
use gtvdb.Error.{Result, ok, ◌>>=◌}
use gtvdb.Csr.{Neighbor, TemporalCsr, neighbors}
use gtvdb.Pattern.{
  PatternEdge, Pattern, Match, DfsState, u64_max, node, to_match, event_orders_satisfied, type_fits,
  record_edge, bind, enter,
}

-- Whether the edge may be taken to the neighbour, where the variables are bound to `nodes`.
abbrev pub is_open : Pattern → PatternEdge → Bool → Neighbor → List ℕ → Bool
is_open p e to_bound nb nodes =
    type_fits e nb.edge_type
    && (if to_bound
        then nb.dst == get_or nodes e.to u64_max
        else not (contains nb.dst (take p.num_vars nodes)))

abbrev pub entered : ℕ → PatternEdge → Bool → Neighbor → DfsState → DfsState
entered ei e true nb s = record_edge ei nb s
entered ei e false nb s = record_edge ei nb (bind e.to nb.dst s)

pub enter_lem :
    (p : Pattern) (ei : ℕ) (e : PatternEdge) (to_bound : Bool) (nb : Neighbor) (s : DfsState)
    → enter p ei e to_bound nb s
      ≡ (if is_open p e to_bound nb s.nodes then some (entered ei e to_bound nb s) else none)
unfolding enter
enter_lem p ei e true nb s = elim (Bool-cases (type_fits e nb.edge_type)) [
  | inl k ↦ rw k refl
  | inr k ↦ rw k refl
]
enter_lem p ei e false nb s = elim (Bool-cases (type_fits e nb.edge_type)) [
  | inr k ↦ rw k refl
  | inl k ↦ elim (Bool-cases (contains nb.dst (take p.num_vars s.nodes))) [
    | inl c ↦ rw (k, c) refl
    | inr c ↦ rw (k, c) refl
  ]
]

-- The matches through each neighbour, one after the other.
abbrev pub each :
    (DfsState → Result (List Match))
    → Pattern
    → ℕ
    → PatternEdge
    → Bool
    → List Neighbor
    → DfsState
    → Result (List Match)
each below p ei e to_bound [] s = ok []
each below p ei e to_bound (nb ∷ nbs) s =
    let rest = each below p ei e to_bound nbs s in
    if is_open p e to_bound nb s.nodes
    then (below (entered ei e to_bound nb s) >>= λ first. rest >>= λ others. ok (first ++ others))
    else rest

-- All matches that extend the state by the edges `remaining`, from edge `ei` on.
abbrev pub extensions :
    TemporalCsr → Pattern → ℤ → List PatternEdge → ℕ → DfsState → Result (List Match)
extensions csr p valid_at [] ei s =
    ok (if event_orders_satisfied s p then to_match s p ∷ [] else [])
extensions csr p valid_at (e ∷ remaining) ei s =
    let below = extensions csr p valid_at remaining (suc ei) in
    if node s e.from == u64_max
    then ok []
    else (neighbors csr (node s e.from) valid_at >>= λ nbs.
        each below p ei e (not (node s e.to == u64_max)) nbs s)

-- Two columns of `n` entries that agree on the entries below `ei`, which the search has written.
pub record IsColumn {ℓ} {A : Type ℓ} (n ei : ℕ) (d : A) (xs ys : List A) : Type ℓ where
  pub size : length xs ≡ length ys
  pub known : (j : ℕ) → (j < ei) ⊎ (n ≤ j) → get_or xs j d ≡ get_or ys j d

module _ {ℓ} {A : Type ℓ} (n ei : ℕ) (d : A) where
  get_or-set_here :
      (xs ys : List A) (i : ℕ) (v : A)
      → length xs ≡ length ys
      → get_or (set xs i v) i d ≡ get_or (set ys i v) i d
  get_or-set_here [] [] i v h = refl
  get_or-set_here [] (y ∷ ys) i v h = absurd (omega (arith, h))
  get_or-set_here (x ∷ xs) [] i v h = absurd (omega (arith, h))
  get_or-set_here (x ∷ xs) (y ∷ ys) zero v h = refl
  get_or-set_here (x ∷ xs) (y ∷ ys) (suc i) v h = get_or-set_here xs ys i v (omega (arith, h))

  pub IsColumn-set :
      (xs ys : List A) (v : A)
      → IsColumn n ei d xs ys
      → IsColumn n (suc ei) d (set xs ei v) (set ys ei v)
  IsColumn-set xs ys v c = record {
    size = length-set xs ei v ∙ c.size ∙ sym (length-set ys ei v);
    known = λ j h. elim (Bool-cases (ei == j)) [
      | inl e ↦
          let same : ei ≡ j = (==_iff ei j).0 e in rw (← same) (get_or-set_here xs ys ei v c.size)
      | inr e ↦
          let other : ei ≢ j = λ q. ground (arith, e, q) in
          get_or-set_ne xs ei j v d other
          ∙ c.known j (ground (arith, h, e))
          ∙ sym (get_or-set_ne ys ei j v d other)
    ];
  }

  -- What was written at `ei` is forgotten.
  pub IsColumn-forget :
      (xs ys : List A) (v : A)
      → ei < n
      → IsColumn n (suc ei) d xs (set ys ei v)
      → IsColumn n ei d xs ys
  IsColumn-forget xs ys v lt c = record {
    size = c.size ∙ length-set ys ei v;
    known = λ j h.
        let other : ei ≢ j = λ q. ground (arith, h, lt, q) in
        c.known j (ground (arith, h)) ∙ get_or-set_ne ys ei j v d other;
  }
