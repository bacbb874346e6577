-- ===== src/Pattern/Shapes.antt =====
-- The patterns that the constructors make name only what they have.
use native.Mathlib.Nat.{mod-lt}
use gtvdb.Base.{
  ℕ, zero, suc, ◌+◌, ◌-◌, ◌%◌, ◌≤◌, ◌<◌, ◌≡◌, refl, sym, ap, ◌∙◌, subst, inl, inr, none, some,
  length, get_or, All, arith, leb, leb→le, Bool-cases, if_true, if_false,
}
use gtvdb.Pattern.{PatternEdge, Pattern, chain_edges, chain_orders, temporal_path, ring, diamond}
use gtvdb.Pattern.State.{edge_at}
use gtvdb.Pattern.Matches.{IsWellFormed}

length-chain_edges : (next : ℕ → ℕ) (i n : ℕ) → length (chain_edges next i n) ≡ n
unfolding chain_edges
length-chain_edges next i zero = refl
length-chain_edges next i (suc n) = ap suc (length-chain_edges next (suc i) n)

get_or-chain_edges :
    (next : ℕ → ℕ) (i n j : ℕ) (d : PatternEdge)
    → j < n
    → get_or (chain_edges next i n) j d
      ≡ record { from = i + j; to = next (i + j); edge_type = none }
unfolding chain_edges
get_or-chain_edges next i zero j d lt = elim lt [ ]
get_or-chain_edges next i (suc n) zero d lt =
    let e : i ≡ i + 0 = omega arith in λ k. record { from = e k; to = next (e k); edge_type = none }
get_or-chain_edges next i (suc n) (suc j) d lt =
    let e : suc i + j ≡ i + suc j = omega arith in
    get_or-chain_edges next (suc i) n j d (omega arith) ∙ λ k. record {
      from = e k;
      to = next (e k);
      edge_type = none;
    }

chain_orders-inside :
    (i n m : ℕ) → i + n < m → All (λ o. (o.before < m) × (o.after < m)) (chain_orders i n)
unfolding chain_orders
chain_orders-inside i zero m h = tt
chain_orders-inside i (suc n) m h =
    ((omega arith, omega arith), chain_orders-inside (suc i) n m (omega arith))

chain_orders-none :
    (i n m : ℕ) → n ≡ 0 → All (λ o. (o.before < m) × (o.after < m)) (chain_orders i n)
unfolding chain_orders
chain_orders-none i zero m h = tt
chain_orders-none i (suc n) m h = absurd (omega arith)

-- A chain of `len` edges whose variables stay below `vars`.
chain-IsWellFormed :
    (vars len : ℕ) (next : ℕ → ℕ)
    → 1 ≤ len
    → len ≤ vars
    → ((j : ℕ) → j < len → next j < vars)
    → IsWellFormed (record {
      num_vars = vars;
      edges = chain_edges next 0 len;
      event_orders = chain_orders 0 (len - 1);
    })
chain-IsWellFormed vars len next positive fits inside = record {
  edges_in = λ j lt.
      let below : j < len = omega (arith, lt, length-chain_edges next 0 len) in
      let shape = get_or-chain_edges next 0 len j _ below in
      (
        subst (λ (e : PatternEdge). e.from < vars) (sym shape) (omega (arith, below, fits)),
        subst (λ (e : PatternEdge). e.to < vars) (sym shape)
            (subst (λ k. next k < vars) (omega arith) (inside j below)),
      );
  orders_in =
      chain_orders-inside 0 (len - 1) (length (chain_edges next 0 len))
        (omega (arith, length-chain_edges next 0 len, positive));
}

-- The pattern of a temporal path names only variables and edges that it has.
pub temporal_path-IsWellFormed :
    (len : ℕ) (p : Pattern) → temporal_path len ≡ some p → IsWellFormed p
unfolding temporal_path
temporal_path-IsWellFormed len p h = elim (Bool-cases (leb 1 len)) [
  | inr e ↦ absurd (ground (arith, sym (if_false _ _ e) ∙ h))
  | inl e ↦
      subst IsWellFormed (cc (sym (if_true _ _ e) ∙ h))
        (chain-IsWellFormed (suc len) len suc (leb→le 1 len e) (omega arith) (λ j lt. omega arith))
]

-- So does that of a ring.
ring-IsWellFormed : (len : ℕ) (p : Pattern) → ring len ≡ some p → IsWellFormed p
unfolding ring
ring-IsWellFormed len p h = elim (Bool-cases (leb 2 len)) [
  | inr e ↦ absurd (ground (arith, sym (if_false _ _ e) ∙ h))
  | inl e ↦
      let two = leb→le 2 len e in
      subst IsWellFormed (cc (sym (if_true _ _ e) ∙ h)) (
        chain-IsWellFormed len len (λ i. suc i % len) (omega arith) (omega arith)
          (λ j lt. mod-lt (suc j) (omega arith)))
]

-- And the diamond.
pub diamond-IsWellFormed : IsWellFormed diamond
diamond-IsWellFormed = record {
  edges_in = λ j lt. diamond_edge j lt;
  orders_in = ((omega arith, omega arith), ((omega arith, omega arith), tt));
}
  where
    diamond_edge : (j : ℕ) → j < 4 → ((edge_at diamond j).from < 4) × ((edge_at diamond j).to < 4)
    diamond_edge zero lt = (omega arith, omega arith)
    diamond_edge (suc zero) lt = (omega arith, omega arith)
    diamond_edge (suc (suc zero)) lt = (omega arith, omega arith)
    diamond_edge (suc (suc (suc zero))) lt = (omega arith, omega arith)
    diamond_edge (suc (suc (suc (suc j)))) lt = absurd (omega arith)
