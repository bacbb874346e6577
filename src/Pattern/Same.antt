-- ===== src/Pattern/Same.antt =====
-- When a state of the search and one of the reference search agree, and what keeps them so.
use gtvdb.Base.{
  ℕ, suc, ◌≤◌, ◌<◌, ◌≡◌, refl, ap, ◌∙◌, ◌⊎◌, inl, inr, Bool, true, false, not, List, [], ◌∷◌, set,
  ltb, ◌==◌, ==_iff, arith, Bool-cases,
}
use gtvdb.Base.Int.{ℤ}
use gtvdb.Csr.{Neighbor}
use gtvdb.Pattern.{
  PatternEdge, EventOrder, DfsState, u64_max, node, matched_edges, orders_hold, leave,
}
use gtvdb.Pattern.State.{set-restore}
use gtvdb.Pattern.Reference.{entered, IsColumn, IsColumn-set, IsColumn-forget}

-- A state of the search and one of the reference search agree: on the nodes, and on what has been
-- written of the columns.
pub record IsSame (n ei : ℕ) (s r : DfsState) : Type 0 where
  pub nodes : s.nodes ≡ r.nodes
  pub from : IsColumn n ei (ℤ.pos 0) s.valid_from r.valid_from
  pub to : IsColumn n ei (ℤ.pos 0) s.valid_to r.valid_to
  pub type : IsColumn n ei 0 s.edge_type r.edge_type

pub IsSame-entered :
    (n ei : ℕ) (e : PatternEdge) (to_bound : Bool) (nb : Neighbor) (s r : DfsState)
    → IsSame n ei s r
    → IsSame n (suc ei) (entered ei e to_bound nb s) (entered ei e to_bound nb r)
IsSame-entered n ei e true nb s r c = record {
  nodes = c.nodes;
  from = IsColumn-set n ei (ℤ.pos 0) s.valid_from r.valid_from nb.valid_from c.from;
  to = IsColumn-set n ei (ℤ.pos 0) s.valid_to r.valid_to nb.valid_to c.to;
  type = IsColumn-set n ei 0 s.edge_type r.edge_type nb.edge_type c.type;
}
IsSame-entered n ei e false nb s r c = record {
  nodes = ap (λ ns. set ns e.to nb.dst) c.nodes;
  from = IsColumn-set n ei (ℤ.pos 0) s.valid_from r.valid_from nb.valid_from c.from;
  to = IsColumn-set n ei (ℤ.pos 0) s.valid_to r.valid_to nb.valid_to c.to;
  type = IsColumn-set n ei 0 s.edge_type r.edge_type nb.edge_type c.type;
}

-- Behind the search below, the state agrees with the one above again.
pub IsSame-leave :
    (n ei : ℕ) (e : PatternEdge) (to_bound : Bool) (nb : Neighbor) (s r : DfsState)
    → ei < n
    → to_bound ≡ not (node r e.to == u64_max)
    → IsSame n (suc ei) s (entered ei e to_bound nb r)
    → IsSame n ei (leave e to_bound s) r
IsSame-leave n ei e true nb s r lt b c = record {
  nodes = c.nodes;
  from = IsColumn-forget n ei (ℤ.pos 0) s.valid_from r.valid_from nb.valid_from lt c.from;
  to = IsColumn-forget n ei (ℤ.pos 0) s.valid_to r.valid_to nb.valid_to lt c.to;
  type = IsColumn-forget n ei 0 s.edge_type r.edge_type nb.edge_type lt c.type;
}
IsSame-leave n ei e false nb s r lt b c =
    let free : node r e.to ≡ u64_max = (==_iff (node r e.to) u64_max).0 (ground (arith, b)) in
    record {
      nodes = ap (λ ns. set ns e.to u64_max) c.nodes ∙ set-restore r.nodes e.to nb.dst u64_max free;
      from = IsColumn-forget n ei (ℤ.pos 0) s.valid_from r.valid_from nb.valid_from lt c.from;
      to = IsColumn-forget n ei (ℤ.pos 0) s.valid_to r.valid_to nb.valid_to lt c.to;
      type = IsColumn-forget n ei 0 s.edge_type r.edge_type nb.edge_type lt c.type;
    }

module _ (n : ℕ) (s r : DfsState) (c : IsSame n n s r) where
  all_known : (j : ℕ) → (j < n) ⊎ (n ≤ j)
  all_known j = elim (Bool-cases (ltb j n)) [
    | inl e ↦ inl (ground (arith, e))
    | inr e ↦ inr (ground (arith, e))
  ]

  pub matched_edges-same :
      (i : ℕ) (edges : List PatternEdge) → matched_edges s i edges ≡ matched_edges r i edges
  unfolding matched_edges
  matched_edges-same i [] = refl
  matched_edges-same i (e ∷ edges) =
      rw
        (
          matched_edges-same (suc i) edges,
          c.nodes,
          c.from.known i (all_known i),
          c.to.known i (all_known i),
          c.type.known i (all_known i),
        )
        refl

  pub orders_hold-same : (orders : List EventOrder) → orders_hold s orders ≡ orders_hold r orders
  unfolding orders_hold
  orders_hold-same [] = refl
  orders_hold-same (o ∷ orders) =
      rw
        (
          orders_hold-same orders,
          c.from.known o.before (all_known o.before),
          c.from.known o.after (all_known o.after),
        )
        refl
