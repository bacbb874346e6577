-- ===== src/Pattern/Matches.antt =====
-- What a match of a pattern is, and that a state with all edges matched gives one.
use gtvdb.Base.{
  ℕ, zero, suc, ◌+◌, ◌<◌, ◌≡◌, sym, ap, ◌∙◌, subst, Bool, true, ◌&&◌, none, List, [], ◌∷◌, length,
  get_or, All, arith,
}
use gtvdb.Base.Int.{ℤ, ltb_ℤ}
use gtvdb.Csr.{Neighbor, TemporalCsr}
use gtvdb.Pattern.{
  PatternEdge, EventOrder, Pattern, MatchedEdge, Match, DfsState, u64_max, matched_edge,
  matched_edges, to_match, in_order, orders_hold, event_orders_satisfied,
}
use gtvdb.Pattern.State.{edge_at, Fits, IsGood}

-- The pattern names only variables and edges that it has.
pub record IsWellFormed (p : Pattern) : Type 0 where
  pub edges_in :
      (j : ℕ)
      → j < length p.edges
      → ((edge_at p j).from < p.num_vars) × ((edge_at p j).to < p.num_vars)
  pub orders_in : All (λ o. (o.before < length p.edges) × (o.after < length p.edges)) p.event_orders

abbrev pub edge_of : Match → ℕ → MatchedEdge
edge_of m j =
    get_or m.edges j
      (record { src = 0; dst = 0; edge_type = 0; valid_from = ℤ.pos 0; valid_to = ℤ.pos 0 })

abbrev pub as_neighbor : MatchedEdge → Neighbor
as_neighbor e = record {
  dst = e.dst;
  edge_type = e.edge_type;
  valid_from = e.valid_from;
  valid_to = e.valid_to;
}

-- What a match is: its first node is the start, every matched edge joins the nodes of its variables
-- and is a neighbour of its source at the time, of the wanted type, and the event times are in order.
pub record IsMatch (csr : TemporalCsr) (p : Pattern) (valid_at : ℤ) (start : ℕ) (m : Match)
    : Type 0 where
  pub size : length m.nodes ≡ p.num_vars
  pub anchored : get_or m.nodes 0 u64_max ≡ start
  pub joins :
      (j : ℕ)
      → j < length p.edges
      → ((edge_of m j).src ≡ get_or m.nodes (edge_at p j).from u64_max)
        × ((edge_of m j).dst ≡ get_or m.nodes (edge_at p j).to u64_max)
  pub lives :
      (j : ℕ)
      → j < length p.edges
      → Fits csr valid_at (edge_at p j) (edge_of m j).src (as_neighbor (edge_of m j))
  pub ordered :
      All
        (λ o. ltb_ℤ (edge_of m o.before).valid_from (edge_of m o.after).valid_from ≡ true)
        p.event_orders

get_or-matched_edges :
    (s : DfsState) (i : ℕ) (edges : List PatternEdge) (j : ℕ) (d : MatchedEdge) (e : PatternEdge)
    → j < length edges
    → get_or (matched_edges s i edges) j d ≡ matched_edge s (i + j) (get_or edges j e)
unfolding matched_edges
get_or-matched_edges s i [] j d e lt = elim lt [ ]
get_or-matched_edges s i (x ∷ edges) zero d e lt = ap (λ k. matched_edge s k x) (omega arith)
get_or-matched_edges s i (x ∷ edges) (suc j) d e lt =
    get_or-matched_edges s (suc i) edges j d e (omega arith)
    ∙ ap (λ k. matched_edge s k (get_or edges j e)) (omega arith)

and_parts : (a b : Bool) → (a && b) ≡ true → (a ≡ true) × (b ≡ true)
and_parts a b h = ground arith

module _ (csr : TemporalCsr) (p : Pattern) (valid_at : ℤ) (start : ℕ) where
  edge_of-to_match :
      (s : DfsState) (j : ℕ)
      → j < length p.edges
      → edge_of (to_match s p) j ≡ matched_edge s j (edge_at p j)
  unfolding to_match
  edge_of-to_match s j lt =
      get_or-matched_edges s 0 p.edges j _ (record { from = 0; to = 0; edge_type = none }) lt
      ∙ ap (λ k. matched_edge s k (edge_at p j)) (omega arith)

  ordered_lem :
      (s : DfsState) (orders : List EventOrder)
      → All (λ o. (o.before < length p.edges) × (o.after < length p.edges)) orders
      → orders_hold s orders ≡ true
      → All
          (λ o.
            ltb_ℤ
              (edge_of (to_match s p) o.before).valid_from
              (edge_of (to_match s p) o.after).valid_from
            ≡ true)
          orders
  unfolding orders_hold
  ordered_lem s [] inside h = tt
  ordered_lem s (o ∷ orders) inside h =
      let (here, rest) = and_parts (in_order s o) (orders_hold s orders) h in
      let (before, after) = inside.0 in
      (
        ap (λ x. ltb_ℤ x.valid_from (edge_of (to_match s p) o.after).valid_from)
              (edge_of-to_match s o.before before)
            ∙ ap (λ x. ltb_ℤ (matched_edge s o.before (edge_at p o.before)).valid_from x.valid_from)
                (edge_of-to_match s o.after after)
            ∙ here,
        ordered_lem s orders inside.1 rest,
      )

  pub to_match-IsMatch :
      (s : DfsState)
      → IsWellFormed p
      → IsGood csr p valid_at start (length p.edges) s
      → event_orders_satisfied s p ≡ true
      → IsMatch csr p valid_at start (to_match s p)
  unfolding event_orders_satisfied to_match
  to_match-IsMatch s wf g h = record {
    size = g.sized.nodes_len;
    anchored = g.start_kept;
    joins = λ j lt.
        (ap (λ x. x.src) (edge_of-to_match s j lt), ap (λ x. x.dst) (edge_of-to_match s j lt));
    lives = λ j lt.
        subst (λ x. Fits csr valid_at (edge_at p j) x.src (as_neighbor x))
          (sym (edge_of-to_match s j lt)) (g.matched j lt);
    ordered = ordered_lem s p.event_orders wf.orders_in h;
  }
