-- ===== src/Pattern.antt =====
-- gtv-pattern/src/lib.rs: temporal patterns and their backtracking search. The search goes down the
-- pattern's edges, so it needs no fuel; its mutable state is passed on. A pattern that names a
-- variable or an edge out of range makes the code panic; here such a read gives the default.
pub mod State
pub mod Enter
pub mod Step
pub mod Matches
pub mod Loop
pub mod Search
pub mod Soundness
pub mod Shapes
pub mod Reference
pub mod Same
pub mod Complete
pub mod Enumeration
mod Tests
use gtvdb.Base.{
  ℕ, zero, suc, ◌+◌, ◌-◌, ◌*◌, ◌^◌, ◌%◌, Bool, true, false, not, ◌&&◌, ◌||◌, Option, none, some,
  List, [], ◌∷◌, ◌++◌, map, length, get_or, set, take, replicate, ltb, leb, ◌==◌, if◌then◌else◌,
}
use gtvdb.Base.Int.{ℤ, ltb_ℤ}
use gtvdb.Base.Filter.{contains}
use gtvdb.Error.{Result, ok, err, ◌>>=◌}
use gtvdb.Csr.{Neighbor, TemporalCsr, neighbors}

pub record PatternEdge : Type 0 where
  pub from : ℕ
  pub to : ℕ
  pub edge_type : Option ℕ

pub record EventOrder : Type 0 where
  pub before : ℕ
  pub after : ℕ

pub record Pattern : Type 0 where
  pub num_vars : ℕ
  pub edges : List PatternEdge
  pub event_orders : List EventOrder

-- `(i..i + n).map(|i| PatternEdge { from: i, to: next(i), .. })`
unfoldable pub chain_edges : (ℕ → ℕ) → ℕ → ℕ → List PatternEdge
chain_edges next i zero = []
chain_edges next i (suc n) =
    record { from = i; to = next i; edge_type = none } ∷ chain_edges next (suc i) n

-- `(i..i + n).map(|i| EventOrder { before: i, after: i + 1 })`
unfoldable pub chain_orders : ℕ → ℕ → List EventOrder
chain_orders i zero = []
chain_orders i (suc n) = record { before = i; after = suc i } ∷ chain_orders (suc i) n

-- The two constructors panic, here `none`, on a chain that is too short.
unfoldable pub temporal_path : ℕ → Option Pattern
unfolding chain_edges chain_orders
temporal_path len =
    if leb 1 len
    then some (record {
      num_vars = suc len;
      edges = chain_edges suc 0 len;
      event_orders = chain_orders 0 (len - 1);
    })
    else none

unfoldable pub ring : ℕ → Option Pattern
unfolding chain_edges chain_orders
ring len =
    if leb 2 len
    then some (record {
      num_vars = len;
      edges = chain_edges (λ i. suc i % len) 0 len;
      event_orders = chain_orders 0 (len - 1);
    })
    else none

abbrev pub diamond : Pattern
diamond = record {
  num_vars = 4;
  edges =
      record { from = 0; to = 1; edge_type = none }
      ∷ record { from = 0; to = 2; edge_type = none }
      ∷ record { from = 1; to = 3; edge_type = none }
      ∷ record { from = 2; to = 3; edge_type = none }
      ∷ [];
  event_orders = record { before = 0; after = 2 } ∷ record { before = 1; after = 3 } ∷ [];
}

pub record MatchedEdge : Type 0 where
  pub src : ℕ
  pub dst : ℕ
  pub edge_type : ℕ
  pub valid_from : ℤ
  pub valid_to : ℤ

pub record Match : Type 0 where
  pub nodes : List ℕ
  pub edges : List MatchedEdge

pub record DfsState : Type 0 where
  pub nodes : List ℕ
  pub valid_from : List ℤ
  pub valid_to : List ℤ
  pub edge_type : List ℕ

-- A variable that is not bound.
abbrev pub u64_max : ℕ
u64_max = 2 ^ 64 - 1

unfoldable pub new_state : Pattern → DfsState
new_state p = record {
  nodes = replicate p.num_vars u64_max;
  valid_from = replicate (length p.edges) (ℤ.pos 0);
  valid_to = replicate (length p.edges) (ℤ.pos 0);
  edge_type = replicate (length p.edges) 0;
}

abbrev pub node : DfsState → ℕ → ℕ
node s v = get_or s.nodes v u64_max

abbrev pub matched_edge : DfsState → ℕ → PatternEdge → MatchedEdge
matched_edge s i e = record {
  src = node s e.from;
  dst = node s e.to;
  edge_type = get_or s.edge_type i 0;
  valid_from = get_or s.valid_from i (ℤ.pos 0);
  valid_to = get_or s.valid_to i (ℤ.pos 0);
}

-- `edges.iter().enumerate().map(..)`, from index `i` on.
unfoldable pub matched_edges : DfsState → ℕ → List PatternEdge → List MatchedEdge
matched_edges s i [] = []
matched_edges s i (e ∷ edges) = matched_edge s i e ∷ matched_edges s (suc i) edges

unfoldable pub to_match : DfsState → Pattern → Match
unfolding matched_edges
to_match s p = record { nodes = s.nodes; edges = matched_edges s 0 p.edges }

abbrev pub in_order : DfsState → EventOrder → Bool
in_order s o =
    ltb_ℤ (get_or s.valid_from o.before (ℤ.pos 0)) (get_or s.valid_from o.after (ℤ.pos 0))

unfoldable pub orders_hold : DfsState → List EventOrder → Bool
orders_hold s [] = true
orders_hold s (o ∷ orders) = in_order s o && orders_hold s orders

unfoldable pub event_orders_satisfied : DfsState → Pattern → Bool
unfolding orders_hold
event_orders_satisfied s p = orders_hold s p.event_orders

-- `if let Some(t) = e.edge_type { if nb.edge_type != t { continue; } }`
abbrev pub type_fits : PatternEdge → ℕ → Bool
type_fits e type = elim e.edge_type [ none ↦ true | some t ↦ type == t ]

-- The neighbour written to the columns of edge `ei`.
abbrev pub record_edge : ℕ → Neighbor → DfsState → DfsState
record_edge ei nb s = record s {
  valid_from = set s.valid_from ei nb.valid_from;
  valid_to = set s.valid_to ei nb.valid_to;
  edge_type = set s.edge_type ei nb.edge_type;
}

abbrev pub bind : ℕ → ℕ → DfsState → DfsState
bind v n s = record s { nodes = set s.nodes v n }

-- The state and the matches so far, or the error that ends the search.
abbrev pub Search : Type 0
Search = DfsState → List Match → Result (DfsState × List Match)

-- The state to go down with for a neighbour, none where the loop says `continue`. A target that is
-- bound must be the neighbour; one that is not is bound to a node that no variable has.
unfoldable pub enter : Pattern → ℕ → PatternEdge → Bool → Neighbor → DfsState → Option DfsState
enter p ei e to_bound nb s =
    if not (type_fits e nb.edge_type)
    then none
    else (if to_bound
        then (if nb.dst == node s e.to then some (record_edge ei nb s) else none)
        else (if contains nb.dst (take p.num_vars s.nodes)
            then none
            else some (record_edge ei nb (bind e.to nb.dst s))))

-- `state.nodes[e.to] = u64::MAX;` after the search below, where the target was bound here.
abbrev pub leave : PatternEdge → Bool → DfsState → DfsState
leave e to_bound s = if to_bound then s else bind e.to u64_max s

-- `for nb in csr.neighbors(from_node, valid_at)? { .. }`, where `go` is the search below.
unfoldable pub scan : Search → Pattern → ℕ → PatternEdge → Bool → List Neighbor → Search
unfolding enter
scan go p ei e to_bound [] s matches = ok (s, matches)
scan go p ei e to_bound (nb ∷ nbs) s matches = elim (enter p ei e to_bound nb s) [
  | none ↦ scan go p ei e to_bound nbs s matches
  | some deeper ↦ go deeper matches >>= λ r. scan go p ei e to_bound nbs (leave e to_bound r.0) r.1
]

-- The search from edge `ei` on, `remaining` being the pattern's edges from there.
unfoldable pub dfs : TemporalCsr → Pattern → ℤ → ℕ → List PatternEdge → ℕ → Search
unfolding scan event_orders_satisfied to_match
dfs csr p valid_at limit [] ei s matches =
    if leb limit (length matches)
    then ok (s, matches)
    else ok (s, if event_orders_satisfied s p then matches ++ to_match s p ∷ [] else matches)
dfs csr p valid_at limit (e ∷ remaining) ei s matches =
    let go = dfs csr p valid_at limit remaining (suc ei) in
    if leb limit (length matches) || node s e.from == u64_max
    then ok (s, matches)
    else (neighbors csr (node s e.from) valid_at >>= λ nbs.
        scan go p ei e (not (node s e.to == u64_max)) nbs s matches)

unfoldable pub find_from : TemporalCsr → Pattern → ℕ → ℤ → ℕ → Result (List Match)
unfolding dfs new_state
find_from csr p start valid_at limit =
    if limit == 0 || p.num_vars == 0
    then ok []
    else (dfs csr p valid_at limit p.edges 0 (bind 0 start (new_state p)) [] >>= λ r. ok r.1)

-- `for start in 0..csr.node_count() { .. }`, from `start` on with `n` nodes left.
unfoldable pub find_loop : TemporalCsr → Pattern → ℤ → ℕ → ℕ → ℕ → List Match → Result (List Match)
unfolding find_from
find_loop csr p valid_at limit start zero out = ok out
find_loop csr p valid_at limit start (suc n) out =
    if leb limit (length out)
    then ok out
    else (find_from csr p start valid_at (limit - length out) >>= λ got.
        find_loop csr p valid_at limit (suc start) n (out ++ got))

unfoldable pub find : TemporalCsr → Pattern → ℤ → ℕ → Result (List Match)
unfolding find_loop
find csr p valid_at limit = find_loop csr p valid_at limit 0 csr.node_count []
