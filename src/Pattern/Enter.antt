-- ===== src/Pattern/Enter.antt =====
-- One step of the search down to the next edge and back.
use gtvdb.Base.{
  ℕ, ◌<◌, ◌≡◌, refl, sym, ap, ◌∙◌, subst, ◌⊎◌, inl, inr, Bool, true, false, not, Option, none, some,
  length, set, take, arith, ◌==◌, ==_iff, if◌then◌else◌, Bool-cases, length-set, get_or-set_self,
  get_or-set_ne,
}
use gtvdb.Base.Filter.{contains}
use gtvdb.Csr.{Neighbor}
use gtvdb.Pattern.{
  PatternEdge, Pattern, DfsState, u64_max, node, type_fits, record_edge, bind, enter, leave,
}
use gtvdb.Pattern.State.{set-restore, contains-get_or, take-all, IsBound}

not-true : (b : Bool) → true ≡ not b → b ≡ false
not-true true h = cc
not-true false h = refl

not-false : (b : Bool) → false ≡ not b → b ≡ true
not-false true h = refl
not-false false h = cc

module _ {A : Type 0} where
  gate-some :
      (a : Bool) (x : Option A) (y : A)
      → (if not a then none else x) ≡ some y
      → (a ≡ true) × (x ≡ some y)
  gate-some true x y h = (refl, h)
  gate-some false x y h = cc

  kept_some : (a : Bool) (x y : A) → (if a then some x else none) ≡ some y → (a ≡ true) × (y ≡ x)
  kept_some true x y h = (refl, cc)
  kept_some false x y h = cc

  passed_some : (a : Bool) (x y : A) → (if a then none else some x) ≡ some y → (a ≡ false) × (y ≡ x)
  passed_some true x y h = cc
  passed_some false x y h = (refl, cc)

-- The state that `enter` gives, and the test that it has passed.
enter-some :
    (p : Pattern) (ei : ℕ) (e : PatternEdge) (to_bound : Bool) (nb : Neighbor) (s s' : DfsState)
    → enter p ei e to_bound nb s ≡ some s'
    → (type_fits e nb.edge_type ≡ true)
      × (((to_bound ≡ true) × ((nb.dst == node s e.to) ≡ true) × (s' ≡ record_edge ei nb s))
          ⊎ ((to_bound ≡ false)
              × (contains nb.dst (take p.num_vars s.nodes) ≡ false)
              × (s' ≡ record_edge ei nb (bind e.to nb.dst s))))
unfolding enter
enter-some p ei e true nb s s' h =
    let (fits, rest) = gate-some (type_fits e nb.edge_type) _ s' h in
    let (same, shape) = kept_some (nb.dst == node s e.to) (record_edge ei nb s) s' rest in
    (fits, inl (refl, same, shape))
enter-some p ei e false nb s s' h =
    let (fits, rest) = gate-some (type_fits e nb.edge_type) _ s' h in
    let (fresh, shape) =
      passed_some (contains nb.dst (take p.num_vars s.nodes))
        (record_edge ei nb (bind e.to nb.dst s)) s' rest in
    (fits, inr (refl, fresh, shape))

-- The state one edge deeper, whichever way its target got bound.
pub record Entered (p : Pattern) (ei : ℕ) (e : PatternEdge) (to_bound : Bool) (nb : Neighbor)
    (s s' : DfsState) : Type 0 where
  pub type_ok : type_fits e nb.edge_type ≡ true
  pub dst_bound : (nb.dst == u64_max) ≡ false
  pub target : node s' e.to ≡ nb.dst
  pub kept : (v : ℕ) → IsBound s v → node s' v ≡ node s v
  pub size : length s'.nodes ≡ length s.nodes
  pub columns : s' ≡ record (record_edge ei nb s) { nodes = s'.nodes }
  pub restored : (t : DfsState) → t.nodes ≡ s'.nodes → (leave e to_bound t).nodes ≡ s.nodes

unbound_target :
    (p : Pattern) (s : DfsState) (v n : ℕ)
    → length s.nodes ≡ p.num_vars
    → v < p.num_vars
    → node s v ≡ u64_max
    → contains n (take p.num_vars s.nodes) ≡ false
    → (n == u64_max) ≡ false
unbound_target p s v n size lt free fresh = elim (Bool-cases (n == u64_max)) [
  | inr e ↦ e
  | inl e ↦
      let same : n ≡ node s v = (==_iff n u64_max).0 e ∙ sym free in
      let whole : take p.num_vars s.nodes ≡ s.nodes =
        ap (λ k. take k s.nodes) (sym size) ∙ take-all s.nodes in
      let there : contains n (take p.num_vars s.nodes) ≡ true =
        ap (contains n) whole
        ∙ ap (λ k. contains k s.nodes) same
        ∙ contains-get_or s.nodes v u64_max (omega (arith, size)) in
      cc (there, fresh)
]

Entered-bound :
    (p : Pattern) (ei : ℕ) (e : PatternEdge) (nb : Neighbor) (s : DfsState)
    → type_fits e nb.edge_type ≡ true
    → (nb.dst == node s e.to) ≡ true
    → IsBound s e.to
    → Entered p ei e true nb s (record_edge ei nb s)
Entered-bound p ei e nb s fits same bound =
    let eq = (==_iff nb.dst (node s e.to)).0 same in
    record {
      type_ok = fits;
      dst_bound = ap (λ k. k == u64_max) eq ∙ bound;
      target = sym eq;
      kept = λ v b. refl;
      size = refl;
      columns = refl;
      restored = λ t h. h;
    }

Entered-free :
    (p : Pattern) (ei : ℕ) (e : PatternEdge) (nb : Neighbor) (s : DfsState)
    → type_fits e nb.edge_type ≡ true
    → contains nb.dst (take p.num_vars s.nodes) ≡ false
    → node s e.to ≡ u64_max
    → length s.nodes ≡ p.num_vars
    → e.to < p.num_vars
    → Entered p ei e false nb s (record_edge ei nb (bind e.to nb.dst s))
Entered-free p ei e nb s fits fresh free size lt = record {
  type_ok = fits;
  dst_bound = unbound_target p s e.to nb.dst size lt free fresh;
  target = get_or-set_self s.nodes e.to nb.dst u64_max (omega (arith, size));
  kept = λ v b. get_or-set_ne s.nodes e.to v nb.dst u64_max (λ same. not_here v b same);
  size = length-set s.nodes e.to nb.dst;
  columns = refl;
  restored = λ t h. ap (λ ns. set ns e.to u64_max) h ∙ set-restore s.nodes e.to nb.dst u64_max free;
}
  where
    not_here : (v : ℕ) → IsBound s v → e.to ≡ v → ⊥
    not_here v b same = cc ((==_iff (node s v) u64_max).1 (ap (node s) (sym same) ∙ free), b)

pub enter-Entered :
    (p : Pattern) (ei : ℕ) (e : PatternEdge) (to_bound : Bool) (nb : Neighbor) (s s' : DfsState)
    → enter p ei e to_bound nb s ≡ some s'
    → to_bound ≡ not (node s e.to == u64_max)
    → length s.nodes ≡ p.num_vars
    → e.to < p.num_vars
    → Entered p ei e to_bound nb s s'
enter-Entered p ei e true nb s s' h test size lt = elim (enter-some p ei e true nb s s' h).1 [
  | inl (_, same, shape) ↦ subst (Entered p ei e true nb s) (sym shape) (
      Entered-bound p ei e nb s (enter-some p ei e true nb s s' h).0 same
        (not-true (node s e.to == u64_max) test))
  | inr (never, _, _) ↦ cc never
]
enter-Entered p ei e false nb s s' h test size lt = elim (enter-some p ei e false nb s s' h).1 [
  | inl (never, _, _) ↦ cc never
  | inr (_, fresh, shape) ↦ subst (Entered p ei e false nb s) (sym shape) (
      Entered-free p ei e nb s (enter-some p ei e false nb s s' h).0 fresh
        ((==_iff (node s e.to) u64_max).0 (not-false (node s e.to == u64_max) test)) size lt)
]
