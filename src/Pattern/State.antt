-- ===== src/Pattern/State.antt =====
-- What holds of the search's state: the bound variables and the columns of the edges matched so far.
use gtvdb.Base.{
  ℕ, zero, suc, ◌<◌, ◌≡◌, refl, sym, ap, ◌∙◌, subst, true, false, none, List, [], ◌∷◌, length,
  get_or, set, take, Memᴰ, arith, ◌==◌, ==_iff,
}
use gtvdb.Base.Int.{ℤ}
use gtvdb.Base.Filter.{contains}
use gtvdb.Error.{ok}
use gtvdb.Csr.{Neighbor, TemporalCsr, neighbors}
use gtvdb.Pattern.{PatternEdge, Pattern, DfsState, u64_max, node, type_fits}

pub set-restore {ℓ} :
    {A : Type ℓ} (xs : List A) (i : ℕ) (v d : A) → get_or xs i d ≡ d → set (set xs i v) i d ≡ xs
set-restore [] i v d h = refl
set-restore (x ∷ xs) zero v d h = ap (λ y. y ∷ xs) (sym h)
set-restore (x ∷ xs) (suc i) v d h = ap (◌∷◌ x) (set-restore xs i v d h)

pub contains-get_or : (xs : List ℕ) (i d : ℕ) → i < length xs → contains (get_or xs i d) xs ≡ true
contains-get_or [] i d h = elim h [ ]
contains-get_or (x ∷ xs) zero d h = ground (arith, ==_iff x x)
contains-get_or (x ∷ xs) (suc i) d h = ground (arith, contains-get_or xs i d (omega arith))

pub take-all {ℓ} : {A : Type ℓ} (xs : List A) → take (length xs) xs ≡ xs
take-all [] = refl
take-all (x ∷ xs) = ap (◌∷◌ x) (take-all xs)

abbrev pub edge_at : Pattern → ℕ → PatternEdge
edge_at p j = get_or p.edges j (record { from = 0; to = 0; edge_type = none })

-- A variable of the state that is bound.
abbrev pub IsBound : DfsState → ℕ → Type 0
IsBound s v = (node s v == u64_max) ≡ false

-- The neighbour that the columns of edge `j` hold.
abbrev pub found : DfsState → ℕ → PatternEdge → Neighbor
found s j e = record {
  dst = node s e.to;
  edge_type = get_or s.edge_type j 0;
  valid_from = get_or s.valid_from j (ℤ.pos 0);
  valid_to = get_or s.valid_to j (ℤ.pos 0);
}

-- A neighbour of `src` at the time that fits a pattern edge, between nodes.
pub record Fits (csr : TemporalCsr) (valid_at : ℤ) (e : PatternEdge) (src : ℕ) (nb : Neighbor)
    : Type 0 where
  pub src_bound : (src == u64_max) ≡ false
  pub dst_bound : (nb.dst == u64_max) ≡ false
  pub nbs : List Neighbor
  pub read : neighbors csr src valid_at ≡ ok nbs
  pub among : Memᴰ nb nbs
  pub type_ok : type_fits e nb.edge_type ≡ true

-- The columns have their lengths.
pub record Sized (p : Pattern) (s : DfsState) : Type 0 where
  pub nodes_len : length s.nodes ≡ p.num_vars
  pub from_len : length s.valid_from ≡ length p.edges
  pub to_len : length s.valid_to ≡ length p.edges
  pub type_len : length s.edge_type ≡ length p.edges

-- The first variable is the start, and the edges before `ei` are matched.
pub record IsGood (csr : TemporalCsr) (p : Pattern) (valid_at : ℤ) (start ei : ℕ) (s : DfsState)
    : Type 0 where
  pub sized : Sized p s
  pub start_kept : node s 0 ≡ start
  pub matched :
      (j : ℕ)
      → j < ei
      → Fits csr valid_at (edge_at p j) (node s (edge_at p j).from) (found s j (edge_at p j))

-- Two states with the same bindings and the same columns of the edges before `ei`.
pub record Agree (ei : ℕ) (s s' : DfsState) : Type 0 where
  pub nodes_same : s'.nodes ≡ s.nodes
  pub from_len : length s'.valid_from ≡ length s.valid_from
  pub to_len : length s'.valid_to ≡ length s.valid_to
  pub type_len : length s'.edge_type ≡ length s.edge_type
  pub from_same :
      (j : ℕ) → j < ei → get_or s'.valid_from j (ℤ.pos 0) ≡ get_or s.valid_from j (ℤ.pos 0)
  pub to_same : (j : ℕ) → j < ei → get_or s'.valid_to j (ℤ.pos 0) ≡ get_or s.valid_to j (ℤ.pos 0)
  pub type_same : (j : ℕ) → j < ei → get_or s'.edge_type j 0 ≡ get_or s.edge_type j 0

pub Agree-refl : (ei : ℕ) (s : DfsState) → Agree ei s s
Agree-refl ei s = record {
  nodes_same = refl;
  from_len = refl;
  to_len = refl;
  type_len = refl;
  from_same = λ j lt. refl;
  to_same = λ j lt. refl;
  type_same = λ j lt. refl;
}

pub Agree-trans : (ei : ℕ) (s t u : DfsState) → Agree ei s t → Agree ei t u → Agree ei s u
Agree-trans ei s t u a b = record {
  nodes_same = b.nodes_same ∙ a.nodes_same;
  from_len = b.from_len ∙ a.from_len;
  to_len = b.to_len ∙ a.to_len;
  type_len = b.type_len ∙ a.type_len;
  from_same = λ j lt. b.from_same j lt ∙ a.from_same j lt;
  to_same = λ j lt. b.to_same j lt ∙ a.to_same j lt;
  type_same = λ j lt. b.type_same j lt ∙ a.type_same j lt;
}

module _ (csr : TemporalCsr) (p : Pattern) (valid_at : ℤ) (start : ℕ) where
  pub Fits-cong :
      (e : PatternEdge) (j : ℕ) (s s' : DfsState)
      → node s' e.from ≡ node s e.from
      → node s' e.to ≡ node s e.to
      → get_or s'.edge_type j 0 ≡ get_or s.edge_type j 0
      → get_or s'.valid_from j (ℤ.pos 0) ≡ get_or s.valid_from j (ℤ.pos 0)
      → get_or s'.valid_to j (ℤ.pos 0) ≡ get_or s.valid_to j (ℤ.pos 0)
      → Fits csr valid_at e (node s e.from) (found s j e)
      → Fits csr valid_at e (node s' e.from) (found s' j e)
  Fits-cong e j s s' h k a b c f =
      let same : found s j e ≡ found s' j e = λ i. record {
        dst = sym k i;
        edge_type = sym a i;
        valid_from = sym b i;
        valid_to = sym c i;
      } in
      subst (λ x. Fits csr valid_at e x (found s' j e)) (sym h)
        (subst (Fits csr valid_at e (node s e.from)) same f)

  pub IsGood-Agree :
      (ei : ℕ) (s s' : DfsState)
      → Agree ei s s'
      → IsGood csr p valid_at start ei s
      → IsGood csr p valid_at start ei s'
  IsGood-Agree ei s s' a g =
      let here : (v : ℕ) → node s' v ≡ node s v =
        λ v. ap (λ ns. get_or ns v u64_max) a.nodes_same in
      record {
        sized = record {
          nodes_len = ap length a.nodes_same ∙ g.sized.nodes_len;
          from_len = a.from_len ∙ g.sized.from_len;
          to_len = a.to_len ∙ g.sized.to_len;
          type_len = a.type_len ∙ g.sized.type_len;
        };
        start_kept = here 0 ∙ g.start_kept;
        matched = λ j lt.
            let e = edge_at p j in
            Fits-cong e j s s' (here e.from) (here e.to) (a.type_same j lt) (a.from_same j lt)
              (a.to_same j lt) (g.matched j lt);
      }
