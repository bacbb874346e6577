-- ===== src/Pattern/Step.antt =====
-- The state one edge deeper, and the state after the search has come back.
use gtvdb.Base.{
  ℕ, suc, ◌<◌, ◌≡◌, ◌≢◌, refl, sym, ap, ◌∙◌, subst, inl, inr, Bool, true, false, List, length,
  get_or, Memᴰ, arith, ◌==◌, ==_iff, Bool-cases, length-set, get_or-set_self, get_or-set_ne,
}
use gtvdb.Base.Int.{ℤ}
use gtvdb.Error.{ok}
use gtvdb.Csr.{Neighbor, TemporalCsr, neighbors}
use gtvdb.Pattern.{PatternEdge, Pattern, DfsState, u64_max, node, leave}
use gtvdb.Pattern.State.{edge_at, IsBound, found, Fits, Sized, IsGood, Agree, Fits-cong}
use gtvdb.Pattern.Enter.{Entered}

apart : (j k : ℕ) → j < k → k ≢ j
apart j k h e = omega arith

new_edge :
    {csr : TemporalCsr} (p : Pattern) {valid_at : ℤ} (ei : ℕ) (to_bound : Bool) (nb : Neighbor)
    (s s' : DfsState)
    → Entered p ei (edge_at p ei) to_bound nb s s'
    → Sized p s
    → ei < length p.edges
    → IsBound s (edge_at p ei).from
    → Fits csr valid_at (edge_at p ei) (node s (edge_at p ei).from) nb
    → Fits csr valid_at (edge_at p ei) (node s' (edge_at p ei).from) (found s' ei (edge_at p ei))
new_edge {csr = csr} p {valid_at = valid_at} ei to_bound nb s s' d size inside bound f =
    let e = edge_at p ei in
    let type_here : get_or s'.edge_type ei 0 ≡ nb.edge_type =
      ap (λ t. get_or t.edge_type ei 0) d.columns
      ∙ get_or-set_self s.edge_type ei nb.edge_type 0 (omega (arith, size.type_len)) in
    let from_here : get_or s'.valid_from ei (ℤ.pos 0) ≡ nb.valid_from =
      ap (λ t. get_or t.valid_from ei (ℤ.pos 0)) d.columns
      ∙ get_or-set_self s.valid_from ei nb.valid_from (ℤ.pos 0) (omega (arith, size.from_len)) in
    let to_here : get_or s'.valid_to ei (ℤ.pos 0) ≡ nb.valid_to =
      ap (λ t. get_or t.valid_to ei (ℤ.pos 0)) d.columns
      ∙ get_or-set_self s.valid_to ei nb.valid_to (ℤ.pos 0) (omega (arith, size.to_len)) in
    let same : nb ≡ found s' ei e = λ i. record {
      dst = sym d.target i;
      edge_type = sym type_here i;
      valid_from = sym from_here i;
      valid_to = sym to_here i;
    } in
    subst (λ x. Fits csr valid_at e x (found s' ei e)) (sym (d.kept e.from bound))
      (subst (Fits csr valid_at e (node s e.from)) same f)

old_edge :
    (p : Pattern) (ei : ℕ) (to_bound : Bool) (nb : Neighbor) (s s' : DfsState)
    → Entered p ei (edge_at p ei) to_bound nb s s'
    → (csr : TemporalCsr) (valid_at : ℤ) (start j : ℕ) → ei ≢ j
    → Fits csr valid_at (edge_at p j) (node s (edge_at p j).from) (found s j (edge_at p j))
    → Fits csr valid_at (edge_at p j) (node s' (edge_at p j).from) (found s' j (edge_at p j))
old_edge p ei to_bound nb s s' d csr valid_at start j ne f =
    let e = edge_at p j in
    Fits-cong csr p valid_at start e j s s' (d.kept e.from f.src_bound) (d.kept e.to f.dst_bound)
      (ap (λ t. get_or t.edge_type j 0) d.columns
        ∙ get_or-set_ne s.edge_type ei j nb.edge_type 0 ne)
      (ap (λ t. get_or t.valid_from j (ℤ.pos 0)) d.columns
        ∙ get_or-set_ne s.valid_from ei j nb.valid_from (ℤ.pos 0) ne)
      (ap (λ t. get_or t.valid_to j (ℤ.pos 0)) d.columns
        ∙ get_or-set_ne s.valid_to ei j nb.valid_to (ℤ.pos 0) ne)
      f

-- The state one edge deeper is good for one edge more.
pub enter-IsGood :
    (csr : TemporalCsr) (p : Pattern) (valid_at : ℤ) (start ei : ℕ) (to_bound : Bool)
    (nb : Neighbor) (nbs : List Neighbor) (s s' : DfsState)
    → Entered p ei (edge_at p ei) to_bound nb s s'
    → IsGood csr p valid_at start ei s
    → ei < length p.edges
    → (start == u64_max) ≡ false
    → IsBound s (edge_at p ei).from
    → neighbors csr (node s (edge_at p ei).from) valid_at ≡ ok nbs
    → Memᴰ nb nbs
    → IsGood csr p valid_at start (suc ei) s'
enter-IsGood csr p valid_at start ei to_bound nb nbs s s' d g inside real bound read among =
    record {
      sized = record {
        nodes_len = d.size ∙ g.sized.nodes_len;
        from_len =
            ap (λ t. length t.valid_from) d.columns
            ∙ length-set s.valid_from ei nb.valid_from
            ∙ g.sized.from_len;
        to_len =
            ap (λ t. length t.valid_to) d.columns
            ∙ length-set s.valid_to ei nb.valid_to
            ∙ g.sized.to_len;
        type_len =
            ap (λ t. length t.edge_type) d.columns
            ∙ length-set s.edge_type ei nb.edge_type
            ∙ g.sized.type_len;
      };
      start_kept = d.kept 0 (ap (λ k. k == u64_max) g.start_kept ∙ real) ∙ g.start_kept;
      matched = λ j lt. elim (Bool-cases (j == ei)) [
        | inl e ↦
            subst
              (λ k.
                Fits csr valid_at (edge_at p k) (node s' (edge_at p k).from)
                  (found s' k (edge_at p k)))
              (sym ((==_iff j ei).0 e))
              (new_edge p ei to_bound nb s s' d g.sized inside bound (record {
                src_bound = bound;
                dst_bound = d.dst_bound;
                nbs = nbs;
                read = read;
                among = among;
                type_ok = d.type_ok;
              }))
        | inr e ↦
            let below : j < ei = ground (arith, ==_iff j ei) in
            let old = g.matched j below in
            old_edge p ei to_bound nb s s' d csr valid_at start j (apart j ei below) old
      ];
    }

leave-from : (e : PatternEdge) (b : Bool) (t : DfsState) → (leave e b t).valid_from ≡ t.valid_from
leave-from e true t = refl
leave-from e false t = refl

leave-to : (e : PatternEdge) (b : Bool) (t : DfsState) → (leave e b t).valid_to ≡ t.valid_to
leave-to e true t = refl
leave-to e false t = refl

leave-type : (e : PatternEdge) (b : Bool) (t : DfsState) → (leave e b t).edge_type ≡ t.edge_type
leave-type e true t = refl
leave-type e false t = refl

-- Back from a deeper search that kept what it found, the state agrees with the one before.
pub leave-Agree :
    (p : Pattern) (ei : ℕ) (e : PatternEdge) (to_bound : Bool) (nb : Neighbor) (s s' t : DfsState)
    → Entered p ei e to_bound nb s s'
    → Agree (suc ei) s' t
    → Agree ei s (leave e to_bound t)
leave-Agree p ei e to_bound nb s s' t d a = record {
  nodes_same = d.restored t a.nodes_same;
  from_len =
      ap length (leave-from e to_bound t)
      ∙ a.from_len
      ∙ ap (λ u. length u.valid_from) d.columns
      ∙ length-set s.valid_from ei nb.valid_from;
  to_len =
      ap length (leave-to e to_bound t)
      ∙ a.to_len
      ∙ ap (λ u. length u.valid_to) d.columns
      ∙ length-set s.valid_to ei nb.valid_to;
  type_len =
      ap length (leave-type e to_bound t)
      ∙ a.type_len
      ∙ ap (λ u. length u.edge_type) d.columns
      ∙ length-set s.edge_type ei nb.edge_type;
  from_same = λ j lt.
      ap (λ xs. get_or xs j (ℤ.pos 0)) (leave-from e to_bound t)
      ∙ a.from_same j (omega arith)
      ∙ ap (λ u. get_or u.valid_from j (ℤ.pos 0)) d.columns
      ∙ get_or-set_ne s.valid_from ei j nb.valid_from (ℤ.pos 0) (apart j ei lt);
  to_same = λ j lt.
      ap (λ xs. get_or xs j (ℤ.pos 0)) (leave-to e to_bound t)
      ∙ a.to_same j (omega arith)
      ∙ ap (λ u. get_or u.valid_to j (ℤ.pos 0)) d.columns
      ∙ get_or-set_ne s.valid_to ei j nb.valid_to (ℤ.pos 0) (apart j ei lt);
  type_same = λ j lt.
      ap (λ xs. get_or xs j 0) (leave-type e to_bound t)
      ∙ a.type_same j (omega arith)
      ∙ ap (λ u. get_or u.edge_type j 0) d.columns
      ∙ get_or-set_ne s.edge_type ei j nb.edge_type 0 (apart j ei lt);
}
