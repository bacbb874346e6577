-- ===== src/Hnsw/Exhaustive.antt =====
-- A search that does not find as many results as it may has found everything in reach.
use Prim.Native.Nat.{max}
use gtvdb.Base.{
  ℕ, ◌<◌, ◌≡◌, sym, ap, ◌∙◌, inl, inr, Bool, true, ◌&&◌, Option, List, ◌++◌, map, length, take,
  All-mem, ◌==◌, ==_iff, arith, List-cases, length-append, length-map, length-take,
}
use gtvdb.Base.Filter.{
  filter, contains, contains_iff, any, any-append, any-map, any-filter, any-perm, any→mem, mem→any,
  length-perm,
}
use gtvdb.Base.Sort.{IsWeakOrder}
use gtvdb.Flat.{Floats, masked, mask_fits}
use gtvdb.Hnsw.{returned, Node, HnswIndex}
use gtvdb.Hnsw.Search.{search_knn}
use gtvdb.Hnsw.Layers.{node_at, links}
use gtvdb.Hnsw.Beam.{scores}
use gtvdb.Hnsw.Descent.{distance}
use gtvdb.Hnsw.Explore.{IsAnswer, take-all}
use gtvdb.Hnsw.Shape.{IsWellFormed}
use gtvdb.Hnsw.Contract.{id_of, IsStart, search_knn_from}

-- The nodes that the links of a layer lead to, in any number of steps.
pub data Reach {F : Type 0} (nodes : List (Node F)) (layer start : ℕ) : ℕ → Type 0 where
  here : Reach nodes layer start start
  step :
      {i nb : ℕ}
      → Reach nodes layer start i
      → contains nb (links nodes i layer) ≡ true
      → Reach nodes layer start nb

module _ {F : Type 0} (floats : Floats F) (nodes : List (Node F)) (query : List F)
    (mask : Option (List Bool)) (layer ef start : ℕ) (results : List (F × ℕ))
    (a : IsAnswer floats nodes query mask layer ef start results) (few : length results < ef) where
  Reach-seen : {i : ℕ} → Reach nodes layer start i → contains i a.seen ≡ true
  Reach-seen here = a.begun
  Reach-seen (step {i} {nb} r link) = elim (a.explored i (Reach-seen r)) [
    | inl all ↦
        All-mem (λ n. contains n a.seen ≡ true) nb (links nodes i layer) all
          ((contains_iff nb (links nodes i layer)).0 link)
    | inr full ↦ absurd (omega (arith, full.0))
  ]

  seen_scored :
      (i : ℕ)
      → contains i a.seen ≡ true
      → masked mask i ≡ true
      → any (λ s. s.1 == i) (scores floats nodes query mask layer a.seen) ≡ true
  seen_scored i seen pass =
      any-map (λ (s : F × ℕ). s.1 == i) (λ j. (distance floats nodes query j, j))
        (filter (masked mask) a.seen)
      ∙ any-filter (λ j. j == i) (masked mask) a.seen
      ∙ mem→any (λ j. masked mask j && j == i) i a.seen ((contains_iff i a.seen).0 seen)
          (ground (arith, ==_iff i i))

  pub Reach-found :
      {i : ℕ}
      → Reach nodes layer start i
      → masked mask i ≡ true
      → any (λ s. s.1 == i) results ≡ true
  Reach-found {i} r pass =
      let n = a.nearest in
      let all = scores floats nodes query mask layer a.seen in
      let found : any (λ s. s.1 == i) (results ++ n.left) ≡ true =
        any-perm (λ s. s.1 == i) n.parts ∙ seen_scored i (Reach-seen r) pass in
      elim (List-cases n.left) [
        | inl e ↦ ground (
          arith,
          found,
          any-append (λ (s : F × ℕ). s.1 == i) results n.left,
          ap (any (λ (s : F × ℕ). s.1 == i)) e,
        )
        | inr (x, rest, e) ↦ absurd (
            omega (
              arith,
              n.size,
              length-perm n.parts,
              length-append results n.left,
              ap (λ (xs : List (F × ℕ)). length xs) e,
            ))
      ]

module _ {F : Type 0} (floats : Floats F) (weak : IsWeakOrder floats.lt) (index : HnswIndex F)
    (valid : IsWellFormed index) where
  id-found :
      (i : ℕ) (results : List (F × ℕ))
      → any (λ s. s.1 == i) results ≡ true
      → contains (node_at index.nodes i).id (map (id_of floats index.nodes) results) ≡ true
  id-found i results h =
      let found = any→mem (λ s. s.1 == i) results h in
      any-map (λ x. (node_at index.nodes i).id == x) (id_of floats index.nodes) results
      ∙ mem→any (λ s. (node_at index.nodes i).id == id_of floats index.nodes s) found.0 results
          found.1
          ((==_iff _ _).1
            (ap (λ j. (node_at index.nodes j).id) (sym ((==_iff found.0.1 i).0 found.2))))

  -- `search_knn` on a valid index that is not empty, with weakly ordered numbers, a query of its dimension
  -- and a mask of the number of its nodes or none: when it returns fewer than `k` ids, then it returns that
  -- of every node that the mask lets through and that the links of the bottom layer lead to from the node
  -- at which the greedy descent from the entry point ends, also where they lead through nodes that the
  -- mask leaves out.
  pub search_knn-exhaustive :
      (query : List F) (k : ℕ) (mask : Option (List Bool))
      → 0 < length index.nodes
      → 0 < k
      → length query ≡ index.dim
      → mask_fits mask (length index.nodes) ≡ true
      → (start : ℕ) × (ids : List ℕ) × IsStart floats index query start
        × (search_knn floats index query k mask ≡ returned ids)
        × (length ids < k
            → (i : ℕ) → Reach index.nodes 0 start i
            → masked mask i ≡ true
            → contains (node_at index.nodes i).id ids ≡ true)
  search_knn-exhaustive query k mask some_node some_k dim fits =
      let found = search_knn_from floats weak index valid query k mask some_node some_k dim fits in
      let ids = map (id_of floats index.nodes) (take k found.1) in
      (
        found.0,
        ids,
        found.4,
        found.2,
        λ few i r pass.
            let less : length found.1 < k = omega (
              arith,
              few,
              length-map (id_of floats index.nodes) (take k found.1),
              length-take k found.1,
            ) in
            rw (take-all k found.1 (omega arith)) (
              id-found i found.1 (
                Reach-found floats index.nodes query mask 0 (max index.ef_search k) found.0 found.1
                  found.3 (omega arith) r pass)),
      )
