-- ===== src/Hnsw/Build.antt =====
-- Building an index from scratch.
use Prim.Native.Nat.{max}
use mathlib.Core.List.{append-nil, append_assoc}
use gtvdb.Base.{
  ℕ, suc, ◌^◌, ◌<◌, ◌≡◌, refl, sym, ap, ◌∙◌, ◌⊎◌, inl, inr, true, List, [], ◌∷◌, ◌++◌, length, All,
  ◌==◌, ==_iff, arith,
}
use gtvdb.Base.Sort.{IsWeakOrder}
use gtvdb.Flat.{Floats}
use gtvdb.Hnsw.{returned, HnswIndex, LevelFloats, random_level, new}
use gtvdb.Hnsw.Insert.{insert_all, build}
use gtvdb.Hnsw.Shape.{IsWellFormed, contents}
use gtvdb.Hnsw.Contract.{insert-IsWellFormed}

-- The ids and vectors as `build` is given them.
abbrev pub pairs : {F : Type 0} → List ℕ → List (List F) → List (ℕ × List F)
pairs (id ∷ ids) (v ∷ vectors) = (id, v) ∷ pairs ids vectors
pairs _ _ = []

some_pairs :
    {F : Type 0} (ids : List ℕ) (vectors : List (List F))
    → length ids ≡ length vectors
    → 0 < length ids
    → 0 < length (pairs ids vectors)
some_pairs [] vectors size h = absurd (omega (arith, h))
some_pairs (id ∷ ids) [] size h = absurd (omega (arith, size))
some_pairs (id ∷ ids) (v ∷ vectors) size h = omega arith

new-IsWellFormed :
    {F : Type 0} (m ef_construction ef_search : ℕ)
    → IsWellFormed {F = F} (new m ef_construction ef_search)
unfolding new
new-IsWellFormed m ef_construction ef_search = record {
  linked = λ i l. tt;
  bounded = λ i l. omega arith;
  entered = λ h. absurd (omega arith);
  some_ef = omega arith;
}

module _ {F : Type 0} (floats : Floats F) (level_floats : LevelFloats F)
    (weak : IsWeakOrder floats.lt) (m : ℕ)
    (shallow : (rng : ℕ) → suc (random_level floats level_floats (max m 1) rng).0 < 2 ^ 64)
    (d : ℕ) where
  no_more : (n : ℕ) → (n ≡ d) ⊎ (0 < 0) → n ≡ d
  no_more n (inl e) = e
  no_more n (inr h) = absurd (omega (arith, h))

  insert_all-IsWellFormed :
      (ids : List ℕ) (vectors : List (List F)) (index : HnswIndex F)
      → IsWellFormed index
      → index.m ≡ max m 1
      → (index.dim ≡ 0) ⊎ (index.dim ≡ d)
      → All (λ v. length v ≡ d) vectors
      → (index' : HnswIndex F) × (insert_all floats level_floats ids vectors index
          ≡ returned index')
        × IsWellFormed index'
        × (contents index'.nodes ≡ contents index.nodes ++ pairs ids vectors)
        × ((index.dim ≡ d) ⊎ (0 < length (pairs ids vectors)) → index'.dim ≡ d)
  unfolding insert_all
  insert_all-IsWellFormed [] vectors index valid same dim all =
      (index, refl, valid, sym (append-nil (contents index.nodes)), no_more index.dim)
  insert_all-IsWellFormed (id ∷ ids) [] index valid same dim all =
      (index, refl, valid, sym (append-nil (contents index.nodes)), no_more index.dim)
  insert_all-IsWellFormed (id ∷ ids) (v ∷ vectors) index valid same dim all =
      let fits : (index.dim ≡ 0) ⊎ (length v ≡ index.dim) = ground (arith, dim, all.0) in
      let low : suc (random_level floats level_floats index.m index.rng).0 < 2 ^ 64 =
        rw same (shallow index.rng) in
      let s = insert-IsWellFormed floats level_floats weak index id v valid low fits in
      let ih = insert_all-IsWellFormed ids vectors s.0 s.2 (s.5 ∙ same) (inr (s.4 ∙ all.0)) all.1 in
      (
        ih.0,
        rw s.1 ih.1,
        ih.2,
        ih.3
            ∙ ap (λ xs. xs ++ pairs ids vectors) s.3
            ∙ append_assoc (contents index.nodes) ((id, v) ∷ []) (pairs ids vectors),
        λ h. ih.4 (inl (s.4 ∙ all.0)),
      )

  -- With weakly ordered numbers, as many ids as vectors, vectors of one dimension, and levels that are
  -- all below the largest `usize`, `build` never panics and ends: with a valid index that holds the
  -- vectors with their ids, in their order, and has their dimension if there are any.
  pub build-IsWellFormed :
      (ids : List ℕ) (vectors : List (List F)) (ef_construction ef_search : ℕ)
      → length ids ≡ length vectors
      → All (λ v. length v ≡ d) vectors
      → (index : HnswIndex F) × (build floats level_floats ids vectors m ef_construction ef_search
          ≡ returned index)
        × IsWellFormed index
        × (contents index.nodes ≡ pairs ids vectors)
        × (0 < length ids → index.dim ≡ d)
  unfolding build new
  build-IsWellFormed ids vectors ef_construction ef_search size all =
      let start : HnswIndex F = new m ef_construction ef_search in
      let built =
        insert_all-IsWellFormed ids vectors start (new-IsWellFormed m ef_construction ef_search)
          refl (inl refl) all in
      let fits : (length ids == length vectors) ≡ true = (==_iff _ _).1 size in
      (
        built.0,
        rw fits built.1,
        built.2,
        built.3,
        λ h. built.4 (inr (some_pairs ids vectors size h)),
      )
