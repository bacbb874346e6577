-- ===== src/Shell/Startup.antt =====
-- gtv-cli/src/main.rs: the embeddings of `build_demo` and the index over them.
use Prim.Native.String.{String}
use gtvdb.Base.{
  ℕ, zero, suc, ◌/◌, ◌%◌, ◌^◌, ◌<◌, ◌≡◌, refl, sym, ap, ◌∙◌, some, List, [], ◌∷◌, length, map,
  get_or, get_elem?, length-map, arith,
}
use gtvdb.Base.Sort.{IsWeakOrder}
use gtvdb.Flat.{Floats}
use gtvdb.Hnsw.{Node, LevelFloats, random_level}
use gtvdb.Hnsw.Insert.{build}
use gtvdb.Hnsw.Layers.{node_at}
use gtvdb.Hnsw.Shape.{contents}
use gtvdb.Hnsw.Build.{pairs, build-IsWellFormed}
use gtvdb.Shell.{
  Ended, done, ◌>>=◌, from_outcome, Demo, parse_mask, knn_command, count_or_three, optional_arg,
}
use gtvdb.Shell.Search.{IsDemo, IsKnnEnd, knn_command_answers}

abbrev pub demo_ids : List ℕ
demo_ids = 0 ∷ 1 ∷ 2 ∷ 3 ∷ 4 ∷ 5 ∷ []

module _ {F : Type 0} (floats : Floats F) (level_floats : LevelFloats F) where
  open level_floats use {cast}

  -- The lowest three bits of a number.
  abbrev pub embedding : ℕ → List F
  embedding i = cast (i % 2) ∷ cast (i / 2 % 2) ∷ cast (i / 2 ^ 2 % 2) ∷ cast 0 ∷ []

  -- `build_demo` as far as the command `knn` sees it.
  unfoldable pub build_demo : Ended (Demo F)
  build_demo =
      let embeddings = map embedding demo_ids in
      from_outcome (build floats level_floats demo_ids embeddings 4 16 16) >>= λ hnsw.
      done (record { embeddings = embeddings; hnsw = hnsw })

  id_at :
      (nodes : List (Node F)) (i : ℕ) → (get_or (contents nodes) i (0, [])).0 ≡ (node_at nodes i).id
  id_at [] i = refl
  id_at (n ∷ nodes) zero = refl
  id_at (n ∷ nodes) (suc i) = id_at nodes i

  id_of_pair : (i : ℕ) → i < 6 → (get_or (pairs demo_ids (map embedding demo_ids)) i (0, [])).0 ≡ i
  id_of_pair zero h = refl
  id_of_pair (suc zero) h = refl
  id_of_pair (suc (suc zero)) h = refl
  id_of_pair (suc (suc (suc zero))) h = refl
  id_of_pair (suc (suc (suc (suc zero)))) h = refl
  id_of_pair (suc (suc (suc (suc (suc zero))))) h = refl
  id_of_pair (suc (suc (suc (suc (suc (suc i)))))) h = absurd (omega (arith, h))

  length-embeddings :
      (xs : List ℕ) (i : ℕ) (v : List F) → get_elem? (map embedding xs) i ≡ some v → length v ≡ 4
  length-embeddings [] i v h = cc
  length-embeddings (x ∷ xs) zero v h = let same : embedding x ≡ v = cc h in ap length (sym same)
  length-embeddings (x ∷ xs) (suc i) v h = length-embeddings xs i v h

  module _ (weak : IsWeakOrder floats.lt)
      (shallow : (rng : ℕ) → suc (random_level floats level_floats 4 rng).0 < 2 ^ 64) where
    build_demo-IsDemo : (demo : Demo F) × (build_demo ≡ done demo) × IsDemo demo
    unfolding build_demo
    build_demo-IsDemo =
        let embeddings = map embedding demo_ids in
        let built =
          build-IsWellFormed floats level_floats weak 4 shallow 4 demo_ids embeddings 16 16 refl
            (refl, (refl, (refl, (refl, (refl, (refl, tt)))))) in
        let size : length built.0.nodes ≡ 6 =
          sym (length-map _ built.0.nodes) ∙ ap length built.3 in
        let demo : Demo F = record { embeddings = embeddings; hnsw = built.0 } in
        (
          demo,
          rw built.1 refl,
          record {
            index = built.2;
            some_node = omega (arith, size);
            size = size;
            dims = λ i v h. length-embeddings demo_ids i v h ∙ sym (built.4 (omega arith));
            ids = λ i h.
                sym (id_at built.0.nodes i)
                ∙ ap (λ (xs : List (ℕ × List F)). (get_or xs i (0, [])).0) built.3
                ∙ id_of_pair i (omega (arith, h, size));
          },
        )

    -- With weakly ordered numbers and levels that are all below the largest `usize`, `build_demo` builds its
    -- index, and the command `knn` of the shell then never panics and ends, whatever its arguments are:
    -- with an error, or with at most as many ids as its third argument asks for (three by default),
    -- all of them among the ids of its mask if it has one.
    pub demo_knn_answers :
        (tokens : List String)
        → (demo : Demo F) × (build_demo ≡ done demo)
          × IsKnnEnd
              (count_or_three (optional_arg tokens 2))
              (parse_mask tokens)
              (knn_command floats demo tokens)
    demo_knn_answers tokens =
        let start = build_demo-IsDemo in
        (start.0, start.1, knn_command_answers floats weak start.0 start.2 tokens)
