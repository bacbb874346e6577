-- ===== src/Shell/Search.antt =====
-- The command `knn` of the shell on a demo whose index holds its embeddings.
use Prim.Native.String.{String, ◌++◌ as append}
use gtvdb.Base.{
  ℕ, zero, suc, ◌+◌, ◌≤◌, ◌<◌, ◌≡◌, refl, sym, ap, subst, ◌⊎◌, inl, inr, true, false, Option, none,
  some, List, [], ◌∷◌, map, length, take, get_or, get_elem?, All, length-map, length-take,
  Bool-cases, Option-cases, ◌==◌, ==_iff, arith,
}
use gtvdb.Base.Filter.{contains}
use gtvdb.Base.Sort.{IsWeakOrder}
use gtvdb.Flat.{Floats, mask_fits}
use gtvdb.Hnsw.{returned}
use gtvdb.Hnsw.Search.{search_knn}
use gtvdb.Hnsw.Layers.{node_at, height_pos}
use gtvdb.Hnsw.Beam.{IsHit}
use gtvdb.Hnsw.Shape.{IsWellFormed}
use gtvdb.Hnsw.Contract.{id_of, search_knn_answers}
use gtvdb.Knn.Nearest.{All-take, zero_plus}
use gtvdb.Shell.{
  ShellError, Ended, done, failed, or_fail, Demo, parse_mask, parse_u64, mask_from, mask_of,
  count_or_three, knn_command, optional_arg, message, parse_error, from_outcome, ◌>>=◌, parse_ids,
  behind_flag,
}
use gtvdb.Engine.Collections.{split_commas, trim_start, trim_end}

length-mask_from : (i n : ℕ) (allowed : List ℕ) → length (mask_from i n allowed) ≡ n
length-mask_from i zero allowed = refl
length-mask_from i (suc n) allowed = ap suc (length-mask_from (suc i) n allowed)

mask_from-contains :
    (i n j : ℕ) (allowed : List ℕ)
    → get_or (mask_from i n allowed) j false ≡ true
    → contains (i + j) allowed ≡ true
mask_from-contains i zero j allowed h = absurd (ground (arith, h))
mask_from-contains i (suc n) zero allowed h = let same : i + 0 ≡ i = omega arith in rw same h
mask_from-contains i (suc n) (suc j) allowed h =
    let same : i + suc j ≡ suc i + j = omega arith in
    rw same (mask_from-contains (suc i) n j allowed h)

mask_of-fits : (n : ℕ) (allowed : Option (List ℕ)) → mask_fits (mask_of n allowed) n ≡ true
mask_of-fits n none = refl
mask_of-fits n (some allowed) = (==_iff _ _).1 (length-mask_from 0 n allowed)

-- Reading an argument ends with a value or an error.
abbrev Parsed : {A : Type 0} → Ended A → Type 0
Parsed {A} r = ((a : A) × (r ≡ done a)) ⊎ ((e : ShellError) × (r ≡ failed e))

parse_ids-Parsed : (parts : List String) → Parsed (parse_ids parts)
unfolding parse_ids
parse_ids-Parsed [] = inl ([], refl)
parse_ids-Parsed (s ∷ parts) = elim (Option-cases (parse_u64 (trim_end (trim_start s)))) [
  | inl e ↦ inr (message (append "invalid mask id `" (append s "`")), rw e refl)
  | inr (id, e) ↦ elim (parse_ids-Parsed parts) [
    | inl (ids, f) ↦ inl (id ∷ ids, rw (e, f) refl)
    | inr (g, f) ↦ inr (g, rw (e, f) refl)
  ]
]

-- Reading the mask never panics.
parse_mask-Parsed : (tokens : List String) → Parsed (parse_mask tokens)
unfolding parse_mask
parse_mask-Parsed tokens = elim (Option-cases (behind_flag tokens)) [
  | inl e ↦ inl (none, rw (e, parse_mask) refl)
  | inr ([], e) ↦ inr (message "usage: knn <node> [k] [--mask a,b,c]", rw (e, parse_mask) refl)
  | inr (raw ∷ rest, e) ↦ elim (parse_ids-Parsed (split_commas raw)) [
    | inl (ids, f) ↦ inl (some ids, rw (e, f, parse_mask) refl)
    | inr (g, f) ↦ inr (g, rw (e, f, parse_mask) refl)
  ]
]

-- The index holds the embeddings, at their positions and under them as ids.
pub record IsDemo {F : Type 0} (demo : Demo F) : Type 0 where
  pub index : IsWellFormed demo.hnsw
  pub some_node : 0 < length demo.hnsw.nodes
  pub size : length demo.hnsw.nodes ≡ length demo.embeddings
  pub dims : (i : ℕ) (v : List F) → get_elem? demo.embeddings i ≡ some v → length v ≡ demo.hnsw.dim
  pub ids : (i : ℕ) → i < length demo.hnsw.nodes → (node_at demo.hnsw.nodes i).id ≡ i

-- Of the allowed ids, when there are any.
abbrev pub IsAllowed : Option (List ℕ) → List ℕ → Type 0
IsAllowed none ids = Unit {0}
IsAllowed (some allowed) ids = All (λ id. contains id allowed ≡ true) ids

-- How the command may end: with an error, or with ids.
abbrev pub IsKnnEnd : ℕ → Ended (Option (List ℕ)) → Ended (List ℕ) → Type 0
IsKnnEnd k mask_ids end =
    ((e : ShellError) × (end ≡ failed e))
    ⊎ ((ids : List ℕ) × (end ≡ done ids)
        × (length ids ≤ k)
        × ((allowed : Option (List ℕ)) → mask_ids ≡ done allowed → IsAllowed allowed ids))

module _ {F : Type 0} (floats : Floats F) (weak : IsWeakOrder floats.lt) (demo : Demo F)
    (demo_ok : IsDemo demo) where
  none_found : (allowed : Option (List ℕ)) → IsAllowed allowed []
  none_found none = tt
  none_found (some allowed) = tt

  hits-IsAllowed :
      (query : List F) (n : ℕ) (allowed : Option (List ℕ)) (scores : List (F × ℕ))
      → All (IsHit floats demo.hnsw.nodes query (mask_of n allowed) 0) scores
      → IsAllowed allowed (map (id_of floats demo.hnsw.nodes) scores)
  hits-IsAllowed query n none scores hits = tt
  hits-IsAllowed query n (some allowed) [] hits = tt
  hits-IsAllowed query n (some allowed) (s ∷ scores) hits =
      let inside = height_pos demo.hnsw.nodes s.1 0 hits.0.0.0 in
      (
        rw (demo_ok.ids s.1 inside) (
            subst (λ j. contains j allowed ≡ true) (sym (zero_plus s.1))
              (mask_from-contains 0 n s.1 allowed hits.0.1)),
        hits-IsAllowed query n (some allowed) scores hits.1,
      )

  demo_search :
      (query : List F) (k : ℕ) (allowed : Option (List ℕ))
      → length query ≡ demo.hnsw.dim
      → (ids : List ℕ) × (search_knn floats demo.hnsw query k
            (mask_of (length demo.embeddings) allowed)
          ≡ returned ids)
        × (length ids ≤ k)
        × IsAllowed allowed ids
  unfolding search_knn
  demo_search query k allowed dim =
      let n = length demo.embeddings in
      let mask = mask_of n allowed in
      let fits : mask_fits mask (length demo.hnsw.nodes) ≡ true =
        rw demo_ok.size (mask_of-fits n allowed) in
      elim (Bool-cases (k == 0)) [
        | inl e ↦
            let same : (length query == demo.hnsw.dim) ≡ true = (==_iff _ _).1 dim in
            ([], rw (same, fits, e) refl, omega arith, none_found allowed)
        | inr e ↦
            let found =
              search_knn_answers floats weak demo.hnsw demo_ok.index query k mask demo_ok.some_node
                (ground (arith, e)) dim fits in
            (
              map (id_of floats demo.hnsw.nodes) (take k found.1),
              found.2,
              omega (
                arith,
                length-map (id_of floats demo.hnsw.nodes) (take k found.1),
                length-take k found.1,
              ),
              hits-IsAllowed query n allowed (take k found.1)
                  (All-take (λ _ _. false) _ k found.1 found.3.hits),
            )
      ]

  -- What is left of the command when its arguments are read.
  abbrev pub knn_of : Option ℕ → ℕ → Ended (Option (List ℕ)) → Ended (List ℕ)
  knn_of node k mask_ids = or_fail parse_error node >>= λ i. mask_ids >>= λ allowed.
      or_fail (message "node out of range") (get_elem? demo.embeddings i) >>= λ query.
      from_outcome (search_knn floats demo.hnsw query k (mask_of (length demo.embeddings) allowed))

  found_end :
      (k i : ℕ) (allowed : Option (List ℕ))
      → IsKnnEnd k (done allowed) (knn_of (some i) k (done allowed))
  found_end k i allowed = elim (Option-cases (get_elem? demo.embeddings i)) [
    | inl e ↦ inl (message "node out of range", rw e refl)
    | inr (query, e) ↦
        let found = demo_search query k allowed (demo_ok.dims i query e) in
        inr (
          found.0,
          rw (e, found.1) refl,
          found.2,
          λ other same.
              let equal : allowed ≡ other = cc same in
              subst (λ r. IsAllowed r found.0) equal found.3,
        )
  ]

  -- On a demo whose index holds its embeddings, with weakly ordered numbers, the command `knn` never panics
  -- and ends, whatever its arguments are: with an error, or with at most as many ids as its third
  -- argument asks for (three by default), all of them among the ids of its mask if it has one.
  pub knn_command_answers :
      (tokens : List String)
      → IsKnnEnd
          (count_or_three (optional_arg tokens 2))
          (parse_mask tokens)
          (knn_command floats demo tokens)
  unfolding knn_command
  knn_command_answers tokens = elim (Option-cases (get_elem? tokens 1)) [
    | inl e ↦
        inl
          (message (append "missing argument; usage: " "knn <node> [k] [--mask a,b,c]"), rw e refl)
    | inr (arg, e) ↦ elim (Option-cases (parse_u64 arg)) [
      | inl f ↦ inl (parse_error, rw (e, f) refl)
      | inr (i, f) ↦ elim (parse_mask-Parsed tokens) [
        | inr (g, h) ↦ inl (g, rw (e, f, h) refl)
        | inl (allowed, h) ↦
            rw (e, f, h) (found_end (count_or_three (optional_arg tokens 2)) i allowed)
      ]
    ]
  ]
