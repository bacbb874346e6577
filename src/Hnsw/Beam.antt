-- ===== src/Hnsw/Beam.antt =====
-- The beam search of a layer ends, and what its results are.
use mathlib.Core.List.{append-nil, append_assoc, perm_append_comm, map-append}
use mathlib.Core.List.Perm
use gtvdb.Base.{
  Perm, map, ℕ, ◌+◌, ◌≤◌, ◌<◌, ◌≡◌, refl, sym, ap, ◌∙◌, inl, inr, Bool, true, false, not, Option,
  none, some, List, [], ◌∷◌, ◌++◌, length, get_elem?-in, All, All-append, ◌==◌, ==_iff,
  if◌then◌else◌, arith, Bool-cases, length-append,
}
use gtvdb.Base.Filter.{count_p, contains, any, any-append, filter, filter-append, count-push}
use gtvdb.Flat.{Floats, masked, mask_fits}
use gtvdb.Hnsw.{returned, Node}
use gtvdb.Hnsw.Search.{passes, Beam, push_if, visit}
use gtvdb.Hnsw.Layers.{count_below, count_below_lt, height, height_pos, read-node}
use gtvdb.Hnsw.Descent.{distance, IsAt}

pub passes_lem :
    (mask : Option (List Bool)) (n i : ℕ)
    → mask_fits mask n ≡ true
    → i < n
    → passes mask i ≡ returned (masked mask i)
passes_lem none n i h lt = refl
passes_lem (some mask) n i h lt =
    let inside : i < length mask = ground arith in rw (get_elem?-in mask i false inside) refl

once_new :
    (nb i c : ℕ) (seen : List ℕ)
    → contains nb seen ≡ false
    → c ≤ (if contains i seen then 1 else 0)
    → c + (if nb == i then 1 else 0) ≤ (if contains i (nb ∷ seen) then 1 else 0)
once_new nb i c seen new h = elim (Bool-cases (nb == i)) [
  | inl e ↦
      let same : contains i seen ≡ false =
        ap (λ j. contains j seen) (sym ((==_iff nb i).0 e)) ∙ new in
      ground arith
  | inr e ↦ ground arith
]

module _ {F : Type 0} (floats : Floats F) (nodes : List (Node F)) (query : List F)
    (mask : Option (List Bool)) (layer : ℕ) where
  -- A node of the layer that the mask lets through, with its distance.
  abbrev pub IsHit : F × ℕ → Type 0
  IsHit s = IsAt floats nodes query layer s × (masked mask s.1 ≡ true)

  -- `once`: a node is in the results at most once, and only if it was visited.
  pub record IsSound (b : Beam F) : Type 0 where
    pub near : All (IsAt floats nodes query layer) b.candidates
    pub hits : All IsHit b.results
    pub once : (i : ℕ) → count_p (λ s. s.1 == i) b.results ≤ (if contains i b.visited then 1 else 0)

  abbrev pub push : ℕ → Beam F → Beam F
  push nb b = record {
    visited = nb ∷ b.visited;
    candidates = b.candidates ++ (distance floats nodes query nb, nb) ∷ [];
    results =
        push_if floats nodes query mask (masked mask nb) (distance floats nodes query nb, nb)
          b.results;
  }

  pub visited : List ℕ → Beam F → Beam F
  visited [] b = b
  visited (nb ∷ nbs) b =
      let seen = visited nbs b in
      let fresh = visited nbs (push nb b) in if contains nb b.visited then seen else fresh

  pub visit_lem :
      (nbs : List ℕ) (b : Beam F)
      → mask_fits mask (length nodes) ≡ true
      → All (λ nb. layer < height nodes nb) nbs
      → visit floats nodes query mask nbs b ≡ returned (visited nbs b)
  unfolding visit visited
  visit_lem [] b fits h = refl
  visit_lem (nb ∷ nbs) b fits h =
      let inside = height_pos nodes nb layer h.0 in
      elim (Bool-cases (contains nb b.visited)) [
        | inl e ↦ rw e (visit_lem nbs b fits h.1)
        | inr e ↦
            rw (e, read-node nodes nb inside, passes_lem mask (length nodes) nb fits inside)
              (visit_lem nbs (push nb b) fits h.1)
      ]

  pub push-IsSound :
      (nb : ℕ) (b : Beam F)
      → layer < height nodes nb
      → contains nb b.visited ≡ false
      → IsSound b
      → IsSound (push nb b)
  push-IsSound nb b h new s = elim (Bool-cases (masked mask nb)) [
    | inl e ↦ rw e (record {
      near = All-append _ b.candidates _ s.near ((h, refl), tt);
      hits = All-append IsHit b.results _ s.hits (((h, refl), e), tt);
      once = λ i. omega (
        arith,
        count-push (λ (t : F × ℕ). t.1 == i) b.results (distance floats nodes query nb, nb),
        once_new nb i _ b.visited new (s.once i),
      );
    })
    | inr e ↦ rw e (record {
      near = All-append _ b.candidates _ s.near ((h, refl), tt);
      hits = s.hits;
      once = λ i. omega (arith, once_new nb i _ b.visited new (s.once i));
    })
  ]

  abbrev pub unvisited : List ℕ → ℕ
  unvisited seen = count_below (length nodes) (λ i. not (contains i seen))

  unvisited_falls :
      (nb : ℕ) (seen : List ℕ)
      → nb < length nodes
      → contains nb seen ≡ false
      → unvisited (nb ∷ seen) < unvisited seen
  unvisited_falls nb seen h new =
      count_below_lt (length nodes) nb (λ i. not (contains i (nb ∷ seen)))
        (λ i. not (contains i seen)) (λ i t. ground arith) h (ground (arith, (==_iff nb nb).1 refl))
        (rw new refl)

  -- The visited nodes that the mask lets through, with their distances.
  abbrev pub scores : List ℕ → List (F × ℕ)
  scores seen = map (λ i. (distance floats nodes query i, i)) (filter (masked mask) seen)

  abbrev pub has : ℕ → List (F × ℕ) → Bool
  has i = any (λ s. s.1 == i)

  pub scores-append : (xs ys : List ℕ) → scores (xs ++ ys) ≡ scores xs ++ scores ys
  scores-append xs ys =
      rw (filter-append (masked mask) xs ys)
        (map-append _ (filter (masked mask) xs) (filter (masked mask) ys))

  pub results-push : (nb : ℕ) (b : Beam F) → (push nb b).results ≡ b.results ++ scores (nb ∷ [])
  results-push nb b = elim (Bool-cases (masked mask nb)) [
    | inl e ↦ rw e refl
    | inr e ↦ rw e (sym (append-nil b.results))
  ]

  -- What a visit of neighbours keeps, what it adds, and what it takes to come to an end.
  pub record IsVisit (nbs : List ℕ) (b b' : Beam F) : Type 0 where
    pub sound : IsSound b'
    pub fewer :
        length b'.candidates + unvisited b'.visited ≤ length b.candidates + unvisited b.visited
    pub fresh : List ℕ
    pub seen_now : b'.visited ≡ fresh ++ b.visited
    pub results_now : Perm b'.results (b.results ++ scores fresh)
    pub kept : (i : ℕ) → has i b.candidates ≡ true → has i b'.candidates ≡ true
    pub added : (i : ℕ) → contains i fresh ≡ true → has i b'.candidates ≡ true
    pub covers : All (λ nb. contains nb b'.visited ≡ true) nbs
    pub inside :
        All (λ i. layer < height nodes i) b.visited → All (λ i. layer < height nodes i) b'.visited

  pub seen_later :
      (nb : ℕ) (nbs : List ℕ) (b b' : Beam F)
      → IsVisit nbs b b'
      → contains nb b.visited ≡ true
      → contains nb b'.visited ≡ true
  seen_later nb nbs b b' v h =
      ap (contains nb) v.seen_now ∙ any-append (λ x. nb == x) v.fresh b.visited ∙ ground arith

  results-fresh :
      (nb : ℕ) (b : Beam F) (fresh : List ℕ)
      → Perm ((push nb b).results ++ scores fresh) (b.results ++ scores (fresh ++ nb ∷ []))
  results-fresh nb b fresh =
      rw
        (
          results-push nb b,
          append_assoc b.results (scores (nb ∷ [])) (scores fresh),
          scores-append fresh (nb ∷ []),
        )
        (Perm.append_left b.results (perm_append_comm (scores (nb ∷ [])) (scores fresh)))

  pub visited-IsVisit :
      (nbs : List ℕ) (b : Beam F)
      → All (λ nb. layer < height nodes nb) nbs
      → IsSound b
      → IsVisit nbs b (visited nbs b)
  unfolding visited
  visited-IsVisit [] b h s = record {
    sound = s;
    fewer = omega arith;
    fresh = [];
    seen_now = refl;
    results_now = rw append-nil Perm.rfl;
    kept = λ i m. m;
    added = λ i m. cc m;
    covers = tt;
    inside = λ all. all;
  }
  visited-IsVisit (nb ∷ nbs) b h s = elim (Bool-cases (contains nb b.visited)) [
    | inl e ↦
        let v = visited-IsVisit nbs b h.1 s in
        rw e (record {
          sound = v.sound;
          fewer = v.fewer;
          fresh = v.fresh;
          seen_now = v.seen_now;
          results_now = v.results_now;
          kept = v.kept;
          added = v.added;
          covers = (seen_later nb nbs b (visited nbs b) v e, v.covers);
          inside = v.inside;
        })
    | inr e ↦
        let v = visited-IsVisit nbs (push nb b) h.1 (push-IsSound nb b h.0 e s) in
        let s0 : List (F × ℕ) = (distance floats nodes query nb, nb) ∷ [] in
        rw e (record {
          sound = v.sound;
          fewer = omega (
            arith,
            v.fewer,
            unvisited_falls nb b.visited (height_pos nodes nb layer h.0) e,
            length-append b.candidates s0,
          );
          fresh = v.fresh ++ nb ∷ [];
          seen_now = v.seen_now ∙ sym (append_assoc v.fresh (nb ∷ []) b.visited);
          results_now = Perm.trans v.results_now (results-fresh nb b v.fresh);
          kept = λ i m. v.kept i (any-append (λ t. t.1 == i) b.candidates s0 ∙ ground arith);
          added = λ i m. elim (Bool-cases (contains i v.fresh)) [
            | inl old ↦ v.added i old
            | inr new ↦
                let here : (i == nb) ≡ true =
                  ground (arith, any-append (λ x. i == x) v.fresh (nb ∷ [])) in
                v.kept i (
                  any-append (λ t. t.1 == i) b.candidates s0
                  ∙ ground (arith, ==_iff i nb, ==_iff nb i))
          ];
          covers =
              (seen_later nb nbs (push nb b) (visited nbs (push nb b)) v (ground arith), v.covers);
          inside = λ all. v.inside (h.0, all);
        })
  ]
