-- ===== src/Hnsw/Links.antt =====
-- What `push_link` and `prune` do to the links of a node, and that they keep the graph linked.
use gtvdb.Base.{
  ℕ, ◌≤◌, ◌<◌, ◌≡◌, refl, sym, ap, ◌∙◌, inl, inr, Bool, true, false, ◌&&◌, List, [], ◌∷◌, ◌++◌, map,
  length, take, set, get_or-set, length-set, length-map, length-take, All, All-imp, leb, ◌==◌,
  ==_iff, if◌then◌else◌, arith, Bool-cases, if_true, if_false, subst,
}
use gtvdb.Base.Sort.{sort_by, All-sort_by}
use gtvdb.Flat.{Floats, squared_l2, score_lt}
use gtvdb.Knn.Nearest.{All-take}
use gtvdb.Hnsw.{returned, Node}
use gtvdb.Hnsw.Insert.{push_link, score_links, prune}
use gtvdb.Hnsw.Layers.{
  no_node, node_at, height, links, link_ok, IsLinked, height_pos, read-node, read-links,
  links_inside,
}

pub same_place : (i j l k : ℕ) → (i == j) && (l == k) ≡ true → (i ≡ j) × (l ≡ k)
same_place i j l k e = ground (arith, ==_iff i j, ==_iff l k)

module _ {F : Type 0} where
  -- The nodes but for their links.
  pub record SameNodes (nodes nodes' : List (Node F)) : Type 0 where
    pub size : length nodes' ≡ length nodes
    pub heights : (i : ℕ) → height nodes' i ≡ height nodes i
    pub contents :
        (i : ℕ)
        → ((node_at nodes' i).id ≡ (node_at nodes i).id)
          × ((node_at nodes' i).vector ≡ (node_at nodes i).vector)

  pub SameNodes-refl : (nodes : List (Node F)) → SameNodes nodes nodes
  SameNodes-refl nodes = record { size = refl; heights = λ i. refl; contents = λ i. (refl, refl) }

  pub SameNodes-trans : (a b c : List (Node F)) → SameNodes a b → SameNodes b c → SameNodes a c
  SameNodes-trans a b c s t = record {
    size = t.size ∙ s.size;
    heights = λ i. t.heights i ∙ s.heights i;
    contents = λ i. ((t.contents i).0 ∙ (s.contents i).0, (t.contents i).1 ∙ (s.contents i).1);
  }

  -- Node `i` has the links `xs` in layer `l`, and nothing else has changed.
  pub record IsPut (i l : ℕ) (xs : List ℕ) (nodes nodes' : List (Node F)) : Type 0 where
    pub same : SameNodes nodes nodes'
    pub now : (j k : ℕ) → links nodes' j k ≡ (if (i == j) && (l == k) then xs else links nodes j k)

  abbrev put_links : List (Node F) → ℕ → ℕ → List ℕ → List (Node F)
  put_links nodes i l xs =
      let node = node_at nodes i in set nodes i (record node { layers = set node.layers l xs })

  IsPut-same : (nodes : List (Node F)) (i l : ℕ) → IsPut i l (links nodes i l) nodes nodes
  IsPut-same nodes i l = record {
    same = SameNodes-refl nodes;
    now = λ j k. elim (Bool-cases ((i == j) && (l == k))) [
      | inl e ↦
          let at = same_place i j l k e in
          ap (λ n. links nodes n k) (sym at.0)
          ∙ ap (λ n. links nodes i n) (sym at.1)
          ∙ sym (if_true _ _ e)
      | inr e ↦ sym (if_false _ _ e)
    ];
  }

  node_at-put_links :
      (nodes : List (Node F)) (i l : ℕ) (xs : List ℕ) (j : ℕ)
      → i < length nodes
      → node_at (put_links nodes i l xs) j ≡ (
          if i == j
          then record (node_at nodes j) { layers = set (node_at nodes j).layers l xs }
          else node_at nodes j)
  node_at-put_links nodes i l xs j h = elim (Bool-cases (i == j)) [
    | inl e ↦
        get_or-set nodes i j _ no_node h
        ∙ if_true _ _ e
        ∙ ap (λ k. record (node_at nodes k) { layers = set (node_at nodes k).layers l xs })
            ((==_iff i j).0 e)
        ∙ sym (if_true _ _ e)
    | inr e ↦ get_or-set nodes i j _ no_node h ∙ if_false _ _ e ∙ sym (if_false _ _ e)
  ]

  put_links-IsPut :
      (nodes : List (Node F)) (i l : ℕ) (xs : List ℕ)
      → l < height nodes i
      → IsPut i l xs nodes (put_links nodes i l xs)
  put_links-IsPut nodes i l xs h =
      let inside = height_pos nodes i l h in
      record {
        same = record {
          size = length-set nodes i _;
          heights = λ j. elim (Bool-cases (i == j)) [
            | inl e ↦
                rw (node_at-put_links nodes i l xs j inside, e)
                  (length-set (node_at nodes j).layers l xs)
            | inr e ↦ rw (node_at-put_links nodes i l xs j inside, e) refl
          ];
          contents = λ j. elim (Bool-cases (i == j)) [
            | inl e ↦ rw (node_at-put_links nodes i l xs j inside, e) (refl, refl)
            | inr e ↦ rw (node_at-put_links nodes i l xs j inside, e) (refl, refl)
          ];
        };
        now = λ j k. elim (Bool-cases (i == j)) [
          | inl e ↦
              rw (node_at-put_links nodes i l xs j inside, e)
                (get_or-set (node_at nodes j).layers l k xs [] (rw (← (==_iff i j).0 e) h))
          | inr e ↦ rw (node_at-put_links nodes i l xs j inside, e) refl
        ];
      }

  pub push_link_lem :
      (nodes : List (Node F)) (i l nb : ℕ)
      → l < height nodes i
      → (nodes' : List (Node F)) × (push_link nodes i l nb ≡ returned nodes')
        × IsPut i l (links nodes i l ++ nb ∷ []) nodes nodes'
  unfolding push_link
  push_link_lem nodes i l nb h = (
    put_links nodes i l (links nodes i l ++ nb ∷ []),
    rw (read-node nodes i (height_pos nodes i l h), read-links nodes i l h) refl,
    put_links-IsPut nodes i l _ h,
  )

  pub IsPut-IsLinked :
      (i l : ℕ) (xs : List ℕ) (nodes nodes' : List (Node F))
      → IsPut i l xs nodes nodes'
      → All (λ nb. link_ok nodes i l nb ≡ true) xs
      → IsLinked nodes
      → IsLinked nodes'
  IsPut-IsLinked i l xs nodes nodes' p ok linked j k =
      All-imp {P = λ nb. link_ok nodes j k nb ≡ true} {Q = λ nb. link_ok nodes' j k nb ≡ true}
        (λ nb h. rw (p.same.heights nb) h) (links nodes' j k) old
    where
      moved :
          (b : Bool)
          → (i == j) && (l == k) ≡ b
          → All (λ nb. link_ok nodes j k nb ≡ true) (if b then xs else links nodes j k)
      moved false e = linked j k
      moved true e =
          let at = same_place i j l k e in
          subst (λ n. All (λ nb. link_ok nodes n k nb ≡ true) xs) at.0
            (subst (λ n. All (λ nb. link_ok nodes i n nb ≡ true) xs) at.1 ok)

      old : All (λ nb. link_ok nodes j k nb ≡ true) (links nodes' j k)
      old = rw (p.now j k) (moved ((i == j) && (l == k)) refl)

  pub IsPut-trans :
      (i l : ℕ) (xs ys : List ℕ) (a b c : List (Node F))
      → IsPut i l xs a b
      → IsPut i l ys b c
      → IsPut i l ys a c
  IsPut-trans i l xs ys a b c p q = record {
    same = SameNodes-trans a b c p.same q.same;
    now = λ j k. elim (Bool-cases ((i == j) && (l == k))) [
      | inl e ↦ q.now j k ∙ if_true _ _ e ∙ sym (if_true _ _ e)
      | inr e ↦ q.now j k ∙ if_false _ _ e ∙ p.now j k ∙ if_false _ _ e ∙ sym (if_false _ _ e)
    ];
  }

module _ {F : Type 0} where
  pub All-map_nodes :
      (P : ℕ → Type 0) (scores : List (F × ℕ))
      → All (λ s. P s.1) scores
      → All P (map (λ s. s.1) scores)
  All-map_nodes P [] h = tt
  All-map_nodes P (s ∷ scores) h = (h.0, All-map_nodes P scores h.1)

module _ {F : Type 0} (floats : Floats F) where
  score_links_lem :
      (nodes : List (Node F)) (target : List F) (l : ℕ) (nbs : List ℕ)
      → All (λ nb. l < height nodes nb) nbs
      → score_links floats nodes target nbs
        ≡ returned (map (λ nb. (squared_l2 floats target (node_at nodes nb).vector, nb)) nbs)
  unfolding score_links
  score_links_lem nodes target l [] h = refl
  score_links_lem nodes target l (nb ∷ nbs) h =
      rw (read-node nodes nb (height_pos nodes nb l h.0), score_links_lem nodes target l nbs h.1)
        refl

  All-map_scores :
      (P : ℕ → Type 0) (f : ℕ → F) (xs : List ℕ)
      → All P xs
      → All {A = F × ℕ} (λ s. P s.1) (map (λ nb. (f nb, nb)) xs)
  All-map_scores P f [] h = tt
  All-map_scores P f (x ∷ xs) h = (h.0, All-map_scores P f xs h.1)

  -- Pruning keeps some of the links, at most as many as allowed, and touches no other node.
  pub prune_lem :
      (nodes : List (Node F)) (i l max_deg : ℕ)
      → IsLinked nodes
      → l < height nodes i
      → (xs : List ℕ) × (nodes' : List (Node F)) × (prune floats nodes i l max_deg
          ≡ returned nodes')
        × IsPut i l xs nodes nodes'
        × All (λ nb. link_ok nodes i l nb ≡ true) xs
        × (length xs ≤ max_deg)
  unfolding prune
  prune_lem nodes i l max_deg linked h =
      let old = links nodes i l in
      let inside = height_pos nodes i l h in
      elim (Bool-cases (leb (length old) max_deg)) [
        | inl e ↦ (
          old,
          nodes,
          rw (read-node nodes i inside, read-links nodes i l h, e) refl,
          IsPut-same nodes i l,
          linked i l,
          ground arith,
        )
        | inr e ↦
            let target = (node_at nodes i).vector in
            let dist : ℕ → F = λ nb. squared_l2 floats target (node_at nodes nb).vector in
            let lt = score_lt floats in
            let scores : List (F × ℕ) = map (λ nb. (dist nb, nb)) old in
            let sorted = sort_by lt scores in
            let ok : F × ℕ → Type 0 = λ s. link_ok nodes i l s.1 ≡ true in
            let xs = map (λ s. s.1) (take max_deg sorted) in
            (
              xs,
              put_links nodes i l xs,
              rw
                  (
                    read-node nodes i inside,
                    read-links nodes i l h,
                    e,
                    score_links_lem nodes target l old (links_inside nodes linked i l),
                  )
                  refl,
              put_links-IsPut nodes i l xs h,
              All-map_nodes (λ nb. link_ok nodes i l nb ≡ true) (take max_deg sorted)
                  (All-take lt ok max_deg sorted (
                    All-sort_by lt ok scores
                      (All-map_scores (λ nb. link_ok nodes i l nb ≡ true) dist old (linked i l)))),
              omega (
                arith,
                length-map (λ (s : F × ℕ). s.1) (take max_deg sorted),
                length-take max_deg sorted,
              ),
            )
      ]
