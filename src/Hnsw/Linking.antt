-- ===== src/Hnsw/Linking.antt =====
-- The links of the neighbours that an insertion selects in a layer: `link_all` and its invariant.
use gtvdb.Base.{
  ℕ, suc, ◌+◌, ◌≤◌, ◌<◌, ◌≡◌, refl, ap, ◌∙◌, inl, inr, true, false, ◌&&◌, List, [], ◌∷◌, length,
  length-append, All, All-append, All-imp, ◌==◌, ==_iff, if◌then◌else◌, arith, Bool-cases, if_true,
  if_false, subst,
}
use gtvdb.Flat.{Floats}
use gtvdb.Hnsw.{returned, Node, HnswIndex}
use gtvdb.Hnsw.Insert.{push_link, prune, link_all}
use gtvdb.Hnsw.Layers.{height, links, link_ok, IsLinked}
use gtvdb.Hnsw.Links.{
  SameNodes, SameNodes-refl, SameNodes-trans, IsPut, IsPut-IsLinked, IsPut-trans, push_link_lem,
  prune_lem, same_place,
}

-- How many links a node may have in a layer.
abbrev pub degree_of : {F : Type 0} → HnswIndex F → ℕ → ℕ
degree_of index l = if l == 0 then index.m0 else index.m

module _ {F : Type 0} (degree : ℕ → ℕ) where
  -- Node by node and layer by layer, no more links than the layer allows.
  abbrev pub IsBounded : List (Node F) → Type 0
  IsBounded nodes = (i l : ℕ) → length (links nodes i l) ≤ degree l

  -- Links of layer `l` have come and gone.
  pub record IsWired (l : ℕ) (nodes nodes' : List (Node F)) : Type 0 where
    pub same : SameNodes nodes nodes'
    pub linked : IsLinked nodes'
    pub bounded : IsBounded nodes'
    pub others : (j k : ℕ) → (l == k) ≡ false → links nodes' j k ≡ links nodes j k

  IsPut-IsBounded :
      (i l : ℕ) (xs : List ℕ) (nodes nodes' : List (Node F))
      → IsPut i l xs nodes nodes'
      → length xs ≤ degree l
      → IsBounded nodes
      → IsBounded nodes'
  IsPut-IsBounded i l xs nodes nodes' p few bounded j k = elim (Bool-cases ((i == j) && (l == k))) [
    | inl e ↦
        let at = same_place i j l k e in
        rw (p.now j k, e) (subst (λ n. length xs ≤ degree n) at.1 few)
    | inr e ↦ rw (p.now j k, e) (bounded j k)
  ]

  IsPut-others :
      (i l : ℕ) (xs : List ℕ) (nodes nodes' : List (Node F))
      → IsPut i l xs nodes nodes'
      → (j k : ℕ) → (l == k) ≡ false
      → links nodes' j k ≡ links nodes j k
  IsPut-others i l xs nodes nodes' p j k e =
      p.now j k ∙ if_false xs (links nodes j k) (ground arith)

  IsPut-self :
      (i l : ℕ) (xs : List ℕ) (nodes nodes' : List (Node F))
      → IsPut i l xs nodes nodes'
      → links nodes' i l ≡ xs
  IsPut-self i l xs nodes nodes' p =
      p.now i l ∙ if_true xs (links nodes i l) (ground (arith, ==_iff i i, ==_iff l l))

  module _ (floats : Floats F) (new l : ℕ) where
    record LinkStep (nb : ℕ) (nodes : List (Node F)) : Type 0 where
      pushed_to : List (Node F)
      pushed_back : List (Node F)
      pruned : List (Node F)
      forth : push_link nodes new l nb ≡ returned pushed_to
      back : push_link pushed_to nb l new ≡ returned pushed_back
      cut : prune floats pushed_back nb l (degree l) ≡ returned pruned
      wired : IsWired l nodes pruned
      room : length (links pruned new l) ≡ suc (length (links nodes new l))

    link_step :
        (nb : ℕ) (nodes : List (Node F))
        → IsLinked nodes
        → IsBounded nodes
        → l < height nodes new
        → link_ok nodes new l nb ≡ true
        → length (links nodes new l) < degree l
        → LinkStep nb nodes
    link_step nb nodes linked bounded h ok less =
        let a = push_link_lem nodes new l nb h in
        let linked_a =
          IsPut-IsLinked new l _ nodes a.0 a.2
            (All-append _ (links nodes new l) (nb ∷ []) (linked new l) (ok, tt)) linked in
        let h_b : l < height a.0 nb = rw (a.2.same.heights nb) (ground arith) in
        let ok_back : link_ok a.0 nb l new ≡ true = rw (a.2.same.heights new) (ground arith) in
        let b = push_link_lem a.0 nb l new h_b in
        let linked_b =
          IsPut-IsLinked nb l _ a.0 b.0 b.2
            (All-append _ (links a.0 nb l) (new ∷ []) (linked_a nb l) (ok_back, tt)) linked_a in
        let c = prune_lem floats b.0 nb l (degree l) linked_b (rw (b.2.same.heights nb) h_b) in
        let p = IsPut-trans nb l _ c.0 a.0 b.0 c.1 b.2 c.3 in
        record {
          pushed_to = a.0;
          pushed_back = b.0;
          pruned = c.1;
          forth = a.1;
          back = b.1;
          cut = c.2;
          wired = record {
            same = SameNodes-trans nodes a.0 c.1 a.2.same p.same;
            linked = IsPut-IsLinked nb l c.0 b.0 c.1 c.3 c.4 linked_b;
            bounded = IsPut-IsBounded nb l c.0 a.0 c.1 p c.5 (
                IsPut-IsBounded new l _ nodes a.0 a.2
                  (omega (arith, less, length-append (links nodes new l) (nb ∷ []))) bounded);
            others = λ j k e.
                IsPut-others nb l c.0 a.0 c.1 p j k e ∙ IsPut-others new l _ nodes a.0 a.2 j k e;
          };
          room =
              ap length (
                p.now new l
                ∙ if_false c.0 (links a.0 new l) (ground arith)
                ∙ IsPut-self new l _ nodes a.0 a.2)
              ∙ omega (arith, length-append (links nodes new l) (nb ∷ []));
        }

    pub link_all_lem :
        (selected : List ℕ) (nodes : List (Node F))
        → IsLinked nodes
        → IsBounded nodes
        → l < height nodes new
        → All (λ nb. link_ok nodes new l nb ≡ true) selected
        → length (links nodes new l) + length selected ≤ degree l
        → (nodes' : List (Node F)) × (link_all floats new l (degree l) selected nodes
            ≡ returned nodes')
          × IsWired l nodes nodes'
    unfolding link_all
    link_all_lem [] nodes linked bounded h ok room = (
      nodes,
      refl,
      record {
        same = SameNodes-refl nodes;
        linked = linked;
        bounded = bounded;
        others = λ j k e. refl;
      },
    )
    link_all_lem (nb ∷ selected) nodes linked bounded h ok room =
        let s = link_step nb nodes linked bounded h ok.0 (omega arith) in
        let same = s.wired.same in
        let ih =
          link_all_lem selected s.pruned s.wired.linked s.wired.bounded (rw (same.heights new) h)
            (All-imp {P = λ j. link_ok nodes new l j ≡ true}
              {Q = λ j. link_ok s.pruned new l j ≡ true} (λ j e. rw (same.heights j) e) selected
              ok.1)
            (omega (arith, s.room, room)) in
        (
          ih.0,
          rw (s.forth, s.back, s.cut) ih.1,
          record {
            same = SameNodes-trans nodes s.pruned ih.0 same ih.2.same;
            linked = ih.2.linked;
            bounded = ih.2.bounded;
            others = λ j k e. ih.2.others j k e ∙ s.wired.others j k e;
          },
        )

pub All-both {ℓ κ μ ν} :
    {A : Type ℓ} (P : A → Type κ) (Q : A → Type μ) (R : A → Type ν)
    → ((x : A) → P x → Q x → R x)
    → (xs : List A) → All P xs
    → All Q xs
    → All R xs
All-both P Q R f [] h k = tt
All-both P Q R f (x ∷ xs) h k = (f x h.0 k.0, All-both P Q R f xs h.1 k.1)
