-- ===== src/Hnsw/Shape.antt =====
-- What a well-formed index is, and the nodes with one more behind them.
use gtvdb.Base.{
  ℕ, zero, suc, ◌≤◌, ◌<◌, ◌≡◌, refl, ap, ap₂, ◌∙◌, inl, inr, true, List, [], ◌∷◌, ◌++◌, map, length,
  replicate, get_or, get_or-replicate, length-replicate, All-imp, ◌==◌, ==_iff, if◌then◌else◌,
  arith, Bool-cases, if_true, if_false,
}
use gtvdb.Hnsw.{Node, HnswIndex}
use gtvdb.Hnsw.Layers.{no_node, height, links, link_ok, IsLinked, height_pos}
use gtvdb.Hnsw.Links.{SameNodes}
use gtvdb.Hnsw.Linking.{degree_of, IsBounded}

get_or-push {ℓ} :
    {A : Type ℓ} (xs : List A) (x : A) (i : ℕ) (d : A)
    → get_or (xs ++ x ∷ []) i d ≡ (if i == length xs then x else get_or xs i d)
get_or-push [] x zero d = refl
get_or-push [] x (suc i) d = ground arith
get_or-push (y ∷ xs) x zero d = ground arith
get_or-push (y ∷ xs) x (suc i) d = ground (arith, get_or-push xs x i d)

map-eq_of_get {ℓ κ} :
    {A : Type ℓ} {B : Type κ} (f : A → B) (xs ys : List A) (d : A)
    → length xs ≡ length ys
    → ((i : ℕ) → f (get_or xs i d) ≡ f (get_or ys i d))
    → map f xs ≡ map f ys
map-eq_of_get f [] [] d size h = refl
map-eq_of_get f [] (y ∷ ys) d size h = absurd (omega arith)
map-eq_of_get f (x ∷ xs) [] d size h = absurd (omega arith)
map-eq_of_get f (x ∷ xs) (y ∷ ys) d size h =
    ap₂ ◌∷◌ (h 0) (map-eq_of_get f xs ys d (omega arith) (λ i. h (suc i)))

module _ {F : Type 0} where
  -- The ids and vectors in the order of their insertion.
  abbrev pub contents : List (Node F) → List (ℕ × List F)
  contents = map (λ (n : Node F). (n.id, n.vector))

  pub SameNodes-contents :
      (nodes nodes' : List (Node F)) → SameNodes nodes nodes' → contents nodes' ≡ contents nodes
  SameNodes-contents nodes nodes' s =
      map-eq_of_get _ nodes' nodes no_node s.size
        (λ i. ap₂ (λ k v. (k, v)) (s.contents i).0 (s.contents i).1)

  -- Links lead to other nodes of the same layer, no node has too many, and the entry is in the top layer.
  pub record IsWellFormed (index : HnswIndex F) : Type 0 where
    pub linked : IsLinked index.nodes
    pub bounded : IsBounded (degree_of index) index.nodes
    pub entered : 0 < length index.nodes → index.max_level < height index.nodes index.entry
    pub some_ef : 1 ≤ index.ef_construction

  module _ (nodes : List (Node F)) (id : ℕ) (vector : List F) (n : ℕ) where
    -- The nodes with a new one of the height `n`.
    abbrev pub grown : List (Node F)
    grown = nodes ++ record { id = id; vector = vector; layers = replicate n [] } ∷ []

    height-grown : (i : ℕ) → height grown i ≡ (if i == length nodes then n else height nodes i)
    height-grown i = elim (Bool-cases (i == length nodes)) [
      | inl e ↦ rw (get_or-push nodes _ i no_node, e) (length-replicate n [])
      | inr e ↦ rw (get_or-push nodes _ i no_node, e) refl
    ]

    links-grown : (i l : ℕ) → links grown i l ≡ (if i == length nodes then [] else links nodes i l)
    links-grown i l = elim (Bool-cases (i == length nodes)) [
      | inl e ↦ rw (get_or-push nodes _ i no_node, e) (get_or-replicate n l [])
      | inr e ↦ rw (get_or-push nodes _ i no_node, e) refl
    ]

    pub height-grown_new : height grown (length nodes) ≡ n
    height-grown_new =
        height-grown (length nodes) ∙ if_true n _ ((==_iff (length nodes) (length nodes)).1 refl)

    pub links-grown_new : (l : ℕ) → links grown (length nodes) l ≡ []
    links-grown_new l =
        links-grown (length nodes) l ∙ if_true [] _ ((==_iff (length nodes) (length nodes)).1 refl)

    pub height-grown_old : (i l : ℕ) → l < height nodes i → height grown i ≡ height nodes i
    height-grown_old i l h =
        height-grown i ∙ if_false n (height nodes i) (ground (arith, height_pos nodes i l h))

    pub grown-IsLinked : IsLinked nodes → IsLinked grown
    grown-IsLinked linked i l = elim (Bool-cases (i == length nodes)) [
      | inl e ↦ rw (links-grown i l, e) tt
      | inr e ↦
          rw (links-grown i l, e)
            (All-imp {P = λ nb. link_ok nodes i l nb ≡ true} {Q = λ nb. link_ok grown i l nb ≡ true}
              (λ nb ok. rw (height-grown_old nb l (ground arith)) ok) (links nodes i l)
              (linked i l))
    ]

    pub grown-IsBounded : (degree : ℕ → ℕ) → IsBounded degree nodes → IsBounded degree grown
    grown-IsBounded degree bounded i l = elim (Bool-cases (i == length nodes)) [
      | inl e ↦ rw (links-grown i l, e) (omega arith)
      | inr e ↦ rw (links-grown i l, e) (bounded i l)
    ]

pub contents-grown :
    {F : Type 0} (nodes : List (Node F)) (id : ℕ) (vector : List F) (n : ℕ)
    → contents (grown nodes id vector n) ≡ contents nodes ++ (id, vector) ∷ []
contents-grown [] id vector n = refl
contents-grown (x ∷ nodes) id vector n =
    ap (◌∷◌ (x.id, x.vector)) (contents-grown nodes id vector n)
