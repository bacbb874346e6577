-- ===== src/Hnsw/Layers.antt =====
-- The layered graph of the nodes as a whole: heights, links, and what keeps every read in range.
use gtvdb.Base.{
  ℕ, zero, suc, ◌+◌, ◌≤◌, ◌<◌, ◌≡◌, refl, Bool, true, false, not, ◌&&◌, List, [], ◌∷◌, length,
  get_or, All, All-imp, get_elem?-in, ltb, ◌==◌, if◌then◌else◌, arith, Bool-cases, inl, inr,
}
use gtvdb.Hnsw.{Node, returned, read}

-- How many numbers below `n` pass a test.
abbrev pub count_below : ℕ → (ℕ → Bool) → ℕ
count_below zero p = 0
count_below (suc n) p = (if p n then 1 else 0) + count_below n p

pub count_below-le : (n : ℕ) (p : ℕ → Bool) → count_below n p ≤ n
count_below-le zero p = omega arith
count_below-le (suc n) p = ground (arith, count_below-le n p)

pub count_below_imp :
    (n : ℕ) (p q : ℕ → Bool)
    → ((i : ℕ) → p i ≡ true → q i ≡ true)
    → count_below n p ≤ count_below n q
count_below_imp zero p q h = omega arith
count_below_imp (suc n) p q h = ground (arith, h n, count_below_imp n p q h)

-- A test that passes less, and not at `j`.
pub count_below_lt :
    (n j : ℕ) (p q : ℕ → Bool)
    → ((i : ℕ) → p i ≡ true → q i ≡ true)
    → j < n
    → p j ≡ false
    → q j ≡ true
    → count_below n p < count_below n q
count_below_lt zero j p q h lt f t = elim lt [ ]
count_below_lt (suc n) j p q h lt f t = elim (Bool-cases (j == n)) [
  | inl e ↦
      let same : j ≡ n = ground arith in
      let f' : p n ≡ false = rw (← same) f in
      let t' : q n ≡ true = rw (← same) t in rw (f', t') (omega (arith, count_below_imp n p q h))
  | inr e ↦ ground (arith, h n, count_below_lt n j p q h (ground arith) f t)
]

module _ {F : Type 0} where
  abbrev pub no_node : Node F
  no_node = record { id = 0; vector = []; layers = [] }

  abbrev pub node_at : List (Node F) → ℕ → Node F
  node_at nodes i = get_or nodes i no_node

  -- How many layers a node is in.
  abbrev pub height : List (Node F) → ℕ → ℕ
  height nodes i = length (node_at nodes i).layers

  abbrev pub links : List (Node F) → ℕ → ℕ → List ℕ
  links nodes i l = get_or (node_at nodes i).layers l []

  -- A link leads to another node that is in the layer too.
  abbrev pub link_ok : List (Node F) → ℕ → ℕ → ℕ → Bool
  link_ok nodes i l nb = ltb l (height nodes nb) && not (nb == i)

  abbrev pub IsLinked : List (Node F) → Type 0
  IsLinked nodes = (i l : ℕ) → All (λ nb. link_ok nodes i l nb ≡ true) (links nodes i l)

  pub height_pos : (nodes : List (Node F)) (i l : ℕ) → l < height nodes i → i < length nodes
  height_pos [] i l h = elim h [ ]
  height_pos (n ∷ nodes) zero l h = omega arith
  height_pos (n ∷ nodes) (suc i) l h = omega (arith, height_pos nodes i l h)

  pub read-node :
      (nodes : List (Node F)) (i : ℕ) → i < length nodes → read nodes i ≡ returned (node_at nodes i)
  read-node nodes i h = rw (get_elem?-in nodes i no_node h) refl

  pub read-links :
      (nodes : List (Node F)) (i l : ℕ)
      → l < height nodes i
      → read (node_at nodes i).layers l ≡ returned (links nodes i l)
  read-links nodes i l h = rw (get_elem?-in (node_at nodes i).layers l [] h) refl

  pub links_inside :
      (nodes : List (Node F))
      → IsLinked nodes
      → (i l : ℕ) → All (λ nb. l < height nodes nb) (links nodes i l)
  links_inside nodes linked i l = All-imp (λ nb h. ground arith) (links nodes i l) (linked i l)
