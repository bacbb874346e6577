-- ===== src/Hnsw/Descent.antt =====
-- The greedy descent ends, at a node that none of its neighbours is closer than.
use gtvdb.Base.{
  ℕ, zero, suc, ◌+◌, ◌≤◌, ◌<◌, ◌≡◌, refl, sym, ap, ◌∙◌, ◌⊎◌, inl, inr, Bool, true, false, List, [],
  ◌∷◌, length, All, ◌==◌, ==_iff, if◌then◌else◌, arith, Bool-cases, subst, if_true, if_false,
}
use gtvdb.Base.Sort.{IsWeakOrder}
use gtvdb.Flat.{Floats, squared_l2}
use gtvdb.Hnsw.{returned, Node}
use gtvdb.Hnsw.Search.{closer, descend_loop, greedy_descend, descend_layers}
use gtvdb.Hnsw.Layers.{
  count_below, count_below-le, count_below_lt, node_at, height, links, IsLinked, height_pos,
  read-node, read-links, links_inside,
}

module _ {ℓ} {A : Type ℓ} {lt : A → A → Bool} (weak : IsWeakOrder lt) where
  pub irrefl : (a : A) → lt a a ≡ false
  irrefl a = elim (Bool-cases (lt a a)) [ inl e ↦ weak.asymm a a e | inr e ↦ e ]

  pub lt_trans : (a b c : A) → lt a b ≡ true → lt b c ≡ true → lt a c ≡ true
  lt_trans a b c h k = elim (Bool-cases (lt a c)) [
    | inl e ↦ e
    | inr e ↦ ground (arith, weak.asymm b c k, weak.trans b c a)
  ]

module _ {F : Type 0} (floats : Floats F) (nodes : List (Node F)) (query : List F) where
  abbrev pub distance : ℕ → F
  distance i = squared_l2 floats query (node_at nodes i).vector

  -- A node of the layer, with its distance.
  abbrev pub IsAt : ℕ → F × ℕ → Type 0
  IsAt layer s = (layer < height nodes s.1) × (s.0 ≡ distance s.1)

  closest : List ℕ → F × ℕ → F × ℕ
  closest [] best = best
  closest (nb ∷ nbs) best =
      closest nbs (if floats.lt (distance nb) best.0 then (distance nb, nb) else best)

  closer_lem :
      (layer : ℕ) (nbs : List ℕ) (best : F × ℕ)
      → All (λ nb. layer < height nodes nb) nbs
      → closer floats nodes query nbs best ≡ returned (closest nbs best)
  unfolding closer closest
  closer_lem layer [] best h = refl
  closer_lem layer (nb ∷ nbs) best h =
      rw (read-node nodes nb (height_pos nodes nb layer h.0)) (closer_lem layer nbs _ h.1)

  abbrev Nearer : F × ℕ → F × ℕ → Type 0
  Nearer best' best = (best' ≡ best) ⊎ (floats.lt best'.0 best.0 ≡ true)

  record IsClosest (layer : ℕ) (nbs : List ℕ) (best best' : F × ℕ) : Type 0 where
    at : IsAt layer best'
    nearer : Nearer best' best
    least : All (λ nb. floats.lt (distance nb) best'.0 ≡ false) nbs

  -- Where a descent from `start` ends.
  pub record IsDescent (layer : ℕ) (start best : F × ℕ) : Type 0 where
    pub at : IsAt layer best
    pub nearer : floats.lt start.0 best.0 ≡ false
    pub settled : All (λ nb. floats.lt (distance nb) best.0 ≡ false) (links nodes best.1 layer)

  module _ (weak : IsWeakOrder floats.lt) where
    Nearer-lt : (x y z : F × ℕ) → Nearer x y → floats.lt y.0 z.0 ≡ true → floats.lt x.0 z.0 ≡ true
    Nearer-lt x y z (inl e) h = rw e h
    Nearer-lt x y z (inr lt) h = lt_trans weak x.0 y.0 z.0 lt h

    -- What is not closer than the farther one is not closer than the nearer.
    lt-Nearer :
        (d : F) (x y : F × ℕ) → Nearer x y → floats.lt d y.0 ≡ false → floats.lt d x.0 ≡ false
    lt-Nearer d x y (inl e) h = rw e h
    lt-Nearer d x y (inr lt) h = weak.trans x.0 y.0 d (weak.asymm x.0 y.0 lt) h

    lt-Nearer-false : (x y : F × ℕ) → Nearer x y → floats.lt y.0 x.0 ≡ false
    lt-Nearer-false x y near = lt-Nearer y.0 x y near (irrefl weak y.0)

    closest-IsClosest :
        (layer : ℕ) (nbs : List ℕ) (best : F × ℕ)
        → IsAt layer best
        → All (λ nb. layer < height nodes nb) nbs
        → IsClosest layer nbs best (closest nbs best)
    unfolding closest
    closest-IsClosest layer [] best at h = record { at = at; nearer = inl refl; least = tt }
    closest-IsClosest layer (nb ∷ nbs) best at h =
        elim (Bool-cases (floats.lt (distance nb) best.0)) [
          | inl e ↦
              let next : F × ℕ = (distance nb, nb) in
              let c = closest-IsClosest layer nbs next (h.0, refl) h.1 in
              rw e (record {
                at = c.at;
                nearer = inr (Nearer-lt (closest nbs next) next best c.nearer e);
                least = (
                  lt-Nearer (distance nb) (closest nbs next) next c.nearer
                      (irrefl weak (distance nb)),
                  c.least,
                );
              })
          | inr e ↦
              let c = closest-IsClosest layer nbs best at h.1 in
              rw e (record {
                at = c.at;
                nearer = c.nearer;
                least = (lt-Nearer (distance nb) (closest nbs best) best c.nearer e, c.least);
              })
        ]

    -- How many nodes are closer than `d`.
    abbrev closer_than : F → ℕ
    closer_than d = count_below (length nodes) (λ i. floats.lt (distance i) d)

    closer_than-lt :
        (layer : ℕ) (best : F × ℕ) (d : F)
        → IsAt layer best
        → floats.lt best.0 d ≡ true
        → closer_than best.0 < closer_than d
    closer_than-lt layer best d at h =
        count_below_lt (length nodes) best.1 (λ i. floats.lt (distance i) best.0)
          (λ i. floats.lt (distance i) d) (λ i near. lt_trans weak (distance i) best.0 d near h)
          (height_pos nodes best.1 layer at.0) (rw at.1 (irrefl weak (distance best.1)))
          (rw (← at.1) h)

    closer_than_few : (i : ℕ) → i < length nodes → closer_than (distance i) < length nodes
    closer_than_few i h = omega (
      arith,
      count_below_lt (length nodes) i (λ j. floats.lt (distance j) (distance i)) (λ j. true)
          (λ j t. refl) h (irrefl weak (distance i)) refl,
      count_below-le (length nodes) (λ j. true),
    )

    descend_round :
        IsLinked nodes
        → (layer fuel cur : ℕ) (cur_d : F) → layer < height nodes cur
        → descend_loop floats nodes query (suc fuel) layer cur_d cur ≡ (
            let best = closest (links nodes cur layer) (cur_d, cur) in
            if best.1 == cur
            then returned best
            else descend_loop floats nodes query fuel layer best.0 best.1)
    unfolding descend_loop
    descend_round linked layer fuel cur cur_d h =
        rw
          (
            read-node nodes cur (height_pos nodes cur layer h),
            read-links nodes cur layer h,
            closer_lem layer (links nodes cur layer) (cur_d, cur)
                (links_inside nodes linked cur layer),
          )
          refl

    pub descend_loop_lem :
        IsLinked nodes
        → (layer fuel cur : ℕ) (cur_d : F) → IsAt layer (cur_d, cur)
        → closer_than cur_d < fuel
        → (best : F × ℕ) × (descend_loop floats nodes query fuel layer cur_d cur ≡ returned best)
          × IsDescent layer (cur_d, cur) best
    descend_loop_lem linked layer zero cur cur_d at h = elim h [ ]
    descend_loop_lem linked layer (suc fuel) cur cur_d at h =
        let best = closest (links nodes cur layer) (cur_d, cur) in
        let c =
          closest-IsClosest layer (links nodes cur layer) (cur_d, cur) at
            (links_inside nodes linked cur layer) in
        let round = descend_round linked layer fuel cur cur_d at.0 in
        elim (Bool-cases (best.1 == cur)) [
          | inl e ↦ (
            best,
            round ∙ if_true _ _ e,
            record {
              at = c.at;
              nearer = lt-Nearer-false best (cur_d, cur) c.nearer;
              settled =
                  subst
                    (λ i. All (λ nb. floats.lt (distance nb) best.0 ≡ false) (links nodes i layer))
                    (sym ((==_iff best.1 cur).0 e)) c.least;
            },
          )
          | inr e ↦ elim c.nearer [
            | inl same ↦ absurd (ground (arith, ap (λ (s : F × ℕ). s.1) same))
            | inr lt ↦
                let ih =
                  descend_loop_lem linked layer fuel best.1 best.0 c.at
                    (omega (arith, closer_than-lt layer best cur_d c.at lt)) in
                (
                  ih.0,
                  round ∙ if_false _ _ e ∙ ih.1,
                  record {
                    at = ih.2.at;
                    nearer =
                        weak.trans ih.0.0 best.0 cur_d ih.2.nearer (weak.asymm best.0 cur_d lt);
                    settled = ih.2.settled;
                  },
                )
          ]
        ]

    -- On nodes whose links lead to nodes of the same layer, and with weakly ordered numbers, the greedy
    -- descent from a node of the layer ends: at a node of the layer, with its distance, that is not
    -- farther than the start and that none of its neighbours is closer than.
    pub greedy_descend_settles :
        IsLinked nodes
        → (cur layer : ℕ) → layer < height nodes cur
        → (best : F × ℕ) × (greedy_descend floats nodes query cur layer ≡ returned best)
          × IsDescent layer (distance cur, cur) best
    unfolding greedy_descend
    greedy_descend_settles linked cur layer h =
        let inside = height_pos nodes cur layer h in
        let found =
          descend_loop_lem linked layer (length nodes) cur (distance cur) (h, refl)
            (closer_than_few cur inside) in
        (found.0, rw (read-node nodes cur inside) found.1, found.2)

    -- The start is in the layers `low..low + rounds`, and the end in those below `low`.
    pub descend_layers_lem :
        IsLinked nodes
        → (rounds low : ℕ) (start : F × ℕ) → start.0 ≡ distance start.1
        → low + rounds ≤ height nodes start.1
        → (best : F × ℕ) × (descend_layers floats nodes query rounds low start ≡ returned best)
          × (best.0 ≡ distance best.1)
          × (low ≤ height nodes best.1)
    unfolding descend_layers
    descend_layers_lem linked zero low start e h = (start, refl, e, omega arith)
    descend_layers_lem linked (suc rounds) low start e h =
        let first = greedy_descend_settles linked start.1 (low + rounds) (omega arith) in
        let inside : low + rounds < height nodes first.0.1 = first.2.at.0 in
        let ih =
          descend_layers_lem linked rounds low first.0 first.2.at.1 (omega (arith, inside)) in
        (ih.0, rw first.1 ih.1, ih.2, ih.3)
