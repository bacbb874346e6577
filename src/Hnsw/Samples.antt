-- ===== src/Hnsw/Samples.antt =====
-- A small index over numbers for floats, that tests use.
use gtvdb.Base.{◌%◌, ◌^◌, ◌<◌, ℕ, suc, ◌+◌, ◌-◌, ◌*◌, refl, [], ◌∷◌, ltb, zero, arith}
use gtvdb.Base.Order.{nat_order}
use gtvdb.Base.Sort.{IsWeakOrder, by_key-IsWeakOrder}
use gtvdb.Flat.{Floats}
use gtvdb.Hnsw.{LevelFloats, random_level, HnswIndex}
use gtvdb.Hnsw.Layers.{IsLinked}
use gtvdb.Hnsw.Shape.{IsWellFormed}
use gtvdb.Hnsw.Linking.{IsBounded, degree_of}

abbrev pub floats : Floats ℕ
floats = record {
  nil = 0;
  add = λ x y. x + y;
  sub = λ x y. (x - y) + (y - x);
  mul = λ x y. x * y;
  lt = ltb;
}

pub weak : IsWeakOrder floats.lt
weak = by_key-IsWeakOrder nat_order (λ x. x)

abbrev pub level_floats : LevelFloats ℕ
level_floats = record {
  cast = λ x. x;
  div = λ x y. x;
  neg = λ x. x;
  ln = λ x. x;
  max_f32 = λ x y. x;
  to_usize = λ x. x % 2;
  tiny = 0;
}

pub shallow : (m rng : ℕ) → suc (random_level floats level_floats m rng).0 < 2 ^ 64
unfolding random_level
shallow m rng = omega arith

-- Three nodes, of which the second is the only one above the bottom layer.
abbrev pub index : HnswIndex ℕ
index = record {
  nodes =
      record { id = 0; vector = 0 ∷ 0 ∷ []; layers = (1 ∷ 2 ∷ []) ∷ [] }
      ∷ record { id = 1; vector = 1 ∷ 1 ∷ []; layers = (0 ∷ 2 ∷ []) ∷ [] ∷ [] }
      ∷ record { id = 2; vector = 5 ∷ 5 ∷ []; layers = (1 ∷ 0 ∷ []) ∷ [] }
      ∷ [];
  entry = 1;
  dim = 2;
  m = 4;
  m0 = 8;
  ef_construction = 20;
  ef_search = 20;
  max_level = 1;
  rng = 0;
}

pub index-IsLinked : IsLinked index.nodes
index-IsLinked zero zero = (refl, (refl, tt))
index-IsLinked zero (suc l) = tt
index-IsLinked (suc zero) zero = (refl, (refl, tt))
index-IsLinked (suc zero) (suc zero) = tt
index-IsLinked (suc zero) (suc (suc l)) = tt
index-IsLinked (suc (suc zero)) zero = (refl, (refl, tt))
index-IsLinked (suc (suc zero)) (suc l) = tt
index-IsLinked (suc (suc (suc i))) l = tt

index-IsBounded : IsBounded (degree_of index) index.nodes
index-IsBounded zero zero = omega arith
index-IsBounded zero (suc l) = omega arith
index-IsBounded (suc zero) zero = omega arith
index-IsBounded (suc zero) (suc zero) = omega arith
index-IsBounded (suc zero) (suc (suc l)) = omega arith
index-IsBounded (suc (suc zero)) zero = omega arith
index-IsBounded (suc (suc zero)) (suc l) = omega arith
index-IsBounded (suc (suc (suc i))) l = omega arith

pub index-IsWellFormed : IsWellFormed index
index-IsWellFormed = record {
  linked = index-IsLinked;
  bounded = index-IsBounded;
  entered = λ h. omega arith;
  some_ef = omega arith;
}
