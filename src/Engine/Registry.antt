-- ===== src/Engine/Registry.antt =====
-- gtv-engine/src/context.rs: `GtvContext::register_knn`, with the registry of collections that `knn` reads.
-- `to_string` prints an error of a collection. The lock is held for the insertion.
use Prim.Native.String.{String}
use text.Mathlib.Text.{◌==◌ as str_eq}
use gtvdb.Base.{
  ℕ, ◌≡◌, refl, sym, ap, ◌∙◌, ◌⊎◌, inl, inr, Bool, true, false, Option, none, some, List, [], ◌∷◌,
  if◌then◌else◌, Bool-cases,
}
use gtvdb.Error.{GtvError, ok, err, Result-cases}
use gtvdb.Knn.{KnnCollection, new}
use gtvdb.Snapshot.{get, put}
use gtvdb.Snapshot.Reads.{get-put}
use gtvdb.Engine.{SqlResult, done, failed, execution}
use gtvdb.Engine.Collections.{get_collection}

module _ {F : Type 0} (to_string : GtvError → String) where
  unfoldable pub register_knn :
      String
      → List ℕ
      → List (List F)
      → Option (List String)
      → List (String × KnnCollection F)
      → SqlResult (Unit {0}) × List (String × KnnCollection F)
  register_knn name ids vectors labels collections = elim (new ids vectors labels) [
    | err e ↦ (failed (execution (to_string e)), collections)
    | ok collection ↦ (done tt, put name collection collections)
  ]

  abbrev found_or : Option (KnnCollection F) → SqlResult (KnnCollection F)
  found_or none = failed (execution "knn: unknown collection")
  found_or (some c) = done c

  get_collection_lem :
      (name : String) (collections : List (String × KnnCollection F))
      → get_collection name collections ≡ found_or (get name collections)
  get_collection_lem name [] = refl
  get_collection_lem name ((known, c) ∷ collections) = elim (Bool-cases (str_eq known name)) [
    | inl e ↦ rw e refl
    | inr e ↦ rw e (get_collection_lem name collections)
  ]

  found_or-if :
      (b : Bool) (c : KnnCollection F) (o : Option (KnnCollection F))
      → found_or (if b then some c else o) ≡ (if b then done c else found_or o)
  found_or-if true c o = refl
  found_or-if false c o = refl

  -- Registering ids and vectors that make a collection puts it under its name, in place of an earlier one,
  -- and the function `knn` finds every other name as before. Of others it reports the error, and the
  -- registry stays as it is.
  pub register_knn-get_collection :
      (name other : String) (ids : List ℕ) (vectors : List (List F)) (labels : Option (List String))
      (collections : List (String × KnnCollection F))
      → ((c : KnnCollection F) × (after : List (String × KnnCollection F)) × (new ids vectors labels
            ≡ ok c)
          × (register_knn name ids vectors labels collections ≡ (done tt, after))
          × (get_collection other after
              ≡ (if str_eq name other then done c else get_collection other collections)))
        ⊎ ((e : GtvError) × (new ids vectors labels ≡ err e)
            × (register_knn name ids vectors labels collections
                ≡ (failed (execution (to_string e)), collections)))
  unfolding register_knn
  register_knn-get_collection name other ids vectors labels collections =
      elim (Result-cases (new ids vectors labels)) [
        | inl (c, made) ↦ inl (
          c,
          put name c collections,
          made,
          rw (made, register_knn) refl,
          get_collection_lem other (put name c collections)
              ∙ ap found_or (get-put name other c collections)
              ∙ found_or-if (str_eq name other) c (get other collections)
              ∙ ap (λ r. if str_eq name other then done c else r)
                  (sym (get_collection_lem other collections)),
        )
        | inr (e, refused) ↦ inr (e, refused, rw (refused, register_knn) refl)
      ]
