-- ===== src/Snapshot/Tests.antt =====
-- Runs of the time-travel store, and its properties at them. A batch is a number here, and all
-- batches have one schema.
use Prim.Native.Nat.{ℕ}
use gtvdb.Base.{◌≡◌, ◌≢◌, refl, Bool, true, [], ◌∷◌}
use gtvdb.Base.Int.{pos}
use gtvdb.Snapshot.{ok, to_option, SnapshotStore, insert, as_of}
use gtvdb.Snapshot.Reads.{IsValid}
use gtvdb.Snapshot.TimeTravel.{after_insert, insert_then_read, insert-IsValid}

abbrev schema_of : ℕ → ℕ
schema_of _ = 0

abbrev same_schema : ℕ → ℕ → Bool
same_schema _ _ = true

abbrev empty : SnapshotStore ℕ ℕ
empty = []

empty-IsValid : IsValid empty
empty-IsValid table = tt

abbrev store : SnapshotStore ℕ ℕ
store = (insert schema_of same_schema "t" (pos 3) (9 ∷ []) empty).1

store-IsValid : IsValid store
store-IsValid = insert-IsValid schema_of same_schema "t" (pos 3) (9 ∷ []) empty empty-IsValid

accepted : (insert schema_of same_schema "t" (pos 5) (1 ∷ []) store).0 ≡ ok tt
unfolding insert
accepted = refl

insert_then_read_example :
    to_option (as_of "t" (pos 7) (insert schema_of same_schema "t" (pos 5) (1 ∷ []) store).1)
    ≡ after_insert "t" (pos 5) (1 ∷ []) store "t" (pos 7)
insert_then_read_example =
    insert_then_read schema_of same_schema "t" (pos 5) (1 ∷ []) store "t" (pos 7) store-IsValid
      accepted

refused : (insert schema_of same_schema "t" (pos 5) [] store).0 ≢ ok tt
unfolding insert
refused h = cc

insert-IsValid_example : IsValid (insert schema_of same_schema "t" (pos 5) (1 ∷ []) store).1
insert-IsValid_example =
    insert-IsValid schema_of same_schema "t" (pos 5) (1 ∷ []) store store-IsValid
