-- ===== src/Asof/Tests.antt =====
-- Runs of the join, and its properties at them.
use Prim.Native.Nat.{ℕ}
use gtvdb.Base.{◌≡◌, refl, none, some, List, [], ◌∷◌, map}
use gtvdb.Base.Int.{ℤ, pos}
use gtvdb.Base.Sort.{stable_sort, sort_by}
use gtvdb.Asof.{asof_join_sorted, asof_join}
use gtvdb.Asof.Merge.{as_of, asof_join_sorted_correct}
use gtvdb.Asof.Restore.{asof_join_correct}

abbrev times : List ℤ
times = pos 0 ∷ pos 10 ∷ pos 20 ∷ pos 30 ∷ []

abbrev values : List ℕ
values = 1 ∷ 2 ∷ 3 ∷ 4 ∷ []

asof_basic :
    asof_join_sorted (pos 5 ∷ pos 10 ∷ pos 15 ∷ pos 25 ∷ pos 40 ∷ []) times values
    ≡ some (some 1 ∷ some 2 ∷ some 2 ∷ some 3 ∷ some 4 ∷ [])
unfolding asof_join_sorted
asof_basic = refl

asof_unsorted_left :
    asof_join stable_sort (pos 25 ∷ pos 5 ∷ pos 40 ∷ pos 10 ∷ pos 15 ∷ []) times values
    ≡ some (some 3 ∷ some 1 ∷ some 4 ∷ some 2 ∷ some 2 ∷ [])
unfolding asof_join sort_by
asof_unsorted_left = refl

asof_join_sorted_correct_example :
    asof_join_sorted (pos 5 ∷ pos 10 ∷ []) times values
    ≡ some (map (λ t. as_of t times values none) (pos 5 ∷ pos 10 ∷ []))
asof_join_sorted_correct_example =
    asof_join_sorted_correct (pos 5 ∷ pos 10 ∷ []) times values refl ((refl, tt), (tt, tt))
      ((refl, (refl, (refl, tt))), ((refl, (refl, tt)), ((refl, tt), (tt, tt))))

asof_join_correct_example :
    asof_join stable_sort (pos 25 ∷ pos 5 ∷ []) times values
    ≡ some (map (λ t. as_of t times values none) (pos 25 ∷ pos 5 ∷ []))
asof_join_correct_example =
    asof_join_correct stable_sort (pos 25 ∷ pos 5 ∷ []) times values
      ((refl, (refl, (refl, tt))), ((refl, (refl, tt)), ((refl, tt), (tt, tt)))) refl
