-- ===== src/Window/Tests.antt =====
-- Moving sums and differences of a short series.
use gtvdb.Base.{ℕ, ◌%◌, ◌^◌, ◌<◌, ◌≡◌, refl, some, List, [], ◌∷◌, get_or, All, arith}
use gtvdb.Window.{msum_i64, deltas_i64}
use gtvdb.Window.Sums.{sum, window, msum_i64_correct}
use gtvdb.Window.Deltas.{running_sum, deltas_i64_roundtrip}

abbrev values : List ℕ
values = 1 ∷ 2 ∷ 3 ∷ 4 ∷ []

abbrev sums : List ℕ
sums = 1 ∷ 3 ∷ 5 ∷ 7 ∷ []

sums_of_two : msum_i64 values 2 ≡ some sums
unfolding msum_i64
sums_of_two = refl

words : All (λ x. x < 2 ^ 64) values
words = (omega arith, (omega arith, (omega arith, (omega arith, tt))))

msum_i64_correct_example : get_or sums 2 0 ≡ sum (window values 2 2) % 2 ^ 64
msum_i64_correct_example = msum_i64_correct values sums 2 2 words sums_of_two (omega arith)

deltas_i64_roundtrip_example : running_sum 0 (deltas_i64 values) ≡ values
deltas_i64_roundtrip_example = deltas_i64_roundtrip values words
