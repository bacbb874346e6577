-- ===== src/Pattern/Tests.antt =====
-- A search on a chain of three nodes, and the properties of the search at it.
use gtvdb.Base.{arith, ◌≤◌, ◌≡◌, refl, none, some, List, [], ◌∷◌, length, take, All}
use gtvdb.Base.Int.{pos}
use gtvdb.Error.{ok}
use gtvdb.Csr.{TemporalCsr, neighbors}
use gtvdb.Pattern.{
  Pattern, Match, temporal_path, ring, find_from, find, new_state, event_orders_satisfied, to_match,
}
use gtvdb.Pattern.Matches.{IsWellFormed, IsMatch}
use gtvdb.Pattern.Soundness.{IsMatchFrom, find_from_sound, find_sound}
use gtvdb.Pattern.Enumeration.{matches_from, all_matches, find_complete}
use gtvdb.Pattern.Shapes.{temporal_path-IsWellFormed}

-- 0 → 1 from 1 on and 1 → 2 from 2 on.
abbrev csr : TemporalCsr
csr = record {
  node_count = 3;
  offsets = 0 ∷ 1 ∷ 2 ∷ 2 ∷ [];
  dst = 1 ∷ 2 ∷ [];
  valid_from = pos 1 ∷ pos 2 ∷ [];
  valid_to = pos 9 ∷ pos 9 ∷ [];
  edge_type = 7 ∷ 7 ∷ [];
}

abbrev path : Pattern
path = record {
  num_vars = 3;
  edges =
      record { from = 0; to = 1; edge_type = none }
      ∷ record { from = 1; to = 2; edge_type = none }
      ∷ [];
  event_orders = record { before = 0; after = 1 } ∷ [];
}

is_path : temporal_path 2 ≡ some path
unfolding temporal_path
is_path = refl

abbrev one_match : List Match
one_match =
    record {
      nodes = 0 ∷ 1 ∷ 2 ∷ [];
      edges =
          record { src = 0; dst = 1; edge_type = 7; valid_from = pos 1; valid_to = pos 9 }
          ∷ record { src = 1; dst = 2; edge_type = 7; valid_from = pos 2; valid_to = pos 9 }
          ∷ [];
    }
    ∷ []

from_zero : find_from csr path 0 (pos 5) 10 ≡ ok one_match
unfolding find_from neighbors
from_zero = refl

from_any : find csr path (pos 5) 10 ≡ ok one_match
unfolding find neighbors
from_any = refl

find_from_sound_example : All (IsMatch csr path (pos 5) 0) one_match × (length one_match ≤ 10)
find_from_sound_example =
    find_from_sound csr path (pos 5) 0 10 (temporal_path-IsWellFormed 2 path is_path) refl one_match
      from_zero

find_sound_example : All (IsMatchFrom csr path (pos 5)) one_match × (length one_match ≤ 10)
find_sound_example =
    find_sound csr path (pos 5) 10 (temporal_path-IsWellFormed 2 path is_path) (omega arith)
      one_match from_any

listed : matches_from csr path (pos 5) 0 ≡ ok one_match
unfolding neighbors new_state event_orders_satisfied to_match
listed = refl

all_listed : all_matches csr path (pos 5) 0 3 ≡ ok one_match
unfolding neighbors new_state event_orders_satisfied to_match
all_listed = refl

find_complete_example :
    (find_from csr path 0 (pos 5) 1 ≡ ok (take 1 one_match))
    × (find csr path (pos 5) 1 ≡ ok (take 1 one_match))
find_complete_example = find_complete csr path (pos 5) 1 0 one_match one_match listed all_listed

temporal_path-IsWellFormed_example : IsWellFormed path
temporal_path-IsWellFormed_example = temporal_path-IsWellFormed 2 path is_path

abbrev two_ring : Pattern
two_ring = record {
  num_vars = 2;
  edges =
      record { from = 0; to = 1; edge_type = none }
      ∷ record { from = 1; to = 0; edge_type = none }
      ∷ [];
  event_orders = record { before = 0; after = 1 } ∷ [];
}

is_ring : ring 2 ≡ some two_ring
unfolding ring
is_ring = refl
