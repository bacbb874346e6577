-- ===== src/Delta/Tests.antt =====
-- Runs of the buffer, and its properties at them.
use gtvdb.Base.{◌≡◌, refl, not, ◌&&◌, ◌||◌, List, [], ◌∷◌, Perm}
use gtvdb.Base.Int.{pos}
use gtvdb.Base.Sort.{IsSorted, stable_sort}
use gtvdb.Base.OrderedSet.{IsAscending}
use gtvdb.Error.{ok}
use gtvdb.Table.{EdgeTable}
use gtvdb.Delta.{
  DeltaEdge, DeltaBuffer, new_buffer, edge_order, insert, delete, edges_of, canonical_lt, apply,
}
use gtvdb.Delta.Apply.{contains, same}
use gtvdb.Delta.View.{view, operations-view, IsValid, operations-IsValid, apply_correct}

abbrev first_edge : DeltaEdge
first_edge = record { src = 0; dst = 1; edge_type = 7; valid_from = pos 1; valid_to = pos 9 }

abbrev second_edge : DeltaEdge
second_edge = record { src = 1; dst = 2; edge_type = 7; valid_from = pos 2; valid_to = pos 9 }

-- One edge inserted, one deleted.
abbrev buffer : DeltaBuffer
buffer = record { inserts = first_edge ∷ []; deletes = second_edge ∷ [] }

abbrev snapshot : EdgeTable
snapshot = record {
  src = 1 ∷ [];
  dst = 2 ∷ [];
  edge_type = 7 ∷ [];
  valid_from = pos 2 ∷ [];
  valid_to = pos 9 ∷ [];
}

new_buffer-IsValid : IsValid new_buffer
new_buffer-IsValid = record { inserts_ascend = tt; deletes_ascend = tt; disjoint = λ z. refl }

operations-view_example :
    (view (insert second_edge buffer) (first_edge ∷ []) first_edge
      ≡ (same first_edge second_edge || view buffer (first_edge ∷ []) first_edge))
    × (view (delete second_edge buffer) (first_edge ∷ []) first_edge
        ≡ (not (same first_edge second_edge) && view buffer (first_edge ∷ []) first_edge))
operations-view_example = operations-view second_edge buffer (first_edge ∷ []) first_edge

operations-IsValid_example :
    IsValid (insert first_edge new_buffer) × IsValid (delete first_edge new_buffer)
operations-IsValid_example = operations-IsValid first_edge new_buffer new_buffer-IsValid

apply_correct_example :
    (out : EdgeTable) × (apply stable_sort buffer snapshot ≡ ok out)
    × ((z : DeltaEdge) → contains z (edges_of out) ≡ view buffer (edges_of snapshot) z)
    × IsSorted canonical_lt (edges_of out)
    × (keep : List DeltaEdge) × IsAscending edge_order keep
    × Perm (edges_of out) keep
apply_correct_example = apply_correct stable_sort buffer snapshot
