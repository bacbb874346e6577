-- ===== src/Zones/Tests.antt =====
-- Zone maps of four edges in chunks of two.
use gtvdb.Base.{arith, ◌≡◌, refl, some, List, [], ◌∷◌}
use gtvdb.Base.Int.{ℤ, pos}
use gtvdb.Zones.{ZoneMap, build_zone_maps, temporal_mask_pruned, temporal_mask_full, is_active_at}
use gtvdb.Zones.Bits.{bit, temporal_mask_pruned-bit}

abbrev from : List ℤ
from = pos 5 ∷ pos 1 ∷ pos 9 ∷ pos 3 ∷ []

abbrev to : List ℤ
to = pos 10 ∷ pos 20 ∷ pos 15 ∷ pos 30 ∷ []

abbrev zones : List ZoneMap
zones =
    record { offset = 0; len = 2; min_from = pos 1; max_to = pos 20 }
    ∷ record { offset = 2; len = 2; min_from = pos 3; max_to = pos 30 }
    ∷ []

built : build_zone_maps from to 2 ≡ some zones
unfolding build_zone_maps
built = refl

temporal_mask_pruned-bit_example :
    (temporal_mask_pruned from to (pos 2) zones ≡ temporal_mask_full from to (pos 2))
    × (bit (temporal_mask_pruned from to (pos 2) zones).bytes 1 ≡ is_active_at from to (pos 2) 1)
temporal_mask_pruned-bit_example =
    temporal_mask_pruned-bit from to 2 zones (pos 2) 1 built (omega arith)
