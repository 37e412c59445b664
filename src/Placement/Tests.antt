-- ===== src/Placement/Tests.antt =====
-- An instance of the theorem about the modular placement policy: 64 sets of lines of 64 bytes.
use cache_hound.Common.{ℕ, ◌+◌, ◌*◌, ◌^◌, ◌<◌, ◌≡◌, some, arith}
use cache_hound.Placement.{ModularPlacement, init, modular_index_bits, modular_set}
use cache_hound.Placement.Modular.{modular_lem}

modular_lem_example :
    (m : ModularPlacement) × (init 6 (2 ^ 6) ≡ some m)
    × (modular_index_bits m ≡ 6)
    × ((tag set offset : ℕ)
        → set < 2 ^ 6
        → offset < 2 ^ 6
        → modular_set m (tag * 2 ^ (6 + 6) + set * 2 ^ 6 + offset) ≡ some set)
modular_lem_example = modular_lem 6 6 (omega arith) (omega arith)
