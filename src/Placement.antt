-- ===== src/Placement.antt =====
-- lib/include/cachehound/policies/placement/modular_placement_policy.hpp and
-- generic_placement_policy.hpp beside it.
pub mod Modular
mod Tests
use Prim.Native.Nat.{bit_and}
use cache_hound.Common.{
  ℕ, ◌-◌, ◌/◌, ◌%◌, ◌^◌, ◌==◌, ltb, not, ◌&&◌, Option, some, check, countr_zero, ◌>>=◌, ◌>>◌,
}

pub record ModularPlacement : Type 0 where
  pub offset_bits : ℕ
  pub sets : ℕ

unfoldable pub init : ℕ → ℕ → Option ModularPlacement
init offset_bits sets = do
  check (not (sets == 0) && (bit_and sets (sets - 1) == 0))
  some (record { offset_bits = offset_bits; sets = sets })

unfoldable pub modular_index_bits : ModularPlacement → ℕ
modular_index_bits m = countr_zero m.sets

-- A shift by 64 or more is undefined.
unfoldable pub modular_set : ModularPlacement → ℕ → Option ℕ
modular_set m address = do check (ltb m.offset_bits 64); some (address / 2 ^ m.offset_bits % m.sets)

-- The function is the caller's.
pub record GenericPlacement : Type 0 where
  pub sets : ℕ
  pub func : ℕ → ℕ

unfoldable pub generic_index_bits : GenericPlacement → Option ℕ
generic_index_bits g = do
  check (not (g.sets == 0) && (bit_and g.sets (g.sets - 1) == 0))
  some (countr_zero g.sets)

unfoldable pub generic_set : GenericPlacement → ℕ → ℕ
generic_set g address = g.func address
