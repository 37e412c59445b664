-- ===== src/Bypass/Tests.antt =====
-- Two sets of two ways, in the second bit of the address, and two regions.
use cache_hound.Common.{
  ℕ, ◌/◌, ◌%◌, ◌^◌, ◌<◌, ◌≡◌, refl, inl, List, [], ◌∷◌, some, length, arith, write,
}
use cache_hound.KernelMemory.{ExtendedRegion}
use cache_hound.Bypass.{
  BypassAdapter, bypass_adapter, take_regions, take_region, collect, emplace_back, leave_space,
}
use cache_hound.Bypass.Construction.{Reserved, bypass_adapter-Reserved}

abbrev by_bit : ℕ → ℕ
by_bit a = a / 2 % 2

abbrev two_regions : List ExtendedRegion
two_regions =
    record { base = 0x100; physical_base = 0x1000; size = 6 }
    ∷ record { base = 0x200; physical_base = 0x2000; size = 16 }
    ∷ []

in_range : (a : ℕ) → by_bit a < 2 ^ 1
in_range a = omega arith

bypass_adapter-Reserved_example :
    (st : BypassAdapter) × (bypass_adapter by_bit 2 1 1 two_regions ≡ some st)
    × (length st.evsets ≡ 2 ^ 1)
    × Reserved by_bit 2 two_regions st
bypass_adapter-Reserved_example =
    bypass_adapter-Reserved by_bit 2 1 1 two_regions (omega arith) (omega arith) (omega arith)
      in_range (omega arith, (omega arith, tt)) ((inl (omega arith), tt), (tt, tt))

-- The second region is left from after the last address that was taken.
bypass_adapter_run :
    bypass_adapter by_bit 2 1 1 two_regions
    ≡ some (record {
      evsets = (0x100 ∷ 0x104 ∷ []) ∷ (0x102 ∷ 0x202 ∷ []) ∷ [];
      found_evsets = 2;
      regions = record { base = 0x204; physical_base = 0x2004; size = 12 } ∷ [];
    })
unfolding bypass_adapter take_regions take_region collect emplace_back leave_space write
bypass_adapter_run = refl
