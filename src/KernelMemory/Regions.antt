-- ===== src/KernelMemory/Regions.antt =====
-- The memory regions of lib/include/cachehound/backends/kernel_memory.hpp: their allocation in the
-- constructor (impl/kernel_memory.hpp), and `defragment_regions` (impl/kernel_memory.ipp).
pub mod Defragmentation
pub mod Allocation
use cache_hound.Common.{
  ℕ, zero, suc, ◌+◌, ◌-◌, ◌*◌, ◌%◌, ◌^◌, ◌==◌, min, leb, Bool, true, false, ◌&&◌, List, [], ◌∷◌,
  Option, none, some, word, if◌then◌else◌,
}
use cache_hound.KernelMemory.{ExtendedRegion}

-- `std::sort` by the base.
unfoldable pub insert : ExtendedRegion → List ExtendedRegion → List ExtendedRegion
insert r [] = r ∷ []
insert r (q ∷ qs) = let rest = insert r qs in if leb r.base q.base then r ∷ q ∷ qs else q ∷ rest

unfoldable pub sort : List ExtendedRegion → List ExtendedRegion
sort [] = []
sort (r ∷ rs) = insert r (sort rs)

-- The test of the loop: `region` continues `current`, in both address spaces.
abbrev pub continues : ExtendedRegion → ExtendedRegion → Bool
continues current region =
    ((current.base + current.size) % word == region.base)
    && ((current.physical_base + current.size) % word == region.physical_base)

-- The loop, with `base`, `physical_base` and `size` as a region.
unfoldable pub merge_from : ExtendedRegion → List ExtendedRegion → List ExtendedRegion
merge_from current [] = current ∷ []
merge_from current (region ∷ regions) =
    let merged =
      merge_from (record current { size = (current.size + region.size) % word }) regions in
    let separate = merge_from region regions in
    if continues current region then merged else current ∷ separate

unfoldable pub merge : List ExtendedRegion → List ExtendedRegion
merge [] = []
merge (r ∷ rs) = merge_from r rs

unfoldable pub defragment_regions : List ExtendedRegion → List ExtendedRegion
defragment_regions regions = merge (sort regions)

-- What the loop of the constructor comes to: it throws, or it has the regions.
pub data Allocated (K : Type 0) : Type 0 where
  failed : Allocated K
  regions : List ExtendedRegion → K → Allocated K

-- `regions_.emplace_back`.
abbrev pub prepend : {K : Type 0} → ExtendedRegion → Allocated K → Allocated K
prepend r (failed) = failed
prepend r (regions rs k) = regions (r ∷ rs) k

-- The loop of the constructor for at most `n` calls of `alloc_region`, which the kernel answers.
module _ {K : Type 0} (alloc_region : ℕ → K → Option (ℕ × ℕ) × K) (page_size : ℕ) where
  unfoldable pub allocate_regions : ℕ → ℕ → ℕ → K → Option (Allocated K)
  allocate_regions n zero order k = some (regions [] k)
  allocate_regions zero (suc size) order k = none
  allocate_regions (suc n) (suc size) order k =
      let (config, k') = alloc_region order k in
      let bytes = 2 ^ order * page_size in
      elim config [
        | none ↦ elim (order == 0) [
          | true ↦ some failed
          | false ↦ allocate_regions n (suc size) (order - 1) k'
        ]
        | some (virtual_base, physical_base) ↦
            elim (allocate_regions n (suc size - min (suc size) bytes) order k') [
              | none ↦ none
              | some rest ↦ some (
                  prepend
                    (record { base = virtual_base; physical_base = physical_base; size = bytes })
                    rest)
            ]
      ]
