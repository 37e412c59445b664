-- ===== src/Bypass.antt =====
-- The adapter that leaves out the first level:
-- lib/include/cachehound/adapters/impl/bypass_adapter.hpp.
pub mod Full
pub mod Held
pub mod Reserved
pub mod Collecting
pub mod Construction
mod Tests
use cache_hound.Common.{
  ℕ, zero, suc, ◌+◌, ◌-◌, ◌%◌, ◌^◌, ◌==◌, ltb, Bool, true, false, not, List, [], ◌∷◌, ◌++◌, Option,
  none, some, length, get_elem?, replicate, word, write, check, if◌then◌else◌, ◌>>=◌, ◌>>◌,
}
use cache_hound.KernelMemory.{ExtendedRegion}
use cache_hound.Measurement.{InstrumentedMemory, access_each}

-- Its members but for the memory and the placement policy, with `found_evsets` of the constructor.
pub record BypassAdapter : Type 0 where
  pub evsets : List (List ℕ)
  pub found_evsets : ℕ
  pub regions : List ExtendedRegion

module _ (placement_policy : ℕ → ℕ) (ways sets increment : ℕ) where
  unfoldable pub leave_space : ExtendedRegion → ℕ → ℕ → BypassAdapter → BypassAdapter
  leave_space region new_base last_address st =
      let reserved_space = (new_base + word - region.base) % word in
      if ltb new_base last_address
      then record st {
        regions =
            st.regions
            ++ (record {
              base = new_base;
              physical_base = (region.physical_base + reserved_space) % word;
              size = (region.size + word - reserved_space) % word;
            }
                ∷ []);
      }
      else st

  unfoldable pub emplace_back : ℕ → List ℕ → ℕ → BypassAdapter → Option BypassAdapter
  emplace_back set evset address st = do
    let evset' = evset ++ (address ∷ [])
    evsets ← write st.evsets set evset'
    let full = if length evset' == ways then 1 else 0
    some (record st { evsets = evsets; found_evsets = (st.found_evsets + full) % word })

  -- The loop over the addresses of a region, for at most `n` of them.
  unfoldable pub collect : ℕ → ExtendedRegion → ℕ → ℕ → BypassAdapter → Option BypassAdapter
  collect zero region last_address address st = none
  collect (suc n) region last_address address st =
      let next = (address + increment) % word in
      elim (ltb address last_address) [
        | false ↦ some st
        | true ↦ do
          let set = placement_policy address
          evset ← get_elem? st.evsets set
          elim (ltb (length evset) ways) [
            | false ↦ collect n region last_address next st
            | true ↦ do
              st' ← emplace_back set evset address st
              elim (st'.found_evsets == sets) [
                | true ↦ some (leave_space region next last_address st')
                | false ↦ collect n region last_address next st'
              ]
          ]
      ]

  unfoldable pub take_region : ExtendedRegion → BypassAdapter → Option BypassAdapter
  take_region region st = elim (ltb st.found_evsets sets) [
    | true ↦ collect (suc region.size) region ((region.base + region.size) % word) region.base st
    | false ↦ some (record st { regions = st.regions ++ (region ∷ []) })
  ]

  unfoldable pub take_regions : List ExtendedRegion → BypassAdapter → Option BypassAdapter
  take_regions [] st = some st
  take_regions (region ∷ regions) st = take_region region st >>= λ st'. take_regions regions st'

-- The constructor of `bypass_adapter`, for a memory with these bits, ways and regions.
unfoldable pub bypass_adapter : (ℕ → ℕ) → ℕ → ℕ → ℕ → List ExtendedRegion → Option BypassAdapter
bypass_adapter placement_policy ways index_bits offset_bits regions = do
  check (ltb index_bits 31)
  check (ltb offset_bits 31)
  let sets = 2 ^ index_bits
  take_regions placement_policy ways sets (2 ^ offset_bits) regions
      (record { evsets = replicate sets []; found_evsets = 0; regions = [] })

module _ {M : Type 0} (o : InstrumentedMemory M) (placement_policy : ℕ → ℕ) where
  abbrev pub access_eviction_set : BypassAdapter → ℕ → M → Option M
  access_eviction_set st set m = get_elem? st.evsets set >>= λ evset. access_each o evset m

  -- The loop at `retry`, for at most `n` rounds: the level is returned as 0.
  unfoldable pub retry : ℕ → BypassAdapter → ℕ → ℕ → M → Option (ℕ × M)
  retry zero st set address m = none
  retry (suc n) st set address m = do
    m1 ← access_eviction_set st set m
    (level, m2) ← o.instrumented_access address m1
    elim (level == 0) [ true ↦ retry n st set address m2 | false ↦ some (0, m2) ]

  unfoldable pub bypass_instrumented_access : ℕ → BypassAdapter → ℕ → M → Option (ℕ × M)
  bypass_instrumented_access n st address m = do
    (level, m1) ← o.instrumented_access address m
    elim (ltb 0 level) [
      | true ↦ some (level - 1, m1)
      | false ↦ retry n st (placement_policy address) address m1
    ]

  abbrev pub bypass_access : ℕ → BypassAdapter → ℕ → M → Option M
  bypass_access n st address m =
      bypass_instrumented_access n st address m >>= λ (level, m'). some m'
