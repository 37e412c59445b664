-- ===== src/Eviction/Groups.antt =====
-- `reduce_eviction_set` of lib/include/cachehound/algo/impl/reduce_eviction_set.hpp. An iterator is
-- its distance from `first`; one that is only formed and not dereferenced may stand past the end.
pub mod Blocks
pub mod Masks
pub mod Splits
pub mod Strip
pub mod Reduction
use cache_hound.Common.{
  ℕ, zero, suc, ◌+◌, ◌-◌, ◌/◌, ◌%◌, leb, ◌==◌, Bool, true, false, List, ◌++◌, Option, none, some,
  length, take, drop, check, word, if◌then◌else◌, ◌>>=◌, ◌>>◌,
}
use cache_hound.Eviction.Slow.{swap}

-- `std::swap_ranges` on `n` elements from `a` on and as many from `b` on.
unfoldable pub swap_ranges : ℕ → ℕ → ℕ → List ℕ → Option (List ℕ)
swap_ranges zero a b xs = some xs
swap_ranges (suc n) a b xs = swap a b xs >>= λ ys. swap_ranges n (a + 1) (b + 1) ys

-- The mask, and whether the test succeeded without it.
pub record Mask : Type 0 where
  pub found : Bool
  pub mask_begin : ℕ
  pub mask_end : ℕ

-- The code at `found`: the addresses and the new `last`.
unfoldable pub strip : ℕ → ℕ → Mask → List ℕ → Option (List ℕ × ℕ)
strip last min_group_size mask addresses =
    if mask.mask_end == last then some (addresses, mask.mask_begin) else (do
      ys ← swap_ranges min_group_size (last - min_group_size) mask.mask_begin addresses
      some (ys, last - min_group_size))

module _ {M : Type 0} (is_eviction_set : List ℕ → M → Bool × M) where
  -- The inner loop, with `counter` groups to go; `evset` is the range from `first` to `last`.
  unfoldable pub try_groups : List ℕ → ℕ → ℕ → ℕ → ℕ → M → Option (Mask × M)
  try_groups evset group_size zero mask_begin mask_end memory =
      some (record { found = false; mask_begin = mask_begin; mask_end = mask_end }, memory)
  try_groups evset group_size (suc counter) mask_begin mask_end memory =
      let (is_evset, memory') =
        is_eviction_set (take mask_begin evset ++ drop mask_end evset) memory in
      let rest =
        try_groups evset group_size counter (mask_begin + group_size) (mask_end + group_size)
          memory' in
      check (leb mask_end (length evset))
      >> (if is_evset
          then some (record { found = true; mask_begin = mask_begin; mask_end = mask_end }, memory')
          else rest)

  -- The loop over the two kinds of groups, the larger ones first.
  unfoldable pub try_masks : List ℕ → ℕ → ℕ → M → Option (Mask × M)
  try_masks evset groups current_size memory = do
    let min_group_size = current_size / groups
    let with_extra = current_size % min_group_size
    let without_extra = (word + groups - with_extra) % word
    (mask, memory') ← try_groups evset (min_group_size + 1) with_extra 0 (min_group_size + 1) memory
    if mask.found
        then some (mask, memory')
        else try_groups evset min_group_size without_extra mask.mask_begin (mask.mask_end - 1)
            memory'

  -- The outer loop, with fuel: the iterator returned and the addresses.
  unfoldable pub reduce_groups : ℕ → ℕ → List ℕ → ℕ → ℕ → M → Option (ℕ × List ℕ × M)
  reduce_groups zero max_size addresses last current_size memory = none
  reduce_groups (suc fuel) max_size addresses last current_size memory =
      let groups = (max_size + 1) % word in
      let min_group_size = current_size / groups in
      if leb current_size max_size
      then some (last, addresses, memory)
      else (try_masks (take last addresses) groups current_size memory >>= λ (mask, memory').
          elim mask.found [
            | false ↦ some (0, addresses, memory')
            | true ↦ strip last min_group_size mask addresses >>= λ (ys, last').
                reduce_groups fuel max_size ys last' (current_size - min_group_size) memory'
          ])

  unfoldable pub reduce_eviction_set : List ℕ → ℕ → M → Option (ℕ × List ℕ × M)
  reduce_eviction_set addresses max_size memory =
      reduce_groups (length addresses + 1) max_size addresses (length addresses) (length addresses)
        memory

  -- The overload for a vector.
  unfoldable pub reduce_vector : List ℕ → ℕ → M → Option (Bool × List ℕ × M)
  reduce_vector eviction_set max_size memory = do
    (last, addresses, memory') ← reduce_eviction_set eviction_set max_size memory
    some (if last == 0 then (false, addresses, memory') else (true, take last addresses, memory'))
