-- ===== src/Search.antt =====
-- `group_test` of lib/include/cachehound/util/detail/group_test.hpp, and its user `locate_set` of
-- lib/include/cachehound/util/locate_set.hpp. An iterator of the range is its distance from the
-- first one, which stays below the size of the range; the test may change the state of a memory.
pub mod Bisect
pub mod Cost
mod Tests
use cache_hound.Common.{
  ℕ, zero, suc, ◌+◌, ◌-◌, ◌/◌, int_shift, leb, ◌==◌, Bool, not, Option, none, some, check,
  if◌then◌else◌, ◌>>=◌, ◌>>◌,
}

module _ {M : Type 0} (test : ℕ → ℕ → M → Bool × M) where
  -- The loop on `first` and `last`, with fuel.
  unfoldable pub bisect : ℕ → ℕ → ℕ → M → Option (ℕ × M)
  bisect zero first last memory = none
  bisect (suc fuel) first last memory =
      let dist = last - first in
      let mid = first + dist / 2 in
      let (found, memory') = test first mid memory in
      let rest = bisect fuel (if found then first else mid) (if found then mid else last) memory' in
      if leb dist 1 then (check (not (dist == 0)) >> some (first, memory)) else rest

  -- The end of the range, its size `n`, stands for no element.
  unfoldable pub group_test : ℕ → M → Option (ℕ × M)
  group_test n memory =
      let (exists, memory') = test 0 n memory in
      if exists then bisect (n + 1) 0 n memory' else some (n, memory')

  -- `maps_to` of the strategy is the test.
  unfoldable pub locate_set : ℕ → M → Option (Option ℕ × M)
  locate_set index_bits memory = do
    sets ← int_shift index_bits
    (set, memory') ← group_test sets memory
    some (if set == sets then none else some set, memory')
