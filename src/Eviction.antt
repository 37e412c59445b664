-- ===== src/Eviction.antt =====
-- The search for small eviction sets of lib/include/cachehound/algo. A test of an eviction set
-- (lib/include/cachehound/algo/is_eviction_set.hpp) takes a range of addresses and may change the
-- state of the memory; the target is the same in all calls, so that the test stands for both.
pub mod Occurrences
pub mod Slow
pub mod Groups
mod Tests
use cache_hound.Common.{ℕ, ◌≡◌, Bool, true, List}
use cache_hound.Eviction.Occurrences.{Part}

-- What the algorithms expect of a test: it answers a property of the addresses, whatever the state
-- of the memory, and more addresses never make an eviction set fail.
pub record Answers {M : Type 0} (is_eviction_set : List ℕ → M → Bool × M) (evicts : List ℕ → Bool)
    : Type 0 where
  pub answers : (xs : List ℕ) (memory : M) → (is_eviction_set xs memory).0 ≡ evicts xs
  pub monotone : (xs ys : List ℕ) → Part xs ys → evicts xs ≡ true → evicts ys ≡ true
