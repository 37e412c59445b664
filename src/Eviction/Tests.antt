-- ===== src/Eviction/Tests.antt =====
-- Runs of the search for small eviction sets, and instances of the theorems about it. The memory
-- counts the tests.
use cache_hound.Common.{
  ℕ, ◌+◌, ◌≤◌, ◌≡◌, refl, leb, ◌&&◌, Bool, true, false, List, [], ◌∷◌, some, length, take, arith,
  ◌⊎◌,
}
use cache_hound.Eviction.{Answers}
use cache_hound.Eviction.Occurrences.{occurrences, one_if_same, Part, Rearranged}
use cache_hound.Eviction.Slow.{
  minimize_eviction_set_slow, minimize_vector_slow, minimize_loop, reduce_eviction_set_slow,
  reduce_loop, candidate_step, judge, swap,
}
use cache_hound.Eviction.Slow.Minimal.{
  IsMinimal, minimize_eviction_set_slow-IsMinimal, minimize_vector_slow_lem,
}
use cache_hound.Eviction.Groups.{
  reduce_eviction_set, reduce_groups, try_masks, try_groups, strip, swap_ranges,
}
use cache_hound.Eviction.Groups.Reduction.{GroupReduced, reduce_eviction_set-GroupReduced}
use cache_hound.Eviction.Slow.Bounded.{Reduced, reduce_eviction_set_slow-Reduced}

-- The sets that have 5 and 7.
abbrev evicts_5_7 : List ℕ → Bool
evicts_5_7 xs = leb 1 (occurrences 5 xs) && leb 1 (occurrences 7 xs)

abbrev test_5_7 : List ℕ → ℕ → Bool × ℕ
test_5_7 xs calls = (evicts_5_7 xs, calls + 1)

test_5_7-Answers : Answers test_5_7 evicts_5_7
test_5_7-Answers = record {
  answers = λ xs calls. refl;
  monotone = λ xs ys p h. ground (arith, p 5, p 7);
}

abbrev addresses_5 : List ℕ
addresses_5 = 3 ∷ 5 ∷ 1 ∷ 7 ∷ 2 ∷ []

minimize_run : minimize_vector_slow test_5_7 addresses_5 0 ≡ some (true, 7 ∷ 5 ∷ [], 5)
unfolding minimize_vector_slow minimize_eviction_set_slow minimize_loop candidate_step judge swap
    occurrences one_if_same
minimize_run = refl

reduce_run : reduce_eviction_set_slow test_5_7 addresses_5 1 0 ≡ some (0, 7 ∷ 5 ∷ 1 ∷ 3 ∷ 2 ∷ [], 5)
unfolding reduce_eviction_set_slow reduce_loop candidate_step judge swap occurrences one_if_same
reduce_run = refl

minimize_eviction_set_slow-IsMinimal_example :
    (last : ℕ) × (addresses' : List ℕ) × (calls : ℕ) × (minimize_eviction_set_slow test_5_7
        addresses_5 0
      ≡ some (last, addresses', calls))
    × Rearranged addresses' addresses_5
    × (last ≤ length addresses')
    × IsMinimal evicts_5_7 (take last addresses')
unfolding occurrences one_if_same
minimize_eviction_set_slow-IsMinimal_example =
    minimize_eviction_set_slow-IsMinimal test_5_7 evicts_5_7 test_5_7-Answers addresses_5 0 refl

minimize_vector_slow_example :
    (success : Bool) × (result : List ℕ) × (calls : ℕ) × (minimize_vector_slow test_5_7 addresses_5
        0
      ≡ some (success, result, calls))
    × (((success ≡ true) × Part result addresses_5 × IsMinimal evicts_5_7 result)
        ⊎ ((success ≡ false) × Rearranged result addresses_5 × (evicts_5_7 [] ≡ true)))
unfolding occurrences one_if_same
minimize_vector_slow_example =
    minimize_vector_slow_lem test_5_7 evicts_5_7 test_5_7-Answers addresses_5 0 refl

reduce_eviction_set_slow-Reduced_example :
    (last : ℕ) × (addresses' : List ℕ) × (calls : ℕ) × (reduce_eviction_set_slow test_5_7
        addresses_5 2 0
      ≡ some (last, addresses', calls))
    × Rearranged addresses' addresses_5
    × Reduced evicts_5_7 2 last addresses'
unfolding occurrences one_if_same
reduce_eviction_set_slow-Reduced_example =
    reduce_eviction_set_slow-Reduced test_5_7 evicts_5_7 test_5_7-Answers addresses_5 2 0 refl

abbrev addresses_11 : List ℕ
addresses_11 = 3 ∷ 5 ∷ 1 ∷ 2 ∷ 4 ∷ 6 ∷ 8 ∷ 9 ∷ 10 ∷ 11 ∷ 7 ∷ []

reduce_groups_run :
    reduce_eviction_set test_5_7 addresses_11 3 0
    ≡ some (3, 7 ∷ 5 ∷ 11 ∷ 1 ∷ 9 ∷ 10 ∷ 3 ∷ 6 ∷ 8 ∷ 2 ∷ 4 ∷ [], 11)
unfolding reduce_eviction_set reduce_groups try_masks try_groups strip swap_ranges swap occurrences
    one_if_same
reduce_groups_run = refl

reduce_eviction_set-GroupReduced_example :
    (end : ℕ) × (ys : List ℕ) × (calls : ℕ) × (reduce_eviction_set test_5_7 addresses_11 3 0
      ≡ some (end, ys, calls))
    × Rearranged ys addresses_11
    × GroupReduced evicts_5_7 3 end ys
unfolding occurrences one_if_same
reduce_eviction_set-GroupReduced_example =
    reduce_eviction_set-GroupReduced test_5_7 evicts_5_7 test_5_7-Answers addresses_11 3 0
      (omega arith) refl
