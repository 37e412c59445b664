-- ===== src/Search/Tests.antt =====
-- Runs of the search, and instances of the theorems about it. The memory counts the tests.
use cache_hound.Common.{
  ℕ, ◌+◌, ◌^◌, ◌<◌, ◌≤◌, ◌≡◌, refl, leb, ltb, ◌&&◌, Bool, true, false, none, some, arith, ◌⊎◌,
}
use cache_hound.Search.{group_test, bisect, locate_set}
use cache_hound.Search.Bisect.{Answers, group_test-finds, locate_set-finds}
use cache_hound.Search.Cost.{counted, group_test-calls}

-- The ranges that have 5.
abbrev has_5 : ℕ → ℕ → Bool
has_5 a b = leb a 5 && ltb 5 b

abbrev test_5 : ℕ → ℕ → ℕ → Bool × ℕ
test_5 a b calls = (has_5 a b, calls + 1)

test_5-Answers : Answers test_5 has_5
test_5-Answers = record { answers = λ a b calls. refl; splits = λ a m b lt lt' h k. ground arith }

group_test_run : group_test test_5 7 0 ≡ some (5, 4)
unfolding group_test bisect
group_test_run = refl

group_test-finds_example :
    (i : ℕ) × (calls : ℕ) × (group_test test_5 7 0 ≡ some (i, calls))
    × (((i ≡ 7) × (has_5 0 7 ≡ false)) ⊎ ((i < 7) × (has_5 i (i + 1) ≡ true)))
group_test-finds_example = group_test-finds test_5 has_5 test_5-Answers 7 0 (omega arith)

locate_set-finds_example :
    (calls : ℕ) × (((locate_set test_5 3 0 ≡ some (none, calls)) × (has_5 0 (2 ^ 3) ≡ false))
      ⊎ ((set : ℕ) × (locate_set test_5 3 0 ≡ some (some set, calls))
          × (set < 2 ^ 3)
          × (has_5 set (set + 1) ≡ true)))
locate_set-finds_example = locate_set-finds test_5 has_5 test_5-Answers 3 0 (omega arith)

group_test-calls_example :
    (i : ℕ) × (memory' : ℕ) × (calls : ℕ) × (group_test (counted test_5) 7 (0, 0)
      ≡ some (i, (memory', calls)))
    × (i ≤ 7)
    × (calls ≤ 3 + 1)
group_test-calls_example = group_test-calls test_5 3 7 0 (omega arith) (omega arith)
