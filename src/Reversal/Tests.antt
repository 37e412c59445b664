-- ===== src/Reversal/Tests.antt =====
-- A vote of five measurements, and four candidates that are their own hits.
use cache_hound.Common.{ℕ, ◌+◌, ◌≡◌, refl, List, [], ◌∷◌, some, arith}
use cache_hound.Eviction.Occurrences.{occurrences, one_if_same}
use cache_hound.Reversal.{majority_element, majority_loop, remaining_candidates}
use cache_hound.Reversal.Names.{
  fifo_name, lru_name, lru_plru_name, srrip_name, get_replacement_policies, lru_plru_names,
}
use cache_hound.Reversal.Majority.{majority_element-occurrences}
use cache_hound.Reversal.Filter.{agreeing, remaining_candidates-agreeing}

abbrev votes : List ℕ
votes = 7 ∷ 5 ∷ 5 ∷ 2 ∷ 5 ∷ []

fives : occurrences 5 votes ≡ 3
unfolding occurrences one_if_same
fives = refl

majority_element-occurrences_example : majority_element votes ≡ some 5
majority_element-occurrences_example =
    majority_element-occurrences 5 votes (omega arith) (omega (arith, fives))

-- Without a majority the vote may give any measurement.
no_majority : majority_element (7 ∷ 7 ∷ 5 ∷ 2 ∷ 3 ∷ []) ≡ some 3
unfolding majority_element majority_loop
no_majority = refl

abbrev candidates : List ℕ
candidates = 4 ∷ 3 ∷ 6 ∷ 3 ∷ []

remaining_candidates-agreeing_example :
    remaining_candidates (λ c. some (c + 1)) 4 candidates
    ≡ some (agreeing (λ c. some (c + 1)) 4 (λ c. c + 1) candidates)
remaining_candidates-agreeing_example =
    remaining_candidates-agreeing (λ c. some (c + 1)) 4 (λ c. c + 1) candidates
      (refl, (refl, (refl, (refl, tt))))

-- Twelve ways: only groups of four divide them.
names_12 :
    get_replacement_policies 12 ≡ some (fifo_name ∷ lru_name ∷ lru_plru_name 4 ∷ srrip_name ∷ [])
unfolding get_replacement_policies lru_plru_names
names_12 = refl
