-- ===== src/Reversal.antt =====
-- The choice among the policies that explain what was measured:
-- lib/include/cachehound/util/sequence.hpp and the vote in
-- cli/include/cachehound/cli/commands/impl/reverse_replacement_command.hpp.
pub mod Majority
pub mod Filter
pub mod Names
mod Tests
use cache_hound.Common.{
  ℕ, zero, suc, ◌+◌, ◌-◌, ◌%◌, ◌==◌, length, get_elem?, take, ◌>>=◌, Bool, true, false, List, [],
  ◌∷◌, Option, none, some, word,
}
use cache_hound.Eviction.Slow.{swap}

-- The loop of `majority_element`.
unfoldable pub majority_loop : List ℕ → ℕ → ℕ → ℕ
majority_loop [] maj count = maj
majority_loop (x ∷ xs) maj count = elim (x == maj) [
  | true ↦ majority_loop xs maj ((count + 1) % word)
  | false ↦ elim (count == 1) [
    | true ↦ majority_loop xs x count
    | false ↦ majority_loop xs maj (count - 1)
  ]
]

unfoldable pub majority_element : List ℕ → Option ℕ
majority_element [] = none
majority_element (x ∷ xs) = some (majority_loop (x ∷ xs) x 1)

-- `simulate` is `simulate_sequence` for the name of a policy.
module _ {A : Type 0} (simulate : A → Option ℕ) (measured_hit_counter : ℕ) where
  -- The loop of `filter_replacement_policies`, with `n` elements left from `first` on.
  unfoldable pub filter_loop : ℕ → ℕ → ℕ → List A → Option (ℕ × List A)
  filter_loop zero out first candidates = some (out, candidates)
  filter_loop (suc n) out first candidates = do
    policy_name ← get_elem? candidates first
    hit_counter ← simulate policy_name
    elim (hit_counter == measured_hit_counter) [
      | true ↦ swap out first candidates >>= λ swapped. filter_loop n (out + 1) (first + 1) swapped
      | false ↦ filter_loop n out (first + 1) candidates
    ]

  abbrev pub filter_replacement_policies : List A → Option (ℕ × List A)
  filter_replacement_policies candidates = filter_loop (length candidates) 0 0 candidates

  -- The elements from the iterator on are erased.
  unfoldable pub remaining_candidates : List A → Option (List A)
  remaining_candidates candidates = do
    (it, candidates') ← filter_replacement_policies candidates
    some (take it candidates')
