-- ===== src/Reversal/Names.antt =====
-- The candidates by name: get_replacement_policies and make_replacement_policy of
-- lib/include/cachehound/util/replacement_policy.hpp, and `simulate_sequence` for a name. A name is
-- the constructor of what it begins with, with the number that follows it.
use Prim.Native.Nat.{bit_and}
use cache_hound.Common.{
  ℕ, zero, suc, ◌*◌, ◌-◌, ◌/◌, ◌%◌, ◌==◌, ltb, not, ◌&&◌, true, false, List, [], ◌∷◌, ◌++◌, Option,
  none, some, word, check, if◌then◌else◌, ◌>>=◌, ◌>>◌,
}
use cache_hound.Policy.{ReplacementPolicy}
use cache_hound.Policy.Fifo
use cache_hound.Policy.Lru
use cache_hound.Policy.Plru
use cache_hound.Policy.Srrip
use cache_hound.Policy.LruWrapped
use cache_hound.Sequence.{simulate_sequence}

pub data PolicyName : Type 0 where
  fifo_name : PolicyName
  lru_name : PolicyName
  nru_name : PolicyName
  plru_name : PolicyName
  plrul_name : PolicyName
  lru_plru_name : ℕ → PolicyName
  srrip_name : PolicyName

-- `any_replacement_policy`.
pub record AnyReplacementPolicy : Type 1 where
  pub State : Type 0
  pub operations : ReplacementPolicy State
  pub state : State

-- The loop over `plru_associativity`, which doubles in each of at most `n` rounds.
unfoldable pub lru_plru_names : ℕ → ℕ → ℕ → Option (List PolicyName)
lru_plru_names zero plru_associativity associativity = none
lru_plru_names (suc n) plru_associativity associativity =
    elim (ltb plru_associativity associativity) [
      | false ↦ some []
      | true ↦ do
        names ← lru_plru_names n (plru_associativity * 2 % word) associativity
        some (
            if associativity % plru_associativity == 0
            then lru_plru_name plru_associativity ∷ names
            else names)
    ]

unfoldable pub get_replacement_policies : ℕ → Option (List PolicyName)
get_replacement_policies associativity = do
  check (ltb 0 associativity)
  names ← lru_plru_names 63 4 associativity
  let plru =
      if bit_and associativity (associativity - 1) == 0 then plru_name ∷ plrul_name ∷ [] else []
  some ((fifo_name ∷ lru_name ∷ []) ++ (plru ++ (names ++ (srrip_name ∷ []))))

-- `std::nullopt` is the inner `none`. A division by zero is a fault.
unfoldable pub make_plru : ℕ → Option (Option AnyReplacementPolicy)
make_plru associativity =
    elim (not (associativity == 0) && (bit_and (associativity - 1) associativity == 0)) [
      | true ↦ do
        state ← Plru.init associativity
        some (some (record { State = Plru.Plru; operations = Plru.plru; state = state }))
      | false ↦ some none
    ]

unfoldable pub make_replacement_policy : PolicyName → ℕ → Option (Option AnyReplacementPolicy)
make_replacement_policy fifo_name associativity = do
  state ← Fifo.init associativity
  some (some (record { State = Fifo.Fifo; operations = Fifo.fifo; state = state }))
make_replacement_policy lru_name associativity = do
  state ← Lru.init associativity
  some (some (record { State = Lru.Lru; operations = Lru.lru; state = state }))
make_replacement_policy nru_name associativity = do
  state ← Srrip.init 1 Srrip.hit_priority associativity
  some (some (record { State = Srrip.Srrip; operations = Srrip.mru; state = state }))
make_replacement_policy plru_name associativity = make_plru associativity
make_replacement_policy plrul_name associativity = make_plru associativity
make_replacement_policy (lru_plru_name plru_ways) associativity = do
  check (not (plru_ways == 0))
  state ← LruWrapped.init_lru_plru (associativity / plru_ways) plru_ways
  some (
      some (record {
        State = LruWrapped.LruWrapped Plru.Plru;
        operations = LruWrapped.lru_plru;
        state = state;
      }))
make_replacement_policy srrip_name associativity = do
  state ← Srrip.init 2 Srrip.hit_priority associativity
  some (
      some (record {
        State = Srrip.Srrip;
        operations = Srrip.srrip 2 Srrip.hit_priority;
        state = state;
      }))

-- A name without a policy throws.
unfoldable pub simulate_named : List ℕ → ℕ → PolicyName → Option ℕ
simulate_named sequence associativity policy_name = do
  made ← make_replacement_policy policy_name associativity
  policy ← made
  simulate_sequence policy.operations sequence policy.state
