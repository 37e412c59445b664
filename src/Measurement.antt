-- ===== src/Measurement.antt =====
-- The algorithms of lib/include/cachehound/algo and the strategies of lib/include/cachehound/strategies
-- that measure a memory, over the operations that the concepts `instrumented_memory` and
-- `armv8_memory` name.
pub mod Behaviour
pub mod Prediction
mod Tests
use cache_hound.Common.{
  ℕ, zero, suc, ◌+◌, ◌%◌, int_shift, ◌==◌, ltb, leb, Bool, true, false, not, List, [], ◌∷◌, ◌++◌,
  Option, none, some, length, get_elem?, word, write, resize, check, if◌then◌else◌, ◌>>=◌, ◌>>◌,
}

pub record InstrumentedMemory (M : Type 0) : Type 0 where
  pub access : ℕ → M → Option M
  pub instrumented_access : ℕ → M → Option (ℕ × M)
  pub index_bits : ℕ → M → ℕ
  pub ways : ℕ → M → ℕ
  pub cisw : ℕ → ℕ → ℕ → M → Option M

-- The local variables of `measure_sequence`, with the memory.
pub record Measurement (M : Type 0) : Type 0 where
  pub seen : List Bool
  pub hit_counter : ℕ
  pub memory : M

abbrev pub grow_seen : ℕ → List Bool → List Bool
grow_seen addr seen = if leb (length seen) addr then resize seen ((1 + addr) % word) false else seen

module _ {M : Type 0} (o : InstrumentedMemory M) where
  unfoldable pub access_each : List ℕ → M → Option M
  access_each [] m = some m
  access_each (address ∷ addresses) m = o.access address m >>= λ m'. access_each addresses m'

  unfoldable pub unsafe_is_eviction_set : ℕ → List ℕ → M → Option (Bool × M)
  unsafe_is_eviction_set target addresses m = do
    m1 ← o.access target m
    m2 ← access_each addresses m1
    (level, m3) ← o.instrumented_access target m2
    some (ltb 0 level, m3)

  -- Whether no access hits the first level.
  unfoldable pub all_miss : List ℕ → M → Option (Bool × M)
  all_miss [] m = some (true, m)
  all_miss (address ∷ addresses) m = do
    (level, m') ← o.instrumented_access address m
    elim (level == 0) [ true ↦ some (false, m') | false ↦ all_miss addresses m' ]

  -- `std::nullopt` is the inner `none`.
  unfoldable pub safe_is_eviction_set : ℕ → List ℕ → M → Option (Option Bool × M)
  safe_is_eviction_set target addresses m = do
    (missed, m1) ← all_miss (target ∷ addresses) m
    elim missed [
      | false ↦ some (none, m1)
      | true ↦ o.instrumented_access target m1 >>= λ (level, m2). some (some (ltb 0 level), m2)
    ]

  -- The branches of the body of `measure_sequence`, on `Safe`, and on whether the address was seen.
  unfoldable pub measure_access :
      Bool → Bool → ℕ → ℕ → Measurement M → Option (Option (Measurement M))
  measure_access safe true addr actual_addr st = do
    (level, m) ← o.instrumented_access actual_addr st.memory
    let hit = if level == 0 then 1 else 0
    some (some (record st { hit_counter = (st.hit_counter + hit) % word; memory = m }))
  measure_access true false addr actual_addr st = do
    (level, m) ← o.instrumented_access actual_addr st.memory
    elim (level == 0) [
      | true ↦ some none
      | false ↦
          write st.seen addr true >>= λ seen. some (some (record st { seen = seen; memory = m }))
    ]
  measure_access false false addr actual_addr st = do
    m ← o.access actual_addr st.memory
    write st.seen addr true >>= λ seen. some (some (record st { seen = seen; memory = m }))

  unfoldable pub measure : Bool → List ℕ → ℕ → Measurement M → Option (Option (Measurement M))
  measure safe addresses addr st = do
    let st' = record st { seen = grow_seen addr st.seen }
    actual_addr ← get_elem? addresses addr
    was_seen ← get_elem? st'.seen addr
    measure_access safe was_seen addr actual_addr st'

  unfoldable pub measure_all :
      Bool → List ℕ → List ℕ → Measurement M → Option (Option (Measurement M))
  measure_all safe addresses [] st = some (some st)
  measure_all safe addresses (addr ∷ sequence) st = do
    result ← measure safe addresses addr st
    elim result [ none ↦ some none | some st' ↦ measure_all safe addresses sequence st' ]

  unfoldable pub measure_sequence : Bool → List ℕ → List ℕ → M → Option (Option (ℕ × M))
  measure_sequence safe sequence addresses m = do
    result ← measure_all safe addresses sequence (record { seen = []; hit_counter = 0; memory = m })
    elim result [ none ↦ some none | some st ↦ some (some (st.hit_counter, st.memory)) ]

  abbrev pub safe_measure_sequence : List ℕ → List ℕ → M → Option (Option (ℕ × M))
  safe_measure_sequence sequence addresses m = measure_sequence true sequence addresses m

  -- The optional is dereferenced without a test.
  unfoldable pub unsafe_measure_sequence : List ℕ → List ℕ → M → Option (ℕ × M)
  unsafe_measure_sequence sequence addresses m =
      measure_sequence false sequence addresses m >>= λ result. result

  -- `cisw_eviction_strategy::maps_to`: the ways of a set, with `n` ways left from `way` on.
  unfoldable pub cisw_ways : ℕ → ℕ → ℕ → M → Option M
  cisw_ways zero set way m = some m
  cisw_ways (suc n) set way m = o.cisw 0 set way m >>= λ m'. cisw_ways n set (way + 1) m'

  unfoldable pub cisw_sets : List ℕ → M → Option M
  cisw_sets [] m = some m
  cisw_sets (set ∷ sets) m = do
    n ← int_shift (o.index_bits 0 m)
    check (ltb set n)
    m' ← cisw_ways (o.ways 0 m) set 0 m
    cisw_sets sets m'

  unfoldable pub cisw_maps_to : ℕ → List ℕ → M → Option (Bool × M)
  cisw_maps_to target set_range m = do
    m1 ← o.access target m
    m2 ← cisw_sets set_range m1
    (level, m3) ← o.instrumented_access target m2
    some (ltb 0 level, m3)

-- `eviction_set_strategy::maps_to`: the addresses of the eviction sets of the sets.
unfoldable pub evset_addresses : List (List ℕ) → List ℕ → Option (List ℕ)
evset_addresses evsets [] = some []
evset_addresses evsets (set ∷ sets) = do
  evset ← get_elem? evsets set
  rest ← evset_addresses evsets sets
  some (evset ++ rest)

unfoldable pub evset_maps_to :
    {M : Type 0}
    → (ℕ → List ℕ → M → Option (Bool × M))
    → List (List ℕ)
    → ℕ
    → List ℕ
    → M
    → Option (Bool × M)
evset_maps_to is_eviction_set evsets target set_range m =
    evset_addresses evsets set_range >>= λ addresses. is_eviction_set target addresses m
