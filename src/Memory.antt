-- ===== src/Memory.antt =====
-- sim/include/cachehound/sim/backends/simulated_memory.hpp over the concept `cache`
-- (sim/include/cachehound/sim/concepts/cache.hpp). The levels that the recursive functions go down
-- or up bound their recursion.
pub mod Contract
pub mod Filling
pub mod Access
mod Tests
use cache_hound.Common.{
  ℕ, zero, suc, ◌+◌, ◌-◌, ltb, Bool, true, false, ◌&&◌, List, [], ◌∷◌, Option, none, some, length,
  get_elem?, set, check, if◌then◌else◌, ◌>>=◌, ◌>>◌,
}

-- The operations that the concept names; a handle is a number.
pub record CacheOperations (C : Type 0) : Type 0 where
  pub lookup : C → ℕ → Option (Option ℕ)
  pub hit : C → ℕ → Option C
  pub invalidate : C → ℕ → Option C
  pub fill : C → ℕ → Option (Option ℕ × C)

pub data Inclusiveness : Type 0 where
  non_inclusive : Inclusiveness
  inclusive : Inclusiveness
  exclusive : Inclusiveness

abbrev pub get_inclusiveness : ℕ → Inclusiveness
get_inclusiveness level = Inclusiveness.non_inclusive

abbrev pub is_inclusive : Inclusiveness → Bool
is_inclusive incl = elim incl [ Inclusiveness.inclusive ↦ true | _ ↦ false ]

abbrev pub is_exclusive : Inclusiveness → Bool
is_exclusive incl = elim incl [ Inclusiveness.exclusive ↦ true | _ ↦ false ]

-- `basic_memory_region`.
pub record MemoryRegion : Type 0 where
  pub base : ℕ
  pub size : ℕ

pub record SimulatedMemory (C : Type 0) : Type 0 where
  pub regions : List MemoryRegion
  pub offset_bits : ℕ
  pub caches : List C

module _ {C : Type 0} (o : CacheOperations C) where
  -- A failed lookup leaves the cache as it is.
  unfoldable pub drop_copy : ℕ → ℕ → List C → Option (List C)
  drop_copy address level caches = do
    cache ← get_elem? caches level
    handle ← o.lookup cache address
    elim handle [
      | none ↦ some caches
      | some h ↦ o.invalidate cache h >>= λ cache'. some (set caches level cache')
    ]

  unfoldable pub back_invalidate : ℕ → ℕ → List C → Option (List C)
  back_invalidate address zero caches = drop_copy address zero caches
  back_invalidate address (suc level) caches =
      drop_copy address (suc level) caches >>= λ caches'. back_invalidate address level caches'

  -- `fill` with `n` levels from `level` on.
  unfoldable pub fill_level : ℕ → ℕ → ℕ → Bool → List C → Option (List C)
  fill_level zero address level should_back_invalidate caches = none
  fill_level (suc n) address level should_back_invalidate caches = do
    cache ← get_elem? caches level
    (victim, cache') ← o.fill cache address
    let filled = set caches level cache'
    elim victim [
      | none ↦ some filled
      | some v ↦ do
        caches' ←
            if should_back_invalidate && (ltb 0 level && is_inclusive (get_inclusiveness level))
            then back_invalidate v (level - 1) filled
            else some filled
        elim (ltb (level + 1) (length caches')) [
          | true ↦ fill_level n v (level + 1) false caches'
          | false ↦ some caches'
        ]
    ]

  unfoldable pub back_fill_level : ℕ → ℕ → List C → Option (List C)
  back_fill_level address level caches =
      check (ltb level (length caches))
      >> (if is_exclusive (get_inclusiveness level)
          then some caches
          else fill_level (length caches - level) address level true caches)

  unfoldable pub back_fill : ℕ → ℕ → List C → Option (List C)
  back_fill address zero caches = back_fill_level address zero caches
  back_fill address (suc level) caches =
      back_fill_level address (suc level) caches >>= λ caches'. back_fill address level caches'

  -- The end of `do_access`: the entry goes to the levels before the one that had it.
  unfoldable pub propagate : ℕ → ℕ → List C → Option (ℕ × List C)
  propagate address zero caches = some (zero, caches)
  propagate address (suc level) caches =
      back_fill address level caches >>= λ caches'. some (suc level, caches')

  -- The branch of `do_access` on a hit.
  unfoldable pub access_hit : ℕ → ℕ → C → ℕ → List C → Option (List C)
  access_hit address level cache handle caches = do
    cache' ← o.hit cache handle
    cache'' ←
        if ltb 0 level && is_exclusive (get_inclusiveness level)
        then o.invalidate cache' handle
        else some cache'
    some (set caches level cache'')

  -- `do_access` with `n` levels from `level` on; the level `levels()` is the main memory.
  unfoldable pub do_access : ℕ → ℕ → ℕ → List C → Option (ℕ × List C)
  do_access zero address level caches = propagate address level caches
  do_access (suc n) address level caches = do
    cache ← get_elem? caches level
    handle ← o.lookup cache address
    elim handle [
      | none ↦ do_access n address (level + 1) caches
      | some h ↦
          access_hit address level cache h caches >>= λ caches'. propagate address level caches'
    ]

  unfoldable pub levels : SimulatedMemory C → ℕ
  levels m = length m.caches

  unfoldable pub instrumented_access : SimulatedMemory C → ℕ → Option (ℕ × SimulatedMemory C)
  instrumented_access m address = do
    (level, caches) ← do_access (length m.caches) address 0 m.caches
    some (level, record m { caches = caches })

  unfoldable pub access : SimulatedMemory C → ℕ → Option (SimulatedMemory C)
  access m address = do (level, m') ← instrumented_access m address; some m'
