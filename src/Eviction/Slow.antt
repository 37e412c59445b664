-- ===== src/Eviction/Slow.antt =====
-- `reduce_eviction_set_slow` of lib/include/cachehound/algo/impl/reduce_eviction_set.hpp and
-- `minimize_eviction_set_slow` of lib/include/cachehound/algo/minimize_eviction_set.hpp. The
-- addresses are a vector that the source changes in place; an iterator is its distance from
-- `first`, which is also `crucial_begin`, and `last` is the end of the vector.
pub mod Swap
pub mod Crucial
pub mod Step
pub mod Minimal
pub mod Bounded
use cache_hound.Common.{
  ℕ, zero, suc, ◌+◌, ◌-◌, leb, ◌==◌, Bool, true, false, List, Option, none, some, length, get_elem?,
  take, set, if◌then◌else◌, ◌>>=◌,
}

-- `std::swap` on two elements of the vector.
unfoldable pub swap {ℓ} : {A : Type ℓ} → ℕ → ℕ → List A → Option (List A)
swap i j xs = do x ← get_elem? xs i; y ← get_elem? xs j; some (set (set xs i y) j x)

pub record Cursor : Type 0 where
  pub addresses : List ℕ
  pub candidates_begin : ℕ
  pub candidates_end : ℕ

abbrev pub start : List ℕ → Cursor
start addresses = record {
  addresses = addresses;
  candidates_begin = 0;
  candidates_end = length addresses;
}

-- The branches on `redundant_candidate`.
unfoldable pub judge : Bool → Cursor → Option Cursor
judge true c = some (record c { candidates_end = c.candidates_end - 1 })
judge false c = do
  addresses ← swap c.candidates_begin (c.candidates_end - 1) c.addresses
  some (record c { addresses = addresses; candidates_begin = c.candidates_begin + 1 })

module _ {M : Type 0} (is_eviction_set : List ℕ → M → Bool × M) where
  -- The test and the branches on its answer, which the loops share.
  unfoldable pub candidate_step : Cursor → M → Option (Cursor × M)
  candidate_step c memory =
      let (redundant_candidate, memory') =
        is_eviction_set (take (c.candidates_end - 1) c.addresses) memory in
      judge redundant_candidate c >>= λ c'. some (c', memory')

  -- The loop of `minimize_eviction_set_slow`, with fuel.
  unfoldable pub minimize_loop : ℕ → Cursor → M → Option (Cursor × M)
  minimize_loop zero c memory = none
  minimize_loop (suc fuel) c memory =
      let rest = candidate_step c memory >>= λ (c', memory'). minimize_loop fuel c' memory' in
      if c.candidates_end - c.candidates_begin == 0 then some (c, memory) else rest

  -- The new order of the addresses and the end of the minimized set.
  unfoldable pub minimize_eviction_set_slow : List ℕ → M → Option (ℕ × List ℕ × M)
  minimize_eviction_set_slow addresses memory = do
    (c, memory') ← minimize_loop (length addresses + 1) (start addresses) memory
    some (c.candidates_end, c.addresses, memory')

  -- The overload for a vector.
  unfoldable pub minimize_vector_slow : List ℕ → M → Option (Bool × List ℕ × M)
  minimize_vector_slow eviction_set memory = do
    (last, addresses, memory') ← minimize_eviction_set_slow eviction_set memory
    some (if last == 0 then (false, addresses, memory') else (true, take last addresses, memory'))

  -- The loop of `reduce_eviction_set_slow`, with fuel: the vector and the iterator returned.
  unfoldable pub reduce_loop : ℕ → ℕ → Cursor → M → Option (ℕ × List ℕ × M)
  reduce_loop max_size zero c memory = none
  reduce_loop max_size (suc fuel) c memory =
      let rest =
        candidate_step c memory >>= λ (c', memory'). reduce_loop max_size fuel c' memory' in
      if leb c.candidates_end max_size
      then some (c.candidates_end, c.addresses, memory)
      else (if c.candidates_end - c.candidates_begin == 0
          then some (0, c.addresses, memory)
          else rest)

  unfoldable pub reduce_eviction_set_slow : List ℕ → ℕ → M → Option (ℕ × List ℕ × M)
  reduce_eviction_set_slow addresses max_size memory =
      reduce_loop max_size (length addresses + 1) (start addresses) memory

  -- The overload for a vector.
  unfoldable pub reduce_vector_slow : List ℕ → ℕ → M → Option (Bool × List ℕ × M)
  reduce_vector_slow eviction_set max_size memory = do
    (last, addresses, memory') ← reduce_eviction_set_slow eviction_set max_size memory
    some (if last == 0 then (false, addresses, memory') else (true, take last addresses, memory'))
