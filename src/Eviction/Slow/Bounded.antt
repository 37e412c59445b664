-- ===== src/Eviction/Slow/Bounded.antt =====
-- The set that `reduce_eviction_set_slow` ends with, and when it fails.
use cache_hound.Common.{
  ℕ, zero, suc, ◌+◌, ◌-◌, ◌<◌, ◌≤◌, ◌≡◌, refl, Bool, true, List, some, length, take, leb, arith,
  Bool-cases, inl, inr, ◌⊎◌, ◌==◌, ==_iff, not-leb→lt,
}
use cache_hound.Eviction.{Answers}
use cache_hound.Eviction.Occurrences.{Rearranged}
use cache_hound.Eviction.Slow.{Cursor, start, reduce_loop, reduce_eviction_set_slow}
use cache_hound.Eviction.Slow.Crucial.{Split}
use cache_hound.Eviction.Slow.Step.{candidate_step-Split}
use cache_hound.Eviction.Slow.Minimal.{IsMinimal, start-Split, crucial_lem, ends-le, taken-evicts}

-- Either the set is small enough, or it is too large and no address of it can be left out.
abbrev pub Reduced : (List ℕ → Bool) → ℕ → ℕ → List ℕ → Type 0
Reduced evicts max_size last addresses =
    ((last ≤ max_size) × (last ≤ length addresses) × (evicts (take last addresses) ≡ true))
    ⊎ ((last ≡ 0)
        × ((n : ℕ) × (max_size < n) × (n ≤ length addresses) × IsMinimal evicts (take n addresses)))

module _ {M : Type 0} (is_eviction_set : List ℕ → M → Bool × M) (evicts : List ℕ → Bool)
    (t : Answers is_eviction_set evicts) where
  reduce_loop-Reduced :
      (max_size fuel : ℕ) (original : List ℕ) (c : Cursor) (memory : M)
      → Split evicts original c
      → c.candidates_begin ≤ c.candidates_end
      → c.candidates_end - c.candidates_begin < fuel
      → (last : ℕ) × (addresses : List ℕ) × (memory' : M) × (reduce_loop is_eviction_set max_size
            fuel c memory
          ≡ some (last, addresses, memory'))
        × Rearranged addresses original
        × Reduced evicts max_size last addresses
  unfolding reduce_loop
  reduce_loop-Reduced max_size zero original c memory v order enough = absurd (omega arith)
  reduce_loop-Reduced max_size (suc fuel) original c memory v order enough =
      elim (Bool-cases (leb c.candidates_end max_size)) [
        | inl small ↦ (
          c.candidates_end,
          c.addresses,
          memory,
          rw small refl,
          v.same,
          inl (ground arith, ends-le evicts v, taken-evicts evicts v),
        )
        | inr large ↦ elim (Bool-cases (c.candidates_end - c.candidates_begin == 0)) [
          | inl done ↦ (
            0,
            c.addresses,
            memory,
            rw (large, done) refl,
            v.same,
            inr (
              refl,
              (
                c.candidates_end,
                not-leb→lt _ _ large,
                ends-le evicts v,
                crucial_lem is_eviction_set evicts t original c v ((==_iff _ _).0 done),
              ),
            ),
          )
          | inr more ↦
              let (c1, memory1, run, v1, order1, less) =
                candidate_step-Split is_eviction_set evicts t original c memory v (ground arith) in
              let (last, addresses, memory2, run2, same, result) =
                reduce_loop-Reduced max_size fuel original c1 memory1 v1 order1 (omega arith) in
              (last, addresses, memory2, rw (large, more, run, run2) refl, same, result)
        ]
      ]

  -- For a test that answers a property of the addresses alone, which more addresses never make
  -- false, and a vector that has the property, the quadratic reduction ends without a fault and
  -- only rearranges the vector. Either at most `max_size` addresses stand before the iterator that
  -- it returns, and they have the property; or it returns the first iterator, and the vector starts
  -- with more than `max_size` addresses that have the property and lose it when any one of them is
  -- left out.
  pub reduce_eviction_set_slow-Reduced :
      (addresses : List ℕ) (max_size : ℕ) (memory : M)
      → evicts addresses ≡ true
      → (last : ℕ) × (addresses' : List ℕ) × (memory' : M) × (reduce_eviction_set_slow
            is_eviction_set addresses max_size memory
          ≡ some (last, addresses', memory'))
        × Rearranged addresses' addresses
        × Reduced evicts max_size last addresses'
  unfolding reduce_eviction_set_slow
  reduce_eviction_set_slow-Reduced addresses max_size memory h =
      reduce_loop-Reduced max_size (length addresses + 1) addresses (start addresses) memory
        (start-Split is_eviction_set evicts t addresses h) (omega arith) (omega arith)
