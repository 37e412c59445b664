-- ===== src/Measurement/Behaviour.antt =====
-- A memory whose addresses fall into one set of a replacement policy.
use cache_hound.Common.{ℕ, ◌≡◌, ◌≢◌, List, Option, some, get_elem?}
use cache_hound.Policy.{ReplacementPolicy}
use cache_hound.Sequence.Reference.{reference_access}
use cache_hound.Measurement.{InstrumentedMemory}

-- What a set of the policy does with the number of an address, the memory does with the address;
-- the first level is 0, and no other level is a hit.
pub record Behaves {M S : Type 0} (o : InstrumentedMemory M) (p : ReplacementPolicy S)
    (addresses : List ℕ) : Type 1 where
  pub Like : M → S × List (Option ℕ) → Type 0
  pub access :
      (m : M) (st st' : S × List (Option ℕ)) (addr actual h : ℕ)
      → Like m st
      → get_elem? addresses addr ≡ some actual
      → reference_access p addr st ≡ some (h, st')
      → (m' : M) × (o.access actual m ≡ some m') × Like m' st'
  pub hit :
      (m : M) (st st' : S × List (Option ℕ)) (addr actual : ℕ)
      → Like m st
      → get_elem? addresses addr ≡ some actual
      → reference_access p addr st ≡ some (1, st')
      → (m' : M) × (o.instrumented_access actual m ≡ some (0, m')) × Like m' st'
  pub miss :
      (m : M) (st st' : S × List (Option ℕ)) (addr actual : ℕ)
      → Like m st
      → get_elem? addresses addr ≡ some actual
      → reference_access p addr st ≡ some (0, st')
      → (level : ℕ) × (m' : M) × (o.instrumented_access actual m ≡ some (level, m'))
        × (level ≢ 0)
        × Like m' st'
