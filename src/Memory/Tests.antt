-- ===== src/Memory/Tests.antt =====
-- Two levels of caches with one line each, and instances of the theorems.
use cache_hound.Common.{ℕ, ◌<◌, ◌≡◌, [], ◌∷◌, some, length, arith, All, ◌⊎◌}
use cache_hound.Policy.Order.{iota}
use cache_hound.Policy.Fifo
use cache_hound.Policy.Fifo.Queue
use cache_hound.Cache.{SetAssociativeCache, SetAssociativePolicy}
use cache_hound.Cache.Basic
use cache_hound.Cache.Basic.{BasicSetAssociativePolicy, basic}
use cache_hound.Cache.Basic.Sets
use cache_hound.Cache.Contract.{SetContract}
use cache_hound.Cache.Lookup
use cache_hound.Cache.Store
use cache_hound.Memory.{SimulatedMemory, instrumented_access}
use cache_hound.Memory.Contract.{CacheContract, set_associative, set_associative-CacheContract}
use cache_hound.Memory.Filling.{HeldAt}
use cache_hound.Memory.Access.{instrumented_access_lem}

abbrev BasicFifo : Type 0
BasicFifo = BasicSetAssociativePolicy Fifo.Fifo

abbrev fifo_policy : SetAssociativePolicy BasicFifo
fifo_policy = basic Fifo.fifo

abbrev fifo_contract : SetContract fifo_policy
fifo_contract = Sets.basic-SetContract Fifo.fifo Queue.fifo-Contract

abbrev fifo_1 : Fifo.Fifo
fifo_1 = record { order = iota 1 0 }

-- One set.
abbrev policy_1 : BasicFifo
policy_1 =
    Sets.copies Fifo.fifo Queue.fifo-Contract (record { index_bits = 0; set_index = λ address. 0 })
      fifo_1

policy_1-IsValid : Sets.IsValid Fifo.fifo Queue.fifo-Contract policy_1
unfolding Queue.fifo-Contract Fifo.ways iota
policy_1-IsValid =
    (Sets.init-IsValid Fifo.fifo Queue.fifo-Contract
      (record { index_bits = 0; set_index = λ address. 0 }) fifo_1 (λ address. omega arith)
      (Queue.fresh-IsValid 1 (omega arith)) (omega arith) (omega arith)).1

abbrev cache_1 : SetAssociativeCache BasicFifo
cache_1 = Store.unused fifo_policy fifo_contract policy_1

cache_1-IsValid : Lookup.IsValid fifo_policy fifo_contract cache_1
unfolding Sets.basic-SetContract Basic.ways Basic.index_bits Fifo.ways iota
cache_1-IsValid =
    (Store.init-Cached fifo_policy fifo_contract policy_1 policy_1-IsValid (omega arith)
      (omega arith)).1

abbrev caches_contract : CacheContract (set_associative fifo_policy fifo_contract)
caches_contract = set_associative-CacheContract fifo_policy fifo_contract

abbrev memory_2 : SimulatedMemory (SetAssociativeCache BasicFifo)
memory_2 = record {
  regions = record { base = 0; size = 4096 } ∷ [];
  offset_bits = 0;
  caches = cache_1 ∷ cache_1 ∷ [];
}

memory_2-IsValid : All caches_contract.IsValid memory_2.caches
unfolding set_associative-CacheContract
memory_2-IsValid = (cache_1-IsValid, (cache_1-IsValid, tt))

instrumented_access_lem_example :
    (found : ℕ) × (m' : SimulatedMemory (SetAssociativeCache BasicFifo)) × (instrumented_access
        (set_associative fifo_policy fifo_contract)
        memory_2
        7
      ≡ some (found, m'))
    × ((found ≡ length memory_2.caches)
        ⊎ HeldAt
            (set_associative fifo_policy fifo_contract)
            caches_contract
            memory_2.caches
            found
            7)
    × ((j : ℕ)
        → j < found
        → ¬ HeldAt (set_associative fifo_policy fifo_contract) caches_contract memory_2.caches j 7)
    × All caches_contract.IsValid m'.caches
    × (length m'.caches ≡ length memory_2.caches)
    × HeldAt (set_associative fifo_policy fifo_contract) caches_contract m'.caches 0 7
instrumented_access_lem_example =
    instrumented_access_lem (set_associative fifo_policy fifo_contract) caches_contract memory_2
      memory_2-IsValid (omega arith) 7
