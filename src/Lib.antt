-- ===== src/Lib.antt =====
-- Verification library of CacheHound, a library and command-line tool that finds the replacement and
-- placement policies of CPU caches.
--
-- The tool drives a memory (a kernel module, or a simulated one), measures sequences of accesses and
-- compares the hits with what a candidate policy predicts. The candidates are the policies of
-- lib/include/cachehound/policies/replacement; `simulate_sequence`
-- (lib/include/cachehound/algo/simulate_sequence.hpp) predicts.
--
--   Common          Boolean tests, lists and vectors over native numbers, bit counts, machine words.
--   Policy          The concept `replacement_policy` as a record of operations over a state type, and
--                   the contract that its users rely on: a validity predicate and which ways may be
--                   hit, both kept by every operation.
--   Policy.Order    `std::iota`, `std::find` and `std::rotate` on the vector `order_`.
--   Policy.Cyclic   `check_cyclic_eviction` (lib/include/cachehound/util/replacement_policy.hpp).
--   Policy.Rotating What FIFO and LRU share.
--   Policy.Fifo, Policy.Lru, Policy.Srrip, Policy.Plru, Policy.LinearInit, Policy.LruWrapped
--                   fifo_, lru_, srrip_ (with mru_ and qlru_), plru_, linear_init_ and
--                   lru_wrapped_replacement_policy.hpp (with lru_plru_).
--   Sequence        `simulate_sequence`; Sequence.Reference is the cache that it stands for.
--   Search          `group_test` (lib/include/cachehound/util/detail/group_test.hpp) and `locate_set`.
--   Eviction        The tests of eviction sets; Eviction.Occurrences compares lists up to order.
--   Eviction.Slow   The quadratic loops of lib/include/cachehound/algo/impl/reduce_eviction_set.hpp and
--                   lib/include/cachehound/algo/minimize_eviction_set.hpp.
--   Eviction.Groups The reduction by groups of the former file.
--   Cache           sim/include/cachehound/sim/cache/set_associative_cache.hpp; Cache.Contract is what it
--                   relies on in its policy.
--   Cache.Basic     sim/include/cachehound/sim/policy/basic_set_associative_policy.hpp; Cache.Basic.Sets
--                   fills the cache's contract from the one of the replacement policy.
--   Memory          sim/include/cachehound/sim/backends/simulated_memory.hpp; Memory.Contract is what it
--                   relies on in its caches, and that Cache keeps it.
--   Channel         kernel/ch_channel.h: the channels that the client and the agent share.
--   Agent           The loop of the agent in kernel/cachehound.c; Agent.X86 and Agent.Arm are its two
--                   versions, each with its Requests, what a client asks for; Agent.Contract is what the
--                   client relies on.
--   KernelMemory    The client: lib/include/cachehound/backends/kernel_memory.hpp with its files under
--                   impl. KernelMemory.Requests to .Waiting are the rounds of the agent,
--                   .Represents to .Interleaving the client with it, .SetWay the operations of ARMv8
--                   and .Regions the memory regions.
--   Device          The rest of kernel/cachehound.c: the state of an open file, its resources and the
--                   threads that refer to it.
--   Measurement     The tests of eviction sets in lib/include/cachehound/algo/impl/is_eviction_set.hpp,
--                   lib/include/cachehound/algo/measure_sequence.hpp and the strategies of
--                   lib/include/cachehound/strategies; Measurement.Behaviour is a memory that answers as
--                   a policy does.
--   AddressMap      lib/include/cachehound/util/address_checker.hpp and the translation of
--                   lib/include/cachehound/adapters/physical_adapter.hpp, over a map sorted by its keys.
--   Bypass          lib/include/cachehound/adapters/impl/bypass_adapter.hpp, for the regions of the kernel
--                   client. Bypass.Full counts the complete eviction sets, Bypass.Held is what the sets
--                   hold while they are filled, Bypass.Reserved is what a region leaves to the user and
--                   Bypass.Collecting is the loop over its addresses.
--   Reversal        `filter_replacement_policies` (lib/include/cachehound/util/sequence.hpp) and
--                   `majority_element`
--                   (cli/include/cachehound/cli/commands/impl/reverse_replacement_command.hpp).
--                   Reversal.Names is the tables of names in
--                   lib/include/cachehound/util/replacement_policy.hpp.
--   Placement       modular_ and generic_placement_policy.hpp of
--                   lib/include/cachehound/policies/placement.
--
-- Search and Eviction call tests that measure a real memory: there they are parameters, which take
-- the state of that memory and return a new one, and what the algorithms expect of them is a record
-- of laws.
--
-- A state is a record with the source's members, without their final underscore. An operation takes
-- the state and returns the new one. `none` is a failed assertion, or an access out of the bounds of a
-- vector, which the source leaves undefined; a theorem that gives `some` excludes both. The constructor
-- of a class is `init`. A variable that the source passes by reference is returned beside the result.
--
-- The client of the kernel module and the agent are one system. The client's operations are steps, in
-- which the agent has the rounds that the operation waits for; between them the agent has any number
-- of rounds, so that the buffer, the channels and the agent may hold several requests. A round is
-- atomic: it reads the request and the words, performs them, and sets the channel idle. A client that
-- waits does so for at most as many rounds as there are channels, since a round leaves one channel
-- fewer with a request. The instructions of the processor are a record of functions on its state, and
-- the barriers and `cpuid` change nothing. The channels are 64, a page of 64 bytes each. The kernel's
-- allocators give numbered resources, and which of them fail is a parameter.
--
-- Numbers of type `std::size_t` are native numbers; arithmetic that can wrap around is written
-- modulo `word`, which is 2 ^ 64. The loop of SRRIP's `miss` has no bound in the source: it runs on
-- `distant_future + 1` units of fuel, and on a valid state they are enough. The bisection and the
-- loops of the reductions run on one unit more than there are elements, which is enough since each
-- round takes at least one away. The loop over the addresses of a region runs on one unit more than
-- the region has bytes, and each round takes a step of at least one byte; the retries of an access
-- of the bypass adapter, which the source does not bound, run on the fuel they are given. The loop
-- over the names of the nested policies has 63 rounds, in which 4 doubles to 2 ^ 64. All other
-- loops are bounded by the source and recurse on what is left to do. Several parts shift a 1 of
-- type `int`: `int_shift` is its value as a `std::size_t` and faults where the shift is undefined,
-- and the theorems about PLRU and `locate_set` ask for an exponent below 31. `Plru.ways` cannot
-- fault and is 0 where the shift is undefined; the bypass adapter faults from 31 on.
--
-- Copying a policy or a cache copies its state, so that the type erasure of the any_ classes needs
-- no model of its own, nor do the operations of an adapter that call the memory below with the same
-- arguments. The search for eviction sets, the address distributions, the bypass adapter for ARMv8,
-- the affine placement policy and its reverser are not modelled here. Of the kernel module, the
-- registers of ch_cache_info.h and ch_pmc.h, the set-up of the isolation, `device_mmap` and the
-- registration of the module are not modelled, and of its client the system calls; the client's
-- operations take the answer of `address_checker` as a parameter. Of the command line only the vote
-- on measurements is modelled; the rest parses arguments and prints.

pub mod Common
pub mod Policy
pub mod Sequence
pub mod Search
pub mod Eviction
pub mod Cache
pub mod Channel
pub mod Agent
pub mod KernelMemory
pub mod Device
pub mod Memory
pub mod Placement
pub mod Measurement
pub mod AddressMap
pub mod Bypass
pub mod Reversal
