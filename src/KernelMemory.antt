-- ===== src/KernelMemory.antt =====
-- lib/include/cachehound/backends/kernel_memory.hpp with impl/kernel_memory.ipp: the client of the
-- agent. The system is the client together with the agent, which runs while the client waits.
pub mod Requests
pub mod Runs
pub mod Waiting
pub mod Represents
pub mod Buffering
pub mod Accesses
pub mod Instrumented
pub mod Switching
pub mod Interleaving
pub mod SetWay
pub mod Regions
mod Tests
use cache_hound.Common.{
  ℕ, zero, suc, ◌+◌, ◌*◌, ◌/◌, ◌%◌, ◌^◌, ◌==◌, ltb, leb, Bool, true, false, List, ◌++◌, Option,
  none, some, word, length, get_elem?, set, write, take, drop, check, if◌then◌else◌, ◌>>=◌, ◌>>◌,
}
use cache_hound.Channel.{Channel, set_access, idle_seen}
use cache_hound.Agent.{Agent, AgentCode, round}

-- `basic_extended_memory_region`.
pub record ExtendedRegion : Type 0 where
  pub base : ℕ
  pub physical_base : ℕ
  pub size : ℕ

-- `ch_ioc_cache_info`.
pub record CacheInfo : Type 0 where
  pub levels : ℕ
  pub offset_bits : ℕ
  pub sets : List ℕ
  pub ways : List ℕ

-- `stats_type`, with the fields of both processors.
pub record Stats : Type 0 where
  pub accesses : ℕ
  pub instrumented_accesses : ℕ
  pub flushes : ℕ
  pub channel_switches : ℕ
  pub clflushes : ℕ
  pub wbinvds : ℕ
  pub csws : ℕ
  pub isws : ℕ
  pub cisws : ℕ

pub record KernelMemory : Type 0 where
  pub active_channel : ℕ
  pub channel_count : ℕ
  pub regions : List ExtendedRegion
  pub buffer : List ℕ
  pub buffered : ℕ
  pub address_checker : ℕ → Bool
  pub stats : Stats
  pub cache_info : CacheInfo

pub record System (M : Type 0) : Type 0 where
  pub memory : KernelMemory
  pub agent : Agent M

abbrev pub put : {M : Type 0} → ℕ → Channel → Agent M → Agent M
put i ch a = record a { channels = set a.channels i ch }

-- `stats_.x++`.
abbrev pub incremented : ℕ → ℕ
incremented n = (n + 1) % word

-- The two assertions of an access.
abbrev pub check_address : KernelMemory → ℕ → Option (Unit {0})
check_address k address = check (address / 2 ^ 62 == 3) >> check (k.address_checker address)

module _ {M : Type 0} where
  -- `buffer_[buffered_++] = address`.
  unfoldable pub push : ℕ → System M → Option (System M)
  push address s =
      let k = s.memory in
      write k.buffer k.buffered address >>= λ buffer.
      some (record s { memory = record k { buffer = buffer; buffered = k.buffered + 1 } })

  abbrev pub count_stat : (Stats → Stats) → System M → System M
  count_stat f s = record s { memory = record (s.memory) { stats = f s.memory.stats } }

module _ {M : Type 0} (code : AgentCode M) where
  -- `ch_channel_wait_for_idle`, while the agent has at most `n` rounds.
  unfoldable pub wait_for_idle : ℕ → ℕ → Agent M → Option (Agent M)
  wait_for_idle zero i a = do ch ← get_elem? a.channels i; check (idle_seen ch); some a
  wait_for_idle (suc n) i a = do
    ch ← get_elem? a.channels i
    elim (idle_seen ch) [ true ↦ some a | false ↦ round code a >>= λ a'. wait_for_idle n i a' ]

  -- Every channel can hold a request, and a round answers one.
  abbrev pub wait : ℕ → Agent M → Option (Agent M)
  wait i a = wait_for_idle (length a.channels) i a

  unfoldable pub flush : System M → Option (System M)
  flush s =
      let k = s.memory in
      if k.buffered == 0 then some s else do
        check (leb k.buffered (length k.buffer))
        a ← wait k.active_channel s.agent
        ch ← get_elem? a.channels k.active_channel
        let ch' = record ch { words = take k.buffered k.buffer ++ drop k.buffered ch.words }
        some (record {
          memory = record k {
            buffered = 0;
            stats = record (k.stats) { flushes = incremented k.stats.flushes };
          };
          agent = put k.active_channel (set_access ch' k.buffered) a;
        })

  unfoldable pub internal_access : ℕ → System M → Option (System M)
  internal_access address s = do
    s' ← push address s
    if s'.memory.buffered == length s'.memory.buffer then flush s' else some s'

  unfoldable pub access : ℕ → System M → Option (System M)
  access address s = do
    check_address s.memory address
    s' ← internal_access address s
    some (count_stat (λ t. record t { accesses = incremented t.accesses }) s')

  unfoldable pub instrumented_access :
      (ℕ → ℕ → ℕ → ℕ → ℕ → ℕ → ℕ) → ℕ → System M → Option (ℕ × System M)
  instrumented_access pmu_handler address s = do
    check_address s.memory address
    pushed ← push address s
    flushed ← flush pushed
    let k = flushed.memory
    a ← wait k.active_channel flushed.agent
    let s' =
        count_stat (λ t. record t { instrumented_accesses = incremented t.instrumented_accesses })
          (record flushed { agent = a })
    ch ← get_elem? a.channels k.active_channel
    evt0_before ← get_elem? ch.words 0
    evt1_before ← get_elem? ch.words 1
    evt2_before ← get_elem? ch.words 2
    evt0_after ← get_elem? ch.words 3
    evt1_after ← get_elem? ch.words 4
    evt2_after ← get_elem? ch.words 5
    some (pmu_handler evt0_before evt1_before evt2_before evt0_after evt1_after evt2_after, s')

  unfoldable pub switch_channel : ℕ → System M → Option (System M)
  switch_channel channel s = do
    check (ltb channel s.memory.channel_count)
    flushed ← flush s
    let k = flushed.memory
    a ← wait k.active_channel flushed.agent
    ch ← get_elem? a.channels k.active_channel
    words ← write ch.words 0 channel
    let requested = put k.active_channel (set_access (record ch { words = words }) 8) a
    a' ← wait channel requested
    some (
        count_stat (λ t. record t { channel_switches = incremented t.channel_switches })
          (record { memory = record k { active_channel = channel }; agent = a' }))

  unfoldable pub switch_to_next : System M → Option (System M)
  switch_to_next s = do
    let k = s.memory
    check (ltb 0 k.channel_count)
    switch_channel ((k.active_channel + 5) % k.channel_count) s

  -- On x86-64.
  unfoldable pub clflush : ℕ → System M → Option (System M)
  clflush address s = internal_access (address % 2 ^ 63) s >>= λ s'.
      some (count_stat (λ t. record t { clflushes = incremented t.clflushes }) s')

  unfoldable pub wbinvd : System M → Option (System M)
  wbinvd s = do
    flushed ← flush s
    let k = flushed.memory
    a ← wait k.active_channel flushed.agent
    ch ← get_elem? a.channels k.active_channel
    some (
        count_stat (λ t. record t { wbinvds = incremented t.wbinvds })
          (record flushed { agent = put k.active_channel (set_access ch 16) a }))
