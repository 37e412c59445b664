-- ===== src/KernelMemory/Tests.antt =====
-- The client and the agents on a processor that logs what it does.
use cache_hound.Common.{
  ℕ, suc, ◌+◌, ◌-◌, ◌%◌, ◌^◌, ◌≡◌, ◌<◌, ◌↔◌, refl, true, false, List, [], ◌∷◌, ◌++◌, none, some,
  length, countr_zero, write, arith, replicate,
}
use cache_hound.Channel.{
  Channel, wait_for_access, set_access, set_idle, idle_seen, wait_for_access-set_access,
}
use cache_hound.Agent.{Agent, AgentCode}
use cache_hound.Agent.X86
use cache_hound.Agent.X86.Serves.{x86_contract}
use cache_hound.Agent.X86.Requests as X86Requests
use cache_hound.Agent.Arm
use cache_hound.Agent.Arm.{Counted, Branch}
use cache_hound.Agent.Arm.Serves.{arm_contract}
use cache_hound.Agent.Arm.Requests as ArmRequests
use cache_hound.KernelMemory.{
  KernelMemory, System, ExtendedRegion, access, internal_access, push, instrumented_access,
  switch_to_next, wait,
}
use cache_hound.KernelMemory.Regions.{
  Allocated, insert, sort, merge, merge_from, defragment_regions, allocate_regions,
}
use cache_hound.KernelMemory.Regions.Defragmentation.{
  Fits, Translates, defragment_regions-Translates,
}
use cache_hound.KernelMemory.Runs.{rest}
use cache_hound.KernelMemory.Waiting.{Waited, wait_lem}
use cache_hound.KernelMemory.SetWay.{
  set_way_word, set_way_fields, bit_ceil_from, internal_cisw, index_bits, round_up,
}
use cache_hound.KernelMemory.SetWay.Decoding.{internal_cisw_lem}
use cache_hound.KernelMemory.Represents.{Represents}
use cache_hound.KernelMemory.Accesses.{Accessible, Ready}
use cache_hound.KernelMemory.Instrumented.{handle, instrumented_access-counters}
use cache_hound.KernelMemory.Interleaving.{
  Step, Reach, begin, later, initial, Good, Reach-Good, Reach-operations,
}

-- A processor that logs the addresses; the counter is the number of the operations.
abbrev log_x86 : X86.Processor (List ℕ)
log_x86 = record {
  load = λ x m. x ∷ m;
  clflush = λ x m. suc x ∷ m;
  wbinvd = λ m. [];
  rdpmc = λ i m. (1, (length m + i) % 2 ^ 32);
}

abbrev x86 : AgentCode (List ℕ)
x86 = X86.code log_x86

abbrev client : KernelMemory
client = record {
  active_channel = 0;
  channel_count = 64;
  regions = [];
  buffer = [];
  buffered = 0;
  address_checker = λ x. true;
  stats = record {
    accesses = 0;
    instrumented_accesses = 0;
    flushes = 0;
    channel_switches = 0;
    clflushes = 0;
    wbinvds = 0;
    csws = 0;
    isws = 0;
    cisws = 0;
  };
  cache_info = record {
    levels = 1;
    offset_bits = 6;
    sets = 64 ∷ 0 ∷ 0 ∷ [];
    ways = 8 ∷ 0 ∷ 0 ∷ [];
  };
}

abbrev first : System (List ℕ)
first = initial (x86_contract log_x86) client []

abbrev address : ℕ
address = 0xFFFF888000000040

accessible : Accessible first address
accessible = record { upper = refl; known = refl }

reads : (s : System (List ℕ)) × (access x86 address first ≡ some s)
unfolding access internal_access push write
reads = (_, refl)

abbrev second : System (List ℕ)
second = reads.0

one_read : Reach (x86_contract log_x86) client [] second ((x86_contract log_x86).execute address [])
one_read = later begin (Step.read address second accessible reads.1)

ready : Good (x86_contract log_x86) first []
ready = Reach-Good (x86_contract log_x86) client begin

Reach-Good_example : Good (x86_contract log_x86) second ((x86_contract log_x86).execute address [])
Reach-Good_example = Reach-Good (x86_contract log_x86) client one_read

Reach-operations_example :
    (s' : System (List ℕ)) × (switch_to_next x86 second ≡ some s')
    × Represents (x86_contract log_x86) s' ((x86_contract log_x86).execute address [])
Reach-operations_example = (Reach-operations (x86_contract log_x86) client one_read).2

instrumented_access-counters_example :
    (level : ℕ) × (s' : System (List ℕ)) × (instrumented_access x86
        (λ a b d e f g. e - a)
        address
        first
      ≡ some (level, s'))
    × (handle
          (λ a b d e f g. e - a)
          ((x86_contract log_x86).counters []
            ++ (x86_contract log_x86).counters ((x86_contract log_x86).execute address []))
        ≡ some level)
    × Ready (x86_contract log_x86) first s' ((x86_contract log_x86).execute address [])
instrumented_access-counters_example =
    instrumented_access-counters (x86_contract log_x86) (λ a b d e f g. e - a) address first []
      ready.now (omega arith) accessible

wait_lem_example :
    (a' : Agent (List ℕ)) × (wait x86 0 first.agent ≡ some a')
    × Waited (x86_contract log_x86) first.agent first.agent 0 a'
wait_lem_example =
    wait_lem (x86_contract log_x86) 0 rest {e = record { control = 0; words = replicate 7 0 }} refl
      refl (omega arith)

-- Two words: a flush, and a read.
abbrev batch : Channel
batch = record { control = 5; words = 0x7FFF800000000040 ∷ address ∷ 0 ∷ 0 ∷ 0 ∷ 0 ∷ 0 ∷ [] }

abbrev log_arm : Arm.Processor (List ℕ)
log_arm = record {
  load = λ x m. x ∷ m;
  dc_csw = λ x m. 1 ∷ x ∷ m;
  dc_isw = λ x m. 2 ∷ x ∷ m;
  dc_cisw = λ x m. 3 ∷ x ∷ m;
  counter = λ i m. length m + i;
}

abbrev fresh : Counted (List ℕ)
fresh = record { core = []; csw_counter = 0; isw_counter = 0; cisw_counter = 0 }

-- A clean by set and way, and a read.
abbrev arm_batch : Channel
arm_batch = record { control = 5; words = 0x4000000000000040 ∷ address ∷ 0 ∷ 0 ∷ 0 ∷ 0 ∷ 0 ∷ [] }

arm_answer_lem_example :
    Arm.answer log_arm arm_batch fresh
    ≡ some (
        ArmRequests.served log_arm
          (ArmRequests.batch (ArmRequests.clean_at 0x40 ∷ []) (ArmRequests.read_at address))
          arm_batch
          fresh)
arm_answer_lem_example =
    ArmRequests.arm_answer_lem log_arm
      (ArmRequests.batch (ArmRequests.clean_at 0x40 ∷ []) (ArmRequests.read_at address)) arm_batch
      fresh (refl, omega arith, refl, refl, refl, (omega arith, tt), refl)

abbrev arm_first : System (Counted (List ℕ))
arm_first = initial (arm_contract log_arm) client fresh

arm_ready : Good (arm_contract log_arm) arm_first fresh
arm_ready = Reach-Good (arm_contract log_arm) client begin

set_way : (x : ℕ) × (set_way_word arm_first.memory true false 0 3 2 ≡ some x)
unfolding set_way_word set_way_fields countr_zero bit_ceil_from
set_way = (_, refl)

internal_cisw_lem_example :
    (s' : System (Counted (List ℕ))) × (internal_cisw (Arm.code log_arm) true false 0 3 2 arm_first
      ≡ some s')
    × Ready
        (arm_contract log_arm)
        arm_first
        s'
        (Arm.perform_branch log_arm Branch.csw set_way.0 fresh)
internal_cisw_lem_example =
    internal_cisw_lem log_arm true false 0 3 2 set_way.0 arm_first fresh arm_ready.now (omega arith)
      set_way.1

index_bits_of_12288 :
    index_bits (record client { cache_info = record (client.cache_info) { sets = 12288 ∷ [] } }) 0
    ≡ some 14
unfolding index_bits round_up countr_zero
index_bits_of_12288 = refl

abbrev scattered : List ExtendedRegion
scattered =
    record { base = 0x3000; physical_base = 0x8000; size = 0x1000 }
    ∷ record { base = 0x1000; physical_base = 0x6000; size = 0x1000 }
    ∷ record { base = 0x2000; physical_base = 0x7000; size = 0x1000 }
    ∷ []

defragmented :
    defragment_regions scattered
    ≡ record { base = 0x1000; physical_base = 0x6000; size = 0x3000 } ∷ []
unfolding defragment_regions sort insert merge merge_from
defragmented = refl

fit :
    (b p : ℕ)
    → b < 0x10000
    → p < 0x10000
    → Fits (record { base = b; physical_base = p; size = 0x1000 })
fit b p lt lt' = record { virtual = omega (arith, lt); real = omega (arith, lt') }

defragment_regions-Translates_example :
    Translates (defragment_regions scattered) 0x2345 0x7345 ↔ Translates scattered 0x2345 0x7345
defragment_regions-Translates_example = defragment_regions-Translates scattered 0x2345 0x7345 (
  fit 0x3000 0x8000 (omega arith) (omega arith),
  (
    fit 0x1000 0x6000 (omega arith) (omega arith),
    (fit 0x2000 0x7000 (omega arith) (omega arith), tt),
  ),
)

-- A kernel without free memory: four tries, and the constructor throws.
exhausted : allocate_regions {K = ℕ} (λ order k. (none, k)) 4096 10 7 3 0 ≡ some Allocated.failed
unfolding allocate_regions
exhausted = refl

wait_for_access-set_access_example :
    (wait_for_access (set_access batch 5) ≡ some 5)
    × (idle_seen (set_access batch 5) ≡ false)
    × (wait_for_access (set_idle batch) ≡ none)
    × (idle_seen (set_idle batch) ≡ true)
wait_for_access-set_access_example = wait_for_access-set_access batch 5 (omega arith)
