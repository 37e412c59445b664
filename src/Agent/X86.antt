-- ===== src/Agent/X86.antt =====
-- The loop of `agent` in kernel/cachehound.c for x86-64. The fences, `pause` and `cpuid` order what
-- the processor does and change no state.
pub mod Serves
pub mod Requests
use cache_hound.Common.{
  ℕ, zero, suc, ◌+◌, ◌-◌, ◌*◌, ◌/◌, ◌%◌, ◌^◌, ◌==◌, ltb, Bool, List, [], ◌∷◌, Option, none, some,
  get_elem?, check, if◌then◌else◌, ◌>>=◌, ◌>>◌,
}
use cache_hound.Channel.{Channel, set_idle}
use cache_hound.Agent.{Answer, AgentCode, write_back, noninstrloop}

-- The instructions: `rdpmc` gives `%edx` and `%eax`.
pub record Processor (M : Type 0) : Type 0 where
  pub load : ℕ → M → M
  pub clflush : ℕ → M → M
  pub wbinvd : M → M
  pub rdpmc : ℕ → M → ℕ × ℕ

-- `0xFFFF000000000000 | x`.
abbrev pub canonical : ℕ → ℕ
canonical x = 0xFFFF000000000000 + x % 2 ^ 48

-- A word whose sign bit is set is read, any other is flushed.
module _ {M : Type 0} (p : Processor M) where
  unfoldable pub perform : ℕ → M → M
  perform x m = if ltb x (2 ^ 63) then p.clflush (canonical x) m else p.load (canonical x) m

  unfoldable pub read_counter : ℕ → M → ℕ
  read_counter i m = let (edx, eax) = p.rdpmc i m in edx % 2 ^ 32 * 2 ^ 32 + eax % 2 ^ 32

  -- `.instrloop`, on the word `i`: the counters before, the counters after, and the processor.
  unfoldable pub instrloop : ℕ → List ℕ → M → Option (List ℕ × M)
  instrloop i words m = do
    x ← get_elem? words i
    let r8 = read_counter 0 m
    let r9 = read_counter 1 m
    let r10 = read_counter 2 m
    let m' = perform x m
    let r11 = read_counter 0 m'
    let r15 = read_counter 1 m'
    let rdx = read_counter 2 m'
    some (r8 ∷ r9 ∷ r10 ∷ r11 ∷ r15 ∷ rdx ∷ [], m')

  unfoldable pub answer : Channel → M → Option (Answer M)
  answer ch m =
      let request = ch.control / 2 in
      if request == 0
      then some Answer.exit
      else if ltb 0 (request / 16)
      then some (Answer.done (set_idle ch) (p.wbinvd m))
      else if ltb 0 (request / 8)
      then (do k ← get_elem? ch.words 0; some (Answer.switched (set_idle ch) k))
      else do
        m' ← noninstrloop perform (request - 1) 0 ch.words m
        (counters, m'') ← instrloop (request - 1) ch.words m'
        some (Answer.done (record { control = 0; words = write_back counters ch.words }) m'')

  -- `salq $6` drops the bits of the index from 58 on.
  abbrev pub code : AgentCode M
  code = record { answer = answer; channel_index = λ k. k % 2 ^ 58 }
