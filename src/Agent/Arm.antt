-- ===== src/Agent/Arm.antt =====
-- The loop of `agent` in kernel/cachehound.c for ARMv8. The barriers and `YIELD` order what the
-- processor does and change no state.
pub mod Serves
pub mod Requests
use cache_hound.Common.{
  ℕ, zero, suc, ◌+◌, ◌-◌, ◌*◌, ◌/◌, ◌%◌, ◌^◌, ◌==◌, Bool, true, false, List, [], ◌∷◌, ◌++◌, Option,
  none, some, get_elem?, check, if◌then◌else◌, ◌>>=◌, ◌>>◌,
}
use cache_hound.Channel.{Channel, set_idle}
use cache_hound.Agent.{Answer, AgentCode, write_back, noninstrloop}

-- The instructions: `dc_csw` is `DC CSW`, and `counter i` reads `PMEVCNTRi_EL0`.
pub record Processor (M : Type 0) : Type 0 where
  pub load : ℕ → M → M
  pub dc_csw : ℕ → M → M
  pub dc_isw : ℕ → M → M
  pub dc_cisw : ℕ → M → M
  pub counter : ℕ → M → ℕ

-- The processor and the counters of the operations.
pub record Counted (M : Type 0) : Type 0 where
  pub core : M
  pub csw_counter : ℕ
  pub isw_counter : ℕ
  pub cisw_counter : ℕ

-- Where the comparison of the two upper bits branches to.
pub data Branch : Type 0 where
  csw : Branch
  isw : Branch
  cisw : Branch
  plain : Branch

unfoldable pub branch : ℕ → Branch
branch x =
    let x3 = x / 2 ^ 62 % 4 in
    if x3 == 3 then plain else if x3 == 2 then isw else if x3 == 0 then cisw else csw

module _ {M : Type 0} (p : Processor M) where
  unfoldable pub perform_branch : Branch → ℕ → Counted M → Counted M
  perform_branch csw x m = record m {
    core = p.dc_csw x m.core;
    csw_counter = (m.csw_counter + 1) % 2 ^ 64;
  }
  perform_branch isw x m = record m {
    core = p.dc_isw x m.core;
    isw_counter = (m.isw_counter + 1) % 2 ^ 64;
  }
  perform_branch cisw x m = record m {
    core = p.dc_cisw x m.core;
    cisw_counter = (m.cisw_counter + 1) % 2 ^ 64;
  }
  perform_branch plain x m = record m { core = p.load x m.core }

  unfoldable pub perform : ℕ → Counted M → Counted M
  unfolding perform_branch branch
  perform x m = perform_branch (branch x) x m

  abbrev pub read_counters : M → List ℕ
  read_counters m = p.counter 0 m ∷ p.counter 1 m ∷ p.counter 2 m ∷ []

  -- What the end of `.instrloop` leaves in the words: only a read stores counters.
  abbrev pub stored : Branch → M → M → List ℕ → List ℕ
  stored plain m m' words = write_back (read_counters m ++ read_counters m') words
  stored _ m m' words = words

  -- `.instrloop`, on the word `i`.
  unfoldable pub instrloop : ℕ → List ℕ → Counted M → Option (List ℕ × Counted M)
  instrloop i words m = do
    x ← get_elem? words i
    let m' = perform x m
    some (stored (branch x) m.core m'.core words, m')

  unfoldable pub answer : Channel → Counted M → Option (Answer (Counted M))
  answer ch m =
      let request = ch.control / 2 in
      if request == 0
      then some Answer.exit
      else if request / 8 % 2 == 1
      then (do k ← get_elem? ch.words 0; some (Answer.switched (set_idle ch) k))
      else do
        m' ← noninstrloop perform (request - 1) 0 ch.words m
        (words, m'') ← instrloop (request - 1) ch.words m'
        some (Answer.done (record { control = 0; words = words }) m'')

  -- `UBFIZ x0, x0, #6, #32` keeps the 32 lower bits of the index.
  abbrev pub code : AgentCode (Counted M)
  code = record { answer = answer; channel_index = λ k. k % 2 ^ 32 }
