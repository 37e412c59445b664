-- ===== src/Agent/Arm/Requests.antt =====
-- The requests of a client by what they ask for, and what the ARMv8 loop is to do for them.
use cache_hound.Common.{
  ℕ, suc, ◌+◌, ◌*◌, ◌/◌, ◌%◌, ◌^◌, ◌<◌, ◌≡◌, refl, ap, ◌∙◌, List, [], ◌∷◌, ◌++◌, some, length,
  get_elem?, take, drop, map, All, arith,
}
use cache_hound.Channel.{Channel, data_size}
use cache_hound.Agent.{Answer, exit, done, switched}
use cache_hound.Agent.Contract.{executes}
use cache_hound.Agent.Arm.{
  Processor, Counted, branch, plain, isw, csw, cisw, perform, perform_branch, stored, answer,
}
use cache_hound.Agent.Arm.Serves.{count_answer_lem}

-- A read and its address, or an operation by set and way and its operand.
pub data Command : Type 0 where
  read_at : ℕ → Command
  clean_at : ℕ → Command
  invalidate_at : ℕ → Command
  clean_invalidate_at : ℕ → Command

-- An address of the kernel has the two upper bits, an operand has none of them.
abbrev pub IsCommand : Command → Type 0
IsCommand (read_at a) = a / 2 ^ 62 ≡ 3
IsCommand (clean_at x) = x < 2 ^ 62
IsCommand (invalidate_at x) = x < 2 ^ 62
IsCommand (clean_invalidate_at x) = x < 2 ^ 62

-- The word of a command: bit 63 stands for no clean, bit 62 for no invalidate.
abbrev pub word_of : Command → ℕ
word_of (read_at a) = a
word_of (clean_at x) = x + 2 ^ 62
word_of (invalidate_at x) = x + 2 ^ 63
word_of (clean_invalidate_at x) = x

-- The last command of a batch is the one that is timed.
pub data Request : Type 0 where
  stop : Request
  switch_to : ℕ → Request
  batch : List Command → Command → Request

-- What the client leaves in the channel for a request.
abbrev pub Carries : Request → Channel → Type 0
Carries stop ch = ch.control ≡ 1
Carries (switch_to k) ch = (ch.control ≡ 17) × (get_elem? ch.words 0 ≡ some k)
Carries (batch commands last) ch =
    (ch.control ≡ 1 + suc (length commands) * 2)
    × (length commands < data_size)
    × (length ch.words ≡ data_size)
    × (take (length commands) ch.words ≡ map word_of commands)
    × (get_elem? ch.words (length commands) ≡ some (word_of last))
    × All IsCommand commands
    × IsCommand last

branch_lem :
    (c : Command)
    → IsCommand c
    → branch (word_of c) ≡ elim c [
      | read_at a ↦ plain
      | clean_at x ↦ csw
      | invalidate_at x ↦ isw
      | clean_invalidate_at x ↦ cisw
    ]
unfolding branch
branch_lem (read_at a) h = rw h refl
branch_lem (clean_at x) h =
    let upper : (x + 2 ^ 62) / 2 ^ 62 ≡ 1 = omega (arith, h) in rw upper refl
branch_lem (invalidate_at x) h =
    let upper : (x + 2 ^ 63) / 2 ^ 62 ≡ 2 = omega (arith, h) in rw upper refl
branch_lem (clean_invalidate_at x) h =
    let upper : x / 2 ^ 62 ≡ 0 = omega (arith, h) in rw upper refl

module _ {M : Type 0} (p : Processor M) where
  -- An instruction gets the whole word, and the three operations by set and way are counted.
  abbrev pub run : Command → Counted M → Counted M
  run (read_at a) m = record m { core = p.load a m.core }
  run (clean_at x) m = record m {
    core = p.dc_csw (x + 2 ^ 62) m.core;
    csw_counter = (m.csw_counter + 1) % 2 ^ 64;
  }
  run (invalidate_at x) m = record m {
    core = p.dc_isw (x + 2 ^ 63) m.core;
    isw_counter = (m.isw_counter + 1) % 2 ^ 64;
  }
  run (clean_invalidate_at x) m = record m {
    core = p.dc_cisw x m.core;
    cisw_counter = (m.cisw_counter + 1) % 2 ^ 64;
  }

  abbrev pub run_all : List Command → Counted M → Counted M
  run_all [] m = m
  run_all (c ∷ cs) m = run_all cs (run c m)

  abbrev pub counter_values : M → List ℕ
  counter_values m = p.counter 0 m ∷ p.counter 1 m ∷ p.counter 2 m ∷ []

  -- Only a read is timed.
  abbrev pub reply : Command → M → M → List ℕ → List ℕ
  reply (read_at a) before after words =
      counter_values before ++ (counter_values after ++ drop 6 words)
  reply (clean_at x) before after words = words
  reply (invalidate_at x) before after words = words
  reply (clean_invalidate_at x) before after words = words

  abbrev pub served : Request → Channel → Counted M → Answer (Counted M)
  served stop ch m = exit
  served (switch_to k) ch m = switched (record ch { control = 0 }) k
  served (batch commands last) ch m =
      let before = run_all commands m in
      let after = run last before in
      done (record { control = 0; words = reply last before.core after.core ch.words }) after

  perform-word_of : (c : Command) (m : Counted M) → IsCommand c → perform p (word_of c) m ≡ run c m
  unfolding perform perform_branch
  perform-word_of (read_at a) m h = ap (λ b. perform_branch p b a m) (branch_lem (read_at a) h)
  perform-word_of (clean_at x) m h =
      ap (λ b. perform_branch p b (x + 2 ^ 62) m) (branch_lem (clean_at x) h)
  perform-word_of (invalidate_at x) m h =
      ap (λ b. perform_branch p b (x + 2 ^ 63) m) (branch_lem (invalidate_at x) h)
  perform-word_of (clean_invalidate_at x) m h =
      ap (λ b. perform_branch p b x m) (branch_lem (clean_invalidate_at x) h)

  executes-word_of :
      (cs : List Command) (m : Counted M)
      → All IsCommand cs
      → executes (perform p) (map word_of cs) m ≡ run_all cs m
  executes-word_of [] m h = refl
  executes-word_of (c ∷ cs) m (first, h) =
      ap (executes (perform p) (map word_of cs)) (perform-word_of c m first)
      ∙ executes-word_of cs (run c m) h

  stored-word_of :
      (c : Command) (before after : M) (words : List ℕ)
      → IsCommand c
      → stored p (branch (word_of c)) before after words ≡ reply c before after words
  stored-word_of (read_at a) before after words h =
      ap (λ b. stored p b before after words) (branch_lem (read_at a) h)
  stored-word_of (clean_at x) before after words h =
      ap (λ b. stored p b before after words) (branch_lem (clean_at x) h)
  stored-word_of (invalidate_at x) before after words h =
      ap (λ b. stored p b before after words) (branch_lem (invalidate_at x) h)
  stored-word_of (clean_invalidate_at x) before after words h =
      ap (λ b. stored p b before after words) (branch_lem (clean_invalidate_at x) h)

  -- The loop for ARMv8 does for each request that a client leaves in a channel what the request
  -- asks for: it ends on a stop, or sets the channel idle and goes on with the channel that a
  -- switch names; for a batch of at most 7 commands it loads the address of each read and performs
  -- and counts DC CSW, DC ISW or DC CISW on the word of each clean, invalidate or clean and
  -- invalidate, in their order, and leaves the channel idle, with the values of the counters 0 to 2
  -- right before and right after the last command if this is a read, and else with its words as
  -- they were.
  pub arm_answer_lem :
      (request : Request) (ch : Channel) (m : Counted M)
      → Carries request ch
      → answer p ch m ≡ some (served request ch m)
  unfolding answer
  arm_answer_lem stop ch m control = rw control refl
  arm_answer_lem (switch_to k) ch m (control, first) = rw (control, first) refl
  arm_answer_lem (batch commands last) ch m (control, few, size, words, word, all, timed) =
      let before : executes (perform p) (take (length commands) ch.words) m ≡ run_all commands m =
        ap (λ xs. executes (perform p) xs m) words ∙ executes-word_of commands m all in
      let between : Counted M = run_all commands m in
      let after : perform p (word_of last) between ≡ run last between =
        perform-word_of last between timed in
      let answered =
        λ (left : List ℕ) (a : Counted M). some (done (record { control = 0; words = left }) a) in
      count_answer_lem p (length commands) (word_of last) ch m few control size word
      ∙ ap
          (λ b.
            answered
              (stored p (branch (word_of last)) b.core (perform p (word_of last) b).core ch.words)
              (perform p (word_of last) b))
          before
      ∙ ap (λ a. answered (stored p (branch (word_of last)) between.core a.core ch.words) a) after
      ∙ ap (λ left. answered left (run last between))
          (stored-word_of last between.core (run last between).core ch.words timed)
