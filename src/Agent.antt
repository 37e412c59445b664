-- ===== src/Agent.antt =====
-- The loop of `agent` in kernel/cachehound.c, between its set-up and its end: what a processor
-- gives it, what an answer to a request is, and the rounds that answer the requests.
pub mod Contract
pub mod X86
pub mod Arm
use cache_hound.Common.{
  ℕ, zero, suc, ◌+◌, ◌≡◌, ◌==◌, Bool, true, false, List, Option, none, some, get_elem?, set, drop,
  ◌++◌, if◌then◌else◌, ◌>>=◌,
}
use cache_hound.Channel.{Channel}

-- What a request comes to: the end of the loop, an idle channel, or another channel.
pub data Answer (M : Type 0) : Type 0 where
  exit : Answer M
  done : Channel → M → Answer M
  switched : Channel → ℕ → Answer M

-- The part of the loop that differs between the processors: `.retry` to the next `.retry` on a
-- request, and the channel that a value of `active_channel` points to.
pub record AgentCode (M : Type 0) : Type 0 where
  pub answer : Channel → M → Option (Answer M)
  pub channel_index : ℕ → ℕ

-- `channel` is the index of the channel that the register `channel_ptr` points to.
pub record Agent (M : Type 0) : Type 0 where
  pub channels : List Channel
  pub active_channel : ℕ
  pub channel : ℕ
  pub processor : M
  pub running : Bool

module _ {M : Type 0} where
  abbrev pub start : AgentCode M → List Channel → ℕ → M → Agent M
  start code channels active_channel processor = record {
    channels = channels;
    active_channel = active_channel;
    channel = code.channel_index active_channel;
    processor = processor;
    running = true;
  }

  abbrev pub apply : AgentCode M → Agent M → Answer M → Agent M
  apply code a (Answer.exit) = record a { running = false }
  apply code a (Answer.done ch processor) = record a {
    channels = set a.channels a.channel ch;
    processor = processor;
  }
  apply code a (Answer.switched ch k) = record a {
    channels = set a.channels a.channel ch;
    active_channel = k;
    channel = code.channel_index k;
  }

  -- From `.retry` on: the loop waits while the control word is 0.
  unfoldable pub round : AgentCode M → Agent M → Option (Agent M)
  round code a = do
    ch ← get_elem? a.channels a.channel
    if (ch.control == 0)
        then some a
        else (code.answer ch a.processor >>= λ r. some (apply code a r))

-- The six counters go to `data[0]` to `data[5]`.
abbrev pub write_back : List ℕ → List ℕ → List ℕ
write_back counters words = counters ++ drop 6 words

-- `n` passes of `.noninstrloop`, from the word `i` on; the processors differ in what a pass does
-- with its word.
unfoldable pub noninstrloop : {M : Type 0} → (ℕ → M → M) → ℕ → ℕ → List ℕ → M → Option M
noninstrloop perform zero i words m = some m
noninstrloop perform (suc n) i words m = do
  x ← get_elem? words i
  noninstrloop perform n (i + 1) words (perform x m)
