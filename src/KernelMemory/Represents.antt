-- ===== src/KernelMemory/Represents.antt =====
-- What the buffer of the client, the channels and the agent stand for: the processor after
-- everything that was asked for.
use cache_hound.Common.{
  ℕ, ◌<◌, ◌≤◌, ◌≡◌, ap, sym, ◌∙◌, some, length, get_elem?, set, take, All, arith,
  get_elem?-set_self, lt_of_get_elem?, length-set, get_elem?-lt, All-get_elem?, All-set,
  set-set_self, subst,
}
use cache_hound.Channel.{Channel, data_size}
use cache_hound.Agent.{Agent, AgentCode}
use cache_hound.Agent.Contract.{AgentContract, channel_count, executes}
use cache_hound.KernelMemory.{System, Stats, put, count_stat, wait}
use cache_hound.KernelMemory.Requests.{Request, moved, moved-channels, Answered, answer_lem}
use cache_hound.KernelMemory.Runs.{Sized, Run, rest, hop, Run-append, Run-put, Run-Sized}
use cache_hound.KernelMemory.Waiting.{Waited, wait_lem}

abbrev pub Idle : Channel → Type 0
Idle ch = ch.control ≡ 0

-- `rested` is the agent when it has nothing more to do, `m` what the buffer then comes to.
pub record Represents {M : Type 0} {code : AgentCode M} (c : AgentContract code) (s : System M)
    (m : M) : Type 0 where
  pub buffer_size : length s.memory.buffer ≡ data_size
  pub room : s.memory.buffered ≤ data_size
  pub size : length s.agent.channels ≡ channel_count
  pub count : s.memory.channel_count ≡ channel_count
  pub inside : s.memory.active_channel < channel_count
  pub sized : All Sized s.agent.channels
  pub rested : Agent M
  pub run : Run c s.agent rested
  pub at : rested.channel ≡ s.memory.active_channel
  pub quiet : All Idle rested.channels
  pub meaning : executes c.execute (take s.memory.buffered s.memory.buffer) rested.processor ≡ m

module _ {M : Type 0} {code : AgentCode M} (c : AgentContract code) where
  -- A request on the channel that the client waited for: the agent comes to it, and answers it.
  pub post_lem :
      (i : ℕ) {a b a' : Agent M} {q : Channel}
      → Waited c a b i a'
      → b.channel ≡ i
      → (r : Request c q) → Sized q
      → (q' : Channel) × Answered c r b.processor q'
        × Run c (put i q a') (moved c r q' (put i q b))
        × (get_elem? (moved c r q' (put i q b)).channels i ≡ some q')
        × (All Idle b.channels → All Idle (moved c r q' (put i q b)).channels)
  post_lem i {a} {b} {a'} {q} w at r sized =
      let (q', ans) = answer_lem c r b.processor sized in
      let (ch, now, idle) = w.now in
      let (found, run) = Run-put c w.ahead i q now idle in
      let inside = lt_of_get_elem? b.channels i found in
      let here : get_elem? (set b.channels i q) b.channel ≡ some q =
        ap (get_elem? (set b.channels i q)) at ∙ get_elem?-set_self b.channels i q inside in
      let left : get_elem? (moved c r q' (put i q b)).channels i ≡ some q' =
        ap (λ cs. get_elem? cs i) (moved-channels c r q' (put i q b))
        ∙ ap (λ j. get_elem? (set (set b.channels i q) j q') i) at
        ∙ get_elem?-set_self (set b.channels i q) i q'
            (omega (arith, inside, length-set b.channels i q)) in
      let channels : (moved c r q' (put i q b)).channels ≡ set b.channels i q' =
        moved-channels c r q' (put i q b)
        ∙ ap (λ j. set (set b.channels i q) j q') at
        ∙ set-set_self b.channels i q q' in
      (
        q',
        ans,
        Run-append c run (hop q q' here r ans rest),
        left,
        λ quiet. subst (All Idle) (sym channels) (All-set Idle b.channels i q' quiet ans.cleared),
      )

  -- Counting changes nothing of what the system stands for.
  pub count_stat-Represents :
      (f : Stats → Stats) {s : System M} {m : M}
      → Represents c s m
      → Represents c (count_stat f s) m
  count_stat-Represents f R = record {
    buffer_size = R.buffer_size;
    room = R.room;
    size = R.size;
    count = R.count;
    inside = R.inside;
    sized = R.sized;
    rested = R.rested;
    run = R.run;
    at = R.at;
    quiet = R.quiet;
    meaning = R.meaning;
  }

  -- Nor do the rounds of the agent, any number of them.
  pub Run-Represents :
      {s : System M} {m : M} {a : Agent M} (R : Represents c s m)
      → Run c s.agent a
      → Run c a R.rested
      → Represents c (record s { agent = a }) m
  Run-Represents R before ahead =
      let (sized, len) = Run-Sized c before R.sized in
      record {
        buffer_size = R.buffer_size;
        room = R.room;
        size = len ∙ R.size;
        count = R.count;
        inside = R.inside;
        sized = sized;
        rested = R.rested;
        run = ahead;
        at = R.at;
        quiet = R.quiet;
        meaning = R.meaning;
      }

  -- Waiting for any channel succeeds; the channel is then as the agent leaves it.
  pub wait_any :
      (i : ℕ) {s : System M} {m : M} (R : Represents c s m)
      → i < channel_count
      → (a : Agent M) × (wait code i s.agent ≡ some a) × Waited c s.agent R.rested i a
  wait_any i R inside =
      let (sized, len) = Run-Sized c R.run R.sized in
      let (ch, rests) = get_elem?-lt R.rested.channels i (omega (arith, inside, len, R.size)) in
      wait_lem c i R.run rests (All-get_elem? Idle R.rested.channels i ch R.quiet rests)
        (omega (arith, inside, R.size))

  pub wait_active :
      {s : System M} {m : M} (R : Represents c s m)
      → (a : Agent M) × (wait code s.memory.active_channel s.agent ≡ some a)
        × Waited c s.agent R.rested s.memory.active_channel a
  wait_active R = wait_any _ R R.inside
