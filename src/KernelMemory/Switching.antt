-- ===== src/KernelMemory/Switching.antt =====
-- The operations that make a request of their own: another channel, and the whole-cache flush.
use cache_hound.Common.{
  ℕ, ◌+◌, ◌%◌, ◌<◌, ◌≡◌, refl, ap, sym, ◌∙◌, true, List, some, length, get_elem?, set, take, arith,
  get_elem?-set_self, write_lem, length-set, All-get_elem?, All-set, ltb, lt→ltb, check, ◌>>◌,
}
use cache_hound.Agent.{Agent, AgentCode}
use cache_hound.Channel.{set_access, data_size}
use cache_hound.Agent.Contract.{AgentContract, channel_count, executes}
use cache_hound.KernelMemory.{
  System, Stats, put, switch_channel, switch_to_next, wbinvd, count_stat, incremented,
}
use cache_hound.KernelMemory.Requests.{Request, moved}
use cache_hound.KernelMemory.Runs.{Run-Sized, Sized}
use cache_hound.KernelMemory.Waiting.{Waited}
use cache_hound.KernelMemory.Represents.{
  Represents, count_stat-Represents, Run-Represents, wait_any, wait_active, post_lem,
}
use cache_hound.KernelMemory.Buffering.{flush_lem}

module _ {M : Type 0} {code : AgentCode M} (c : AgentContract code) where
  -- A request with an empty buffer.
  module _ {s : System M} {m : M} (R : Represents c s m) (empty : s.memory.buffered ≡ 0)
      {a : Agent M} (w : Waited c s.agent R.rested s.memory.active_channel a) where
    idle_processor : R.rested.processor ≡ m
    idle_processor =
        ap (λ n. executes c.execute (take n s.memory.buffer) R.rested.processor) (sym empty)
        ∙ R.meaning

    requested_switch :
        (k : ℕ) (words : List ℕ)
        → k < channel_count
        → length words ≡ data_size
        → get_elem? words 0 ≡ some k
        → Represents c
            (record {
              memory = record (s.memory) { active_channel = k };
              agent =
                  put s.memory.active_channel
                    (set_access (record { control = 0; words = words }) 8)
                    a;
            })
            m
    unfolding moved
    requested_switch k words small size first =
        let i = s.memory.active_channel in
        let q = set_access (record { control = 0; words = words }) 8 in
        let (sized, len) = Run-Sized c w.before R.sized in
        let r : Request c q = Request.switch k refl first small in
        let (q', ans, run, left, quiets) = post_lem c i w R.at r size in
        record {
          buffer_size = R.buffer_size;
          room = R.room;
          size = length-set a.channels i q ∙ len ∙ R.size;
          count = R.count;
          inside = small;
          sized = All-set Sized a.channels i q sized size;
          rested = moved c r q' (put i q R.rested);
          run = run;
          at = refl;
          quiet = quiets R.quiet;
          meaning = R.meaning;
        }

    requested_flush :
        (words : List ℕ)
        → length words ≡ data_size
        → c.has_wbinvd ≡ true
        → Represents c
            (record s {
              agent =
                  put s.memory.active_channel
                    (set_access (record { control = 0; words = words }) 16)
                    a;
            })
            (c.wbinvd m)
    unfolding moved
    requested_flush words size has =
        let i = s.memory.active_channel in
        let q = set_access (record { control = 0; words = words }) 16 in
        let (sized, len) = Run-Sized c w.before R.sized in
        let r : Request c q = Request.flush_all has refl in
        let (q', ans, run, left, quiets) = post_lem c i w R.at r size in
        record {
          buffer_size = R.buffer_size;
          room = R.room;
          size = length-set a.channels i q ∙ len ∙ R.size;
          count = R.count;
          inside = R.inside;
          sized = All-set Sized a.channels i q sized size;
          rested = moved c r q' (put i q R.rested);
          run = run;
          at = R.at;
          quiet = quiets R.quiet;
          meaning =
              ap (λ n. executes c.execute (take n s.memory.buffer) (c.wbinvd R.rested.processor))
                empty
              ∙ ap c.wbinvd idle_processor;
        }

  -- A switch changes nothing of what the system stands for.
  pub switch_channel_lem :
      (k : ℕ) (s : System M) (m : M)
      → Represents c s m
      → k < channel_count
      → (s' : System M) × (switch_channel code k s ≡ some s')
        × Represents c s' m
        × (s'.memory.active_channel ≡ k)
        × (s'.memory.buffered ≡ 0)
  unfolding switch_channel
  switch_channel_lem k s m R small =
      let valid : ltb k s.memory.channel_count ≡ true =
        lt→ltb _ _ (omega (arith, small, R.count)) in
      let (s1, flushes, F) = flush_lem c s m R in
      let (a, waits, w) = wait_active c F.now in
      let (ch, now, _) = w.now in
      let (sized, len) = Run-Sized c w.before F.now.sized in
      let size : Sized ch = All-get_elem? Sized a.channels _ ch sized now in
      let some_word : 0 < length ch.words = omega (arith, size) in
      let Q =
        requested_switch F.now F.empty w k (set ch.words 0 k) small (length-set ch.words 0 k ∙ size)
          (get_elem?-set_self ch.words 0 k some_word) in
      let (a', waits', w') = wait_any c k Q small in
      let f : Stats → Stats = λ t. record t { channel_switches = incremented t.channel_switches } in
      (
        count_stat f (record { memory = record (s1.memory) { active_channel = k }; agent = a' }),
        rw (valid, flushes, waits, now, write_lem ch.words 0 k some_word, waits') refl,
        count_stat-Represents c f (Run-Represents c Q w'.before w'.ahead),
        refl,
        F.empty,
      )

  -- Nor does a switch to the fifth channel from here.
  pub switch_to_next_lem :
      (s : System M) (m : M)
      → Represents c s m
      → (s' : System M) × (switch_to_next code s ≡ some s')
        × Represents c s' m
        × (s'.memory.active_channel ≡ (s.memory.active_channel + 5) % channel_count)
        × (s'.memory.buffered ≡ 0)
  unfolding switch_to_next
  switch_to_next_lem s m R =
      let next = (s.memory.active_channel + 5) % channel_count in
      let (s', runs, R', active, empty) = switch_channel_lem next s m R (omega arith) in
      (
        s',
        ap (λ n. check (ltb 0 n) >> switch_channel code ((s.memory.active_channel + 5) % n) s)
              R.count
            ∙ runs,
        R',
        active,
        empty,
      )

  -- A flush of the whole caches comes after all that was asked before.
  pub wbinvd_lem :
      (s : System M) (m : M)
      → Represents c s m
      → c.has_wbinvd ≡ true
      → (s' : System M) × (wbinvd code s ≡ some s')
        × Represents c s' (c.wbinvd m)
        × (s'.memory.active_channel ≡ s.memory.active_channel)
        × (s'.memory.buffered ≡ 0)
  unfolding wbinvd
  wbinvd_lem s m R has =
      let (s1, flushes, F) = flush_lem c s m R in
      let (a, waits, w) = wait_active c F.now in
      let (ch, now, _) = w.now in
      let (sized, len) = Run-Sized c w.before F.now.sized in
      let size : Sized ch = All-get_elem? Sized a.channels _ ch sized now in
      let Q = requested_flush F.now F.empty w ch.words size has in
      let f : Stats → Stats = λ t. record t { wbinvds = incremented t.wbinvds } in
      (
        count_stat f (record s1 { agent = put s1.memory.active_channel (set_access ch 16) a }),
        rw (flushes, waits, now) refl,
        count_stat-Represents c f Q,
        F.active,
        F.empty,
      )
