-- ===== src/KernelMemory/Buffering.antt =====
-- Flushing the buffer changes nothing of what the system stands for.
use cache_hound.Common.{
  ℕ, zero, suc, ◌/◌, ◌^◌, ◌≤◌, ◌≡◌, refl, ap, sym, ◌∙◌, ◌++◌, ◌==◌, true, false, some, length,
  get_elem?, take, drop, arith, leb, le→leb, ==_of_ne, length-append, length-take, length-drop,
  All-get_elem?, All-set, length-set, take-take_append, get_elem?-take_append, ap₂,
}
use cache_hound.Channel.{Channel, data_size, set_access}
use cache_hound.Agent.{Agent, AgentCode}
use cache_hound.Agent.Contract.{AgentContract, executes, executes-take-suc}
use cache_hound.KernelMemory.{System, put, flush, wait, incremented}
use cache_hound.KernelMemory.Requests.{Request, moved, Timed}
use cache_hound.KernelMemory.Runs.{Sized, Run-Sized}
use cache_hound.KernelMemory.Represents.{Represents, post_lem, wait_active}

module _ {M : Type 0} {code : AgentCode M} (c : AgentContract code) where
  -- What the last flush leaves: an empty buffer, and the counters around the last word.
  pub record Flushed {s : System M} {m : M} (R : Represents c s m) (s' : System M) : Type 0 where
    pub now : Represents c s' m
    pub empty : s'.memory.buffered ≡ 0
    pub active : s'.memory.active_channel ≡ s.memory.active_channel
    pub checker : s'.memory.address_checker ≡ s.memory.address_checker
    pub timed :
        (n x : ℕ)
        → s.memory.buffered ≡ suc n
        → get_elem? s.memory.buffer n ≡ some x
        → x / 2 ^ 62 ≡ 3
        → (ch : Channel) × (get_elem? now.rested.channels s.memory.active_channel ≡ some ch)
          × (take 6 ch.words
              ≡ c.counters (executes c.execute (take n s.memory.buffer) R.rested.processor)
                ++ c.counters m)

  -- The words that a flush writes.
  written : ℕ → System M → Channel → Channel
  written n s ch =
      set_access (record ch { words = take (suc n) s.memory.buffer ++ drop (suc n) ch.words })
        (suc n)

  Sized-written :
      (n : ℕ) (s : System M) (ch : Channel)
      → suc n ≤ data_size
      → length s.memory.buffer ≡ data_size
      → Sized ch
      → Sized (written n s ch)
  unfolding written
  Sized-written n s ch small full sized = omega (
    arith,
    small,
    full,
    sized,
    length-append (take (suc n) s.memory.buffer) (drop (suc n) ch.words),
    length-take (suc n) s.memory.buffer,
    length-drop (suc n) ch.words,
  )

  after_flush : ℕ → System M → Channel → Agent M → System M
  after_flush n s ch a' = record {
    memory = record (s.memory) {
      buffered = 0;
      stats = record (s.memory.stats) { flushes = incremented s.memory.stats.flushes };
    };
    agent = put s.memory.active_channel (written n s ch) a';
  }

  flush_run :
      (n : ℕ) (s : System M) (a' : Agent M) (ch : Channel)
      → s.memory.buffered ≡ suc n
      → suc n ≤ length s.memory.buffer
      → wait code s.memory.active_channel s.agent ≡ some a'
      → get_elem? a'.channels s.memory.active_channel ≡ some ch
      → flush code s ≡ some (after_flush n s ch a')
  unfolding flush written after_flush
  flush_run n s a' ch e fits waits at =
      let some_word : (s.memory.buffered == 0) ≡ false = ==_of_ne _ _ (omega (arith, e)) in
      let fits' : leb s.memory.buffered (length s.memory.buffer) ≡ true =
        le→leb _ _ (omega (arith, e, fits)) in
      rw (some_word, fits', waits, at, e) refl

  flush_nonempty :
      (n : ℕ) (s : System M) (m : M)
      → s.memory.buffered ≡ suc n
      → (R : Represents c s m) → (s' : System M) × (flush code s ≡ some s') × Flushed R s'
  unfolding written after_flush moved Timed
  flush_nonempty n s m e R =
      let i = s.memory.active_channel in
      let (a', waits, w) = wait_active c R in
      let (ch, now, idle) = w.now in
      let (sized, len) = Run-Sized c w.before R.sized in
      let small : suc n ≤ data_size = omega (arith, e, R.room) in
      let q = written n s ch in
      let fits : suc n ≤ length s.memory.buffer = omega (arith, small, R.buffer_size) in
      let sized_q : Sized q =
        Sized-written n s ch small R.buffer_size (All-get_elem? Sized a'.channels i ch sized now) in
      let r : Request c q = Request.batch n (omega (arith, small)) (omega (arith, small)) in
      let (q', ans, run, answered, quiets) = post_lem c i w R.at r sized_q in
      let words : take (suc n) q.words ≡ take s.memory.buffered s.memory.buffer =
        take-take_append (suc n) (suc n) s.memory.buffer (drop (suc n) ch.words) (omega arith) fits
        ∙ ap (λ k. take k s.memory.buffer) (sym e) in
      let meaning : executes c.execute (take (suc n) q.words) R.rested.processor ≡ m =
        ap (λ xs. executes c.execute xs R.rested.processor) words ∙ R.meaning in
      (
        after_flush n s ch a',
        flush_run n s a' ch e fits waits now,
        record {
          now = record {
            buffer_size = R.buffer_size;
            room = omega arith;
            size = length-set a'.channels i q ∙ len ∙ R.size;
            count = R.count;
            inside = R.inside;
            sized = All-set Sized a'.channels i q sized sized_q;
            rested = moved c r q' (put i q R.rested);
            run = run;
            at = R.at;
            quiet = quiets R.quiet;
            meaning = meaning;
          };
          empty = refl;
          active = refl;
          checker = refl;
          timed = λ n' x e' at top.
              let same : n' ≡ n = omega (arith, e, e') in
              let at_q : get_elem? q.words n ≡ some x =
                get_elem?-take_append n (suc n) s.memory.buffer (drop (suc n) ch.words)
                  (omega arith) fits
                ∙ ap (get_elem? s.memory.buffer) (sym same)
                ∙ at in
              let prefix : take n q.words ≡ take n' s.memory.buffer =
                take-take_append n (suc n) s.memory.buffer (drop (suc n) ch.words) (omega arith)
                  fits
                ∙ ap (λ k. take k s.memory.buffer) (sym same) in
              let last =
                sym (executes-take-suc c.execute q.words n x R.rested.processor at_q) ∙ meaning in
              (
                q',
                answered,
                ans.timed x at_q top
                    ∙ ap₂ (λ y z. c.counters y ++ c.counters z)
                        (ap (λ xs. executes c.execute xs R.rested.processor) prefix) last,
              );
        },
      )

  -- A flush succeeds, empties the buffer, and changes nothing of what the system stands for.
  pub flush_lem :
      (s : System M) (m : M) (R : Represents c s m)
      → (s' : System M) × (flush code s ≡ some s') × Flushed R s'
  unfolding flush
  flush_lem s m R = by_size s.memory.buffered refl
    where
      by_size :
          (n : ℕ)
          → s.memory.buffered ≡ n
          → (s' : System M) × (flush code s ≡ some s') × Flushed R s'
      by_size zero e = (
        s,
        rw e refl,
        record {
          now = R;
          empty = e;
          active = refl;
          checker = refl;
          timed = λ n x e'. absurd (omega (arith, e, e'));
        },
      )
      by_size (suc n) e = flush_nonempty n s m e R
