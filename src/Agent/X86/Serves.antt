-- ===== src/Agent/X86/Serves.antt =====
-- The x86-64 loop answers as the client relies on.
use cache_hound.Common.{
  ℕ, suc, ◌+◌, ◌-◌, ◌*◌, ◌/◌, ◌<◌, ◌≡◌, refl, ap, ◌∙◌, true, List, [], ◌∷◌, ◌++◌, some, length,
  get_elem?, get_elem?-lt, take, arith, some-inj, length-drop, sym, ==_of_ne, le→ltb, ltb, ◌==◌,
  false,
}
use cache_hound.Channel.{Channel, data_size}
use cache_hound.Agent.{done, write_back}
use cache_hound.Agent.Contract.{AgentContract, Batch, executes, executes-take-suc, noninstrloop_lem}
use cache_hound.Agent.X86.{Processor, perform, read_counter, instrloop, answer, code}

module _ {M : Type 0} (p : Processor M) where
  unfoldable pub read_counters : M → List ℕ
  read_counters m = read_counter p 0 m ∷ read_counter p 1 m ∷ read_counter p 2 m ∷ []

  module _ (n x : ℕ) (ch : Channel) (m : M) (small : n < data_size)
      (control : ch.control ≡ 1 + suc n * 2) (size : length ch.words ≡ data_size)
      (last : get_elem? ch.words n ≡ some x) where
    -- A request of n + 1 words, word by word.
    pub count_answer_lem :
        let m' : M = executes (perform p) (take n ch.words) m in
        answer p ch m
        ≡ some (
            done
              (record {
                control = 0;
                words = write_back (read_counters m' ++ read_counters (perform p x m')) ch.words;
              })
              (perform p x m'))
    unfolding answer instrloop read_counters
    count_answer_lem =
        let some_count : (ch.control / 2 == 0) ≡ false = ==_of_ne _ _ (omega (arith, control)) in
        let no_flush : ltb 0 (ch.control / 2 / 16) ≡ false =
          le→ltb 0 _ (omega (arith, control, small)) in
        let no_switch : ltb 0 (ch.control / 2 / 8) ≡ false =
          le→ltb 0 _ (omega (arith, control, small)) in
        let rest : ch.control / 2 - 1 ≡ n = omega (arith, control) in
        let before = noninstrloop_lem (perform p) n ch.words m (omega (arith, small, size)) in
        rw (some_count, no_flush, no_switch, rest, before, last) refl

  pub batch_lem :
      (n : ℕ) (ch : Channel) (m : M)
      → n < data_size
      → ch.control ≡ 1 + suc n * 2
      → length ch.words ≡ data_size
      → Batch (code p) (perform p) read_counters n ch m
  unfolding read_counters
  batch_lem n ch m small control size =
      let (x, e) = get_elem?-lt ch.words n (omega (arith, small, size)) in
      let m' : M = executes (perform p) (take n ch.words) m in
      record {
        words = write_back (read_counters m' ++ read_counters (perform p x m')) ch.words;
        answered =
            rw (executes-take-suc (perform p) ch.words n x m e)
              (count_answer_lem n x ch m small control size e);
        size = omega (arith, length-drop 6 ch.words, size);
        timed = λ y e' top.
            ap (λ z. read_counters m' ++ read_counters (perform p z m')) (some-inj (sym e ∙ e'));
      }

  -- The x86-64 loop.
  unfoldable pub x86_contract : AgentContract (code p)
  unfolding answer
  x86_contract = record {
    execute = perform p;
    counters = read_counters;
    has_wbinvd = true;
    wbinvd = p.wbinvd;
    batch = batch_lem;
    switch = λ k ch m control first. rw (control, first) refl;
    flush_all = λ ch m h control. rw control refl;
    index = λ k h. omega (arith, h);
  }
