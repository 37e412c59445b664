-- ===== src/Agent/Arm/Serves.antt =====
-- The ARMv8 loop answers as the client relies on.
use cache_hound.Common.{
  ℕ, suc, ◌+◌, ◌-◌, ◌*◌, ◌/◌, ◌%◌, ◌^◌, ◌<◌, ◌≡◌, refl, ap, ◌∙◌, List, ◌++◌, some, length,
  get_elem?, get_elem?-lt, take, arith, some-inj, length-drop, sym, ==_of_ne, ◌==◌, false,
}
use cache_hound.Channel.{Channel, data_size}
use cache_hound.Agent.{done}
use cache_hound.Agent.Contract.{AgentContract, Batch, executes, executes-take-suc, noninstrloop_lem}
use cache_hound.Agent.Arm.{
  Processor, Counted, Branch, branch, plain, isw, csw, cisw, perform, read_counters, stored,
  instrloop, answer, code,
}

module _ {M : Type 0} (p : Processor M) where
  length-stored :
      (b : Branch) (m m' : M) (words : List ℕ)
      → length words ≡ data_size
      → length (stored p b m m' words) ≡ data_size
  length-stored plain m m' words size = omega (arith, length-drop 6 words, size)
  length-stored isw m m' words size = size
  length-stored csw m m' words size = size
  length-stored cisw m m' words size = size

  branch_plain : (x : ℕ) → x / 2 ^ 62 ≡ 3 → branch x ≡ plain
  unfolding branch
  branch_plain x h = rw h refl

  module _ (n x : ℕ) (ch : Channel) (m : Counted M) (small : n < data_size)
      (control : ch.control ≡ 1 + suc n * 2) (size : length ch.words ≡ data_size)
      (last : get_elem? ch.words n ≡ some x) where
    -- A request of n + 1 words, word by word.
    pub count_answer_lem :
        let m' : Counted M = executes (perform p) (take n ch.words) m in
        answer p ch m
        ≡ some (
            done
              (record {
                control = 0;
                words = stored p (branch x) m'.core (perform p x m').core ch.words;
              })
              (perform p x m'))
    unfolding answer instrloop
    count_answer_lem =
        let some_count : (ch.control / 2 == 0) ≡ false = ==_of_ne _ _ (omega (arith, control)) in
        let no_switch : (ch.control / 2 / 8 % 2 == 1) ≡ false =
          ==_of_ne _ _ (omega (arith, control, small)) in
        let rest : ch.control / 2 - 1 ≡ n = omega (arith, control) in
        let before = noninstrloop_lem (perform p) n ch.words m (omega (arith, small, size)) in
        rw (some_count, no_switch, rest, before, last) refl

  pub batch_lem :
      (n : ℕ) (ch : Channel) (m : Counted M)
      → n < data_size
      → ch.control ≡ 1 + suc n * 2
      → length ch.words ≡ data_size
      → Batch (code p) (perform p) (λ c. read_counters p c.core) n ch m
  batch_lem n ch m small control size =
      let (x, e) = get_elem?-lt ch.words n (omega (arith, small, size)) in
      let m' : Counted M = executes (perform p) (take n ch.words) m in
      record {
        words = stored p (branch x) m'.core (perform p x m').core ch.words;
        answered =
            rw (executes-take-suc (perform p) ch.words n x m e)
              (count_answer_lem n x ch m small control size e);
        size = length-stored (branch x) _ _ ch.words size;
        timed = λ y e' top.
            let same : x ≡ y = some-inj (sym e ∙ e') in
            rw (branch_plain x (ap (λ z. z / 2 ^ 62) same ∙ top))
              (ap (λ z. read_counters p m'.core ++ read_counters p (perform p z m').core) same);
      }

  -- The ARMv8 loop.
  unfoldable pub arm_contract : AgentContract (code p)
  unfolding answer
  arm_contract = record {
    execute = perform p;
    counters = λ c. read_counters p c.core;
    has_wbinvd = false;
    wbinvd = λ m. m;
    batch = batch_lem;
    switch = λ k ch m control first. rw (control, first) refl;
    flush_all = λ ch m h control. cc;
    index = λ k h. omega (arith, h);
  }
