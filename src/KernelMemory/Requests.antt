-- ===== src/KernelMemory/Requests.antt =====
-- The requests that the client makes, and the round that answers each of them.
use cache_hound.Common.{
  ℕ, suc, ◌+◌, ◌*◌, ◌/◌, ◌^◌, ◌++◌, ◌<◌, ◌≡◌, ◌≢◌, refl, ap, sym, true, false, ◌==◌, some, length,
  get_elem?, set, take, set-set_comm, arith, ==_of_ne,
}
use cache_hound.Channel.{Channel, set_idle, data_size}
use cache_hound.Agent.{Agent, AgentCode, round}
use cache_hound.Agent.Contract.{AgentContract, channel_count, executes}
use cache_hound.KernelMemory.{put}

module _ {M : Type 0} {code : AgentCode M} (c : AgentContract code) where
  pub data Request (ch : Channel) : Type 0 where
    batch : (n : ℕ) → n < data_size → ch.control ≡ 1 + suc n * 2 → Request ch
    switch :
        (k : ℕ) → ch.control ≡ 17 → get_elem? ch.words 0 ≡ some k → k < channel_count → Request ch
    flush_all : c.has_wbinvd ≡ true → ch.control ≡ 33 → Request ch

  -- What the agent is after its round.
  unfoldable pub moved : {ch : Channel} → Request ch → Channel → Agent M → Agent M
  moved {ch} (batch n _ _) ch' a = record a {
    channels = set a.channels a.channel ch';
    processor = executes c.execute (take (suc n) ch.words) a.processor;
  }
  moved {ch} (switch k _ _ _) ch' a = record a {
    channels = set a.channels a.channel ch';
    active_channel = k;
    channel = k;
  }
  moved {ch} (flush_all _ _) ch' a = record a {
    channels = set a.channels a.channel ch';
    processor = c.wbinvd a.processor;
  }

  pub moved-put :
      {ch : Channel} (r : Request ch) (ch' : Channel) (a : Agent M) (j : ℕ) (d : Channel)
      → a.channel ≢ j
      → moved r ch' (put j d a) ≡ put j d (moved r ch' a)
  unfolding moved
  moved-put {ch} (batch n l e) ch' a j d ne =
      ap (λ z. record (moved {ch = ch} (batch n l e) ch' a) { channels = z })
        (sym (set-set_comm a.channels a.channel j ch' d ne))
  moved-put {ch} (switch k e f l) ch' a j d ne =
      ap (λ z. record (moved {ch = ch} (switch k e f l) ch' a) { channels = z })
        (sym (set-set_comm a.channels a.channel j ch' d ne))
  moved-put {ch} (flush_all h e) ch' a j d ne =
      ap (λ z. record (moved {ch = ch} (flush_all h e) ch' a) { channels = z })
        (sym (set-set_comm a.channels a.channel j ch' d ne))

  pub moved-channels :
      {ch : Channel} (r : Request ch) (ch' : Channel) (a : Agent M)
      → (moved r ch' a).channels ≡ set a.channels a.channel ch'
  unfolding moved
  moved-channels (batch n _ _) ch' a = refl
  moved-channels (switch k _ _ _) ch' a = refl
  moved-channels (flush_all _ _) ch' a = refl

  pub Request-busy : {ch : Channel} → Request ch → (n : ℕ) × (ch.control ≡ suc (n * 2))
  Request-busy (batch n _ e) = (suc n, omega (arith, e))
  Request-busy (switch k e _ _) = (8, omega (arith, e))
  Request-busy (flush_all _ e) = (16, omega (arith, e))

  -- A batch whose last word is read leaves the counters around this read.
  unfoldable pub Timed : {ch : Channel} → Request ch → M → Channel → Type 0
  Timed {ch} (batch n _ _) m ch' =
      let before = executes c.execute (take n ch.words) m in
      (x : ℕ)
      → get_elem? ch.words n ≡ some x
      → x / 2 ^ 62 ≡ 3
      → take 6 ch'.words ≡ c.counters before ++ c.counters (c.execute x before)
  Timed _ m ch' = Unit

  pub record Answered {ch : Channel} (r : Request ch) (m : M) (ch' : Channel) : Type 0 where
    pub cleared : ch'.control ≡ 0
    pub size : length ch'.words ≡ data_size
    pub timed : Timed r m ch'
    pub runs :
        (a : Agent M)
        → get_elem? a.channels a.channel ≡ some ch
        → a.processor ≡ m
        → round code a ≡ some (moved r ch' a)

  pub answer_lem :
      {ch : Channel} (r : Request ch) (m : M)
      → length ch.words ≡ data_size
      → (ch' : Channel) × Answered r m ch'
  unfolding round moved Timed
  answer_lem {ch} (batch n small e) m size =
      let b = c.batch n ch m small e size in
      let busy : (ch.control == 0) ≡ false = ==_of_ne _ _ (omega (arith, e)) in
      (
        record { control = 0; words = b.words },
        record {
          cleared = refl;
          size = b.size;
          timed = b.timed;
          runs = λ a at same. rw (at, busy, same, b.answered) refl;
        },
      )
  answer_lem {ch} (switch k e first small) m size =
      let busy : (ch.control == 0) ≡ false = ==_of_ne _ _ (omega (arith, e)) in
      (
        set_idle ch,
        record {
          cleared = refl;
          size = size;
          timed = tt;
          runs =
              λ a at same. rw (at, busy, c.switch k ch a.processor e first, c.index k small) refl;
        },
      )
  answer_lem {ch} (flush_all h e) m size =
      let busy : (ch.control == 0) ≡ false = ==_of_ne _ _ (omega (arith, e)) in
      (
        set_idle ch,
        record {
          cleared = refl;
          size = size;
          timed = tt;
          runs = λ a at same. rw (at, busy, c.flush_all ch a.processor h e) refl;
        },
      )
