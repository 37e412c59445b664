-- ===== src/Agent/Contract.antt =====
-- What the client may rely on: how a loop answers the requests that the client makes.
use cache_hound.Common.{
  ℕ, zero, suc, ◌+◌, ◌*◌, ◌/◌, ◌^◌, ◌<◌, ◌≡◌, Bool, true, List, [], ◌∷◌, ◌++◌, some, length,
  get_elem?, take, drop, get_elem?-lt, drop-get_elem?, refl, ap, ◌≤◌, arith,
}
use cache_hound.Channel.{Channel, set_idle, data_size}
use cache_hound.Agent.{AgentCode, done, switched, noninstrloop}

abbrev pub channel_count : ℕ
channel_count = 64

abbrev pub executes : {M : Type 0} → (ℕ → M → M) → List ℕ → M → M
executes execute [] m = m
executes execute (x ∷ xs) m = executes execute xs (execute x m)

-- The answer to a request for the first `n + 1` words.
pub record Batch {M : Type 0} (code : AgentCode M) (execute : ℕ → M → M) (counters : M → List ℕ)
    (n : ℕ) (ch : Channel) (m : M) : Type 0 where
  pub words : List ℕ
  pub answered :
      code.answer ch m
      ≡ some (
          done (record { control = 0; words = words }) (executes execute (take (suc n) ch.words) m))
  pub size : length words ≡ data_size
  pub timed :
      (x : ℕ)
      → get_elem? ch.words n ≡ some x
      → x / 2 ^ 62 ≡ 3
      → take 6 words
        ≡ counters (executes execute (take n ch.words) m)
          ++ counters (execute x (executes execute (take n ch.words) m))

pub record AgentContract {M : Type 0} (code : AgentCode M) : Type 0 where
  pub execute : ℕ → M → M
  pub counters : M → List ℕ
  -- The whole-cache flush, where the processor has one.
  pub has_wbinvd : Bool
  pub wbinvd : M → M
  pub batch :
      (n : ℕ) (ch : Channel) (m : M)
      → n < data_size
      → ch.control ≡ 1 + suc n * 2
      → length ch.words ≡ data_size
      → Batch code execute counters n ch m
  pub switch :
      (k : ℕ) (ch : Channel) (m : M)
      → ch.control ≡ 17
      → get_elem? ch.words 0 ≡ some k
      → code.answer ch m ≡ some (switched (set_idle ch) k)
  pub flush_all :
      (ch : Channel) (m : M)
      → has_wbinvd ≡ true
      → ch.control ≡ 33
      → code.answer ch m ≡ some (done (set_idle ch) (wbinvd m))
  pub index : (k : ℕ) → k < channel_count → code.channel_index k ≡ k

module _ {M : Type 0} (execute : ℕ → M → M) where
  pub executes-take-suc :
      (xs : List ℕ) (n x : ℕ) (m : M)
      → get_elem? xs n ≡ some x
      → executes execute (take (suc n) xs) m ≡ execute x (executes execute (take n xs) m)
  executes-take-suc [] n x m e = cc
  executes-take-suc (y ∷ ys) zero x m e = ap (λ z. execute z m) (cc)
  executes-take-suc (y ∷ ys) (suc n) x m e = executes-take-suc ys n x (execute y m) e

  noninstrloop_from :
      (n i : ℕ) (words : List ℕ) (m : M)
      → i + n ≤ length words
      → noninstrloop execute n i words m ≡ some (executes execute (take n (drop i words)) m)
  unfolding noninstrloop
  noninstrloop_from zero i words m h = refl
  noninstrloop_from (suc n) i words m h =
      let (x, e) = get_elem?-lt words i (omega (arith, h)) in
      let next : i + 1 ≡ suc i = omega arith in
      rw (e, drop-get_elem? words i e, next)
        (noninstrloop_from n (suc i) words (execute x m) (omega (arith, h)))

  pub noninstrloop_lem :
      (n : ℕ) (words : List ℕ) (m : M)
      → n ≤ length words
      → noninstrloop execute n 0 words m ≡ some (executes execute (take n words) m)
  noninstrloop_lem n words m h = noninstrloop_from n 0 words m (omega (arith, h))
