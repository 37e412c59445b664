-- ===== src/KernelMemory/Instrumented.antt =====
-- An instrumented access returns what the handler makes of the counters around it.
use cache_hound.Common.{
  ℕ, suc, ◌+◌, ◌<◌, ◌≡◌, refl, ap, sym, ◌∙◌, ◌++◌, List, [], ◌∷◌, Option, none, some, length,
  get_elem?, set, take, arith, get_elem?-set_self, take-set, some-inj, All-get_elem?,
}
use cache_hound.Agent.{AgentCode}
use cache_hound.Channel.{data_size}
use cache_hound.Agent.Contract.{AgentContract, executes}
use cache_hound.KernelMemory.{System, Stats, instrumented_access, count_stat, incremented}
use cache_hound.KernelMemory.Runs.{Run-put, Run-Sized, Sized}
use cache_hound.KernelMemory.Represents.{Represents, Run-Represents, wait_active}
use cache_hound.KernelMemory.Buffering.{flush_lem}
use cache_hound.KernelMemory.Accesses.{
  pushed, push_lem, Ready, Accessible, counted, check_address_lem,
}

-- The handler on six values.
abbrev pub handle : (ℕ → ℕ → ℕ → ℕ → ℕ → ℕ → ℕ) → List ℕ → Option ℕ
handle h (a ∷ b ∷ d ∷ e ∷ f ∷ g ∷ []) = some (h a b d e f g)
handle h _ = none

record Six (words : List ℕ) : Type 0 where
  w0 : ℕ
  w1 : ℕ
  w2 : ℕ
  w3 : ℕ
  w4 : ℕ
  w5 : ℕ
  at0 : get_elem? words 0 ≡ some w0
  at1 : get_elem? words 1 ≡ some w1
  at2 : get_elem? words 2 ≡ some w2
  at3 : get_elem? words 3 ≡ some w3
  at4 : get_elem? words 4 ≡ some w4
  at5 : get_elem? words 5 ≡ some w5
  all : take 6 words ≡ w0 ∷ w1 ∷ w2 ∷ w3 ∷ w4 ∷ w5 ∷ []

Six-of_size : (words : List ℕ) → length words ≡ data_size → Six words
Six-of_size (a ∷ b ∷ d ∷ e ∷ f ∷ g ∷ rest) size = record {
  w0 = a;
  w1 = b;
  w2 = d;
  w3 = e;
  w4 = f;
  w5 = g;
  at0 = refl;
  at1 = refl;
  at2 = refl;
  at3 = refl;
  at4 = refl;
  at5 = refl;
  all = refl;
}
Six-of_size [] size = absurd (omega (arith, size))
Six-of_size (a ∷ []) size = absurd (omega (arith, size))
Six-of_size (a ∷ b ∷ []) size = absurd (omega (arith, size))
Six-of_size (a ∷ b ∷ d ∷ []) size = absurd (omega (arith, size))
Six-of_size (a ∷ b ∷ d ∷ e ∷ []) size = absurd (omega (arith, size))
Six-of_size (a ∷ b ∷ d ∷ e ∷ f ∷ []) size = absurd (omega (arith, size))

module _ {M : Type 0} {code : AgentCode M} (c : AgentContract code) where
  -- For an agent that keeps the contract and a system with room in the buffer, an instrumented
  -- access of an address that the assertions allow returns what the handler makes of the counters
  -- right before this access, and after all earlier ones, and right after it.
  pub instrumented_access-counters :
      (h : ℕ → ℕ → ℕ → ℕ → ℕ → ℕ → ℕ) (x : ℕ) (s : System M) (m : M)
      → Represents c s m
      → s.memory.buffered < data_size
      → Accessible s x
      → (level : ℕ) × (s' : System M) × (instrumented_access code h x s ≡ some (level, s'))
        × (handle h (c.counters m ++ c.counters (c.execute x m)) ≡ some level)
        × Ready c s s' (c.execute x m)
  unfolding instrumented_access
  instrumented_access-counters h x s m R free ok =
      let k = s.memory in
      let (pushes, P, rested) = push_lem c x s m R free in
      let (s1, flushes, F) = flush_lem c (pushed x s) (c.execute x m) P in
      let (a, waits, w) = wait_active c F.now in
      let (ch, now, idle) = w.now in
      let (sized, len) = Run-Sized c w.before F.now.sized in
      let six = Six-of_size ch.words (All-get_elem? Sized a.channels _ ch sized now) in
      let (rests, _) = Run-put c w.ahead _ ch now idle in
      let next : k.buffered + 1 ≡ suc k.buffered = omega arith in
      let inside : k.buffered < length k.buffer = omega (arith, free, R.buffer_size) in
      let (ch', rests', counters) =
        F.timed k.buffered x next (get_elem?-set_self k.buffer k.buffered x inside) ok.upper in
      let same : ch' ≡ ch =
        some-inj (sym rests' ∙ ap (get_elem? F.now.rested.channels) (sym F.active) ∙ rests) in
      let before : executes c.execute (take k.buffered (set k.buffer k.buffered x))
            P.rested.processor
          ≡ m =
        ap (λ xs. executes c.execute xs P.rested.processor) (take-set k.buffered k.buffer x)
        ∙ ap (λ z. executes c.execute (take k.buffered k.buffer) z.processor) rested
        ∙ R.meaning in
      let values : six.w0 ∷ six.w1 ∷ six.w2 ∷ six.w3 ∷ six.w4 ∷ six.w5 ∷ []
          ≡ c.counters m ++ c.counters (c.execute x m) =
        sym six.all
        ∙ ap (λ d. take 6 d.words) (sym same)
        ∙ counters
        ∙ ap (λ y. c.counters y ++ c.counters (c.execute x m)) before in
      let f : Stats → Stats =
        λ t. record t { instrumented_accesses = incremented t.instrumented_accesses } in
      (
        h six.w0 six.w1 six.w2 six.w3 six.w4 six.w5,
        count_stat f (record s1 { agent = a }),
        rw
            (
              check_address_lem s x ok,
              pushes,
              flushes,
              waits,
              now,
              six.at0,
              six.at1,
              six.at2,
              six.at3,
              six.at4,
              six.at5,
            )
            refl,
        ap (handle h) (sym values),
        counted c f (record {
          now = Run-Represents c F.now w.before w.ahead;
          free = omega (arith, F.empty);
          active = F.active;
          checker = F.checker;
        }),
      )
