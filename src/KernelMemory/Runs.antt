-- ===== src/KernelMemory/Runs.antt =====
-- The rounds that the agent has ahead of it, until it waits: what they leave alone, and their
-- number.
use cache_hound.Common.{
  ℕ, zero, suc, ◌+◌, ◌≤◌, ◌≡◌, ◌≢◌, refl, ap, sym, subst, ◌∙◌, false, ◌==◌, if◌then◌else◌, List, [],
  ◌∷◌, some, length, get_elem?, set, All, All-set, arith, length-set, ==_of_ne, some-inj,
  get_elem?-set_ne,
}
use cache_hound.Channel.{Channel, data_size}
use cache_hound.Agent.{Agent, AgentCode}
use cache_hound.Agent.Contract.{AgentContract}
use cache_hound.KernelMemory.{put}
use cache_hound.KernelMemory.Requests.{
  Request, Request-busy, moved, moved-put, moved-channels, Answered,
}

abbrev pub Sized : Channel → Type 0
Sized ch = length ch.words ≡ data_size

-- The number of the channels with a request.
abbrev pub busy : List Channel → ℕ
busy [] = 0
busy (ch ∷ cs) = (if ch.control == 0 then 0 else 1) + busy cs

pub busy-le : (cs : List Channel) → busy cs ≤ length cs
busy-le [] = omega arith
busy-le (ch ∷ cs) = ground (arith, busy-le cs)

pub busy-set :
    (cs : List Channel) (i : ℕ) {ch : Channel} (ch' : Channel)
    → get_elem? cs i ≡ some ch
    → ch.control ≢ 0
    → ch'.control ≡ 0
    → busy cs ≡ suc (busy (set cs i ch'))
busy-set [] i ch' e h z = cc
busy-set (d ∷ cs) zero {ch} ch' e h z =
    let was : (d.control == 0) ≡ false =
      ==_of_ne _ _ (λ q. h (ap (λ x. x.control) (sym (some-inj e)) ∙ q)) in
    rw (was, z) (omega arith)
busy-set (d ∷ cs) (suc i) ch' e h z =
    ap (λ n. (if d.control == 0 then 0 else 1) + n) (busy-set cs i ch' e h z) ∙ omega arith

module _ {M : Type 0} {code : AgentCode M} (c : AgentContract code) where
  pub data Run : Agent M → Agent M → Type 0 where
    rest : {a : Agent M} → Run a a
    hop :
        {a b : Agent M} (ch ch' : Channel)
        → get_elem? a.channels a.channel ≡ some ch
        → (r : Request c ch) → Answered c r a.processor ch'
        → Run (moved c r ch' a) b
        → Run a b

  unfoldable pub steps : {a b : Agent M} → Run a b → ℕ
  steps rest = 0
  steps (hop ch ch' at r ans run) = suc (steps run)

  pub Run-append : {a b d : Agent M} → Run a b → Run b d → Run a d
  Run-append rest run' = run'
  Run-append (hop ch ch' at r ans run) run' = hop ch ch' at r ans (Run-append run run')

  pub not-idle : {ch : Channel} → Request c ch → ch.control ≢ 0
  not-idle r e = let (n, busy) = Request-busy c r in absurd (omega (arith, e, busy))

  -- One round at most for each channel.
  pub steps-le : {a b : Agent M} (run : Run a b) → steps run ≤ busy a.channels
  unfolding steps
  steps-le rest = omega arith
  steps-le {a} (hop ch ch' at r ans run) =
      let rest_le : steps run ≤ busy (set a.channels a.channel ch') =
        subst (λ cs. steps run ≤ busy cs) (moved-channels c r ch' a) (steps-le run) in
      omega (arith, busy-set a.channels a.channel ch' at (not-idle r) ans.cleared, rest_le)

  pub Run-Sized :
      {a b : Agent M}
      → Run a b
      → All Sized a.channels
      → All Sized b.channels × (length b.channels ≡ length a.channels)
  Run-Sized rest sized = (sized, refl)
  Run-Sized {a} {b} (hop ch ch' at r ans run) sized =
      let cs = moved-channels c r ch' a in
      let (sized', len) =
        Run-Sized run
          (subst (All Sized) (sym cs) (All-set Sized a.channels a.channel ch' sized ans.size)) in
      (sized', len ∙ ap length cs ∙ length-set a.channels a.channel ch')

  -- An idle channel is left alone, and any other would be in its place.
  pub Run-put :
      {a b : Agent M} (run : Run a b) (j : ℕ) {d : Channel} (d' : Channel)
      → get_elem? a.channels j ≡ some d
      → d.control ≡ 0
      → (get_elem? b.channels j ≡ some d) × Run (put j d' a) (put j d' b)
  Run-put rest j d' e idle = (e, rest)
  Run-put {a} {b} (hop ch ch' at r ans run) j {d} d' e idle =
      let other : a.channel ≢ j = λ q.
        not-idle r
          (ap (λ x. x.control) (some-inj (sym at ∙ ap (get_elem? a.channels) q ∙ e)) ∙ idle) in
      let kept : get_elem? (moved c r ch' a).channels j ≡ some d =
        ap (λ cs. get_elem? cs j) (moved-channels c r ch' a)
        ∙ get_elem?-set_ne a.channels a.channel j ch' other
        ∙ e in
      let (e', run') = Run-put run j d' kept idle in
      let at' : get_elem? (set a.channels j d') a.channel ≡ some ch =
        get_elem?-set_ne a.channels j a.channel d' (λ q. other (sym q)) ∙ at in
      (
        e',
        hop ch ch' at' r ans
            (subst (λ z. Run z (put j d' b)) (sym (moved-put c r ch' a j d' other)) run'),
      )
