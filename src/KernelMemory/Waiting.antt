-- ===== src/KernelMemory/Waiting.antt =====
-- A client that waits for the channel where the agent comes to rest does not wait forever.
use cache_hound.Common.{
  ℕ, zero, suc, ◌*◌, ◌<◌, ◌≤◌, ◌≡◌, refl, ap, sym, ◌∙◌, true, false, ◌==◌, ==_of_ne, some, length,
  get_elem?, get_elem?-lt, arith, ℕ_discrete, length-set, inl, inr, ◌⊎◌, subst, some-inj,
  get_elem?-set_ne, ◌%◌, ◌>>=◌,
}
use cache_hound.Channel.{Channel, idle_seen}
use cache_hound.Agent.{Agent, AgentCode, round}
use cache_hound.Agent.Contract.{AgentContract}
use cache_hound.KernelMemory.{wait_for_idle, wait}
use cache_hound.KernelMemory.Requests.{Request-busy, moved, moved-channels}
use cache_hound.KernelMemory.Runs.{Run, rest, hop, steps, steps-le, busy-le}

idle_seen_of_idle : (ch : Channel) → ch.control ≡ 0 → idle_seen ch ≡ true
idle_seen_of_idle ch e = rw (idle_seen, e) refl

idle_seen_of_busy : (ch : Channel) (n : ℕ) → ch.control ≡ suc (n * 2) → idle_seen ch ≡ false
idle_seen_of_busy ch n e =
    let odd : (ch.control % 2 == 0) ≡ false = ==_of_ne _ _ (omega (arith, e)) in
    rw (idle_seen, odd) refl

module _ {M : Type 0} (code : AgentCode M) where
  wait-idle :
      (n i : ℕ) (a : Agent M) {ch : Channel}
      → get_elem? a.channels i ≡ some ch
      → ch.control ≡ 0
      → wait_for_idle code n i a ≡ some a
  unfolding wait_for_idle
  wait-idle zero i a {ch} at idle = rw (at, idle_seen_of_idle ch idle) refl
  wait-idle (suc n) i a {ch} at idle =
      ap
        (λ o. o >>= λ d. elim (idle_seen d) [
          | true ↦ some a
          | false ↦ round code a >>= λ a'. wait_for_idle code n i a'
        ])
        at
      ∙ ap
          (λ b. elim b [ true ↦ some a | false ↦ round code a >>= λ a'. wait_for_idle code n i a' ])
          (idle_seen_of_idle ch idle)

  wait-busy :
      (n i k : ℕ) (a a' : Agent M) {ch : Channel}
      → get_elem? a.channels i ≡ some ch
      → ch.control ≡ suc (k * 2)
      → round code a ≡ some a'
      → wait_for_idle code (suc n) i a ≡ wait_for_idle code n i a'
  unfolding wait_for_idle
  wait-busy n i k a a' {ch} at taken moves =
      ap
        (λ o. o >>= λ d. elim (idle_seen d) [
          | true ↦ some a
          | false ↦ round code a >>= λ a'. wait_for_idle code n i a'
        ])
        at
      ∙ ap
          (λ b. elim b [ true ↦ some a | false ↦ round code a >>= λ a'. wait_for_idle code n i a' ])
          (idle_seen_of_busy ch k taken)
      ∙ ap (λ o. o >>= λ a'. wait_for_idle code n i a') moves

module _ {M : Type 0} {code : AgentCode M} (c : AgentContract code) where
  -- A channel that a run makes idle, or finds so: it is not idle only for a request ahead.
  busy_of_ahead :
      {a b : Agent M} (run : Run c a b) (j : ℕ) {d e : Channel}
      → get_elem? a.channels j ≡ some d
      → get_elem? b.channels j ≡ some e
      → e.control ≡ 0
      → (d.control ≡ 0) ⊎ ((n : ℕ) × (d.control ≡ suc (n * 2)))
  busy_of_ahead rest j {d} {e} at at' idle =
      inl (ap (λ x. x.control) (some-inj (sym at ∙ at')) ∙ idle)
  busy_of_ahead {a} {b} (hop ch ch' here r ans run) j {d} {e} at at' idle =
      elim (ℕ_discrete a.channel j) [
        | yes same ↦
            let mine : ch ≡ d = some-inj (sym here ∙ ap (get_elem? a.channels) same ∙ at) in
            inr (subst (λ x. (n : ℕ) × (x.control ≡ suc (n * 2))) mine (Request-busy c r))
        | no other ↦
            busy_of_ahead run j
              (ap (λ cs. get_elem? cs j) (moved-channels c r ch' a)
                ∙ get_elem?-set_ne a.channels a.channel j ch' other
                ∙ at)
              at' idle
      ]

  pub record Waited (a b : Agent M) (i : ℕ) (a' : Agent M) : Type 0 where
    pub ahead : Run c a' b
    pub before : Run c a a'
    pub now : (ch : Channel) × (get_elem? a'.channels i ≡ some ch) × (ch.control ≡ 0)

  wait_for_idle_lem :
      (n i : ℕ) {a b : Agent M} (run : Run c a b) {e : Channel}
      → steps c run ≤ n
      → get_elem? b.channels i ≡ some e
      → e.control ≡ 0
      → i < length a.channels
      → (a' : Agent M) × (wait_for_idle code n i a ≡ some a') × Waited a b i a'
  unfolding steps
  wait_for_idle_lem zero i {a} rest {e} bound at idle inside = (
    a,
    wait-idle code zero i a at idle,
    record { ahead = rest; before = rest; now = (e, at, idle) },
  )
  wait_for_idle_lem zero i (hop ch ch' here r ans run) bound at idle inside =
      absurd (omega (arith, bound))
  wait_for_idle_lem (suc n) i {a} rest {e} bound at idle inside = (
    a,
    wait-idle code (suc n) i a at idle,
    record { ahead = rest; before = rest; now = (e, at, idle) },
  )
  wait_for_idle_lem (suc n) i {a} {b} (hop ch ch' here r ans run) {e} bound at idle inside =
      let (d, found) = get_elem?-lt a.channels i inside in
      elim (busy_of_ahead (hop ch ch' here r ans run) i found at idle) [
        | inl free ↦ (
          a,
          wait-idle code (suc n) i a found free,
          record { ahead = hop ch ch' here r ans run; before = rest; now = (d, found, free) },
        )
        | inr (k, taken) ↦
            let cs = moved-channels c r ch' a in
            let inside' : i < length (moved c r ch' a).channels =
              omega (arith, inside, ap length cs, length-set a.channels a.channel ch') in
            let (a', runs, w) = wait_for_idle_lem n i run (omega (arith, bound)) at idle inside' in
            (
              a',
              wait-busy code n i k a (moved c r ch' a) found taken (ans.runs a here refl) ∙ runs,
              record { ahead = w.ahead; before = hop ch ch' here r ans w.before; now = w.now },
            )
      ]

  -- For an agent that keeps the contract, a client that waits for a channel that is idle once the
  -- agent has nothing ahead sees it idle after at most as many rounds of the agent as there are
  -- channels; what the agent has ahead then leads to the same end.
  pub wait_lem :
      (i : ℕ) {a b : Agent M} (run : Run c a b) {e : Channel}
      → get_elem? b.channels i ≡ some e
      → e.control ≡ 0
      → i < length a.channels
      → (a' : Agent M) × (wait code i a ≡ some a') × Waited a b i a'
  wait_lem i {a} run at idle inside =
      wait_for_idle_lem (length a.channels) i run
        (omega (arith, steps-le c run, busy-le a.channels)) at idle inside
