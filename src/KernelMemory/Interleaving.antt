-- ===== src/KernelMemory/Interleaving.antt =====
-- The operations of the client and the rounds of the agent in any order. An operation of the client
-- is one step, in which the agent has the rounds that the operation waits for.
use cache_hound.Common.{
  ℕ, zero, suc, [], ◌%◌, ◌^◌, ◌<◌, ◌≡◌, refl, ap, sym, subst, ◌∙◌, true, some, length, get_elem?-lt,
  All-get_elem?, replicate, All, arith, some-inj,
}
use cache_hound.Agent.{Agent, AgentCode, round, start}
use cache_hound.Channel.{Channel, ch_channel_init, data_size}
use cache_hound.Agent.Contract.{AgentContract, channel_count}
use cache_hound.KernelMemory.{
  KernelMemory, System, access, instrumented_access, clflush, switch_to_next, wbinvd,
}
use cache_hound.KernelMemory.Runs.{Run, rest, hop, Run-Sized, Sized}
use cache_hound.KernelMemory.Represents.{Idle, Represents, Run-Represents}
use cache_hound.KernelMemory.Accesses.{Accessible, access_lem, clflush_lem}
use cache_hound.KernelMemory.Instrumented.{instrumented_access-counters}
use cache_hound.KernelMemory.Switching.{switch_to_next_lem, wbinvd_lem}

module _ {M : Type 0} {code : AgentCode M} (c : AgentContract code) where
  -- A step, with what it asks of the processor.
  pub data Step (s : System M) : System M → (M → M) → Type 0 where
    agent : (a : Agent M) → round code s.agent ≡ some a → Step s (record s { agent = a }) (λ m. m)
    read :
        (x : ℕ) (s' : System M)
        → Accessible s x
        → access code x s ≡ some s'
        → Step s s' (c.execute x)
    timed :
        (h : ℕ → ℕ → ℕ → ℕ → ℕ → ℕ → ℕ) (x level : ℕ) (s' : System M)
        → Accessible s x
        → instrumented_access code h x s ≡ some (level, s')
        → Step s s' (c.execute x)
    flushed :
        (x : ℕ) (s' : System M) → clflush code x s ≡ some s' → Step s s' (c.execute (x % 2 ^ 63))
    flushed_all :
        (s' : System M) → c.has_wbinvd ≡ true → wbinvd code s ≡ some s' → Step s s' c.wbinvd
    switched : (s' : System M) → switch_to_next code s ≡ some s' → Step s s' (λ m. m)

  -- The system when the agent starts.
  abbrev pub initial : KernelMemory → M → System M
  initial k m =
      let channels =
        replicate channel_count (ch_channel_init (record { control = 0; words = [] })) in
      record {
        memory = record k {
          active_channel = 0;
          channel_count = channel_count;
          buffer = replicate data_size 0;
          buffered = 0;
        };
        agent = start code channels 0 m;
      }

  pub data Reach (k : KernelMemory) (m : M) : System M → M → Type 0 where
    begin : Reach k m (initial k m) m
    later :
        {s s' : System M} {m' : M} {f : M → M} → Reach k m s m' → Step s s' f → Reach k m s' (f m')

  pub record Good (s : System M) (m : M) : Type 0 where
    pub now : Represents c s m
    pub free : s.memory.buffered < data_size

  All-replicate : (P : Channel → Type 0) (n : ℕ) (ch : Channel) → P ch → All P (replicate n ch)
  All-replicate P zero ch h = tt
  All-replicate P (suc n) ch h = (h, All-replicate P n ch h)

  initial-Good : (k : KernelMemory) (m : M) → Good (initial k m) m
  initial-Good k m =
      let fresh = ch_channel_init (record { control = 0; words = [] }) in
      record {
        now = record {
          buffer_size = refl;
          room = omega arith;
          size = refl;
          count = refl;
          inside = omega arith;
          sized = All-replicate Sized channel_count fresh refl;
          rested = (initial k m).agent;
          run = rest;
          at = c.index 0 (omega arith);
          quiet = All-replicate Idle channel_count fresh refl;
          meaning = refl;
        };
        free = omega arith;
      }

  round-Idle :
      (a : Agent M) → All Idle a.channels → a.channel < length a.channels → round code a ≡ some a
  unfolding round
  round-Idle a quiet inside =
      let (ch, here) = get_elem?-lt a.channels a.channel inside in
      let idle : ch.control ≡ 0 = All-get_elem? Idle a.channels a.channel ch quiet here in
      rw (here, idle) refl

  -- A round is the next one of those that the agent has ahead, or none.
  round_ahead :
      {a b a' : Agent M}
      → Run c a b
      → All Idle b.channels
      → b.channel < length b.channels
      → round code a ≡ some a'
      → Run c a a' × Run c a' b
  round_ahead {a} rest quiet inside e =
      let same = some-inj (sym (round-Idle a quiet inside) ∙ e) in
      (subst (Run c a) same rest, subst (λ z. Run c z a) same rest)
  round_ahead {a} {b} (hop ch ch' here r ans run) quiet inside e =
      let same = some-inj (sym (ans.runs a here refl) ∙ e) in
      (subst (Run c a) same (hop ch ch' here r ans rest), subst (λ z. Run c z b) same run)

  pub round-Represents :
      {s : System M} {m : M} (R : Represents c s m) (a : Agent M)
      → round code s.agent ≡ some a
      → Represents c (record s { agent = a }) m
  round-Represents {s} {m} R a e =
      let (_, len) = Run-Sized c R.run R.sized in
      let (before, ahead) =
        round_ahead R.run R.quiet (omega (arith, R.at, R.inside, len, R.size)) e in
      Run-Represents c R before ahead

  Step-Good : {s s' : System M} {f : M → M} (m : M) → Good s m → Step s s' f → Good s' (f m)
  Step-Good {s} m G (Step.agent a e) = record { now = round-Represents G.now a e; free = G.free }
  Step-Good {s} m G (read x s' ok e) =
      let (s1, runs, y) = access_lem c x s m G.now G.free ok in
      subst (λ z. Good z (c.execute x m)) (some-inj (sym runs ∙ e))
        (record { now = y.now; free = y.free })
  Step-Good {s} m G (timed h x level s' ok e) =
      let (level1, s1, runs, _, y) = instrumented_access-counters c h x s m G.now G.free ok in
      subst (λ z. Good z (c.execute x m)) (ap (λ z. z.1) (some-inj (sym runs ∙ e)))
        (record { now = y.now; free = y.free })
  Step-Good {s} m G (flushed x s' e) =
      let (s1, runs, y) = clflush_lem c x s m G.now G.free in
      subst (λ z. Good z (c.execute (x % 2 ^ 63) m)) (some-inj (sym runs ∙ e))
        (record { now = y.now; free = y.free })
  Step-Good {s} m G (flushed_all s' has e) =
      let (s1, runs, R, _, empty) = wbinvd_lem c s m G.now has in
      subst (λ z. Good z (c.wbinvd m)) (some-inj (sym runs ∙ e))
        (record { now = R; free = omega (arith, empty) })
  Step-Good {s} m G (switched s' e) =
      let (s1, runs, R, _, empty) = switch_to_next_lem c s m G.now in
      subst (λ z. Good z m) (some-inj (sym runs ∙ e))
        (record { now = R; free = omega (arith, empty) })

  -- In any order of operations and rounds the system stands for the operations in their order.
  pub Reach-Good : (k : KernelMemory) {m m' : M} {s : System M} → Reach k m s m' → Good s m'
  Reach-Good k {m} begin = initial-Good k m
  Reach-Good k (later {m' = m'} reach step) = Step-Good m' (Reach-Good k reach) step

  -- For an agent that keeps the contract, after any sequence of operations of the client and rounds
  -- of the agent, started on new channels, no operation faults or waits forever: an access of an
  -- address that the assertions allow, a flush of a line, a switch to the next channel and, where
  -- the processor has it, a flush of the whole caches return a system that stands for what it stood
  -- for before, with exactly this operation after all earlier ones.
  pub Reach-operations :
      (k : KernelMemory) {m m' : M} {s : System M}
      → Reach k m s m'
      → ((x : ℕ)
          → Accessible s x
          → (s' : System M) × (access code x s ≡ some s') × Represents c s' (c.execute x m'))
        × ((x : ℕ)
            → (s' : System M) × (clflush code x s ≡ some s')
              × Represents c s' (c.execute (x % 2 ^ 63) m'))
        × ((s' : System M) × (switch_to_next code s ≡ some s') × Represents c s' m')
        × (c.has_wbinvd ≡ true
            → (s' : System M) × (wbinvd code s ≡ some s') × Represents c s' (c.wbinvd m'))
  Reach-operations k {m} {m'} {s} reach =
      let G = Reach-Good k reach in
      (
        λ x ok. let (s', runs, y) = access_lem c x s m' G.now G.free ok in (s', runs, y.now),
        λ x. let (s', runs, y) = clflush_lem c x s m' G.now G.free in (s', runs, y.now),
        let (s', runs, R, _, _) = switch_to_next_lem c s m' G.now in (s', runs, R),
        λ has. let (s', runs, R, _, _) = wbinvd_lem c s m' G.now has in (s', runs, R),
      )
