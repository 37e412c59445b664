-- ===== src/Device/Leaks.antt =====
-- No state is used after it is freed, freed twice or left behind.
use cache_hound.Common.{
  ℕ, zero, suc, ◌+◌, ◌-◌, ◌<◌, ◌≤◌, ◌≡◌, ◌==◌, refl, ap, sym, ◌∙◌, subst, Bool, true, false, ltb,
  lt→ltb, ==_of_ne, List, [], ◌∷◌, ◌++◌, Option, none, some, bit_to_ℕ, arith, some-inj,
  if◌then◌else◌,
}
use cache_hound.Device.{
  alloc_ch_state, Resource, object, mapping, pages, Heap, Region, ChState, Status, enomem,
  StartConfig, device_open, ch_state_put, ch_state_alloc_memory, start_agent, device_release,
}
use cache_hound.Device.Ledger.{occurrences}
use cache_hound.Device.Starting.{Launched, Launching, start_agent_lem}
use cache_hound.Device.States.{
  owned, owned_regions, own, occurrences-append, ch_state_free_lem, ch_state_alloc_memory_lem,
  Extended, Opened, alloc_ch_state_lem,
}
use cache_hound.Device.Lifecycle.{Session, Step, Reach, Alive, refuse, close, finish, opened, later}

bit-le : (b : Bool) → bit_to_ℕ b ≤ 1
bit-le true = omega arith
bit-le false = omega arith

-- What `ch_state_put` does with a state whose counter is `n + 1`.
put_lem :
    (n : ℕ) (s : ChState) (base h : Heap)
    → s.ref_counter ≡ suc n
    → ((q : Resource) → occurrences q h.live ≡ occurrences q (owned s) + occurrences q base.live)
    → (is_open : Bool) (agents : ℕ) → n ≡ bit_to_ℕ is_open + agents
    → agents ≤ bit_to_ℕ s.started
    → (state : Option ChState) × (h' : Heap) × (ch_state_put s h ≡ some (state, h'))
      × Alive base h' is_open agents state
unfolding ch_state_put Alive
put_lem zero s base h refs counts is_open agents rest once =
    let (h', runs, left) = ch_state_free_lem s h (λ q. omega (arith, counts q)) in
    let counted : ltb 0 s.ref_counter ≡ true = lt→ltb 0 s.ref_counter (omega (arith, refs)) in
    let last : s.ref_counter - 1 ≡ 0 = omega (arith, refs) in
    (
      none,
      h',
      rw (counted, last, runs) refl,
      (closed is_open agents rest, omega (arith, rest), λ q. omega (arith, counts q, left q)),
    )
  where
    closed : (is_open : Bool) (agents : ℕ) → 0 ≡ bit_to_ℕ is_open + agents → is_open ≡ false
    closed true agents e = absurd (omega (arith, e))
    closed false agents e = refl
put_lem (suc n) s base h refs counts is_open agents rest once =
    let counted : ltb 0 s.ref_counter ≡ true = lt→ltb 0 s.ref_counter (omega (arith, refs)) in
    let more : (s.ref_counter - 1 == 0) ≡ false = ==_of_ne _ _ (omega (arith, refs)) in
    (
      some (record s { ref_counter = s.ref_counter - 1 }),
      h,
      rw (counted, more) refl,
      (omega (arith, refs, rest), omega (arith, refs), once, counts),
    )

owned_regions-append :
    (xs ys : List Region) → owned_regions (xs ++ ys) ≡ owned_regions xs ++ owned_regions ys
owned_regions-append [] ys = refl
owned_regions-append (r ∷ xs) ys =
    ap (λ z. object r.self ∷ mapping r.base ∷ pages r.page r.order ∷ z) (owned_regions-append xs ys)

-- One more region is one more thing that the state holds.
occurrences-owned :
    (q : Resource) (s : ChState) (r : Region)
    → occurrences q (owned (record s { regions = s.regions ++ (r ∷ []) }))
      ≡ occurrences q (owned_regions (r ∷ [])) + occurrences q (owned s)
occurrences-owned q s r =
    let more = ap (occurrences q) (owned_regions-append s.regions (r ∷ [])) in
    let parts = occurrences-append q (owned_regions s.regions) (owned_regions (r ∷ [])) in
    let whole = occurrences-append q (owned_regions (s.regions ++ (r ∷ []))) (own s) in
    let old = occurrences-append q (owned_regions s.regions) (own s) in
    omega (arith, more, parts, whole, old)

module _ (nr_cpus : ℕ) (h : Heap) where
  alloc_memory-Alive :
      (x : Session) (s : ChState) (order : ℕ) (o : Status × ChState × Heap)
      → Alive h x.heap x.is_open x.agents (some s)
      → ch_state_alloc_memory s order x.heap ≡ some o
      → Alive h o.2 x.is_open x.agents (some o.1)
  unfolding Alive Extended
  alloc_memory-Alive x s order o (refs, alive, once, counts) e =
      let (status, s1, h1, runs, ext) = ch_state_alloc_memory_lem s order x.heap in
      subst (λ z. Alive h z.2 x.is_open x.agents (some z.1)) (some-inj (sym runs ∙ e))
        (by_status status s1 h1 ext)
    where
      by_status :
          (status : Status) (s1 : ChState) (h1 : Heap)
          → Extended s order x.heap status s1 h1
          → Alive h h1 x.is_open x.agents (some s1)
      by_status (some error) s1 h1 (same, live) =
          subst (λ z. Alive h h1 x.is_open x.agents (some z)) (sym same)
            (refs, alive, once, λ q. ap (occurrences q) live ∙ counts q)
      by_status none s1 h1 (r, same, live, _) =
          subst (λ z. Alive h h1 x.is_open x.agents (some z)) (sym same)
            (
              refs,
              alive,
              once,
              λ q. omega (
                arith,
                counts q,
                ap (occurrences q) live,
                occurrences-append q (owned_regions (r ∷ [])) x.heap.live,
                occurrences-owned q s r,
              ),
            )

  start-Alive :
      (x : Session) (s s' : ChState) (config : StartConfig) (status : Status)
      → Alive h x.heap true x.agents (some s)
      → start_agent nr_cpus true config s ≡ some (status, s')
      → Alive h x.heap true (elim status [ none ↦ x.agents + 1 | some error ↦ x.agents ]) (some s')
  unfolding Alive Launched Launching
  start-Alive x s s' config status (refs, alive, once, counts) e =
      let (status1, s1, runs, changed) = start_agent_lem nr_cpus config s in
      subst
        (λ z.
          Alive h x.heap true (elim z.0 [ none ↦ x.agents + 1 | some error ↦ x.agents ]) (some z.1))
        (some-inj (sym runs ∙ e)) (by_status status1 s1 changed)
    where
      by_status :
          (status : Status) (s1 : ChState)
          → Launched s status s1
          → Alive h x.heap true
              (elim status [ none ↦ x.agents + 1 | some error ↦ x.agents ])
              (some s1)
      by_status none s1 (was, now, more, same) = (
        omega (arith, more, refs),
        omega (arith, more),
        omega (arith, once, ap bit_to_ℕ was, ap bit_to_ℕ now),
        λ q. counts q ∙ ap (λ z. occurrences q z + occurrences q h.live) (sym same),
      )
      by_status (some error) s1 (as_was, refs_same, same) = (
        refs_same ∙ refs,
        omega (arith, refs_same, alive),
        omega (arith, once, ap bit_to_ℕ as_was),
        λ q. counts q ∙ ap (λ z. occurrences q z + occurrences q h.live) (sym same),
      )

  -- Giving up one of the references.
  put-Alive :
      (x : Session) (s : ChState) (is_open : Bool) (agents : ℕ)
      → Alive h x.heap x.is_open x.agents (some s)
      → bit_to_ℕ x.is_open + x.agents ≡ suc (bit_to_ℕ is_open + agents)
      → agents ≤ x.agents
      → (state : Option ChState) × (h' : Heap) × (ch_state_put s x.heap ≡ some (state, h'))
        × Alive h h' is_open agents state
  unfolding Alive
  put-Alive x s is_open agents (refs, alive, once, counts) fewer less =
      put_lem (bit_to_ℕ is_open + agents) s h x.heap (refs ∙ fewer) counts is_open agents refl
        (omega (arith, less, once))

  Step-Alive :
      {x y : Session}
      → Alive h x.heap x.is_open x.agents x.state
      → Step nr_cpus x y
      → Alive h y.heap y.is_open y.agents y.state
  unfolding device_release
  Step-Alive {x} alive (Step.alloc_memory s s' order status h' is_open state e) =
      alloc_memory-Alive x s order (status, s', h')
        (subst (Alive h x.heap x.is_open x.agents) state alive) e
  Step-Alive {x} alive (Step.start s s' config is_open state e) =
      subst (λ b. Alive h x.heap b (x.agents + 1) (some s')) (sym is_open)
        (start-Alive x s s' config none
          (subst (λ b. Alive h x.heap b x.agents (some s)) is_open
            (subst (Alive h x.heap x.is_open x.agents) state alive))
          e)
  Step-Alive {x} alive (refuse s s' config error is_open state e) =
      subst (λ b. Alive h x.heap b x.agents (some s')) (sym is_open)
        (start-Alive x s s' config (some error)
          (subst (λ b. Alive h x.heap b x.agents (some s)) is_open
            (subst (Alive h x.heap x.is_open x.agents) state alive))
          e)
  Step-Alive {x} alive (close s told state h' is_open has e) =
      let (state1, h1, runs, after) =
        put-Alive x s false x.agents (subst (Alive h x.heap x.is_open x.agents) has alive)
          (omega (arith, ap bit_to_ℕ is_open)) (omega arith) in
      let told1 = if s.started then some s.active_channel else none in
      let forward : device_release s x.heap ≡ some (told1, state1, h1) = rw runs refl in
      subst (λ z. Alive h z.2 false x.agents z.1) (some-inj (sym forward ∙ e)) after
  Step-Alive {x} alive (finish s n state h' agents has e) =
      let (state1, h1, runs, after) =
        put-Alive x s x.is_open n (subst (Alive h x.heap x.is_open x.agents) has alive)
          (omega (arith, agents)) (omega (arith, agents)) in
      subst (λ z. Alive h z.1 x.is_open n z.0) (some-inj (sym runs ∙ e)) after

  opened-Alive :
      (s : ChState) (h' : Heap)
      → device_open h ≡ some (none, some s, h')
      → Alive h h' true 0 (some s)
  unfolding device_open Alive Opened
  opened-Alive s h' e =
      let (state, h1, runs, result) = alloc_ch_state_lem h in by_state state h1 runs result
    where
      by_state :
          (state : Option ChState) (h1 : Heap)
          → alloc_ch_state h ≡ some (state, h1)
          → Opened h state h1
          → Alive h h' true 0 (some s)
      by_state none h1 runs live =
          let forward : device_open h ≡ some (some enomem, none, h1) = rw runs refl in
          let clash : some (some enomem, none, h1) ≡ some (none, some s, h') = sym forward ∙ e in cc
      by_state (some s1) h1 runs (live, refs, _, _) =
          let forward : device_open h ≡ some (none, some s1, h1) = rw runs refl in
          subst (λ z. Alive h z.2 true 0 z.1) (some-inj (sym forward ∙ e))
            (
              refs,
              omega (arith, refs),
              omega arith,
              λ q. ap (occurrences q) live ∙ occurrences-append q (owned s1) h.live,
            )

  -- The reference counter counts the file and its agents, and the state holds what is allocated.
  pub Reach-Alive : {x : Session} → Reach nr_cpus h x → Alive h x.heap x.is_open x.agents x.state
  Reach-Alive (opened s h' e) = opened-Alive s h' e
  Reach-Alive (later reach step) = Step-Alive (Reach-Alive reach) step

  -- From any heap, after any sequence of requests, the release of the file and the end of its
  -- agents, once the file is closed and no agent runs the state is freed and the kernel has exactly
  -- the live resources that it had before the file was opened.
  pub Reach-closed :
      {x : Session}
      → Reach nr_cpus h x
      → x.is_open ≡ false
      → x.agents ≡ 0
      → (x.state ≡ none) × ((q : Resource) → occurrences q x.heap.live ≡ occurrences q h.live)
  unfolding Alive
  Reach-closed {x} reach closed idle = by_state x.state refl (Reach-Alive reach)
    where
      by_state :
          (state : Option ChState)
          → x.state ≡ state
          → Alive h x.heap x.is_open x.agents state
          → (x.state ≡ none) × ((q : Resource) → occurrences q x.heap.live ≡ occurrences q h.live)
      by_state none e (_, _, counts) = (e, counts)
      by_state (some s) e (refs, alive, _, _) =
          absurd (omega (arith, refs, alive, idle, ap bit_to_ℕ closed))

  -- In any such sequence, as long as the file is open or an agent runs the state is live, and
  -- giving up a reference to it succeeds: nothing is freed twice or used after it is freed.
  pub Reach-put :
      {x : Session}
      → Reach nr_cpus h x
      → 0 < bit_to_ℕ x.is_open + x.agents
      → (s : ChState) × (x.state ≡ some s)
        × (state : Option ChState) × (h' : Heap) × (ch_state_put s x.heap ≡ some (state, h'))
  unfolding Alive
  Reach-put {x} reach used = by_state x.state refl (Reach-Alive reach)
    where
      by_state :
          (state : Option ChState)
          → x.state ≡ state
          → Alive h x.heap x.is_open x.agents state
          → (s : ChState) × (x.state ≡ some s)
            × (state' : Option ChState) × (h' : Heap) × (ch_state_put s x.heap ≡ some (state', h'))
      by_state none e (closed, idle, _) = absurd (omega (arith, used, idle, ap bit_to_ℕ closed))
      by_state (some s) e (refs, alive, once, counts) =
          let n : ℕ = s.ref_counter - 1 in
          let (state', h', runs, _) =
            put_lem n s h x.heap (omega (arith, alive)) counts false n (omega arith)
              (omega (arith, refs, once, bit-le x.is_open)) in
          (s, e, state', h', runs)
