-- ===== src/Sequence/Steps.antt =====
-- The tables of `simulate_sequence` stand for the contents of the ways.
use cache_hound.Common.{
  ℕ, ◌+◌, ◌%◌, ◌<◌, ◌≡◌, refl, ap, sym, ◌∙◌, List, [], ◌∷◌, Option, none, some, value_of_replicate,
  arith, length, get_elem?, set, replicate, ◌==◌, true, false, inl, inr, ==_refl, ==_of_ne, word,
  length-replicate, map-replicate, All,
}
use cache_hound.Policy.{ReplacementPolicy, Contract}
use cache_hound.Sequence.{
  dirty, Simulation, grow, access_grown, access, access_all, start, simulate_sequence,
}
use cache_hound.Sequence.Tables.{Tracks, encode, grow-Tracks, lookup-Tracks}
use cache_hound.Sequence.Counting.{count_lem}
use cache_hound.Sequence.Reference.{way_of, reference_access, reference_hits}
use cache_hound.Sequence.Branches.{on_hit-Tracks, on_miss-Tracks, Marked-Tracks, miss-Tracks}

module _ {S : Type 0} (p : ReplacementPolicy S) (c : Contract p) where
  -- What the access does to the policy, the contents and the counter.
  abbrev Matches : ℕ → Simulation S → List (Option ℕ) → Option (Simulation S) → Type 0
  Matches addr st content result =
      (st' : Simulation S) × (content' : List (Option ℕ)) × (h : ℕ) × (result ≡ some st')
      × (reference_access p addr (st.policy, content) ≡ some (h, (st'.policy, content')))
      × Tracks p c st' content'
      × (st'.hit_counter ≡ (st.hit_counter + h) % word)

  grown-hit :
      (st : Simulation S) (content : List (Option ℕ)) (addr way : ℕ)
      → Tracks p c st content
      → st.hit_counter < word
      → addr < length st.seen
      → get_elem? st.addr_way addr ≡ some way
      → get_elem? st.way_addr way ≡ some addr
      → way_of addr content ≡ some way
      → get_elem? content way ≡ some (some addr)
      → Matches addr st content (access_grown p addr st)
  unfolding access_grown reference_access
  grown-hit st content addr way t counted inside found tagged first holds =
      let (s', run, run', t') = on_hit-Tracks p c st content addr way t holds in
      let after : Simulation S = record st { policy = s' } in
      let (st', run'', m, counter) =
        count_lem after addr true inside counted (λ _. (t.held way addr holds).1) in
      (
        st',
        content,
        1,
        rw (found, tagged, ==_refl addr, run', run'') refl,
        rw (first, reference_access, run, m.policy) refl,
        Marked-Tracks p c after st' content addr t' m,
        counter,
      )

  grown-miss :
      (st : Simulation S) (content : List (Option ℕ)) (addr way tag : ℕ)
      → Tracks p c st content
      → st.hit_counter < word
      → addr < dirty
      → addr < length st.addr_way
      → get_elem? st.addr_way addr ≡ some way
      → get_elem? st.way_addr way ≡ some tag
      → (tag == addr) ≡ false
      → way_of addr content ≡ none
      → ((w : ℕ) → get_elem? content w ≡ some (some addr) → ⊥)
      → Matches addr st content (access_grown p addr st)
  unfolding access_grown reference_access
  grown-miss st content addr way tag t counted small inside found tagged ne absent nowhere =
      let (w, s', run, run', v, same, lt, used, keep) =
        on_miss-Tracks p c st content addr t small inside nowhere in
      let after : Simulation S = record st {
        addr_way = set st.addr_way addr w;
        way_addr = set st.way_addr w addr;
        policy = s';
      } in
      let (st', run'', m, counter) =
        count_lem after addr false (omega (arith, t.tables, inside)) counted (λ e. cc) in
      (
        st',
        set content w (some addr),
        0,
        rw (found, tagged, ne, run', run'') refl,
        rw (absent, reference_access, run, m.policy) refl,
        miss-Tracks p c st st' content addr w s' t small inside nowhere v same lt used keep m,
        counter,
      )

  -- One access of the source is one access of the reference: the same policy calls, the same
  -- contents, and a hit counted if and only if the reference has one.
  pub access-reference :
      (st : Simulation S) (content : List (Option ℕ)) (addr : ℕ)
      → Tracks p c st content
      → st.hit_counter < word
      → addr < dirty
      → Matches addr st content (access p addr st)
  unfolding access
  access-reference st content addr t counted small =
      let (g, inside, same_policy, same_counter) = grow-Tracks p c st content addr t small in
      let grown : Simulation S = grow addr st in
      let fits : grown.hit_counter < word = rw same_counter counted in
      let (way, tag, found, tagged, cases) = lookup-Tracks p c grown content addr g small inside in
      let result : Matches addr grown content (access_grown p addr grown) = elim cases [
        | inl (e, first, holds) ↦
            grown-hit grown content addr way g fits (omega (arith, g.tables, inside)) found
              (tagged ∙ ap some e) first holds
        | inr (ne, absent, nowhere) ↦
            grown-miss grown content addr way tag g fits small inside found tagged
              (==_of_ne tag addr ne) absent nowhere
      ] in
      let (st', content', h, run, ref, t', counter) = result in
      (
        st',
        content',
        h,
        run,
        ap (λ q. reference_access p addr (q, content)) (sym same_policy) ∙ ref,
        t',
        counter ∙ ap (λ n. (n + h) % word) same_counter,
      )

  start-Tracks :
      (s : S) → c.IsValid s → 0 < p.ways s → Tracks p c (start p s) (replicate (p.ways s) none)
  start-Tracks s v pos = record {
    valid = v;
    tags = sym (map-replicate encode (p.ways s) none);
    size = length-replicate (p.ways s) none;
    some_way = omega (arith, length-replicate {A = Option ℕ} (p.ways s) none, pos);
    tables = refl;
    ways_lt = λ a w e. absurd (ground arith);
    held = λ w a e. cc (value_of_replicate (p.ways s) w none (some a) e);
  }

  -- The counter is bounded by the machine word, and follows the hits of the reference.
  access_all-reference :
      (sequence : List ℕ) (st : Simulation S) (content : List (Option ℕ))
      → Tracks p c st content
      → st.hit_counter < word
      → All (λ addr. addr < dirty) sequence
      → (st' : Simulation S) × (hits : ℕ) × (access_all p sequence st ≡ some st')
        × (reference_hits p sequence (st.policy, content) ≡ some hits)
        × (st'.hit_counter ≡ (st.hit_counter + hits) % word)
  unfolding access_all reference_hits
  access_all-reference [] st content t counted small = (st, 0, refl, refl, omega arith)
  access_all-reference (addr ∷ sequence) st content t counted small =
      let (st1, content1, h, run, ref, t1, counter) =
        access-reference st content addr t counted small.0 in
      let (st2, hits, run2, ref2, counter2) =
        access_all-reference sequence st1 content1 t1 (omega (arith, counter)) small.1 in
      (st2, h + hits, rw (run, run2) refl, rw (ref, ref2) refl, omega (arith, counter, counter2))

  -- For a policy with a contract, a valid state with at least one way and addresses below the
  -- largest machine word, `simulate_sequence` returns a result without a fault; it is, modulo the
  -- machine word, the number of accesses that find their address in some way when the sequence runs
  -- on a list of ways searched from the first on, without the tables of the source.
  pub simulate_sequence-reference :
      (sequence : List ℕ) (s : S)
      → c.IsValid s
      → 0 < p.ways s
      → All (λ addr. addr < dirty) sequence
      → (hits : ℕ) × (reference_hits p sequence (s, replicate (p.ways s) none) ≡ some hits)
        × (simulate_sequence p sequence s ≡ some (hits % word))
  unfolding simulate_sequence
  simulate_sequence-reference sequence s v pos small =
      let (st, hits, run, ref, counter) =
        access_all-reference sequence (start p s) (replicate (p.ways s) none) (start-Tracks s v pos)
          (omega arith) small in
      (hits, ref, rw run (ap some (counter ∙ omega arith)))
