-- ===== src/Measurement/Prediction.antt =====
-- What `measure_sequence` measures on a memory that behaves as a replacement policy is what
-- `simulate_sequence` predicts for this policy.
use cache_hound.Common.{
  ℕ, suc, ◌+◌, ◌-◌, ◌%◌, ◌<◌, ◌≡◌, ◌≢◌, ◌==◌, ◌⊎◌, inl, inr, refl, ap, sym, subst, ◌∙◌, leb, Bool,
  true, false, List, [], ◌∷◌, Option, none, some, length, get_elem?, get_elem?-lt, set, word, write,
  write_lem, resize, resize_grow, replicate, if◌then◌else◌, ◌>>=◌, All, arith, some-inj,
  >>=-eq-some, ==_of_ne, ℕ_discrete, get_elem?-set_self, get_elem?-set_ne, get_elem?-set_cases,
  get_elem?-append_left, length-append, length-replicate, value_of_replicate,
}
use cache_hound.Policy.{ReplacementPolicy, Contract}
use cache_hound.Sequence.{dirty, simulate_sequence}
use cache_hound.Sequence.Reference.{reference_access, reference_hits, way_of_cases}
use cache_hound.Sequence.Steps.{simulate_sequence-reference}
use cache_hound.Measurement.{
  InstrumentedMemory, Measurement, grow_seen, measure_access, measure, measure_all,
  measure_sequence,
}
use cache_hound.Measurement.Behaviour.{Behaves}

-- Every address in a way was seen.
abbrev Marked : List Bool → List (Option ℕ) → Type 0
Marked seen content = (w i : ℕ) → get_elem? content w ≡ some (some i) → get_elem? seen i ≡ some true

grow_seen_lem :
    (addr : ℕ) (seen : List Bool)
    → addr < dirty
    → (addr < length (grow_seen addr seen))
      × ((i : ℕ) → get_elem? seen i ≡ some true → get_elem? (grow_seen addr seen) i ≡ some true)
grow_seen_lem addr seen small = by_case (leb (length seen) addr) refl
  where
    by_case :
        (b : Bool)
        → leb (length seen) addr ≡ b
        → (addr < length (if b then resize seen ((1 + addr) % word) false else seen))
          × ((i : ℕ)
              → get_elem? seen i ≡ some true
              → get_elem? (if b then resize seen ((1 + addr) % word) false else seen) i ≡ some true)
    by_case true e =
        let size : (1 + addr) % word ≡ suc addr = omega (arith, small) in
        let short : length seen < (1 + addr) % word = ground (arith, e, size) in
        let longer = resize_grow seen ((1 + addr) % word) false short in
        (
          rw longer (
              omega (
                arith,
                size,
                short,
                length-append seen (replicate ((1 + addr) % word - length seen) false),
                length-replicate ((1 + addr) % word - length seen) false,
              )),
          λ i at. rw longer (get_elem?-append_left seen _ i at),
        )
    by_case false e = (ground (arith, e), λ i at. at)

marked-set :
    (seen : List Bool) (addr i : ℕ)
    → addr < length seen
    → get_elem? seen i ≡ some true
    → get_elem? (set seen addr true) i ≡ some true
marked-set seen addr i inside at = elim (ℕ_discrete addr i) [
  | yes e ↦
      subst (λ k. get_elem? (set seen addr true) k ≡ some true) e
        (get_elem?-set_self seen addr true inside)
  | no ne ↦ get_elem?-set_ne seen addr i true ne ∙ at
]

module _ {S : Type 0} (p : ReplacementPolicy S) where
  -- A hit finds the address and leaves the ways; a miss puts it into one.
  reference_cases :
      (addr : ℕ) (s : S) (content : List (Option ℕ)) (h : ℕ) (st' : S × List (Option ℕ))
      → reference_access p addr (s, content) ≡ some (h, st')
      → ((h ≡ 1) × (st'.1 ≡ content) × ((w : ℕ) × (get_elem? content w ≡ some (some addr))))
        ⊎ ((h ≡ 0) × ((w : ℕ) × (st'.1 ≡ set content w (some addr))))
  unfolding reference_access
  reference_cases addr s content h st' e = elim (way_of_cases addr content) [
    | inl (w, found, at) ↦
        let chain : (p.hit s w >>= λ s'. some (1, (s', content))) ≡ some (h, st') =
          ap
            (λ o. elim o [
              | some w ↦ p.hit s w >>= λ s'. some (1, (s', content))
              | none ↦ p.miss s >>= λ (w, s'). some (0, (s', set content w (some addr)))
            ])
            (sym found)
          ∙ e in
        let (s', _, same) = >>=-eq-some (p.hit s w) (λ s'. some (1, (s', content))) chain in
        inl (sym (ap (λ x. x.0) (some-inj same)), sym (ap (λ x. x.1.1) (some-inj same)), (w, at))
    | inr (missing, _) ↦
        let chain : (p.miss s >>= λ (w, s'). some (0, (s', set content w (some addr))))
            ≡ some (h, st') =
          ap
            (λ o. elim o [
              | some w ↦ p.hit s w >>= λ s'. some (1, (s', content))
              | none ↦ p.miss s >>= λ (w, s'). some (0, (s', set content w (some addr)))
            ])
            (sym missing)
          ∙ e in
        let ((w, s'), _, same) =
          >>=-eq-some (p.miss s) (λ (w, s'). some (0, (s', set content w (some addr)))) chain in
        inr (sym (ap (λ x. x.0) (some-inj same)), (w, sym (ap (λ x. x.1.1) (some-inj same))))
  ]

module _ {M S : Type 0} (o : InstrumentedMemory M) (p : ReplacementPolicy S) (addresses : List ℕ)
    (b : Behaves o p addresses) where
  -- The memory is like the policy's set, whose addresses were seen.
  record Follows (st : Measurement M) (s : S × List (Option ℕ)) : Type 0 where
    like : b.Like st.memory s
    marked : Marked st.seen s.1
    bounded : st.hit_counter < word

  Marked-access :
      (addr : ℕ) (s : S) (content : List (Option ℕ)) (h : ℕ) (s' : S × List (Option ℕ))
      (seen : List Bool)
      → reference_access p addr (s, content) ≡ some (h, s')
      → Marked seen content
      → get_elem? seen addr ≡ some true
      → Marked seen s'.1
  Marked-access addr s content h s' seen e marked at w i held =
      elim (reference_cases p addr s content h s' e) [
        | inl (_, same, _) ↦ marked w i (ap (λ c. get_elem? c w) (sym same) ∙ held)
        | inr (_, (v, new)) ↦
            elim (get_elem?-set_cases content v w (some addr) (some i)
              (ap (λ c. get_elem? c w) (sym new) ∙ held)) [
                | inl (_, same) ↦ subst (λ k. get_elem? seen k ≡ some true) (sym (some-inj same)) at
                | inr (_, old) ↦ marked w i old
              ]
      ]

  -- An address that was not seen misses.
  unseen-misses :
      (addr : ℕ) (s : S) (content : List (Option ℕ)) (h : ℕ) (s' : S × List (Option ℕ))
      (seen : List Bool)
      → reference_access p addr (s, content) ≡ some (h, s')
      → Marked seen content
      → get_elem? seen addr ≡ some false
      → h ≡ 0
  unseen-misses addr s content h s' seen e marked at =
      elim (reference_cases p addr s content h s' e) [
        | inl (_, _, (w, held)) ↦
            let clash : some true ≡ some false = sym (marked w addr held) ∙ at in cc
        | inr (zero_hits, _) ↦ zero_hits
      ]

  first_safe :
      (addr actual level : ℕ) (st : Measurement M) (m' : M)
      → addr < length st.seen
      → o.instrumented_access actual st.memory ≡ some (level, m')
      → level ≢ 0
      → measure_access o true false addr actual st
        ≡ some (some (record st { seen = set st.seen addr true; memory = m' }))
  unfolding measure_access
  first_safe addr actual level st m' inside runs further =
      ap
        (λ r. r >>= λ (level, m). elim (level == 0) [
          | true ↦ some none
          | false ↦ write st.seen addr true >>= λ seen.
              some (some (record st { seen = seen; memory = m }))
        ])
        runs
      ∙ ap
          (λ t. elim t [
            | true ↦ some none
            | false ↦ write st.seen addr true >>= λ seen.
                some (some (record st { seen = seen; memory = m' }))
          ])
          (==_of_ne level 0 further)
      ∙ ap (λ r. r >>= λ seen. some (some (record st { seen = seen; memory = m' })))
          (write_lem st.seen addr true inside)

  measure_access_lem :
      (safe was_seen : Bool) (addr actual h : ℕ) (st : Measurement M) (s s' : S × List (Option ℕ))
      → Follows st s
      → addr < length st.seen
      → get_elem? st.seen addr ≡ some was_seen
      → get_elem? addresses addr ≡ some actual
      → reference_access p addr s ≡ some (h, s')
      → (st' : Measurement M) × (measure_access o safe was_seen addr actual st ≡ some (some st'))
        × Follows st' s'
        × (st'.hit_counter ≡ (st.hit_counter + h) % word)
  unfolding measure_access
  measure_access_lem safe true addr actual h st (s, content) s' f inside at place e =
      elim (reference_cases p addr s content h s' e) [
        | inl (one, _, _) ↦
            let (m', runs, like) =
              b.hit st.memory (s, content) s' addr actual f.like place
                (subst (λ k. reference_access p addr (s, content) ≡ some (k, s')) one e) in
            (
              record st { hit_counter = (st.hit_counter + 1) % word; memory = m' },
              rw runs refl,
              record {
                like = like;
                marked = Marked-access addr s content h s' st.seen e f.marked at;
                bounded = omega arith;
              },
              ap (λ k. (st.hit_counter + k) % word) (sym one),
            )
        | inr (none_hit, _) ↦
            let (level, m', runs, further, like) =
              b.miss st.memory (s, content) s' addr actual f.like place
                (subst (λ k. reference_access p addr (s, content) ≡ some (k, s')) none_hit e) in
            (
              record st { hit_counter = (st.hit_counter + 0) % word; memory = m' },
              rw (runs, ==_of_ne level 0 further) refl,
              record {
                like = like;
                marked = Marked-access addr s content h s' st.seen e f.marked at;
                bounded = omega arith;
              },
              ap (λ k. (st.hit_counter + k) % word) (sym none_hit),
            )
      ]
  measure_access_lem true false addr actual h st (s, content) s' f inside at place e =
      let none_hit = unseen-misses addr s content h s' st.seen e f.marked at in
      let (level, m', runs, further, like) =
        b.miss st.memory (s, content) s' addr actual f.like place
          (subst (λ k. reference_access p addr (s, content) ≡ some (k, s')) none_hit e) in
      (
        record st { seen = set st.seen addr true; memory = m' },
        first_safe addr actual level st m' inside runs further,
        record {
          like = like;
          marked =
              Marked-access addr s content h s' (set st.seen addr true) e
                (λ w i held. marked-set st.seen addr i inside (f.marked w i held))
                (get_elem?-set_self st.seen addr true inside);
          bounded = f.bounded;
        },
        omega (arith, f.bounded, none_hit),
      )
  measure_access_lem false false addr actual h st (s, content) s' f inside at place e =
      let none_hit = unseen-misses addr s content h s' st.seen e f.marked at in
      let (m', runs, like) = b.access st.memory (s, content) s' addr actual h f.like place e in
      (
        record st { seen = set st.seen addr true; memory = m' },
        rw (runs, write_lem st.seen addr true inside) refl,
        record {
          like = like;
          marked =
              Marked-access addr s content h s' (set st.seen addr true) e
                (λ w i held. marked-set st.seen addr i inside (f.marked w i held))
                (get_elem?-set_self st.seen addr true inside);
          bounded = f.bounded;
        },
        omega (arith, f.bounded, none_hit),
      )

  measure_lem :
      (safe : Bool) (addr h : ℕ) (st : Measurement M) (s s' : S × List (Option ℕ))
      → Follows st s
      → addr < dirty
      → addr < length addresses
      → reference_access p addr s ≡ some (h, s')
      → (st' : Measurement M) × (measure o safe addresses addr st ≡ some (some st'))
        × Follows st' s'
        × (st'.hit_counter ≡ (st.hit_counter + h) % word)
  unfolding measure
  measure_lem safe addr h st s s' f small known e =
      let (inside, kept) = grow_seen_lem addr st.seen small in
      let (actual, place) = get_elem?-lt addresses addr known in
      let (was_seen, at) = get_elem?-lt (grow_seen addr st.seen) addr inside in
      let (st', runs, f', counter) =
        measure_access_lem safe was_seen addr actual h (record st { seen = grow_seen addr st.seen })
          s s'
          (record {
            like = f.like;
            marked = λ w i held. kept i (f.marked w i held);
            bounded = f.bounded;
          })
          inside at place e in
      (st', rw (place, at) runs, f', counter)

  measure_all_lem :
      (safe : Bool) (sequence : List ℕ) (st : Measurement M) (s : S × List (Option ℕ)) (hits : ℕ)
      → Follows st s
      → All (λ addr. addr < dirty) sequence
      → All (λ addr. addr < length addresses) sequence
      → reference_hits p sequence s ≡ some hits
      → (st' : Measurement M) × (measure_all o safe addresses sequence st ≡ some (some st'))
        × (st'.hit_counter ≡ (st.hit_counter + hits) % word)
  unfolding measure_all reference_hits
  measure_all_lem safe [] st s hits f small known e =
      (st, refl, omega (arith, f.bounded, some-inj e))
  measure_all_lem safe (addr ∷ sequence) st s hits f small known e =
      let ((h, s'), step, e1) =
        >>=-eq-some (reference_access p addr s)
          (λ (h, st'). reference_hits p sequence st' >>= λ hits. some (h + hits)) e in
      let (rest, e2, e3) =
        >>=-eq-some (reference_hits p sequence s') (λ hits. some (h + hits)) e1 in
      let (st1, runs, f1, counter) = measure_lem safe addr h st s s' f small.0 known.0 step in
      let (st2, runs', counter') =
        measure_all_lem safe sequence st1 s' rest f1 small.1 known.1 e2 in
      (st2, rw runs runs', omega (arith, counter, counter', some-inj e3))

  -- For a memory that behaves as one empty set of a policy with a contract and at least one way,
  -- and a sequence of addresses that all have a place and are below `dirty`, the measurement, safe
  -- or not, ends without a fault and without giving up, and it counts exactly the hits that
  -- `simulate_sequence` predicts for this policy.
  pub measure_sequence-simulate_sequence :
      (c : Contract p) (safe : Bool) (sequence : List ℕ) (s : S) (m : M)
      → c.IsValid s
      → 0 < p.ways s
      → All (λ addr. addr < dirty) sequence
      → All (λ addr. addr < length addresses) sequence
      → b.Like m (s, replicate (p.ways s) none)
      → (hits : ℕ) × (m' : M) × (simulate_sequence p sequence s ≡ some hits)
        × (measure_sequence o safe sequence addresses m ≡ some (some (hits, m')))
  unfolding measure_sequence
  measure_sequence-simulate_sequence c safe sequence s m valid some_way small known like =
      let (hits, ref, predicted) =
        simulate_sequence-reference p c sequence s valid some_way small in
      let f : Follows (record { seen = []; hit_counter = 0; memory = m })
          (s, replicate (p.ways s) none) =
        record {
          like = like;
          marked = λ w i held. cc (value_of_replicate (p.ways s) w none (some i) held);
          bounded = omega arith;
        } in
      let (st, runs, counter) = measure_all_lem safe sequence _ _ hits f small known ref in
      let total : st.hit_counter ≡ hits % word = omega (arith, counter) in
      (hits % word, st.memory, predicted, rw runs (ap (λ k. some (some (k, st.memory))) total))
