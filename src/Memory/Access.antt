-- ===== src/Memory/Access.antt =====
-- What an access returns, and where the address stands after it.
use cache_hound.Common.{
  ℕ, zero, suc, ◌+◌, ◌<◌, ◌≤◌, ◌≡◌, refl, ap, sym, ◌∙◌, subst, ltb, Bool, true, false, ◌&&◌, List,
  some, length, get_elem?, get_elem?-lt, set, length-set, get_elem?-set_self, All, All-set,
  All-get_elem?, inl, inr, ◌⊎◌, arith, some-inj, ℕ_discrete, dec_lt,
}
use cache_hound.Memory.{
  CacheOperations, SimulatedMemory, propagate, access_hit, do_access, instrumented_access, access,
}
use cache_hound.Memory.Contract.{CacheContract}
use cache_hound.Memory.Filling.{HeldAt, Kept, back_fill_lem}

and_false : (b : Bool) → (b && false) ≡ false
and_false true = refl
and_false false = refl

module _ {C : Type 0} (o : CacheOperations C) (c : CacheContract o) where
  propagate_lem :
      (address level : ℕ) (caches : List C)
      → All c.IsValid caches
      → level ≤ length caches
      → (level ≡ 0 → HeldAt o c caches 0 address)
      → (caches' : List C) × (propagate o address level caches ≡ some (level, caches'))
        × Kept o c caches caches'
        × HeldAt o c caches' 0 address
  unfolding propagate
  propagate_lem address zero caches v bound first =
      (caches, refl, record { valid = v; levels = refl }, first refl)
  propagate_lem address (suc level) caches v bound first =
      let (caches', run, kept, held) =
        back_fill_lem o c address level caches v (omega (arith, bound)) in
      (caches', rw run refl, kept, held)

  -- The access looks for the address from `level` on, and finds it at `found`, or not at all.
  pub record Result (caches : List C) (address level found : ℕ) (caches' : List C) : Type 0 where
    pub from : level ≤ found
    pub at : (found ≡ length caches) ⊎ HeldAt o c caches found address
    pub missed : (j : ℕ) → level ≤ j → j < found → ¬ HeldAt o c caches j address
    pub kept : Kept o c caches caches'
    pub now : HeldAt o c caches' 0 address

  do_access_lem :
      (n address level : ℕ) (caches : List C)
      → All c.IsValid caches
      → length caches ≡ level + n
      → 0 < length caches
      → (found : ℕ) × (caches' : List C) × (do_access o n address level caches
          ≡ some (found, caches'))
        × Result caches address level found caches'
  unfolding do_access access_hit
  do_access_lem zero address level caches v size some_level =
      let (caches', run, kept, now) =
        propagate_lem address level caches v (omega (arith, size))
          (λ e. absurd (omega (arith, e, size, some_level))) in
      (
        level,
        caches',
        run,
        record {
          from = omega arith;
          at = inl (omega (arith, size));
          missed = λ j low high h. absurd (omega (arith, low, high));
          kept = kept;
          now = now;
        },
      )
  do_access_lem (suc n) address level caches v size some_level =
      let inside : level < length caches = omega (arith, size) in
      let (cache, found) = get_elem?-lt caches level inside in
      elim (c.lookup_lem cache address (All-get_elem? c.IsValid caches level cache v found)) [
        | inl (missing, absent) ↦
            let (r, caches', run, result) =
              do_access_lem n address (level + 1) caches v (omega (arith, size)) some_level in
            (
              r,
              caches',
              rw (found, missing, run) refl,
              record {
                from = omega (arith, result.from);
                at = result.at;
                missed = λ j low high (other, other_found, held). elim (ℕ_discrete level j) [
                  | yes e ↦ absent (
                      subst (λ x. c.Cached x address)
                        (some-inj (sym other_found ∙ ap (get_elem? caches) (sym e) ∙ found)) held)
                  | no ne ↦ result.missed j (omega (arith, low, ne)) high (other, other_found, held)
                ];
                kept = result.kept;
                now = result.now;
              },
            )
        | inr (handle, cache', seen, cached, run, v', same) ↦
            let hit_caches : List C = set caches level cache' in
            let len : length hit_caches ≡ length caches = length-set caches level cache' in
            let (caches', run', kept, now) =
              propagate_lem address level hit_caches (All-set c.IsValid caches level cache' v v')
                (omega (arith, len, inside))
                (λ e. (
                  cache',
                  ap (get_elem? hit_caches) (sym e) ∙ get_elem?-set_self caches level cache' inside,
                  (same address).1 cached,
                )) in
            (
              level,
              caches',
              ground (arith, found, seen, run, and_false (ltb 0 level), run'),
              record {
                from = omega arith;
                at = inr (cache, found, cached);
                missed = λ j low high h. absurd (omega (arith, low, high));
                kept = record { valid = kept.valid; levels = kept.levels ∙ len };
                now = now;
              },
            )
      ]

  module _ (m : SimulatedMemory C) (v : All c.IsValid m.caches) (some_level : 0 < length m.caches)
      (address : ℕ) where
    -- For caches with a contract, valid caches and at least one level, an access never faults: it
    -- returns the first level whose cache holds the address, or the number of levels if none does;
    -- afterwards the caches are valid, there are as many, and the cache of the first level holds
    -- the address.
    pub instrumented_access_lem :
        (found : ℕ) × (m' : SimulatedMemory C) × (instrumented_access o m address
          ≡ some (found, m'))
        × ((found ≡ length m.caches) ⊎ HeldAt o c m.caches found address)
        × ((j : ℕ) → j < found → ¬ HeldAt o c m.caches j address)
        × All c.IsValid m'.caches
        × (length m'.caches ≡ length m.caches)
        × HeldAt o c m'.caches 0 address
    unfolding instrumented_access
    instrumented_access_lem =
        let (found, caches', run, result) =
          do_access_lem (length m.caches) address 0 m.caches v (omega arith) some_level in
        (
          found,
          record m { caches = caches' },
          rw run refl,
          result.at,
          λ j lt. result.missed j (omega arith) lt,
          result.kept.valid,
          result.kept.levels,
          result.now,
        )

  -- For caches with a contract, valid caches and at least one level, an access and then an
  -- instrumented access of the same address succeed, and the second returns the first level, 0.
  pub instrumented_access-access :
      (m : SimulatedMemory C) (address : ℕ)
      → All c.IsValid m.caches
      → 0 < length m.caches
      → (m' : SimulatedMemory C) × (m'' : SimulatedMemory C) × (access o m address ≡ some m')
        × (instrumented_access o m' address ≡ some (0, m''))
  unfolding access
  instrumented_access-access m address v some_level =
      let (found, m1, run, at, missed, v1, len1, now) =
        instrumented_access_lem m v some_level address in
      let (found2, m2, run2, at2, missed2, v2, len2, now2) =
        instrumented_access_lem m1 v1 (omega (arith, len1, some_level)) address in
      (
        m1,
        m2,
        rw run refl,
        elim (dec_lt 0 found2) [
          | yes lt ↦ absurd (missed2 0 lt now)
          | no none_missed ↦
              let first : found2 ≡ 0 = omega (arith, none_missed) in
              run2 ∙ ap (λ n. some (n, m2)) first
        ],
      )
