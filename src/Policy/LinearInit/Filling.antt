-- ===== src/Policy/LinearInit/Filling.antt =====
-- The ways are handed out from 0 on until all are in use.
use cache_hound.Common.{
  ℕ, zero, suc, ◌+◌, ◌<◌, ◌≤◌, ◌≡◌, refl, subst, some, true, arith, ltb, lt→ltb, le→ltb, Bool-cases,
  inl, inr, ltb→lt,
}
use cache_hound.Policy.{ReplacementPolicy, Contract}
use cache_hound.Policy.Order.{iota, length-iota, iota-Nodup}
use cache_hound.Policy.Cyclic.{misses, check_cyclic_eviction, check_cyclic_eviction_lem}
use cache_hound.Policy.LinearInit.{
  LinearInit, init, ways, hit, miss, miss_clean, miss_full, linear_init,
}

module _ {S : Type 0} (p : ReplacementPolicy S) (c : Contract p) where
  -- The nested policy accepts hits on all its ways.
  pub record IsValid (s : LinearInit S) : Type 0 where
    pub nested : c.IsValid s.nested
    pub usable : (w : ℕ) → w < p.ways s.nested → c.Used s.nested w
    pub dirty : s.dirty_idx ≤ p.ways s.nested

  pub miss_clean_lem :
      (s : LinearInit S)
      → IsValid s
      → s.dirty_idx < p.ways s.nested
      → (s' : LinearInit S) × (miss p s ≡ some (s.dirty_idx, s'))
        × IsValid s'
        × (p.ways s'.nested ≡ p.ways s.nested)
        × (s'.dirty_idx ≡ s.dirty_idx + 1)
  unfolding miss ways miss_clean
  miss_clean_lem s v h =
      let (t, run, v', same, keep) =
        c.hit_lem s.nested s.dirty_idx v.nested (v.usable s.dirty_idx h) in
      (
        record { nested = t; dirty_idx = s.dirty_idx + 1 },
        rw (lt→ltb s.dirty_idx (p.ways s.nested) h, run) refl,
        record {
          nested = v';
          usable = λ w k. keep w (v.usable w (subst (λ n. w < n) same k));
          dirty = omega (arith, same, h);
        },
        same,
        refl,
      )

  pub miss_full_lem :
      (s : LinearInit S)
      → IsValid s
      → p.ways s.nested ≤ s.dirty_idx
      → (w : ℕ) × (s' : LinearInit S) × (miss p s ≡ some (w, s'))
        × IsValid s'
        × (p.ways s'.nested ≡ p.ways s.nested)
        × (s'.dirty_idx ≡ s.dirty_idx)
        × (w < s.dirty_idx)
  unfolding miss ways miss_full
  miss_full_lem s v h =
      let (w, t, run, v', same, used, keep) = c.miss_lem s.nested v.nested in
      (
        w,
        record s { nested = t },
        rw (le→ltb s.dirty_idx (p.ways s.nested) h, run) refl,
        record {
          nested = v';
          usable = λ x k. keep x (v.usable x (subst (λ n. x < n) same k));
          dirty = omega (arith, same, v.dirty);
        },
        same,
        refl,
        omega (arith, c.used_lt t w v' used, same, h),
      )

  -- Only ways that a miss has handed out may be hit.
  unfoldable pub linear_init-Contract : Contract (linear_init p)
  unfolding ways hit
  linear_init-Contract = record {
    IsValid = IsValid;
    Used = λ s w. w < s.dirty_idx;
    used_lt = λ s w v u. omega (arith, u, v.dirty);
    hit_lem = λ s w v u.
        let (t, run, v', same, keep) =
          c.hit_lem s.nested w v.nested (v.usable w (omega (arith, u, v.dirty))) in
        (
          record s { nested = t },
          rw (lt→ltb w s.dirty_idx u, run) refl,
          record {
            nested = v';
            usable = λ x k. keep x (v.usable x (subst (λ n. x < n) same k));
            dirty = omega (arith, same, v.dirty);
          },
          same,
          λ x k. k,
        );
    miss_lem = λ s v. elim (Bool-cases (ltb s.dirty_idx (p.ways s.nested))) [
      | inl e ↦
          let (s', run, v', same, next) = miss_clean_lem s v (ltb→lt _ _ e) in
          (s.dirty_idx, s', run, v', same, omega (arith, next), λ x k. omega (arith, next, k))
      | inr e ↦
          let (w, s', run, v', same, next, lt) = miss_full_lem s v (ground arith) in
          (w, s', run, v', same, omega (arith, next, lt), λ x k. omega (arith, next, k))
    ];
  }

  -- Until all ways are in use, the misses return them in order.
  misses-clean :
      (m : ℕ) (s : LinearInit S)
      → IsValid s
      → s.dirty_idx + m ≤ p.ways s.nested
      → (s' : LinearInit S) × (misses (linear_init p) m s ≡ some (iota m s.dirty_idx, s'))
        × IsValid s'
  unfolding misses iota
  misses-clean zero s v h = (s, refl, v)
  misses-clean (suc m) s v h =
      let (s1, run, v1, same, next) = miss_clean_lem s v (omega arith) in
      let (s2, run2, v2) = misses-clean m s1 v1 (omega (arith, next, same, h)) in
      (s2, rw (run, run2, next) refl, v2)

  -- For a nested policy with a contract, in a valid state all of whose ways may be hit, the misses
  -- of the first round after construction return the ways 0, 1, 2, … in order, and the cyclic
  -- eviction check succeeds.
  pub check_cyclic_eviction-linear_init :
      (nested : S)
      → c.IsValid nested
      → ((w : ℕ) → w < p.ways nested → c.Used nested w)
      → (s' : LinearInit S) × (misses (linear_init p) (p.ways nested) (init p nested)
          ≡ some (iota (p.ways nested) 0, s'))
        × (check_cyclic_eviction (linear_init p) (init p nested) ≡ some (true, s'))
  unfolding init ways
  check_cyclic_eviction-linear_init nested v u =
      let n : ℕ = p.ways nested in
      let fresh : LinearInit S = record { nested = nested; dirty_idx = 0 } in
      let valid : IsValid fresh = record { nested = v; usable = u; dirty = omega arith } in
      let (s', run, v') = misses-clean n fresh valid (omega arith) in
      (
        s',
        run,
        check_cyclic_eviction_lem (linear_init p) fresh (iota n 0) s' run (length-iota n 0)
            (iota-Nodup n 0),
      )
