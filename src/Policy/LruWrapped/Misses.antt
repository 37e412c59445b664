-- ===== src/Policy/LruWrapped/Misses.antt =====
-- Misses, and the state that the constructor makes.
use native.Mathlib.Nat.{mod-eq_of_lt}
use mathlib.Core.List.{mem-cons}
use mathlib.Core.Logic.Or
use cache_hound.Common.{
  ℕ, zero, suc, ◌+◌, ◌*◌, ◌%◌, ◌<◌, ◌≤◌, ◌≡◌, refl, ap, sym, ◌∙◌, subst, some, arith, ltb, lt→ltb,
  le→ltb, Bool-cases, inl, inr, ltb→lt, [], ◌∷◌, length, All, get_elem?-lt, set, All-get_elem?,
  word, mul-le, replicate, length-replicate, ==_refl, length-append, ap₂,
}
use cache_hound.Policy.{ReplacementPolicy, Contract}
use cache_hound.Policy.Order.{lt_of_IsOrder-mem}
use cache_hound.Policy.Lru
use cache_hound.Policy.Lru.{Lru}
use cache_hound.Policy.Lru.Recency
use cache_hound.Policy.LruWrapped.{
  LruWrapped, init, front_ways, nested_ways, ways, miss, miss_full, lru_wrapped,
}
use cache_hound.Policy.LruWrapped.Groups.{
  IsGroup, IsValid, front-set, IsGroup-miss, ways_lem, IsValid-update, hit_lem,
}

module _ {S : Type 0} (p : ReplacementPolicy S) (c : Contract p) where
  miss_clean_lem :
      (s : LruWrapped S)
      → IsValid p c s
      → s.dirty_idx < ways p s
      → (s' : LruWrapped S) × (miss p s ≡ some (s.dirty_idx, s'))
        × IsValid p c s'
        × (ways p s' ≡ ways p s)
        × (s'.dirty_idx ≡ s.dirty_idx + 1)
  unfolding miss ways
  miss_clean_lem s v h =
      let marked : LruWrapped S = record s { dirty_idx = s.dirty_idx + 1 } in
      let total : s.dirty_idx < length s.base.order * nested_ways p s = rw (← ways_lem p c s v) h in
      let v' : IsValid p c marked = record {
        base = v.base;
        groups = v.groups;
        nested = v.nested;
        some_way = v.some_way;
        no_wrap = v.no_wrap;
        dirty = omega (arith, total);
      } in
      let (s', run, valid, same, next) = hit_lem p c marked s.dirty_idx v' h in
      (s', rw (lt→ltb _ _ h, run) refl, valid, same, next)

  -- When all ways are in use, the victim is the victim of the group that the base evicts.
  pub miss_full_lem :
      (s : LruWrapped S)
      → IsValid p c s
      → ways p s ≤ s.dirty_idx
      → (w : ℕ) × (s' : LruWrapped S) × (miss p s ≡ some (w, s'))
        × IsValid p c s'
        × (ways p s' ≡ ways p s)
        × (w < ways p s)
  unfolding miss miss_full
  miss_full_lem s v h =
      let k : ℕ = nested_ways p s in
      let m : ℕ = length s.base.order in
      let (pre, g, e, run, b) = Recency.miss_lem s.base v.base in
      let base : Lru = record { order = g ∷ pre } in
      let len : length base.order ≡ m = omega (arith, ap length e, length-append pre (g ∷ [])) in
      let low : g < m =
        omega (arith, len, lt_of_IsOrder-mem (g ∷ pre) g b.order (mem-cons.1 (Or.inl refl))) in
      let (t, found) = get_elem?-lt s.nested g (rw v.groups low) in
      let group : IsGroup p c k t = All-get_elem? (IsGroup p c k) s.nested g t v.nested found in
      let (x, t', run', group', high) = IsGroup-miss p c k t group in
      let inside : g * k + x < m * k =
        omega (arith, high, mul-le (g + 1) m k (omega (arith, low))) in
      let plain : (g * k + x) % word ≡ g * k + x =
        mod-eq_of_lt (omega (arith, inside, v.no_wrap)) in
      let s' : LruWrapped S = record {
        base = base;
        nested = set s.nested g t';
        dirty_idx = s.dirty_idx;
      } in
      let v' : IsValid p c s' = IsValid-update p c s base g t' s.dirty_idx v b len group' v.dirty in
      let same : front_ways p (set s.nested g t') ≡ k =
        front-set p c k s.nested g t' v.nested group' in
      (
        g * k + x,
        s',
        rw (le→ltb _ _ h, run, found, run', plain) refl,
        v',
        ways_lem p c s' v' ∙ ap₂ ◌*◌ len same ∙ sym (ways_lem p c s v),
        rw (ways_lem p c s v) inside,
      )

  -- For a nested policy with a contract, a miss on a valid state succeeds; its victim is a way of
  -- the set, and the new state is valid and has as many ways.
  pub miss_lem :
      (s : LruWrapped S)
      → IsValid p c s
      → (w : ℕ) × (s' : LruWrapped S) × (miss p s ≡ some (w, s'))
        × IsValid p c s'
        × (ways p s' ≡ ways p s)
        × (w < ways p s)
  miss_lem s v = elim (Bool-cases (ltb s.dirty_idx (ways p s))) [
    | inl e ↦
        let (s', run, v', same, next) = miss_clean_lem s v (ltb→lt _ _ e) in
        (s.dirty_idx, s', run, v', same, ltb→lt _ _ e)
    | inr e ↦ miss_full_lem s v (ground arith)
  ]

  unfoldable pub lru_wrapped-Contract : Contract (lru_wrapped p)
  lru_wrapped-Contract = record {
    IsValid = IsValid p c;
    Used = λ s w. w < ways p s;
    used_lt = λ s w v u. u;
    hit_lem = λ s w v u.
        let (s', run, v', same, next) = hit_lem p c s w v u in
        (s', run, v', same, λ x l. subst (λ n. x < n) (sym same) l);
    miss_lem = λ s v.
        let (w, s', run, v', same, lt) = miss_lem s v in
        (
          w,
          s',
          run,
          v',
          same,
          subst (λ n. w < n) (sym same) lt,
          λ x l. subst (λ n. x < n) (sym same) l,
        );
  }

  front-replicate : (m : ℕ) (t : S) → 0 < m → front_ways p (replicate m t) ≡ p.ways t
  front-replicate zero t h = absurd (omega arith)
  front-replicate (suc m) t h = refl

  All-replicate : (k m : ℕ) (t : S) → IsGroup p c k t → All (IsGroup p c k) (replicate m t)
  All-replicate k zero t g = tt
  All-replicate k (suc m) t g = (g, All-replicate k m t g)

  -- The constructor's state is valid if the ways of all groups fit a machine word.
  pub init-IsValid :
      (m : ℕ) (t : S)
      → 0 < m
      → c.IsValid t
      → 0 < p.ways t
      → ((w : ℕ) → w < p.ways t → c.Used t w)
      → m * p.ways t < word
      → (s : LruWrapped S) × (init p m t ≡ some s)
        × IsValid p c s
        × (ways p s ≡ m * p.ways t)
        × (s.dirty_idx ≡ 0)
  unfolding init Lru.ways
  init-IsValid m t pos v some_way usable fits =
      let (base, run, valid, len) = Recency.init-IsValid m pos in
      let k : front_ways p (replicate m t) ≡ p.ways t = front-replicate m t pos in
      let s : LruWrapped S = record { base = base; nested = replicate m t; dirty_idx = 0 } in
      let v' : IsValid p c s = record {
        base = valid;
        groups = length-replicate m t ∙ sym len;
        nested = All-replicate (front_ways p (replicate m t)) m t (record {
          valid = v;
          group_ways = sym k;
          usable = λ w h. usable w (subst (λ n. w < n) k h);
        });
        some_way = rw k some_way;
        no_wrap = rw (k, len) fits;
        dirty = omega arith;
      } in
      (s, rw (run, ==_refl (p.ways t)) refl, v', ways_lem p c s v' ∙ ap₂ ◌*◌ len k, refl)
