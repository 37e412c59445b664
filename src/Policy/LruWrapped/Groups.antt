-- ===== src/Policy/LruWrapped/Groups.antt =====
-- A way is a group of the base's order and a way of the group's nested policy.
use native.Mathlib.Nat.{mod-eq_of_lt, mod-lt, div-lt_iff_lt-mul}
use cache_hound.Common.{
  ℕ, zero, suc, ◌*◌, ◌/◌, ◌%◌, ◌<◌, ◌≤◌, ◌≡◌, refl, ap, sym, ◌∙◌, subst, some, arith, List, [], ◌∷◌,
  length, All, get_elem?-lt, set, length-set, All-set, All-get_elem?, word, ◌++◌, ap₂,
}
use cache_hound.Policy.{ReplacementPolicy, Contract}
use cache_hound.Policy.Order.{length-front}
use cache_hound.Policy.Lru
use cache_hound.Policy.Lru.{Lru}
use cache_hound.Policy.Lru.Recency
use cache_hound.Policy.LruWrapped.{LruWrapped, front_ways, nested_ways, ways, hit}

module _ {S : Type 0} (p : ReplacementPolicy S) (c : Contract p) where
  -- A nested policy with `k` ways, all of which it lets be hit.
  pub record IsGroup (k : ℕ) (t : S) : Type 0 where
    pub valid : c.IsValid t
    pub group_ways : p.ways t ≡ k
    pub usable : (w : ℕ) → w < k → c.Used t w

  pub record IsValid (s : LruWrapped S) : Type 0 where
    pub base : Recency.IsValid s.base
    pub groups : length s.nested ≡ length s.base.order
    pub nested : All (IsGroup (nested_ways p s)) s.nested
    pub some_way : 0 < nested_ways p s
    pub no_wrap : length s.base.order * nested_ways p s < word
    pub dirty : s.dirty_idx ≤ length s.base.order * nested_ways p s

  pub front-set :
      (k : ℕ) (ts : List S) (i : ℕ) (t : S)
      → All (IsGroup k) ts
      → IsGroup k t
      → front_ways p (set ts i t) ≡ front_ways p ts
  front-set k [] i t a g = refl
  front-set k (u ∷ ts) zero t a g = g.group_ways ∙ sym (a.0.group_ways)
  front-set k (u ∷ ts) (suc i) t a g = refl

  IsGroup-hit :
      (k w : ℕ) (t : S) → IsGroup k t → w < k → (t' : S) × (p.hit t w ≡ some t') × IsGroup k t'
  IsGroup-hit k w t g h =
      let (t', run, v', same, keep) = c.hit_lem t w g.valid (g.usable w h) in
      (
        t',
        run,
        record {
          valid = v';
          group_ways = same ∙ g.group_ways;
          usable = λ x l. keep x (g.usable x l);
        },
      )

  pub IsGroup-miss :
      (k : ℕ) (t : S)
      → IsGroup k t
      → (w : ℕ) × (t' : S) × (p.miss t ≡ some (w, t')) × IsGroup k t' × (w < k)
  IsGroup-miss k t g =
      let (w, t', run, v', same, used, keep) = c.miss_lem t g.valid in
      (
        w,
        t',
        run,
        record {
          valid = v';
          group_ways = same ∙ g.group_ways;
          usable = λ x l. keep x (g.usable x l);
        },
        omega (arith, c.used_lt t' w v' used, same, g.group_ways),
      )

  pub ways_lem : (s : LruWrapped S) → IsValid s → ways p s ≡ length s.base.order * nested_ways p s
  unfolding ways Lru.ways
  ways_lem s v = mod-eq_of_lt v.no_wrap

  -- The parts of a way are in range.
  group_lt : (w m k : ℕ) → w < m * k → 0 < k → (w / k < m) × (w % k < k)
  group_lt w m k h pos = ((div-lt_iff_lt-mul pos).1 h, mod-lt w pos)

  pub IsValid-update :
      (s : LruWrapped S) (base : Lru) (i : ℕ) (t : S) (dirty : ℕ)
      → IsValid s
      → Recency.IsValid base
      → length base.order ≡ length s.base.order
      → IsGroup (nested_ways p s) t
      → dirty ≤ length s.base.order * nested_ways p s
      → IsValid (record { base = base; nested = set s.nested i t; dirty_idx = dirty })
  IsValid-update s base i t dirty v b len g d =
      let same : front_ways p (set s.nested i t) ≡ front_ways p s.nested =
        front-set (nested_ways p s) s.nested i t v.nested g in
      record {
        base = b;
        groups = length-set s.nested i t ∙ v.groups ∙ sym len;
        nested =
            subst (λ k. All (IsGroup k) (set s.nested i t)) (sym same)
              (All-set (IsGroup (nested_ways p s)) s.nested i t v.nested g);
        some_way = subst (λ k. 0 < k) (sym same) v.some_way;
        no_wrap = rw (same, len) v.no_wrap;
        dirty = rw (same, len) d;
      }

  -- A hit is a hit on the group and on the way inside the group.
  pub hit_lem :
      (s : LruWrapped S) (w : ℕ)
      → IsValid s
      → w < ways p s
      → (s' : LruWrapped S) × (hit p s w ≡ some s')
        × IsValid s'
        × (ways p s' ≡ ways p s)
        × (s'.dirty_idx ≡ s.dirty_idx)
  unfolding hit
  hit_lem s w v h =
      let k : ℕ = nested_ways p s in
      let inside : w < length s.base.order * k = rw (← ways_lem s v) h in
      let (low, high) = group_lt w (length s.base.order) k inside v.some_way in
      let (pre, post, e, run, b) = Recency.hit_lem s.base (w / k) v.base (unfold Lru.ways in low) in
      let (t, found) = get_elem?-lt s.nested (w / k) (rw v.groups low) in
      let g : IsGroup k t = All-get_elem? (IsGroup k) s.nested (w / k) t v.nested found in
      let (t', run', g') = IsGroup-hit k (w % k) t g high in
      let base : Lru = record { order = (w / k) ∷ (pre ++ post) } in
      let len : length base.order ≡ length s.base.order =
        length-front pre (w / k) post ∙ sym (ap length e) in
      let s' : LruWrapped S = record {
        base = base;
        nested = set s.nested (w / k) t';
        dirty_idx = s.dirty_idx;
      } in
      let v' : IsValid s' = IsValid-update s base (w / k) t' s.dirty_idx v b len g' v.dirty in
      let same : front_ways p (set s.nested (w / k) t') ≡ k =
        front-set k s.nested (w / k) t' v.nested g' in
      (
        s',
        rw (run, found, run') refl,
        v',
        ways_lem s' v' ∙ ap₂ ◌*◌ len same ∙ sym (ways_lem s v),
        refl,
      )
