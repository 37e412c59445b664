-- ===== src/Memory/Filling.antt =====
-- Filling the levels: what a level is filled with stays there, whatever its victims do above it.
use cache_hound.Common.{
  ℕ, zero, suc, ◌+◌, ◌-◌, ◌<◌, ◌≡◌, refl, ap, ◌∙◌, ltb, Bool, true, false, ◌&&◌, List, Option, some,
  length, get_elem?, get_elem?-lt, set, length-set, get_elem?-set_self, get_elem?-set_ne, All,
  All-set, All-get_elem?, Option-cases, inl, inr, lt→ltb, le→ltb, arith,
}
use cache_hound.Memory.{CacheOperations, fill_level, back_fill_level, back_fill}
use cache_hound.Memory.Contract.{CacheContract}

no_back : (a b : Bool) → (a && (b && false)) ≡ false
no_back true true = refl
no_back true false = refl
no_back false b = refl

module _ {C : Type 0} (o : CacheOperations C) (c : CacheContract o) where
  -- The cache of the level holds the address.
  abbrev pub HeldAt : List C → ℕ → ℕ → Type 0
  HeldAt caches level address =
      (cache : C) × (get_elem? caches level ≡ some cache) × c.Cached cache address

  -- Valid caches, as many as there were.
  pub record Kept (caches caches' : List C) : Type 0 where
    pub valid : All c.IsValid caches'
    pub levels : length caches' ≡ length caches

  -- What the fill of one cache does, before its victim goes anywhere.
  filled_lem :
      (address level : ℕ) (caches : List C)
      → All c.IsValid caches
      → level < length caches
      → (cache : C) × (victim : Option ℕ) × (cache' : C) × (get_elem? caches level ≡ some cache)
        × (o.fill cache address ≡ some (victim, cache'))
        × Kept caches (set caches level cache')
        × ((j : ℕ) → j < level → get_elem? (set caches level cache') j ≡ get_elem? caches j)
        × HeldAt (set caches level cache') level address
  filled_lem address level caches v inside =
      let (cache, found) = get_elem?-lt caches level inside in
      let (victim, cache', run, valid, held) =
        c.fill_lem cache address (All-get_elem? c.IsValid caches level cache v found) in
      (
        cache,
        victim,
        cache',
        found,
        run,
        record {
          valid = All-set c.IsValid caches level cache' v valid;
          levels = length-set caches level cache';
        },
        λ j lt. get_elem?-set_ne caches level j cache' (λ e. omega (arith, e, lt)),
        (cache', get_elem?-set_self caches level cache' inside, (held address).1 (inl refl)),
      )

  pub fill_level_lem :
      (n address level : ℕ) (should_back_invalidate : Bool) (caches : List C)
      → All c.IsValid caches
      → length caches ≡ level + suc n
      → (caches' : List C) × (fill_level o (suc n) address level should_back_invalidate caches
          ≡ some caches')
        × Kept caches caches'
        × ((j : ℕ) → j < level → get_elem? caches' j ≡ get_elem? caches j)
        × HeldAt caches' level address
  unfolding fill_level
  fill_level_lem zero address level sbi caches v size =
      let (cache, victim, cache', found, run, kept, below, here) =
        filled_lem address level caches v (omega (arith, size)) in
      let last : ltb (level + 1) (length (set caches level cache')) ≡ false =
        le→ltb _ _ (omega (arith, size, kept.levels)) in
      elim (Option-cases victim) [
        | inl e ↦ (set caches level cache', rw (found, run, e) refl, kept, below, here)
        | inr (gone, e) ↦ (
          set caches level cache',
          ground (arith, found, run, e, no_back sbi (ltb 0 level), last),
          kept,
          below,
          here,
        )
      ]
  fill_level_lem (suc n) address level sbi caches v size =
      let (cache, victim, cache', found, run, kept, below, (own, own_found, own_held)) =
        filled_lem address level caches v (omega (arith, size)) in
      let filled : List C = set caches level cache' in
      let more : ltb (level + 1) (length filled) ≡ true =
        lt→ltb _ _ (omega (arith, size, kept.levels)) in
      elim (Option-cases victim) [
        | inl e ↦ (filled, rw (found, run, e) refl, kept, below, (own, own_found, own_held))
        | inr (gone, e) ↦
            let (caches', run', kept', below', here') =
              fill_level_lem n gone (level + 1) false filled kept.valid
                (omega (arith, size, kept.levels)) in
            (
              caches',
              ground (arith, found, run, e, no_back sbi (ltb 0 level), more, run'),
              record { valid = kept'.valid; levels = kept'.levels ∙ kept.levels },
              λ j lt. below' j (omega (arith, lt)) ∙ below j lt,
              (own, below' level (omega arith) ∙ own_found, own_held),
            )
      ]

  back_fill_level_lem :
      (address level : ℕ) (caches : List C)
      → All c.IsValid caches
      → level < length caches
      → (caches' : List C) × (back_fill_level o address level caches ≡ some caches')
        × Kept caches caches'
        × HeldAt caches' level address
  unfolding back_fill_level
  back_fill_level_lem address level caches v inside =
      let rest : length caches - level ≡ suc (length caches - level - 1) = omega (arith, inside) in
      let (caches', run, kept, below, here) =
        fill_level_lem (length caches - level - 1) address level true caches v
          (omega (arith, inside)) in
      (
        caches',
        rw (lt→ltb level (length caches) inside)
            (ap (λ n. fill_level o n address level true caches) rest ∙ run),
        kept,
        here,
      )

  -- After a back fill all its levels were filled, the first one last.
  pub back_fill_lem :
      (address level : ℕ) (caches : List C)
      → All c.IsValid caches
      → level < length caches
      → (caches' : List C) × (back_fill o address level caches ≡ some caches')
        × Kept caches caches'
        × HeldAt caches' 0 address
  unfolding back_fill
  back_fill_lem address zero caches v inside = back_fill_level_lem address zero caches v inside
  back_fill_lem address (suc level) caches v inside =
      let (caches1, run, kept, here) = back_fill_level_lem address (suc level) caches v inside in
      let (caches2, run2, kept2, held) =
        back_fill_lem address level caches1 kept.valid (omega (arith, inside, kept.levels)) in
      (
        caches2,
        rw (run, run2) refl,
        record { valid = kept2.valid; levels = kept2.levels ∙ kept.levels },
        held,
      )
