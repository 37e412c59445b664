-- ===== src/Cache/Basic/Sets.antt =====
-- The policy of the sets keeps its contract if the replacement policy keeps its own.
use cache_hound.Common.{
  ℕ, ◌<◌, ◌^◌, ◌≡◌, refl, ap, sym, ◌∙◌, subst, some, length, get_elem?, get_elem?-lt, set,
  length-set, All, All-set, All-get_elem?, get_elem?-set_self, get_elem?-set_ne, length-replicate,
  replicate, int_shift_lem, ℕ_discrete, zero, suc, some-inj,
}
use cache_hound.Policy.{ReplacementPolicy, Contract}
use cache_hound.Cache.Contract.{SetContract}
use cache_hound.Cache.Basic.{
  PlacementPolicy, BasicSetAssociativePolicy, init, index_bits, ways, get_set, register_hit,
  register_miss, basic,
}

module _ {S : Type 0} (p : ReplacementPolicy S) (c : Contract p) where
  -- A policy of `n` ways in a valid state.
  pub record IsWaySet (n : ℕ) (t : S) : Type 0 where
    pub valid : c.IsValid t
    pub set_ways : p.ways t ≡ n

  -- The placement policy stays below the number of sets.
  pub record IsValid (s : BasicSetAssociativePolicy S) : Type 0 where
    pub placed : (address : ℕ) → s.placement.set_index address < 2 ^ s.placement.index_bits
    pub some_way : 0 < p.ways s.replacement_template
    pub size : length s.replacement ≡ 2 ^ s.placement.index_bits
    pub each : All (IsWaySet (p.ways s.replacement_template)) s.replacement

  -- The policy of the set lets the way be hit.
  abbrev pub Used : BasicSetAssociativePolicy S → ℕ → ℕ → Type 0
  Used s index way = (t : S) × (get_elem? s.replacement index ≡ some t) × c.Used t way

  pub Used-set :
      (s : BasicSetAssociativePolicy S) (index : ℕ) (t t' : S)
      → index < length s.replacement
      → get_elem? s.replacement index ≡ some t
      → ((way : ℕ) → c.Used t way → c.Used t' way)
      → (index' way : ℕ) → Used s index' way
      → Used (record s { replacement = set s.replacement index t' }) index' way
  Used-set s index t t' inside found keep index' way (u, e, used) = elim (ℕ_discrete index index') [
    | yes same ↦ (
      t',
      ap (get_elem? (set s.replacement index t')) (sym same)
          ∙ get_elem?-set_self s.replacement index t' inside,
      keep way (
          subst (λ x. c.Used x way)
            (some-inj (sym e ∙ ap (get_elem? s.replacement) (sym same) ∙ found)) used),
    )
    | no other ↦ (u, get_elem?-set_ne s.replacement index index' t' other ∙ e, used)
  ]

  pub IsValid-set :
      (s : BasicSetAssociativePolicy S) (index : ℕ) (t' : S)
      → IsValid s
      → IsWaySet (p.ways s.replacement_template) t'
      → IsValid (record s { replacement = set s.replacement index t' })
  IsValid-set s index t' v is_set = record {
    placed = v.placed;
    some_way = v.some_way;
    size = length-set s.replacement index t' ∙ v.size;
    each = All-set (IsWaySet (p.ways s.replacement_template)) s.replacement index t' v.each is_set;
  }

  unfoldable pub basic-SetContract : SetContract (basic p)
  unfolding index_bits ways get_set register_hit register_miss
  basic-SetContract = record {
    IsValid = IsValid;
    Used = Used;
    some_way = λ s v. v.some_way;
    get_set_lt = λ s address v. v.placed address;
    register_hit_lem = λ s index way v lt (t, found, used).
        let inside : index < length s.replacement = rw v.size lt in
        let is_set =
          All-get_elem? (IsWaySet (p.ways s.replacement_template)) s.replacement index t v.each
            found in
        let (t', run, valid, same, keep) = c.hit_lem t way is_set.valid used in
        (
          record s { replacement = set s.replacement index t' },
          rw (found, run) refl,
          IsValid-set s index t' v (record { valid = valid; set_ways = same ∙ is_set.set_ways }),
          record { same_bits = refl; same_ways = refl; same_set = λ address. refl },
          Used-set s index t t' inside found keep,
        );
    register_miss_lem = λ s index v lt.
        let inside : index < length s.replacement = rw v.size lt in
        let (t, found) = get_elem?-lt s.replacement index inside in
        let is_set =
          All-get_elem? (IsWaySet (p.ways s.replacement_template)) s.replacement index t v.each
            found in
        let (way, t', run, valid, same, used, keep) = c.miss_lem t is_set.valid in
        (
          way,
          record s { replacement = set s.replacement index t' },
          rw (found, run) refl,
          IsValid-set s index t' v (record { valid = valid; set_ways = same ∙ is_set.set_ways }),
          record { same_bits = refl; same_ways = refl; same_set = λ address. refl },
          subst (λ n. way < n) (same ∙ is_set.set_ways) (c.used_lt t' way valid used),
          (t', get_elem?-set_self s.replacement index t' inside, used),
          Used-set s index t t' inside found keep,
        );
  }

  All-copies : (n k : ℕ) (t : S) → IsWaySet n t → All (IsWaySet n) (replicate k t)
  All-copies n zero t h = tt
  All-copies n (suc k) t h = (h, All-copies n k t h)

  -- A copy of the template for each set.
  abbrev pub copies : PlacementPolicy → S → BasicSetAssociativePolicy S
  copies placement t = record {
    placement = placement;
    replacement_template = t;
    replacement = replicate (2 ^ placement.index_bits) t;
  }

  pub init-IsValid :
      (placement : PlacementPolicy) (t : S)
      → ((address : ℕ) → placement.set_index address < 2 ^ placement.index_bits)
      → c.IsValid t
      → 0 < p.ways t
      → placement.index_bits < 31
      → (init p placement.index_bits placement t ≡ some (copies placement t))
        × IsValid (copies placement t)
  unfolding init
  init-IsValid placement t placed valid pos int = (
    rw (int_shift_lem placement.index_bits int) refl,
    record {
      placed = placed;
      some_way = pos;
      size = length-replicate (2 ^ placement.index_bits) t;
      each =
          All-copies (p.ways t) (2 ^ placement.index_bits) t
            (record { valid = valid; set_ways = refl });
    },
  )
