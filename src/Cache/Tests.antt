-- ===== src/Cache/Tests.antt =====
-- A cache of two sets with two ways each, runs of it, and instances of the theorems.
use cache_hound.Common.{
  ℕ, zero, suc, ap, ◌/◌, List, write, ◌==◌, if◌then◌else◌, sym, ◌∙◌, ◌%◌, ◌≡◌, ◌≢◌, ◌↔◌, refl, true,
  false, Option, none, some, [], ◌∷◌, arith, ◌⊎◌, ◌>>=◌,
}
use cache_hound.Policy.Order.{iota, rotate_to_front}
use cache_hound.Policy.Lru
use cache_hound.Policy.Lru.Recency
use cache_hound.Cache.{
  SetAssociativeCache, CacheLine, lookup, invalidate, replace, fill, set_first, find_if, matches,
}
use cache_hound.Cache.Basic
use cache_hound.Cache.Basic.{PlacementPolicy, BasicSetAssociativePolicy, basic}
use cache_hound.Cache.Basic.Sets
use cache_hound.Cache.Basic.Sets.{basic-SetContract}
use cache_hound.Cache.Contract.{SetContract}
use cache_hound.Cache.Lookup.{HoldsAt, IsValid, lookup_cases}
use cache_hound.Cache.Store.{Cached}
use cache_hound.Cache.Fill.{fill_lem, invalidate_lem}

abbrev low_bit : PlacementPolicy
low_bit = record { index_bits = 1; set_index = λ address. address % 2 }

abbrev lru_2 : Lru.Lru
lru_2 = record { order = 0 ∷ 1 ∷ [] }

abbrev policy_2_2 : BasicSetAssociativePolicy Lru.Lru
policy_2_2 = record {
  placement = low_bit;
  replacement_template = lru_2;
  replacement = lru_2 ∷ lru_2 ∷ [];
}

abbrev line : ℕ → CacheLine
line tag = record { valid = true; tag = tag }

abbrev cache_2_2 : SetAssociativeCache (BasicSetAssociativePolicy Lru.Lru)
cache_2_2 = record {
  policy = policy_2_2;
  lines = line 4 ∷ line 6 ∷ record { valid = false; tag = 0 } ∷ line 3 ∷ [];
}

lru_2-IsValid : Recency.IsValid lru_2
unfolding iota
lru_2-IsValid = Recency.fresh-IsValid 2 (omega arith)

policy_2_2-IsValid : Sets.IsValid Lru.lru Recency.lru-Contract policy_2_2
unfolding Recency.lru-Contract Lru.ways
policy_2_2-IsValid =
    let s : Sets.IsWaySet Lru.lru Recency.lru-Contract 2 lru_2 = record {
      valid = lru_2-IsValid;
      set_ways = refl;
    } in
    record { placed = λ a. omega arith; some_way = omega arith; size = refl; each = (s, (s, tt)) }

abbrev policy_contract : SetContract (basic Lru.lru)
policy_contract = basic-SetContract Lru.lru Recency.lru-Contract

cache-Used :
    (i tag : ℕ) → HoldsAt cache_2_2.lines i tag → policy_contract.Used policy_2_2 (i / 2) (i % 2)
unfolding basic-SetContract Recency.lru-Contract Lru.ways
cache-Used zero tag h = (lru_2, refl, omega arith)
cache-Used (suc zero) tag h = (lru_2, refl, omega arith)
cache-Used (suc (suc zero)) tag h =
    absurd
      (ground (arith, ap (λ (o : Option CacheLine). elim o [ none ↦ true | some l ↦ l.valid ]) h))
cache-Used (suc (suc (suc zero))) tag h = (lru_2, refl, omega arith)
cache-Used (suc (suc (suc (suc i)))) tag h = absurd cc

-- The tag at an index, or 0.
abbrev tag_at : Option CacheLine → ℕ
tag_at o = elim o [ none ↦ 0 | some l ↦ l.tag ]

cache_placed : (i tag : ℕ) → HoldsAt cache_2_2.lines i tag → i / 2 ≡ tag % 2
cache_placed zero tag h = omega (arith, ap tag_at h)
cache_placed (suc zero) tag h = omega (arith, ap tag_at h)
cache_placed (suc (suc zero)) tag h =
    absurd
      (ground (arith, ap (λ (o : Option CacheLine). elim o [ none ↦ true | some l ↦ l.valid ]) h))
cache_placed (suc (suc (suc zero))) tag h = omega (arith, ap tag_at h)
cache_placed (suc (suc (suc (suc i)))) tag h = absurd cc

-- Where an address stands that the cache holds.
abbrev place : ℕ → ℕ
place tag = if tag == 4 then 0 else (if tag == 6 then 1 else 3)

cache_place : (i tag : ℕ) → HoldsAt cache_2_2.lines i tag → i ≡ place tag
cache_place zero tag h = ground (arith, ap tag_at h)
cache_place (suc zero) tag h = ground (arith, ap tag_at h)
cache_place (suc (suc zero)) tag h =
    absurd
      (ground (arith, ap (λ (o : Option CacheLine). elim o [ none ↦ true | some l ↦ l.valid ]) h))
cache_place (suc (suc (suc zero))) tag h = ground (arith, ap tag_at h)
cache_place (suc (suc (suc (suc i)))) tag h = absurd cc

cache_2_2-IsValid : IsValid (basic Lru.lru) policy_contract cache_2_2
unfolding basic-SetContract Basic.ways Basic.index_bits Basic.get_set Lru.ways
cache_2_2-IsValid = record {
  policy = policy_2_2-IsValid;
  size = refl;
  fits = omega arith;
  placed = cache_placed;
  used = cache-Used;
  unique = λ i j tag h h'. cache_place i tag h ∙ sym (cache_place j tag h');
}

fill_lem_example :
    (victim : Option ℕ) × (s' : SetAssociativeCache (BasicSetAssociativePolicy Lru.Lru)) × (fill
        (basic Lru.lru)
        cache_2_2
        8
      ≡ some (victim, s'))
    × IsValid (basic Lru.lru) policy_contract s'
    × ((b : ℕ) → Cached s' b ↔ ((b ≡ 8) ⊎ (Cached cache_2_2 b × (victim ≢ some b))))
    × ((b : ℕ) → victim ≡ some b → Cached cache_2_2 b)
fill_lem_example = fill_lem (basic Lru.lru) policy_contract cache_2_2 cache_2_2-IsValid 8

lookup_cases_example :
    ((lookup (basic Lru.lru) cache_2_2 6 ≡ some none) × ((i : ℕ) → ¬ HoldsAt cache_2_2.lines i 6))
    ⊎ ((i : ℕ) × (lookup (basic Lru.lru) cache_2_2 6 ≡ some (some i)) × HoldsAt cache_2_2.lines i 6)
lookup_cases_example = lookup_cases (basic Lru.lru) policy_contract cache_2_2 cache_2_2-IsValid 6

invalidate_lem_example :
    (s' : SetAssociativeCache (BasicSetAssociativePolicy Lru.Lru)) × (invalidate
        (basic Lru.lru)
        cache_2_2
        1
      ≡ some s')
    × IsValid (basic Lru.lru) policy_contract s'
    × ((b : ℕ) → Cached s' b ↔ (Cached cache_2_2 b × (b ≢ 6)))
invalidate_lem_example =
    invalidate_lem (basic Lru.lru) policy_contract cache_2_2 cache_2_2-IsValid 1 6 refl

abbrev shown :
    Option (Option ℕ × SetAssociativeCache (BasicSetAssociativePolicy Lru.Lru))
    → Option (Option ℕ × List CacheLine)
shown r = r >>= λ (victim, s). some (victim, s.lines)

fill_run :
    shown (fill (basic Lru.lru) cache_2_2 8)
    ≡ some (some 6, line 4 ∷ line 8 ∷ record { valid = false; tag = 0 } ∷ line 3 ∷ [])
unfolding fill lookup replace set_first find_if matches Basic.ways Basic.get_set Basic.register_miss
    Lru.ways Lru.miss Lru.hit_at rotate_to_front write
fill_run = refl
