-- ===== src/Policy/LruWrapped.antt =====
-- lib/include/cachehound/policies/replacement/lru_wrapped_replacement_policy.hpp, and its instance
-- lru_plru_replacement_policy.hpp.
pub mod Groups
pub mod Misses
use cache_hound.Common.{
  ℕ, ◌+◌, ◌*◌, ◌/◌, ◌%◌, ltb, ◌==◌, List, [], ◌∷◌, Option, some, check, get_elem?, set, replicate,
  word, if◌then◌else◌, ◌>>=◌, ◌>>◌,
}
use cache_hound.Policy.{ReplacementPolicy}
use cache_hound.Policy.Lru
use cache_hound.Policy.Lru.{Lru}
use cache_hound.Policy.Plru
use cache_hound.Policy.Plru.{Plru, plru}

-- The base class, the nested policies and the number of ways in use.
pub record LruWrapped (S : Type 0) : Type 0 where
  pub base : Lru
  pub nested : List S
  pub dirty_idx : ℕ

module _ {S : Type 0} (p : ReplacementPolicy S) where
  -- The constructor compares the ways of copies of one policy.
  unfoldable pub init : ℕ → S → Option (LruWrapped S)
  init lru_ways nested = do
    base ← Lru.init lru_ways
    check (p.ways nested == p.ways nested)
    some (record { base = base; nested = replicate lru_ways nested; dirty_idx = 0 })

  -- `nested_.front().ways()`; the constructor leaves at least one nested policy.
  abbrev pub front_ways : List S → ℕ
  front_ways [] = 0
  front_ways (t ∷ ts) = p.ways t

  abbrev pub nested_ways : LruWrapped S → ℕ
  nested_ways s = front_ways s.nested

  unfoldable pub ways : LruWrapped S → ℕ
  ways s = (Lru.ways s.base * nested_ways s) % word

  unfoldable pub hit : LruWrapped S → ℕ → Option (LruWrapped S)
  hit s way = do
    let lru_way = way / nested_ways s
    let nested_way = way % nested_ways s
    base ← Lru.hit s.base lru_way
    t ← get_elem? s.nested lru_way
    t' ← p.hit t nested_way
    some (record s { base = base; nested = set s.nested lru_way t' })

  -- The second branch of `miss`.
  unfoldable pub miss_full : LruWrapped S → Option (ℕ × LruWrapped S)
  miss_full s = do
    (lru_way, base) ← Lru.miss s.base
    t ← get_elem? s.nested lru_way
    (nested_way, t') ← p.miss t
    some (
      (lru_way * nested_ways s + nested_way) % word,
      record s { base = base; nested = set s.nested lru_way t' },
    )

  unfoldable pub miss : LruWrapped S → Option (ℕ × LruWrapped S)
  miss s =
      if ltb s.dirty_idx (ways s)
      then (do
        s' ← hit (record s { dirty_idx = s.dirty_idx + 1 }) s.dirty_idx
        some (s.dirty_idx, s'))
      else miss_full s

  abbrev pub lru_wrapped : ReplacementPolicy (LruWrapped S)
  lru_wrapped = record { ways = ways; hit = hit; miss = miss }

-- `lru_plru_replacement_policy`.
unfoldable pub init_lru_plru : ℕ → ℕ → Option (LruWrapped Plru)
init_lru_plru lru_ways plru_ways = do nested ← Plru.init plru_ways; init plru lru_ways nested

abbrev pub lru_plru : ReplacementPolicy (LruWrapped Plru)
lru_plru = lru_wrapped plru
