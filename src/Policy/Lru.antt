-- ===== src/Policy/Lru.antt =====
-- lib/include/cachehound/policies/replacement/lru_replacement_policy.hpp
pub mod Recency
pub mod History
use cache_hound.Common.{
  ℕ, ◌-◌, ltb, List, Option, some, length, get_elem?, not, ◌==◌, check, ◌>>=◌, ◌>>◌,
}
use cache_hound.Policy.{ReplacementPolicy}
use cache_hound.Policy.Order.{iota, find, rotate_to_front}

pub record Lru : Type 0 where
  pub order : List ℕ

unfoldable pub init : ℕ → Option Lru
init ways = do check (ltb 0 ways); some (record { order = iota ways 0 })

unfoldable pub ways : Lru → ℕ
ways s = length s.order

-- The private `hit`, at the element with index `it`.
unfoldable pub hit_at : Lru → ℕ → Option Lru
hit_at s it = do order ← rotate_to_front it s.order; some (record { order = order })

unfoldable pub hit : Lru → ℕ → Option Lru
hit s way = do let it = find s.order way; check (not (it == length s.order)); hit_at s it

unfoldable pub miss : Lru → Option (ℕ × Lru)
miss s = do s' ← hit_at s (length s.order - 1); front ← get_elem? s'.order 0; some (front, s')

abbrev pub lru : ReplacementPolicy Lru
lru = record { ways = ways; hit = hit; miss = miss }
