-- ===== src/Policy/Fifo.antt =====
-- lib/include/cachehound/policies/replacement/fifo_replacement_policy.hpp
pub mod Queue
use cache_hound.Common.{
  ℕ, ◌-◌, ltb, List, Option, some, length, get_elem?, not, ◌==◌, check, ◌>>=◌, ◌>>◌,
}
use cache_hound.Policy.{ReplacementPolicy}
use cache_hound.Policy.Order.{iota, find, rotate_to_front}

pub record Fifo : Type 0 where
  pub order : List ℕ

unfoldable pub init : ℕ → Option Fifo
init ways = do check (ltb 0 ways); some (record { order = iota ways 0 })

unfoldable pub ways : Fifo → ℕ
ways s = length s.order

-- The private `hit`, at the element with index `it`.
unfoldable pub hit_at : Fifo → ℕ → Option Fifo
hit_at s it = do order ← rotate_to_front it s.order; some (record { order = order })

-- A hit does nothing, whatever the way.
unfoldable pub hit : Fifo → ℕ → Option Fifo
hit s way = some s

unfoldable pub miss : Fifo → Option (ℕ × Fifo)
miss s = do s' ← hit_at s (length s.order - 1); front ← get_elem? s'.order 0; some (front, s')

abbrev pub fifo : ReplacementPolicy Fifo
fifo = record { ways = ways; hit = hit; miss = miss }
