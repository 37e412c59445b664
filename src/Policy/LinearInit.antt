-- ===== src/Policy/LinearInit.antt =====
-- lib/include/cachehound/policies/replacement/linear_init_replacement_policy.hpp. `dirty_idx_` is
-- incremented only below the number of ways, so that it does not wrap around.
pub mod Filling
use cache_hound.Common.{ℕ, ◌+◌, ltb, Option, some, check, if◌then◌else◌, ◌>>=◌, ◌>>◌}
use cache_hound.Policy.{ReplacementPolicy}

pub record LinearInit (S : Type 0) : Type 0 where
  pub nested : S
  pub dirty_idx : ℕ

module _ {S : Type 0} (p : ReplacementPolicy S) where
  unfoldable pub init : S → LinearInit S
  init nested = record { nested = nested; dirty_idx = 0 }

  unfoldable pub ways : LinearInit S → ℕ
  ways s = p.ways s.nested

  unfoldable pub hit : LinearInit S → ℕ → Option (LinearInit S)
  hit s way = do
    check (ltb way s.dirty_idx)
    nested ← p.hit s.nested way
    some (record s { nested = nested })

  -- The first branch of `miss`.
  unfoldable pub miss_clean : LinearInit S → Option (ℕ × LinearInit S)
  miss_clean s = do
    nested ← p.hit s.nested s.dirty_idx
    some (s.dirty_idx, record { nested = nested; dirty_idx = s.dirty_idx + 1 })

  -- The second branch of `miss`.
  unfoldable pub miss_full : LinearInit S → Option (ℕ × LinearInit S)
  miss_full s = do (way, nested) ← p.miss s.nested; some (way, record s { nested = nested })

  unfoldable pub miss : LinearInit S → Option (ℕ × LinearInit S)
  miss s = if ltb s.dirty_idx (ways s) then miss_clean s else miss_full s

  abbrev pub linear_init : ReplacementPolicy (LinearInit S)
  linear_init = record { ways = ways; hit = hit; miss = miss }
