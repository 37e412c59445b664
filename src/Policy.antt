-- ===== src/Policy.antt =====
-- lib/include/cachehound/policies/replacement and the concept `replacement_policy`
-- (lib/include/cachehound/concepts/replacement_policy.hpp): a policy is its operations over a
-- state type. Type erasure by lib/include/cachehound/util/any_replacement_policy.hpp forwards
-- each call, so the record also stands for `any_replacement_policy`.
pub mod Order
pub mod Cyclic
pub mod Rotating
pub mod Fifo
pub mod Lru
pub mod Srrip
pub mod Plru
pub mod LinearInit
pub mod LruWrapped
mod Tests
use cache_hound.Common.{ℕ, ◌≡◌, ◌<◌, Option, some}

pub record ReplacementPolicy (S : Type 0) : Type 0 where
  pub ways : S → ℕ
  pub hit : S → ℕ → Option S
  pub miss : S → Option (ℕ × S)

-- What the users of a policy rely on. A way is `Used` once it may be passed to `hit`.
pub record Contract {S : Type 0} (p : ReplacementPolicy S) : Type 1 where
  pub IsValid : S → Type 0
  pub Used : S → ℕ → Type 0
  pub used_lt : (s : S) (w : ℕ) → IsValid s → Used s w → w < p.ways s
  pub hit_lem :
      (s : S) (w : ℕ)
      → IsValid s
      → Used s w
      → (s' : S) × (p.hit s w ≡ some s')
        × IsValid s'
        × (p.ways s' ≡ p.ways s)
        × ((v : ℕ) → Used s v → Used s' v)
  pub miss_lem :
      (s : S)
      → IsValid s
      → (w : ℕ) × (s' : S) × (p.miss s ≡ some (w, s'))
        × IsValid s'
        × (p.ways s' ≡ p.ways s)
        × Used s' w
        × ((v : ℕ) → Used s v → Used s' v)
