-- ===== src/Cache/Contract.antt =====
-- What the cache relies on in its policy.
use cache_hound.Common.{ℕ, ◌<◌, ◌^◌, ◌≡◌, some}
use cache_hound.Cache.{SetAssociativePolicy}

module _ {S : Type 0} (p : SetAssociativePolicy S) where
  -- No operation changes the shape of the policy.
  pub record Same (s s' : S) : Type 0 where
    pub same_bits : p.index_bits s' ≡ p.index_bits s
    pub same_ways : p.ways s' ≡ p.ways s
    pub same_set : (address : ℕ) → p.get_set s' address ≡ p.get_set s address

  -- A way of a set is `Used` once it may be passed to `register_hit`.
  pub record SetContract : Type 1 where
    pub IsValid : S → Type 0
    pub Used : S → ℕ → ℕ → Type 0
    pub some_way : (s : S) → IsValid s → 0 < p.ways s
    pub get_set_lt : (s : S) (address : ℕ) → IsValid s → p.get_set s address < 2 ^ p.index_bits s
    pub register_hit_lem :
        (s : S) (set way : ℕ)
        → IsValid s
        → set < 2 ^ p.index_bits s
        → Used s set way
        → (s' : S) × (p.register_hit s set way ≡ some s')
          × IsValid s'
          × Same s s'
          × ((set' way' : ℕ) → Used s set' way' → Used s' set' way')
    pub register_miss_lem :
        (s : S) (set : ℕ)
        → IsValid s
        → set < 2 ^ p.index_bits s
        → (way : ℕ) × (s' : S) × (p.register_miss s set ≡ some (way, s'))
          × IsValid s'
          × Same s s'
          × (way < p.ways s)
          × Used s' set way
          × ((set' way' : ℕ) → Used s set' way' → Used s' set' way')
