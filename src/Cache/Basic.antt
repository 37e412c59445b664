-- ===== src/Cache/Basic.antt =====
-- sim/include/cachehound/sim/policy/basic_set_associative_policy.hpp: a replacement policy per set,
-- each a copy of one template. A placement policy is its operations
-- (lib/include/cachehound/concepts/placement_policy.hpp).
pub mod Sets
use cache_hound.Common.{ℕ, int_shift, List, Option, some, get_elem?, set, replicate, ◌>>=◌}
use cache_hound.Policy.{ReplacementPolicy}
use cache_hound.Cache.{SetAssociativePolicy}

pub record PlacementPolicy : Type 0 where
  pub index_bits : ℕ
  pub set_index : ℕ → ℕ

pub record BasicSetAssociativePolicy (S : Type 0) : Type 0 where
  pub placement : PlacementPolicy
  pub replacement_template : S
  pub replacement : List S

module _ {S : Type 0} (p : ReplacementPolicy S) where
  unfoldable pub init : ℕ → PlacementPolicy → S → Option (BasicSetAssociativePolicy S)
  init index_bits placement replacement_template = do
    n ← int_shift index_bits
    some (record {
      placement = placement;
      replacement_template = replacement_template;
      replacement = replicate n replacement_template;
    })

  unfoldable pub index_bits : BasicSetAssociativePolicy S → ℕ
  index_bits s = s.placement.index_bits

  unfoldable pub ways : BasicSetAssociativePolicy S → ℕ
  ways s = p.ways s.replacement_template

  unfoldable pub get_set : BasicSetAssociativePolicy S → ℕ → ℕ
  get_set s address = s.placement.set_index address

  unfoldable pub register_hit :
      BasicSetAssociativePolicy S → ℕ → ℕ → Option (BasicSetAssociativePolicy S)
  register_hit s set_index way_index = do
    t ← get_elem? s.replacement set_index
    t' ← p.hit t way_index
    some (record s { replacement = set s.replacement set_index t' })

  unfoldable pub register_miss :
      BasicSetAssociativePolicy S → ℕ → Option (ℕ × BasicSetAssociativePolicy S)
  register_miss s set_index = do
    t ← get_elem? s.replacement set_index
    (way, t') ← p.miss t
    some (way, record s { replacement = set s.replacement set_index t' })

  abbrev pub basic : SetAssociativePolicy (BasicSetAssociativePolicy S)
  basic = record {
    index_bits = index_bits;
    ways = ways;
    get_set = get_set;
    register_hit = register_hit;
    register_miss = register_miss;
  }
