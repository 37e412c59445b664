-- ===== src/Cache.antt =====
-- sim/include/cachehound/sim/cache/set_associative_cache.hpp over the concept
-- `set_associative_policy` (sim/include/cachehound/sim/concepts/set_associative_policy.hpp). The
-- type erasure of any_set_associative_policy.hpp forwards each call. A handle, a pointer to a line
-- in the source, is the line's index in `data_`, so that `get_cache_line_set_way` divides it.
pub mod Contract
pub mod Basic
pub mod Lookup
pub mod Store
pub mod Fill
mod Tests
use cache_hound.Common.{
  ℕ, zero, suc, ◌+◌, ◌*◌, ◌/◌, ◌%◌, ◌-◌, int_shift, leb, ◌==◌, Bool, true, false, ◌&&◌, List,
  Option, none, some, length, get_elem?, replicate, word, check, write, if◌then◌else◌, ◌>>=◌, ◌>>◌,
}

pub record SetAssociativePolicy (S : Type 0) : Type 0 where
  pub index_bits : S → ℕ
  pub ways : S → ℕ
  pub get_set : S → ℕ → ℕ
  pub register_hit : S → ℕ → ℕ → Option S
  pub register_miss : S → ℕ → Option (ℕ × S)

pub record CacheLine : Type 0 where
  pub valid : Bool
  pub tag : ℕ

pub record SetAssociativeCache (S : Type 0) : Type 0 where
  pub policy : S
  pub lines : List CacheLine

-- The predicate of `lookup` on a line.
unfoldable pub matches : ℕ → CacheLine → Bool
matches tag l = l.valid && (l.tag == tag)

-- `std::find_if` over `n` lines from `i` on, which the caller has checked to be there.
unfoldable pub find_if : ℕ → List CacheLine → ℕ → ℕ → ℕ
find_if tag lines i zero = i
find_if tag lines i (suc n) =
    let rest = find_if tag lines (i + 1) n in
    elim (get_elem? lines i) [ none ↦ rest | some l ↦ if matches tag l then i else rest ]

module _ {S : Type 0} (p : SetAssociativePolicy S) where
  unfoldable pub sets : S → Option ℕ
  sets policy = int_shift (p.index_bits policy)

  unfoldable pub init : S → Option (SetAssociativeCache S)
  init policy = do
    n ← sets policy
    some (record {
      policy = policy;
      lines = replicate ((n * p.ways policy) % word) (record { valid = false; tag = 0 });
    })

  -- The index of the first line of the set of an address; the set is a span of the vector.
  unfoldable pub set_first : SetAssociativeCache S → ℕ → Option ℕ
  set_first s aligned_address = do
    let first = (p.get_set s.policy aligned_address * p.ways s.policy) % word
    check (leb (first + p.ways s.policy) (length s.lines))
    some first

  unfoldable pub lookup : SetAssociativeCache S → ℕ → Option (Option ℕ)
  lookup s aligned_address = do
    first ← set_first s aligned_address
    let it = find_if aligned_address s.lines first (p.ways s.policy)
    some (if it - first == p.ways s.policy then none else some it)

  unfoldable pub hit : SetAssociativeCache S → ℕ → Option (SetAssociativeCache S)
  hit s handle = do
    line ← get_elem? s.lines handle
    check line.valid
    policy ← p.register_hit s.policy (handle / p.ways s.policy) (handle % p.ways s.policy)
    some (record s { policy = policy })

  unfoldable pub invalidate : SetAssociativeCache S → ℕ → Option (SetAssociativeCache S)
  invalidate s handle = do
    line ← get_elem? s.lines handle
    check line.valid
    let offset = handle / p.ways s.policy * p.ways s.policy + handle % p.ways s.policy
    lines ← write s.lines (offset % word) (record { valid = false; tag = line.tag })
    some (record s { lines = lines })

  -- The branch of `fill` on an address that is not cached.
  unfoldable pub replace : SetAssociativeCache S → ℕ → Option (Option ℕ × SetAssociativeCache S)
  replace s aligned_address = do
    first ← set_first s aligned_address
    (victim_way, policy) ← p.register_miss s.policy (p.get_set s.policy aligned_address)
    line ← get_elem? s.lines (first + victim_way)
    lines ← write s.lines (first + victim_way) (record { valid = true; tag = aligned_address })
    some (if line.valid then some line.tag else none, record { policy = policy; lines = lines })

  unfoldable pub fill : SetAssociativeCache S → ℕ → Option (Option ℕ × SetAssociativeCache S)
  fill s aligned_address = do
    handle ← lookup s aligned_address
    elim handle [ none ↦ replace s aligned_address | some h ↦ some (none, s) ]
