-- ===== src/Sequence.antt =====
-- `simulate_sequence` of lib/include/cachehound/algo/simulate_sequence.hpp.
pub mod Reference
pub mod Tables
pub mod Counting
pub mod Branches
pub mod Steps
mod Tests
use cache_hound.Common.{
  ℕ, ◌+◌, ◌%◌, ◌-◌, ◌==◌, leb, Bool, true, false, List, [], ◌∷◌, Option, some, length, get_elem?,
  replicate, word, write, resize, if◌then◌else◌, ◌>>=◌,
}
use cache_hound.Policy.{ReplacementPolicy}

-- `std::numeric_limits<std::size_t>::max()`, the tag of a way that holds nothing.
abbrev pub dirty : ℕ
dirty = word - 1

-- The local variables of the function; the policy is a reference.
pub record Simulation (S : Type 0) : Type 0 where
  pub seen : List Bool
  pub addr_way : List ℕ
  pub way_addr : List ℕ
  pub hit_counter : ℕ
  pub policy : S

module _ {S : Type 0} where
  -- The tables are made long enough for an address.
  unfoldable pub grow : ℕ → Simulation S → Simulation S
  grow addr st =
      if leb (length st.seen) addr
      then record st {
        seen = resize st.seen ((1 + addr) % word) false;
        addr_way = resize st.addr_way ((1 + addr) % word) 0;
      }
      else st

  unfoldable pub count : ℕ → Bool → Simulation S → Option (Simulation S)
  count addr is_hit st = do
    was_seen ← get_elem? st.seen addr
    if was_seen
        then some (record st { hit_counter = (st.hit_counter + (if is_hit then 1 else 0)) % word })
        else (do seen ← write st.seen addr true; some (record st { seen = seen }))

  module _ (p : ReplacementPolicy S) where
    unfoldable pub on_hit : ℕ → Simulation S → Option (Simulation S)
    on_hit way st = do policy ← p.hit st.policy way; some (record st { policy = policy })

    unfoldable pub on_miss : ℕ → Simulation S → Option (Simulation S)
    on_miss addr st = do
      (way, policy) ← p.miss st.policy
      addr_way ← write st.addr_way addr way
      way_addr ← write st.way_addr way addr
      some (record st { addr_way = addr_way; way_addr = way_addr; policy = policy })

    -- The body of the loop, once the tables are long enough.
    unfoldable pub access_grown : ℕ → Simulation S → Option (Simulation S)
    access_grown addr st = do
      way ← get_elem? st.addr_way addr
      tag ← get_elem? st.way_addr way
      let is_hit = tag == addr
      after ← if is_hit then on_hit way st else on_miss addr st
      count addr is_hit after

    -- The body of the loop.
    unfoldable pub access : ℕ → Simulation S → Option (Simulation S)
    access addr st = access_grown addr (grow addr st)

    unfoldable pub access_all : List ℕ → Simulation S → Option (Simulation S)
    access_all [] st = some st
    access_all (addr ∷ sequence) st = access addr st >>= λ st'. access_all sequence st'

    abbrev pub start : S → Simulation S
    start policy = record {
      seen = [];
      addr_way = [];
      way_addr = replicate (p.ways policy) dirty;
      hit_counter = 0;
      policy = policy;
    }

    unfoldable pub simulate_sequence : List ℕ → S → Option ℕ
    simulate_sequence sequence policy = do
      st ← access_all sequence (start policy)
      some st.hit_counter
