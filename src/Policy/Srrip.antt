-- ===== src/Policy/Srrip.antt =====
-- lib/include/cachehound/policies/replacement/srrip_replacement_policy.hpp, and its instances in
-- mru_replacement_policy.hpp and qlru_replacement_policy.hpp. `Bits` is below 64, as the shift
-- that defines `distant_future` needs.
pub mod Aging
pub mod Victim
pub mod Fresh
use cache_hound.Common.{
  ℕ, zero, suc, ◌+◌, ◌-◌, ◌%◌, ◌^◌, ltb, ◌==◌, List, map, Option, none, some, length, get_elem?,
  set, replicate, check, word, if◌then◌else◌, ◌>>=◌, ◌>>◌,
}
use cache_hound.Policy.{ReplacementPolicy}
use cache_hound.Policy.Order.{find}

unfoldable pub hit_priority : ℕ → ℕ
hit_priority entry = 0

unfoldable pub frequency_priority : ℕ → ℕ
frequency_priority entry = if entry == 0 then 0 else entry - 1

pub record Srrip : Type 0 where
  pub entries : List ℕ

abbrev pub distant_future : ℕ → ℕ
distant_future bits = 2 ^ bits - 1

-- `distant_future - 1` on `std::size_t`.
abbrev pub long_interval : ℕ → ℕ
long_interval bits = (word + distant_future bits - 1) % word

module _ (bits : ℕ) (hit_promotion_policy : ℕ → ℕ) where
  unfoldable pub init : ℕ → Option Srrip
  init ways = do
    check (ltb 0 ways)
    some (record { entries = replicate ways (distant_future bits) })

  unfoldable pub ways : Srrip → ℕ
  ways s = length s.entries

  unfoldable pub hit : Srrip → ℕ → Option Srrip
  hit s way = do
    entry ← get_elem? s.entries way
    some (record { entries = set s.entries way (hit_promotion_policy entry) })

  -- The loop of `miss`, with fuel; `none` means that the fuel ran out.
  unfoldable pub miss_loop : ℕ → List ℕ → Option (ℕ × List ℕ)
  miss_loop zero entries = none
  miss_loop (suc fuel) entries =
      let it = find entries (distant_future bits) in
      let again = miss_loop fuel (map (λ entry. (entry + 1) % word) entries) in
      if it == length entries then again else some (it, set entries it (long_interval bits))

  unfoldable pub miss : Srrip → Option (ℕ × Srrip)
  miss s = do
    (way, entries) ← miss_loop (distant_future bits + 1) s.entries
    some (way, record { entries = entries })

  abbrev pub srrip : ReplacementPolicy Srrip
  srrip = record { ways = ways; hit = hit; miss = miss }

-- `mru_replacement_policy` and `qlru_replacement_policy`.
abbrev pub mru : ReplacementPolicy Srrip
mru = srrip 1 hit_priority

abbrev pub qlru : (ℕ → ℕ) → ReplacementPolicy Srrip
qlru hit_promotion_policy = srrip 2 hit_promotion_policy
