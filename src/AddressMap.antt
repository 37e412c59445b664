-- ===== src/AddressMap.antt =====
-- The maps from addresses of lib/include/cachehound/util/address_checker.hpp and
-- lib/include/cachehound/adapters/physical_adapter.hpp: a `std::map` is its entries in the order of
-- their keys.
pub mod Floor
pub mod Translation
mod Tests
use cache_hound.Common.{
  ℕ, ◌+◌, ◌-◌, ◌%◌, ◌==◌, ltb, leb, Bool, true, false, List, [], ◌∷◌, Option, none, some, word,
  if◌then◌else◌,
}
use cache_hound.Memory.{MemoryRegion}
use cache_hound.KernelMemory.{ExtendedRegion}

abbrev pub AddressMap : Type 0
AddressMap = List (ℕ × ℕ)

-- `operator[]` and the assignment to what it gives.
unfoldable pub assign : ℕ → ℕ → AddressMap → AddressMap
assign k v [] = (k, v) ∷ []
assign k v ((k', v') ∷ entries) =
    let rest = assign k v entries in
    if ltb k k'
    then (k, v) ∷ (k', v') ∷ entries
    else if k == k'
    then (k, v) ∷ entries
    else (k', v') ∷ rest

-- `emplace` leaves an entry that is there.
unfoldable pub insert_new : ℕ → ℕ → AddressMap → AddressMap
insert_new k v [] = (k, v) ∷ []
insert_new k v ((k', v') ∷ entries) =
    let rest = insert_new k v entries in
    if ltb k k'
    then (k, v) ∷ (k', v') ∷ entries
    else if k == k'
    then (k', v') ∷ entries
    else (k', v') ∷ rest

-- The entry before `upper_bound`, if this is not the first.
unfoldable pub entry_below : ℕ → AddressMap → Option (ℕ × ℕ)
entry_below address [] = none
entry_below address ((k, v) ∷ entries) =
    let rest = entry_below address entries in
    if leb k address then (elim rest [ none ↦ some (k, v) | some e ↦ some e ]) else none

-- `address_checker::add_region`.
abbrev pub add_region : MemoryRegion → AddressMap → AddressMap
add_region region entries = insert_new region.base region.size entries

-- `address_checker::operator()`.
unfoldable pub check_region : ℕ → AddressMap → Bool
check_region address entries = elim (entry_below address entries) [
  | none ↦ false
  | some (base, size) ↦ ltb address ((base + size) % word)
]

-- `physical_adapter::translate`; `return false` gives the address 0.
unfoldable pub translate : AddressMap → ℕ → ℕ
translate entries physical_address = elim (entry_below physical_address entries) [
  | none ↦ 0
  | some (physical_base, base) ↦ (base + (physical_address - physical_base)) % word
]

-- The constructor of `physical_adapter`.
unfoldable pub address_translation : List ExtendedRegion → AddressMap → AddressMap
address_translation [] entries = entries
address_translation (r ∷ rs) entries =
    address_translation rs (assign r.physical_base r.base entries)
