-- ===== src/AddressMap/Tests.antt =====
-- Three regions, out of order.
use cache_hound.Common.{◌+◌, ◌%◌, ◌≡◌, refl, inl, inr, false, [], ◌∷◌, ◌++◌, arith, word}
use cache_hound.KernelMemory.{ExtendedRegion}
use cache_hound.AddressMap.{
  assign, entry_below, insert_new, add_region, check_region, address_translation, translate,
}
use cache_hound.AddressMap.Translation.{translate-address_translation}

abbrev low : ExtendedRegion
low = record { base = 0x7000; physical_base = 0x1000; size = 0x1000 }

abbrev middle : ExtendedRegion
middle = record { base = 0x3000; physical_base = 0x5000; size = 0x1000 }

abbrev high : ExtendedRegion
high = record { base = 0x9000; physical_base = 0x8000; size = 0x1000 }

translate-address_translation_example :
    translate (address_translation ((high ∷ []) ++ (middle ∷ low ∷ [])) []) (0x5000 + 0x123)
    ≡ (0x3000 + 0x123) % word
translate-address_translation_example =
    translate-address_translation (high ∷ []) middle (low ∷ []) 0x123
      (record { some_byte = omega arith; apart = inl (omega arith) }, tt)
      (record { some_byte = omega arith; apart = inr (omega arith) }, tt) (omega arith)

-- Past the end of a region the adapter goes on translating.
beyond : translate (address_translation (middle ∷ high ∷ []) []) 0x6000 ≡ 0x4000
unfolding translate address_translation assign entry_below
beyond = refl

-- Below the first region it gives the address 0.
below : translate (address_translation (middle ∷ high ∷ []) []) 0x4fff ≡ 0
unfolding translate address_translation assign entry_below
below = refl

checked : check_region 0x6000 (add_region (record { base = 0x5000; size = 0x1000 }) []) ≡ false
unfolding check_region insert_new entry_below
checked = refl
