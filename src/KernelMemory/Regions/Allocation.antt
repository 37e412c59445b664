-- ===== src/KernelMemory/Regions/Allocation.antt =====
-- The loop of the constructor ends, and the regions have the size that was asked for.
use cache_hound.Common.{
  ℕ, zero, suc, ◌+◌, ◌-◌, ◌*◌, ◌^◌, ◌<◌, ◌≤◌, ◌≡◌, ◌==◌, refl, min, Bool-cases, Option-cases, inl,
  inr, List, [], ◌∷◌, Option, some, arith, pow-pos, mul-le,
}
use cache_hound.KernelMemory.{ExtendedRegion}
use cache_hound.KernelMemory.Regions.{Allocated, failed, regions, prepend, allocate_regions}

abbrev pub total : List ExtendedRegion → ℕ
total [] = 0
total (r ∷ rs) = r.size + total rs

-- A failure, or regions of at least `size` bytes.
unfoldable pub Enough : {K : Type 0} → ℕ → Allocated K → Type 0
Enough size (failed) = Unit
Enough size (regions rs k) = size ≤ total rs

grown :
    {K : Type 0} (size : ℕ) (r : ExtendedRegion) (a : Allocated K)
    → Enough (suc size - min (suc size) r.size) a
    → Enough (suc size) (prepend r a)
unfolding Enough
grown size r (failed) enough = tt
grown size r (regions rs k) enough = omega (arith, enough)

module _ {K : Type 0} (alloc_region : ℕ → K → Option (ℕ × ℕ) × K) (page_size : ℕ)
    (some_size : 0 < page_size) where
  -- `size + order` calls are enough: the loop ends with an exception or with regions of `size` bytes.
  pub allocate_regions_lem :
      (n size order : ℕ) (k : K)
      → size + order ≤ n
      → (a : Allocated K) × (allocate_regions alloc_region page_size n size order k ≡ some a)
        × Enough size a
  unfolding allocate_regions Enough
  allocate_regions_lem n zero order k fuel = (regions [] k, refl, omega arith)
  allocate_regions_lem zero (suc size) order k fuel = absurd (omega (arith, fuel))
  allocate_regions_lem (suc n) (suc size) order k fuel =
      let bytes : ℕ = 2 ^ order * page_size in
      let k' : K = (alloc_region order k).1 in
      let positive : page_size ≤ bytes =
        omega (arith, mul-le 1 (2 ^ order) page_size (pow-pos order)) in
      elim (Option-cases ((alloc_region order k).0)) [
        | inl refused ↦ elim (Bool-cases (order == 0)) [
          | inl last ↦ (failed, rw (allocate_regions, refused, last) refl, tt)
          | inr more ↦
              let (a, runs, enough) =
                allocate_regions_lem n (suc size) (order - 1) k' (ground (arith, fuel, more)) in
              (a, rw (allocate_regions, refused, more) runs, enough)
        ]
        | inr ((virtual_base, physical_base), given) ↦
            let (a, runs, enough) =
              allocate_regions_lem n (suc size - min (suc size) bytes) order k'
                (omega (arith, fuel, positive, some_size)) in
            let r : ExtendedRegion = record {
              base = virtual_base;
              physical_base = physical_base;
              size = bytes;
            } in
            (prepend r a, rw (allocate_regions, given, runs) refl, grown size r a enough)
      ]
