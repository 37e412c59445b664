-- ===== src/KernelMemory/Regions/Defragmentation.antt =====
-- Defragmentation keeps which addresses there are, and what they translate to.
use cache_hound.Common.{
  ℕ, ◌+◌, ◌-◌, ◌%◌, ◌<◌, ◌≡◌, ◌↔◌, ◌⊎◌, inl, inr, refl, leb, Bool, true, false, List, [], ◌∷◌, word,
  All, arith, if◌then◌else◌, dec_lt,
}
use cache_hound.KernelMemory.{ExtendedRegion}
use cache_hound.KernelMemory.Regions.{
  insert, sort, continues, merge_from, merge, defragment_regions,
}

-- The byte `k` of the region has this address and this physical address.
pub record Contains (r : ExtendedRegion) (address physical : ℕ) : Type 0 where
  pub offset : ℕ
  pub inside : offset < r.size
  pub virtual : address ≡ r.base + offset
  pub real : physical ≡ r.physical_base + offset

abbrev pub Translates : List ExtendedRegion → ℕ → ℕ → Type 0
Translates [] address physical = ⊥
Translates (r ∷ rs) address physical = Contains r address physical ⊎ Translates rs address physical

-- A region within the address space.
pub record Fits (r : ExtendedRegion) : Type 0 where
  pub virtual : r.base + r.size < word
  pub real : r.physical_base + r.size < word

reorder : {A B C : Type 0} → A ⊎ (B ⊎ C) → B ⊎ (A ⊎ C)
reorder (inl a) = inr (inl a)
reorder (inr (inl b)) = inl b
reorder (inr (inr c)) = inr (inr c)

under : {A B C : Type 0} → (B → C) → A ⊎ B → A ⊎ C
under f (inl a) = inl a
under f (inr b) = inr (f b)

module _ (address physical : ℕ) where
  insert-Translates :
      (r : ExtendedRegion) (rs : List ExtendedRegion)
      → Translates (insert r rs) address physical ↔ Translates (r ∷ rs) address physical
  unfolding insert
  insert-Translates r [] = (λ h. h, λ h. h)
  insert-Translates r (q ∷ qs) = by_case (insert-Translates r qs) (leb r.base q.base)
    where
      by_case :
          Translates (insert r qs) address physical ↔ Translates (r ∷ qs) address physical
          → (b : Bool)
          → Translates (if b then r ∷ q ∷ qs else q ∷ insert r qs) address physical
            ↔ Translates (r ∷ q ∷ qs) address physical
      by_case ih true = (λ h. h, λ h. h)
      by_case (into, back) false = (λ h. reorder (under into h), λ h. under back (reorder h))

  sort-Translates :
      (rs : List ExtendedRegion)
      → Translates (sort rs) address physical ↔ Translates rs address physical
  unfolding sort
  sort-Translates [] = (λ h. h, λ h. h)
  sort-Translates (r ∷ rs) =
      let (into, back) = sort-Translates rs in
      let (into', back') = insert-Translates r (sort rs) in
      (λ h. under into (into' h), λ h. back' (under back h))

  -- Two regions of which the second continues the first.
  module _ (c r : ExtendedRegion) (fits : Fits c) (fits' : Fits r)
      (test : continues c r ≡ true) where
    abbrev joined : ExtendedRegion
    joined = record c { size = (c.size + r.size) % word }

    next : (c.base + c.size ≡ r.base) × (c.physical_base + c.size ≡ r.physical_base)
    next = ground (arith, test, fits.virtual, fits.real)

    joined-Fits : Fits joined
    joined-Fits =
        let (e, e') = next in
        record {
          virtual = omega (arith, e, fits.virtual, fits'.virtual);
          real = omega (arith, e, e', fits.virtual, fits'.virtual, fits.real, fits'.real);
        }

    joined-Contains :
        Contains joined address physical
        ↔ (Contains c address physical ⊎ Contains r address physical)
    joined-Contains =
        let (e, e') = next in
        let whole : (c.size + r.size) % word ≡ c.size + r.size =
          omega (arith, e, fits.virtual, fits'.virtual) in
        (
          λ h. elim (dec_lt h.offset c.size) [
            | yes lt ↦
                inl (record { offset = h.offset; inside = lt; virtual = h.virtual; real = h.real })
            | no ge ↦ inr (record {
              offset = h.offset - c.size;
              inside = omega (arith, ge, h.inside, whole);
              virtual = omega (arith, ge, h.virtual, e);
              real = omega (arith, ge, h.real, e');
            })
          ],
          λ h. elim h [
            | inl k ↦ record {
              offset = k.offset;
              inside = omega (arith, k.inside, whole);
              virtual = k.virtual;
              real = k.real;
            }
            | inr k ↦ record {
              offset = c.size + k.offset;
              inside = omega (arith, k.inside, whole);
              virtual = omega (arith, k.virtual, e);
              real = omega (arith, k.real, e');
            }
          ],
        )

  regroup : {A B C D : Type 0} → (A ↔ (B ⊎ C)) → (A ⊎ D) ↔ (B ⊎ (C ⊎ D))
  regroup (into, back) = (
    λ h. elim h [
      | inl a ↦ elim (into a) [ inl b ↦ inl b | inr k ↦ inr (inl k) ]
      | inr d ↦ inr (inr d)
    ],
    λ h. elim h [
      | inl b ↦ inl (back (inl b))
      | inr k ↦ elim k [ inl k' ↦ inl (back (inr k')) | inr d ↦ inr d ]
    ],
  )

  merge_from-Translates :
      (c : ExtendedRegion) (rs : List ExtendedRegion)
      → Fits c
      → All Fits rs
      → Translates (merge_from c rs) address physical ↔ Translates (c ∷ rs) address physical
  unfolding merge_from
  merge_from-Translates c [] fits all = (λ h. h, λ h. h)
  merge_from-Translates c (r ∷ rs) fits all =
      by_case (λ f. merge_from-Translates (record c { size = (c.size + r.size) % word }) rs f all.1)
        (merge_from-Translates r rs all.0 all.1) (continues c r) refl
    where
      by_case :
          (Fits (record c { size = (c.size + r.size) % word })
            → Translates
                (merge_from (record c { size = (c.size + r.size) % word }) rs)
                address
                physical
              ↔ Translates (record c { size = (c.size + r.size) % word } ∷ rs) address physical)
          → Translates (merge_from r rs) address physical ↔ Translates (r ∷ rs) address physical
          → (b : Bool) → continues c r ≡ b
          → Translates
              (if b
                then merge_from (record c { size = (c.size + r.size) % word }) rs
                else c ∷ merge_from r rs)
              address
              physical
            ↔ Translates (c ∷ r ∷ rs) address physical
      by_case ih _ true e =
          let (into, back) = ih (joined-Fits c r fits all.0 e) in
          let (apart, together) = regroup (joined-Contains c r fits all.0 e) in
          (λ h. apart (into h), λ h. back (together h))
      by_case _ (into, back) false e = (λ h. under into h, λ h. under back h)

insert-Fits :
    (r : ExtendedRegion) (rs : List ExtendedRegion) → Fits r → All Fits rs → All Fits (insert r rs)
unfolding insert
insert-Fits r [] fits all = (fits, tt)
insert-Fits r (q ∷ qs) fits all = by_case (insert-Fits r qs fits all.1) (leb r.base q.base)
  where
    by_case :
        All Fits (insert r qs) → (b : Bool) → All Fits (if b then r ∷ q ∷ qs else q ∷ insert r qs)
    by_case ih true = (fits, all)
    by_case ih false = (all.0, ih)

sort-Fits : (rs : List ExtendedRegion) → All Fits rs → All Fits (sort rs)
unfolding sort
sort-Fits [] all = tt
sort-Fits (r ∷ rs) all = insert-Fits r (sort rs) all.0 (sort-Fits rs all.1)

-- For regions that end within the virtual and the physical address space, an address belongs to a
-- region and translates to a physical address after the defragmentation exactly if it did before.
pub defragment_regions-Translates :
    (rs : List ExtendedRegion) (address physical : ℕ)
    → All Fits rs
    → Translates (defragment_regions rs) address physical ↔ Translates rs address physical
unfolding defragment_regions merge
defragment_regions-Translates rs address physical all =
    let (into, back) = by_sorted (sort rs) (sort-Fits rs all) in
    let (into', back') = sort-Translates address physical rs in
    (λ h. into' (into h), λ h. back (back' h))
  where
    by_sorted :
        (qs : List ExtendedRegion)
        → All Fits qs
        → Translates (merge qs) address physical ↔ Translates qs address physical
    by_sorted [] _ = (λ h. h, λ h. h)
    by_sorted (q ∷ qs) fit = merge_from-Translates address physical q qs fit.0 fit.1
