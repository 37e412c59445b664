-- ===== src/AddressMap/Translation.antt =====
-- The physical adapter translates an address of a region to the address of the same byte.
use cache_hound.Common.{
  ℕ, ◌+◌, ◌-◌, ◌%◌, ◌<◌, ◌≤◌, ◌≡◌, ◌≢◌, ◌==◌, ◌⊎◌, inl, inr, refl, ap, sym, ◌∙◌, ltb, true, false,
  List, [], ◌∷◌, ◌++◌, some, word, arith, All,
}
use cache_hound.KernelMemory.{ExtendedRegion}
use cache_hound.AddressMap.{AddressMap, assign, entry_below, address_translation, translate}
use cache_hound.AddressMap.Floor.{Ascending, Has, Free, lt_cases, assign-Ascending, entry_below_lem}

assign-Has : (k v : ℕ) (entries : AddressMap) → Has k v (assign k v entries)
unfolding assign
assign-Has k v [] = inl (refl, refl)
assign-Has k v ((k', v') ∷ entries) = elim (lt_cases k k') [
  | inl lt ↦ let e : ltb k k' ≡ true = ground (arith, lt) in rw e (inl (refl, refl))
  | inr (inl same) ↦
      let e : ltb k k' ≡ false = ground (arith, same) in
      let e' : (k == k') ≡ true = ground (arith, same) in rw (e, e') (inl (refl, refl))
  | inr (inr gt) ↦
      let e : ltb k k' ≡ false = ground (arith, gt) in
      let e' : (k == k') ≡ false = ground (arith, gt) in rw (e, e') (inr (assign-Has k v entries))
]

assign-keeps :
    (k v k' v' : ℕ) (entries : AddressMap)
    → k ≢ k'
    → Has k v entries
    → Has k v (assign k' v' entries)
unfolding assign
assign-keeps k v k' v' [] ne has = elim has [ ]
assign-keeps k v k' v' ((q, w) ∷ entries) ne has = elim (lt_cases k' q) [
  | inl lt ↦ let e : ltb k' q ≡ true = ground (arith, lt) in rw e (inr has)
  | inr (inl same) ↦
      let e : ltb k' q ≡ false = ground (arith, same) in
      let e' : (k' == q) ≡ true = ground (arith, same) in
      rw (e, e') (elim has [ inl (at, _) ↦ absurd (ne (at ∙ sym same)) | inr there ↦ inr there ])
  | inr (inr gt) ↦
      let e : ltb k' q ≡ false = ground (arith, gt) in
      let e' : (k' == q) ≡ false = ground (arith, gt) in
      rw (e, e')
        (elim has [
          | inl here ↦ inl here
          | inr there ↦ inr (assign-keeps k v k' v' entries ne there)
        ])
]

assign-Free :
    (k v low high : ℕ) (entries : AddressMap)
    → (k ≤ low) ⊎ (high < k)
    → Free low high entries
    → Free low high (assign k v entries)
unfolding assign
assign-Free k v low high [] out free = (out, tt)
assign-Free k v low high ((q, w) ∷ entries) out (first, free) = elim (lt_cases k q) [
  | inl lt ↦ let e : ltb k q ≡ true = ground (arith, lt) in rw e (out, (first, free))
  | inr (inl same) ↦
      let e : ltb k q ≡ false = ground (arith, same) in
      let e' : (k == q) ≡ true = ground (arith, same) in rw (e, e') (out, free)
  | inr (inr gt) ↦
      let e : ltb k q ≡ false = ground (arith, gt) in
      let e' : (k == q) ≡ false = ground (arith, gt) in
      rw (e, e') (first, assign-Free k v low high entries out free)
]

-- Two regions with no physical address in common; the second holds a byte.
pub record Disjoint (r q : ExtendedRegion) : Type 0 where
  pub some_byte : 0 < q.size
  pub apart :
      (r.physical_base + r.size ≤ q.physical_base) ⊎ (q.physical_base + q.size ≤ r.physical_base)

module _ (r : ExtendedRegion) (offset : ℕ) (inside : offset < r.size) where
  out_of_reach :
      (q : ExtendedRegion)
      → Disjoint r q
      → ((q.physical_base ≤ r.physical_base) ⊎ (r.physical_base + offset < q.physical_base))
        × (r.physical_base ≢ q.physical_base)
  out_of_reach q d = elim d.apart [
    | inl after ↦
        (inr (omega (arith, after, inside)), λ e. absurd (omega (arith, e, after, inside)))
    | inr before ↦
        (inl (omega (arith, before)), λ e. absurd (omega (arith, e, before, d.some_byte)))
  ]

  pub Kept : AddressMap → Type 0
  Kept entries = Ascending 0 entries × Free r.physical_base (r.physical_base + offset) entries

  before_lem :
      (before rs : List ExtendedRegion) (entries : AddressMap)
      → All (Disjoint r) before
      → Kept entries
      → (entries' : AddressMap) × (address_translation (before ++ rs) entries
          ≡ address_translation rs entries')
        × Kept entries'
  unfolding address_translation Kept
  before_lem [] rs entries apart kept = (entries, refl, kept)
  before_lem (q ∷ before) rs entries (d, apart) (asc, free) =
      let (out, _) = out_of_reach q d in
      before_lem before rs (assign q.physical_base q.base entries) apart (
        assign-Ascending q.physical_base q.base 0 entries (omega arith) asc,
        assign-Free q.physical_base q.base _ _ entries out free,
      )

  after_lem :
      (after : List ExtendedRegion) (entries : AddressMap)
      → All (Disjoint r) after
      → Kept entries
      → Has r.physical_base r.base entries
      → Kept (address_translation after entries)
        × Has r.physical_base r.base (address_translation after entries)
  unfolding address_translation Kept
  after_lem [] entries apart kept has = (kept, has)
  after_lem (q ∷ after) entries (d, apart) (asc, free) has =
      let (out, ne) = out_of_reach q d in
      after_lem after (assign q.physical_base q.base entries) apart
        (
          assign-Ascending q.physical_base q.base 0 entries (omega arith) asc,
          assign-Free q.physical_base q.base _ _ entries out free,
        )
        (assign-keeps r.physical_base r.base q.physical_base q.base entries ne has)

translate_found :
    (address k v : ℕ) (entries : AddressMap)
    → entry_below address entries ≡ some (k, v)
    → translate entries address ≡ (v + (address - k)) % word
unfolding translate
translate_found address k v entries e = rw (translate, e) refl

-- For a region whose physical addresses no other region has, and other regions that are not empty,
-- in whatever order the regions stand, the adapter translates the physical address of each byte of
-- the region to the address of the same byte.
pub translate-address_translation :
    (before : List ExtendedRegion) (r : ExtendedRegion) (after : List ExtendedRegion) (offset : ℕ)
    → All (Disjoint r) before
    → All (Disjoint r) after
    → offset < r.size
    → translate (address_translation (before ++ (r ∷ after)) []) (r.physical_base + offset)
      ≡ (r.base + offset) % word
unfolding address_translation Kept
translate-address_translation before r after offset apart apart' inside =
    let (entries, runs, (asc, free)) =
      before_lem r offset inside before (r ∷ after) [] apart (tt, tt) in
    let (kept, has) =
      after_lem r offset inside after (assign r.physical_base r.base entries) apart'
        (
          assign-Ascending r.physical_base r.base 0 entries (omega arith) asc,
          assign-Free r.physical_base r.base _ _ entries (inl (omega arith)) free,
        )
        (assign-Has r.physical_base r.base entries) in
    let found =
      entry_below_lem r.physical_base r.base (r.physical_base + offset) 0 _ kept.0 has (omega arith)
        kept.1 in
    let distance : r.physical_base + offset - r.physical_base ≡ offset = omega arith in
    ap (λ m. translate m (r.physical_base + offset)) runs
    ∙ translate_found (r.physical_base + offset) r.physical_base r.base _ found
    ∙ ap (λ d. (r.base + d) % word) distance
