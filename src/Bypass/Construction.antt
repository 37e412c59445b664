-- ===== src/Bypass/Construction.antt =====
-- The regions and the eviction sets that the constructor leaves.
use cache_hound.Common.{
  ℕ, ◌+◌, ◌^◌, ◌<◌, ◌≤◌, ◌≡◌, ◌⊎◌, refl, sym, ap, ◌∙◌, subst, inl, inr, List, [], ◌∷◌, some, length,
  get_elem?, arith, All, word, lt→ltb, replicate, value_of_replicate, length-replicate, pow-le,
  pow-pos,
}
use cache_hound.KernelMemory.{ExtendedRegion}
use cache_hound.Bypass.{BypassAdapter, take_regions, bypass_adapter}
use cache_hound.Bypass.Full.{full_sets-replicate, length_of_full}
use cache_hound.Bypass.Held.{In, Outside, Held, Held-map, All-map}
use cache_hound.Bypass.Reserved.{Clear, Fits, Left}
use cache_hound.Bypass.Collecting.{take_region_lem}

-- Some region of the list holds the address.
abbrev pub Within : List ExtendedRegion → ℕ → Type 0
Within [] a = ⊥
Within (r ∷ rs) a = In r a ⊎ Within rs a

-- Two regions without a common address.
abbrev pub Apart : ExtendedRegion → ExtendedRegion → Type 0
Apart r q = (r.base + r.size ≤ q.base) ⊎ (q.base + q.size ≤ r.base)

abbrev pub Pairwise : List ExtendedRegion → Type 0
Pairwise [] = Unit
Pairwise (r ∷ rs) = All (Apart r) rs × Pairwise rs

-- An eviction set is never too large, and its addresses belong to its set and to the regions. No
-- region that is left holds one of them, and if one is left every eviction set is complete.
pub record Reserved (placement_policy : ℕ → ℕ) (ways : ℕ) (regions : List ExtendedRegion)
    (st : BypassAdapter) : Type 0 where
  pub fits : (i : ℕ) (evset : List ℕ) → get_elem? st.evsets i ≡ some evset → length evset ≤ ways
  pub holds :
      (i : ℕ) (evset : List ℕ)
      → get_elem? st.evsets i ≡ some evset
      → All (λ a. (placement_policy a ≡ i) × Within regions a) evset
  pub clear : All (Clear st.evsets) st.regions
  pub complete :
      (st.regions ≡ [])
      ⊎ ((i : ℕ) (evset : List ℕ) → get_elem? st.evsets i ≡ some evset → length evset ≡ ways)

extend :
    (D : ℕ → Type 0) (r : ExtendedRegion) (rs : List ExtendedRegion)
    → All (λ q. (a : ℕ) → D a → Outside q a) rs
    → All (Apart r) rs
    → All (λ q. (a : ℕ) → D a ⊎ In r a → Outside q a) rs
extend D r [] out apart = tt
extend D r (q ∷ rs) (out, outs) (apart, aparts) = (
  (λ a d. elim d [
    | inl old ↦ out a old
    | inr i ↦ elim apart [
      | inl before ↦ inl (omega (arith, before, i.below))
      | inr after ↦ inr (omega (arith, after, i.above))
    ]
  ]),
  extend D r rs outs aparts,
)

module _ (placement_policy : ℕ → ℕ) (ways sets increment : ℕ) (small : sets < word)
    (step : 0 < increment) (placed : (a : ℕ) → placement_policy a < sets) where
  take_regions_lem :
      (rs : List ExtendedRegion) (D : ℕ → Type 0) (st : BypassAdapter)
      → All (Fits increment) rs
      → All (λ q. (a : ℕ) → D a → Outside q a) rs
      → Pairwise rs
      → Held placement_policy ways sets small D st
      → Left placement_policy ways sets increment small step placed st
      → (st' : BypassAdapter) × (take_regions placement_policy ways sets increment rs st ≡ some st')
        × Held placement_policy ways sets small (λ a. D a ⊎ Within rs a) st'
        × Left placement_policy ways sets increment small step placed st'
  unfolding take_regions
  take_regions_lem [] D st fits out pairs h left =
      (st, refl, Held-map placement_policy ways sets small st (λ a d. inl d) h, left)
  take_regions_lem (r ∷ rs) D st (fit, fits) (out, outs) (apart, pairs) h left =
      let (st1, taken, h1, left1) =
        take_region_lem placement_policy ways sets increment small step placed r fit D out st h
          left in
      let (st2, runs, h2, left2) =
        take_regions_lem rs (λ a. D a ⊎ In r a) st1 fits (extend D r rs outs apart) pairs h1
          left1 in
      (
        st2,
        rw taken runs,
        Held-map placement_policy ways sets small st2
            (λ a d. elim d [
              | inl (inl old) ↦ inl old
              | inl (inr i) ↦ inr (inl i)
              | inr w ↦ inr (inr w)
            ])
            h2,
        left2,
      )

nothing_held : (rs : List ExtendedRegion) → All (λ q. (a : ℕ) → ⊥ → Outside q a) rs
nothing_held [] = tt
nothing_held (r ∷ rs) = ((λ a z. absurd z), nothing_held rs)

-- For at least one way, at most 30 index bits and offset bits, a placement policy below the number
-- of sets, and regions that have no address in common and end a step below 2 ^ 64, the constructor
-- ends without a fault. Every eviction set then has at most as many addresses as there are ways,
-- all of them of this set and of the regions; no region that is left holds one of them; and if a
-- region is left, every eviction set has as many addresses as there are ways.
pub bypass_adapter-Reserved :
    (placement_policy : ℕ → ℕ) (ways index_bits offset_bits : ℕ) (regions : List ExtendedRegion)
    → 0 < ways
    → index_bits < 31
    → offset_bits < 31
    → ((a : ℕ) → placement_policy a < 2 ^ index_bits)
    → All (Fits (2 ^ offset_bits)) regions
    → Pairwise regions
    → (st : BypassAdapter) × (bypass_adapter placement_policy ways index_bits offset_bits regions
        ≡ some st)
      × (length st.evsets ≡ 2 ^ index_bits)
      × Reserved placement_policy ways regions st
unfolding bypass_adapter
bypass_adapter-Reserved placement_policy ways index_bits offset_bits regions some_way bits offset
      placed fits pairs =
    let sets = 2 ^ index_bits in
    let small : sets < word = omega (arith, pow-le index_bits 30 (omega arith)) in
    let step : 0 < 2 ^ offset_bits = pow-pos offset_bits in
    let fresh : Held placement_policy ways sets small (λ a. ⊥)
        (record { evsets = replicate sets []; found_evsets = 0; regions = [] }) =
      record {
        count = length-replicate sets [];
        found = sym (full_sets-replicate ways sets some_way);
        fits = λ i evset e. omega (arith, ap length (value_of_replicate sets i [] evset e));
        holds = λ i evset e. subst (All _) (sym (value_of_replicate sets i [] evset e)) tt;
      } in
    let (st, runs, h, left) =
      take_regions_lem placement_policy ways sets (2 ^ offset_bits) small step placed regions
        (λ a. ⊥) _ fits (nothing_held regions) pairs fresh
        (record { clear = tt; last = inl refl }) in
    (
      st,
      rw (lt→ltb index_bits 31 bits, lt→ltb offset_bits 31 offset) runs,
      h.count,
      record {
        fits = h.fits;
        holds = λ i evset e.
            All-map evset (λ a (p, d). (p, elim d [ inl z ↦ absurd z | inr w ↦ w ]))
              (h.holds i evset e);
        clear = left.clear;
        complete = elim left.last [
          | inl e ↦ inl e
          | inr all ↦ inr (λ i evset e.
              length_of_full ways st.evsets i evset (sym h.found ∙ all ∙ sym h.count) e)
        ];
      },
    )
