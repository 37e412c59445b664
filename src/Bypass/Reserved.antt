-- ===== src/Bypass/Reserved.antt =====
-- What the constructor leaves to its user, and what it keeps for the eviction sets.
use cache_hound.Common.{
  ℕ, ◌+◌, ◌-◌, ◌%◌, ◌<◌, ◌≤◌, ◌≡◌, ◌⊎◌, sym, subst, inl, inr, List, [], some, get_elem?, arith, All,
  word, dec_lt, lt→ltb, le→ltb,
}
use cache_hound.KernelMemory.{ExtendedRegion}
use cache_hound.Bypass.{BypassAdapter, leave_space}
use cache_hound.Bypass.Held.{In, Outside, Held, Held-map, All-map}

-- No address of an eviction set lies in the region.
abbrev pub Clear : List (List ℕ) → ExtendedRegion → Type 0
Clear evsets r = (i : ℕ) (evset : List ℕ) → get_elem? evsets i ≡ some evset → All (Outside r) evset

-- The steps from the addresses of the region stay below 2 ^ 64.
abbrev pub Fits : ℕ → ExtendedRegion → Type 0
Fits increment r = r.base + r.size + increment ≤ word

module _ (placement_policy : ℕ → ℕ) (ways sets increment : ℕ) (small : sets < word)
    (step : 0 < increment) (placed : (a : ℕ) → placement_policy a < sets) where
  abbrev HeldBy : (ℕ → Type 0) → BypassAdapter → Type 0
  HeldBy D st = Held placement_policy ways sets small D st

  -- The regions that are left, all of them after the sets are full.
  pub record Left (st : BypassAdapter) : Type 0 where
    pub clear : All (Clear st.evsets) st.regions
    pub last : (st.regions ≡ []) ⊎ (st.found_evsets ≡ sets)

  pub Held-Clear :
      {D : ℕ → Type 0} (st : BypassAdapter) (q : ExtendedRegion)
      → HeldBy D st
      → ((a : ℕ) → D a → Outside q a)
      → Clear st.evsets q
  Held-Clear st q h out i evset e = All-map evset (λ a (_, d). out a d) (h.holds i evset e)

  module _ (r : ExtendedRegion) (fits : Fits increment r) (D : ℕ → Type 0)
      (apart : (a : ℕ) → D a → Outside r a) where
    abbrev pub Progress : ℕ → ℕ → Type 0
    Progress address a = D a ⊎ (In r a × (a < address))

    pub leave_space-Left :
        (next : ℕ) (st : BypassAdapter)
        → r.base ≤ next
        → HeldBy (Progress next) st
        → st.regions ≡ []
        → st.found_evsets ≡ sets
        → HeldBy
            (λ a. D a ⊎ In r a)
            (leave_space placement_policy ways sets increment r next (r.base + r.size) st)
          × Left (leave_space placement_policy ways sets increment r next (r.base + r.size) st)
    unfolding leave_space
    leave_space-Left next st above h none_left done = elim (dec_lt next (r.base + r.size)) [
      | no out ↦ rw (le→ltb next (r.base + r.size) (omega (arith, out))) (
        Held-map placement_policy ways sets small st
            (λ a p. elim p [ inl d ↦ inl d | inr (i, _) ↦ inr i ]) h,
        record { clear = subst (All (Clear st.evsets)) (sym none_left) tt; last = inl none_left },
      )
      | yes inside ↦
          let distance : (next + word - r.base) % word ≡ next - r.base =
            omega (arith, above, inside, fits) in
          let rest : (r.size + word - (next - r.base)) % word ≡ r.size - (next - r.base) =
            omega (arith, above, inside, fits) in
          let q : ExtendedRegion = record {
            base = next;
            physical_base = (r.physical_base + (next - r.base)) % word;
            size = r.size - (next - r.base);
          } in
          rw (lt→ltb next (r.base + r.size) inside, distance, rest, none_left)
            (
              record {
                count = h.count;
                found = h.found;
                fits = h.fits;
                holds = λ i evset e.
                    All-map evset (λ a (p, d). (p, elim d [ inl d ↦ inl d | inr (i, _) ↦ inr i ]))
                      (h.holds i evset e);
              },
              record {
                clear = (
                  Held-Clear st q h (λ a p. elim p [
                    | inl d ↦ elim (apart a d) [
                      | inl lt ↦ inl (omega (arith, lt, above))
                      | inr ge ↦ inr (omega (arith, ge, above, inside))
                    ]
                    | inr (_, lt) ↦ inl lt
                  ]),
                  tt,
                );
                last = inr done;
              },
            )
    ]
