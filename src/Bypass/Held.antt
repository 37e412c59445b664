-- ===== src/Bypass/Held.antt =====
-- What the eviction sets hold while the constructor fills them.
use cache_hound.Common.{
  ℕ, ◌+◌, ◌%◌, ◌<◌, ◌≤◌, ◌≡◌, refl, sym, ap, ◌∙◌, subst, ◌⊎◌, inl, inr, List, [], ◌∷◌, ◌++◌, some,
  length, get_elem?, set, arith, All, All-append, word, write_lem, lt_of_get_elem?, length-set,
  length-append, get_elem?-set_cases,
}
use cache_hound.KernelMemory.{ExtendedRegion}
use cache_hound.Bypass.{BypassAdapter, emplace_back}
use cache_hound.Bypass.Full.{full, full_sets, full_sets-length, full_sets-set, full_of_lt}

pub record In (r : ExtendedRegion) (a : ℕ) : Type 0 where
  pub above : r.base ≤ a
  pub below : a < r.base + r.size

abbrev pub Outside : ExtendedRegion → ℕ → Type 0
Outside r a = (a < r.base) ⊎ (r.base + r.size ≤ a)

pub All-map : {P Q : ℕ → Type 0} (xs : List ℕ) → ((a : ℕ) → P a → Q a) → All P xs → All Q xs
All-map [] f h = tt
All-map (x ∷ xs) f (p, h) = (f x p, All-map xs f h)

module _ (placement_policy : ℕ → ℕ) (ways sets : ℕ) (small : sets < word) where
  -- Each address has the property and belongs where it stands.
  pub record Held (D : ℕ → Type 0) (st : BypassAdapter) : Type 0 where
    pub count : length st.evsets ≡ sets
    pub found : st.found_evsets ≡ full_sets ways st.evsets
    pub fits : (i : ℕ) (evset : List ℕ) → get_elem? st.evsets i ≡ some evset → length evset ≤ ways
    pub holds :
        (i : ℕ) (evset : List ℕ)
        → get_elem? st.evsets i ≡ some evset
        → All (λ a. (placement_policy a ≡ i) × D a) evset

  pub Held-map :
      {D E : ℕ → Type 0} (st : BypassAdapter) → ((a : ℕ) → D a → E a) → Held D st → Held E st
  Held-map st f h = record {
    count = h.count;
    found = h.found;
    fits = h.fits;
    holds = λ i evset e. All-map evset (λ a (p, d). (p, f a d)) (h.holds i evset e);
  }

  pub found_bound : {D : ℕ → Type 0} (st : BypassAdapter) → Held D st → st.found_evsets ≤ sets
  found_bound st h = omega (arith, h.found, h.count, full_sets-length ways st.evsets)

  pub emplace_back_lem :
      {D : ℕ → Type 0} (increment : ℕ) (evset : List ℕ) (address : ℕ) (st : BypassAdapter)
      → Held D st
      → D address
      → get_elem? st.evsets (placement_policy address) ≡ some evset
      → length evset < ways
      → (st' : BypassAdapter) × (emplace_back placement_policy ways sets increment
            (placement_policy address)
            evset
            address
            st
          ≡ some st')
        × Held D st'
        × (st'.regions ≡ st.regions)
  unfolding emplace_back
  emplace_back_lem {D = D} increment evset address st h d e room =
      let i = placement_policy address in
      let new = evset ++ (address ∷ []) in
      let counted = full_sets-set ways st.evsets i evset new e in
      let before = full_of_lt ways evset room in
      let bound = full_sets-length ways (set st.evsets i new) in
      let same_length = length-set st.evsets i new in
      let total : (st.found_evsets + full ways new) % word ≡ full_sets ways (set st.evsets i new) =
        omega (arith, counted, before, bound, same_length, h.count, h.found, small) in
      (
        record {
          evsets = set st.evsets i new;
          found_evsets = (st.found_evsets + full ways new) % word;
          regions = st.regions;
        },
        rw (write_lem st.evsets i new (lt_of_get_elem? st.evsets i e)) refl,
        record {
          count = same_length ∙ h.count;
          found = total;
          fits = λ j held at. elim (get_elem?-set_cases st.evsets i j new held at) [
            | inl (_, is_new) ↦
                omega (arith, ap length is_new, length-append evset (address ∷ []), room)
            | inr (_, old) ↦ h.fits j held old
          ];
          holds = λ j held at. elim (get_elem?-set_cases st.evsets i j new held at) [
            | inl (here, is_new) ↦
                subst (λ l. All (λ a. (placement_policy a ≡ j) × D a) l) (sym is_new)
                  (subst (λ k. All (λ a. (placement_policy a ≡ k) × D a) new) here
                    (All-append _ evset (address ∷ []) (h.holds i evset e) ((refl, d), tt)))
            | inr (_, old) ↦ h.holds j held old
          ];
        },
        refl,
      )
