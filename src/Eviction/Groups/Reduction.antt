-- ===== src/Eviction/Groups/Reduction.antt =====
-- The reduction by groups ends, keeps an eviction set, and only rearranges the vector.
use native.Mathlib.Nat.{mod-eq_of_lt}
use cache_hound.Common.{
  ℕ, zero, suc, ◌+◌, ◌-◌, ◌/◌, ◌%◌, ◌<◌, ◌≤◌, ◌≡◌, refl, ap, ap₂, sym, ◌∙◌, subst, leb, Bool, true,
  false, List, [], ◌++◌, some, length, take, drop, arith, Bool-cases, inl, inr, ◌⊎◌, word,
  not-leb→lt, take-append-drop, length-take, append-nil, take-append,
}
use cache_hound.Eviction.{Answers}
use cache_hound.Eviction.Occurrences.{Part, Rearranged}
use cache_hound.Eviction.Groups.{Mask, strip, try_masks, reduce_groups, reduce_eviction_set}
use cache_hound.Eviction.Groups.Masks.{Found, sizes_lem, try_masks_lem}
use cache_hound.Eviction.Groups.Strip.{Stripped, strip_found}

module _ (evicts : List ℕ → Bool) where
  -- An eviction set of at most `max_size` addresses, or the first iterator.
  abbrev pub GroupReduced : ℕ → ℕ → List ℕ → Type 0
  GroupReduced max_size end ys =
      ((end ≤ max_size) × (end ≤ length ys) × (evicts (take end ys) ≡ true)) ⊎ (end ≡ 0)

  strip_mask :
      (monotone : (xs ys : List ℕ) → Part xs ys → evicts xs ≡ true → evicts ys ≡ true)
      → (xs : List ℕ) (last size : ℕ) (mask : Mask) → last ≤ length xs
      → 0 < size
      → (((mask.mask_end ≡ length (take last xs)) × (mask.mask_begin + size ≡ mask.mask_end))
          ⊎ ((mask.mask_begin + size ≤ mask.mask_end)
              × (mask.mask_end + size ≤ length (take last xs))))
      → evicts (take mask.mask_begin (take last xs) ++ drop mask.mask_end (take last xs)) ≡ true
      → (ys : List ℕ) × (last' : ℕ) × (strip last size mask xs ≡ some (ys, last'))
        × Stripped evicts xs last size ys last'
  strip_mask monotone xs last size mask le pos place h =
      let len : length (take last xs) ≡ last = length-take last xs ∙ omega (arith, le) in
      let (ys, last', run, stripped) =
        strip_found evicts monotone (take last xs) (drop last xs) size mask.mask_begin mask.mask_end
          mask.found pos (place, h) in
      let whole : take last xs ++ drop last xs ≡ xs = take-append-drop last xs in
      (
        ys,
        last',
        ap₂ (λ n l. strip n size mask l) (sym len) (sym whole) ∙ run,
        subst (λ l. Stripped evicts l last size ys last') whole
            (subst (λ n. Stripped evicts (take last xs ++ drop last xs) n size ys last') len
              stripped),
      )

module _ {M : Type 0} (is_eviction_set : List ℕ → M → Bool × M) (evicts : List ℕ → Bool)
    (t : Answers is_eviction_set evicts) where
  reduce-missing :
      (fuel max_size : ℕ) (xs : List ℕ) (last : ℕ) (memory memory1 : M) (mask : Mask)
      → leb last max_size ≡ false
      → try_masks is_eviction_set (take last xs) ((max_size + 1) % word) last memory
        ≡ some (mask, memory1)
      → mask.found ≡ false
      → reduce_groups is_eviction_set (suc fuel) max_size xs last last memory
        ≡ some (0, xs, memory1)
  unfolding reduce_groups
  reduce-missing fuel max_size xs last memory memory1 mask large search missing =
      ground (arith, large, search, missing)

  reduce-found :
      (fuel max_size : ℕ) (xs : List ℕ) (last : ℕ) (memory memory1 : M) (mask : Mask) (ys : List ℕ)
      (last' : ℕ)
      → leb last max_size ≡ false
      → try_masks is_eviction_set (take last xs) ((max_size + 1) % word) last memory
        ≡ some (mask, memory1)
      → mask.found ≡ true
      → strip last (last / ((max_size + 1) % word)) mask xs ≡ some (ys, last')
      → reduce_groups is_eviction_set (suc fuel) max_size xs last last memory
        ≡ reduce_groups is_eviction_set fuel max_size ys last'
            (last - last / ((max_size + 1) % word))
            memory1
  unfolding reduce_groups
  reduce-found fuel max_size xs last memory memory1 mask ys last' large search found stripped =
      ground (arith, large, search, found, stripped)

  reduce_groups_lem :
      (fuel max_size : ℕ) (xs : List ℕ) (last : ℕ) (memory : M)
      → max_size + 1 < word
      → last ≤ length xs
      → last < fuel
      → evicts (take last xs) ≡ true
      → (end : ℕ) × (ys : List ℕ) × (memory' : M) × (reduce_groups is_eviction_set fuel max_size xs
            last last memory
          ≡ some (end, ys, memory'))
        × Rearranged ys xs
        × GroupReduced evicts max_size end ys
  unfolding reduce_groups
  reduce_groups_lem zero max_size xs last memory fits le enough h = absurd (omega (arith, enough))
  reduce_groups_lem (suc fuel) max_size xs last memory fits le enough h =
      let groups : ℕ = max_size + 1 in
      let plain : (max_size + 1) % word ≡ groups = mod-eq_of_lt fits in
      elim (Bool-cases (leb last max_size)) [
        | inl small ↦
            (last, xs, memory, rw small refl, λ a. refl, inl (ground (arith, small), le, h))
        | inr large ↦
            let many : groups ≤ last = omega (arith, not-leb→lt _ _ large) in
            let len : length (take last xs) ≡ last = length-take last xs ∙ omega (arith, le) in
            let (mask, memory1, run, cases) =
              try_masks_lem is_eviction_set evicts t (take last xs) groups memory (omega arith) fits
                (omega (arith, len, many)) in
            let search : try_masks is_eviction_set (take last xs) ((max_size + 1) % word) last
                  memory
                ≡ some (mask, memory1) =
              ap₂ (λ g n. try_masks is_eviction_set (take last xs) g n memory) plain (sym len)
              ∙ run in
            elim cases [
              | inl missing ↦ (
                0,
                xs,
                memory1,
                reduce-missing fuel max_size xs last memory memory1 mask large search missing,
                λ a. refl,
                inr refl,
              )
              | inr (found, place) ↦
                  let sizes = sizes_lem last groups (omega arith) many in
                  let size : length (take last xs) / groups ≡ last / ((max_size + 1) % word) =
                    ap₂ (λ n g. n / g) len (sym plain) in
                  let divided : last / groups ≡ last / ((max_size + 1) % word) =
                    ap (λ g. last / g) (sym plain) in
                  let place' =
                    subst (λ n. Found is_eviction_set evicts t (take last xs) n mask) size place in
                  let (ys, last', stripping, stripped) =
                    strip_mask evicts t.monotone xs last (last / ((max_size + 1) % word)) mask le
                      (omega (arith, sizes.some_member, divided)) place'.place place'.evicting in
                  let (end, zs, memory2, run2, same2, result) =
                    reduce_groups_lem fuel max_size ys last' memory1 fits
                      (omega (arith, stripped.shorter, stripped.long))
                      (omega (arith, stripped.shorter, sizes.some_member, divided, enough))
                      stripped.kept in
                  let next : last - last / ((max_size + 1) % word) ≡ last' =
                    omega (arith, stripped.shorter) in
                  (
                    end,
                    zs,
                    memory2,
                    reduce-found fuel max_size xs last memory memory1 mask ys last' large search
                          found stripping
                        ∙ ap (λ n. reduce_groups is_eviction_set fuel max_size ys last' n memory1)
                            next
                        ∙ run2,
                    λ a. same2 a ∙ stripped.same a,
                    result,
                  )
            ]
      ]

  -- For a test that answers a property of the addresses alone, which more addresses never make
  -- false, a vector that has the property and a `max_size` whose successor fits a machine word, the
  -- reduction by groups ends without a fault and only rearranges the vector; it returns the end of
  -- at most `max_size` addresses that have the property, or the first iterator.
  pub reduce_eviction_set-GroupReduced :
      (addresses : List ℕ) (max_size : ℕ) (memory : M)
      → max_size + 1 < word
      → evicts addresses ≡ true
      → (end : ℕ) × (ys : List ℕ) × (memory' : M) × (reduce_eviction_set is_eviction_set addresses
            max_size memory
          ≡ some (end, ys, memory'))
        × Rearranged ys addresses
        × GroupReduced evicts max_size end ys
  unfolding reduce_eviction_set
  reduce_eviction_set-GroupReduced addresses max_size memory fits h =
      let whole : take (length addresses) addresses ≡ addresses =
        ap (take (length addresses)) (sym (append-nil addresses)) ∙ take-append addresses [] in
      reduce_groups_lem (length addresses + 1) max_size addresses (length addresses) memory fits
        (omega arith) (omega arith) (ap evicts whole ∙ h)
