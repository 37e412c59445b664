-- ===== src/Eviction/Groups/Masks.antt =====
-- The masks that the search goes through, and where the one stands that it ends at.
use native.Mathlib.Nat.{div-add-mod', mod-lt, mul-add-mod_self_left, le-div_iff_mul-le}
use cache_hound.Common.{
  ℕ, zero, suc, ◌+◌, ◌-◌, ◌*◌, ◌/◌, ◌%◌, ◌<◌, ◌≤◌, ◌≡◌, refl, ap, sym, ◌∙◌, le→leb, Bool, true,
  false, List, ◌++◌, some, length, take, drop, arith, Bool-cases, inl, inr, ◌⊎◌, word, mul-le,
}
use cache_hound.Eviction.{Answers}
use cache_hound.Eviction.Groups.{Mask, try_groups, try_masks}

div-positive : (n d : ℕ) → 0 < d → d ≤ n → 0 < n / d
div-positive n d pos le = (le-div_iff_mul-le pos).1 (omega (arith, le))

mul-split : (a b m g : ℕ) → a + b ≡ g → m * g ≡ a * m + b * m
mul-split a b m g h = grind arith

mul-suc : (a m : ℕ) → a * (m + 1) ≡ a * m + a
mul-suc a m = grind arith

last_or_more : (n g e left size : ℕ) → e + n * g + left ≡ size → (e + g ≤ size) ⊎ (e + left ≡ size)
last_or_more zero g e left size h = inr (omega (arith, h))
last_or_more (suc n) g e left size h =
    let product : suc n * g ≡ n * g + g = grind arith in inl (omega (arith, h, product))

-- The sizes of the groups: `uncovered` addresses at the end belong to none.
pub record Sizes (n groups : ℕ) : Type 0 where
  pub some_member : 0 < n / groups
  pub fewer : n % (n / groups) < groups
  pub uncovered : ℕ
  pub total :
      n % (n / groups) * (n / groups + 1) + ((groups - n % (n / groups)) * (n / groups) + uncovered)
      ≡ n
  pub whole : (uncovered ≡ 0) ⊎ (n / groups ≤ uncovered)

-- No quotient, or the product is at least one divisor.
multiple_cases : (q m : ℕ) → (q * m ≡ 0) ⊎ (m ≤ q * m)
multiple_cases zero m = inl (grind arith)
multiple_cases (suc q) m = inr (omega (arith, mul-le 1 (suc q) m (omega arith)))

pub sizes_lem : (n groups : ℕ) → 0 < groups → groups ≤ n → Sizes n groups
sizes_lem n groups pos le =
    let m : ℕ = n / groups in
    let r : ℕ = n % groups in
    let whole : m * groups + r ≡ n = div-add-mod' n groups in
    let positive : 0 < m = (div-positive n groups pos le) in
    let small : r < groups = mod-lt n pos in
    let extra : n % m ≡ r % m = ap (λ k. k % m) (sym whole) ∙ mul-add-mod_self_left m groups r in
    let rest : r / m * m + r % m ≡ r = div-add-mod' r m in
    record {
      some_member = positive;
      fewer = omega (arith, extra, rest, small);
      uncovered = r / m * m;
      total =
          ap (λ e. e * (m + 1) + ((groups - e) * m + r / m * m)) extra
          ∙ omega (
            arith,
            rest,
            whole,
            small,
            mul-split (r % m) (groups - r % m) m groups (omega (arith, rest, small)),
            mul-suc (r % m) m,
          );
      whole = multiple_cases (r / m) m;
    }

module _ {M : Type 0} (is_eviction_set : List ℕ → M → Bool × M) (evicts : List ℕ → Bool)
    (t : Answers is_eviction_set evicts) where
  -- Where a search over `counter` groups ends, before `left` more addresses.
  pub record Ending (evset : List ℕ) (group_size left start counter : ℕ) (mask : Mask)
      : Type 0 where
    pub width : mask.mask_end ≡ mask.mask_begin + group_size
    pub result :
        ((mask.found ≡ false) × (mask.mask_begin ≡ start + counter * group_size))
        ⊎ ((mask.found ≡ true)
            × (((mask.mask_end + group_size ≤ length evset) ⊎ (mask.mask_end + left ≡ length evset))
                × (evicts (take mask.mask_begin evset ++ drop mask.mask_end evset) ≡ true)))

  try_groups_lem :
      (evset : List ℕ) (group_size left counter mask_begin mask_end : ℕ) (memory : M)
      → mask_end ≡ mask_begin + group_size
      → mask_begin + counter * group_size + left ≡ length evset
      → (mask : Mask) × (memory' : M) × (try_groups is_eviction_set evset group_size counter
            mask_begin mask_end memory
          ≡ some (mask, memory'))
        × Ending evset group_size left mask_begin counter mask
  unfolding try_groups
  try_groups_lem evset g left zero b e memory width room = (
    record { found = false; mask_begin = b; mask_end = e },
    memory,
    refl,
    record { width = width; result = inl (refl, omega arith) },
  )
  try_groups_lem evset g left (suc n) b e memory width room =
      let product : suc n * g ≡ n * g + g = grind arith in
      let inside : e ≤ length evset = omega (arith, width, room, product) in
      let kept : List ℕ = take b evset ++ drop e evset in
      elim (Bool-cases (evicts kept)) [
        | inl yes_evicts ↦ (
          record { found = true; mask_begin = b; mask_end = e },
          (is_eviction_set kept memory).1,
          rw (t.answers kept memory, le→leb _ _ inside, yes_evicts) refl,
          record {
            width = width;
            result = inr (
              refl,
              (
                last_or_more n g e left (length evset) (omega (arith, room, product, width)),
                yes_evicts,
              ),
            );
          },
        )
        | inr no_evicts ↦
            let (mask, memory', run, ending) =
              try_groups_lem evset g left n (b + g) (e + g) ((is_eviction_set kept memory).1)
                (omega (arith, width)) (omega (arith, room, product)) in
            (
              mask,
              memory',
              rw (t.answers kept memory, le→leb _ _ inside, no_evicts) run,
              record {
                width = ending.width;
                result = elim ending.result [
                  | inl (missing, at) ↦ inl (missing, omega (arith, at, product))
                  | inr found ↦ inr found
                ];
              },
            )
      ]

  -- The mask found covers the end, or leaves at least as many addresses as are stripped after it.
  pub record Found (evset : List ℕ) (size : ℕ) (mask : Mask) : Type 0 where
    pub place :
        ((mask.mask_end ≡ length evset) × (mask.mask_begin + size ≡ mask.mask_end))
        ⊎ ((mask.mask_begin + size ≤ mask.mask_end) × (mask.mask_end + size ≤ length evset))
    pub evicting : evicts (take mask.mask_begin evset ++ drop mask.mask_end evset) ≡ true

  larger :
      (evset : List ℕ) (size left start counter : ℕ) (mask : Mask)
      → Ending evset (size + 1) left start counter mask
      → mask.found ≡ true
      → size ≤ left
      → Found evset size mask
  larger evset size left start counter mask ending found enough = elim ending.result [
    | inl (missing, at) ↦ absurd (ground (arith, found, missing))
    | inr (yes_found, (at, evicting)) ↦ record {
      place = inr (
        omega (arith, ending.width),
        elim at [ inl more ↦ omega (arith, more) | inr exact ↦ omega (arith, exact, enough) ],
      );
      evicting = evicting;
    }
  ]

  smaller :
      (evset : List ℕ) (size left start counter : ℕ) (mask : Mask)
      → Ending evset size left start counter mask
      → mask.found ≡ true
      → (left ≡ 0) ⊎ (size ≤ left)
      → Found evset size mask
  smaller evset size left start counter mask ending found cases = elim ending.result [
    | inl (missing, at) ↦ absurd (ground (arith, found, missing))
    | inr (yes_found, (at, evicting)) ↦ record {
      place = elim at [
        | inl more ↦ inr (omega (arith, ending.width), more)
        | inr exact ↦ elim cases [
          | inl nothing ↦ inl (omega (arith, exact, nothing), sym ending.width)
          | inr enough ↦ inr (omega (arith, ending.width), omega (arith, exact, enough))
        ]
      ];
      evicting = evicting;
    }
  ]

  pub try_masks_lem :
      (evset : List ℕ) (groups : ℕ) (memory : M)
      → 0 < groups
      → groups < word
      → groups ≤ length evset
      → (mask : Mask) × (memory' : M) × (try_masks is_eviction_set evset groups
            (length evset)
            memory
          ≡ some (mask, memory'))
        × ((mask.found ≡ false) ⊎ ((mask.found ≡ true) × Found evset (length evset / groups) mask))
  unfolding try_masks
  try_masks_lem evset groups memory pos fits le =
      let n : ℕ = length evset in
      let m : ℕ = n / groups in
      let e : ℕ = n % m in
      let w : ℕ = groups - e in
      let z = sizes_lem n groups pos le in
      let plain : (word + groups - e) % word ≡ w = omega (arith, z.fewer, fits) in
      let one_more : m ≤ w * m = omega (arith, mul-le 1 w m (omega (arith, z.fewer))) in
      let (mask1, memory1, run1, ending1) =
        try_groups_lem evset (m + 1) (w * m + z.uncovered) e 0 (m + 1) memory (omega arith)
          (omega (arith, z.total)) in
      elim ending1.result [
        | inr (found1, more1) ↦ (
          mask1,
          memory1,
          rw (run1, found1) refl,
          inr (
            found1,
            larger evset m (w * m + z.uncovered) 0 e mask1 ending1 found1 (omega (arith, one_more)),
          ),
        )
        | inl (missing1, at1) ↦
            let (mask2, memory2, run2, ending2) =
              try_groups_lem evset m z.uncovered w mask1.mask_begin (mask1.mask_end - 1) memory1
                (omega (arith, ending1.width)) (omega (arith, z.total, at1)) in
            (
              mask2,
              memory2,
              rw (run1, missing1)
                  (ap
                      (λ k.
                        try_groups is_eviction_set evset m k mask1.mask_begin (mask1.mask_end - 1)
                          memory1)
                      plain
                    ∙ run2),
              elim (Bool-cases mask2.found) [
                | inl found2 ↦ inr (
                  found2,
                  smaller evset m z.uncovered mask1.mask_begin w mask2 ending2 found2 z.whole,
                )
                | inr missing2 ↦ inl missing2
              ],
            )
      ]
