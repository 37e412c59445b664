-- ===== src/Placement/Modular.antt =====
-- The sets of the modular placement policy.
use native.Mathlib.Nat.{mod-eq_of_lt, div-eq_of_lt, add-mul-div_right, add-mul-mod_self_right}
use cache_hound.Common.{
  ℕ, zero, suc, pow-double, ◌+◌, ◌*◌, ◌/◌, ◌%◌, ◌^◌, ◌<◌, ◌==◌, ◌≡◌, refl, ap, ◌∙◌, false, some,
  lt→ltb, arith, pow-pos, power_of_two_lem,
}
use cache_hound.Placement.{ModularPlacement, init, modular_index_bits, modular_set}

double_lem : (c a b d : ℕ) → c ≡ a * b → d ≡ b + b → c + c ≡ a * d
double_lem c a b d h k = grind arith

regroup_lem :
    (tag step set low offset high : ℕ)
    → step ≡ low * high
    → tag * step + set * low + offset ≡ offset + (set + tag * high) * low
regroup_lem tag step set low offset high h = grind arith

pow-plus : (m n : ℕ) → 2 ^ (m + n) ≡ 2 ^ m * 2 ^ n
pow-plus m zero = grind arith
pow-plus m (suc n) =
    let step : 2 ^ (m + suc n) ≡ 2 ^ (m + n) + 2 ^ (m + n) =
      ap (λ k. 2 ^ k) (omega arith) ∙ pow-double (m + n) in
    step ∙ double_lem (2 ^ (m + n)) (2 ^ m) (2 ^ n) (2 ^ suc n) (pow-plus m n) (pow-double n)

-- The bits of a composed address from `offset_bits` on.
shifted_lem :
    (tag offset high low : ℕ) {set step : ℕ}
    → step ≡ low * high
    → offset < low
    → set < high
    → 0 < high
    → (tag * step + set * low + offset) / low % high ≡ set
shifted_lem tag offset high low {set} {step} whole inside below some_set =
    let regroup : tag * step + set * low + offset ≡ offset + (set + tag * high) * low =
      regroup_lem tag step set low offset high whole in
    let line : (offset + (set + tag * high) * low) / low ≡ set + tag * high =
      add-mul-div_right offset (set + tag * high) (omega arith)
      ∙ ap (λ q. q + (set + tag * high)) (div-eq_of_lt inside)
      ∙ omega arith in
    ap (λ a. a / low % high) regroup
    ∙ ap (λ q. q % high) line
    ∙ add-mul-mod_self_right set tag high
    ∙ mod-eq_of_lt below

-- For every n and offset_bits below 64 the modular placement policy accepts 2 ^ n sets and has n
-- index bits, and an address that is composed of a tag, a set below 2 ^ n and an offset below 2 ^
-- offset_bits, each in its bits, maps to this set.
pub modular_lem :
    (offset_bits n : ℕ)
    → n < 64
    → offset_bits < 64
    → (m : ModularPlacement) × (init offset_bits (2 ^ n) ≡ some m)
      × (modular_index_bits m ≡ n)
      × ((tag set offset : ℕ)
          → set < 2 ^ n
          → offset < 2 ^ offset_bits
          → modular_set m (tag * 2 ^ (offset_bits + n) + set * 2 ^ offset_bits + offset) ≡ some set)
unfolding init modular_index_bits modular_set
modular_lem offset_bits n h shift =
    let (masked, zeros) = power_of_two_lem n h in
    let positive : (2 ^ n == 0) ≡ false = ground (arith, pow-pos n) in
    (
      record { offset_bits = offset_bits; sets = 2 ^ n },
      rw (positive, masked) refl,
      zeros,
      λ tag set offset below inside. rw (lt→ltb offset_bits 64 shift) (
          ap some (
            shifted_lem tag offset (2 ^ n) (2 ^ offset_bits) (pow-plus offset_bits n) inside below
              (pow-pos n))),
    )
