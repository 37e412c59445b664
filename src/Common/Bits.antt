-- ===== src/Common/Bits.antt =====
-- Bits of machine words: <bit> and powers of two.
use Prim.Native.Nat.{ℕ, zero, suc, ◌+◌, ◌*◌, ◌/◌, ◌%◌, ◌^◌, ◌≤◌, ◌<◌, ◌-◌, bit_and}
use mathlib.Core.Path.{◌≡◌, ap, ◌∙◌, refl}
use mathlib.Core.Bool.{Bool, true, false, ◌&&◌}
use native.Mathlib.Nat.{
  pow-suc, pow-le-pow_right, mod-lt, div-add-mod, mul-add-mod_self_left, mod-eq_of_lt,
}
use native.Mathlib.Omega.{arith}
use mathlib.Core.Option.{Option, none, some}
use cache_hound.Common.Tests.{◌==◌, ltb, lt→ltb, word, if◌then◌else◌}

-- `1 << n` on `int`, as a `std::size_t`: 1 at the sign bit is extended to the upper half of the word,
-- and from 32 on the shift is undefined.
unfoldable pub int_shift : ℕ → Option ℕ
int_shift n = if ltb n 31 then some (2 ^ n) else if n == 31 then some (word - 2 ^ 31) else none

pub int_shift_lem : (n : ℕ) → n < 31 → int_shift n ≡ some (2 ^ n)
unfolding int_shift
int_shift_lem n h = rw (lt→ltb n 31 h) refl

abbrev pub bit_to_ℕ : Bool → ℕ
bit_to_ℕ true = 1
bit_to_ℕ false = 0

-- `std::countr_zero` of a word with `n` bits left.
unfoldable pub trailing_zeros : ℕ → ℕ → ℕ
trailing_zeros zero x = 0
trailing_zeros (suc n) x = elim (x % 2 == 1) [ true ↦ 0 | false ↦ suc (trailing_zeros n (x / 2)) ]

unfoldable pub countr_zero : ℕ → ℕ
unfolding trailing_zeros
countr_zero x = trailing_zeros 64 x

pub mul-le : (a b c : ℕ) → a ≤ b → a * c ≤ b * c
mul-le a b c h = grind arith

pub pow-double : (n : ℕ) → 2 ^ suc n ≡ 2 ^ n + 2 ^ n
pow-double n = omega (arith, pow-suc 2 n)

pub pow-pos : (n : ℕ) → 0 < 2 ^ n
pow-pos zero = omega arith
pow-pos (suc n) = omega (arith, pow-double n, pow-pos n)

pub pow-le : (k n : ℕ) → k ≤ n → 2 ^ k ≤ 2 ^ n
pow-le k n h = pow-le-pow_right {n = 2} (omega arith) h

-- The lowest `n + 1` bits are bit `n` above the lowest `n`.
pub mod-pow-suc : (x n : ℕ) → x % 2 ^ suc n ≡ (x / 2 ^ n) % 2 * 2 ^ n + x % 2 ^ n
mod-pow-suc x n =
    let q : ℕ = x / 2 ^ n in
    let low : x % 2 ^ n < 2 ^ n = mod-lt x (pow-pos n) in
    let whole : 2 ^ n * (x / 2 ^ n) + x % 2 ^ n ≡ x = div-add-mod x (2 ^ n) in
    let parts : q ≡ 2 * (q / 2) + q % 2 = omega arith in
    let split : x ≡ 2 ^ suc n * (q / 2) + (q % 2 * 2 ^ n + x % 2 ^ n) =
      omega (arith, whole, ap (λ t. 2 ^ n * t) parts, ap (λ t. t * (q / 2)) (pow-double n)) in
    let small : q % 2 * 2 ^ n + x % 2 ^ n < 2 ^ suc n =
      omega (arith, low, pow-double n, mul-le (q % 2) 1 (2 ^ n) (omega arith)) in
    ap (λ t. t % 2 ^ suc n) split
    ∙ mul-add-mod_self_left (2 ^ suc n) (q / 2) (q % 2 * 2 ^ n + x % 2 ^ n)
    ∙ mod-eq_of_lt small

powers_table : ℕ → Bool
powers_table zero = true
powers_table (suc n) =
    (bit_and (2 ^ n) (2 ^ n - 1) == 0) && (countr_zero (2 ^ n) == n) && powers_table n

powers_table_sound :
    (m n : ℕ)
    → powers_table m ≡ true
    → n < m
    → (bit_and (2 ^ n) (2 ^ n - 1) ≡ 0) × (countr_zero (2 ^ n) ≡ n)
unfolding powers_table
powers_table_sound zero n t h = absurd (omega arith)
powers_table_sound (suc m) n t h = ground (arith, powers_table_sound m n)

powers_table_word : powers_table 64 ≡ true
unfolding powers_table countr_zero
powers_table_word = refl

-- The powers of two that a word holds have one bit, at their exponent.
pub power_of_two_lem :
    (n : ℕ) → n < 64 → (bit_and (2 ^ n) (2 ^ n - 1) ≡ 0) × (countr_zero (2 ^ n) ≡ n)
power_of_two_lem n h = powers_table_sound 64 n powers_table_word h
