-- ===== src/KernelMemory/SetWay.antt =====
-- The operations by set and way of lib/include/cachehound/backends/impl/kernel_memory.ipp on ARMv8,
-- and the agent that decodes them.
pub mod Decoding
use Prim.Native.Nat.{bit_or, bit_and}
use cache_hound.Common.{
  ℕ, zero, suc, ◌+◌, ◌-◌, ◌*◌, ◌/◌, ◌%◌, ◌^◌, ◌==◌, ltb, leb, Bool, true, false, not, ◌||◌, List,
  Option, none, some, get_elem?, check, if◌then◌else◌, ◌>>=◌, ◌>>◌, countr_zero, bit_to_ℕ,
}
use cache_hound.Agent.{AgentCode}
use cache_hound.KernelMemory.{
  KernelMemory, System, Stats, internal_access, flush, count_stat, incremented,
}

-- `std::bit_ceil`, with `n` doublings left.
unfoldable pub bit_ceil_from : ℕ → ℕ → ℕ → ℕ
bit_ceil_from zero p x = p
bit_ceil_from (suc n) p x = let rest = bit_ceil_from n (p * 2) x in if leb x p then p else rest

abbrev pub bit_ceil : ℕ → ℕ
bit_ceil x = bit_ceil_from 64 1 x

-- A power of two from the other numbers of sets: all bits below the highest are set, and 1 added.
unfoldable pub round_up : ℕ → ℕ
round_up sets =
    let s0 = sets - 1 in
    let s1 = bit_or s0 (s0 / 2 ^ 1) in
    let s2 = bit_or s1 (s1 / 2 ^ 2) in
    let s4 = bit_or s2 (s2 / 2 ^ 4) in
    let s8 = bit_or s4 (s4 / 2 ^ 8) in let s16 = bit_or s8 (s8 / 2 ^ 16) in (s16 + 1) % 2 ^ 32

unfoldable pub index_bits : KernelMemory → ℕ → Option ℕ
index_bits k level = do
  check (ltb level 3)
  sets ← get_elem? k.cache_info.sets level
  check (not (sets == 0))
  some (countr_zero (if bit_and sets (sets - 1) == 0 then sets else round_up sets))

abbrev pub ways : KernelMemory → ℕ → Option ℕ
ways k level = check (ltb level 3) >> get_elem? k.cache_info.ways level

-- The lower half of the word of `internal_cisw`: a shift of 32 bits by 32 is undefined.
unfoldable pub set_way_fields : KernelMemory → ℕ → ℕ → ℕ → Option ℕ
set_way_fields k level set way = do
  associativity ← ways k level
  let way_bits = countr_zero (bit_ceil associativity)
  check (ltb 0 way_bits)
  check (ltb k.cache_info.offset_bits 32)
  let of_level = level * 2 % 2 ^ 32
  let of_way = way % 2 ^ 32 * 2 ^ (32 - way_bits) % 2 ^ 32
  let of_set = set % 2 ^ 32 * 2 ^ k.cache_info.offset_bits % 2 ^ 32
  some (bit_or (bit_or of_level of_way) of_set)

-- The fields have 32 bits, and the two upper bits are above them, so that `|=` adds these.
abbrev pub tagged : Bool → Bool → ℕ → ℕ
tagged clean invalidate fields =
    fields % 2 ^ 32 + bit_to_ℕ (not clean) * 2 ^ 63 + bit_to_ℕ (not invalidate) * 2 ^ 62

unfoldable pub set_way_word : KernelMemory → Bool → Bool → ℕ → ℕ → ℕ → Option ℕ
set_way_word k clean invalidate level set way =
    check (clean || invalidate)
    >> (check (ltb level k.cache_info.levels)
        >> (set_way_fields k level set way >>= λ fields. some (tagged clean invalidate fields)))

module _ {M : Type 0} (code : AgentCode M) where
  unfoldable pub internal_cisw : Bool → Bool → ℕ → ℕ → ℕ → System M → Option (System M)
  internal_cisw clean invalidate level set way s = do
    x ← set_way_word s.memory clean invalidate level set way
    internal_access code x s

  unfoldable pub csw : ℕ → ℕ → ℕ → System M → Option (System M)
  csw level set way s = do
    s' ← internal_cisw true false level set way s
    some (count_stat (λ t. record t { csws = incremented t.csws }) s')

  unfoldable pub isw : ℕ → ℕ → ℕ → System M → Option (System M)
  isw level set way s = do
    s' ← internal_cisw false true level set way s
    some (count_stat (λ t. record t { isws = incremented t.isws }) s')

  unfoldable pub cisw : ℕ → ℕ → ℕ → System M → Option (System M)
  cisw level set way s = do
    s' ← internal_cisw true true level set way s
    some (count_stat (λ t. record t { cisws = incremented t.cisws }) s')

  -- `for (i = 0; i < n; i++)`, with `n` passes left from `i` on.
  unfoldable pub for_each :
      ℕ → ℕ → (ℕ → System M → Option (System M)) → System M → Option (System M)
  for_each zero i f s = some s
  for_each (suc n) i f s = f i s >>= λ s'. for_each n (i + 1) f s'

  -- The bound is an `int` that is compared with an `unsigned`.
  unfoldable pub reset_level : ℕ → System M → Option (System M)
  reset_level level s = do
    bits ← index_bits s.memory level
    associativity ← ways s.memory level
    check (ltb bits 32)
    for_each (2 ^ bits) 0 (λ set. for_each associativity 0 (λ way. cisw level set way)) s

  unfoldable pub reset : System M → Option (System M)
  reset s = for_each s.memory.cache_info.levels 0 reset_level s >>= λ s'. flush code s'
