-- ===== src/Policy/Plru.antt =====
-- lib/include/cachehound/policies/replacement/plru_replacement_policy.hpp. `ways` and `hit` shift a 1
-- of type `int`, `miss` shifts a `std::size_t`. The indices that the loops compute are at most twice
-- the length of a vector and a way is below 2 ^ tree_height, so that neither wraps around.
pub mod Tree
pub mod Round
pub mod Heap
pub mod Refine
pub mod Victims
pub mod Rounds
use Prim.Native.Nat.{bit_and}
use cache_hound.Common.{
  ℕ, zero, suc, ◌+◌, ◌-◌, ◌*◌, ◌/◌, ◌%◌, ◌^◌, ◌==◌, ltb, leb, if◌then◌else◌, int_shift, Bool, true,
  false, not, ◌&&◌, List, Option, none, some, length, get_elem?, set, replicate, check, ◌>>=◌, ◌>>◌,
  countr_zero, bit_to_ℕ,
}
use cache_hound.Policy.{ReplacementPolicy}

pub record Plru : Type 0 where
  pub tree_height : ℕ
  pub tree_bits : List Bool

unfoldable pub init : ℕ → Option Plru
init ways = do
  check (not (ways == 0) && (bit_and ways (ways - 1) == 0))
  some (record { tree_height = countr_zero ways; tree_bits = replicate (ways - 1) false })

-- Where the shift is undefined, 0 stands for its value.
unfoldable pub ways : Plru → ℕ
ways s = elim (int_shift s.tree_height) [ none ↦ 0 | some n ↦ n ]

-- `way & (0b1 << n)`, for `n` at most 31: at 31 the mask has all upper bits.
abbrev pub masked : ℕ → ℕ → Bool
masked n way = if ltb n 31 then (way / 2 ^ n) % 2 == 1 else leb (2 ^ 31) way

-- The loop of `hit`, with `n` levels to go, so that `tree_height_ - level - 1` is `n - 1`. A shift
-- by 32 or more is undefined.
unfoldable pub hit_loop : ℕ → ℕ → ℕ → List Bool → Option (List Bool)
hit_loop zero tree_index way tree_bits = some tree_bits
hit_loop (suc n) tree_index way tree_bits =
    let rhs = masked n way in
    check (ltb n 32)
    >> (check (ltb tree_index (length tree_bits))
        >> hit_loop n (2 * tree_index + 1 + bit_to_ℕ rhs) way (set tree_bits tree_index rhs))

unfoldable pub hit : Plru → ℕ → Option Plru
hit s way = do
  tree_bits ← hit_loop s.tree_height 0 way s.tree_bits
  some (record s { tree_bits = tree_bits })

-- The loop of `miss`. Reading past the end of the vector is a fault of its own.
unfoldable pub miss_loop : ℕ → ℕ → ℕ → List Bool → Option (ℕ × List Bool)
miss_loop zero tree_index way tree_bits = some (way, tree_bits)
miss_loop (suc n) tree_index way tree_bits = get_elem? tree_bits tree_index >>= λ old.
    let rhs = not old in
    check (ltb tree_index (length tree_bits))
    >> miss_loop n (2 * tree_index + 1 + bit_to_ℕ rhs) (way * 2 + bit_to_ℕ rhs)
        (set tree_bits tree_index rhs)

unfoldable pub miss : Plru → Option (ℕ × Plru)
miss s = do
  (way, tree_bits) ← miss_loop s.tree_height 0 0 s.tree_bits
  some (way, record s { tree_bits = tree_bits })

abbrev pub plru : ReplacementPolicy Plru
plru = record { ways = ways; hit = hit; miss = miss }
