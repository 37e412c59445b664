-- ===== src/Policy/Plru/Victims.antt =====
-- PLRU states: what hits and misses do, and rounds of misses.
use cache_hound.Common.{
  none, int_shift, int_shift_lem, ℕ, zero, suc, ◌+◌, ◌*◌, ◌^◌, ◌<◌, ◌≡◌, refl, ap, ap₂, ◌∙◌, some,
  length, arith,
}
use cache_hound.Policy.{Contract}
use cache_hound.Policy.Cyclic.{misses}
use cache_hound.Policy.Plru.{Plru, ways, hit, miss, plru}
use cache_hound.Policy.Plru.Tree.{Tree, tree_hit, tree_miss, tree_misses}
use cache_hound.Policy.Plru.Round.{tree_miss-lt}
use cache_hound.Policy.Plru.Heap.{tree_at, tree_at-IsPerfect, Fits}
use cache_hound.Policy.Plru.Refine.{hit_loop-tree, miss_loop-tree}

-- The vector has a bit for each inner node.
abbrev pub IsValid : Plru → Type 0
IsValid s = length s.tree_bits + 1 ≡ 2 ^ s.tree_height

abbrev pub tree : Plru → Tree
tree s = tree_at s.tree_height 0 s.tree_bits

root-Fits : (s : Plru) → IsValid s → Fits s.tree_height 0 (length s.tree_bits)
root-Fits s v = omega arith

-- A hit does what the access does to the tree, and neither reads nor writes out of bounds.
pub hit-tree :
    (s : Plru) (w : ℕ)
    → IsValid s
    → s.tree_height < 32
    → (s' : Plru) × (hit s w ≡ some s')
      × IsValid s'
      × (s'.tree_height ≡ s.tree_height)
      × (tree s' ≡ tree_hit s.tree_height w (tree s))
unfolding hit
hit-tree s w v shift =
    let (bits, run, u) = hit_loop-tree s.tree_height 0 w s.tree_bits shift (root-Fits s v) in
    (record s { tree_bits = bits }, rw run, omega (arith, v, u.same_length), refl, u.tree)

-- A miss on a state whose vector has the length that the tree height asks for succeeds: its victim
-- is the leaf that a miss on the binary tree held in the vector yields, the tree of the new state
-- is the one after that miss, the vector keeps a right length and the height is kept.
pub miss-tree :
    (s : Plru)
    → IsValid s
    → (s' : Plru) × (miss s ≡ some ((tree_miss s.tree_height (tree s)).0, s'))
      × IsValid s'
      × (s'.tree_height ≡ s.tree_height)
      × (tree s' ≡ (tree_miss s.tree_height (tree s)).1)
      × ((tree_miss s.tree_height (tree s)).0 < 2 ^ s.tree_height)
unfolding miss
miss-tree s v =
    let (bits, run, u) = miss_loop-tree s.tree_height 0 0 s.tree_bits (root-Fits s v) in
    let plain : 0 * 2 ^ s.tree_height + (tree_miss s.tree_height (tree s)).0
        ≡ (tree_miss s.tree_height (tree s)).0 =
      omega arith in
    (
      record s { tree_bits = bits },
      rw (run, plain),
      omega (arith, v, u.same_length),
      refl,
      u.tree,
      (tree_miss-lt s.tree_height (tree s) (tree_at-IsPerfect s.tree_height 0 s.tree_bits)).0,
    )

-- The vector is right, and the number of ways is an `int`.
pub record IsUsable (s : Plru) : Type 0 where
  pub valid : IsValid s
  pub int : s.tree_height < 31

pub ways_lem : (s : Plru) → s.tree_height < 31 → ways s ≡ 2 ^ s.tree_height
unfolding ways
ways_lem s h = rw (ways, int_shift_lem s.tree_height h) refl

pub same_ways : (s s' : Plru) → s'.tree_height ≡ s.tree_height → ways s' ≡ ways s
unfolding ways
same_ways s s' same = ap (λ k. elim (int_shift k) [ none ↦ 0 | some n ↦ n ]) same

unfoldable pub plru-Contract : Contract plru
plru-Contract = record {
  IsValid = IsUsable;
  Used = λ s w. w < ways s;
  used_lt = λ s w v u. u;
  hit_lem = λ s w v u.
      let (s', run, v', height, t) = hit-tree s w v.valid (omega (arith, v.int)) in
      let same : ways s' ≡ ways s = same_ways s s' height in
      (
        s',
        run,
        record { valid = v'; int = omega (arith, height, v.int) },
        same,
        λ x k. omega (arith, same, k),
      );
  miss_lem = λ s v.
      let (s', run, v', height, t, lt) = miss-tree s v.valid in
      let same : ways s' ≡ ways s = same_ways s s' height in
      (
        (tree_miss s.tree_height (tree s)).0,
        s',
        run,
        record { valid = v'; int = omega (arith, height, v.int) },
        same,
        omega (arith, same, ways_lem s v.int, lt),
        λ x k. omega (arith, same, k),
      );
}

-- Misses in a row are those of the tree.
pub misses-tree :
    (k : ℕ) (s : Plru)
    → IsValid s
    → (s' : Plru) × (misses plru k s ≡ some ((tree_misses s.tree_height k (tree s)).0, s'))
      × IsValid s'
      × (s'.tree_height ≡ s.tree_height)
      × (tree s' ≡ (tree_misses s.tree_height k (tree s)).1)
unfolding misses
misses-tree zero s v = (s, refl, v, refl, refl)
misses-tree (suc k) s v =
    let (s1, run, v1, height, t, lt) = miss-tree s v in
    let (s2, run2, v2, height2, t2) = misses-tree k s1 v1 in
    let same : tree_misses s1.tree_height k (tree s1)
        ≡ tree_misses s.tree_height k (tree_miss s.tree_height (tree s)).1 =
      ap₂ (λ h t. tree_misses h k t) height t in
    (s2, rw (run, run2, same), v2, height2 ∙ height, t2 ∙ ap (λ p. p.1) same)
