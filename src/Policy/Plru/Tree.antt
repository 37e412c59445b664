-- ===== src/Policy/Plru/Tree.antt =====
-- The tree that `tree_bits_` lays out as a heap: each inner node remembers the side of the last
-- access below it.
use cache_hound.Common.{
  ℕ, zero, suc, ◌+◌, ◌/◌, ◌%◌, ◌^◌, ◌==◌, ◌≡◌, refl, Bool, true, false, if◌then◌else◌, List, [],
  ◌∷◌, map, pow-double, arith,
}

pub data Tree : Type 0 where
  leaf : Tree
  node : Bool → Tree → Tree → Tree

-- A perfect tree of the given height.
abbrev pub IsPerfect : ℕ → Tree → Type 0
IsPerfect zero leaf = Unit
IsPerfect zero (node b l r) = ⊥
IsPerfect (suc n) leaf = ⊥
IsPerfect (suc n) (node b l r) = IsPerfect n l × IsPerfect n r

-- The access to a way, seen from a node at height `n`.
abbrev pub tree_hit : ℕ → ℕ → Tree → Tree
tree_hit n way leaf = leaf
tree_hit zero way (node b l r) = node b l r
tree_hit (suc n) way (node b l r) =
    let rhs = (way / 2 ^ n) % 2 == 1 in
    if rhs then node true l (tree_hit n way r) else node false (tree_hit n way l) r

-- The victim, as a leaf of this subtree counted from the left, and the tree after the miss.
abbrev pub tree_miss : ℕ → Tree → ℕ × Tree
tree_miss n leaf = (0, leaf)
tree_miss zero (node b l r) = (0, node b l r)
tree_miss (suc n) (node true l r) = let (w, l') = tree_miss n l in (w, node false l' r)
tree_miss (suc n) (node false l r) = let (w, r') = tree_miss n r in (2 ^ n + w, node true l r')

-- The victims of `k` misses in a row, and the tree after them.
abbrev pub tree_misses : ℕ → ℕ → Tree → List ℕ × Tree
tree_misses n zero t = ([], t)
tree_misses n (suc k) t =
    let (w, t') = tree_miss n t in let (ws, t'') = tree_misses n k t' in (w ∷ ws, t'')

abbrev pub interleave : List ℕ → List ℕ → List ℕ
interleave [] ys = ys
interleave (x ∷ xs) [] = x ∷ xs
interleave (x ∷ xs) (y ∷ ys) = x ∷ y ∷ interleave xs ys

-- Two misses visit both sides, so that `k + k` misses are `k` misses on each side.
pub sides_true :
    (n k : ℕ) (l r : Tree)
    → tree_misses (suc n) (k + k) (node true l r) ≡ (
      interleave (tree_misses n k l).0 (map (λ w. 2 ^ n + w) (tree_misses n k r).0),
      node true (tree_misses n k l).1 (tree_misses n k r).1,
    )
sides_true n zero l r = refl
sides_true n (suc k) l r =
    let e : suc k + suc k ≡ suc (suc (k + k)) = omega arith in
    rw (e, sides_true n k (tree_miss n l).1 (tree_miss n r).1)

pub sides_false :
    (n k : ℕ) (l r : Tree)
    → tree_misses (suc n) (k + k) (node false l r) ≡ (
      interleave (map (λ w. 2 ^ n + w) (tree_misses n k r).0) (tree_misses n k l).0,
      node false (tree_misses n k l).1 (tree_misses n k r).1,
    )
sides_false n zero l r = refl
sides_false n (suc k) l r =
    let e : suc k + suc k ≡ suc (suc (k + k)) = omega arith in
    rw (e, sides_false n k (tree_miss n l).1 (tree_miss n r).1)

-- A round of misses brings a perfect tree back to where it was.
pub tree_misses-round : (n : ℕ) (t : Tree) → IsPerfect n t → (tree_misses n (2 ^ n) t).1 ≡ t
tree_misses-round zero leaf h = refl
tree_misses-round zero (node b l r) h = elim h [ ]
tree_misses-round (suc n) leaf h = elim h [ ]
tree_misses-round (suc n) (node true l r) h =
    rw
      (pow-double n, sides_true n (2 ^ n) l r, tree_misses-round n l h.0, tree_misses-round n r h.1)
tree_misses-round (suc n) (node false l r) h =
    rw (
      pow-double n,
      sides_false n (2 ^ n) l r,
      tree_misses-round n l h.0,
      tree_misses-round n r h.1,
    )
