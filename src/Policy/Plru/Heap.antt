-- ===== src/Policy/Plru/Heap.antt =====
-- The tree in `tree_bits_`: the children of the node at index `i` stand at 2 i + 1 and 2 i + 2.
use cache_hound.Common.{
  ℕ, zero, suc, ◌+◌, ◌*◌, ◌^◌, ◌<◌, ◌≤◌, ◌≡◌, refl, Bool, false, List, get_or, pow-double, pow-pos,
  pow-le, mul-le, arith, dec_lt,
}
use cache_hound.Policy.Plru.Tree.{Tree, leaf, node, IsPerfect}

-- `j` stands in the subtree of height `n` at index `i`: it is `k` levels below `i` for a `k`
-- smaller than `n`.
abbrev pub Under : ℕ → ℕ → ℕ → Type 0
Under n i j = (k : ℕ) × (k < n) × (2 ^ k * (i + 1) ≤ j + 1) × (j + 1 < 2 ^ k * (i + 2))

pub Under-root : (n i : ℕ) → Under (suc n) i i
Under-root n i = (0, omega arith, omega arith, omega arith)

pub Under-left : (n i j : ℕ) → Under n (2 * i + 1) j → Under (suc n) i j
Under-left n i j (k, h, lo, hi) =
    (suc k, omega arith, rw (pow-double k) (omega arith), rw (pow-double k) (omega arith))

pub Under-right : (n i j : ℕ) → Under n (2 * i + 2) j → Under (suc n) i j
Under-right n i j (k, h, lo, hi) =
    (suc k, omega arith, rw (pow-double k) (omega arith), rw (pow-double k) (omega arith))

pub not-Under-left : (n i : ℕ) → ¬ Under n (2 * i + 1) i
not-Under-left n i (k, h, lo, hi) = grind (arith, pow-pos k)

pub not-Under-right : (n i : ℕ) → ¬ Under n (2 * i + 2) i
not-Under-right n i (k, h, lo, hi) = grind (arith, pow-pos k)

pub Under-disjoint : (n m i j : ℕ) → Under n (2 * i + 1) j → ¬ Under m (2 * i + 2) j
Under-disjoint n m i j (k, h, lo, hi) (k', h', lo', hi') = elim (dec_lt k' k) [
  | yes deeper ↦
      let p : 2 ^ suc k' ≤ 2 ^ k = pow-le (suc k') k deeper in
      let q : 2 ^ k' + 2 ^ k' ≤ 2 ^ k = omega (arith, p, pow-double k') in
      omega (arith, q, mul-le (2 ^ k' + 2 ^ k') (2 ^ k) i q)
  | no higher ↦
      let q : 2 ^ k ≤ 2 ^ k' = pow-le k k' (omega arith) in
      omega (arith, q, mul-le (2 ^ k) (2 ^ k') i q)
]

-- The tree of height `n` at index `i`.
abbrev pub tree_at : ℕ → ℕ → List Bool → Tree
tree_at zero i bits = leaf
tree_at (suc n) i bits =
    node (get_or bits i false) (tree_at n (2 * i + 1) bits) (tree_at n (2 * i + 2) bits)

pub tree_at-IsPerfect : (n i : ℕ) (bits : List Bool) → IsPerfect n (tree_at n i bits)
tree_at-IsPerfect zero i bits = tt
tree_at-IsPerfect (suc n) i bits =
    (tree_at-IsPerfect n (2 * i + 1) bits, tree_at-IsPerfect n (2 * i + 2) bits)

-- The tree depends on the bits of its own nodes alone.
pub tree_at-local :
    (n i : ℕ) (bits bits' : List Bool)
    → ((j : ℕ) → Under n i j → get_or bits j false ≡ get_or bits' j false)
    → tree_at n i bits ≡ tree_at n i bits'
tree_at-local zero i bits bits' h = refl
tree_at-local (suc n) i bits bits' h =
    let l : tree_at n (2 * i + 1) bits ≡ tree_at n (2 * i + 1) bits' =
      tree_at-local n (2 * i + 1) bits bits' (λ j u. h j (Under-left n i j u)) in
    let r : tree_at n (2 * i + 2) bits ≡ tree_at n (2 * i + 2) bits' =
      tree_at-local n (2 * i + 2) bits bits' (λ j u. h j (Under-right n i j u)) in
    cc (h i (Under-root n i), l, r)

-- The room that the nodes below index `i` take in a vector of the given length.
abbrev pub Fits : ℕ → ℕ → ℕ → Type 0
Fits n i len = 2 ^ n * (i + 2) ≤ 2 * (len + 1)

pub Fits-root : (n i len : ℕ) → Fits (suc n) i len → i < len
Fits-root n i len h =
    let h' : (2 ^ n + 2 ^ n) * (i + 2) ≤ 2 * (len + 1) = rw (pow-double n) at h in
    omega (arith, h', mul-le 1 (2 ^ n) (i + 2) (pow-pos n))

pub Fits-left : (n i len : ℕ) → Fits (suc n) i len → Fits n (2 * i + 1) len
Fits-left n i len h =
    let h' : (2 ^ n + 2 ^ n) * (i + 2) ≤ 2 * (len + 1) = rw (pow-double n) at h in omega arith

pub Fits-right : (n i len : ℕ) → Fits (suc n) i len → Fits n (2 * i + 2) len
Fits-right n i len h =
    let h' : (2 ^ n + 2 ^ n) * (i + 2) ≤ 2 * (len + 1) = rw (pow-double n) at h in omega arith
