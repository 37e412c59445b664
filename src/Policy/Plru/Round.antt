-- ===== src/Policy/Plru/Round.antt =====
-- The victims of a round of misses on the tree.
use mathlib.Core.List.{map-append}
use mathlib.Core.List.{Mem, Nodup, Nodup-nil, Nodup-cons, mem-cons, not-mem-nil}
use mathlib.Core.Logic.Or
use mathlib.Core.HLevel.{⊥_prop}
use mathlib.Core.Logic.{◌∨₁◌, ∨₁_prop}
use native.Mathlib.Bridge.{le_prop}
use cache_hound.Common.{
  ℕ, zero, suc, ◌+◌, ◌*◌, ◌/◌, ◌%◌, ◌^◌, ◌<◌, ◌≤◌, ◌==◌, ◌≡◌, refl, ap, ◌∙◌, true, false, List, [],
  ◌∷◌, map, length, pow-double, arith, ◌++◌, Bool-cases, inl, inr, mod-pow-suc, ==_iff,
}
use cache_hound.Policy.Plru.Tree.{
  Tree, leaf, node, IsPerfect, tree_hit, tree_miss, tree_misses, interleave, sides_true,
  sides_false,
}

length-interleave : (xs ys : List ℕ) → length (interleave xs ys) ≡ length xs + length ys
length-interleave [] ys = omega arith
length-interleave (x ∷ xs) [] = omega arith
length-interleave (x ∷ xs) (y ∷ ys) = omega (arith, length-interleave xs ys)

pub length-tree_misses : (n k : ℕ) (t : Tree) → length (tree_misses n k t).0 ≡ k
length-tree_misses n zero t = refl
length-tree_misses n (suc k) t = ap suc (length-tree_misses n k (tree_miss n t).1)

mem-interleave : (xs ys : List ℕ) (a : ℕ) → Mem a (interleave xs ys) → Mem a xs ∨₁ Mem a ys
mem-interleave [] ys a m = Or.inr m
mem-interleave (x ∷ xs) [] a m = Or.inl m
mem-interleave (x ∷ xs) (y ∷ ys) a m =
    Or.elim ∨₁_prop (mem-cons.0 m) (λ e. Or.inl (mem-cons.1 (Or.inl e)))
      (λ m'.
        Or.elim ∨₁_prop (mem-cons.0 m') (λ e. Or.inr (mem-cons.1 (Or.inl e)))
          (λ m''.
            Or.elim ∨₁_prop (mem-interleave xs ys a m'') (λ k. Or.inl (mem-cons.1 (Or.inr k)))
              (λ k. Or.inr (mem-cons.1 (Or.inr k)))))

-- Lists that share nothing.
abbrev Apart : List ℕ → List ℕ → Type 0
Apart xs ys = (a : ℕ) → Mem a xs → ¬ Mem a ys

interleave-Nodup : (xs ys : List ℕ) → Nodup xs → Nodup ys → Apart xs ys → Nodup (interleave xs ys)
interleave-Nodup [] ys d d' apart = d'
interleave-Nodup (x ∷ xs) [] d d' apart = d
interleave-Nodup (x ∷ xs) (y ∷ ys) d d' apart = Nodup-cons.1 (
  λ m.
      Or.elim ⊥_prop (mem-cons.0 m)
        (λ e. apart x (mem-cons.1 (Or.inl refl)) (mem-cons.1 (Or.inl e)))
        (λ m'.
          Or.elim ⊥_prop (mem-interleave xs ys x m') (Nodup-cons.0 d).0
            (λ k. apart x (mem-cons.1 (Or.inl refl)) (mem-cons.1 (Or.inr k)))),
  Nodup-cons.1 (
    λ m.
        Or.elim ⊥_prop (mem-interleave xs ys y m)
          (λ k. apart y (mem-cons.1 (Or.inr k)) (mem-cons.1 (Or.inl refl))) (Nodup-cons.0 d').0,
    interleave-Nodup xs ys (Nodup-cons.0 d).1 (Nodup-cons.0 d').1
        (λ a k k'. apart a (mem-cons.1 (Or.inr k)) (mem-cons.1 (Or.inr k'))),
  ),
)

not-mem-map_add : (c a : ℕ) (xs : List ℕ) → ¬ Mem a xs → ¬ Mem (c + a) (map (λ w. c + w) xs)
not-mem-map_add c a [] h m = absurd (not-mem-nil m)
not-mem-map_add c a (x ∷ xs) h m =
    Or.elim ⊥_prop (mem-cons.0 m) (λ e. h (mem-cons.1 (Or.inl (omega arith))))
      (not-mem-map_add c a xs (λ k. h (mem-cons.1 (Or.inr k))))

map_add-Nodup : (c : ℕ) (xs : List ℕ) → Nodup xs → Nodup (map (λ w. c + w) xs)
map_add-Nodup c [] d = Nodup-nil
map_add-Nodup c (x ∷ xs) d =
    Nodup-cons.1 (not-mem-map_add c x xs (Nodup-cons.0 d).0, map_add-Nodup c xs (Nodup-cons.0 d).1)

le_of_mem-map_add : (c a : ℕ) (xs : List ℕ) → Mem a (map (λ w. c + w) xs) → c ≤ a
le_of_mem-map_add c a [] m = absurd (not-mem-nil m)
le_of_mem-map_add c a (x ∷ xs) m =
    Or.elim le_prop (mem-cons.0 m) (λ e. omega arith) (le_of_mem-map_add c a xs)

-- A victim is a leaf of the tree, and the tree stays perfect.
pub tree_miss-lt :
    (n : ℕ) (t : Tree) → IsPerfect n t → ((tree_miss n t).0 < 2 ^ n) × IsPerfect n (tree_miss n t).1
tree_miss-lt zero leaf h = (omega arith, tt)
tree_miss-lt zero (node b l r) h = elim h [ ]
tree_miss-lt (suc n) leaf h = elim h [ ]
tree_miss-lt (suc n) (node true l r) h =
    let (lt, p) = tree_miss-lt n l h.0 in (omega (arith, pow-double n), (p, h.1))
tree_miss-lt (suc n) (node false l r) h =
    let (lt, p) = tree_miss-lt n r h.1 in (omega (arith, pow-double n), (h.0, p))

lt_of_mem-tree_misses :
    (n k : ℕ) (t : Tree) (a : ℕ) → IsPerfect n t → Mem a (tree_misses n k t).0 → a < 2 ^ n
lt_of_mem-tree_misses n zero t a h m = absurd (not-mem-nil m)
lt_of_mem-tree_misses n (suc k) t a h m =
    let (lt, p) = tree_miss-lt n t h in
    Or.elim le_prop (mem-cons.0 m) (λ e. rw e lt) (lt_of_mem-tree_misses n k (tree_miss n t).1 a p)

-- A round of misses takes distinct leaves.
pub tree_misses-Nodup : (n : ℕ) (t : Tree) → IsPerfect n t → Nodup (tree_misses n (2 ^ n) t).0
tree_misses-Nodup zero leaf h = Nodup-cons.1 (not-mem-nil, Nodup-nil)
tree_misses-Nodup zero (node b l r) h = elim h [ ]
tree_misses-Nodup (suc n) leaf h = elim h [ ]
tree_misses-Nodup (suc n) (node true l r) h =
    rw (pow-double n, sides_true n (2 ^ n) l r)
      (interleave-Nodup (tree_misses n (2 ^ n) l).0
        (map (λ w. 2 ^ n + w) (tree_misses n (2 ^ n) r).0) (tree_misses-Nodup n l h.0)
        (map_add-Nodup (2 ^ n) _ (tree_misses-Nodup n r h.1))
        (λ a m m'. absurd (
          omega (
            arith,
            lt_of_mem-tree_misses n (2 ^ n) l a h.0 m,
            le_of_mem-map_add (2 ^ n) a (tree_misses n (2 ^ n) r).0 m',
          ))))
tree_misses-Nodup (suc n) (node false l r) h =
    rw (pow-double n, sides_false n (2 ^ n) l r)
      (interleave-Nodup (map (λ w. 2 ^ n + w) (tree_misses n (2 ^ n) r).0)
        (tree_misses n (2 ^ n) l).0 (map_add-Nodup (2 ^ n) _ (tree_misses-Nodup n r h.1))
        (tree_misses-Nodup n l h.0)
        (λ a m' m. absurd (
          omega (
            arith,
            lt_of_mem-tree_misses n (2 ^ n) l a h.0 m,
            le_of_mem-map_add (2 ^ n) a (tree_misses n (2 ^ n) r).0 m',
          ))))

-- A list that ends in a value.
abbrev pub EndsIn : ℕ → List ℕ → Type 0
EndsIn w xs = (pre : List ℕ) × (xs ≡ pre ++ (w ∷ []))

EndsIn-cons : (x w : ℕ) (xs : List ℕ) → EndsIn w xs → EndsIn w (x ∷ xs)
EndsIn-cons x w xs (pre, e) = (x ∷ pre, ap (◌∷◌ x) e)

EndsIn-interleave :
    (w : ℕ) (xs ys : List ℕ) → length xs ≡ length ys → EndsIn w ys → EndsIn w (interleave xs ys)
EndsIn-interleave w [] ys h e = e
EndsIn-interleave w (x ∷ xs) [] h e = absurd (omega arith)
EndsIn-interleave w (x ∷ []) (y ∷ []) h e = EndsIn-cons x w (y ∷ []) e
EndsIn-interleave w (x ∷ x' ∷ xs) (y ∷ []) h e = absurd (omega arith)
EndsIn-interleave w (x ∷ []) (y ∷ y' ∷ ys) h e = absurd (omega arith)
EndsIn-interleave w (x ∷ x' ∷ xs) (y ∷ y' ∷ ys) h ([], e) = cc
EndsIn-interleave w (x ∷ x' ∷ xs) (y ∷ y' ∷ ys) h (z ∷ pre, e) =
    EndsIn-cons x w _
      (EndsIn-cons y w _ (EndsIn-interleave w (x' ∷ xs) (y' ∷ ys) (omega arith) (pre, cc)))

EndsIn-map_add : (c w : ℕ) (xs : List ℕ) → EndsIn w xs → EndsIn (c + w) (map (λ v. c + v) xs)
EndsIn-map_add c w xs (pre, e) =
    (map (λ v. c + v) pre, ap (map (λ v. c + v)) e ∙ map-append (λ v. c + v) pre (w ∷ []))

length-map_add : (c : ℕ) (xs : List ℕ) → length (map (λ v. c + v) xs) ≡ length xs
length-map_add c [] = refl
length-map_add c (x ∷ xs) = ap suc (length-map_add c xs)

-- The round of misses after a hit takes that way last.
pub tree_hit-EndsIn :
    (n way : ℕ) (t : Tree)
    → IsPerfect n t
    → EndsIn (way % 2 ^ n) (tree_misses n (2 ^ n) (tree_hit n way t)).0
tree_hit-EndsIn zero way leaf h = ([], ap (λ w. w ∷ []) (omega arith))
tree_hit-EndsIn zero way (node b l r) h = elim h [ ]
tree_hit-EndsIn (suc n) way leaf h = elim h [ ]
tree_hit-EndsIn (suc n) way (node b l r) h = elim (Bool-cases ((way / 2 ^ n) % 2 == 1)) [
  | inl e ↦
      let right : (way / 2 ^ n) % 2 ≡ 1 = (==_iff _ 1).0 e in
      let value : 2 ^ n + way % 2 ^ n ≡ way % (2 ^ n + 2 ^ n) =
        omega
          (arith, mod-pow-suc way n, ap (λ t. t * 2 ^ n) right, ap (λ t. way % t) (pow-double n)) in
      let other : List ℕ = (tree_misses n (2 ^ n) l).0 in
      let own : List ℕ = (tree_misses n (2 ^ n) (tree_hit n way r)).0 in
      rw (e, pow-double n, sides_true n (2 ^ n) l (tree_hit n way r), ← value)
        (EndsIn-interleave (2 ^ n + way % 2 ^ n) other (map (λ w. 2 ^ n + w) own)
          (omega (
            arith,
            length-tree_misses n (2 ^ n) l,
            length-tree_misses n (2 ^ n) (tree_hit n way r),
            length-map_add (2 ^ n) own,
          ))
          (EndsIn-map_add (2 ^ n) (way % 2 ^ n) own (tree_hit-EndsIn n way r h.1)))
  | inr e ↦
      let left : (way / 2 ^ n) % 2 ≡ 0 = ground arith in
      let value : way % 2 ^ n ≡ way % (2 ^ n + 2 ^ n) =
        omega
          (arith, mod-pow-suc way n, ap (λ t. t * 2 ^ n) left, ap (λ t. way % t) (pow-double n)) in
      let other : List ℕ = (tree_misses n (2 ^ n) r).0 in
      let own : List ℕ = (tree_misses n (2 ^ n) (tree_hit n way l)).0 in
      rw (e, pow-double n, sides_false n (2 ^ n) (tree_hit n way l) r, ← value)
        (EndsIn-interleave (way % 2 ^ n) (map (λ w. 2 ^ n + w) other) own
          (omega (
            arith,
            length-tree_misses n (2 ^ n) r,
            length-tree_misses n (2 ^ n) (tree_hit n way l),
            length-map_add (2 ^ n) other,
          ))
          (tree_hit-EndsIn n way l h.0))
]
