-- ===== src/Policy/Order.antt =====
-- The vector `order_` of the FIFO and LRU policies, and the algorithms of <algorithm> and
-- <numeric> that they apply to it.
use mathlib.Core.List.{Mem, Perm, Nodup, Nodup-cons, perm_middle, not-mem-nil, mem-cons}
use mathlib.Core.List.{Nodup-nil}
use mathlib.Core.List.Perm
use mathlib.Core.Logic.Or
use mathlib.Core.HLevel.{⊥_prop}
use native.Mathlib.Bridge.{le_prop}
use cache_hound.Common.{
  ℕ, zero, suc, ◌+◌, ◌-◌, ◌≤◌, ◌<◌, ◌≡◌, refl, ap, List, [], ◌∷◌, ◌++◌, Option, none, some, arith,
  length, get_elem?, take, drop, if◌then◌else◌, ◌==◌, ==_iff, length-append, take-append,
  drop-append, get_elem?-append, ◌⊎◌, inl, inr, Bool-cases,
}

-- `std::iota` over `n` elements, from `i` on.
unfoldable pub iota : ℕ → ℕ → List ℕ
iota zero i = []
iota (suc n) i = i ∷ iota n (i + 1)

-- `std::find`, as the distance from the first element; the length stands for `end()`.
unfoldable pub find : List ℕ → ℕ → ℕ
find [] v = 0
find (x ∷ xs) v = if x == v then 0 else suc (find xs v)

-- `std::rotate(begin, begin + i, begin + i + 1)`.
unfoldable pub rotate_to_front : ℕ → List ℕ → Option (List ℕ)
rotate_to_front i xs = elim (get_elem? xs i) [
  | none ↦ none
  | some x ↦ some (x ∷ (take i xs ++ drop (suc i) xs))
]

pub length-iota : (n i : ℕ) → length (iota n i) ≡ n
unfolding iota
length-iota zero i = refl
length-iota (suc n) i = ap suc (length-iota n (i + 1))

pub mem-iota_of_lt : (n i w : ℕ) → i ≤ w → w < i + n → Mem w (iota n i)
unfolding iota
mem-iota_of_lt zero i w h k = absurd (omega arith)
mem-iota_of_lt (suc n) i w h k = elim (Bool-cases (w == i)) [
  | inl e ↦ mem-cons.1 (Or.inl ((==_iff w i).0 e))
  | inr ne ↦ mem-cons.1 (Or.inr (mem-iota_of_lt n (i + 1) w (ground arith) (omega arith)))
]

-- A list either lacks a value, or splits at the value's first occurrence, where `find` finds it.
pub find_split :
    (xs : List ℕ) (v : ℕ)
    → (¬ Mem v xs)
      ⊎ ((pre : List ℕ) × (post : List ℕ) × (xs ≡ pre ++ (v ∷ post)) × (find xs v ≡ length pre))
unfolding find
find_split [] v = inl not-mem-nil
find_split (x ∷ xs) v = elim (Bool-cases (x == v)) [
  | inl e ↦ inr ([], xs, ap (λ a. a ∷ xs) ((==_iff x v).0 e), rw e)
  | inr ne ↦ elim (find_split xs v) [
    | inl absent ↦ inl (λ m. Or.elim ⊥_prop (mem-cons.0 m) (λ e. ground arith) absent)
    | inr (pre, post, split, found) ↦ inr (x ∷ pre, post, ap (◌∷◌ x) split, rw ne (ap suc found))
  ]
]

-- The element behind `as` moves to the front.
pub rotate_to_front_lem :
    (pre : List ℕ) (v : ℕ) (post : List ℕ)
    → rotate_to_front (length pre) (pre ++ (v ∷ post)) ≡ some (v ∷ (pre ++ post))
unfolding rotate_to_front
rotate_to_front_lem pre v post = rw (
  get_elem?-append pre v post,
  rotate_to_front,
  take-append pre (v ∷ post),
  drop-append pre v post,
)

lt_of_mem-iota : (n i w : ℕ) → Mem w (iota n i) → w < i + n
unfolding iota
lt_of_mem-iota zero i w m = absurd (not-mem-nil m)
lt_of_mem-iota (suc n) i w m =
    Or.elim le_prop (mem-cons.0 m) (λ e. omega arith)
      (λ later. omega (arith, lt_of_mem-iota n (i + 1) w later))

le_of_mem-iota : (n i w : ℕ) → Mem w (iota n i) → i ≤ w
unfolding iota
le_of_mem-iota zero i w m = absurd (not-mem-nil m)
le_of_mem-iota (suc n) i w m =
    Or.elim le_prop (mem-cons.0 m) (λ e. omega arith)
      (λ later. omega (arith, le_of_mem-iota n (i + 1) w later))

pub iota-Nodup : (n i : ℕ) → Nodup (iota n i)
unfolding iota
iota-Nodup zero i = Nodup-nil
iota-Nodup (suc n) i =
    Nodup-cons.1 ((λ m. absurd (omega (arith, le_of_mem-iota n (i + 1) i m))), iota-Nodup n (i + 1))

-- An order of the ways 0, 1, … of a set: each stands in it exactly once.
abbrev pub IsOrder : List ℕ → Type 0
IsOrder xs = Perm xs (iota (length xs) 0)

pub iota-IsOrder : (n : ℕ) → IsOrder (iota n 0)
iota-IsOrder n = rw (length-iota n 0) (Perm.refl (iota n 0))

pub IsOrder-Nodup : (xs : List ℕ) → IsOrder xs → Nodup xs
IsOrder-Nodup xs o = Perm.nodup (Perm.symm o) (iota-Nodup (length xs) 0)

pub lt_of_IsOrder-mem : (xs : List ℕ) (w : ℕ) → IsOrder xs → Mem w xs → w < length xs
lt_of_IsOrder-mem xs w o m = omega (arith, lt_of_mem-iota (length xs) 0 w ((Perm.mem_iff o).0 m))

pub length-front :
    (pre : List ℕ) (v : ℕ) (post : List ℕ) → length (v ∷ (pre ++ post)) ≡ length (pre ++ (v ∷ post))
length-front pre v post = omega (arith, length-append pre post, length-append pre (v ∷ post))

pub IsOrder-front :
    (pre : List ℕ) (v : ℕ) (post : List ℕ)
    → IsOrder (pre ++ (v ∷ post))
    → IsOrder (v ∷ (pre ++ post))
IsOrder-front pre v post o =
    rw (length-front pre v post) (Perm.trans (Perm.symm (perm_middle pre post)) o)

-- Every way of the set has its place in the order.
pub IsOrder-split :
    (xs : List ℕ) (w : ℕ)
    → IsOrder xs
    → w < length xs
    → (pre : List ℕ) × (post : List ℕ) × (xs ≡ pre ++ (w ∷ post)) × (find xs w ≡ length pre)
IsOrder-split xs w o h = elim (find_split xs w) [
  | inl absent ↦
      absurd
        (absent ((Perm.mem_iff o).1 (mem-iota_of_lt (length xs) 0 w (omega arith) (omega arith))))
  | inr s ↦ s
]

-- A vector that is not empty ends in an element.
pub last_split :
    (xs : List ℕ)
    → 0 < length xs
    → (pre : List ℕ) × (w : ℕ) × (xs ≡ pre ++ (w ∷ [])) × (length xs - 1 ≡ length pre)
last_split [] h = absurd (omega arith)
last_split (x ∷ []) h = ([], x, refl, omega arith)
last_split (x ∷ y ∷ xs) h =
    let (pre, w, split, len) = last_split (y ∷ xs) (omega arith) in
    (x ∷ pre, w, ap (◌∷◌ x) split, omega arith)
