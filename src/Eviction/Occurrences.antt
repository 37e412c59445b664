-- ===== src/Eviction/Occurrences.antt =====
-- Lists of addresses up to order: how often each address occurs.
use cache_hound.Common.{
  ℕ, ◌+◌, ◌≤◌, ◌≡◌, refl, List, [], ◌∷◌, ◌++◌, arith, ◌==◌, if◌then◌else◌, ◌⊎◌, inl, inr,
  Bool-cases, take, zero, suc,
}

unfoldable pub one_if_same : ℕ → ℕ → ℕ
one_if_same x a = if x == a then 1 else 0

unfoldable pub occurrences : ℕ → List ℕ → ℕ
occurrences a [] = 0
occurrences a (x ∷ xs) = one_if_same x a + occurrences a xs

-- The first list is a part of the second, up to order.
abbrev pub Part : List ℕ → List ℕ → Type 0
Part xs ys = (a : ℕ) → occurrences a xs ≤ occurrences a ys

-- The two lists differ only in order.
abbrev pub Rearranged : List ℕ → List ℕ → Type 0
Rearranged xs ys = (a : ℕ) → occurrences a xs ≡ occurrences a ys

pub occurrences-append :
    (a : ℕ) (xs ys : List ℕ) → occurrences a (xs ++ ys) ≡ occurrences a xs + occurrences a ys
unfolding occurrences
occurrences-append a [] ys = omega arith
occurrences-append a (x ∷ xs) ys = omega (arith, occurrences-append a xs ys)

pub occurrences-cons :
    (a x : ℕ) (xs : List ℕ) → occurrences a (x ∷ xs) ≡ one_if_same x a + occurrences a xs
unfolding occurrences
occurrences-cons a x xs = refl

pub occurrences-nil : (a : ℕ) → occurrences a [] ≡ 0
unfolding occurrences
occurrences-nil a = refl

pub one_if_same_cases : (x a : ℕ) → (one_if_same x a ≡ 0) ⊎ (x ≡ a)
unfolding one_if_same
one_if_same_cases x a = elim (Bool-cases (x == a)) [
  | inl e ↦ inr (ground arith)
  | inr ne ↦ inl (ground arith)
]

pub one_if_same_self : (x : ℕ) → one_if_same x x ≡ 1
unfolding one_if_same
one_if_same_self x = ground arith

pub occurrences-take : (a n : ℕ) (xs : List ℕ) → occurrences a (take n xs) ≤ occurrences a xs
unfolding occurrences
occurrences-take a zero xs = omega arith
occurrences-take a (suc n) [] = omega arith
occurrences-take a (suc n) (x ∷ xs) = omega (arith, occurrences-take a n xs)
