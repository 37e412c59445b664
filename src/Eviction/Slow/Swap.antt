-- ===== src/Eviction/Slow/Swap.antt =====
-- What `std::swap` does to a vector.
use cache_hound.Common.{
  ℕ, suc, ◌≡◌, List, [], ◌∷◌, ◌++◌, some, length, get_elem?, get_elem?-append, set-append, arith,
  inl, inr, Option-cases,
}
use cache_hound.Eviction.Slow.{swap}

swap-cons {ℓ} :
    {A : Type ℓ} (i j : ℕ) (a : A) (xs ys : List A)
    → swap i j xs ≡ some ys
    → swap (suc i) (suc j) (a ∷ xs) ≡ some (a ∷ ys)
unfolding swap
swap-cons i j a xs ys h = elim (Option-cases (get_elem? xs i)) [
  | inl e ↦ ground arith
  | inr (x, e) ↦ elim (Option-cases (get_elem? xs j)) [
    | inl e' ↦ ground arith
    | inr (y, e') ↦ ground arith
  ]
]

pub swap_lem {ℓ} :
    {A : Type ℓ} (pre : List A) (x : A) (mid : List A) (y : A) (post : List A)
    → swap (length pre) (length (pre ++ (x ∷ mid))) (pre ++ (x ∷ (mid ++ (y ∷ post))))
      ≡ some (pre ++ (y ∷ (mid ++ (x ∷ post))))
unfolding swap
swap_lem [] x mid y post = rw (get_elem?-append mid y post, set-append mid y x post)
swap_lem (a ∷ pre) x mid y post =
    swap-cons (length pre) (length (pre ++ (x ∷ mid))) a (pre ++ (x ∷ (mid ++ (y ∷ post))))
      (pre ++ (y ∷ (mid ++ (x ∷ post)))) (swap_lem pre x mid y post)

-- An element swapped with itself stays.
pub swap_same_lem {ℓ} :
    {A : Type ℓ} (pre : List A) (x : A) (post : List A)
    → swap (length pre) (length pre) (pre ++ (x ∷ post)) ≡ some (pre ++ (x ∷ post))
unfolding swap
swap_same_lem pre x post =
    rw (get_elem?-append pre x post, set-append pre x x post, set-append pre x x post)
