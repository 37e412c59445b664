-- ===== src/Eviction/Groups/Blocks.antt =====
-- Two blocks of a vector change places.
use cache_hound.Common.{
  ℕ, suc, ◌+◌, ◌≡◌, refl, ap, sym, ◌∙◌, List, [], ◌∷◌, ◌++◌, some, length, get_elem?, Option-cases,
  inl, inr, get_elem?-append, set-append, append_assoc, length-append, arith,
}
use cache_hound.Eviction.Slow.{swap}
use cache_hound.Eviction.Groups.{swap_ranges}

swap_back-cons :
    (i j a : ℕ) (xs ys : List ℕ)
    → swap i j xs ≡ some ys
    → swap (suc i) (suc j) (a ∷ xs) ≡ some (a ∷ ys)
unfolding swap
swap_back-cons i j a xs ys h = elim (Option-cases (get_elem? xs i)) [
  | inl e ↦ ground arith
  | inr (x, e) ↦ elim (Option-cases (get_elem? xs j)) [
    | inl e' ↦ ground arith
    | inr (y, e') ↦ ground arith
  ]
]

swap_back :
    (pre : List ℕ) (x : ℕ) (mid : List ℕ) (y : ℕ) (post : List ℕ)
    → swap (length (pre ++ (x ∷ mid))) (length pre) (pre ++ (x ∷ (mid ++ (y ∷ post))))
      ≡ some (pre ++ (y ∷ (mid ++ (x ∷ post))))
unfolding swap
swap_back [] x mid y post = rw (get_elem?-append mid y post, set-append mid y x post)
swap_back (a ∷ pre) x mid y post =
    swap_back-cons (length (pre ++ (x ∷ mid))) (length pre) a (pre ++ (x ∷ (mid ++ (y ∷ post))))
      (pre ++ (y ∷ (mid ++ (x ∷ post)))) (swap_back pre x mid y post)

pub swap_ranges_lem :
    (us vs pre mid post : List ℕ) (i j : ℕ)
    → length us ≡ length vs
    → j ≡ length pre
    → i ≡ length pre + length us + length mid
    → swap_ranges (length us) i j (pre ++ (us ++ (mid ++ (vs ++ post))))
      ≡ some (pre ++ (vs ++ (mid ++ (us ++ post))))
unfolding swap_ranges
swap_ranges_lem [] [] pre mid post i j len at_j at_i = refl
swap_ranges_lem [] (b ∷ vs) pre mid post i j len at_j at_i = absurd (omega (arith, len))
swap_ranges_lem (a ∷ us) [] pre mid post i j len at_j at_i = absurd (omega (arith, len))
swap_ranges_lem (a ∷ us) (b ∷ vs) pre mid post i j len at_j at_i =
    let start : List ℕ = pre ++ (a ∷ (us ++ (mid ++ (b ∷ (vs ++ post))))) in
    let index : i ≡ length (pre ++ (a ∷ (us ++ mid))) =
      omega (arith, at_i, length-append pre (a ∷ (us ++ mid)), length-append us mid) in
    let first : swap i j start ≡ some (pre ++ (b ∷ (us ++ (mid ++ (a ∷ (vs ++ post)))))) =
      ap (λ k. swap k j start) index
      ∙ ap (λ k. swap (length (pre ++ (a ∷ (us ++ mid)))) k start) at_j
      ∙ ap (λ l. swap (length (pre ++ (a ∷ (us ++ mid)))) (length pre) (pre ++ (a ∷ l)))
          (sym (append_assoc us mid (b ∷ (vs ++ post))))
      ∙ swap_back pre a (us ++ mid) b (vs ++ post)
      ∙ ap (λ l. some (pre ++ (b ∷ l))) (append_assoc us mid (a ∷ (vs ++ post))) in
    let next : pre ++ (b ∷ (us ++ (mid ++ (a ∷ (vs ++ post)))))
        ≡ (pre ++ (b ∷ [])) ++ (us ++ ((mid ++ (a ∷ [])) ++ (vs ++ post))) =
      sym (
        append_assoc pre (b ∷ []) (us ++ ((mid ++ (a ∷ [])) ++ (vs ++ post)))
        ∙ ap (λ l. pre ++ (b ∷ (us ++ l))) (append_assoc mid (a ∷ []) (vs ++ post))) in
    let rest =
      swap_ranges_lem us vs (pre ++ (b ∷ [])) (mid ++ (a ∷ [])) post (i + 1) (j + 1)
        (omega (arith, len)) (omega (arith, at_j, length-append pre (b ∷ [])))
        (omega (arith, at_i, length-append pre (b ∷ []), length-append mid (a ∷ []))) in
    let end : (pre ++ (b ∷ [])) ++ (vs ++ ((mid ++ (a ∷ [])) ++ (us ++ post)))
        ≡ pre ++ (b ∷ (vs ++ (mid ++ (a ∷ (us ++ post))))) =
      append_assoc pre (b ∷ []) (vs ++ ((mid ++ (a ∷ [])) ++ (us ++ post)))
      ∙ ap (λ l. pre ++ (b ∷ (vs ++ l))) (append_assoc mid (a ∷ []) (us ++ post)) in
    rw first (ap (λ l. swap_ranges (length us) (i + 1) (j + 1) l) next ∙ rest ∙ ap some end)
