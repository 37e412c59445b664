-- ===== src/Eviction/Groups/Splits.antt =====
-- Vectors split at an index, and blocks that change places.
use cache_hound.Common.{
  ℕ, ◌+◌, ◌≤◌, ◌≡◌, refl, ap, sym, ◌∙◌, List, [], ◌∷◌, ◌++◌, length, take, drop, arith,
  take-append-drop, length-append, length-take,
}
use cache_hound.Eviction.Occurrences.{occurrences, occurrences-append}

-- A list splits at every index up to its length.
pub split_at :
    (n : ℕ) (xs : List ℕ)
    → n ≤ length xs
    → (us : List ℕ) × (vs : List ℕ) × (xs ≡ us ++ vs) × (length us ≡ n)
split_at n xs le =
    (take n xs, drop n xs, sym (take-append-drop n xs), length-take n xs ∙ omega (arith, le))

pub split_at₂ :
    (m n : ℕ) (xs : List ℕ)
    → m + n ≤ length xs
    → (us : List ℕ) × (vs : List ℕ) × (ws : List ℕ) × (xs ≡ (us ++ vs) ++ ws)
      × (length us ≡ m)
      × (length vs ≡ n)
split_at₂ m n xs le =
    let (first, ws, s, l) = split_at (m + n) xs le in
    let (us, vs, s', l') = split_at m first (omega (arith, l)) in
    (
      us,
      vs,
      ws,
      s ∙ ap (λ k. k ++ ws) s',
      l',
      omega (arith, l, ap length s', length-append us vs, l'),
    )

pub drop_all_append : (us vs : List ℕ) → drop (length us) (us ++ vs) ≡ vs
drop_all_append [] vs = refl
drop_all_append (u ∷ us) vs = drop_all_append us vs

pub moved :
    (a : ℕ) (pre us mid vs post : List ℕ)
    → occurrences a (pre ++ (vs ++ (mid ++ (us ++ post))))
      ≡ occurrences a (pre ++ (us ++ (mid ++ (vs ++ post))))
moved a pre us mid vs post = omega (
  arith,
  occurrences-append a pre (vs ++ (mid ++ (us ++ post))),
  occurrences-append a vs (mid ++ (us ++ post)),
  occurrences-append a mid (us ++ post),
  occurrences-append a us post,
  occurrences-append a pre (us ++ (mid ++ (vs ++ post))),
  occurrences-append a us (mid ++ (vs ++ post)),
  occurrences-append a mid (vs ++ post),
  occurrences-append a vs post,
)
