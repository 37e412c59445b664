-- ===== src/Eviction/Slow/Crucial.antt =====
-- The invariant of the loops: the vector is the crucial addresses, the candidates and the dropped
-- ones, in this order.
use cache_hound.Common.{
  ℕ, ◌+◌, ◌<◌, ◌≡◌, ap, Bool, true, false, List, [], ◌∷◌, ◌++◌, length, arith, Bool-cases, inl, inr,
}
use cache_hound.Eviction.Occurrences.{
  occurrences, one_if_same, Part, Rearranged, occurrences-append, occurrences-cons, occurrences-nil,
  one_if_same_cases,
}
use cache_hound.Eviction.Slow.{Cursor}

module _ (evicts : List ℕ → Bool) where
  -- Without one of the crucial addresses, what is kept is no eviction set.
  abbrev pub Crucial : List ℕ → List ℕ → Type 0
  Crucial crucial kept =
      (z : ℕ) (rest : List ℕ)
      → 0 < occurrences z crucial
      → Rearranged (z ∷ rest) kept
      → evicts rest ≡ false

  pub record Split (original : List ℕ) (c : Cursor) : Type 0 where
    pub crucial : List ℕ
    pub candidates : List ℕ
    pub dropped : List ℕ
    pub layout : c.addresses ≡ crucial ++ (candidates ++ dropped)
    pub begins : c.candidates_begin ≡ length crucial
    pub ends : c.candidates_end ≡ length crucial + length candidates
    pub same : Rearranged c.addresses original
    pub kept : evicts (crucial ++ candidates) ≡ true
    pub needed : Crucial crucial (crucial ++ candidates)

  module _ (monotone : (xs ys : List ℕ) → Part xs ys → evicts xs ≡ true → evicts ys ≡ true) where
    -- Fewer addresses never make an eviction set.
    fewer : (xs ys : List ℕ) → Part xs ys → evicts ys ≡ false → evicts xs ≡ false
    fewer xs ys p h = elim (Bool-cases (evicts xs)) [
      | inl e ↦ ground (arith, monotone xs ys p e)
      | inr e ↦ e
    ]

    pub Crucial-drop :
        (crucial pre : List ℕ) (x : ℕ)
        → Crucial crucial (crucial ++ (pre ++ (x ∷ [])))
        → Crucial crucial (crucial ++ pre)
    Crucial-drop crucial pre x needed z rest member r =
        fewer rest (rest ++ (x ∷ [])) (λ a. omega (arith, occurrences-append a rest (x ∷ [])))
          (needed z (rest ++ (x ∷ [])) member (λ a. omega (
            arith,
            r a,
            occurrences-cons a z rest,
            occurrences-cons a z (rest ++ (x ∷ [])),
            occurrences-append a rest (x ∷ []),
            occurrences-append a crucial pre,
            occurrences-append a crucial (pre ++ (x ∷ [])),
            occurrences-append a pre (x ∷ []),
          )))

    -- A candidate without which the test fails becomes crucial.
    pub Crucial-keep :
        (crucial candidates others : List ℕ) (x : ℕ)
        → Crucial crucial (crucial ++ candidates)
        → Rearranged candidates (x ∷ others)
        → evicts (crucial ++ others) ≡ false
        → (candidates' : List ℕ) → Rearranged candidates' others
        → Crucial (crucial ++ (x ∷ [])) ((crucial ++ (x ∷ [])) ++ candidates')
    Crucial-keep crucial candidates others x needed around fails candidates' r z rest member total =
        elim (one_if_same_cases x z) [
          | inl other ↦
              needed z rest
                (omega (
                  arith,
                  member,
                  other,
                  occurrences-append z crucial (x ∷ []),
                  occurrences-cons z x [],
                  occurrences-nil z,
                ))
                (λ a. omega (
                  arith,
                  total a,
                  around a,
                  r a,
                  occurrences-append a (crucial ++ (x ∷ [])) candidates',
                  occurrences-append a crucial (x ∷ []),
                  occurrences-append a crucial candidates,
                  occurrences-cons a x others,
                  occurrences-cons a x [],
                  occurrences-nil a,
                ))
          | inr e ↦
              fewer rest (crucial ++ others)
                (λ a. omega (
                  arith,
                  total a,
                  r a,
                  ap (λ t. one_if_same t a) e,
                  occurrences-cons a z rest,
                  occurrences-append a (crucial ++ (x ∷ [])) candidates',
                  occurrences-append a crucial (x ∷ []),
                  occurrences-append a crucial others,
                  occurrences-cons a x [],
                  occurrences-nil a,
                ))
                fails
        ]
