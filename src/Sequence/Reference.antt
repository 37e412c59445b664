-- ===== src/Sequence/Reference.antt =====
-- A set of ways that each hold an address or nothing, searched from the first way on: what a
-- sequence of accesses means, without the tables of the source.
use cache_hound.Common.{
  ℕ, zero, suc, ◌+◌, ◌≡◌, refl, ap, List, [], ◌∷◌, Option, none, some, arith, get_elem?, set, ◌==◌,
  Bool, false, if◌then◌else◌, ◌>>=◌, ◌⊎◌, inl, inr, Bool-cases, ==_iff,
}
use cache_hound.Policy.{ReplacementPolicy}

abbrev pub holds : ℕ → Option ℕ → Bool
holds addr none = false
holds addr (some a) = a == addr

-- The first way that holds the address.
abbrev pub way_of : ℕ → List (Option ℕ) → Option ℕ
way_of addr [] = none
way_of addr (c ∷ cs) =
    if holds addr c then some 0 else elim (way_of addr cs) [ none ↦ none | some w ↦ some (suc w) ]

module _ {S : Type 0} (p : ReplacementPolicy S) where
  -- The state is the policy's and the contents of the ways; the number counts the hits.
  unfoldable pub reference_access : ℕ → S × List (Option ℕ) → Option (ℕ × (S × List (Option ℕ)))
  reference_access addr (s, content) = elim (way_of addr content) [
    | some w ↦ p.hit s w >>= λ s'. some (1, (s', content))
    | none ↦ p.miss s >>= λ (w, s'). some (0, (s', set content w (some addr)))
  ]

  unfoldable pub reference_hits : List ℕ → S × List (Option ℕ) → Option ℕ
  reference_hits [] st = some 0
  reference_hits (addr ∷ sequence) st = reference_access addr st >>= λ (h, st').
      reference_hits sequence st' >>= λ hits. some (h + hits)

-- Either a way holds the address, or none does.
pub way_of_cases :
    (addr : ℕ) (content : List (Option ℕ))
    → ((w : ℕ) × (way_of addr content ≡ some w) × (get_elem? content w ≡ some (some addr)))
      ⊎ ((way_of addr content ≡ none) × ((w : ℕ) → get_elem? content w ≡ some (some addr) → ⊥))
way_of_cases addr [] = inr (refl, λ w e. cc)
way_of_cases addr (none ∷ cs) = elim (way_of_cases addr cs) [
  | inl (w, e, h) ↦ inl (suc w, rw e refl, h)
  | inr (e, h) ↦ inr (rw e refl, elim [ zero ↦ λ k. cc | suc w ↦ h w ])
]
way_of_cases addr (some a ∷ cs) = elim (Bool-cases (a == addr)) [
  | inl here ↦ inl (0, rw here refl, ap (λ x. some (some x)) ((==_iff a addr).0 here))
  | inr away ↦ elim (way_of_cases addr cs) [
    | inl (w, e, h) ↦ inl (suc w, rw (away, e) refl, h)
    | inr (e, h) ↦ inr (rw (away, e) refl, elim [ zero ↦ λ k. ground arith | suc w ↦ h w ])
  ]
]
