-- ===== src/Bypass/Full.antt =====
-- The eviction sets with as many addresses as there are ways, which `found_evsets` counts.
use cache_hound.Common.{
  ℕ, zero, suc, ◌+◌, ◌<◌, ◌≤◌, ◌≡◌, refl, sym, ap, ◌==◌, ◌⊎◌, inl, inr, ◌∙◌, List, [], ◌∷◌, some,
  some-inj, length, get_elem?, set, replicate, arith, Bool-cases, ==_iff, ==_of_lt, if◌then◌else◌,
}

abbrev pub full : ℕ → List ℕ → ℕ
full ways evset = if length evset == ways then 1 else 0

abbrev pub full_sets : ℕ → List (List ℕ) → ℕ
full_sets ways [] = 0
full_sets ways (evset ∷ evsets) = full ways evset + full_sets ways evsets

full_cases :
    (ways : ℕ) (evset : List ℕ)
    → ((full ways evset ≡ 1) × (length evset ≡ ways)) ⊎ (full ways evset ≡ 0)
full_cases ways evset = elim (Bool-cases (length evset == ways)) [
  | inl e ↦ inl (rw e refl, (==_iff (length evset) ways).0 e)
  | inr e ↦ inr (rw e refl)
]

pub full_of_lt : (ways : ℕ) (evset : List ℕ) → length evset < ways → full ways evset ≡ 0
full_of_lt ways evset h = rw (==_of_lt (length evset) ways h) refl

pub full_sets-length : (ways : ℕ) (evsets : List (List ℕ)) → full_sets ways evsets ≤ length evsets
full_sets-length ways [] = omega arith
full_sets-length ways (evset ∷ evsets) =
    let rest = full_sets-length ways evsets in
    elim (full_cases ways evset) [
      | inl (e, _) ↦ omega (arith, e, rest)
      | inr e ↦ omega (arith, e, rest)
    ]

pub full_sets-set :
    (ways : ℕ) (evsets : List (List ℕ)) (i : ℕ) (old new : List ℕ)
    → get_elem? evsets i ≡ some old
    → full_sets ways (set evsets i new) + full ways old ≡ full_sets ways evsets + full ways new
full_sets-set ways [] i old new e = cc
full_sets-set ways (evset ∷ evsets) zero old new e =
    let same : full ways evset ≡ full ways old = ap (full ways) (some-inj e) in omega (arith, same)
full_sets-set ways (evset ∷ evsets) (suc i) old new e =
    omega (arith, full_sets-set ways evsets i old new e)

pub full_sets-replicate : (ways n : ℕ) → 0 < ways → full_sets ways (replicate n []) ≡ 0
full_sets-replicate ways zero h = refl
full_sets-replicate ways (suc n) h =
    omega (arith, full_of_lt ways [] h, full_sets-replicate ways n h)

-- If all are counted, each is full.
pub length_of_full :
    (ways : ℕ) (evsets : List (List ℕ)) (i : ℕ) (evset : List ℕ)
    → full_sets ways evsets ≡ length evsets
    → get_elem? evsets i ≡ some evset
    → length evset ≡ ways
length_of_full ways [] i evset all e = cc
length_of_full ways (first ∷ evsets) zero evset all e =
    let bound = full_sets-length ways evsets in
    elim (full_cases ways first) [
      | inr none_here ↦ absurd (omega (arith, none_here, bound, all))
      | inl (_, is_full) ↦ sym (ap length (some-inj e)) ∙ is_full
    ]
length_of_full ways (first ∷ evsets) (suc i) evset all e =
    let bound = full_sets-length ways evsets in
    elim (full_cases ways first) [
      | inr none_here ↦ absurd (omega (arith, none_here, bound, all))
      | inl (one, _) ↦ length_of_full ways evsets i evset (omega (arith, one, all)) e
    ]
