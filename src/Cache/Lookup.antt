-- ===== src/Cache/Lookup.antt =====
-- Valid caches, and what `lookup` finds in them.
use native.Mathlib.Nat.{mod-eq_of_lt, div-add-mod', mod-lt}
use cache_hound.Common.{
  ℕ, zero, suc, ◌+◌, ◌*◌, ◌/◌, ◌%◌, ◌-◌, ◌^◌, ◌<◌, ◌≤◌, ◌≡◌, refl, ap, sym, ◌∙◌, true, false, List,
  none, some, length, get_elem?, word, arith, Option-cases, Bool-cases, inl, inr, ◌⊎◌, mul-le,
  ℕ_discrete, some-inj, subst, le→leb, ==_of_lt, ==_iff,
}
use cache_hound.Cache.{
  SetAssociativePolicy, CacheLine, SetAssociativeCache, matches, find_if, set_first, lookup,
}
use cache_hound.Cache.Contract.{SetContract}

-- The line at an index is valid and holds the address.
abbrev pub HoldsAt : List CacheLine → ℕ → ℕ → Type 0
HoldsAt lines i address = get_elem? lines i ≡ some (record { valid = true; tag = address })

matches-line :
    (tag : ℕ) (l : CacheLine) → matches tag l ≡ true → l ≡ record { valid = true; tag = tag }
unfolding matches
matches-line tag l h =
    let valid : l.valid ≡ true = ground (arith, h) in
    let same : l.tag ≡ tag = ground (arith, h) in λ i. record { valid = valid i; tag = same i }

matches_same : (tag : ℕ) → matches tag (record { valid = true; tag = tag }) ≡ true
unfolding matches
matches_same tag = ground arith

-- No line from `i` on holds the address if the first does not and no later one does.
later :
    (tag : ℕ) (lines : List CacheLine) (i n : ℕ)
    → ¬ HoldsAt lines i tag
    → ((j : ℕ) → i + 1 ≤ j → j < i + 1 + n → ¬ HoldsAt lines j tag)
    → (j : ℕ) → i ≤ j
    → j < i + suc n
    → ¬ HoldsAt lines j tag
later tag lines i n here away j low high h = elim (ℕ_discrete i j) [
  | yes e ↦ here (subst (λ k. HoldsAt lines k tag) (sym e) h)
  | no ne ↦ away j (omega (arith, ne)) (omega arith) h
]

other_line :
    (tag : ℕ) (lines : List CacheLine) (i : ℕ) (l : CacheLine)
    → get_elem? lines i ≡ some l
    → matches tag l ≡ false
    → ¬ HoldsAt lines i tag
other_line tag lines i l e no_match h =
    let same : l ≡ record { valid = true; tag = tag } = some-inj (sym e ∙ h) in
    ground (arith, ap (matches tag) same, matches_same tag)

find_if_cases :
    (tag : ℕ) (lines : List CacheLine) (i n : ℕ)
    → ((find_if tag lines i n ≡ i + n) × ((j : ℕ) → i ≤ j → j < i + n → ¬ HoldsAt lines j tag))
      ⊎ ((j : ℕ) × (find_if tag lines i n ≡ j) × (i ≤ j) × (j < i + n) × HoldsAt lines j tag)
unfolding find_if
find_if_cases tag lines i zero = inl (omega arith, λ j low high h. absurd (omega arith))
find_if_cases tag lines i (suc n) = elim (Option-cases (get_elem? lines i)) [
  | inl e ↦ elim (find_if_cases tag lines (i + 1) n) [
    | inl (end, away) ↦
        inl (rw (find_if, e) (end ∙ omega arith), later tag lines i n (λ h. cc) away)
    | inr (j, found, low, high, h) ↦ inr (j, rw (find_if, e) found, omega arith, omega arith, h)
  ]
  | inr (l, e) ↦ elim (Bool-cases (matches tag l)) [
    | inl yes_matches ↦ inr (
      i,
      rw (find_if, e, yes_matches) refl,
      omega arith,
      omega arith,
      e ∙ ap some (matches-line tag l yes_matches),
    )
    | inr no_match ↦ elim (find_if_cases tag lines (i + 1) n) [
      | inl (end, away) ↦ inl (
        rw (find_if, e, no_match) (end ∙ omega arith),
        later tag lines i n (other_line tag lines i l e no_match) away,
      )
      | inr (j, found, low, high, h) ↦
          inr (j, rw (find_if, e, no_match) found, omega arith, omega arith, h)
    ]
  ]
]

module _ {S : Type 0} (p : SetAssociativePolicy S) (c : SetContract p) where
  pub record IsValid (s : SetAssociativeCache S) : Type 0 where
    pub policy : c.IsValid s.policy
    pub size : length s.lines ≡ 2 ^ p.index_bits s.policy * p.ways s.policy
    pub fits : length s.lines < word
    pub placed : (i tag : ℕ) → HoldsAt s.lines i tag → i / p.ways s.policy ≡ p.get_set s.policy tag
    pub used :
        (i tag : ℕ)
        → HoldsAt s.lines i tag
        → c.Used s.policy (i / p.ways s.policy) (i % p.ways s.policy)
    pub unique : (i j tag : ℕ) → HoldsAt s.lines i tag → HoldsAt s.lines j tag → i ≡ j

  module _ (s : SetAssociativeCache S) (v : IsValid s) (address : ℕ) where
    abbrev pub first : ℕ
    first = p.get_set s.policy address * p.ways s.policy

    pub span_lem : first + p.ways s.policy ≤ length s.lines
    span_lem =
        let in_range : p.get_set s.policy address < 2 ^ p.index_bits s.policy =
          c.get_set_lt s.policy address v.policy in
        omega (
          arith,
          v.size,
          mul-le (p.get_set s.policy address + 1) (2 ^ p.index_bits s.policy) (p.ways s.policy)
              (omega (arith, in_range)),
        )

    pub set_first_lem : set_first p s address ≡ some first
    unfolding set_first
    set_first_lem =
        let plain : first % word ≡ first =
          mod-eq_of_lt (omega (arith, span_lem, v.fits, c.some_way s.policy v.policy)) in
        rw (plain, le→leb _ _ span_lem) refl

    -- For a policy with a contract and a valid cache, `lookup` never faults: it returns no handle
    -- if no line of the whole cache holds the address, and else the handle of a line that holds it.
    pub lookup_cases :
        ((lookup p s address ≡ some none) × ((i : ℕ) → ¬ HoldsAt s.lines i address))
        ⊎ ((i : ℕ) × (lookup p s address ≡ some (some i)) × HoldsAt s.lines i address)
    unfolding lookup
    lookup_cases =
        let w : ℕ = p.ways s.policy in
        elim (find_if_cases address s.lines first w) [
          | inl (end, away) ↦ inl (
            rw (set_first_lem, end, (==_iff (first + w - first) w).1 (omega arith)) refl,
            λ i h.
                let set : i / w ≡ p.get_set s.policy address = v.placed i address h in
                let parts : i / w * w + i % w ≡ i = div-add-mod' i w in
                let base : i / w * w ≡ first = ap (λ t. t * w) set in
                away i (omega arith) (omega (arith, mod-lt i (c.some_way s.policy v.policy))) h,
          )
          | inr (j, found, low, high, h) ↦
              inr (j, rw (set_first_lem, found, ==_of_lt (j - first) w (omega arith)) refl, h)
        ]
