-- ===== src/AddressMap/Floor.antt =====
-- What `upper_bound` and the step back find.
use cache_hound.Common.{
  ℕ, ◌+◌, ◌<◌, ◌≤◌, ◌≡◌, ◌==◌, ◌⊎◌, inl, inr, refl, sym, ltb, leb, true, false, [], ◌∷◌, none, some,
  arith, le→leb, dec_lt, subst, ap₂,
}
use cache_hound.AddressMap.{AddressMap, assign, entry_below}

-- The keys ascend, from above `low` on.
abbrev pub Ascending : ℕ → AddressMap → Type 0
Ascending low [] = Unit
Ascending low ((k, v) ∷ entries) = (low ≤ k) × Ascending (k + 1) entries

-- The value of a key.
abbrev pub Has : ℕ → ℕ → AddressMap → Type 0
Has k v [] = ⊥
Has k v ((k', v') ∷ entries) = ((k ≡ k') × (v ≡ v')) ⊎ Has k v entries

-- No key stands in `(low, high]`.
abbrev pub Free : ℕ → ℕ → AddressMap → Type 0
Free low high [] = Unit
Free low high ((k, v) ∷ entries) = ((k ≤ low) ⊎ (high < k)) × Free low high entries

pub lt_cases : (a b : ℕ) → (a < b) ⊎ ((a ≡ b) ⊎ (b < a))
lt_cases a b = elim (dec_lt a b) [
  | yes lt ↦ inl lt
  | no p ↦ elim (dec_lt b a) [ yes gt ↦ inr (inr gt) | no q ↦ inr (inl (omega (arith, p, q))) ]
]

below-Free :
    (k address : ℕ) (entries : AddressMap)
    → Ascending (k + 1) entries
    → Free k address entries
    → entry_below address entries ≡ none
unfolding entry_below
below-Free k address [] asc free = refl
below-Free k address ((k', v') ∷ entries) (le, _) (inl near, _) = absurd (omega (arith, le, near))
below-Free k address ((k', v') ∷ entries) (le, _) (inr far, _) =
    let e : leb k' address ≡ false = ground (arith, far) in rw e refl

low-le : (k v low : ℕ) (entries : AddressMap) → Ascending low entries → Has k v entries → low ≤ k
low-le k v low [] asc has = elim has [ ]
low-le k v low ((k', v') ∷ entries) (le, asc) (inl (same, _)) = omega (arith, le, same)
low-le k v low ((k', v') ∷ entries) (le, asc) (inr there) =
    omega (arith, le, low-le k v (k' + 1) entries asc there)

pub entry_below_lem :
    (k v address low : ℕ) (entries : AddressMap)
    → Ascending low entries
    → Has k v entries
    → k ≤ address
    → Free k address entries
    → entry_below address entries ≡ some (k, v)
unfolding entry_below
entry_below_lem k v address low [] asc has below free = elim has [ ]
entry_below_lem k v address low ((k', v') ∷ entries) (le, asc) (inl (same, same')) below (_, free) =
    let test : leb k' address ≡ true = le→leb k' address (omega (arith, below, same)) in
    let rest = below-Free k' address entries asc (subst (λ z. Free z address entries) same free) in
    rw (test, rest) (ap₂ (λ x y. some (x, y)) (sym same) (sym same'))
entry_below_lem k v address low ((k', v') ∷ entries) (le, asc) (inr there) below (_, free) =
    let less = low-le k v (k' + 1) entries asc there in
    let test : leb k' address ≡ true = le→leb k' address (omega (arith, below, less)) in
    rw (test, entry_below_lem k v address (k' + 1) entries asc there below free) refl

-- What an assignment keeps and adds.
pub assign-Ascending :
    (k v low : ℕ) (entries : AddressMap)
    → low ≤ k
    → Ascending low entries
    → Ascending low (assign k v entries)
unfolding assign
assign-Ascending k v low [] le asc = (le, tt)
assign-Ascending k v low ((k', v') ∷ entries) le (le', asc) = elim (lt_cases k k') [
  | inl lt ↦ let e : ltb k k' ≡ true = ground (arith, lt) in rw e (le, (omega (arith, lt), asc))
  | inr (inl same) ↦
      let e : ltb k k' ≡ false = ground (arith, same) in
      let e' : (k == k') ≡ true = ground (arith, same) in
      rw (e, e') (le, subst (λ z. Ascending (z + 1) entries) (sym same) asc)
  | inr (inr gt) ↦
      let e : ltb k k' ≡ false = ground (arith, gt) in
      let e' : (k == k') ≡ false = ground (arith, gt) in
      rw (e, e') (le', assign-Ascending k v (k' + 1) entries (omega (arith, gt)) asc)
]
