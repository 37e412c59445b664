-- ===== src/Device/Ledger.antt =====
-- The live resources of the kernel, counted.
use cache_hound.Common.{
  ℕ, ◌+◌, ◌<◌, ◌≤◌, ◌≡◌, refl, ap, ap₂, sym, Bool, true, false, Bool-cases, inl, inr, List, [], ◌∷◌,
  Option, none, some, ◌>>=◌, if◌then◌else◌, bit_to_ℕ, ==_refl, arith,
}
use cache_hound.Device.{Resource, pages, mapping, object, same, Heap, allocate, remove, release}

-- How often a resource occurs.
unfoldable pub occurrences : Resource → List Resource → ℕ
occurrences r [] = 0
occurrences r (q ∷ qs) = bit_to_ℕ (same r q) + occurrences r qs

equal_of_same : (r q : Resource) → same r q ≡ true → r ≡ q
unfolding same
equal_of_same (pages p o) (pages p' o') e = ap₂ pages (ground (arith, e)) (ground (arith, e))
equal_of_same (mapping v) (mapping v') e = ap mapping (ground (arith, e))
equal_of_same (object x) (object x') e = ap object (ground (arith, e))
equal_of_same (pages p o) (mapping v) e = cc
equal_of_same (pages p o) (object v) e = cc
equal_of_same (mapping v) (pages p o) e = cc
equal_of_same (mapping v) (object p) e = cc
equal_of_same (object v) (pages p o) e = cc
equal_of_same (object v) (mapping p) e = cc

same_refl : (r : Resource) → same r r ≡ true
unfolding same
same_refl (pages p o) = rw (==_refl p, ==_refl o) refl
same_refl (mapping v) = ==_refl v
same_refl (object x) = ==_refl x

remove_lem :
    (r : Resource) (xs : List Resource)
    → 0 < occurrences r xs
    → (ys : List Resource) × (remove r xs ≡ some ys)
      × ((q : Resource) → occurrences q xs ≡ bit_to_ℕ (same q r) + occurrences q ys)
unfolding remove occurrences
remove_lem r [] h = absurd (omega (arith, h))
remove_lem r (x ∷ xs) h = elim (Bool-cases (same r x)) [
  | inl e ↦ (
    xs,
    rw e refl,
    λ q. ap (λ z. bit_to_ℕ (same q z) + occurrences q xs) (sym (equal_of_same r x e)),
  )
  | inr e ↦
      let rest : 0 < occurrences r xs = omega (arith, h, ap bit_to_ℕ e) in
      let (ys, runs, counts) = remove_lem r xs rest in
      (x ∷ ys, rw (e, runs) refl, λ q. omega (arith, counts q))
]

pub release_lem :
    (r : Resource) (h : Heap)
    → 0 < occurrences r h.live
    → (h' : Heap) × (release r h ≡ some h')
      × ((q : Resource) → occurrences q h.live ≡ bit_to_ℕ (same q r) + occurrences q h'.live)
unfolding release
release_lem r h some_left =
    let (ys, runs, counts) = remove_lem r h.live some_left in
    (record h { live = ys }, rw runs refl, counts)

-- What is on top of the list is what is freed.
pub release_top :
    (r : Resource) (h : Heap) (xs : List Resource)
    → h.live ≡ r ∷ xs
    → release r h ≡ some (record h { live = xs })
unfolding release remove
release_top r h xs e = rw (e, same_refl r) refl

unfoldable pub release_all : List Resource → Heap → Option Heap
release_all [] h = some h
release_all (r ∷ rs) h = release r h >>= λ h'. release_all rs h'

pub release_all_lem :
    (rs : List Resource) (h : Heap)
    → ((q : Resource) → occurrences q rs ≤ occurrences q h.live)
    → (h' : Heap) × (release_all rs h ≡ some h')
      × ((q : Resource) → occurrences q h.live ≡ occurrences q rs + occurrences q h'.live)
unfolding release_all occurrences
release_all_lem [] h enough = (h, refl, λ q. omega arith)
release_all_lem (r ∷ rs) h enough =
    let first : 0 < occurrences r h.live = omega (arith, enough r, ap bit_to_ℕ (same_refl r)) in
    let (h1, runs, counts) = release_lem r h first in
    let (h2, runs', counts') = release_all_lem rs h1 (λ q. omega (arith, enough q, counts q)) in
    (h2, rw runs runs', λ q. omega (arith, counts q, counts' q))

-- An allocation fails and leaves the list, or puts a resource on it.
pub data Allocated (r : ℕ → Resource) (h : Heap) : Option ℕ × Heap → Type 0 where
  failed : (h' : Heap) → h'.live ≡ h.live → Allocated r h (none, h')
  given : (k : ℕ) (h' : Heap) → h'.live ≡ r k ∷ h.live → Allocated r h (some k, h')

pub allocate_lem : (r : ℕ → Resource) (h : Heap) → Allocated r h (allocate r h)
unfolding allocate
allocate_lem r h = by_case (h.fails h.next)
  where
    by_case :
        (b : Bool)
        → Allocated r h (
            if b
            then (none, record h { next = h.next + 1 })
            else (some h.next, record h { live = r h.next ∷ h.live; next = h.next + 1 }))
    by_case true = failed _ refl
    by_case false = given _ _ refl
