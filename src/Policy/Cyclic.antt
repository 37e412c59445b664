-- ===== src/Policy/Cyclic.antt =====
-- `check_cyclic_eviction` of lib/include/cachehound/util/replacement_policy.hpp.
use mathlib.Core.List.{Mem, Nodup, Nodup-cons, not-mem-nil, mem-cons}
use mathlib.Core.Logic.Or
use mathlib.Core.HLevel.{⊥_prop}
use cache_hound.Common.{
  ℕ, zero, suc, ◌+◌, ◌≡◌, refl, sym, List, [], ◌∷◌, Option, some, arith, length, Bool, true, false,
  if◌then◌else◌, ◌==◌, ==_iff, ◌>>=◌, ◌||◌, Bool-cases, inl, inr, subst, >>=-eq-some,
}
use cache_hound.Policy.{ReplacementPolicy}

unfoldable pub contains : ℕ → List ℕ → Bool
contains w [] = false
contains w (x ∷ xs) = (x == w) || contains w xs

-- `emplace` of `std::unordered_set`, as a list without repeats.
unfoldable pub emplace : ℕ → List ℕ → List ℕ
emplace w ws = if contains w ws then ws else w ∷ ws

module _ {S : Type 0} (p : ReplacementPolicy S) where
  open p use {ways, miss}

  -- The loop, with `n` rounds left.
  unfoldable pub evict_rounds : ℕ → S → List ℕ → Option (List ℕ × S)
  evict_rounds zero s evicted = some (evicted, s)
  evict_rounds (suc n) s evicted = miss s >>= λ (w, s'). evict_rounds n s' (emplace w evicted)

  -- The policy is passed by reference: its state after the loop is returned beside the result.
  unfoldable pub check_cyclic_eviction : S → Option (Bool × S)
  check_cyclic_eviction s =
      evict_rounds (ways s) s [] >>= λ (evicted, s'). some (length evicted == ways s, s')

  -- The ways that `n` misses in a row return, the first one first.
  unfoldable pub misses : ℕ → S → Option (List ℕ × S)
  misses zero s = some ([], s)
  misses (suc n) s = miss s >>= λ (w, s'). misses n s' >>= λ (ws, s''). some (w ∷ ws, s'')

abbrev emplace_all : List ℕ → List ℕ → List ℕ
emplace_all [] acc = acc
emplace_all (w ∷ ws) acc = emplace_all ws (emplace w acc)

contains-mem : (w : ℕ) (xs : List ℕ) → contains w xs ≡ true → Mem w xs
unfolding contains
contains-mem w [] h = cc
contains-mem w (x ∷ xs) h = elim (Bool-cases (x == w)) [
  | inl e ↦ mem-cons.1 (Or.inl (sym ((==_iff x w).0 e)))
  | inr ne ↦ mem-cons.1 (Or.inr (contains-mem w xs (ground arith)))
]

-- Distinct ways that are not in the set yet are all counted.
length-emplace_all :
    (ws acc : List ℕ)
    → Nodup ws
    → ((w : ℕ) → Mem w ws → ¬ Mem w acc)
    → length (emplace_all ws acc) ≡ length ws + length acc
unfolding emplace
length-emplace_all [] acc d fresh = omega arith
length-emplace_all (w ∷ ws) acc d fresh = elim (Bool-cases (contains w acc)) [
  | inl old ↦ absurd (fresh w (mem-cons.1 (Or.inl refl)) (contains-mem w acc old))
  | inr new ↦
      let step : length (emplace_all ws (w ∷ acc)) ≡ length ws + length (w ∷ acc) =
        length-emplace_all ws (w ∷ acc) ((Nodup-cons.0 d).1) (λ v m k.
          Or.elim ⊥_prop (mem-cons.0 k) (λ e. (Nodup-cons.0 d).0 (subst (λ x. Mem x ws) e m))
            (fresh v (mem-cons.1 (Or.inr m)))) in
      rw new (omega arith)
]

module _ {S : Type 0} (p : ReplacementPolicy S) where
  evict_rounds-misses :
      (n : ℕ) (s : S) (acc ws : List ℕ) (s' : S)
      → misses p n s ≡ some (ws, s')
      → evict_rounds p n s acc ≡ some (emplace_all ws acc, s')
  unfolding misses evict_rounds
  evict_rounds-misses zero s acc ws s' h = ground arith
  evict_rounds-misses (suc n) s acc ws s' h =
      let (first, e, rest) = >>=-eq-some (p.miss s) _ h in
      let (later, e', end) = >>=-eq-some (misses p n first.1) _ rest in
      ground
        (arith, e, e', end, evict_rounds-misses n first.1 (emplace first.0 acc) later.0 later.1 e')

  -- If the misses of one round return distinct ways, the check succeeds.
  pub check_cyclic_eviction_lem :
      (s : S) (ws : List ℕ) (s' : S)
      → misses p (p.ways s) s ≡ some (ws, s')
      → length ws ≡ p.ways s
      → Nodup ws
      → check_cyclic_eviction p s ≡ some (true, s')
  unfolding check_cyclic_eviction
  check_cyclic_eviction_lem s ws s' h len d = ground (
    arith,
    evict_rounds-misses (p.ways s) s [] ws s' h,
    length-emplace_all ws [] d (λ w m. not-mem-nil),
  )
