-- ===== src/Policy/Srrip/Aging.antt =====
-- The loop of `miss`: it ages all entries until the largest is `distant_future`.
use cache_hound.Common.{
  ℕ, zero, suc, ◌+◌, ◌%◌, ◌<◌, max, ◌≡◌, refl, ap, ◌∙◌, List, [], ◌∷◌, map, some, arith, length,
  set, word, ◌==◌, ==_iff, true, false, ap₂,
}
use cache_hound.Policy.Order.{find}
use cache_hound.Policy.Srrip.{distant_future, long_interval, miss_loop}

-- The largest entry.
abbrev pub largest : List ℕ → ℕ
largest [] = 0
largest (x ∷ xs) = max x (largest xs)

pub find-lt_of_largest : (xs : List ℕ) → 0 < length xs → find xs (largest xs) < length xs
unfolding find
find-lt_of_largest [] h = absurd (omega arith)
find-lt_of_largest (x ∷ []) h = ground arith
find-lt_of_largest (x ∷ y ∷ xs) h = ground (arith, find-lt_of_largest (y ∷ xs) (omega arith))

find_above : (xs : List ℕ) (v : ℕ) → largest xs < v → find xs v ≡ length xs
unfolding find
find_above [] v h = refl
find_above (x ∷ xs) v h = ground (arith, find_above xs v)

find-map_suc :
    (xs : List ℕ) (v : ℕ)
    → largest xs + 1 < word
    → v + 1 < word
    → find (map (λ entry. (entry + 1) % word) xs) (v + 1) ≡ find xs v
unfolding find
find-map_suc [] v h k = refl
find-map_suc (x ∷ xs) v h k = ground (arith, find-map_suc xs v)

largest-map_suc :
    (x : ℕ) (xs : List ℕ)
    → largest (x ∷ xs) + 1 < word
    → largest (map (λ entry. (entry + 1) % word) (x ∷ xs)) ≡ largest (x ∷ xs) + 1
largest-map_suc x [] h = omega arith
largest-map_suc x (y ∷ xs) h = omega (arith, largest-map_suc y xs (omega arith))

map_age :
    (xs : List ℕ) (k : ℕ)
    → largest xs + 1 < word
    → map (λ entry. entry + k) (map (λ entry. (entry + 1) % word) xs)
      ≡ map (λ entry. entry + suc k) xs
map_age [] k h = refl
map_age (x ∷ xs) k h = ground (arith, map_age xs k)

map_age_zero : (xs : List ℕ) → map (λ entry. entry + 0) xs ≡ xs
map_age_zero [] = refl
map_age_zero (x ∷ xs) = ground (arith, map_age_zero xs)

length-age : (xs : List ℕ) → length (map (λ entry. (entry + 1) % word) xs) ≡ length xs
length-age [] = refl
length-age (x ∷ xs) = ap suc (length-age xs)

module _ (bits : ℕ) (hit_promotion_policy : ℕ → ℕ) (small : distant_future bits < word) where
  -- With `k` rounds of aging to go, the first of the largest entries is the victim.
  pub miss_loop_lem :
      (k fuel : ℕ) (xs : List ℕ)
      → largest xs + k ≡ distant_future bits
      → k < fuel
      → 0 < length xs
      → miss_loop bits hit_promotion_policy fuel xs
        ≡ some (
          find xs (largest xs),
          set (map (λ entry. entry + k) xs) (find xs (largest xs)) (long_interval bits),
        )
  unfolding miss_loop
  miss_loop_lem k zero xs e h pos = absurd (omega arith)
  miss_loop_lem zero (suc fuel) xs e h pos =
      let e' : distant_future bits ≡ largest xs = omega arith in
      let here : (find xs (largest xs) == length xs) ≡ false =
        ground (arith, find-lt_of_largest xs pos) in
      rw (e', map_age_zero xs, here) refl
  miss_loop_lem (suc k) (suc fuel) [] e h pos = absurd (omega arith)
  miss_loop_lem (suc k) (suc fuel) (x ∷ xs) e h pos =
      let absent : (find (x ∷ xs) (distant_future bits) == length (x ∷ xs)) ≡ true =
        (==_iff _ _).1 (find_above (x ∷ xs) (distant_future bits) (omega arith)) in
      let older : List ℕ = map (λ entry. (entry + 1) % word) (x ∷ xs) in
      let top : largest older ≡ largest (x ∷ xs) + 1 = largest-map_suc x xs (omega arith) in
      let same : find older (largest older) ≡ find (x ∷ xs) (largest (x ∷ xs)) =
        ap (find older) top
        ∙ find-map_suc (x ∷ xs) (largest (x ∷ xs)) (omega arith) (omega arith) in
      rw absent (miss_loop_lem k fuel older (omega (arith, top)) (omega arith) (omega arith))
      ∙ ap₂ (λ i entries. some (i, set entries i (long_interval bits))) same
          (map_age (x ∷ xs) k (omega arith))
