-- ===== src/Policy/Srrip/Fresh.antt =====
-- The first round of misses on a fresh SRRIP state.
use cache_hound.Common.{
  ℕ, zero, suc, ◌+◌, ◌-◌, ◌<◌, ◌≤◌, ◌≡◌, ◌≢◌, refl, ap, ◌∙◌, sym, List, [], ◌∷◌, ◌++◌, map, some,
  arith, length, set, replicate, word, length-replicate, true, ap₂, lt→ltb, subst,
}
use cache_hound.Policy.{ReplacementPolicy}
use cache_hound.Policy.Order.{find, iota, length-iota, iota-Nodup}
use cache_hound.Policy.Cyclic.{misses, check_cyclic_eviction, check_cyclic_eviction_lem}
use cache_hound.Policy.Srrip.{Srrip, distant_future, init, ways, miss, srrip}
use cache_hound.Policy.Srrip.Aging.{largest}
use cache_hound.Policy.Srrip.Victim.{IsValid, miss-largest}

find-filled : (k a b : ℕ) (rest : List ℕ) → a ≢ b → find (replicate k a ++ (b ∷ rest)) b ≡ k
unfolding find
find-filled zero a b rest h = ground arith
find-filled (suc k) a b rest h = ground (arith, find-filled k a b rest h)

set-filled :
    (k a b : ℕ) (rest : List ℕ)
    → set (replicate k a ++ (b ∷ rest)) k a ≡ replicate (suc k) a ++ rest
set-filled zero a b rest = refl
set-filled (suc k) a b rest = ap (◌∷◌ a) (set-filled k a b rest)

largest-filled : (k m a b : ℕ) → a ≤ b → largest (replicate k a ++ replicate (suc m) b) ≡ b
largest-filled zero zero a b h = omega arith
largest-filled zero (suc m) a b h = omega (arith, largest-filled zero m a b h)
largest-filled (suc k) m a b h = omega (arith, largest-filled k m a b h)

map_age_none : (xs : List ℕ) (b : ℕ) → map (λ entry. entry + (b - b)) xs ≡ xs
map_age_none [] b = refl
map_age_none (x ∷ xs) b = ap₂ ◌∷◌ (omega arith) (map_age_none xs b)

length-filled : (k m a b : ℕ) → length (replicate k a ++ replicate m b) ≡ k + m
length-filled zero m a b = omega (arith, length-replicate m b)
length-filled (suc k) m a b = omega (arith, length-filled k m a b)

module _ (bits : ℕ) (hit_promotion_policy : ℕ → ℕ) (positive : 0 < distant_future bits)
    (small : distant_future bits < word) where
  -- `k` ways are taken and `m` are not.
  abbrev filled : ℕ → ℕ → Srrip
  filled k m = record {
    entries = replicate k (distant_future bits - 1) ++ replicate m (distant_future bits);
  }

  miss-filled :
      (k m : ℕ) → miss bits hit_promotion_policy (filled k (suc m)) ≡ some (k, filled (suc k) m)
  miss-filled k m =
      let d : ℕ = distant_future bits in
      let top : largest (filled k (suc m)).entries ≡ d =
        largest-filled k m (d - 1) d (omega arith) in
      let v : IsValid bits (filled k (suc m)) = record {
        bounded = omega (arith, top);
        some_way = omega (arith, length-filled k (suc m) (d - 1) d);
      } in
      rw (
        (miss-largest bits hit_promotion_policy positive small (filled k (suc m)) v).0,
        top,
        map_age_none (filled k (suc m)).entries d,
        find-filled k (d - 1) d (replicate m d) (omega arith),
        set-filled k (d - 1) d (replicate m d),
      )

  misses-filled :
      (m k : ℕ)
      → misses (srrip bits hit_promotion_policy) m (filled k m) ≡ some (iota m k, filled (k + m) 0)
  unfolding misses iota
  misses-filled zero k = let e : k ≡ k + 0 = omega arith in ap (λ j. some ([], filled j 0)) e
  misses-filled (suc m) k =
      let e : suc k ≡ k + 1 = omega arith in
      let e' : suc k + m ≡ k + suc m = omega arith in
      rw (miss-filled k m, misses-filled m (suc k))
        (ap₂ (λ i j. some (k ∷ iota m i, filled j 0)) e e')

  -- With `distant_future` positive and below the machine word, and at least one way, the
  -- constructor's state takes the ways 0, 1, 2, … in order in the first round of misses, and the
  -- cyclic eviction check succeeds on it.
  pub check_cyclic_eviction-fresh :
      (n : ℕ)
      → 0 < n
      → (s : Srrip) × (init bits hit_promotion_policy n ≡ some s)
        × (s' : Srrip) × (misses (srrip bits hit_promotion_policy) n s ≡ some (iota n 0, s'))
        × (check_cyclic_eviction (srrip bits hit_promotion_policy) s ≡ some (true, s'))
  unfolding init ways
  check_cyclic_eviction-fresh n h =
      let p : ReplacementPolicy Srrip = srrip bits hit_promotion_policy in
      let len : length (filled 0 n).entries ≡ n = length-replicate n (distant_future bits) in
      let run : misses p n (filled 0 n) ≡ some (iota n 0, filled (0 + n) 0) = misses-filled n 0 in
      (
        filled 0 n,
        rw (lt→ltb 0 n h),
        filled (0 + n) 0,
        run,
        check_cyclic_eviction_lem p (filled 0 n) (iota n 0) (filled (0 + n) 0)
            (subst (λ j. misses p j (filled 0 n) ≡ some (iota n 0, filled (0 + n) 0)) (sym len) run)
            (length-iota n 0 ∙ sym len) (iota-Nodup n 0),
      )
