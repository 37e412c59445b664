-- ===== src/Search/Cost.antt =====
-- The number of tests that the search makes, whatever the test answers.
use native.Mathlib.Nat.{pow-suc}
use cache_hound.Common.{
  ℕ, zero, suc, ◌+◌, ◌-◌, ◌*◌, ◌/◌, ◌^◌, ◌<◌, ◌≤◌, ◌≡◌, refl, leb, Bool, true, some, arith,
  Bool-cases, inl, inr,
}
use cache_hound.Search.{bisect, group_test}
use cache_hound.Search.Bisect.{dist_positive}

module _ {M : Type 0} (test : ℕ → ℕ → M → Bool × M) where
  -- The test, counting its calls.
  unfoldable pub counted : ℕ → ℕ → M × ℕ → Bool × (M × ℕ)
  counted a b (memory, calls) =
      let (answer, memory') = test a b memory in (answer, (memory', calls + 1))

  bisect-calls :
      (k fuel first last : ℕ) (st : M × ℕ)
      → first < last
      → last ≤ first + 2 ^ k
      → last < first + fuel
      → (i : ℕ) × (st' : M × ℕ) × (bisect counted fuel first last st ≡ some (i, st'))
        × (first ≤ i)
        × (i < last)
        × (st'.1 ≤ st.1 + k)
  unfolding bisect counted
  bisect-calls k zero first last st lt small enough = absurd (omega arith)
  bisect-calls zero (suc fuel) first last st lt small enough =
      let one : leb (last - first) 1 ≡ true = ground arith in
      (first, st, rw (one, dist_positive first last lt) refl, omega arith, lt, omega arith)
  bisect-calls (suc k) (suc fuel) first last st lt small enough =
      let mid : ℕ = first + (last - first) / 2 in
      let next : M × ℕ = (counted first mid st).1 in
      let double : 2 ^ suc k ≡ 2 ^ k * 2 = pow-suc 2 k in
      elim (Bool-cases (leb (last - first) 1)) [
        | inl one ↦
            (first, st, rw (one, dist_positive first last lt) refl, omega arith, lt, omega arith)
        | inr more ↦ elim (Bool-cases ((counted first mid st).0)) [
          | inl left ↦
              let (i, st', run, low, high, calls) =
                bisect-calls k fuel first mid next (ground arith) (ground (arith, double))
                  (ground arith) in
              (i, st', rw (more, left) run, low, omega arith, omega arith)
          | inr right ↦
              let (i, st', run, low, high, calls) =
                bisect-calls k fuel mid last next (ground arith) (ground (arith, double))
                  (ground arith) in
              (i, st', rw (more, right) run, omega arith, high, omega arith)
        ]
      ]

  -- Whatever the test answers, on a range of at least one and at most 2 ^ k elements the group test
  -- ends without a fault, at an element of the range or its end, after at most k + 1 calls of the
  -- test.
  pub group_test-calls :
      (k n : ℕ) (memory : M)
      → 0 < n
      → n ≤ 2 ^ k
      → (i : ℕ) × (memory' : M) × (calls : ℕ) × (group_test counted n (memory, 0)
          ≡ some (i, (memory', calls)))
        × (i ≤ n)
        × (calls ≤ k + 1)
  unfolding group_test counted
  group_test-calls k n memory pos small = elim (Bool-cases ((test 0 n memory).0)) [
    | inl exists ↦
        let (i, st', run, low, high, calls) =
          bisect-calls k (n + 1) 0 n ((test 0 n memory).1, 1) pos (omega arith) (omega arith) in
        (i, st'.0, st'.1, rw exists run, omega arith, omega arith)
    | inr none_exists ↦ (n, (test 0 n memory).1, 1, rw none_exists refl, omega arith, omega arith)
  ]
