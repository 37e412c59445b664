-- ===== src/Search/Bisect.antt =====
-- The element that the bisection ends at.
use cache_hound.Common.{
  ℕ, zero, suc, ◌+◌, ◌-◌, ◌/◌, ◌^◌, ◌<◌, ◌≤◌, ◌≡◌, refl, leb, ◌==◌, Bool, true, false, none, some,
  arith, Bool-cases, inl, inr, ◌⊎◌, pow-pos, int_shift_lem, ==_of_lt, ==_refl,
}
use cache_hound.Search.{bisect, group_test, locate_set}

pub dist_positive : (first last : ℕ) → first < last → (last - first == 0) ≡ false
dist_positive first last lt = ground arith

dist_one : (first last : ℕ) → first < last → leb (last - first) 1 ≡ true → last ≡ first + 1
dist_one first last lt one = ground arith

module _ {M : Type 0} (test : ℕ → ℕ → M → Bool × M) where
  -- The test answers a predicate on ranges, whatever the state of the memory, and the predicate
  -- holds of one half of each range that it holds of.
  pub record Answers (holds : ℕ → ℕ → Bool) : Type 0 where
    pub answers : (a b : ℕ) (memory : M) → (test a b memory).0 ≡ holds a b
    pub splits :
        (a m b : ℕ) → a < m → m < b → holds a b ≡ true → holds a m ≡ false → holds m b ≡ true

  module _ (holds : ℕ → ℕ → Bool) (t : Answers holds) where
    bisect-finds :
        (fuel first last : ℕ) (memory : M)
        → first < last
        → last < first + fuel
        → holds first last ≡ true
        → (i : ℕ) × (memory' : M) × (bisect test fuel first last memory ≡ some (i, memory'))
          × (first ≤ i)
          × (i < last)
          × (holds i (i + 1) ≡ true)
    unfolding bisect
    bisect-finds zero first last memory lt enough h = absurd (omega arith)
    bisect-finds (suc fuel) first last memory lt enough h =
        let mid : ℕ = first + (last - first) / 2 in
        let next : M = (test first mid memory).1 in
        elim (Bool-cases (leb (last - first) 1)) [
          | inl one ↦ (
            first,
            memory,
            rw (one, dist_positive first last lt) refl,
            omega arith,
            lt,
            rw (dist_one first last lt one) at h,
          )
          | inr more ↦ elim (Bool-cases (holds first mid)) [
            | inl left ↦
                let (i, memory', run, low, high, found) =
                  bisect-finds fuel first mid next (ground arith) (ground arith) left in
                (
                  i,
                  memory',
                  rw (more, t.answers first mid memory, left) run,
                  low,
                  omega arith,
                  found,
                )
            | inr right ↦
                let (i, memory', run, low, high, found) =
                  bisect-finds fuel mid last next (ground arith) (ground arith)
                    (t.splits first mid last (ground arith) (ground arith) h right) in
                (
                  i,
                  memory',
                  rw (more, t.answers first mid memory, right) run,
                  omega arith,
                  high,
                  found,
                )
          ]
        ]

    -- For a test that answers a property of ranges, such that of two parts of a range that has it
    -- the second has it if the first does not, and a range that is not empty, the group test ends
    -- without a fault, at the end if the whole range does not have the property and else at an
    -- element that has it alone.
    pub group_test-finds :
        (n : ℕ) (memory : M)
        → 0 < n
        → (i : ℕ) × (memory' : M) × (group_test test n memory ≡ some (i, memory'))
          × (((i ≡ n) × (holds 0 n ≡ false)) ⊎ ((i < n) × (holds i (i + 1) ≡ true)))
    unfolding group_test
    group_test-finds n memory pos = elim (Bool-cases (holds 0 n)) [
      | inl h ↦
          let (i, memory', run, low, high, found) =
            bisect-finds (n + 1) 0 n ((test 0 n memory).1) pos (omega arith) h in
          (i, memory', rw (t.answers 0 n memory, h) run, inr (high, found))
      | inr h ↦ (n, (test 0 n memory).1, rw (t.answers 0 n memory, h) refl, inl (refl, h))
    ]

    -- For a test that answers a property of ranges, such that of two parts of a range that has it
    -- the second has it if the first does not, and at most 30 index bits, `locate_set` ends without
    -- a fault: it returns no set if the range of all sets does not have the property, and else a
    -- set below 2 ^ index_bits that has it alone.
    pub locate_set-finds :
        (index_bits : ℕ) (memory : M)
        → index_bits < 31
        → (memory' : M) × (((locate_set test index_bits memory ≡ some (none, memory'))
              × (holds 0 (2 ^ index_bits) ≡ false))
            ⊎ ((set : ℕ) × (locate_set test index_bits memory ≡ some (some set, memory'))
                × (set < 2 ^ index_bits)
                × (holds set (set + 1) ≡ true)))
    unfolding locate_set
    locate_set-finds index_bits memory int =
        let (i, memory', run, cases) =
          group_test-finds (2 ^ index_bits) memory (pow-pos index_bits) in
        elim cases [
          | inl (e, h) ↦ (
            memory',
            inl (rw (int_shift_lem index_bits int, run, e, ==_refl (2 ^ index_bits)) refl, h),
          )
          | inr (lt, h) ↦ (
            memory',
            inr (
              i,
              rw (int_shift_lem index_bits int, run, ==_of_lt i (2 ^ index_bits) lt) refl,
              lt,
              h,
            ),
          )
        ]
