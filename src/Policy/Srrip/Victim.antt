-- ===== src/Policy/Srrip/Victim.antt =====
-- The victim of a miss, the entries after it, and the check from the initial state.
use cache_hound.Common.{
  ℕ, zero, suc, ◌+◌, ◌-◌, ◌<◌, ◌≤◌, ◌≡◌, ◌∙◌, List, [], ◌∷◌, map, some, arith, length, set,
  replicate, word, lt→ltb, get_elem?, get_elem?-lt, length-set, length-map, length-replicate,
}
use cache_hound.Policy.{Contract}
use cache_hound.Policy.Order.{find}
use cache_hound.Policy.Srrip.{
  Srrip, distant_future, long_interval, init, ways, hit, miss, srrip, hit_priority,
  frequency_priority,
}
use cache_hound.Policy.Srrip.Aging.{largest, find-lt_of_largest, miss_loop_lem}

pub record IsValid (bits : ℕ) (s : Srrip) : Type 0 where
  pub bounded : largest s.entries ≤ distant_future bits
  pub some_way : 0 < length s.entries

largest-map_age : (xs : List ℕ) (k : ℕ) → largest (map (λ entry. entry + k) xs) ≤ largest xs + k
largest-map_age [] k = omega arith
largest-map_age (x ∷ xs) k = omega (arith, largest-map_age xs k)

pub largest-set-le : (xs : List ℕ) (i v b : ℕ) → largest xs ≤ b → v ≤ b → largest (set xs i v) ≤ b
largest-set-le [] i v b h k = omega arith
largest-set-le (x ∷ xs) zero v b h k = omega arith
largest-set-le (x ∷ xs) (suc i) v b h k = omega (arith, largest-set-le xs i v b (omega arith) k)

pub largest-replicate-le : (n v : ℕ) → largest (replicate n v) ≤ v
largest-replicate-le zero v = omega arith
largest-replicate-le (suc n) v = omega (arith, largest-replicate-le n v)

pub get_elem?-le-largest : (xs : List ℕ) (i v : ℕ) → get_elem? xs i ≡ some v → v ≤ largest xs
get_elem?-le-largest [] i v h = ground arith
get_elem?-le-largest (x ∷ xs) zero v h = ground arith
get_elem?-le-largest (x ∷ xs) (suc i) v h = omega (arith, get_elem?-le-largest xs i v h)

pub hit_priority-le : (entry : ℕ) → hit_priority entry ≤ entry
unfolding hit_priority
hit_priority-le entry = omega arith

pub frequency_priority-le : (entry : ℕ) → frequency_priority entry ≤ entry
unfolding frequency_priority
frequency_priority-le entry = ground arith

module _ (bits : ℕ) (hit_promotion_policy : ℕ → ℕ) (positive : 0 < distant_future bits)
    (small : distant_future bits < word) where
  -- The state after a miss: all entries aged alike until the largest is `distant_future`, and then
  -- the victim's set to `long_interval`.
  abbrev pub after_miss : Srrip → Srrip
  after_miss s = record {
    entries =
        set (map (λ entry. entry + (distant_future bits - largest s.entries)) s.entries)
          (find s.entries (largest s.entries)) (distant_future bits - 1);
  }

  -- With `distant_future` positive and below the machine word, a miss on a state with at least one
  -- way and no entry above `distant_future` ends: its victim is the first way with the largest
  -- entry, all entries are aged alike until that entry is `distant_future` and then the victim's is
  -- one less; the new state is valid and has as many ways.
  pub miss-largest :
      (s : Srrip)
      → IsValid bits s
      → (miss bits hit_promotion_policy s ≡ some (find s.entries (largest s.entries), after_miss s))
        × IsValid bits (after_miss s)
        × (find s.entries (largest s.entries) < length s.entries)
        × (length (after_miss s).entries ≡ length s.entries)
  unfolding miss
  miss-largest s v =
      let k : ℕ = distant_future bits - largest s.entries in
      let i : ℕ = find s.entries (largest s.entries) in
      let long : long_interval bits ≡ distant_future bits - 1 = omega arith in
      let aged : List ℕ = map (λ entry. entry + k) s.entries in
      let len : length (set aged i (distant_future bits - 1)) ≡ length s.entries =
        length-set aged i (distant_future bits - 1) ∙ length-map (λ entry. entry + k) s.entries in
      (
        rw (
          miss_loop_lem bits hit_promotion_policy small k (distant_future bits + 1) s.entries
              (omega (arith, v.bounded)) (omega arith) v.some_way,
          long,
        ),
        record {
          bounded =
              largest-set-le aged i _ _ (omega (arith, largest-map_age s.entries k, v.bounded))
                (omega arith);
          some_way = omega (arith, len, v.some_way);
        },
        find-lt_of_largest s.entries v.some_way,
        len,
      )

  pub init-IsValid :
      (n : ℕ)
      → 0 < n
      → (s : Srrip) × (init bits hit_promotion_policy n ≡ some s)
        × IsValid bits s
        × (ways bits hit_promotion_policy s ≡ n)
  unfolding init ways
  init-IsValid n h = (
    record { entries = replicate n (distant_future bits) },
    rw (lt→ltb 0 n h),
    record {
      bounded = largest-replicate-le n (distant_future bits);
      some_way = omega (arith, length-replicate n (distant_future bits));
    },
    length-replicate n (distant_future bits),
  )

  unfoldable pub srrip-Contract :
      ((entry : ℕ) → hit_promotion_policy entry ≤ entry)
      → Contract (srrip bits hit_promotion_policy)
  unfolding ways hit
  srrip-Contract promotion_le = record {
    IsValid = IsValid bits;
    Used = λ s w. w < length s.entries;
    used_lt = λ s w v u. u;
    hit_lem = λ s w v u.
        let (entry, e) = get_elem?-lt s.entries w u in
        let len : length (set s.entries w (hit_promotion_policy entry)) ≡ length s.entries =
          length-set s.entries w (hit_promotion_policy entry) in
        (
          record { entries = set s.entries w (hit_promotion_policy entry) },
          rw e,
          record {
            bounded = largest-set-le s.entries w _ _ v.bounded (
                omega
                  (arith, v.bounded, get_elem?-le-largest s.entries w entry e, promotion_le entry));
            some_way = omega (arith, len, v.some_way);
          },
          len,
          λ x k. rw len k,
        );
    miss_lem = λ s v.
        let (run, v', lt, len) = miss-largest s v in
        (_, after_miss s, run, v', len, rw len lt, λ x k. rw len k);
  }
