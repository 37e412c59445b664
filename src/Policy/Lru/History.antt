-- ===== src/Policy/Lru/History.antt =====
-- What a run of hits and misses does to the recency order.
use mathlib.Core.List.{Mem, Nodup, Nodup-cons, mem-cons, mem-append, reverse}
use mathlib.Core.Logic.Or
use cache_hound.Common.{
  ℕ, suc, ◌<◌, ◌≡◌, refl, ap, sym, subst, List, [], ◌∷◌, ◌++◌, Option, some, length, true,
  if◌then◌else◌, ◌==◌, ==_iff, ==_refl, ◌>>=◌, Bool-cases, inl, inr, ◌∙◌, All,
}
use cache_hound.Policy.Order.{IsOrder-Nodup, length-front}
use cache_hound.Policy.Cyclic.{misses, check_cyclic_eviction}
use cache_hound.Policy.Rotating.{misses-round, check-round}
use cache_hound.Policy.Lru.{Lru, ways, hit, lru}
use cache_hound.Policy.Lru.Recency.{IsValid, hit_lem, miss-last}

-- The list without the occurrences of a way.
abbrev pub without : ℕ → List ℕ → List ℕ
without w [] = []
without w (x ∷ xs) = if x == w then without w xs else x ∷ without w xs

-- The ways in the order of their first occurrence, each once.
abbrev pub distinct : List ℕ → List ℕ
distinct [] = []
distinct (x ∷ xs) = x ∷ without x (distinct xs)

-- The hits of a history whose latest entry stands first.
unfoldable pub hits : List ℕ → Lru → Option Lru
hits [] s = some s
hits (w ∷ older) s = hits older s >>= λ s'. hit s' w

without_absent : (w : ℕ) (xs : List ℕ) → ¬ Mem w xs → without w xs ≡ xs
without_absent w [] h = refl
without_absent w (x ∷ xs) h = elim (Bool-cases (x == w)) [
  | inl e ↦ absurd (h (mem-cons.1 (Or.inl (sym ((==_iff x w).0 e)))))
  | inr ne ↦ rw ne (ap (◌∷◌ x) (without_absent w xs (λ m. h (mem-cons.1 (Or.inr m)))))
]

without-split :
    (pre : List ℕ) (w : ℕ) (post : List ℕ)
    → Nodup (pre ++ (w ∷ post))
    → without w (pre ++ (w ∷ post)) ≡ pre ++ post
without-split [] w post d = rw (==_refl w) (without_absent w post (Nodup-cons.0 d).0)
without-split (x ∷ pre) w post d = elim (Bool-cases (x == w)) [
  | inl e ↦
      absurd ((Nodup-cons.0 d).0 (mem-append.1 (Or.inr (mem-cons.1 (Or.inl ((==_iff x w).0 e))))))
  | inr ne ↦ rw ne (ap (◌∷◌ x) (without-split pre w post (Nodup-cons.0 d).1))
]

distinct_of_Nodup : (xs : List ℕ) → Nodup xs → distinct xs ≡ xs
distinct_of_Nodup [] d = refl
distinct_of_Nodup (x ∷ xs) d =
    rw (distinct_of_Nodup xs (Nodup-cons.0 d).1)
      (ap (◌∷◌ x) (without_absent x xs (Nodup-cons.0 d).0))

hit-without :
    (s : Lru) (w : ℕ)
    → IsValid s
    → w < ways s
    → (hit s w ≡ some (record { order = w ∷ without w s.order }))
      × IsValid (record { order = w ∷ without w s.order })
      × (length (w ∷ without w s.order) ≡ length s.order)
hit-without s w v h =
    let (pre, post, e, run, v') = hit_lem s w v h in
    let d : Nodup (pre ++ (w ∷ post)) = subst Nodup e (IsOrder-Nodup s.order v.order) in
    let same : without w s.order ≡ pre ++ post = ap (without w) e ∙ without-split pre w post d in
    (
      run ∙ ap (λ l. some (record { order = w ∷ l })) (sym same),
      subst (λ l. IsValid (record { order = w ∷ l })) (sym same) v',
      ap (λ l. suc (length l)) same ∙ sym (ap length e ∙ sym (length-front pre w post)),
    )

-- From a valid state, a list of hits on ways of the set succeeds; the order is then the list of the
-- ways by their latest hit, the latest first, followed by the ways that were not hit as they stood
-- before; the state is valid and keeps its number of ways.
pub hits-distinct :
    (history : List ℕ) (s : Lru)
    → IsValid s
    → All (λ w. w < ways s) history
    → (hits history s ≡ some (record { order = distinct (history ++ s.order) }))
      × IsValid (record { order = distinct (history ++ s.order) })
      × (length (distinct (history ++ s.order)) ≡ length s.order)
unfolding hits ways
hits-distinct [] s v h =
    let e : distinct s.order ≡ s.order =
      distinct_of_Nodup s.order (IsOrder-Nodup s.order v.order) in
    (
      λ i. some (record { order = sym e i }),
      subst (λ l. IsValid (record { order = l })) (sym e) v,
      ap length e,
    )
hits-distinct (w ∷ older) s v h =
    let (run, v', len) = hits-distinct older s v h.1 in
    let (step, v'', len') =
      hit-without (record { order = distinct (older ++ s.order) }) w v'
        (subst (λ n. w < n) (sym len) h.0) in
    (rw run step, v'', len' ∙ len)

abbrev with_order : List ℕ → Lru
with_order order = record { order = order }

-- As many misses as there are ways return the ways of the order from the last to the first and
-- leave the state as it was.
pub misses-ways : (s : Lru) → misses lru (ways s) s ≡ some (reverse s.order, s)
unfolding ways
misses-ways s = misses-round lru with_order miss-last (λ order. refl) s.order

-- The cyclic eviction check succeeds on every valid state and does not change it.
pub check_cyclic_eviction-lru : (s : Lru) → IsValid s → check_cyclic_eviction lru s ≡ some (true, s)
unfolding ways
check_cyclic_eviction-lru s v = check-round lru with_order miss-last (λ order. refl) s.order v.order
