-- ===== src/Policy/Lru/Recency.antt =====
-- `order_` lists the ways from the most to the least recently used.
use mathlib.Core.List.{mem-cons}
use mathlib.Core.Logic.Or
use cache_hound.Common.{
  subst, ℕ, ◌<◌, ◌≡◌, refl, List, [], ◌∷◌, ◌++◌, some, arith, length, length-append, append-nil,
}
use cache_hound.Policy.{Contract}
use cache_hound.Policy.Order.{
  iota, find, rotate_to_front_lem, length-iota, IsOrder, iota-IsOrder, lt_of_IsOrder-mem,
  IsOrder-front, IsOrder-split, length-front, last_split,
}
use cache_hound.Policy.Lru.{Lru, init, ways, hit_at, hit, miss, lru}

pub record IsValid (s : Lru) : Type 0 where
  pub order : IsOrder s.order
  pub some_way : 0 < length s.order

pub hit-split :
    (pre : List ℕ) (w : ℕ) (post : List ℕ)
    → find (pre ++ (w ∷ post)) w ≡ length pre
    → hit (record { order = pre ++ (w ∷ post) }) w ≡ some (record { order = w ∷ (pre ++ post) })
unfolding hit hit_at
hit-split pre w post e =
    ground (arith, rotate_to_front_lem pre w post, length-append pre (w ∷ post))

-- `miss` takes the last way, and makes it the first.
pub miss-last :
    (pre : List ℕ) (w : ℕ)
    → miss (record { order = pre ++ (w ∷ []) }) ≡ some (w, record { order = w ∷ pre })
unfolding miss hit_at
miss-last pre w =
    ground (arith, rotate_to_front_lem pre w [], length-append pre (w ∷ []), append-nil pre)

pub fresh-IsValid : (n : ℕ) → 0 < n → IsValid (record { order = iota n 0 })
fresh-IsValid n h = record { order = iota-IsOrder n; some_way = omega (arith, length-iota n 0) }

pub init-IsValid : (n : ℕ) → 0 < n → (s : Lru) × (init n ≡ some s) × IsValid s × (ways s ≡ n)
unfolding init ways
init-IsValid n h = (record { order = iota n 0 }, ground arith, fresh-IsValid n h, length-iota n 0)

pub IsValid-front :
    (pre : List ℕ) (w : ℕ) (post : List ℕ)
    → IsValid (record { order = pre ++ (w ∷ post) })
    → IsValid (record { order = w ∷ (pre ++ post) })
IsValid-front pre w post v = record {
  order = IsOrder-front pre w post v.order;
  some_way = omega arith;
}

-- A hit on a way of the set moves it to the front, wherever it stood.
pub hit_lem :
    (s : Lru) (w : ℕ)
    → IsValid s
    → w < ways s
    → (pre : List ℕ) × (post : List ℕ) × (s.order ≡ pre ++ (w ∷ post))
      × (hit s w ≡ some (record { order = w ∷ (pre ++ post) }))
      × IsValid (record { order = w ∷ (pre ++ post) })
unfolding ways
hit_lem s w v h =
    let (pre, post, e, found) = IsOrder-split s.order w v.order h in
    let e' : s ≡ record { order = pre ++ (w ∷ post) } = λ i. record { order = e i } in
    (
      pre,
      post,
      e,
      rw e' (hit-split pre w post (subst (λ o. find o w ≡ length pre) e found)),
      IsValid-front pre w post (subst IsValid e' v),
    )

-- A miss takes the last way and moves it to the front.
pub miss_lem :
    (s : Lru)
    → IsValid s
    → (pre : List ℕ) × (w : ℕ) × (s.order ≡ pre ++ (w ∷ []))
      × (miss s ≡ some (w, record { order = w ∷ pre }))
      × IsValid (record { order = w ∷ pre })
miss_lem s v =
    let (pre, w, e, _) = last_split s.order v.some_way in
    let e' : s ≡ record { order = pre ++ (w ∷ []) } = λ i. record { order = e i } in
    (
      pre,
      w,
      e,
      rw e' (miss-last pre w),
      subst (λ l. IsValid (record { order = w ∷ l })) (append-nil pre)
          (IsValid-front pre w [] (subst IsValid e' v)),
    )

unfoldable pub lru-Contract : Contract lru
unfolding ways
lru-Contract = record {
  IsValid = IsValid;
  Used = λ s w. w < ways s;
  used_lt = λ s w v u. u;
  hit_lem = λ s w v u.
      let (pre, post, e, run, v') = hit_lem s w v u in
      let same : length (w ∷ (pre ++ post)) ≡ length s.order = rw e (length-front pre w post) in
      (record { order = w ∷ (pre ++ post) }, run, v', same, λ x k. rw same k);
  miss_lem = λ s v.
      let (pre, w, e, run, v') = miss_lem s v in
      let same : length (w ∷ pre) ≡ length s.order =
        rw e (omega (arith, length-append pre (w ∷ []))) in
      (
        w,
        record { order = w ∷ pre },
        run,
        v',
        same,
        lt_of_IsOrder-mem (w ∷ pre) w v'.order (mem-cons.1 (Or.inl refl)),
        λ x k. rw same k,
      );
}
