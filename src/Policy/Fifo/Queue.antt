-- ===== src/Policy/Fifo/Queue.antt =====
-- `order_` is the queue of the ways, the next victim last.
use mathlib.Core.List.{mem-cons, reverse}
use mathlib.Core.Logic.Or
use cache_hound.Common.{
  ℕ, ◌<◌, ◌≡◌, refl, ap, List, [], ◌∷◌, ◌++◌, Option, some, arith, length, length-append,
  append-nil, subst, true, ◌>>=◌, ◌∙◌,
}
use cache_hound.Policy.{Contract}
use cache_hound.Policy.Order.{
  iota, rotate_to_front_lem, length-iota, IsOrder, iota-IsOrder, lt_of_IsOrder-mem, IsOrder-front,
  last_split,
}
use cache_hound.Policy.Cyclic.{misses, check_cyclic_eviction}
use cache_hound.Policy.Rotating.{misses-round, check-round}
use cache_hound.Policy.Fifo.{Fifo, init, ways, hit_at, hit, miss, fifo}

pub record IsValid (s : Fifo) : Type 0 where
  pub order : IsOrder s.order
  pub some_way : 0 < length s.order

abbrev with_order : List ℕ → Fifo
with_order order = record { order = order }

pub miss-last :
    (pre : List ℕ) (w : ℕ) → miss (with_order (pre ++ (w ∷ []))) ≡ some (w, with_order (w ∷ pre))
unfolding miss hit_at
miss-last pre w =
    ground (arith, rotate_to_front_lem pre w [], length-append pre (w ∷ []), append-nil pre)

pub fresh-IsValid : (n : ℕ) → 0 < n → IsValid (record { order = iota n 0 })
fresh-IsValid n h = record { order = iota-IsOrder n; some_way = omega (arith, length-iota n 0) }

pub init-IsValid : (n : ℕ) → 0 < n → (s : Fifo) × (init n ≡ some s) × IsValid s × (ways s ≡ n)
unfolding init ways
init-IsValid n h = (with_order (iota n 0), ground arith, fresh-IsValid n h, length-iota n 0)

-- A miss on a valid state takes the last way of the queue and moves it to the front.
pub miss_lem :
    (s : Fifo)
    → IsValid s
    → (pre : List ℕ) × (w : ℕ) × (s.order ≡ pre ++ (w ∷ []))
      × (miss s ≡ some (w, with_order (w ∷ pre)))
      × IsValid (with_order (w ∷ pre))
miss_lem s v =
    let (pre, w, e, _) = last_split s.order v.some_way in
    let o : IsOrder (w ∷ (pre ++ [])) = IsOrder-front pre w [] (subst IsOrder e v.order) in
    (
      pre,
      w,
      e,
      ap (λ l. miss (with_order l)) e ∙ miss-last pre w,
      record { order = subst (λ l. IsOrder (w ∷ l)) (append-nil pre) o; some_way = omega arith },
    )

unfoldable pub fifo-Contract : Contract fifo
unfolding ways hit
fifo-Contract = record {
  IsValid = IsValid;
  Used = λ s w. w < ways s;
  used_lt = λ s w v u. u;
  hit_lem = λ s w v u. (s, refl, v, refl, λ x k. k);
  miss_lem = λ s v.
      let (pre, w, e, run, v') = miss_lem s v in
      let same : length (w ∷ pre) ≡ length s.order =
        omega (arith, ap length e, length-append pre (w ∷ [])) in
      (
        w,
        with_order (w ∷ pre),
        run,
        v',
        same,
        lt_of_IsOrder-mem (w ∷ pre) w v'.order (mem-cons.1 (Or.inl refl)),
        λ x k. rw same k,
      );
}

-- The hits of a list of ways, in order.
unfoldable pub hits : List ℕ → Fifo → Option Fifo
hits [] s = some s
hits (w ∷ ws) s = hit s w >>= λ s'. hits ws s'

-- After any hits, which never fail, as many misses as there are ways return the ways of the queue
-- from the last to the first and leave the queue as it was before the hits.
pub misses-hits :
    (ws : List ℕ) (s : Fifo)
    → (hits ws s >>= λ s'. misses fifo (ways s) s') ≡ some (reverse s.order, s)
unfolding hits hit ways
misses-hits [] s = misses-round fifo with_order miss-last (λ order. refl) s.order
misses-hits (w ∷ ws) s = misses-hits ws s

-- The cyclic eviction check succeeds on every valid state, and does not change it.
pub check_cyclic_eviction-fifo :
    (s : Fifo) → IsValid s → check_cyclic_eviction fifo s ≡ some (true, s)
unfolding ways
check_cyclic_eviction-fifo s v =
    check-round fifo with_order miss-last (λ order. refl) s.order v.order
