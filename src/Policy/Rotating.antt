-- ===== src/Policy/Rotating.antt =====
-- Policies that keep their ways in `order_` and on a miss move the last way to the front.
use mathlib.Core.List.{reverse, reverse-cons, reverse-reverse, reverse_perm}
use mathlib.Core.List.Perm
use cache_hound.Common.{
  ℕ, ◌≡◌, refl, ap, sym, ◌∙◌, List, [], ◌∷◌, ◌++◌, some, true, length, length-reverse, append-nil,
  append_assoc,
}
use cache_hound.Policy.{ReplacementPolicy}
use cache_hound.Policy.Order.{IsOrder, IsOrder-Nodup}
use cache_hound.Policy.Cyclic.{misses, check_cyclic_eviction, check_cyclic_eviction_lem}

module _ {S : Type 0} (p : ReplacementPolicy S) (with_order : List ℕ → S)
    (miss_last : (pre : List ℕ) (w : ℕ)
      → p.miss (with_order (pre ++ (w ∷ []))) ≡ some (w, with_order (w ∷ pre)))
    (ways_lem : (order : List ℕ) → p.ways (with_order order) ≡ length order) where
  misses_from :
      (zs ys : List ℕ)
      → misses p (length zs) (with_order (ys ++ reverse zs))
        ≡ some (zs, with_order (reverse zs ++ ys))
  unfolding misses
  misses_from [] ys = rw append-nil refl
  misses_from (z ∷ zs) ys =
      let e : ys ++ reverse (z ∷ zs) ≡ (ys ++ reverse zs) ++ (z ∷ []) =
        ap (◌++◌ ys) (reverse-cons z zs) ∙ sym (append_assoc ys (reverse zs) (z ∷ [])) in
      let e' : reverse zs ++ (z ∷ ys) ≡ reverse (z ∷ zs) ++ ys =
        sym (ap (λ l. l ++ ys) (reverse-cons z zs) ∙ append_assoc (reverse zs) (z ∷ []) ys) in
      rw (e, miss_last (ys ++ reverse zs) z, misses_from zs (z ∷ ys), e')

  -- As many misses as there are ways take the ways from the last to the first, and leave the order
  -- as it was.
  pub misses-round :
      (order : List ℕ)
      → misses p (p.ways (with_order order)) (with_order order)
        ≡ some (reverse order, with_order order)
  misses-round order = rw (ways_lem order) (
      rw (length-reverse order, append-nil, reverse-reverse order) at
        (misses_from (reverse order) []))

  pub check-round :
      (order : List ℕ)
      → IsOrder order
      → check_cyclic_eviction p (with_order order) ≡ some (true, with_order order)
  check-round order o =
      check_cyclic_eviction_lem p (with_order order) (reverse order) (with_order order)
        (misses-round order) (length-reverse order ∙ sym (ways_lem order))
        (Perm.nodup (Perm.symm (reverse_perm order)) (IsOrder-Nodup order o))
