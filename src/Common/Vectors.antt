-- ===== src/Common/Vectors.antt =====
-- Operations of `std::vector` that may fault.
use Prim.Native.Nat.{ℕ, zero, suc, ◌-◌, ◌<◌}
use mathlib.Core.Path.{◌≡◌, sym, ◌∙◌, subst}
use mathlib.Core.Logic.{◌≢◌, ◌⊎◌, inl, inr}
use native.Mathlib.Decide.{dec_lt, ℕ_discrete}
use mathlib.Core.List.{List, ◌++◌}
use mathlib.Core.Option.{Option, some}
use native.Mathlib.Omega.{arith}
use cache_hound.Common.Tests.{some-inj, ltb, lt→ltb, check, if◌then◌else◌, ◌>>◌}
use cache_hound.Common.Lists.{
  get_elem?, get_elem?-lt, lt_of_get_elem?, length-set, get_elem?-set_self, get_elem?-set_ne,
  get_elem?-append_left, get_elem?-append_right, length, set, take, replicate,
}

module _ {ℓ} {A : Type ℓ} where
  -- `v[i] = a`.
  unfoldable pub write : List A → ℕ → A → Option (List A)
  write xs i v = do check (ltb i (length xs)); some (set xs i v)

  -- `v.resize(n)`, with the value that new elements have.
  unfoldable pub resize : List A → ℕ → A → List A
  resize xs n d = if ltb (length xs) n then xs ++ replicate (n - length xs) d else take n xs

  pub write_lem : (xs : List A) (i : ℕ) (v : A) → i < length xs → write xs i v ≡ some (set xs i v)
  unfolding write
  write_lem xs i v h = rw (lt→ltb i (length xs) h)

  pub resize_grow :
      (xs : List A) (n : ℕ) (d : A)
      → length xs < n
      → resize xs n d ≡ xs ++ replicate (n - length xs) d
  unfolding resize
  resize_grow xs n d h = rw (lt→ltb (length xs) n h)

  pub value_of_replicate : (n i : ℕ) (d w : A) → get_elem? (replicate n d) i ≡ some w → w ≡ d
  value_of_replicate zero i d w h = cc
  value_of_replicate (suc n) zero d w h = cc
  value_of_replicate (suc n) (suc i) d w h = value_of_replicate n i d w h

  -- An element of a lengthened vector is an old one, or the padding.
  pub get_elem?-padded :
      (xs : List A) (n i : ℕ) (d w : A)
      → get_elem? (xs ++ replicate n d) i ≡ some w
      → (get_elem? xs i ≡ some w) ⊎ (w ≡ d)
  get_elem?-padded xs n i d w h = elim (dec_lt i (length xs)) [
    | yes inside ↦
        let (v, e) = get_elem?-lt xs i inside in
        inl (e ∙ sym (get_elem?-append_left xs (replicate n d) i e) ∙ h)
    | no outside ↦ inr (
        value_of_replicate n (i - length xs) d w
          (sym (get_elem?-append_right xs (replicate n d) i (omega arith)) ∙ h))
  ]

  -- What stands in a vector after a write.
  pub get_elem?-set_cases :
      (xs : List A) (i j : ℕ) (v x : A)
      → get_elem? (set xs i v) j ≡ some x
      → ((i ≡ j) × (x ≡ v)) ⊎ ((i ≢ j) × (get_elem? xs j ≡ some x))
  get_elem?-set_cases xs i j v x h = elim (ℕ_discrete i j) [
    | yes e ↦
        let inside : j < length xs =
          omega (arith, lt_of_get_elem? (set xs i v) j h, length-set xs i v) in
        inl (
          e,
          some-inj (
              sym (subst (λ k. get_elem? (set xs k v) j ≡ some x) e h)
              ∙ get_elem?-set_self xs j v inside),
        )
    | no ne ↦ inr (ne, sym (get_elem?-set_ne xs i j v ne) ∙ h)
  ]
