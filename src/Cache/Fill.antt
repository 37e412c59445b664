-- ===== src/Cache/Fill.antt =====
-- What the operations do to the addresses that a valid cache holds.
use native.Mathlib.Nat.{
  mod-eq_of_lt, div-add-mod', mul-add-div_right, mul-add-mod_self_right, div-eq_of_lt,
  div-lt_iff_lt-mul,
}
use cache_hound.Common.{
  ℕ, ◌+◌, ◌*◌, ◌/◌, ◌%◌, ◌^◌, ◌<◌, ◌≡◌, ◌≢◌, ◌↔◌, refl, ap, sym, ◌∙◌, subst, true, false, Option,
  none, some, length, get_elem?, get_elem?-lt, set, write_lem, get_elem?-set_self, get_elem?-set_ne,
  get_elem?-set_cases, lt_of_get_elem?, word, arith, Bool-cases, inl, inr, ◌⊎◌, ℕ_discrete,
  some-inj, if◌then◌else◌,
}
use cache_hound.Cache.{
  SetAssociativePolicy, CacheLine, SetAssociativeCache, hit, invalidate, replace, fill,
}
use cache_hound.Cache.Contract.{SetContract}
use cache_hound.Cache.Lookup.{HoldsAt, IsValid, first, span_lem, set_first_lem, lookup_cases}
use cache_hound.Cache.Store.{Cached, HoldsAt-inj, IsValid-policy, IsValid-store, IsValid-clear}

-- The address that a line gives up.
abbrev pub evicted : CacheLine → Option ℕ
evicted line = if line.valid then some line.tag else none

evicted-some :
    (line : CacheLine) (b : ℕ) → evicted line ≡ some b → line ≡ record { valid = true; tag = b }
evicted-some line b h = elim (Bool-cases line.valid) [
  | inl yes_valid ↦
      let same : line.tag ≡ b = ground (arith, h) in
      λ i. record { valid = yes_valid i; tag = same i }
  | inr not_valid ↦ ground arith
]

module _ {S : Type 0} where
  stored-Cached :
      (s : SetAssociativeCache S) (policy : S) (i address : ℕ) (line : CacheLine)
      → get_elem? s.lines i ≡ some line
      → ((j k b : ℕ) → HoldsAt s.lines j b → HoldsAt s.lines k b → j ≡ k)
      → (b : ℕ)
      → Cached
          (record {
            policy = policy;
            lines = set s.lines i (record { valid = true; tag = address });
          })
          b
        ↔ ((b ≡ address) ⊎ (Cached s b × (evicted line ≢ some b)))
  stored-Cached s policy i address line found unique b =
      let new : CacheLine = record { valid = true; tag = address } in
      (
        (λ (j, h). elim (get_elem?-set_cases s.lines i j new _ h) [
          | inl (e, same) ↦ inl (ap (λ (l : CacheLine). l.tag) same)
          | inr (ne, old) ↦
              inr (
                (j, old),
                λ gone. ne (unique i j b (found ∙ ap some (evicted-some line b gone)) old),
              )
        ]),
        (elim [
          | inl e ↦ (
            i,
            get_elem?-set_self s.lines i new (lt_of_get_elem? s.lines i found)
                ∙ ap (λ t. some (record { valid = true; tag = t })) (sym e),
          )
          | inr ((j, h), stays) ↦ elim (ℕ_discrete i j) [
            | yes e ↦
                let same : line ≡ record { valid = true; tag = b } =
                  some-inj (sym found ∙ ap (get_elem? s.lines) e ∙ h) in
                absurd (stays (ap evicted same))
            | no ne ↦ (j, get_elem?-set_ne s.lines i j new ne ∙ h)
          ]
        ]),
      )

module _ {S : Type 0} (p : SetAssociativePolicy S) (c : SetContract p) where
  module _ (s : SetAssociativeCache S) (v : IsValid p c s) where
    replace_lem :
        (address : ℕ)
        → ((j : ℕ) → ¬ HoldsAt s.lines j address)
        → (victim : Option ℕ) × (s' : SetAssociativeCache S) × (replace p s address
            ≡ some (victim, s'))
          × IsValid p c s'
          × ((b : ℕ) → Cached s' b ↔ ((b ≡ address) ⊎ (Cached s b × (victim ≢ some b))))
          × ((b : ℕ) → victim ≡ some b → Cached s b)
    unfolding replace
    replace_lem address absent =
        let w : ℕ = p.ways s.policy in
        let index : ℕ = p.get_set s.policy address in
        let (way, policy, run, valid, same, lt, used, keep) =
          c.register_miss_lem s.policy index v.policy (c.get_set_lt s.policy address v.policy) in
        let start : ℕ = first p c s v address in
        let i : ℕ = start + way in
        let pos : 0 < w = c.some_way s.policy v.policy in
        let inside : i < length s.lines = omega (arith, span_lem p c s v address, lt) in
        let (line, found) = get_elem?-lt s.lines i inside in
        let new : CacheLine = record { valid = true; tag = address } in
        let quotient : i / w ≡ index =
          mul-add-div_right pos index way ∙ omega (arith, div-eq_of_lt {n = way} {m = w} lt) in
        let remainder : i % w ≡ way = mul-add-mod_self_right index w way ∙ mod-eq_of_lt lt in
        let moved = IsValid-policy p c s policy v valid same keep in
        (
          evicted line,
          record { policy = policy; lines = set s.lines i new },
          rw (set_first_lem p c s v address, run, found, write_lem s.lines i new inside) refl,
          IsValid-store p c (record { policy = policy; lines = s.lines }) i address moved absent
              (ap (λ k. i / k) same.same_ways ∙ quotient ∙ sym (same.same_set address))
              (subst (λ k. c.Used policy (i / k) (i % k)) (sym same.same_ways)
                (rw (quotient, remainder) used)),
          stored-Cached s policy i address line found v.unique,
          λ b gone. (i, found ∙ ap some (evicted-some line b gone)),
        )

    -- For a policy with a contract and a valid cache, `fill` never faults and leaves the cache
    -- valid. After it the cache holds the address and whatever it held before, less the victim that
    -- `fill` returns; a victim is an address that the cache held before.
    pub fill_lem :
        (address : ℕ)
        → (victim : Option ℕ) × (s' : SetAssociativeCache S) × (fill p s address
            ≡ some (victim, s'))
          × IsValid p c s'
          × ((b : ℕ) → Cached s' b ↔ ((b ≡ address) ⊎ (Cached s b × (victim ≢ some b))))
          × ((b : ℕ) → victim ≡ some b → Cached s b)
    unfolding fill
    fill_lem address = elim (lookup_cases p c s v address) [
      | inl (missing, absent) ↦
          let (victim, s', run, valid, cached, gone) = replace_lem address absent in
          (victim, s', rw (missing, run) refl, valid, cached, gone)
      | inr (i, found, h) ↦ (
        none,
        s,
        rw found refl,
        v,
        λ b. (
          (λ held. inr (held, λ e. cc)),
          (elim [ inl e ↦ subst (Cached s) (sym e) (i, h) | inr (held, stays) ↦ held ]),
        ),
        λ b e. cc,
      )
    ]

    module _ (handle address : ℕ) (h : HoldsAt s.lines handle address) where
      pub handle_lt : handle / p.ways s.policy < 2 ^ p.index_bits s.policy
      handle_lt =
          (div-lt_iff_lt-mul (c.some_way s.policy v.policy)).1
            (omega (arith, v.size, lt_of_get_elem? s.lines handle h))

      -- For a policy with a contract, a valid cache and the handle of a line that holds an address,
      -- `hit` does not fault, leaves the cache valid and no line changed.
      pub hit_lem :
          (s' : SetAssociativeCache S) × (hit p s handle ≡ some s')
          × IsValid p c s'
          × (s'.lines ≡ s.lines)
      unfolding hit
      hit_lem =
          let (policy, run, valid, same, keep) =
            c.register_hit_lem s.policy (handle / p.ways s.policy) (handle % p.ways s.policy)
              v.policy handle_lt (v.used handle address h) in
          (
            record s { policy = policy },
            rw (h, run) refl,
            IsValid-policy p c s policy v valid same keep,
            refl,
          )

      -- For a policy with a contract, a valid cache and the handle of a line that holds an address,
      -- `invalidate` does not fault, leaves the cache valid, and the cache then holds what it held
      -- before, less that address.
      pub invalidate_lem :
          (s' : SetAssociativeCache S) × (invalidate p s handle ≡ some s')
          × IsValid p c s'
          × ((b : ℕ) → Cached s' b ↔ (Cached s b × (b ≢ address)))
      unfolding invalidate
      invalidate_lem =
          let inside : handle < length s.lines = lt_of_get_elem? s.lines handle h in
          let new : CacheLine = record { valid = false; tag = address } in
          let place : (handle / p.ways s.policy * p.ways s.policy + handle % p.ways s.policy) % word
              ≡ handle =
            ap (λ n. n % word) (div-add-mod' handle (p.ways s.policy))
            ∙ mod-eq_of_lt (omega (arith, inside, v.fits)) in
          (
            record s { lines = set s.lines handle new },
            rw (h, place, write_lem s.lines handle new inside) refl,
            IsValid-clear p c s handle address v,
            λ b. (
              (λ (j, k). elim (get_elem?-set_cases s.lines handle j new _ k) [
                | inl (e, same) ↦ absurd (ground (arith, ap (λ (l : CacheLine). l.valid) same))
                | inr (ne, old) ↦ (
                  (j, old),
                  λ e. ne (v.unique handle j address h (subst (HoldsAt s.lines j) e old)),
                )
              ]),
              (λ ((j, old), other). (
                j,
                get_elem?-set_ne s.lines handle j new (λ e. other (
                      HoldsAt-inj s.lines j b address old
                        (subst (λ n. HoldsAt s.lines n address) e h)))
                    ∙ old,
              )),
            ),
          )
