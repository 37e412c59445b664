-- ===== src/Cache/Store.antt =====
-- Changes of the policy and of one line that keep a cache valid.
use native.Mathlib.Nat.{mod-eq_of_lt}
use cache_hound.Common.{
  ℕ, ◌*◌, ◌/◌, ◌%◌, ◌^◌, ◌<◌, ◌≡◌, refl, some, int_shift_lem, ap, sym, ◌∙◌, subst, true, false,
  List, length, set, length-set, get_elem?-set_cases, word, arith, inl, inr, some-inj, replicate,
  length-replicate, value_of_replicate,
}
use cache_hound.Cache.{init, sets, SetAssociativePolicy, CacheLine, SetAssociativeCache}
use cache_hound.Cache.Contract.{Same, SetContract}
use cache_hound.Cache.Lookup.{HoldsAt, IsValid}

pub HoldsAt-inj :
    (lines : List CacheLine) (i a b : ℕ) → HoldsAt lines i a → HoldsAt lines i b → a ≡ b
HoldsAt-inj lines i a b h k = ap (λ (l : CacheLine). l.tag) (some-inj (sym h ∙ k))

module _ {S : Type 0} where
  -- Some line holds the address.
  abbrev pub Cached : SetAssociativeCache S → ℕ → Type 0
  Cached s address = (i : ℕ) × HoldsAt s.lines i address

module _ {S : Type 0} (p : SetAssociativePolicy S) (c : SetContract p) where
  pub IsValid-policy :
      (s : SetAssociativeCache S) (policy : S)
      → IsValid p c s
      → c.IsValid policy
      → Same p s.policy policy
      → ((set way : ℕ) → c.Used s.policy set way → c.Used policy set way)
      → IsValid p c (record { policy = policy; lines = s.lines })
  IsValid-policy s policy v valid same keep = record {
    policy = valid;
    size = rw (same.same_bits, same.same_ways) v.size;
    fits = v.fits;
    placed = λ i tag h. ap (λ w. i / w) same.same_ways ∙ v.placed i tag h ∙ sym (same.same_set tag);
    used = λ i tag h.
        subst (λ w. c.Used policy (i / w) (i % w)) (sym same.same_ways)
          (keep (i / p.ways s.policy) (i % p.ways s.policy) (v.used i tag h));
    unique = v.unique;
  }

  -- An address that the cache does not hold is stored in a line of its set.
  pub IsValid-store :
      (s : SetAssociativeCache S) (i address : ℕ)
      → IsValid p c s
      → ((j : ℕ) → ¬ HoldsAt s.lines j address)
      → i / p.ways s.policy ≡ p.get_set s.policy address
      → c.Used s.policy (i / p.ways s.policy) (i % p.ways s.policy)
      → IsValid p c (record s { lines = set s.lines i (record { valid = true; tag = address }) })
  IsValid-store s i address v absent placed used =
      let new : CacheLine = record { valid = true; tag = address } in
      let tag_of : CacheLine → ℕ = λ l. l.tag in
      record {
        policy = v.policy;
        size = length-set s.lines i new ∙ v.size;
        fits = rw (length-set s.lines i new) v.fits;
        placed = λ j tag h. elim (get_elem?-set_cases s.lines i j new _ h) [
          | inl (e, same) ↦
              ap (λ k. k / p.ways s.policy) (sym e)
              ∙ placed
              ∙ ap (p.get_set s.policy) (sym (ap tag_of same))
          | inr (ne, old) ↦ v.placed j tag old
        ];
        used = λ j tag h. elim (get_elem?-set_cases s.lines i j new _ h) [
          | inl (e, same) ↦
              subst (λ k. c.Used s.policy (k / p.ways s.policy) (k % p.ways s.policy)) e used
          | inr (ne, old) ↦ v.used j tag old
        ];
        unique = λ j k tag h h'. elim (get_elem?-set_cases s.lines i j new _ h) [
          | inl (e, same) ↦ elim (get_elem?-set_cases s.lines i k new _ h') [
            | inl (e', same') ↦ sym e ∙ e'
            | inr (ne', old') ↦ absurd (absent k (subst (HoldsAt s.lines k) (ap tag_of same) old'))
          ]
          | inr (ne, old) ↦ elim (get_elem?-set_cases s.lines i k new _ h') [
            | inl (e', same') ↦ absurd (absent j (subst (HoldsAt s.lines j) (ap tag_of same') old))
            | inr (ne', old') ↦ v.unique j k tag old old'
          ]
        ];
      }

  -- A line that is no longer valid leaves the other addresses where they are.
  pub IsValid-clear :
      (s : SetAssociativeCache S) (i tag : ℕ)
      → IsValid p c s
      → IsValid p c (record s { lines = set s.lines i (record { valid = false; tag = tag }) })
  IsValid-clear s i tag v =
      let new : CacheLine = record { valid = false; tag = tag } in
      let back : (j b : ℕ) → HoldsAt (set s.lines i new) j b → HoldsAt s.lines j b = λ j b h.
        elim (get_elem?-set_cases s.lines i j new _ h) [
          | inl (e, same) ↦ absurd (ground (arith, ap (λ (l : CacheLine). l.valid) same))
          | inr (ne, old) ↦ old
        ] in
      record {
        policy = v.policy;
        size = length-set s.lines i new ∙ v.size;
        fits = rw (length-set s.lines i new) v.fits;
        placed = λ j b h. v.placed j b (back j b h);
        used = λ j b h. v.used j b (back j b h);
        unique = λ j k b h h'. v.unique j k b (back j b h) (back k b h');
      }

  -- The cache of a policy with no line in use.
  abbrev pub unused : S → SetAssociativeCache S
  unused policy = record {
    policy = policy;
    lines =
        replicate ((2 ^ p.index_bits policy * p.ways policy) % word)
          (record { valid = false; tag = 0 });
  }

  -- For a policy with a contract in a valid state, with less than 31 index bits, whose sets and ways
  -- multiply to less than a machine word, the constructor gives a valid cache that holds no address.
  pub init-Cached :
      (policy : S)
      → c.IsValid policy
      → p.index_bits policy < 31
      → 2 ^ p.index_bits policy * p.ways policy < word
      → (init p policy ≡ some (unused policy))
        × IsValid p c (unused policy)
        × ((address : ℕ) → ¬ Cached (unused policy) address)
  unfolding init sets
  init-Cached policy valid int fits =
      let blank : CacheLine = record { valid = false; tag = 0 } in
      let size : ℕ = 2 ^ p.index_bits policy * p.ways policy in
      let plain : size % word ≡ size = mod-eq_of_lt fits in
      let empty : (i tag : ℕ) → ¬ HoldsAt (replicate (size % word) blank) i tag = λ i tag h.
        ground
          (arith, ap (λ (l : CacheLine). l.valid) (value_of_replicate (size % word) i blank _ h)) in
      let len : length (replicate (size % word) blank) ≡ size =
        length-replicate (size % word) blank ∙ plain in
      (
        rw (int_shift_lem (p.index_bits policy) int) refl,
        record {
          policy = valid;
          size = len;
          fits = rw len fits;
          placed = λ i tag h. absurd (empty i tag h);
          used = λ i tag h. absurd (empty i tag h);
          unique = λ i j tag h h'. absurd (empty i tag h);
        },
        λ address (i, h). empty i address h,
      )
