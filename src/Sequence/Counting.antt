-- ===== src/Sequence/Counting.antt =====
-- The counting step of an access.
use cache_hound.Common.{
  ℕ, ◌+◌, ◌%◌, ◌<◌, ◌≡◌, refl, ap, ◌∙◌, Bool, true, false, some, arith, length, get_elem?, set,
  word, if◌then◌else◌, bit_to_ℕ, Bool-cases, inl, inr, get_elem?-lt, get_elem?-set_self,
  get_elem?-set_ne, length-set, write_lem, ℕ_discrete, subst,
}
use cache_hound.Sequence.{Simulation, count}

module _ {S : Type 0} where
  -- The step only counts, and marks the address as seen.
  pub record Marked (addr : ℕ) (st st' : Simulation S) : Type 0 where
    pub addr_way : st'.addr_way ≡ st.addr_way
    pub way_addr : st'.way_addr ≡ st.way_addr
    pub policy : st'.policy ≡ st.policy
    pub same_length : length st'.seen ≡ length st.seen
    pub seen_self : get_elem? st'.seen addr ≡ some true
    pub seen_other : (a : ℕ) → get_elem? st.seen a ≡ some true → get_elem? st'.seen a ≡ some true

  pub count_lem :
      (st : Simulation S) (addr : ℕ) (is_hit : Bool)
      → addr < length st.seen
      → st.hit_counter < word
      → (is_hit ≡ true → get_elem? st.seen addr ≡ some true)
      → (st' : Simulation S) × (count addr is_hit st ≡ some st')
        × Marked addr st st'
        × (st'.hit_counter ≡ (st.hit_counter + bit_to_ℕ is_hit) % word)
  unfolding count
  count_lem st addr is_hit h small k =
      let (was_seen, e) = get_elem?-lt st.seen addr h in
      elim (Bool-cases was_seen) [
        | inl old ↦ (
          record st { hit_counter = (st.hit_counter + (if is_hit then 1 else 0)) % word },
          rw (e, old) refl,
          record {
            addr_way = refl;
            way_addr = refl;
            policy = refl;
            same_length = refl;
            seen_self = e ∙ ap some old;
            seen_other = λ a m. m;
          },
          ground arith,
        )
        | inr new ↦
            let miss : is_hit ≡ false = ground arith in
            let plain : st.hit_counter ≡ (st.hit_counter + 0) % word = omega arith in
            let marked : get_elem? (set st.seen addr true) addr ≡ some true =
              get_elem?-set_self st.seen addr true h in
            (
              record st { seen = set st.seen addr true },
              rw (e, new, write_lem st.seen addr true h) refl,
              record {
                addr_way = refl;
                way_addr = refl;
                policy = refl;
                same_length = length-set st.seen addr true;
                seen_self = marked;
                seen_other = λ a m. elim (ℕ_discrete addr a) [
                  | yes same ↦
                      subst (λ b. get_elem? (set st.seen addr true) b ≡ some true) same marked
                  | no other ↦ get_elem?-set_ne st.seen addr a true other ∙ m
                ];
              },
              rw miss plain,
            )
      ]
