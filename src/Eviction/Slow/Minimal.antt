-- ===== src/Eviction/Slow/Minimal.antt =====
-- The set that `minimize_eviction_set_slow` ends with.
use cache_hound.Common.{
  ℕ, zero, suc, ◌+◌, ◌-◌, ◌<◌, ◌≤◌, ◌≡◌, refl, ap, sym, ◌∙◌, Bool, true, false, List, [], ◌∷◌, ◌++◌,
  some, length, take, arith, append_assoc, append-nil, length-append, take-append, Bool-cases, inl,
  inr, ◌⊎◌, ◌==◌, ==_iff, ap₂, nil_of_length,
}
use cache_hound.Eviction.{Answers}
use cache_hound.Eviction.Occurrences.{
  occurrences, Part, Rearranged, occurrences-cons, occurrences-nil, one_if_same_self,
  occurrences-take,
}
use cache_hound.Eviction.Slow.{
  Cursor, start, minimize_loop, minimize_eviction_set_slow, minimize_vector_slow,
}
use cache_hound.Eviction.Slow.Crucial.{Split}
use cache_hound.Eviction.Slow.Step.{candidate_step-Split}

-- An eviction set, none of whose addresses can be left out.
pub record IsMinimal (evicts : List ℕ → Bool) (xs : List ℕ) : Type 0 where
  pub evicting : evicts xs ≡ true
  pub minimal : (z : ℕ) (rest : List ℕ) → Rearranged (z ∷ rest) xs → evicts rest ≡ false

module _ (evicts : List ℕ → Bool) {original : List ℕ} {c : Cursor}
    (v : Split evicts original c) where
  pub ends-le : c.candidates_end ≤ length c.addresses
  ends-le = omega (
    arith,
    v.ends,
    ap length v.layout,
    length-append v.crucial (v.candidates ++ v.dropped),
    length-append v.candidates v.dropped,
  )

  -- What stands before `candidates_end`.
  pub taken_lem : take c.candidates_end c.addresses ≡ v.crucial ++ v.candidates
  taken_lem =
      let end : c.candidates_end ≡ length (v.crucial ++ v.candidates) =
        omega (arith, v.ends, length-append v.crucial v.candidates) in
      ap₂ (λ n l. take n l) end (v.layout ∙ sym (append_assoc v.crucial v.candidates v.dropped))
      ∙ take-append (v.crucial ++ v.candidates) v.dropped

  pub taken-evicts : evicts (take c.candidates_end c.addresses) ≡ true
  taken-evicts = ap evicts taken_lem ∙ v.kept

module _ {M : Type 0} (is_eviction_set : List ℕ → M → Bool × M) (evicts : List ℕ → Bool)
    (t : Answers is_eviction_set evicts) where
  pub start-Split :
      (addresses : List ℕ) → evicts addresses ≡ true → Split evicts addresses (start addresses)
  start-Split addresses h = record {
    crucial = [];
    candidates = addresses;
    dropped = [];
    layout = sym (append-nil addresses);
    begins = refl;
    ends = omega arith;
    same = λ a. refl;
    kept = h;
    needed = λ z rest member r. absurd (omega (arith, member, occurrences-nil z));
  }

  -- When no candidate is left, what is kept stands before `candidates_end`.
  pub crucial_lem :
      (original : List ℕ) (c : Cursor) (v : Split evicts original c)
      → c.candidates_end - c.candidates_begin ≡ 0
      → IsMinimal evicts (take c.candidates_end c.addresses)
  crucial_lem original c v empty =
      let none_left : v.candidates ≡ [] =
        nil_of_length v.candidates (omega (arith, empty, v.begins, v.ends)) in
      let kept : v.crucial ++ v.candidates ≡ v.crucial =
        ap (λ l. v.crucial ++ l) none_left ∙ append-nil v.crucial in
      record {
        evicting = taken-evicts evicts v;
        minimal = λ z rest r.
            v.needed z rest
              (omega (
                arith,
                ap (occurrences z) (taken_lem evicts v ∙ kept),
                r z,
                occurrences-cons z z rest,
                one_if_same_self z,
              ))
              (λ a. r a ∙ ap (occurrences a) (taken_lem evicts v));
      }

  minimize_loop-Split :
      (fuel : ℕ) (original : List ℕ) (c : Cursor) (memory : M)
      → Split evicts original c
      → c.candidates_begin ≤ c.candidates_end
      → c.candidates_end - c.candidates_begin < fuel
      → (c' : Cursor) × (memory' : M) × (minimize_loop is_eviction_set fuel c memory
          ≡ some (c', memory'))
        × Split evicts original c'
        × (c'.candidates_end - c'.candidates_begin ≡ 0)
  unfolding minimize_loop
  minimize_loop-Split zero original c memory v order enough = absurd (omega arith)
  minimize_loop-Split (suc fuel) original c memory v order enough =
      elim (Bool-cases (c.candidates_end - c.candidates_begin == 0)) [
        | inl done ↦ (c, memory, rw done refl, v, (==_iff _ _).0 done)
        | inr more ↦
            let (c1, memory1, run, v1, order1, less) =
              candidate_step-Split is_eviction_set evicts t original c memory v (ground arith) in
            let (c2, memory2, run2, v2, done) =
              minimize_loop-Split fuel original c1 memory1 v1 order1 (omega arith) in
            (c2, memory2, rw (more, run, run2) refl, v2, done)
      ]

  -- For a test that answers a property of the addresses alone, which more addresses never make
  -- false, and a vector that has the property, the minimization ends without a fault: the vector is
  -- only rearranged, and the addresses before the iterator that it returns have the property and
  -- lose it when any one of them is left out.
  pub minimize_eviction_set_slow-IsMinimal :
      (addresses : List ℕ) (memory : M)
      → evicts addresses ≡ true
      → (last : ℕ) × (addresses' : List ℕ) × (memory' : M) × (minimize_eviction_set_slow
            is_eviction_set addresses memory
          ≡ some (last, addresses', memory'))
        × Rearranged addresses' addresses
        × (last ≤ length addresses')
        × IsMinimal evicts (take last addresses')
  unfolding minimize_eviction_set_slow
  minimize_eviction_set_slow-IsMinimal addresses memory h =
      let (c, memory', run, v, done) =
        minimize_loop-Split (length addresses + 1) addresses (start addresses) memory
          (start-Split addresses h) (omega arith) (omega arith) in
      (
        c.candidates_end,
        c.addresses,
        memory',
        rw run refl,
        v.same,
        ends-le evicts v,
        crucial_lem addresses c v done,
      )

  -- For a test that answers a property of the addresses alone, which more addresses never make
  -- false, and a vector that has the property, the overload of the minimization for a vector
  -- returns true and a part of the addresses that has the property and loses it when any one is
  -- left out, or it returns false and the rearranged vector, and then no address at all already has
  -- the property.
  pub minimize_vector_slow_lem :
      (eviction_set : List ℕ) (memory : M)
      → evicts eviction_set ≡ true
      → (success : Bool) × (result : List ℕ) × (memory' : M) × (minimize_vector_slow is_eviction_set
            eviction_set memory
          ≡ some (success, result, memory'))
        × (((success ≡ true) × Part result eviction_set × IsMinimal evicts result)
            ⊎ ((success ≡ false) × Rearranged result eviction_set × (evicts [] ≡ true)))
  unfolding minimize_vector_slow
  minimize_vector_slow_lem eviction_set memory h =
      let (last, addresses, memory', run, same, inside, m) =
        minimize_eviction_set_slow-IsMinimal eviction_set memory h in
      elim (Bool-cases (last == 0)) [
        | inl nothing ↦ (
          false,
          addresses,
          memory',
          rw (run, nothing) refl,
          inr (
            refl,
            same,
            ap (λ n. evicts (take n addresses)) (sym ((==_iff _ _).0 nothing)) ∙ m.evicting,
          ),
        )
        | inr something ↦ (
          true,
          take last addresses,
          memory',
          rw (run, something) refl,
          inl (refl, (λ a. omega (arith, same a, occurrences-take a last addresses)), m),
        )
      ]
