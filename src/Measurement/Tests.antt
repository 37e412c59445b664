-- ===== src/Measurement/Tests.antt =====
-- A memory of three addresses in one set of two ways with LRU replacement, and its measurement.
use cache_hound.Common.{
  ℕ, zero, suc, ◌-◌, ◌≡◌, refl, ap, ap₂, ◌∙◌, List, [], ◌∷◌, true, Option, none, some, get_elem?,
  arith, some-inj, ◌>>=◌,
}
use cache_hound.Policy.Order.{iota}
use cache_hound.Policy.Lru
use cache_hound.Policy.Lru.Recency
use cache_hound.Sequence.{simulate_sequence}
use cache_hound.Sequence.Reference.{reference_access}
use cache_hound.Measurement.{InstrumentedMemory, measure_sequence}
use cache_hound.Measurement.Behaviour.{Behaves}
use cache_hound.Measurement.Prediction.{measure_sequence-simulate_sequence}

abbrev lru_2 : Lru.Lru
lru_2 = record { order = iota 2 0 }

abbrev State : Type 0
State = Lru.Lru × List (Option ℕ)

-- The addresses begin at 64; a hit is at level 0, a miss at level 1.
abbrev ideal : InstrumentedMemory State
ideal = record {
  access = λ a m. reference_access Lru.lru (a - 64) m >>= λ (h, m'). some m';
  instrumented_access = λ a m. reference_access Lru.lru (a - 64) m >>= λ (h, m'). some (1 - h, m');
  index_bits = λ level m. 0;
  ways = λ level m. 2;
  cisw = λ level set way m. some m;
}

abbrev three : List ℕ
three = 64 ∷ 65 ∷ 66 ∷ []

number : (addr actual : ℕ) → get_elem? three addr ≡ some actual → actual - 64 ≡ addr
number zero actual e = omega (arith, some-inj e)
number (suc zero) actual e = omega (arith, some-inj e)
number (suc (suc zero)) actual e = omega (arith, some-inj e)
number (suc (suc (suc n))) actual e = cc

behaves : Behaves ideal Lru.lru three
behaves = record {
  Like = λ m st. m ≡ st;
  access = λ m st st' addr actual h like place e. (
    st',
    ap₂ (λ a z. reference_access Lru.lru a z >>= λ (h, m'). some m') (number addr actual place) like
        ∙ ap (λ r. r >>= λ (h, m'). some m') e,
    refl,
  );
  hit = λ m st st' addr actual like place e. (
    st',
    ap₂ (λ a z. reference_access Lru.lru a z >>= λ (h, m'). some (1 - h, m'))
          (number addr actual place) like
        ∙ ap (λ r. r >>= λ (h, m'). some (1 - h, m')) e,
    refl,
  );
  miss = λ m st st' addr actual like place e. (
    1,
    st',
    ap₂ (λ a z. reference_access Lru.lru a z >>= λ (h, m'). some (1 - h, m'))
          (number addr actual place) like
        ∙ ap (λ r. r >>= λ (h, m'). some (1 - h, m')) e,
    (λ z. absurd (omega (arith, z))),
    refl,
  );
}

abbrev sequence : List ℕ
sequence = 0 ∷ 1 ∷ 0 ∷ 2 ∷ 0 ∷ 1 ∷ []

measure_sequence-simulate_sequence_example :
    (hits : ℕ) × (m' : State) × (simulate_sequence Lru.lru sequence lru_2 ≡ some hits)
    × (measure_sequence ideal true sequence three (lru_2, none ∷ none ∷ [])
        ≡ some (some (hits, m')))
unfolding Recency.lru-Contract Lru.ways iota behaves
measure_sequence-simulate_sequence_example =
    measure_sequence-simulate_sequence ideal Lru.lru three behaves Recency.lru-Contract true
      sequence lru_2 (lru_2, none ∷ none ∷ []) (Recency.fresh-IsValid 2 (omega arith)) (omega arith)
      (omega arith, (omega arith, (omega arith, (omega arith, (omega arith, (omega arith, tt))))))
      (omega arith, (omega arith, (omega arith, (omega arith, (omega arith, (omega arith, tt))))))
      refl
