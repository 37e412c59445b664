-- ===== src/Sequence/Tests.antt =====
-- Runs of `simulate_sequence`, and an instance of its theorem.
use cache_hound.Common.{
  ℕ, ◌%◌, ◌≡◌, refl, List, [], ◌∷◌, none, some, arith, replicate, word, resize, write,
}
use cache_hound.Policy.Order.{iota, rotate_to_front, find}
use cache_hound.Policy.Lru
use cache_hound.Policy.Lru.Recency
use cache_hound.Policy.Fifo
use cache_hound.Sequence.{
  simulate_sequence, access_all, access, access_grown, grow, on_miss, count, on_hit,
}
use cache_hound.Sequence.Reference.{reference_hits}
use cache_hound.Sequence.Steps

abbrev lru_2 : Lru.Lru
lru_2 = record { order = iota 2 0 }

abbrev fifo_2 : Fifo.Fifo
fifo_2 = record { order = iota 2 0 }

abbrev sequence : List ℕ
sequence = 3 ∷ 5 ∷ 3 ∷ 4 ∷ 3 ∷ 5 ∷ []

simulate_sequence-reference_example :
    (hits : ℕ) × (reference_hits Lru.lru sequence (lru_2, replicate (Lru.ways lru_2) none)
      ≡ some hits)
    × (simulate_sequence Lru.lru sequence lru_2 ≡ some (hits % word))
unfolding Recency.lru-Contract Lru.ways iota
simulate_sequence-reference_example =
    Steps.simulate_sequence-reference Lru.lru Recency.lru-Contract sequence lru_2
      (Recency.fresh-IsValid 2 (omega arith)) (omega arith)
      (omega arith, (omega arith, (omega arith, (omega arith, (omega arith, (omega arith, tt))))))

lru_run : simulate_sequence Lru.lru sequence lru_2 ≡ some 2
unfolding simulate_sequence Lru.ways Lru.hit Lru.miss Lru.hit_at iota access_all access access_grown
    grow resize on_miss rotate_to_front write count on_hit find
lru_run = refl

fifo_run : simulate_sequence Fifo.fifo sequence fifo_2 ≡ some 1
unfolding simulate_sequence Fifo.ways Fifo.hit Fifo.miss Fifo.hit_at iota access_all access
    access_grown grow resize on_miss rotate_to_front write count on_hit
fifo_run = refl
