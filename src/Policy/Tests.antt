-- ===== src/Policy/Tests.antt =====
-- Runs of the policies, and instances of the theorems about them.
use mathlib.Core.List.{reverse}
use cache_hound.Common.{
  ℕ, ◌^◌, int_shift, ◌<◌, ◌≡◌, refl, List, [], ◌∷◌, ◌++◌, some, true, false, arith, length, ◌>>=◌,
}
use cache_hound.Policy.Order.{iota, find, rotate_to_front}
use cache_hound.Policy.Cyclic.{misses, check_cyclic_eviction}
use cache_hound.Policy.Lru
use cache_hound.Policy.Lru.Recency
use cache_hound.Policy.Lru.History
use cache_hound.Policy.Fifo
use cache_hound.Policy.Fifo.Queue
use cache_hound.Policy.Srrip
use cache_hound.Policy.Srrip.Aging.{largest}
use cache_hound.Policy.Srrip.Victim
use cache_hound.Policy.Srrip.Fresh
use cache_hound.Policy.Plru
use cache_hound.Policy.Plru.Tree.{tree_miss}
use cache_hound.Policy.Plru.Victims
use cache_hound.Policy.Plru.Rounds
use cache_hound.Policy.LinearInit
use cache_hound.Policy.LinearInit.Filling
use cache_hound.Policy.LruWrapped
use cache_hound.Policy.LruWrapped.Groups
use cache_hound.Policy.LruWrapped.Misses

abbrev lru_4 : Lru.Lru
lru_4 = record { order = iota 4 0 }

abbrev fifo_4 : Fifo.Fifo
fifo_4 = record { order = iota 4 0 }

lru_4-IsValid : Recency.IsValid lru_4
lru_4-IsValid = Recency.fresh-IsValid 4 (omega arith)

hits-distinct_example :
    (History.hits (2 ∷ 0 ∷ 2 ∷ []) lru_4
      ≡ some (record { order = History.distinct ((2 ∷ 0 ∷ 2 ∷ []) ++ iota 4 0) }))
    × Recency.IsValid (record { order = History.distinct ((2 ∷ 0 ∷ 2 ∷ []) ++ iota 4 0) })
    × (length (History.distinct ((2 ∷ 0 ∷ 2 ∷ []) ++ iota 4 0)) ≡ length (iota 4 0))
unfolding Lru.ways iota
hits-distinct_example = History.hits-distinct (2 ∷ 0 ∷ 2 ∷ []) lru_4 lru_4-IsValid (omega arith)

lru_run :
    (History.hits (2 ∷ 0 ∷ 2 ∷ []) (record { order = 0 ∷ 1 ∷ 2 ∷ 3 ∷ [] }) >>= Lru.miss)
    ≡ some (3, record { order = 3 ∷ 2 ∷ 0 ∷ 1 ∷ [] })
unfolding History.hits Lru.hit Lru.hit_at Lru.miss find rotate_to_front
lru_run = refl

misses-hits_example :
    (Queue.hits (3 ∷ 0 ∷ []) fifo_4 >>= λ s'. misses Fifo.fifo (Fifo.ways fifo_4) s')
    ≡ some (reverse (iota 4 0), fifo_4)
misses-hits_example = Queue.misses-hits (3 ∷ 0 ∷ []) fifo_4

abbrev srrip_3 : Srrip.Srrip
srrip_3 = record { entries = 1 ∷ 2 ∷ 0 ∷ [] }

abbrev srrip_3_after : Srrip.Srrip
srrip_3_after = Victim.after_miss 2 Srrip.hit_priority (omega arith) (omega arith) srrip_3

miss-largest_example :
    (Srrip.miss 2 Srrip.hit_priority srrip_3
      ≡ some (find srrip_3.entries (largest srrip_3.entries), srrip_3_after))
    × Victim.IsValid 2 srrip_3_after
    × (find srrip_3.entries (largest srrip_3.entries) < length srrip_3.entries)
    × (length srrip_3_after.entries ≡ length srrip_3.entries)
miss-largest_example =
    Victim.miss-largest 2 Srrip.hit_priority (omega arith) (omega arith) srrip_3
      (record { bounded = omega arith; some_way = omega arith })

srrip_run : Srrip.miss 2 Srrip.hit_priority srrip_3 ≡ some (1, record { entries = 2 ∷ 2 ∷ 1 ∷ [] })
unfolding Srrip.miss Srrip.miss_loop find
srrip_run = refl

check_cyclic_eviction-fresh_example :
    (s : Srrip.Srrip) × (Srrip.init 1 Srrip.frequency_priority 5 ≡ some s)
    × (s' : Srrip.Srrip) × (misses (Srrip.srrip 1 Srrip.frequency_priority) 5 s
        ≡ some (iota 5 0, s'))
    × (check_cyclic_eviction (Srrip.srrip 1 Srrip.frequency_priority) s ≡ some (true, s'))
check_cyclic_eviction-fresh_example =
    Fresh.check_cyclic_eviction-fresh 1 Srrip.frequency_priority (omega arith) (omega arith) 5
      (omega arith)

abbrev plru_4 : Plru.Plru
plru_4 = record { tree_height = 2; tree_bits = true ∷ false ∷ true ∷ [] }

check_cyclic_eviction-plru_example :
    (s' : Plru.Plru) × (check_cyclic_eviction Plru.plru plru_4 ≡ some (true, s'))
    × Victims.IsValid s'
    × (s'.tree_height ≡ 2)
    × (Victims.tree s' ≡ Victims.tree plru_4)
check_cyclic_eviction-plru_example = Rounds.check_cyclic_eviction-plru plru_4 refl (omega arith)

four_ways : 1 < Plru.ways plru_4
unfolding Plru.ways int_shift
four_ways = omega arith

hit-misses-last_example :
    (s' : Plru.Plru) × (pre : List ℕ) × (s'' : Plru.Plru) × (Plru.hit plru_4 1 ≡ some s')
    × (misses Plru.plru (Plru.ways plru_4) s' ≡ some (pre ++ (1 ∷ []), s''))
unfolding Plru.ways
hit-misses-last_example = Rounds.hit-misses-last plru_4 1 refl (omega arith) four_ways

-- From 2 ^ 31 ways on the number of ways is not that of the constructor.
wide : Plru.ways (record { tree_height = 31; tree_bits = [] }) ≡ 0xFFFFFFFF80000000
unfolding Plru.ways int_shift
wide = refl

plru_run :
    (Plru.hit plru_4 1 >>= misses Plru.plru 4)
    ≡ some (2 ∷ 0 ∷ 3 ∷ 1 ∷ [], record { tree_height = 2; tree_bits = false ∷ true ∷ true ∷ [] })
unfolding Plru.hit Plru.hit_loop Plru.miss Plru.miss_loop misses
plru_run = refl

miss-hit_example :
    Plru.hit plru_4 1 ≡ some (record { tree_height = 2; tree_bits = false ∷ true ∷ true ∷ [] })
unfolding Plru.miss Plru.miss_loop
miss-hit_example = Rounds.miss-hit plru_4 1 _ (omega arith) refl

abbrev linear_4 : LinearInit.LinearInit Fifo.Fifo
linear_4 = LinearInit.init Fifo.fifo fifo_4

check_cyclic_eviction-linear_init_example :
    (s' : LinearInit.LinearInit Fifo.Fifo) × (misses
        (LinearInit.linear_init Fifo.fifo)
        (Fifo.ways fifo_4)
        linear_4
      ≡ some (iota (Fifo.ways fifo_4) 0, s'))
    × (check_cyclic_eviction (LinearInit.linear_init Fifo.fifo) linear_4 ≡ some (true, s'))
unfolding Queue.fifo-Contract Fifo.ways
check_cyclic_eviction-linear_init_example =
    Filling.check_cyclic_eviction-linear_init Fifo.fifo Queue.fifo-Contract fifo_4
      (Queue.fresh-IsValid 4 (omega arith)) (λ w h. h)

abbrev fifo_2 : Fifo.Fifo
fifo_2 = record { order = iota 2 0 }

abbrev wrapped_2_2 : LruWrapped.LruWrapped Fifo.Fifo
wrapped_2_2 = record {
  base = record { order = iota 2 0 };
  nested = fifo_2 ∷ fifo_2 ∷ [];
  dirty_idx = 4;
}

fifo_2-IsGroup : Groups.IsGroup Fifo.fifo Queue.fifo-Contract 2 fifo_2
unfolding Queue.fifo-Contract Fifo.ways iota
fifo_2-IsGroup = record {
  valid = Queue.fresh-IsValid 2 (omega arith);
  group_ways = refl;
  usable = λ w h. h;
}

wrapped_2_2-IsValid : Groups.IsValid Fifo.fifo Queue.fifo-Contract wrapped_2_2
unfolding Fifo.ways iota
wrapped_2_2-IsValid = record {
  base = Recency.fresh-IsValid 2 (omega arith);
  groups = refl;
  nested = (fifo_2-IsGroup, (fifo_2-IsGroup, tt));
  some_way = omega arith;
  no_wrap = omega arith;
  dirty = omega arith;
}

miss_lem_example :
    (w : ℕ) × (s' : LruWrapped.LruWrapped Fifo.Fifo) × (LruWrapped.miss Fifo.fifo wrapped_2_2
      ≡ some (w, s'))
    × Groups.IsValid Fifo.fifo Queue.fifo-Contract s'
    × (LruWrapped.ways Fifo.fifo s' ≡ LruWrapped.ways Fifo.fifo wrapped_2_2)
    × (w < LruWrapped.ways Fifo.fifo wrapped_2_2)
miss_lem_example = Misses.miss_lem Fifo.fifo Queue.fifo-Contract wrapped_2_2 wrapped_2_2-IsValid

misses-ways_example : misses Lru.lru (Lru.ways lru_4) lru_4 ≡ some (reverse lru_4.order, lru_4)
misses-ways_example = History.misses-ways lru_4

miss-tree_example :
    (s' : Plru.Plru) × (Plru.miss plru_4 ≡ some ((tree_miss 2 (Victims.tree plru_4)).0, s'))
    × Victims.IsValid s'
    × (s'.tree_height ≡ 2)
    × (Victims.tree s' ≡ (tree_miss 2 (Victims.tree plru_4)).1)
    × ((tree_miss 2 (Victims.tree plru_4)).0 < 2 ^ 2)
miss-tree_example = Victims.miss-tree plru_4 refl
