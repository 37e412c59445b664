-- ===== src/Policy/Plru/Rounds.antt =====
-- Rounds of misses on PLRU states, and the states that the constructor makes.
use native.Mathlib.Nat.{mod-eq_of_lt, pow-suc, div-div-eq-div-mul}
use cache_hound.Common.{
  power_of_two_lem, ℕ, zero, suc, ◌+◌, ◌-◌, ◌*◌, ◌/◌, ◌%◌, ◌^◌, ◌<◌, ◌==◌, ◌≡◌, ap, ap₂, sym, ◌∙◌,
  Bool, true, false, not, List, [], ◌∷◌, ◌++◌, some, length, arith, pow-pos, length-replicate,
  replicate, get_elem?, set, ltb, lt→ltb, bit_to_ℕ, >>=-eq-some, check,
}
use cache_hound.Policy.Cyclic.{misses, check_cyclic_eviction, check_cyclic_eviction_lem}
use cache_hound.Policy.Plru.{Plru, init, ways, hit, miss, plru, hit_loop, miss_loop}
use cache_hound.Policy.Plru.Tree.{tree_misses, tree_misses-round}
use cache_hound.Policy.Plru.Round.{tree_misses-Nodup, length-tree_misses, tree_hit-EndsIn}
use cache_hound.Policy.Plru.Heap.{tree_at-IsPerfect}
use cache_hound.Policy.Plru.Victims.{IsValid, tree, hit-tree, misses-tree, ways_lem}

-- On a state whose vector has the length that the tree height asks for, with a height below 31, the
-- cyclic eviction check succeeds and brings the tree of bits back to where it was.
pub check_cyclic_eviction-plru :
    (s : Plru)
    → IsValid s
    → s.tree_height < 31
    → (s' : Plru) × (check_cyclic_eviction plru s ≡ some (true, s'))
      × IsValid s'
      × (s'.tree_height ≡ s.tree_height)
      × (tree s' ≡ tree s)
check_cyclic_eviction-plru s v int =
    let n : ℕ = s.tree_height in
    let size = ways_lem s int in
    let (s', run, v', height, t) = misses-tree (2 ^ n) s v in
    let perfect = tree_at-IsPerfect n 0 s.tree_bits in
    (
      s',
      check_cyclic_eviction_lem plru s (tree_misses n (2 ^ n) (tree s)).0 s'
          (ap (λ k. misses plru k s) size ∙ run) (length-tree_misses n (2 ^ n) (tree s) ∙ sym size)
          (tree_misses-Nodup n (tree s) perfect),
      v',
      height,
      t ∙ tree_misses-round n (tree s) perfect,
    )

-- On a state whose vector has the length that the tree height asks for, with a height below 31, a
-- hit on a way of the set and then as many misses as there are ways succeed, and the last miss
-- takes the way that was hit.
pub hit-misses-last :
    (s : Plru) (w : ℕ)
    → IsValid s
    → s.tree_height < 31
    → w < ways s
    → (s' : Plru) × (pre : List ℕ) × (s'' : Plru) × (hit s w ≡ some s')
      × (misses plru (ways s) s' ≡ some (pre ++ (w ∷ []), s''))
hit-misses-last s w v int h =
    let n : ℕ = s.tree_height in
    let size = ways_lem s int in
    let inside : w < 2 ^ n = omega (arith, h, size) in
    let (s', run, v', height, t) = hit-tree s w v (omega (arith, int)) in
    let (s'', run', v'', height', t') = misses-tree (2 ^ n) s' v' in
    let (pre, last) = tree_hit-EndsIn n w (tree s) (tree_at-IsPerfect n 0 s.tree_bits) in
    let same : (tree_misses s'.tree_height (2 ^ n) (tree s')).0 ≡ pre ++ (w ∷ []) =
      ap₂ (λ m u. (tree_misses m (2 ^ n) u).0) height t
      ∙ last
      ∙ ap (λ x. pre ++ (x ∷ [])) (mod-eq_of_lt inside) in
    (s', pre, s'', run, ap (λ k. misses plru k s') size ∙ run' ∙ ap (λ ws. some (ws, s'')) same)

miss_loop-hit_loop :
    (n i way : ℕ) (bits : List Bool) (w : ℕ) (bits' : List Bool)
    → n < 32
    → miss_loop n i way bits ≡ some (w, bits')
    → (hit_loop n i w bits ≡ some bits') × (w / 2 ^ n ≡ way)
unfolding miss_loop hit_loop
miss_loop-hit_loop zero i way bits w bits' shift h = ground arith
miss_loop-hit_loop (suc n) i way bits w bits' shift h =
    let defined : ltb n 32 ≡ true = lt→ltb n 32 (omega (arith, shift)) in
    let positive : ltb n 31 ≡ true = lt→ltb n 31 (omega (arith, shift)) in
    let (old, read, rest) = >>=-eq-some (get_elem? bits i) _ h in
    let (ok, inside, rest') = >>=-eq-some (check (ltb i (length bits))) _ rest in
    let (run, high) =
      miss_loop-hit_loop n (2 * i + 1 + bit_to_ℕ (not old)) (way * 2 + bit_to_ℕ (not old))
        (set bits i (not old)) w bits' (omega (arith, shift)) rest' in
    let side : ((w / 2 ^ n) % 2 == 1) ≡ not old = ground (arith, high) in
    let level : w / 2 ^ suc n ≡ w / 2 ^ n / 2 =
      ap (λ t. w / t) (pow-suc 2 n) ∙ sym (div-div-eq-div-mul w (2 ^ n) 2) in
    (rw (defined, positive, side, inside) run, level ∙ ground (arith, high))

-- When a miss on a tree of a height below 32 returns a victim and a new state, a hit on that victim
-- from the old state gives the same new state.
pub miss-hit :
    (s : Plru) (w : ℕ) (s' : Plru) → s.tree_height < 32 → miss s ≡ some (w, s') → hit s w ≡ some s'
unfolding miss hit
miss-hit s w s' shift h =
    let (r, run, e) = >>=-eq-some (miss_loop s.tree_height 0 0 s.tree_bits) _ h in
    ground (arith, run, e, (miss_loop-hit_loop s.tree_height 0 0 s.tree_bits r.0 r.1 shift run).0)

-- For every n below 31 the constructor accepts 2 ^ n ways; the vector has the length that the tree
-- height asks for, and the state has 2 ^ n ways.
pub init-IsValid :
    (n : ℕ) → n < 31 → (s : Plru) × (init (2 ^ n) ≡ some s) × IsValid s × (ways s ≡ 2 ^ n)
unfolding init
init-IsValid n h =
    let (masked, zeros) = power_of_two_lem n (omega (arith, h)) in
    let positive : (2 ^ n == 0) ≡ false = ground (arith, pow-pos n) in
    (
      record { tree_height = n; tree_bits = replicate (2 ^ n - 1) false },
      rw (positive, masked, zeros),
      omega (arith, length-replicate (2 ^ n - 1) false, pow-pos n),
      ways_lem _ h,
    )
