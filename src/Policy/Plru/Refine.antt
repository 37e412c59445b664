-- ===== src/Policy/Plru/Refine.antt =====
-- The loops of `hit` and `miss` over the vector are the tree's operations.
use cache_hound.Common.{
  ℕ, zero, suc, ◌+◌, ◌*◌, ◌/◌, ◌%◌, ◌^◌, ◌<◌, ◌==◌, ltb, ◌≡◌, refl, ap, sym, ◌∙◌, subst, Bool, true,
  false, List, some, length, get_elem?, get_or, set, arith, length-set, get_elem?-eq-get_or,
  get_or-set_self, get_or-set_ne, Bool-cases, inl, inr, lt→ltb, pow-double,
}
use cache_hound.Policy.Plru.{hit_loop, miss_loop}
use cache_hound.Policy.Plru.Tree.{Tree, node, tree_hit, tree_miss}
use cache_hound.Policy.Plru.Heap.{
  Under, Under-root, Under-left, Under-right, not-Under-left, not-Under-right, Under-disjoint,
  tree_at, tree_at-local, Fits, Fits-root, Fits-left, Fits-right,
}

-- The subtree at `i` has become `t`, and all else is as it was.
pub record Updated (n i : ℕ) (bits bits' : List Bool) (t : Tree) : Type 0 where
  pub same_length : length bits' ≡ length bits
  pub tree : tree_at n i bits' ≡ t
  pub elsewhere : (j : ℕ) → ¬ Under n i j → get_or bits' j false ≡ get_or bits j false

-- A write at `i` and an update of the right child.
Updated-right :
    (n i : ℕ) (bits bits' : List Bool) (t : Tree)
    → i < length bits
    → Updated n (2 * i + 2) (set bits i true) bits' t
    → Updated (suc n) i bits bits' (node true (tree_at n (2 * i + 1) bits) t)
Updated-right n i bits bits' t h u = record {
  same_length = u.same_length ∙ length-set bits i true;
  tree =
      let root : get_or bits' i false ≡ true =
        u.elsewhere i (not-Under-right n i) ∙ get_or-set_self bits i true false h in
      let other : tree_at n (2 * i + 1) bits' ≡ tree_at n (2 * i + 1) bits =
        tree_at-local n (2 * i + 1) bits' bits (λ j w.
          u.elsewhere j (Under-disjoint n n i j w)
          ∙ get_or-set_ne bits i j true false
              (λ e. not-Under-left n i (subst (Under n (2 * i + 1)) (sym e) w))) in
      cc (root, other, u.tree);
  elsewhere = λ j away.
      u.elsewhere j (λ w. away (Under-right n i j w))
      ∙ get_or-set_ne bits i j true false (λ e. away (subst (Under (suc n) i) e (Under-root n i)));
}

-- A write at `i` and an update of the left child.
Updated-left :
    (n i : ℕ) (bits bits' : List Bool) (t : Tree)
    → i < length bits
    → Updated n (2 * i + 1) (set bits i false) bits' t
    → Updated (suc n) i bits bits' (node false t (tree_at n (2 * i + 2) bits))
Updated-left n i bits bits' t h u = record {
  same_length = u.same_length ∙ length-set bits i false;
  tree =
      let root : get_or bits' i false ≡ false =
        u.elsewhere i (not-Under-left n i) ∙ get_or-set_self bits i false false h in
      let other : tree_at n (2 * i + 2) bits' ≡ tree_at n (2 * i + 2) bits =
        tree_at-local n (2 * i + 2) bits' bits (λ j w.
          u.elsewhere j (λ w'. Under-disjoint n n i j w' w)
          ∙ get_or-set_ne bits i j false false
              (λ e. not-Under-right n i (subst (Under n (2 * i + 2)) (sym e) w))) in
      cc (root, other, u.tree);
  elsewhere = λ j away.
      u.elsewhere j (λ w. away (Under-left n i j w))
      ∙ get_or-set_ne bits i j false false (λ e. away (subst (Under (suc n) i) e (Under-root n i)));
}

other_child :
    (n i : ℕ) (bits : List Bool) (b : Bool)
    → i < length bits
    → (tree_at n (2 * i + 1) (set bits i b) ≡ tree_at n (2 * i + 1) bits)
      × (tree_at n (2 * i + 2) (set bits i b) ≡ tree_at n (2 * i + 2) bits)
other_child n i bits b h = (
  tree_at-local n (2 * i + 1) (set bits i b) bits (λ j w.
      get_or-set_ne bits i j b false
        (λ e. not-Under-left n i (subst (Under n (2 * i + 1)) (sym e) w))),
  tree_at-local n (2 * i + 2) (set bits i b) bits (λ j w.
      get_or-set_ne bits i j b false
        (λ e. not-Under-right n i (subst (Under n (2 * i + 2)) (sym e) w))),
)

pub hit_loop-tree :
    (n i way : ℕ) (bits : List Bool)
    → n < 32
    → Fits n i (length bits)
    → (bits' : List Bool) × (hit_loop n i way bits ≡ some bits')
      × Updated n i bits bits' (tree_hit n way (tree_at n i bits))
unfolding hit_loop
hit_loop-tree zero i way bits shift h =
    (bits, refl, record { same_length = refl; tree = refl; elsewhere = λ j a. refl })
hit_loop-tree (suc n) i way bits shift h =
    let defined : ltb n 32 ≡ true = lt→ltb n 32 (omega (arith, shift)) in
    let positive : ltb n 31 ≡ true = lt→ltb n 31 (omega (arith, shift)) in
    let inside : i < length bits = Fits-root n i (length bits) h in
    elim (Bool-cases ((way / 2 ^ n) % 2 == 1)) [
      | inl e ↦
          let index : 2 * i + 2 ≡ 2 * i + 1 + 1 = omega arith in
          let (bits', run, u) =
            hit_loop-tree n (2 * i + 2) way (set bits i true) (omega (arith, shift))
              (rw (length-set bits i true) (Fits-right n i (length bits) h)) in
          (
            bits',
            rw (defined, positive, e, lt→ltb _ _ inside) (rw index at run),
            rw e (
                subst
                  (λ t.
                    Updated (suc n) i bits bits'
                      (node true (tree_at n (2 * i + 1) bits) (tree_hit n way t)))
                  (other_child n i bits true inside).1 (Updated-right n i bits bits' _ inside u)),
          )
      | inr e ↦
          let index : 2 * i + 1 ≡ 2 * i + 1 + 0 = omega arith in
          let (bits', run, u) =
            hit_loop-tree n (2 * i + 1) way (set bits i false) (omega (arith, shift))
              (rw (length-set bits i false) (Fits-left n i (length bits) h)) in
          (
            bits',
            rw (defined, positive, e, lt→ltb _ _ inside)
                (subst (λ c. hit_loop n c way (set bits i false) ≡ some bits') index run),
            rw e (
                subst
                  (λ t.
                    Updated (suc n) i bits bits'
                      (node false (tree_hit n way t) (tree_at n (2 * i + 2) bits)))
                  (other_child n i bits false inside).0 (Updated-left n i bits bits' _ inside u)),
          )
    ]

pub miss_loop-tree :
    (n i way : ℕ) (bits : List Bool)
    → Fits n i (length bits)
    → (bits' : List Bool) × (miss_loop n i way bits
        ≡ some (way * 2 ^ n + (tree_miss n (tree_at n i bits)).0, bits'))
      × Updated n i bits bits' (tree_miss n (tree_at n i bits)).1
unfolding miss_loop
miss_loop-tree zero i way bits h = (
  bits,
  ap (λ w. some (w, bits)) (omega arith),
  record { same_length = refl; tree = refl; elsewhere = λ j a. refl },
)
miss_loop-tree (suc n) i way bits h =
    let inside : i < length bits = Fits-root n i (length bits) h in
    let old : get_elem? bits i ≡ some (get_or bits i false) =
      get_elem?-eq-get_or bits i false inside in
    elim (Bool-cases (get_or bits i false)) [
      | inl e ↦
          let index : 2 * i + 1 ≡ 2 * i + 1 + 0 = omega arith in
          let (bits', run, u) =
            miss_loop-tree n (2 * i + 1) (way * 2 + 0) (set bits i false)
              (rw (length-set bits i false) (Fits-left n i (length bits) h)) in
          let t : tree_at n (2 * i + 1) (set bits i false) ≡ tree_at n (2 * i + 1) bits =
            (other_child n i bits false inside).0 in
          let victim : (way * 2 + 0) * 2 ^ n + (tree_miss n (tree_at n (2 * i + 1) bits)).0
              ≡ way * 2 ^ suc n + (tree_miss n (tree_at n (2 * i + 1) bits)).0 =
            omega (arith, pow-double n, ap (λ p. way * p) (pow-double n)) in
          (
            bits',
            rw (old, e, lt→ltb _ _ inside)
                (ap (λ c. miss_loop n c (way * 2 + 0) (set bits i false)) (sym index)
                  ∙ run
                  ∙ ap (λ c. some ((way * 2 + 0) * 2 ^ n + (tree_miss n c).0, bits')) t
                  ∙ ap (λ w. some (w, bits')) victim),
            rw e (
                subst
                  (λ c.
                    Updated (suc n) i bits bits'
                      (node false (tree_miss n c).1 (tree_at n (2 * i + 2) bits)))
                  t (Updated-left n i bits bits' _ inside u)),
          )
      | inr e ↦
          let index : 2 * i + 2 ≡ 2 * i + 1 + 1 = omega arith in
          let (bits', run, u) =
            miss_loop-tree n (2 * i + 2) (way * 2 + 1) (set bits i true)
              (rw (length-set bits i true) (Fits-right n i (length bits) h)) in
          let t : tree_at n (2 * i + 2) (set bits i true) ≡ tree_at n (2 * i + 2) bits =
            (other_child n i bits true inside).1 in
          let victim : (way * 2 + 1) * 2 ^ n + (tree_miss n (tree_at n (2 * i + 2) bits)).0
              ≡ way * 2 ^ suc n + (2 ^ n + (tree_miss n (tree_at n (2 * i + 2) bits)).0) =
            omega (arith, pow-double n, ap (λ p. way * p) (pow-double n)) in
          (
            bits',
            rw (old, e, lt→ltb _ _ inside)
                (ap (λ c. miss_loop n c (way * 2 + 1) (set bits i true)) (sym index)
                  ∙ run
                  ∙ ap (λ c. some ((way * 2 + 1) * 2 ^ n + (tree_miss n c).0, bits')) t
                  ∙ ap (λ w. some (w, bits')) victim),
            rw e (
                subst
                  (λ c.
                    Updated (suc n) i bits bits'
                      (node true (tree_at n (2 * i + 1) bits) (tree_miss n c).1))
                  t (Updated-right n i bits bits' _ inside u)),
          )
    ]
