-- ===== src/Sequence/Tables.antt =====
-- The tables of `simulate_sequence` stand for the contents of the ways.
use native.Mathlib.Nat.{mod-eq_of_lt}
use cache_hound.Common.{
  ℕ, suc, ◌+◌, ◌-◌, ◌%◌, ◌<◌, ◌≤◌, ◌≡◌, ◌≢◌, refl, ap, sym, ◌∙◌, List, ◌++◌, map, Option, none,
  some, arith, length, get_elem?, replicate, true, false, ◌⊎◌, inl, inr, Bool-cases, leb, word,
  resize, resize_grow, length-append, length-replicate, get_elem?-map, get_elem?-lt, not-leb→lt,
  get_elem?-padded, get_elem?-append_left,
}
use cache_hound.Policy.{ReplacementPolicy, Contract}
use cache_hound.Sequence.{dirty, Simulation, grow}
use cache_hound.Sequence.Reference.{way_of, way_of_cases}

-- The entry of `way_addr` for a way's content.
abbrev pub encode : Option ℕ → ℕ
encode none = dirty
encode (some a) = a

module _ {S : Type 0} (p : ReplacementPolicy S) (c : Contract p) where
  -- All but the number of the ways; each held address is a proper one, was seen, and knows its way.
  pub record Tracks (st : Simulation S) (content : List (Option ℕ)) : Type 0 where
    pub valid : c.IsValid st.policy
    pub tags : st.way_addr ≡ map encode content
    pub size : length content ≡ p.ways st.policy
    pub some_way : 0 < length content
    pub tables : length st.seen ≡ length st.addr_way
    pub ways_lt : (a w : ℕ) → get_elem? st.addr_way a ≡ some w → w < length content
    pub held :
        (w a : ℕ)
        → get_elem? content w ≡ some (some a)
        → (get_elem? st.addr_way a ≡ some w)
          × (get_elem? st.seen a ≡ some true)
          × c.Used st.policy w
          × (a < dirty)

  -- A table as `grow` leaves it.
  grown_table {ℓ} :
      {A : Type ℓ} (xs : List A) (addr : ℕ) (d : A)
      → length xs ≤ addr
      → addr < dirty
      → (resize xs ((1 + addr) % word) d ≡ xs ++ replicate (suc addr - length xs) d)
  grown_table xs addr d h k =
      let plain : (1 + addr) % word ≡ suc addr =
        omega (arith, mod-eq_of_lt {n = 1 + addr} {m = word} (omega arith)) in
      ap (λ n. resize xs n d) plain ∙ resize_grow xs (suc addr) d (omega arith)

  pub grow-Tracks :
      (st : Simulation S) (content : List (Option ℕ)) (addr : ℕ)
      → Tracks st content
      → addr < dirty
      → Tracks (grow addr st) content
        × (addr < length (grow addr st).addr_way)
        × ((grow addr st).policy ≡ st.policy)
        × ((grow addr st).hit_counter ≡ st.hit_counter)
  unfolding grow
  grow-Tracks st content addr t h = elim (Bool-cases (leb (length st.seen) addr)) [
    | inl short ↦
        let n : ℕ = suc addr - length st.seen in
        let le : length st.seen ≤ addr = ground arith in
        let seen : resize st.seen ((1 + addr) % word) false ≡ st.seen ++ replicate n false =
          grown_table st.seen addr false le h in
        let addr_way : resize st.addr_way ((1 + addr) % word) 0 ≡ st.addr_way ++ replicate n 0 =
          grown_table st.addr_way addr 0 (omega (arith, t.tables)) h
          ∙ ap (λ m. st.addr_way ++ replicate (suc addr - m) 0) (sym t.tables) in
        rw (short, seen, addr_way)
          (
            record {
              valid = t.valid;
              tags = t.tags;
              size = t.size;
              some_way = t.some_way;
              tables = omega (
                arith,
                t.tables,
                length-append st.seen (replicate n false),
                length-append st.addr_way (replicate n 0),
                length-replicate n false,
                length-replicate {A = ℕ} n 0,
              );
              ways_lt = λ a w e. elim (get_elem?-padded st.addr_way n a 0 w e) [
                | inl old ↦ t.ways_lt a w old
                | inr new ↦ omega (arith, new, t.some_way)
              ];
              held = λ w a e.
                  let (k, l, u, m) = t.held w a e in
                  (
                    get_elem?-append_left st.addr_way (replicate n 0) a k,
                    get_elem?-append_left st.seen (replicate n false) a l,
                    u,
                    m,
                  );
            },
            omega (
              arith,
              t.tables,
              length-append st.addr_way (replicate n 0),
              length-replicate {A = ℕ} n 0,
            ),
            refl,
            refl,
          )
    | inr long ↦ rw long (t, omega (arith, t.tables, not-leb→lt _ _ long), refl, refl)
  ]

  -- The lookup of an access, and what it says of the contents.
  pub lookup-Tracks :
      (st : Simulation S) (content : List (Option ℕ)) (addr : ℕ)
      → Tracks st content
      → addr < dirty
      → addr < length st.addr_way
      → (way : ℕ) × (tag : ℕ) × (get_elem? st.addr_way addr ≡ some way)
        × (get_elem? st.way_addr way ≡ some tag)
        × (((tag ≡ addr)
              × (way_of addr content ≡ some way)
              × (get_elem? content way ≡ some (some addr)))
            ⊎ ((tag ≢ addr)
                × (way_of addr content ≡ none)
                × ((w : ℕ) → get_elem? content w ≡ some (some addr) → ⊥)))
  lookup-Tracks st content addr t h k =
      let (way, found) = get_elem?-lt st.addr_way addr k in
      let (entry, at) = get_elem?-lt content way (t.ways_lt addr way found) in
      let tag : get_elem? st.way_addr way ≡ some (encode entry) =
        ap (λ xs. get_elem? xs way) t.tags ∙ get_elem?-map encode content way at in
      (
        way,
        encode entry,
        found,
        tag,
        elim (way_of_cases addr content) [
          | inl (w, first, holds) ↦
              let same : w ≡ way = ground (arith, (t.held w addr holds).0, found) in
              let entry_is : entry ≡ some addr = ground (arith, holds, at, same) in
              inl (ap encode entry_is, first ∙ ap some same, at ∙ ap some entry_is)
          | inr (absent, nowhere) ↦
              inr (λ e. nowhere way (at ∙ ap some (proper entry e)), absent, nowhere)
        ],
      )
    where
      proper : (entry : Option ℕ) → encode entry ≡ addr → entry ≡ some addr
      proper none e = absurd (omega arith)
      proper (some a) e = ap some e
