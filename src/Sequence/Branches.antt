-- ===== src/Sequence/Branches.antt =====
-- The branches of the loop body keep the tables standing for the contents of the ways.
use cache_hound.Common.{
  ℕ, ◌<◌, ◌≡◌, ◌≢◌, refl, ap, sym, ◌∙◌, subst, List, Option, some, some-inj, get_elem?-set_cases,
  arith, length, get_elem?, set, inl, inr, write_lem, length-set, length-map, map-set,
  get_elem?-set_self, get_elem?-set_ne,
}
use cache_hound.Policy.{ReplacementPolicy, Contract}
use cache_hound.Sequence.{dirty, Simulation, on_hit, on_miss}
use cache_hound.Sequence.Tables.{Tracks, encode}
use cache_hound.Sequence.Counting.{Marked}

module _ {S : Type 0} (p : ReplacementPolicy S) (c : Contract p) where
  pub on_hit-Tracks :
      (st : Simulation S) (content : List (Option ℕ)) (addr way : ℕ)
      → Tracks p c st content
      → get_elem? content way ≡ some (some addr)
      → (s' : S) × (p.hit st.policy way ≡ some s')
        × (on_hit p way st ≡ some (record st { policy = s' }))
        × Tracks p c (record st { policy = s' }) content
  unfolding on_hit
  on_hit-Tracks st content addr way t h =
      let (k, l, u, m) = t.held way addr h in
      let (s', run, v', same, keep) = c.hit_lem st.policy way t.valid u in
      (
        s',
        run,
        rw run refl,
        record {
          valid = v';
          tags = t.tags;
          size = t.size ∙ sym same;
          some_way = t.some_way;
          tables = t.tables;
          ways_lt = t.ways_lt;
          held = λ w a e. let (k', l', u', m') = t.held w a e in (k', l', keep w u', m');
        },
      )

  pub on_miss-Tracks :
      (st : Simulation S) (content : List (Option ℕ)) (addr : ℕ)
      → Tracks p c st content
      → addr < dirty
      → addr < length st.addr_way
      → ((w : ℕ) → get_elem? content w ≡ some (some addr) → ⊥)
      → (w : ℕ) × (s' : S) × (p.miss st.policy ≡ some (w, s'))
        × (on_miss p addr st
            ≡ some (record st {
              addr_way = set st.addr_way addr w;
              way_addr = set st.way_addr w addr;
              policy = s';
            }))
        × (c.IsValid s')
        × (p.ways s' ≡ p.ways st.policy)
        × (w < length content)
        × c.Used s' w
        × ((v : ℕ) → c.Used st.policy v → c.Used s' v)
  unfolding on_miss
  on_miss-Tracks st content addr t small inside absent =
      let (w, s', run, v', same, used, keep) = c.miss_lem st.policy t.valid in
      let lt : w < length content = omega (arith, c.used_lt s' w v' used, same, t.size) in
      let lt' : w < length st.way_addr = rw (t.tags, length-map encode content) lt in
      (
        w,
        s',
        run,
        rw (run, write_lem st.addr_way addr w inside, write_lem st.way_addr w addr lt') refl,
        v',
        same,
        lt,
        used,
        keep,
      )

  -- A marked state tracks what the state before tracks, when the address was seen.
  pub Marked-Tracks :
      (st st' : Simulation S) (content : List (Option ℕ)) (addr : ℕ)
      → Tracks p c st content
      → Marked addr st st'
      → Tracks p c st' content
  Marked-Tracks st st' content addr t m = record {
    valid = subst c.IsValid (sym m.policy) t.valid;
    tags = m.way_addr ∙ t.tags;
    size = t.size ∙ ap p.ways (sym m.policy);
    some_way = t.some_way;
    tables = m.same_length ∙ t.tables ∙ ap length (sym m.addr_way);
    ways_lt = λ a w e. t.ways_lt a w (ap (λ xs. get_elem? xs a) (sym m.addr_way) ∙ e);
    held = λ w a e.
        let (k, l, u, s) = t.held w a e in
        (
          ap (λ xs. get_elem? xs a) m.addr_way ∙ k,
          m.seen_other a l,
          subst (λ q. c.Used q w) (sym m.policy) u,
          s,
        );
  }

  -- A miss that has been marked tracks the contents with the address in the victim's way.
  pub miss-Tracks :
      (st st' : Simulation S) (content : List (Option ℕ)) (addr w : ℕ) (s' : S)
      → Tracks p c st content
      → addr < dirty
      → addr < length st.addr_way
      → ((v : ℕ) → get_elem? content v ≡ some (some addr) → ⊥)
      → c.IsValid s'
      → p.ways s' ≡ p.ways st.policy
      → w < length content
      → c.Used s' w
      → ((v : ℕ) → c.Used st.policy v → c.Used s' v)
      → Marked addr
          (record st {
            addr_way = set st.addr_way addr w;
            way_addr = set st.way_addr w addr;
            policy = s';
          })
          st'
      → Tracks p c st' (set content w (some addr))
  miss-Tracks st st' content addr w s' t small inside absent v same lt used keep m = record {
    valid = subst c.IsValid (sym m.policy) v;
    tags =
        m.way_addr ∙ ap (λ xs. set xs w addr) t.tags ∙ sym (map-set encode content w (some addr));
    size = length-set content w (some addr) ∙ t.size ∙ sym same ∙ ap p.ways (sym m.policy);
    some_way = rw (length-set content w (some addr)) t.some_way;
    tables =
        m.same_length ∙ t.tables ∙ sym (length-set st.addr_way addr w) ∙ ap length (sym m.addr_way);
    ways_lt = λ a x e.
        elim (get_elem?-set_cases st.addr_way addr a w x
          (ap (λ xs. get_elem? xs a) (sym m.addr_way) ∙ e)) [
            | inl (e', new) ↦ omega (arith, new, lt, length-set content w (some addr))
            | inr (ne, old) ↦ omega (arith, t.ways_lt a x old, length-set content w (some addr))
          ];
    held = λ x a e. elim (get_elem?-set_cases content w x (some addr) (some a) e) [
      | inl (same_way, new) ↦
          let a_is : a ≡ addr = some-inj new in
          rw (a_is, ← same_way)
            (
              ap (λ xs. get_elem? xs addr) m.addr_way
                  ∙ get_elem?-set_self st.addr_way addr w inside,
              m.seen_self,
              subst (λ q. c.Used q w) (sym m.policy) used,
              small,
            )
      | inr (ne, old) ↦
          let (k, l, u, below) = t.held x a old in
          let other : addr ≢ a = λ same_addr.
            absent x (subst (λ b. get_elem? content x ≡ some (some b)) (sym same_addr) old) in
          (
            ap (λ xs. get_elem? xs a) m.addr_way ∙ get_elem?-set_ne st.addr_way addr a w other ∙ k,
            m.seen_other a l,
            subst (λ q. c.Used q x) (sym m.policy) (keep x u),
            below,
          )
    ];
  }
