-- ===== src/Bypass/Collecting.antt =====
-- The loop over the addresses of a region, and the step for one region.
use cache_hound.Common.{
  ℕ, zero, suc, ◌+◌, ◌-◌, ◌%◌, ◌<◌, ◌≤◌, ◌≡◌, ◌==◌, ◌>>=◌, ◌⊎◌, refl, sym, ap, ◌∙◌, subst, inl, inr,
  List, [], ◌∷◌, ◌++◌, Option, some, true, false, length, get_elem?, get_elem?-lt, arith, All,
  All-append, word, dec_lt, ℕ_discrete, lt→ltb, le→ltb, ==_refl, ==_of_ne,
}
use cache_hound.KernelMemory.{ExtendedRegion}
use cache_hound.Bypass.{BypassAdapter, collect, leave_space, take_region, emplace_back}
use cache_hound.Bypass.Held.{In, Outside, Held, Held-map, All-map, found_bound, emplace_back_lem}
use cache_hound.Bypass.Reserved.{Clear, Fits, Left, Held-Clear, Progress, leave_space-Left}

module _ (placement_policy : ℕ → ℕ) (ways sets increment : ℕ) (small : sets < word)
    (step : 0 < increment) (placed : (a : ℕ) → placement_policy a < sets) where
  abbrev HeldBy : (ℕ → Type 0) → BypassAdapter → Type 0
  HeldBy D st = Held placement_policy ways sets small D st

  abbrev LeftBy : BypassAdapter → Type 0
  LeftBy st = Left placement_policy ways sets increment small step placed st

  module _ (r : ExtendedRegion) (fits : Fits increment r) (D : ℕ → Type 0)
      (apart : (a : ℕ) → D a → Outside r a) where
    abbrev ProgressTo : ℕ → ℕ → Type 0
    ProgressTo address a =
        Progress placement_policy ways sets increment small step placed r fits D apart address a

    collect_room :
        (n address : ℕ) (evset : List ℕ) (st st1 : BypassAdapter)
        → address < r.base + r.size
        → (address + increment) % word ≡ address + increment
        → get_elem? st.evsets (placement_policy address) ≡ some evset
        → length evset < ways
        → emplace_back placement_policy ways sets increment
            (placement_policy address)
            evset
            address
            st
          ≡ some st1
        → collect placement_policy ways sets increment (suc n) r (r.base + r.size) address st
          ≡ elim (st1.found_evsets == sets) [
            | true ↦ some (
                leave_space placement_policy ways sets increment r
                  (address + increment)
                  (r.base + r.size)
                  st1)
            | false ↦
                collect placement_policy ways sets increment n r
                  (r.base + r.size)
                  (address + increment)
                  st1
          ]
    unfolding collect
    collect_room n address evset st st1 inside next e room added =
        rw
          (
            collect,
            lt→ltb address (r.base + r.size) inside,
            e,
            ◌>>=◌,
            lt→ltb (length evset) ways room,
            added,
            ◌>>=◌,
          )
          (ap
            (λ k. elim (st1.found_evsets == sets) as (λ _. Option BypassAdapter) [
              | true ↦
                  some (leave_space placement_policy ways sets increment r k (r.base + r.size) st1)
              | false ↦ collect placement_policy ways sets increment n r (r.base + r.size) k st1
            ])
            next)

    collect_lem :
        (n address : ℕ) (st : BypassAdapter)
        → r.base ≤ address
        → r.base + r.size - address < n
        → HeldBy (ProgressTo address) st
        → st.regions ≡ []
        → st.found_evsets < sets
        → (st' : BypassAdapter) × (collect placement_policy ways sets increment n r
              (r.base + r.size)
              address
              st
            ≡ some st')
          × HeldBy (λ a. D a ⊎ In r a) st'
          × LeftBy st'
    unfolding collect
    collect_lem zero address st above enough h none_left more = absurd (omega (arith, enough))
    collect_lem (suc n) address st above enough h none_left more =
        elim (dec_lt address (r.base + r.size)) [
          | no out ↦ (
            st,
            rw (collect, le→ltb address (r.base + r.size) (omega (arith, out))) refl,
            Held-map placement_policy ways sets small st
                (λ a p. elim p [ inl d ↦ inl d | inr (i, _) ↦ inr i ]) h,
            record {
              clear = subst (All (Clear st.evsets)) (sym none_left) tt;
              last = inl none_left;
            },
          )
          | yes inside ↦
              let next : (address + increment) % word ≡ address + increment =
                omega (arith, inside, fits) in
              let (evset, e) =
                get_elem?-lt st.evsets (placement_policy address)
                  (omega (arith, h.count, placed address)) in
              let h' : HeldBy (ProgressTo (address + increment)) st =
                Held-map placement_policy ways sets small st
                  (λ a p. elim p [ inl d ↦ inl d | inr (i, lt) ↦ inr (i, omega (arith, lt)) ]) h in
              let now : ProgressTo (address + increment) address =
                inr (record { above = above; below = inside }, omega (arith, step)) in
              elim (dec_lt (length evset) ways) [
                | no is_full ↦
                    let (st', runs, held, left) =
                      collect_lem n (address + increment) st (omega (arith, above))
                        (omega (arith, enough, step)) h' none_left more in
                    (
                      st',
                      rw
                          (
                            collect,
                            lt→ltb address (r.base + r.size) inside,
                            e,
                            ◌>>=◌,
                            le→ltb (length evset) ways (omega (arith, is_full)),
                          )
                          (ap
                              (λ k.
                                collect placement_policy ways sets increment n r (r.base + r.size) k
                                  st)
                              next
                            ∙ runs),
                      held,
                      left,
                    )
                | yes room ↦
                    let (st1, added, h1, same) =
                      emplace_back_lem placement_policy ways sets small increment evset address st
                        h' now e room in
                    let bound = found_bound placement_policy ways sets small st1 h1 in
                    let reached = collect_room n address evset st st1 inside next e room added in
                    elim (ℕ_discrete st1.found_evsets sets) [
                      | yes done ↦
                          let (held, left) =
                            leave_space-Left placement_policy ways sets increment small step placed
                              r fits D apart (address + increment) st1 (omega (arith, above)) h1
                              (same ∙ none_left) done in
                          let stops : (st1.found_evsets == sets) ≡ true =
                            ap (λ k. k == sets) done ∙ ==_refl sets in
                          (_, reached ∙ rw stops refl, held, left)
                      | no ne ↦
                          let (st', runs, held, left) =
                            collect_lem n (address + increment) st1 (omega (arith, above))
                              (omega (arith, enough, inside, step)) h1 (same ∙ none_left)
                              (omega (arith, bound, ne)) in
                          (st', reached ∙ rw (==_of_ne st1.found_evsets sets ne) runs, held, left)
                    ]
              ]
        ]

    pub take_region_lem :
        (st : BypassAdapter)
        → HeldBy D st
        → LeftBy st
        → (st' : BypassAdapter) × (take_region placement_policy ways sets increment r st ≡ some st')
          × HeldBy (λ a. D a ⊎ In r a) st'
          × LeftBy st'
    unfolding take_region
    take_region_lem st h left = elim (dec_lt st.found_evsets sets) [
      | yes more ↦
          let none_left : st.regions ≡ [] = elim left.last [
            | inl e ↦ e
            | inr all ↦ absurd (omega (arith, more, all))
          ] in
          let (st', runs, held, left') =
            collect_lem (suc r.size) r.base st (omega arith) (omega arith)
              (Held-map placement_policy ways sets small st (λ a d. inl d) h) none_left more in
          let last : (r.base + r.size) % word ≡ r.base + r.size = omega (arith, fits, step) in
          (
            st',
            rw (take_region, lt→ltb st.found_evsets sets more)
                (ap (λ k. collect placement_policy ways sets increment (suc r.size) r k r.base st)
                    last
                  ∙ runs),
            held,
            left',
          )
      | no done ↦
          let bound = found_bound placement_policy ways sets small st h in
          (
            record st { regions = st.regions ++ (r ∷ []) },
            rw (take_region, le→ltb st.found_evsets sets (omega (arith, done))) refl,
            record {
              count = h.count;
              found = h.found;
              fits = h.fits;
              holds = λ i evset e. All-map evset (λ a (p, d). (p, inl d)) (h.holds i evset e);
            },
            record {
              clear = All-append (Clear st.evsets) st.regions (r ∷ []) left.clear (
                Held-Clear placement_policy ways sets increment small step placed st r h apart,
                tt,
              );
              last = inr (omega (arith, done, bound));
            },
          )
    ]
