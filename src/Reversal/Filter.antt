-- ===== src/Reversal/Filter.antt =====
-- The filter with swaps keeps the candidates with the measured hits, in their order.
use cache_hound.Common.{
  ℕ, suc, ◌+◌, ◌≡◌, ◌==◌, refl, sym, ap, ap₂, ◌∙◌, true, false, List, [], ◌∷◌, ◌++◌, append_assoc,
  append-nil, Option, some, All, length, length-append, get_elem?, get_elem?-append, take-append,
  arith, Bool-cases, ◌>>=◌, inl, inr,
}
use cache_hound.Eviction.Slow.{swap}
use cache_hound.Eviction.Slow.Swap.{swap_lem, swap_same_lem}
use cache_hound.Reversal.{filter_loop, remaining_candidates}

module _ {A : Type 0} (simulate : A → Option ℕ) (measured : ℕ) (hits : A → ℕ) where
  -- The candidates that explain what was measured.
  pub agreeing : List A → List A
  agreeing [] = []
  agreeing (c ∷ cs) = elim (hits c == measured) [ true ↦ c ∷ agreeing cs | false ↦ agreeing cs ]

  agreeing_same :
      (c : A) (rest : List A)
      → (hits c == measured) ≡ true
      → agreeing (c ∷ rest) ≡ c ∷ agreeing rest
  unfolding agreeing
  agreeing_same c rest same = rw (agreeing, same) refl

  agreeing_other :
      (c : A) (rest : List A) → (hits c == measured) ≡ false → agreeing (c ∷ rest) ≡ agreeing rest
  unfolding agreeing
  agreeing_other c rest other = rw (agreeing, other) refl

  step_same :
      (n out first : ℕ) (c : A) (candidates swapped : List A)
      → get_elem? candidates first ≡ some c
      → simulate c ≡ some (hits c)
      → (hits c == measured) ≡ true
      → swap out first candidates ≡ some swapped
      → filter_loop simulate measured (suc n) out first candidates
        ≡ filter_loop simulate measured n (out + 1) (first + 1) swapped
  unfolding filter_loop
  step_same n out first c candidates swapped there simulated same moved =
      rw (filter_loop, there, ◌>>=◌, simulated, ◌>>=◌, same, moved, ◌>>=◌) refl

  step_other :
      (n out first : ℕ) (c : A) (candidates : List A)
      → get_elem? candidates first ≡ some c
      → simulate c ≡ some (hits c)
      → (hits c == measured) ≡ false
      → filter_loop simulate measured (suc n) out first candidates
        ≡ filter_loop simulate measured n out (first + 1) candidates
  unfolding filter_loop
  step_other n out first c candidates there simulated other =
      rw (filter_loop, there, ◌>>=◌, simulated, ◌>>=◌, other) refl

  move :
      (kept dropped : List A) (c : A) (rest : List A)
      → (dropped' : List A) × (swap
            (length kept)
            (length (kept ++ dropped))
            (kept ++ (dropped ++ (c ∷ rest)))
          ≡ some ((kept ++ (c ∷ [])) ++ (dropped' ++ rest)))
        × (length dropped' ≡ length dropped)
  move kept [] c rest = (
    [],
    ap (λ l. swap (length kept) (length l) (kept ++ (c ∷ rest))) (append-nil kept)
        ∙ swap_same_lem kept c rest
        ∙ ap some (sym (append_assoc kept (c ∷ []) rest)),
    refl,
  )
  move kept (d ∷ ds) c rest = (
    ds ++ (d ∷ []),
    swap_lem kept d ds c rest
        ∙ ap (λ l. some (kept ++ (c ∷ l))) (sym (append_assoc ds (d ∷ []) rest))
        ∙ ap some (sym (append_assoc kept (c ∷ []) ((ds ++ (d ∷ [])) ++ rest))),
    omega (arith, length-append ds (d ∷ [])),
  )

  here :
      (kept dropped : List A) (c : A) (rest : List A)
      → get_elem? (kept ++ (dropped ++ (c ∷ rest))) (length (kept ++ dropped)) ≡ some c
  here kept dropped c rest =
      ap (λ l. get_elem? l (length (kept ++ dropped))) (sym (append_assoc kept dropped (c ∷ rest)))
      ∙ get_elem?-append (kept ++ dropped) c rest

  filter_loop_lem :
      (rest kept dropped : List A) (out first : ℕ)
      → out ≡ length kept
      → first ≡ length (kept ++ dropped)
      → All (λ c. simulate c ≡ some (hits c)) rest
      → (tail : List A) × (filter_loop simulate measured
            (length rest)
            out
            first
            (kept ++ (dropped ++ rest))
          ≡ some (length (kept ++ agreeing rest), (kept ++ agreeing rest) ++ tail))
  unfolding filter_loop agreeing
  filter_loop_lem [] kept dropped out first at_out at_first ok = (
    dropped,
    ap₂ (λ k l. some (k, kept ++ l)) at_out (append-nil dropped)
        ∙ ap (λ l. some (length l, l ++ dropped)) (sym (append-nil kept)),
  )
  filter_loop_lem (c ∷ rest) kept dropped out first at_out at_first (simulated, ok) =
      let there : get_elem? (kept ++ (dropped ++ (c ∷ rest))) first ≡ some c =
        ap (get_elem? (kept ++ (dropped ++ (c ∷ rest)))) at_first ∙ here kept dropped c rest in
      elim (Bool-cases (hits c == measured)) [
        | inl same ↦
            let (dropped', swapped, same_length) = move kept dropped c rest in
            let moved : swap out first (kept ++ (dropped ++ (c ∷ rest)))
                ≡ some ((kept ++ (c ∷ [])) ++ (dropped' ++ rest)) =
              ap₂ (λ i j. swap i j (kept ++ (dropped ++ (c ∷ rest)))) at_out at_first ∙ swapped in
            let l1 = length-append kept (c ∷ []) in
            let l2 = length-append (kept ++ (c ∷ [])) dropped' in
            let l3 = length-append kept dropped in
            let (tail, runs) =
              filter_loop_lem rest (kept ++ (c ∷ [])) dropped' (out + 1) (first + 1)
                (omega (arith, l1, at_out)) (omega (arith, l1, l2, l3, at_first, same_length)) ok in
            (
              tail,
              step_same (length rest) out first c _ _ there simulated same moved
                  ∙ runs
                  ∙ ap (λ l. some (length l, l ++ tail))
                      (append_assoc kept (c ∷ []) (agreeing rest))
                  ∙ ap (λ l. some (length (kept ++ l), (kept ++ l) ++ tail))
                      (sym (agreeing_same c rest same)),
            )
        | inr other ↦
            let l1 = length-append (kept ++ dropped) (c ∷ []) in
            let same_list = append_assoc kept dropped (c ∷ []) in
            let (tail, runs) =
              filter_loop_lem rest kept (dropped ++ (c ∷ [])) out (first + 1) at_out
                (omega (arith, at_first, l1, ap length same_list)) ok in
            (
              tail,
              step_other (length rest) out first c _ there simulated other
                  ∙ ap
                      (λ l. filter_loop simulate measured (length rest) out (first + 1) (kept ++ l))
                      (sym (append_assoc dropped (c ∷ []) rest))
                  ∙ runs
                  ∙ ap (λ l. some (length (kept ++ l), (kept ++ l) ++ tail))
                      (sym (agreeing_other c rest other)),
            )
      ]

  -- If the simulation of every candidate gives a number of hits, the candidates that remain after
  -- the filter and the erasure are exactly those with the measured number, in their order.
  pub remaining_candidates-agreeing :
      (candidates : List A)
      → All (λ c. simulate c ≡ some (hits c)) candidates
      → remaining_candidates simulate measured candidates ≡ some (agreeing candidates)
  unfolding remaining_candidates
  remaining_candidates-agreeing candidates ok =
      let (tail, runs) = filter_loop_lem candidates [] [] 0 0 refl refl ok in
      rw (runs, ◌>>=◌) (ap some (take-append (agreeing candidates) tail))
