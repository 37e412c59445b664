-- ===== src/Eviction/Slow/Step.antt =====
-- One step of the loops keeps the invariant and takes one candidate away.
use cache_hound.Common.{
  ℕ, ◌+◌, ◌-◌, ◌<◌, ◌≤◌, ◌≡◌, refl, ap, sym, ◌∙◌, subst, Bool, true, false, List, [], ◌∷◌, ◌++◌,
  some, length, take, arith, append_assoc, append-nil, length-append, take-append, Bool-cases, inl,
  inr,
}
use cache_hound.Policy.Order.{last_split}
use cache_hound.Eviction.{Answers}
use cache_hound.Eviction.Occurrences.{
  occurrences, Rearranged, occurrences-append, occurrences-cons, occurrences-nil, Part,
}
use cache_hound.Eviction.Slow.{swap, Cursor, judge, candidate_step}
use cache_hound.Eviction.Slow.Swap.{swap_lem, swap_same_lem}
use cache_hound.Eviction.Slow.Crucial.{Crucial, Split, Crucial-drop, Crucial-keep}

-- The last candidate changes places with the first one, which stays a candidate.
swap_last :
    (crucial pre : List ℕ) (x : ℕ) (dropped : List ℕ)
    → (candidates : List ℕ) × (swap
          (length crucial)
          (length (crucial ++ pre))
          (crucial ++ (pre ++ (x ∷ dropped)))
        ≡ some ((crucial ++ (x ∷ [])) ++ (candidates ++ dropped)))
      × Rearranged candidates pre
      × (length candidates ≡ length pre)
swap_last crucial [] x dropped = (
  [],
  ap (λ l. swap (length crucial) (length l) (crucial ++ (x ∷ dropped))) (append-nil crucial)
      ∙ swap_same_lem crucial x dropped
      ∙ ap some (sym (append_assoc crucial (x ∷ []) dropped)),
  λ a. refl,
  refl,
)
swap_last crucial (y ∷ mid) x dropped = (
  mid ++ (y ∷ []),
  swap_lem crucial y mid x dropped
      ∙ ap some (
          ap (λ l. crucial ++ (x ∷ l)) (sym (append_assoc mid (y ∷ []) dropped))
          ∙ sym (append_assoc crucial (x ∷ []) ((mid ++ (y ∷ [])) ++ dropped))),
  λ a. omega (
    arith,
    occurrences-append a mid (y ∷ []),
    occurrences-cons a y mid,
    occurrences-cons a y [],
    occurrences-nil a,
  ),
  omega (arith, length-append mid (y ∷ [])),
)

module _ (evicts : List ℕ → Bool) {original : List ℕ} {c : Cursor} (v : Split evicts original c)
    (pre : List ℕ) (x : ℕ) (split : v.candidates ≡ pre ++ (x ∷ [])) where
  layout_last : c.addresses ≡ v.crucial ++ (pre ++ (x ∷ v.dropped))
  layout_last =
      v.layout
      ∙ ap (λ l. v.crucial ++ (l ++ v.dropped)) split
      ∙ ap (λ l. v.crucial ++ l) (append_assoc pre (x ∷ []) v.dropped)

  ends_last : c.candidates_end ≡ length (v.crucial ++ pre) + 1
  ends_last =
      omega
        (arith, v.ends, ap length split, length-append pre (x ∷ []), length-append v.crucial pre)

  -- What the test is called on.
  tested_lem : take (c.candidates_end - 1) c.addresses ≡ v.crucial ++ pre
  tested_lem =
      let index : c.candidates_end - 1 ≡ length (v.crucial ++ pre) = omega (arith, ends_last) in
      ap (λ n. take n c.addresses) index
      ∙ ap (λ l. take (length (v.crucial ++ pre)) l)
          (layout_last ∙ sym (append_assoc v.crucial pre (x ∷ v.dropped)))
      ∙ take-append (v.crucial ++ pre) (x ∷ v.dropped)

  module _ (monotone : (xs ys : List ℕ) → Part xs ys → evicts xs ≡ true → evicts ys ≡ true) where
    judge-drop :
        evicts (v.crucial ++ pre) ≡ true
        → (c' : Cursor) × (judge true c ≡ some c')
          × Split evicts original c'
          × (c'.candidates_begin ≡ c.candidates_begin)
          × (c'.candidates_end + 1 ≡ c.candidates_end)
    unfolding judge
    judge-drop kept = (
      record c { candidates_end = c.candidates_end - 1 },
      refl,
      record {
        crucial = v.crucial;
        candidates = pre;
        dropped = x ∷ v.dropped;
        layout = layout_last;
        begins = v.begins;
        ends = omega (arith, ends_last, length-append v.crucial pre);
        same = v.same;
        kept = kept;
        needed =
            Crucial-drop evicts monotone v.crucial pre x
              (subst (λ l. Crucial evicts v.crucial (v.crucial ++ l)) split v.needed);
      },
      refl,
      omega (arith, ends_last),
    )

    judge-keep :
        evicts (v.crucial ++ pre) ≡ false
        → (c' : Cursor) × (judge false c ≡ some c')
          × Split evicts original c'
          × (c'.candidates_begin ≡ c.candidates_begin + 1)
          × (c'.candidates_end ≡ c.candidates_end)
    unfolding judge
    judge-keep fails =
        let (candidates, run, around, len) = swap_last v.crucial pre x v.dropped in
        let crucial : List ℕ = v.crucial ++ (x ∷ []) in
        let index : c.candidates_end - 1 ≡ length (v.crucial ++ pre) = omega (arith, ends_last) in
        let whole : Rearranged v.candidates (x ∷ pre) = λ a. omega (
          arith,
          ap (occurrences a) split,
          occurrences-append a pre (x ∷ []),
          occurrences-cons a x [],
          occurrences-cons a x pre,
          occurrences-nil a,
        ) in
        (
          record c {
            addresses = crucial ++ (candidates ++ v.dropped);
            candidates_begin = c.candidates_begin + 1;
          },
          rw (v.begins, index, layout_last, run) refl,
          record {
            crucial = crucial;
            candidates = candidates;
            dropped = v.dropped;
            layout = refl;
            begins = omega (arith, v.begins, length-append v.crucial (x ∷ []));
            ends = omega (
              arith,
              ends_last,
              len,
              length-append v.crucial pre,
              length-append v.crucial (x ∷ []),
            );
            same = λ a. omega (
              arith,
              v.same a,
              whole a,
              around a,
              ap (occurrences a) v.layout,
              occurrences-append a v.crucial (v.candidates ++ v.dropped),
              occurrences-append a v.candidates v.dropped,
              occurrences-append a crucial (candidates ++ v.dropped),
              occurrences-append a candidates v.dropped,
              occurrences-append a v.crucial (x ∷ []),
              occurrences-cons a x pre,
              occurrences-cons a x [],
              occurrences-nil a,
            );
            kept =
                monotone (v.crucial ++ v.candidates) (crucial ++ candidates)
                  (λ a. omega (
                    arith,
                    whole a,
                    around a,
                    occurrences-append a v.crucial v.candidates,
                    occurrences-append a crucial candidates,
                    occurrences-append a v.crucial (x ∷ []),
                    occurrences-cons a x pre,
                    occurrences-cons a x [],
                    occurrences-nil a,
                  ))
                  v.kept;
            needed =
                Crucial-keep evicts monotone v.crucial v.candidates pre x v.needed whole fails
                  candidates around;
          },
          refl,
          refl,
        )

module _ {M : Type 0} (is_eviction_set : List ℕ → M → Bool × M) (evicts : List ℕ → Bool)
    (t : Answers is_eviction_set evicts) where
  pub candidate_step-Split :
      (original : List ℕ) (c : Cursor) (memory : M)
      → Split evicts original c
      → c.candidates_begin < c.candidates_end
      → (c' : Cursor) × (memory' : M) × (candidate_step is_eviction_set c memory
          ≡ some (c', memory'))
        × Split evicts original c'
        × (c'.candidates_begin ≤ c'.candidates_end)
        × (c'.candidates_end - c'.candidates_begin + 1 ≡ c.candidates_end - c.candidates_begin)
  unfolding candidate_step
  candidate_step-Split original c memory v some_left =
      let (pre, x, split, len) = last_split v.candidates (omega (arith, v.begins, v.ends)) in
      let tested : take (c.candidates_end - 1) c.addresses ≡ v.crucial ++ pre =
        tested_lem evicts v pre x split in
      elim (Bool-cases (evicts (v.crucial ++ pre))) [
        | inl kept ↦
            let (c', run, v', begins, ends) = judge-drop evicts v pre x split t.monotone kept in
            (
              c',
              (is_eviction_set (v.crucial ++ pre) memory).1,
              rw (tested, t.answers (v.crucial ++ pre) memory, kept, run) refl,
              v',
              omega arith,
              omega arith,
            )
        | inr fails ↦
            let (c', run, v', begins, ends) = judge-keep evicts v pre x split t.monotone fails in
            (
              c',
              (is_eviction_set (v.crucial ++ pre) memory).1,
              rw (tested, t.answers (v.crucial ++ pre) memory, fails, run) refl,
              v',
              omega arith,
              omega arith,
            )
      ]
