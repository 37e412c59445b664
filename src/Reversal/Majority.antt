-- ===== src/Reversal/Majority.antt =====
-- The vote finds what more than half of the measurements agree on.
use cache_hound.Common.{
  ℕ, ◌+◌, ◌-◌, ◌*◌, ◌%◌, ◌<◌, ◌≤◌, ◌≡◌, ◌≢◌, ◌==◌, ◌⊎◌, inl, inr, refl, sym, ap, ◌∙◌, true, List,
  [], ◌∷◌, some, word, length, arith, ℕ_discrete, ==_refl, ==_of_ne, subst,
}
use cache_hound.Eviction.Occurrences.{
  occurrences, occurrences-cons, occurrences-nil, one_if_same, one_if_same_self, one_if_same_cases,
}
use cache_hound.Reversal.{majority_loop, majority_element}

module _ (x : ℕ) where
  -- After `n` elements, `o` of them `x`, all but `spare` of one value cancel out in pairs; the code
  -- counts one more than these, or as many.
  record Balance (maj count o n : ℕ) : Type 0 where
    spare : ℕ
    near : (spare + 1 ≡ count) ⊎ (spare ≡ count)
    sides : ((maj ≡ x) × (o + o ≤ n + spare)) ⊎ ((maj ≢ x) × (o + o + spare ≤ n))

  same_cases : (y : ℕ) → ((y ≡ x) × (one_if_same y x ≡ 1)) ⊎ ((y ≢ x) × (one_if_same y x ≡ 0))
  same_cases y = elim (ℕ_discrete y x) [
    | yes e ↦ inl (e, subst (λ z. one_if_same z x ≡ 1) (sym e) (one_if_same_self x))
    | no ne ↦ inr (ne, elim (one_if_same_cases y x) [ inl z ↦ z | inr e ↦ absurd (ne e) ])
  ]

  agree :
      (maj count o n : ℕ)
      → Balance maj count o n
      → Balance maj (count + 1) (o + one_if_same maj x) (n + 1)
  agree maj count o n b =
      let k = one_if_same maj x in
      record {
        spare = b.spare + 1;
        near = elim b.near [ inl e ↦ inl (omega (arith, e)) | inr e ↦ inr (omega (arith, e)) ];
        sides = elim (same_cases maj) [
          | inl (e, one) ↦
              inl (
                e,
                elim b.sides [ inl (_, h) ↦ omega (arith, one, h) | inr (ne, _) ↦ absurd (ne e) ],
              )
          | inr (ne, nought) ↦ inr (
            ne,
            elim b.sides [ inl (e, _) ↦ absurd (ne e) | inr (_, h) ↦ omega (arith, nought, h) ],
          )
        ];
      }

  replaced :
      (y maj o n : ℕ) → y ≢ maj → Balance maj 1 o n → Balance y 1 (o + one_if_same y x) (n + 1)
  replaced y maj o n ne b = record {
    spare = 1 - b.spare;
    near = elim b.near [ inl e ↦ inr (omega (arith, e)) | inr e ↦ inl (omega (arith, e)) ];
    sides = elim (same_cases y) [
      | inl (e, one) ↦ inl (
        e,
        elim b.sides [
          | inl (e', _) ↦ absurd (ne (e ∙ sym e'))
          | inr (_, h) ↦ elim b.near [
            | inl s ↦ omega (arith, one, h, s)
            | inr s ↦ omega (arith, one, h, s)
          ]
        ],
      )
      | inr (out, nought) ↦ inr (
        out,
        elim b.sides [
          | inl (_, h) ↦ elim b.near [
            | inl s ↦ omega (arith, nought, h, s)
            | inr s ↦ omega (arith, nought, h, s)
          ]
          | inr (_, h) ↦ elim b.near [
            | inl s ↦ omega (arith, nought, h, s)
            | inr s ↦ omega (arith, nought, h, s)
          ]
        ],
      )
    ];
  }

  cancelled :
      (y maj count o n : ℕ)
      → y ≢ maj
      → 1 < count
      → Balance maj count o n
      → Balance maj (count - 1) (o + one_if_same y x) (n + 1)
  cancelled y maj count o n ne many b =
      let some_spare : 0 < b.spare = elim b.near [
        | inl e ↦ omega (arith, e, many)
        | inr e ↦ omega (arith, e, many)
      ] in
      record {
        spare = b.spare - 1;
        near = elim b.near [
          | inl e ↦ inl (omega (arith, e, some_spare))
          | inr e ↦ inr (omega (arith, e, some_spare))
        ];
        sides = elim b.sides [
          | inl (e, h) ↦ inl (
            e,
            elim (same_cases y) [
              | inl (e', _) ↦ absurd (ne (e' ∙ sym e))
              | inr (_, nought) ↦ omega (arith, nought, h, some_spare)
            ],
          )
          | inr (out, h) ↦ inr (
            out,
            elim (same_cases y) [
              | inl (_, one) ↦ omega (arith, one, h, some_spare)
              | inr (_, nought) ↦ omega (arith, nought, h, some_spare)
            ],
          )
        ];
      }

  majority_loop_lem :
      (ys : List ℕ) (maj count o n : ℕ)
      → 0 < count
      → count + length ys < word
      → Balance maj count o n
      → n + length ys < o + occurrences x ys + (o + occurrences x ys)
      → majority_loop ys maj count ≡ x
  unfolding majority_loop
  majority_loop_lem [] maj count o n pos small b more = elim b.sides [
    | inl (e, _) ↦ e
    | inr (_, bound) ↦ absurd (omega (arith, bound, more, occurrences-nil x))
  ]
  majority_loop_lem (y ∷ ys) maj count o n pos small b more =
      let split = occurrences-cons x y ys in
      elim (ℕ_discrete y maj) [
        | yes e ↦
            let b' =
              subst (λ z. Balance maj (count + 1) (o + one_if_same z x) (n + 1)) (sym e)
                (agree maj count o n b) in
            let next : (count + 1) % word ≡ count + 1 = omega (arith, small) in
            let step : (y == maj) ≡ true = ap (λ z. z == maj) e ∙ ==_refl maj in
            rw (majority_loop, step)
              (ap (majority_loop ys maj) next
                ∙ majority_loop_lem ys maj (count + 1) (o + one_if_same y x) (n + 1) (omega arith)
                    (omega (arith, small)) b' (omega (arith, more, split)))
        | no ne ↦ elim (ℕ_discrete count 1) [
          | yes one ↦
              let b' =
                subst (λ c. Balance y c (o + one_if_same y x) (n + 1)) (sym one)
                  (replaced y maj o n ne (subst (λ c. Balance maj c o n) one b)) in
              let step : (count == 1) ≡ true = ap (λ z. z == 1) one in
              rw (majority_loop, ==_of_ne y maj ne, step)
                (majority_loop_lem ys y count (o + one_if_same y x) (n + 1) pos
                  (omega (arith, small)) b' (omega (arith, more, split)))
          | no many ↦
              rw (majority_loop, ==_of_ne y maj ne, ==_of_ne count 1 many)
                (majority_loop_lem ys maj (count - 1) (o + one_if_same y x) (n + 1)
                  (omega (arith, pos, many)) (omega (arith, small))
                  (cancelled y maj count o n ne (omega (arith, pos, many)) b)
                  (omega (arith, more, split)))
        ]
      ]

-- If more than half of the measurements, of which there are fewer than a machine word less one, are
-- equal to x, the vote returns x.
pub majority_element-occurrences :
    (x : ℕ) (measurements : List ℕ)
    → length measurements + 1 < word
    → length measurements < 2 * occurrences x measurements
    → majority_element measurements ≡ some x
unfolding majority_element
majority_element-occurrences x [] small more = absurd (omega (arith, more, occurrences-nil x))
majority_element-occurrences x (y ∷ ys) small more = ap some (
    majority_loop_lem x (y ∷ ys) y 1 0 0 (omega arith) (omega (arith, small))
      (record {
        spare = 0;
        near = inl refl;
        sides = elim (ℕ_discrete y x) [
          | yes e ↦ inl (e, omega arith)
          | no ne ↦ inr (ne, omega arith)
        ];
      })
      (omega (arith, more)))
