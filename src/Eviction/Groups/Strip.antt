-- ===== src/Eviction/Groups/Strip.antt =====
-- What stripping a mask from the vector keeps.
use cache_hound.Common.{
  ℕ, ◌+◌, ◌-◌, ◌<◌, ◌≤◌, ◌≡◌, refl, ap, ap₂, sym, ◌∙◌, subst, Bool, true, false, List, [], ◌++◌,
  some, length, take, drop, arith, inl, inr, ◌⊎◌, ◌==◌, ==_iff, ==_of_lt, take-append,
  length-append, append_assoc, append-nil,
}
use cache_hound.Eviction.Occurrences.{occurrences, Part, Rearranged, occurrences-append}
use cache_hound.Eviction.Groups.{Mask, swap_ranges, strip}
use cache_hound.Eviction.Groups.Blocks.{swap_ranges_lem}
use cache_hound.Eviction.Groups.Splits.{split_at, split_at₂, drop_all_append, moved}

-- What stripping a mask leaves: fewer addresses, all of those outside the mask among them.
pub record Stripped (evicts : List ℕ → Bool) (xs : List ℕ) (last size : ℕ) (ys : List ℕ) (last' : ℕ)
    : Type 0 where
  pub shorter : last' + size ≡ last
  pub long : last ≤ length ys
  pub same : Rearranged ys xs
  pub kept : evicts (take last' ys) ≡ true

module _ (evicts : List ℕ → Bool)
    (monotone : (xs ys : List ℕ) → Part xs ys → evicts xs ≡ true → evicts ys ≡ true) where
  -- The blocks of the vector: before the mask, its first part, its rest, up to the last block, the
  -- last block, and what was stripped before.
  blocks_lem :
      (pre us ex mid vs post : List ℕ)
      → length us ≡ length vs
      → evicts (pre ++ (mid ++ vs)) ≡ true
      → evicts (
          take (length (pre ++ (vs ++ (ex ++ mid)))) (pre ++ (vs ++ ((ex ++ mid) ++ (us ++ post)))))
        ≡ true
  blocks_lem pre us ex mid vs post len h =
      let whole : pre ++ (vs ++ ((ex ++ mid) ++ (us ++ post)))
          ≡ (pre ++ (vs ++ (ex ++ mid))) ++ (us ++ post) =
        ap (λ l. pre ++ l) (sym (append_assoc vs (ex ++ mid) (us ++ post)))
        ∙ sym (append_assoc pre (vs ++ (ex ++ mid)) (us ++ post)) in
      let taken =
        ap (λ l. take (length (pre ++ (vs ++ (ex ++ mid)))) l) whole
        ∙ take-append (pre ++ (vs ++ (ex ++ mid))) (us ++ post) in
      ap evicts taken
      ∙ monotone (pre ++ (mid ++ vs)) (pre ++ (vs ++ (ex ++ mid)))
          (λ a. omega (
            arith,
            occurrences-append a pre (mid ++ vs),
            occurrences-append a mid vs,
            occurrences-append a pre (vs ++ (ex ++ mid)),
            occurrences-append a vs (ex ++ mid),
            occurrences-append a ex mid,
          ))
          h

  -- The mask ends where the addresses end.
  strip_end :
      (pre mask post : List ℕ) (size b e : ℕ) (found : Bool)
      → b ≡ length pre
      → e ≡ length (pre ++ mask)
      → b + size ≡ e
      → evicts (take b (pre ++ mask) ++ drop e (pre ++ mask)) ≡ true
      → (ys : List ℕ) × (last' : ℕ) × (strip
            (length (pre ++ mask))
            size
            (record { found = found; mask_begin = b; mask_end = e })
            ((pre ++ mask) ++ post)
          ≡ some (ys, last'))
        × Stripped evicts ((pre ++ mask) ++ post) (length (pre ++ mask)) size ys last'
  unfolding strip
  strip_end pre mask post size b e found at_b at_e width h =
      let xs : List ℕ = (pre ++ mask) ++ post in
      let left : take b (pre ++ mask) ≡ pre =
        ap (λ n. take n (pre ++ mask)) at_b ∙ take-append pre mask in
      let right : drop e (pre ++ mask) ≡ [] =
        ap (λ n. drop n (pre ++ mask)) at_e
        ∙ ap (drop (length (pre ++ mask))) (sym (append-nil (pre ++ mask)))
        ∙ drop_all_append (pre ++ mask) [] in
      let taken : take b xs ≡ pre =
        ap₂ (λ n l. take n l) at_b (append_assoc pre mask post) ∙ take-append pre (mask ++ post) in
      (
        xs,
        b,
        rw ((==_iff e (length (pre ++ mask))).1 at_e) refl,
        record {
          shorter = width ∙ at_e;
          long = omega (arith, length-append (pre ++ mask) post);
          same = λ a. refl;
          kept = ap evicts (taken ∙ sym (append-nil pre) ∙ ap₂ ◌++◌ (sym left) (sym right)) ∙ h;
        },
      )

  -- Addresses stand between the mask and the last block.
  strip_block :
      (pre us ex mid vs post : List ℕ) (size b e : ℕ) (found : Bool)
      → b ≡ length pre
      → length us ≡ size
      → length vs ≡ size
      → 0 < size
      → e ≡ length (pre ++ (us ++ ex))
      → evicts (
          take b ((pre ++ (us ++ ex)) ++ (mid ++ vs))
          ++ drop e ((pre ++ (us ++ ex)) ++ (mid ++ vs)))
        ≡ true
      → (ys : List ℕ) × (last' : ℕ) × (strip
            (length ((pre ++ (us ++ ex)) ++ (mid ++ vs)))
            size
            (record { found = found; mask_begin = b; mask_end = e })
            (((pre ++ (us ++ ex)) ++ (mid ++ vs)) ++ post)
          ≡ some (ys, last'))
        × Stripped evicts
            (((pre ++ (us ++ ex)) ++ (mid ++ vs)) ++ post)
            (length ((pre ++ (us ++ ex)) ++ (mid ++ vs)))
            size
            ys
            last'
  unfolding strip
  strip_block pre us ex mid vs post size b e found at_b len_u len_v pos at_e h =
      let evset : List ℕ = (pre ++ (us ++ ex)) ++ (mid ++ vs) in
      let last : ℕ = length evset in
      let ys : List ℕ = pre ++ (vs ++ ((ex ++ mid) ++ (us ++ post))) in
      let parts : evset ≡ pre ++ (us ++ (ex ++ (mid ++ vs))) =
        append_assoc pre (us ++ ex) (mid ++ vs)
        ∙ ap (λ l. pre ++ l) (append_assoc us ex (mid ++ vs)) in
      let layout : evset ++ post ≡ pre ++ (us ++ ((ex ++ mid) ++ (vs ++ post))) =
        ap (λ l. l ++ post) parts
        ∙ append_assoc pre (us ++ (ex ++ (mid ++ vs))) post
        ∙ ap (λ l. pre ++ l) (append_assoc us (ex ++ (mid ++ vs)) post)
        ∙ ap (λ l. pre ++ (us ++ l))
            (ap (λ l. l ++ post) (sym (append_assoc ex mid vs))
              ∙ append_assoc (ex ++ mid) vs post) in
      let sizes : last ≡ length pre + length us + length (ex ++ mid) + length vs = omega (
        arith,
        length-append (pre ++ (us ++ ex)) (mid ++ vs),
        length-append pre (us ++ ex),
        length-append us ex,
        length-append mid vs,
        length-append ex mid,
      ) in
      let other : (e == last) ≡ false = ==_of_lt e last (
        omega (
          arith,
          at_e,
          length-append (pre ++ (us ++ ex)) (mid ++ vs),
          length-append mid vs,
          len_v,
          pos,
        )) in
      let run : swap_ranges size (last - size) b (evset ++ post) ≡ some ys =
        ap (λ n. swap_ranges n (last - size) b (evset ++ post)) (sym len_u)
        ∙ ap (swap_ranges (length us) (last - size) b) layout
        ∙ swap_ranges_lem us vs pre (ex ++ mid) post (last - size) b (len_u ∙ sym len_v) at_b
            (omega (arith, sizes, len_v)) in
      let end : last - size ≡ length (pre ++ (vs ++ (ex ++ mid))) = omega (
        arith,
        sizes,
        len_u,
        len_v,
        length-append pre (vs ++ (ex ++ mid)),
        length-append vs (ex ++ mid),
      ) in
      let left : take b evset ≡ pre =
        ap₂ (λ n l. take n l) at_b parts ∙ take-append pre (us ++ (ex ++ (mid ++ vs))) in
      let right : drop e evset ≡ mid ++ vs =
        ap (λ n. drop n evset) at_e ∙ drop_all_append (pre ++ (us ++ ex)) (mid ++ vs) in
      (
        ys,
        last - size,
        rw (other, run) refl,
        record {
          shorter = omega (arith, sizes, len_v);
          long = omega (
            arith,
            sizes,
            length-append pre (vs ++ ((ex ++ mid) ++ (us ++ post))),
            length-append vs ((ex ++ mid) ++ (us ++ post)),
            length-append (ex ++ mid) (us ++ post),
            length-append us post,
          );
          same = λ a. moved a pre us (ex ++ mid) vs post ∙ ap (occurrences a) (sym layout);
          kept =
              ap (λ n. evicts (take n ys)) end
              ∙ blocks_lem pre us ex mid vs post (len_u ∙ sym len_v)
                  (ap evicts (ap₂ ◌++◌ (sym left) (sym right)) ∙ h);
        },
      )

  -- What `Found` says of a mask's bounds.
  abbrev pub FoundAt : List ℕ → ℕ → ℕ → ℕ → Type 0
  FoundAt evset size b e =
      (((e ≡ length evset) × (b + size ≡ e)) ⊎ ((b + size ≤ e) × (e + size ≤ length evset)))
      × (evicts (take b evset ++ drop e evset) ≡ true)

  abbrev pub Strips : ℕ → Mask → List ℕ → List ℕ → Type 0
  Strips size mask evset post =
      (ys : List ℕ) × (last' : ℕ) × (strip (length evset) size mask (evset ++ post)
        ≡ some (ys, last'))
      × Stripped evicts (evset ++ post) (length evset) size ys last'

  strip_parts :
      (pre mask rest post : List ℕ) (size b e : ℕ) (found : Bool)
      → 0 < size
      → b ≡ length pre
      → size ≤ length mask
      → size ≤ length rest
      → e ≡ length (pre ++ mask)
      → evicts (take b ((pre ++ mask) ++ rest) ++ drop e ((pre ++ mask) ++ rest)) ≡ true
      → Strips size
          (record { found = found; mask_begin = b; mask_end = e })
          ((pre ++ mask) ++ rest)
          post
  strip_parts pre mask rest post size b e found pos at_b wide room at_e h =
      let (us, ex, s, l) = split_at size mask wide in
      let (mid, vs, s', l') = split_at (length rest - size) rest (omega arith) in
      let size_v : length vs ≡ size = omega (arith, ap length s', length-append mid vs, l', room) in
      subst
        (λ k.
          e ≡ length (pre ++ k)
          → evicts (take b ((pre ++ k) ++ rest) ++ drop e ((pre ++ k) ++ rest)) ≡ true
          → Strips size (record { found = found; mask_begin = b; mask_end = e })
              ((pre ++ k) ++ rest) post)
        (sym s)
        (λ at.
          subst
            (λ r.
              evicts (take b ((pre ++ (us ++ ex)) ++ r) ++ drop e ((pre ++ (us ++ ex)) ++ r)) ≡ true
              → Strips size (record { found = found; mask_begin = b; mask_end = e })
                  ((pre ++ (us ++ ex)) ++ r) post)
            (sym s') (strip_block pre us ex mid vs post size b e found at_b l size_v pos at))
        at_e h

  pub strip_found :
      (evset post : List ℕ) (size b e : ℕ) (found : Bool)
      → 0 < size
      → FoundAt evset size b e
      → Strips size (record { found = found; mask_begin = b; mask_end = e }) evset post
  strip_found evset post size b e found pos (inl (at_end, width), h) =
      let (pre, mask, split, len) = split_at b evset (omega (arith, at_end, width)) in
      subst (λ l. Strips size (record { found = found; mask_begin = b; mask_end = e }) l post)
        (sym split)
        (strip_end pre mask post size b e found (sym len) (at_end ∙ ap length split) width
          (ap (λ l. evicts (take b l ++ drop e l)) (sym split) ∙ h))
  strip_found evset post size b e found pos (inr (wide, room), h) =
      let (pre, mask, rest, split, len, len') =
        split_at₂ b (e - b) evset (omega (arith, wide, room)) in
      let total : length evset ≡ length (pre ++ mask) + length rest =
        ap length split ∙ length-append (pre ++ mask) rest in
      let at_e : e ≡ length (pre ++ mask) =
        omega (arith, length-append pre mask, len, len', wide) in
      subst (λ l. Strips size (record { found = found; mask_begin = b; mask_end = e }) l post)
        (sym split)
        (strip_parts pre mask rest post size b e found pos (sym len) (omega (arith, len', wide))
          (omega (arith, total, at_e, room)) at_e
          (ap (λ l. evicts (take b l ++ drop e l)) (sym split) ∙ h))
