-- ===== src/Device/States.antt =====
-- What a state holds, from its allocation to its end.
use cache_hound.Common.{
  ℕ, ◌+◌, ◌≤◌, ◌≡◌, refl, ap, sym, ◌∙◌, fun_ext, false, List, [], ◌∷◌, ◌++◌, Option, none, some,
  ◌>>=◌, arith,
}
use cache_hound.Device.{
  Resource, pages, mapping, object, Heap, allocate, release, Region, ChState, Status, enomem, eio,
  alloc_ch_state, with_page, with_channels, with_state, with_pages, with_base, with_region,
  free_regions, ch_state_free, ch_state_alloc_memory,
}
use cache_hound.Device.Ledger.{
  occurrences, release_top, release_all, release_all_lem, Allocated, failed, given, allocate_lem,
}

abbrev pub owned_regions : List Region → List Resource
owned_regions [] = []
owned_regions (r ∷ rs) = object r.self ∷ mapping r.base ∷ pages r.page r.order ∷ owned_regions rs

-- What a state holds beside its regions.
abbrev pub own : ChState → List Resource
own s = object s.self ∷ mapping s.channels ∷ pages s.channels_page 0 ∷ []

abbrev pub owned : ChState → List Resource
owned s = owned_regions s.regions ++ own s

free_regions-release_all :
    (rs : List Region) (h : Heap) → free_regions rs h ≡ release_all (owned_regions rs) h
unfolding free_regions release_all
free_regions-release_all [] h = refl
free_regions-release_all (r ∷ rs) h =
    ap
      (λ k. release (object r.self) h >>= λ h1.
        release (mapping r.base) h1 >>= λ h2. release (pages r.page r.order) h2 >>= k)
      (fun_ext (λ h3. free_regions-release_all rs h3))

pub occurrences-append :
    (q : Resource) (xs ys : List Resource)
    → occurrences q (xs ++ ys) ≡ occurrences q xs + occurrences q ys
unfolding occurrences
occurrences-append q [] ys = omega arith
occurrences-append q (x ∷ xs) ys = omega (arith, occurrences-append q xs ys)

>>=-some : (o : Option Heap) → (o >>= λ h. some h) ≡ o
>>=-some none = refl
>>=-some (some h) = refl

free_own :
    (s : ChState) (h : Heap)
    → (release (object s.self) h >>= λ h1.
        release (mapping s.channels) h1 >>= λ h2. release (pages s.channels_page 0) h2)
      ≡ release_all (own s) h
unfolding release_all
free_own s h =
    ap (λ k. release (object s.self) h >>= λ h1. release (mapping s.channels) h1 >>= k)
      (fun_ext (λ h2. sym (>>=-some (release (pages s.channels_page 0) h2))))

-- A state that holds live resources is freed, and only these.
pub ch_state_free_lem :
    (s : ChState) (h : Heap)
    → ((q : Resource) → occurrences q (owned s) ≤ occurrences q h.live)
    → (h' : Heap) × (ch_state_free s h ≡ some h')
      × ((q : Resource) → occurrences q h.live ≡ occurrences q (owned s) + occurrences q h'.live)
unfolding ch_state_free release_all
ch_state_free_lem s h enough =
    let split = λ (q : Resource). occurrences-append q (owned_regions s.regions) (own s) in
    let (h1, runs1, counts1) =
      release_all_lem (owned_regions s.regions) h (λ q. omega (arith, enough q, split q)) in
    let (h2, runs2, counts2) =
      release_all_lem (own s) h1 (λ q. omega (arith, enough q, split q, counts1 q)) in
    (
      h2,
      rw (free_regions-release_all s.regions h, runs1) (free_own s h1 ∙ runs2),
      λ q. omega (arith, split q, counts1 q, counts2 q),
    )

-- What an allocation of a state leaves.
unfoldable pub Opened : Heap → Option ChState → Heap → Type 0
Opened h none h' = h'.live ≡ h.live
Opened h (some s) h' =
    (h'.live ≡ owned s ++ h.live)
    × (s.ref_counter ≡ 1)
    × (s.started ≡ false)
    × (s.active_channel ≡ 0)

Opening : Heap → Option (Option ChState × Heap) → Type 0
Opening h o = (state : Option ChState) × (h' : Heap) × (o ≡ some (state, h')) × Opened h state h'

with_state_lem :
    (p c : ℕ) (h h2 : Heap) (o : Option ℕ × Heap)
    → h2.live ≡ mapping c ∷ pages p 0 ∷ h.live
    → Allocated object h2 o
    → Opening h (with_state p c o)
unfolding with_state Opened Opening
with_state_lem p c h h2 _ has (failed h3 e) =
    let top = release_top (mapping c) h3 (pages p 0 ∷ h.live) (e ∙ has) in
    let top' = release_top (pages p 0) (record h3 { live = pages p 0 ∷ h.live }) h.live refl in
    (none, record h3 { live = h.live }, rw (top, top') refl, refl)
with_state_lem p c h h2 _ has (given k h3 e) =
    (_, _, refl, (e ∙ ap (◌∷◌ (object k)) has, refl, refl, refl))

with_channels_lem :
    (p : ℕ) (h h1 : Heap) (o : Option ℕ × Heap)
    → h1.live ≡ pages p 0 ∷ h.live
    → Allocated mapping h1 o
    → Opening h (with_channels p o)
unfolding with_channels Opened Opening
with_channels_lem p h h1 _ has (failed h2 e) =
    let top = release_top (pages p 0) h2 h.live (e ∙ has) in
    (none, record h2 { live = h.live }, rw top refl, refl)
with_channels_lem p h h1 _ has (given k h2 e) =
    with_state_lem p k h h2 (allocate object h2) (e ∙ ap (◌∷◌ (mapping k)) has)
      (allocate_lem object h2)

with_page_lem :
    (h : Heap) (o : Option ℕ × Heap) → Allocated (λ p. pages p 0) h o → Opening h (with_page o)
unfolding with_page Opened Opening
with_page_lem h _ (failed h1 e) = (none, h1, refl, e)
with_page_lem h _ (given k h1 e) =
    with_channels_lem k h h1 (allocate mapping h1) e (allocate_lem mapping h1)

-- A state is allocated, or everything that was is freed.
pub alloc_ch_state_lem :
    (h : Heap)
    → (state : Option ChState) × (h' : Heap) × (alloc_ch_state h ≡ some (state, h'))
      × Opened h state h'
unfolding alloc_ch_state Opening
alloc_ch_state_lem h =
    with_page_lem h (allocate (λ p. pages p 0) h) (allocate_lem (λ p. pages p 0) h)

-- What `ch_state_alloc_memory` leaves: an error and all as before, or one more region.
unfoldable pub Extended : ChState → ℕ → Heap → Status → ChState → Heap → Type 0
Extended s order h (some error) s' h' = (s' ≡ s) × (h'.live ≡ h.live)
Extended s order h none s' h' =
    (r : Region) × (s' ≡ record s { regions = s.regions ++ (r ∷ []) })
    × (h'.live ≡ owned_regions (r ∷ []) ++ h.live)
    × (r.order ≡ order)

Extending : ChState → ℕ → Heap → Option (Status × ChState × Heap) → Type 0
Extending s order h o =
    (status : Status) × (s' : ChState) × (h' : Heap) × (o ≡ some (status, s', h'))
    × Extended s order h status s' h'

with_region_lem :
    (s : ChState) (order p b : ℕ) (h h2 : Heap) (o : Option ℕ × Heap)
    → h2.live ≡ mapping b ∷ pages p order ∷ h.live
    → Allocated object h2 o
    → Extending s order h (with_region s order p b o)
unfolding with_region Extended Extending
with_region_lem s order p b h h2 _ has (failed h3 e) =
    let top = release_top (mapping b) h3 (pages p order ∷ h.live) (e ∙ has) in
    let top' =
      release_top (pages p order) (record h3 { live = pages p order ∷ h.live }) h.live refl in
    (some enomem, s, record h3 { live = h.live }, rw (top, top') refl, (refl, refl))
with_region_lem s order p b h h2 _ has (given k h3 e) =
    (none, _, _, refl, (_, refl, e ∙ ap (◌∷◌ (object k)) has, refl))

with_base_lem :
    (s : ChState) (order p : ℕ) (h h1 : Heap) (o : Option ℕ × Heap)
    → h1.live ≡ pages p order ∷ h.live
    → Allocated mapping h1 o
    → Extending s order h (with_base s order p o)
unfolding with_base Extended Extending
with_base_lem s order p h h1 _ has (failed h2 e) =
    let top = release_top (pages p order) h2 h.live (e ∙ has) in
    (some eio, s, record h2 { live = h.live }, rw top refl, (refl, refl))
with_base_lem s order p h h1 _ has (given k h2 e) =
    with_region_lem s order p k h h2 (allocate object h2) (e ∙ ap (◌∷◌ (mapping k)) has)
      (allocate_lem object h2)

with_pages_lem :
    (s : ChState) (order : ℕ) (h : Heap) (o : Option ℕ × Heap)
    → Allocated (λ p. pages p order) h o
    → Extending s order h (with_pages s order o)
unfolding with_pages Extended Extending
with_pages_lem s order h _ (failed h1 e) = (some enomem, s, h1, refl, (refl, e))
with_pages_lem s order h _ (given k h1 e) =
    with_base_lem s order k h h1 (allocate mapping h1) e (allocate_lem mapping h1)

-- The allocation of a memory region never faults: either it returns an error, leaves the state as
-- it was and has freed whatever it had allocated, or it returns no error, appends one region of the
-- given order to the state, and the kernel has the three resources of this region more.
pub ch_state_alloc_memory_lem :
    (s : ChState) (order : ℕ) (h : Heap)
    → (status : Status) × (s' : ChState) × (h' : Heap) × (ch_state_alloc_memory s order h
        ≡ some (status, s', h'))
      × Extended s order h status s' h'
unfolding ch_state_alloc_memory Extending
ch_state_alloc_memory_lem s order h =
    with_pages_lem s order h (allocate (λ p. pages p order) h) (allocate_lem (λ p. pages p order) h)
