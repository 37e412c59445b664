-- ===== src/Memory/Contract.antt =====
-- What the memory relies on in its caches, and that the set associative cache keeps it.
use cache_hound.Common.{ℕ, ◌≡◌, ◌≢◌, ◌↔◌, Option, some, none, ◌⊎◌, inl, inr, subst, sym}
use cache_hound.Cache.{SetAssociativePolicy, SetAssociativeCache}
use cache_hound.Cache
use cache_hound.Cache.Contract.{SetContract}
use cache_hound.Cache.Lookup
use cache_hound.Cache.Lookup.{lookup_cases, HoldsAt}
use cache_hound.Cache.Store
use cache_hound.Cache.Fill
use cache_hound.Memory.{CacheOperations}

pub record CacheContract {C : Type 0} (o : CacheOperations C) : Type 1 where
  pub IsValid : C → Type 0
  pub Cached : C → ℕ → Type 0
  pub lookup_lem :
      (cache : C) (address : ℕ)
      → IsValid cache
      → ((o.lookup cache address ≡ some none) × (¬ Cached cache address))
        ⊎ ((handle : ℕ) × (cache' : C) × (o.lookup cache address ≡ some (some handle))
            × Cached cache address
            × (o.hit cache handle ≡ some cache')
            × IsValid cache'
            × ((b : ℕ) → Cached cache' b ↔ Cached cache b))
  pub fill_lem :
      (cache : C) (address : ℕ)
      → IsValid cache
      → (victim : Option ℕ) × (cache' : C) × (o.fill cache address ≡ some (victim, cache'))
        × IsValid cache'
        × ((b : ℕ) → Cached cache' b ↔ ((b ≡ address) ⊎ (Cached cache b × (victim ≢ some b))))

module _ {S : Type 0} (p : SetAssociativePolicy S) (c : SetContract p) where
  abbrev pub set_associative : CacheOperations (SetAssociativeCache S)
  set_associative = record {
    lookup = Cache.lookup p;
    hit = Cache.hit p;
    invalidate = Cache.invalidate p;
    fill = Cache.fill p;
  }

  unfoldable pub set_associative-CacheContract : CacheContract set_associative
  set_associative-CacheContract = record {
    IsValid = Lookup.IsValid p c;
    Cached = Store.Cached;
    lookup_lem = λ cache address v. elim (lookup_cases p c cache v address) [
      | inl (missing, absent) ↦ inl (missing, λ (i, h). absent i h)
      | inr (i, found, h) ↦
          let (cache', run, v', same) = Fill.hit_lem p c cache v i address h in
          inr (
            i,
            cache',
            found,
            (i, h),
            run,
            v',
            λ b. (
              (λ (j, k). (j, subst (λ l. HoldsAt l j b) same k)),
              (λ (j, k). (j, subst (λ l. HoldsAt l j b) (sym same) k)),
            ),
          )
    ];
    fill_lem = λ cache address v.
        let (victim, cache', run, v', held, gone) = Fill.fill_lem p c cache v address in
        (victim, cache', run, v', held);
  }
