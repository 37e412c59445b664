-- ===== src/KernelMemory/SetWay/Decoding.antt =====
-- The agent does with a word of `internal_cisw` what the client asked for.
use cache_hound.Common.{
  ℕ, ◌/◌, ◌%◌, ◌^◌, ◌<◌, ◌≡◌, refl, subst, Bool, true, false, ◌||◌, some, ltb, check-eq-some,
  >>=-eq-some, some-inj, arith,
}
use cache_hound.Channel.{data_size}
use cache_hound.Agent.Arm.{
  Processor, Counted, Branch, branch, perform, perform_branch, cisw, isw, csw, plain, code,
}
use cache_hound.Agent.Arm.Serves.{arm_contract}
use cache_hound.KernelMemory.{KernelMemory, System}
use cache_hound.KernelMemory.Represents.{Represents}
use cache_hound.KernelMemory.Accesses.{Ready, internal_access_lem}
use cache_hound.KernelMemory.SetWay.{set_way_word, set_way_fields, tagged, internal_cisw}

-- The operation that the arguments ask for.
abbrev pub operation : Bool → Bool → Branch
operation true true = cisw
operation true false = csw
operation false true = isw
operation false false = plain

branch-tagged :
    (low : ℕ) (clean invalidate : Bool)
    → (branch (tagged clean invalidate low) ≡ operation clean invalidate)
      × (tagged clean invalidate low < 2 ^ 64)
unfolding branch
branch-tagged low true true =
    let e : tagged true true low / 2 ^ 62 % 4 ≡ 0 = omega arith in (rw e refl, omega arith)
branch-tagged low true false =
    let e : tagged true false low / 2 ^ 62 % 4 ≡ 1 = omega arith in (rw e refl, omega arith)
branch-tagged low false true =
    let e : tagged false true low / 2 ^ 62 % 4 ≡ 2 = omega arith in (rw e refl, omega arith)
branch-tagged low false false =
    let e : tagged false false low / 2 ^ 62 % 4 ≡ 3 = omega arith in (rw e refl, omega arith)

-- The agent branches to the operation that the client asked for.
pub branch-set_way_word :
    (k : KernelMemory) (clean invalidate : Bool) (level set way x : ℕ)
    → set_way_word k clean invalidate level set way ≡ some x
    → (branch x ≡ operation clean invalidate) × (x < 2 ^ 64)
unfolding set_way_word
branch-set_way_word k clean invalidate level set way x e =
    let (_, e1) = check-eq-some (clean || invalidate) _ e in
    let (_, e2) = check-eq-some (ltb level k.cache_info.levels) _ e1 in
    let (low, _, e3) =
      >>=-eq-some (set_way_fields k level set way) (λ fields. some (tagged clean invalidate fields))
        e2 in
    subst (λ y. (branch y ≡ operation clean invalidate) × (y < 2 ^ 64)) (some-inj e3)
      (branch-tagged low clean invalidate)

module _ {M : Type 0} (p : Processor M) where
  -- If the assertions of a clean or invalidate by set and way hold and its shifts are defined, and
  -- the buffer has room, the operation succeeds and the system stands for what it stood for before
  -- with the ARMv8 instruction that the arguments name performed on the word of the client.
  pub internal_cisw_lem :
      (clean invalidate : Bool) (level set way x : ℕ) (s : System (Counted M)) (m : Counted M)
      → Represents (arm_contract p) s m
      → s.memory.buffered < data_size
      → set_way_word s.memory clean invalidate level set way ≡ some x
      → (s' : System (Counted M)) × (internal_cisw (code p) clean invalidate level set way s
          ≡ some s')
        × Ready (arm_contract p) s s' (perform_branch p (operation clean invalidate) x m)
  unfolding internal_cisw perform arm_contract
  internal_cisw_lem clean invalidate level set way x s m R free e =
      let (s', runs, y) = internal_access_lem (arm_contract p) x s m R free in
      let (decoded, _) = branch-set_way_word s.memory clean invalidate level set way x e in
      (
        s',
        rw (e, runs) refl,
        subst (λ b. Ready (arm_contract p) s s' (perform_branch p b x m)) decoded y,
      )
