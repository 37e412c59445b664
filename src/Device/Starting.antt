-- ===== src/Device/Starting.antt =====
-- What a request to start the agent does to the state.
use cache_hound.Common.{
  ℕ, ◌+◌, ◌≡◌, refl, sym, Bool, true, false, not, ltb, List, [], ◌∷◌, Option, none, some,
  if◌then◌else◌, ◌&&◌,
}
use cache_hound.Device.{
  Region, ChState, Status, einval, StartConfig, ch_state_try_start, start_agent, launch,
}
use cache_hound.Device.States.{owned}

-- What a request to start does: it has a reference for the new agent, or changes nothing.
unfoldable pub Launched : ChState → Status → ChState → Type 0
Launched s none s' =
    (s.started ≡ false)
    × (s'.started ≡ true)
    × (s'.ref_counter ≡ s.ref_counter + 1)
    × (owned s' ≡ owned s)
Launched s (some error) s' =
    (s'.started ≡ s.started) × (s'.ref_counter ≡ s.ref_counter) × (owned s' ≡ owned s)

unfoldable pub Launching : ChState → Option (Status × ChState) → Type 0
Launching s o = (status : Status) × (s' : ChState) × (o ≡ some (status, s')) × Launched s status s'

launch_lem :
    (config : StartConfig) (s : ChState) → Launching s (launch true config (ch_state_try_start s))
unfolding launch Launching Launched
launch_lem config s = by_case s.started refl
  where
    by_case :
        (b : Bool)
        → s.started ≡ b
        → Launching s (launch true config (not b, record s { started = true }))
    by_case true e = (_, _, refl, (sym e, refl, refl))
    by_case false e = (_, _, refl, (e, refl, refl, refl))

-- A request to start takes a reference for the agent, or changes nothing that is held.
pub start_agent_lem :
    (nr_cpus : ℕ) (config : StartConfig) (s : ChState)
    → Launching s (start_agent nr_cpus true config s)
unfolding start_agent Launching Launched
start_agent_lem nr_cpus config s = by_regions s.regions
  where
    by_test :
        (b : Bool)
        → Launching s
            (if b then launch true config (ch_state_try_start s) else some (some einval, s))
    by_test true = launch_lem config s
    by_test false = (_, _, refl, (refl, refl, refl))

    by_regions :
        (rs : List Region)
        → Launching s (elim rs [
          | [] ↦ some (some einval, s)
          | _ ∷ _ ↦
              if ltb config.cpu nr_cpus && ltb config.isolation_level 3
              then launch true config (ch_state_try_start s)
              else some (some einval, s)
        ])
    by_regions [] = (_, _, refl, (refl, refl, refl))
    by_regions (r ∷ rs) = by_test (ltb config.cpu nr_cpus && ltb config.isolation_level 3)
