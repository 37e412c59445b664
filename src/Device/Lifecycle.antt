-- ===== src/Device/Lifecycle.antt =====
-- The life of an open file: its requests, its release and the end of its agent, in any order.
use cache_hound.Common.{ℕ, suc, ◌+◌, ◌<◌, ◌≤◌, ◌≡◌, Bool, true, false, Option, none, some, bit_to_ℕ}
use cache_hound.Device.{
  Resource, Heap, ChState, Status, Errno, StartConfig, device_open, ch_state_alloc_memory,
  start_agent, device_release, agent_end,
}
use cache_hound.Device.Ledger.{occurrences}
use cache_hound.Device.States.{owned}

-- An open file, with the threads that run `agent` for it.
pub record Session : Type 0 where
  pub heap : Heap
  pub state : Option ChState
  pub is_open : Bool
  pub agents : ℕ

pub data Step (nr_cpus : ℕ) (x : Session) : Session → Type 0 where
  alloc_memory :
      (s s' : ChState) (order : ℕ) (status : Status) (h' : Heap)
      → x.is_open ≡ true
      → x.state ≡ some s
      → ch_state_alloc_memory s order x.heap ≡ some (status, s', h')
      → Step nr_cpus x (record x { heap = h'; state = some s' })
  start :
      (s s' : ChState) (config : StartConfig)
      → x.is_open ≡ true
      → x.state ≡ some s
      → start_agent nr_cpus true config s ≡ some (none, s')
      → Step nr_cpus x (record x { state = some s'; agents = x.agents + 1 })
  refuse :
      (s s' : ChState) (config : StartConfig) (error : Errno)
      → x.is_open ≡ true
      → x.state ≡ some s
      → start_agent nr_cpus true config s ≡ some (some error, s')
      → Step nr_cpus x (record x { state = some s' })
  close :
      (s : ChState) (told : Option ℕ) (state : Option ChState) (h' : Heap)
      → x.is_open ≡ true
      → x.state ≡ some s
      → device_release s x.heap ≡ some (told, state, h')
      → Step nr_cpus x (record x { heap = h'; state = state; is_open = false })
  finish :
      (s : ChState) (n : ℕ) (state : Option ChState) (h' : Heap)
      → x.agents ≡ suc n
      → x.state ≡ some s
      → agent_end s x.heap ≡ some (state, h')
      → Step nr_cpus x (record x { heap = h'; state = state; agents = n })

pub data Reach (nr_cpus : ℕ) (h : Heap) : Session → Type 0 where
  opened :
      (s : ChState) (h' : Heap)
      → device_open h ≡ some (none, some s, h')
      → Reach nr_cpus h (record { heap = h'; state = some s; is_open = true; agents = 0 })
  later : {x y : Session} → Reach nr_cpus h x → Step nr_cpus x y → Reach nr_cpus h y

-- A live state is referred to by the file and its agents, and holds what the heap has more than
-- before; once it is freed nothing refers to it, and the heap has what it had.
unfoldable pub Alive : Heap → Heap → Bool → ℕ → Option ChState → Type 0
Alive h heap is_open agents none =
    (is_open ≡ false)
    × (agents ≡ 0)
    × ((q : Resource) → occurrences q heap.live ≡ occurrences q h.live)
Alive h heap is_open agents (some s) =
    (s.ref_counter ≡ bit_to_ℕ is_open + agents)
    × (0 < s.ref_counter)
    × (agents ≤ bit_to_ℕ s.started)
    × ((q : Resource) → occurrences q heap.live ≡ occurrences q (owned s) + occurrences q h.live)
