-- ===== src/Device.antt =====
-- kernel/cachehound.c without the loop of the agent: the state of an open file and its life. What
-- the kernel hands out is a list of live resources; when an allocation fails is a parameter.
-- `copy_from_user` and `copy_to_user` return the number of bytes left, which is never negative, so
-- that the tests `err < 0` never hold; the configuration is what the copy left.
pub mod Ledger
pub mod States
pub mod Starting
pub mod Lifecycle
pub mod Leaks
mod Tests
use cache_hound.Common.{
  ℕ, zero, suc, ◌+◌, ◌-◌, ◌==◌, ltb, Bool, true, false, not, ◌&&◌, List, [], ◌∷◌, ◌++◌, Option,
  none, some, check, if◌then◌else◌, write, replicate, ◌>>=◌, ◌>>◌,
}

pub data Resource : Type 0 where
  pages : ℕ → ℕ → Resource
  mapping : ℕ → Resource
  object : ℕ → Resource

unfoldable pub same : Resource → Resource → Bool
same (pages p o) (pages p' o') = (p == p') && (o == o')
same (mapping v) (mapping v') = v == v'
same (object x) (object x') = x == x'
same _ _ = false

-- Handles are numbered; `fails` says which allocations fail.
pub record Heap : Type 0 where
  pub live : List Resource
  pub next : ℕ
  pub fails : ℕ → Bool

unfoldable pub allocate : (ℕ → Resource) → Heap → Option ℕ × Heap
allocate r h =
    if h.fails h.next
    then (none, record h { next = h.next + 1 })
    else (some h.next, record h { live = r h.next ∷ h.live; next = h.next + 1 })

unfoldable pub remove : Resource → List Resource → Option (List Resource)
remove r [] = none
remove r (q ∷ qs) =
    let rest = remove r qs in if same r q then some qs else (rest >>= λ qs'. some (q ∷ qs'))

-- Freeing what is not live is a fault.
unfoldable pub release : Resource → Heap → Option Heap
release r h = remove r h.live >>= λ live. some (record h { live = live })

-- `ch_memory_region`; `self` is the object that holds it.
pub record Region : Type 0 where
  pub base : ℕ
  pub page : ℕ
  pub order : ℕ
  pub self : ℕ

-- The list from `regions_head` to `regions_tail` is `regions`.
pub record ChState : Type 0 where
  pub ref_counter : ℕ
  pub channels_page : ℕ
  pub channels : ℕ
  pub active_channel : ℕ
  pub started : Bool
  pub isolation_level : ℕ
  pub evts : List ℕ
  pub regions : List Region
  pub self : ℕ

-- `alloc_ch_state` in its three parts, each on what an allocation gave.
unfoldable pub with_state : ℕ → ℕ → Option ℕ × Heap → Option (Option ChState × Heap)
with_state channels_page channels (none, h) = release (mapping channels) h >>= λ h'.
    release (pages channels_page 0) h' >>= λ h''. some (none, h'')
with_state channels_page channels (some self, h) = some (
  some (record {
    ref_counter = 1;
    channels_page = channels_page;
    channels = channels;
    active_channel = 0;
    started = false;
    isolation_level = 0;
    evts = replicate 3 0;
    regions = [];
    self = self;
  }),
  h,
)

unfoldable pub with_channels : ℕ → Option ℕ × Heap → Option (Option ChState × Heap)
with_channels channels_page (none, h) = release (pages channels_page 0) h >>= λ h'. some (none, h')
with_channels channels_page (some channels, h) =
    with_state channels_page channels (allocate object h)

unfoldable pub with_page : Option ℕ × Heap → Option (Option ChState × Heap)
with_page (none, h) = some (none, h)
with_page (some channels_page, h) = with_channels channels_page (allocate mapping h)

unfoldable pub alloc_ch_state : Heap → Option (Option ChState × Heap)
alloc_ch_state h = with_page (allocate (λ p. pages p 0) h)

unfoldable pub free_regions : List Region → Heap → Option Heap
free_regions [] h = some h
free_regions (r ∷ rs) h = do
  h1 ← release (object r.self) h
  h2 ← release (mapping r.base) h1
  h3 ← release (pages r.page r.order) h2
  free_regions rs h3

unfoldable pub ch_state_free : ChState → Heap → Option Heap
ch_state_free s h = do
  h1 ← free_regions s.regions h
  h2 ← release (object s.self) h1
  h3 ← release (mapping s.channels) h2
  release (pages s.channels_page 0) h3

abbrev pub ch_state_get : ChState → ChState
ch_state_get s = record s { ref_counter = s.ref_counter + 1 }

-- The state, unless this was its last reference.
unfoldable pub ch_state_put : ChState → Heap → Option (Option ChState × Heap)
ch_state_put s h = do
  check (ltb 0 s.ref_counter)
  elim (s.ref_counter - 1 == 0) [
    | true ↦ ch_state_free s h >>= λ h'. some (none, h')
    | false ↦ some (some (record s { ref_counter = s.ref_counter - 1 }), h)
  ]

abbrev pub ch_state_try_start : ChState → Bool × ChState
ch_state_try_start s = (not s.started, record s { started = true })

pub data Errno : Type 0 where
  enomem : Errno
  eio : Errno
  einval : Errno
  ebusy : Errno

-- An error, or nothing.
abbrev pub Status : Type 0
Status = Option Errno

-- `ch_state_alloc_memory` in its three parts, each on what an allocation gave.
unfoldable pub with_region :
    ChState → ℕ → ℕ → ℕ → Option ℕ × Heap → Option (Status × ChState × Heap)
with_region s order page base (none, h) = release (mapping base) h >>= λ h'.
    release (pages page order) h' >>= λ h''. some (some enomem, s, h'')
with_region s order page base (some self, h) =
    let region : Region = record { base = base; page = page; order = order; self = self } in
    some (none, record s { regions = s.regions ++ (region ∷ []) }, h)

unfoldable pub with_base : ChState → ℕ → ℕ → Option ℕ × Heap → Option (Status × ChState × Heap)
with_base s order page (none, h) = release (pages page order) h >>= λ h'. some (some eio, s, h')
with_base s order page (some base, h) = with_region s order page base (allocate object h)

unfoldable pub with_pages : ChState → ℕ → Option ℕ × Heap → Option (Status × ChState × Heap)
with_pages s order (none, h) = some (some enomem, s, h)
with_pages s order (some page, h) = with_base s order page (allocate mapping h)

unfoldable pub ch_state_alloc_memory : ChState → ℕ → Heap → Option (Status × ChState × Heap)
ch_state_alloc_memory s order h = with_pages s order (allocate (λ p. pages p order) h)

unfoldable pub device_open : Heap → Option (Status × Option ChState × Heap)
device_open h = do
  (state, h') ← alloc_ch_state h
  elim state [ none ↦ some (some enomem, none, h') | some s ↦ some (none, some s, h') ]

-- The channel that is told to terminate, if an agent was started, comes first.
unfoldable pub device_release : ChState → Heap → Option (Option ℕ × Option ChState × Heap)
device_release s h = do
  let told = if s.started then some s.active_channel else none
  (state, h') ← ch_state_put s h
  some (told, state, h')

-- The end of `agent`.
abbrev pub agent_end : ChState → Heap → Option (Option ChState × Heap)
agent_end s h = ch_state_put s h

-- `ch_ioc_start_config`, as it comes in.
pub record StartConfig : Type 0 where
  pub cpu : ℕ
  pub evts : List ℕ
  pub isolation_level : ℕ

-- The end of `CH_IOC_START_AGENT`, on what `ch_state_try_start` gave; `created` says whether
-- `kthread_create` made a thread: `kthread_bind` does not survive the pointer that it returns
-- otherwise.
unfoldable pub launch : Bool → StartConfig → Bool × ChState → Option (Status × ChState)
launch created config (false, s) = some (some ebusy, s)
launch created config (true, s) = do
  check created
  let s' = record s { isolation_level = config.isolation_level; evts = config.evts }
  some (none, ch_state_get s')

unfoldable pub start_agent : ℕ → Bool → StartConfig → ChState → Option (Status × ChState)
start_agent nr_cpus created config s = elim s.regions [
  | [] ↦ some (some einval, s)
  | _ ∷ _ ↦
      if ltb config.cpu nr_cpus && ltb config.isolation_level 3
      then launch created config (ch_state_try_start s)
      else some (some einval, s)
]

-- The loop of `CH_IOC_CACHE_INFO` over `n` levels from `level` on, with arrays of 3 elements.
unfoldable pub cache_info : (ℕ → ℕ) → (ℕ → ℕ) → ℕ → ℕ → List ℕ × List ℕ → Option (List ℕ × List ℕ)
cache_info sets ways zero level info = some info
cache_info sets ways (suc n) level info = do
  let (of_sets, of_ways) = info
  of_sets' ← write of_sets level (sets level)
  of_ways' ← write of_ways level (ways level)
  cache_info sets ways n (level + 1) (of_sets', of_ways')
