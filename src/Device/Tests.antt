-- ===== src/Device/Tests.antt =====
-- An open file on a heap where every allocation succeeds, and where the third one fails.
use cache_hound.Common.{
  ℕ, ◌≡◌, ◌==◌, refl, true, false, [], ◌∷◌, Option, none, some, arith, replicate,
}
use cache_hound.Device.{
  Resource, object, pages, mapping, Heap, allocate, remove, release, same, ChState, Status,
  device_open, alloc_ch_state, with_page, with_channels, with_state, ch_state_alloc_memory,
  with_pages, with_base, with_region, start_agent, launch, device_release, agent_end, ch_state_put,
  ch_state_free, free_regions,
}
use cache_hound.Device.Ledger.{occurrences}
use cache_hound.Device.States.{Extended, ch_state_alloc_memory_lem}
use cache_hound.Device.Lifecycle.{Session, Step, Reach, Alive, opened, later, close, finish}
use cache_hound.Device.Leaks.{Reach-Alive, Reach-closed, Reach-put}

abbrev empty : Heap
empty = record { live = []; next = 0; fails = λ n. false }

abbrev full : Heap
full = record { live = []; next = 0; fails = λ n. n == 5 }

abbrev fresh : ChState
fresh = record {
  ref_counter = 1;
  channels_page = 0;
  channels = 1;
  active_channel = 0;
  started = false;
  isolation_level = 0;
  evts = replicate 3 0;
  regions = [];
  self = 2;
}

abbrev heap_opened : Heap
heap_opened = record empty { live = object 2 ∷ mapping 1 ∷ pages 0 0 ∷ []; next = 3 }

opens : device_open empty ≡ some (none, some fresh, heap_opened)
unfolding device_open alloc_ch_state with_page with_channels with_state allocate
opens = refl

extends :
    (s : ChState) × (h : Heap) × (ch_state_alloc_memory fresh 6 heap_opened ≡ some (none, s, h))
unfolding ch_state_alloc_memory with_pages with_base with_region allocate
extends = (_, _, refl)

starts :
    (s : ChState) × (start_agent 4 true
        (record { cpu = 1; evts = 0 ∷ 0 ∷ 0 ∷ []; isolation_level = 2 })
        extends.0
      ≡ some (none, s))
unfolding start_agent launch extends
starts = (_, refl)

closes :
    (told : Option ℕ) × (state : Option ChState) × (device_release starts.0 extends.1
      ≡ some (told, state, extends.1))
unfolding device_release ch_state_put starts extends
closes = (_, _, refl)

abbrev session : Session
session = record { heap = extends.1; state = closes.1; is_open = false; agents = 1 }

lives : Reach 4 empty session
lives =
    later
      (later
        (later (opened fresh heap_opened opens)
          (Step.alloc_memory fresh extends.0 6 none extends.1 refl refl extends.2))
        (Step.start extends.0 starts.0 _ refl refl starts.1))
      (close starts.0 closes.0 closes.1 extends.1 refl refl closes.2)

Reach-Alive_example : Alive empty session.heap session.is_open session.agents session.state
Reach-Alive_example = Reach-Alive 4 empty lives

Reach-put_example :
    (s : ChState) × (session.state ≡ some s)
    × (state : Option ChState) × (h' : Heap) × (ch_state_put s session.heap ≡ some (state, h'))
Reach-put_example = Reach-put 4 empty lives (omega arith)

ends :
    (s : ChState) × (h : Heap) × (session.state ≡ some s)
    × (agent_end s session.heap ≡ some (none, h))
unfolding ch_state_put ch_state_free free_regions release remove same closes device_release starts
    extends
ends = (_, _, refl, refl)

abbrev last_session : Session
last_session = record { heap = ends.1; state = none; is_open = false; agents = 0 }

ended : Reach 4 empty last_session
ended = later lives (finish ends.0 0 none ends.1 refl ends.2 ends.3)

Reach-closed_example :
    (last_session.state ≡ none)
    × ((q : Resource) → occurrences q last_session.heap.live ≡ occurrences q empty.live)
Reach-closed_example = Reach-closed 4 empty ended refl refl

ch_state_alloc_memory_lem_example :
    (status : Status) × (s' : ChState) × (h' : Heap) × (ch_state_alloc_memory fresh 6
        (record full { next = 3 })
      ≡ some (status, s', h'))
    × Extended fresh 6 (record full { next = 3 }) status s' h'
ch_state_alloc_memory_lem_example = ch_state_alloc_memory_lem fresh 6 (record full { next = 3 })
