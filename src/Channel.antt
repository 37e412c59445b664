-- ===== src/Channel.antt =====
-- kernel/ch_channel.h: the channels that the client and the agent share. A waiting loop is the
-- test that it repeats; whoever waits says what happens in between.
use cache_hound.Common.{
  ℕ, ◌+◌, ◌*◌, ◌/◌, ◌%◌, ◌≤◌, ◌≡◌, ◌==◌, refl, ap, List, Option, none, some, word, replicate,
  if◌then◌else◌, Bool, true, false, arith,
}

-- `_CH_CHANNEL_IDLE` and `_CH_CHANNEL_ACCESS`.
pub data Control : Type 0 where
  idle : Control
  access : Control

abbrev pub value_of_control : Control → ℕ
value_of_control idle = 0
value_of_control access = 1

abbrev pub data_size : ℕ
data_size = 7

-- `ch_channel`; `data` is its field of that name.
pub record Channel : Type 0 where
  pub control : ℕ
  pub words : List ℕ

abbrev pub ch_channel_init : Channel → Channel
ch_channel_init ch = record { control = value_of_control idle; words = replicate data_size 0 }

-- The value, and what `count` becomes.
abbrev pub read_control : Channel → ℕ × ℕ
read_control ch = (ch.control % 2, ch.control / 2 % 8)

-- The lowest bit of `count << 1` is 0, so that `|` is the sum.
abbrev pub write_control : Channel → Control → ℕ → Channel
write_control ch c count = record ch { control = value_of_control c + count * 2 % word }

abbrev pub set_idle : Channel → Channel
set_idle ch = write_control ch idle 0

abbrev pub set_access : Channel → ℕ → Channel
set_access ch count = write_control ch access count

-- One test of `_ch_channel_spin`: the count, once the value is there.
abbrev pub spin : Channel → Control → Option ℕ
spin ch desired =
    let (value, count) = read_control ch in
    if value == value_of_control desired then some count else none

abbrev pub wait_for_access : Channel → Option ℕ
wait_for_access ch = spin ch access

abbrev pub idle_seen : Channel → Bool
idle_seen ch = elim (spin ch idle) [ none ↦ false | some count ↦ true ]

-- One turn of `_ch_channel_terminate`: the exchange succeeds on a channel that is idle.
abbrev pub terminate : Channel → Option Channel
terminate ch =
    if ch.control == value_of_control idle
    then some (record ch { control = value_of_control access })
    else none

-- A count of at most 7 that is written into the control word with ACCESS is the count that a wait
-- for access reads, and a wait for idle does not end on it; after the channel is set idle the wait
-- for idle ends and the wait for access does not.
pub wait_for_access-set_access :
    (ch : Channel) (count : ℕ)
    → count ≤ data_size
    → (wait_for_access (set_access ch count) ≡ some count)
      × (idle_seen (set_access ch count) ≡ false)
      × (wait_for_access (set_idle ch) ≡ none)
      × (idle_seen (set_idle ch) ≡ true)
wait_for_access-set_access ch count small =
    let odd : (1 + count * 2 % word) % 2 ≡ 1 = omega (arith, small) in
    let kept : (1 + count * 2 % word) / 2 % 8 ≡ count = omega (arith, small) in
    (rw odd (ap some kept), rw (idle_seen, odd) refl, refl, refl)
