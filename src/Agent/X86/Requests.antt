-- ===== src/Agent/X86/Requests.antt =====
-- The requests of a client by what they ask for, and what the x86-64 loop is to do for them.
use cache_hound.Common.{
  ℕ, suc, ◌+◌, ◌*◌, ◌/◌, ◌%◌, ◌^◌, ◌<◌, ◌≡◌, List, [], ◌∷◌, ◌++◌, some, length, get_elem?, take,
  drop, map, All,
}
use cache_hound.Channel.{Channel, data_size}
use cache_hound.Agent.{Answer, exit, done, switched}
use cache_hound.Agent.X86.{Processor}

-- A command and its address.
pub data Command : Type 0 where
  read_at : ℕ → Command
  flush_at : ℕ → Command

-- An address of the kernel: its 16 upper bits are set.
abbrev pub IsKernel : Command → Type 0
IsKernel (read_at a) = a / 2 ^ 48 ≡ 0xFFFF
IsKernel (flush_at a) = a / 2 ^ 48 ≡ 0xFFFF

-- The word of a command: a flush has the upper bit cleared.
abbrev pub word_of : Command → ℕ
word_of (read_at a) = a
word_of (flush_at a) = a % 2 ^ 63

-- The last command of a batch is the one that is timed.
pub data Request : Type 0 where
  stop : Request
  flush_all : Request
  switch_to : ℕ → Request
  batch : List Command → Command → Request

-- What the client leaves in the channel for a request.
abbrev pub Carries : Request → Channel → Type 0
Carries stop ch = ch.control ≡ 1
Carries flush_all ch = ch.control ≡ 33
Carries (switch_to k) ch = (ch.control ≡ 17) × (get_elem? ch.words 0 ≡ some k)
Carries (batch commands last) ch =
    (ch.control ≡ 1 + suc (length commands) * 2)
    × (length commands < data_size)
    × (length ch.words ≡ data_size)
    × (take (length commands) ch.words ≡ map word_of commands)
    × (get_elem? ch.words (length commands) ≡ some (word_of last))
    × All IsKernel commands
    × IsKernel last

module _ {M : Type 0} (p : Processor M) where
  abbrev pub run : Command → M → M
  run (read_at a) m = p.load a m
  run (flush_at a) m = p.clflush a m

  abbrev pub run_all : List Command → M → M
  run_all [] m = m
  run_all (c ∷ cs) m = run_all cs (run c m)

  -- The values of the three counters: `%edx` is the upper half.
  abbrev pub counter_value : ℕ → M → ℕ
  counter_value i m = (p.rdpmc i m).0 * 2 ^ 32 + (p.rdpmc i m).1

  abbrev pub counter_values : M → List ℕ
  counter_values m = counter_value 0 m ∷ counter_value 1 m ∷ counter_value 2 m ∷ []

  -- `RDPMC` gives two halves of 32 bits.
  abbrev pub Halves : Type 0
  Halves = (i : ℕ) (m : M) → ((p.rdpmc i m).0 < 2 ^ 32) × ((p.rdpmc i m).1 < 2 ^ 32)

  abbrev pub served : Request → Channel → M → Answer M
  served stop ch m = exit
  served flush_all ch m = done (record ch { control = 0 }) (p.wbinvd m)
  served (switch_to k) ch m = switched (record ch { control = 0 }) k
  served (batch commands last) ch m =
      let before = run_all commands m in
      let after = run last before in
      done
        (record {
          control = 0;
          words = counter_values before ++ (counter_values after ++ drop 6 ch.words);
        })
        after
