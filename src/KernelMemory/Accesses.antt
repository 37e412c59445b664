-- ===== src/KernelMemory/Accesses.antt =====
-- The operations that go through the buffer: what the system stands for after them.
use cache_hound.Common.{
  ℕ, suc, ◌+◌, ◌/◌, ◌%◌, ◌^◌, ◌<◌, ◌≡◌, refl, ap, ◌∙◌, ◌==◌, true, Bool-cases, inl, inr, some,
  length, set, take, arith, get_elem?-set_self, write_lem, length-set, take-set,
}
use cache_hound.Agent.{AgentCode}
use cache_hound.Channel.{data_size}
use cache_hound.Agent.Contract.{AgentContract, executes, executes-take-suc}
use cache_hound.KernelMemory.{
  System, push, internal_access, access, clflush, Stats, count_stat, check_address, incremented,
}
use cache_hound.KernelMemory.Represents.{Represents, count_stat-Represents}
use cache_hound.KernelMemory.Buffering.{flush_lem}

module _ {M : Type 0} where
  abbrev pub pushed : ℕ → System M → System M
  pushed x s = record s {
    memory = record (s.memory) {
      buffer = set s.memory.buffer s.memory.buffered x;
      buffered = s.memory.buffered + 1;
    };
  }

  -- The assertions of an access: an address of the kernel, in one of the regions.
  pub record Accessible (s : System M) (address : ℕ) : Type 0 where
    pub upper : address / 2 ^ 62 ≡ 3
    pub known : s.memory.address_checker address ≡ true

  pub check_address_lem :
      (s : System M) (x : ℕ) → Accessible s x → check_address s.memory x ≡ some tt
  check_address_lem s x ok = rw (ok.upper, ok.known) refl

module _ {M : Type 0} {code : AgentCode M} (c : AgentContract code) where
  pub push_lem :
      (x : ℕ) (s : System M) (m : M) (R : Represents c s m)
      → s.memory.buffered < data_size
      → (push x s ≡ some (pushed x s))
        × (P : Represents c (pushed x s) (c.execute x m)) × (P.rested ≡ R.rested)
  unfolding push
  push_lem x s m R free =
      let k = s.memory in
      let inside : k.buffered < length k.buffer = omega (arith, free, R.buffer_size) in
      let next : k.buffered + 1 ≡ suc k.buffered = omega arith in
      (
        rw (write_lem k.buffer k.buffered x inside) refl,
        record {
          buffer_size = length-set k.buffer k.buffered x ∙ R.buffer_size;
          room = omega (arith, free);
          size = R.size;
          count = R.count;
          inside = R.inside;
          sized = R.sized;
          rested = R.rested;
          run = R.run;
          at = R.at;
          quiet = R.quiet;
          meaning =
              ap (λ n. executes c.execute (take n (set k.buffer k.buffered x)) R.rested.processor)
                next
              ∙ executes-take-suc c.execute (set k.buffer k.buffered x) k.buffered x _
                  (get_elem?-set_self k.buffer k.buffered x inside)
              ∙ ap (λ xs. c.execute x (executes c.execute xs R.rested.processor))
                  (take-set k.buffered k.buffer x)
              ∙ ap (c.execute x) R.meaning;
        },
        refl,
      )

  -- A system with room for another word, and what does not change.
  pub record Ready (s : System M) (s' : System M) (m : M) : Type 0 where
    pub now : Represents c s' m
    pub free : s'.memory.buffered < data_size
    pub active : s'.memory.active_channel ≡ s.memory.active_channel
    pub checker : s'.memory.address_checker ≡ s.memory.address_checker

  pub internal_access_lem :
      (x : ℕ) (s : System M) (m : M) (R : Represents c s m)
      → s.memory.buffered < data_size
      → (s' : System M) × (internal_access code x s ≡ some s') × Ready s s' (c.execute x m)
  unfolding internal_access
  internal_access_lem x s m R free =
      let (pushes, P, _) = push_lem x s m R free in
      let full = s.memory.buffered + 1 == length (set s.memory.buffer s.memory.buffered x) in
      elim (Bool-cases full) [
        | inl e ↦
            let (s', flushes, F) = flush_lem c (pushed x s) (c.execute x m) P in
            (
              s',
              rw (pushes, e) flushes,
              record {
                now = F.now;
                free = omega (arith, F.empty);
                active = F.active;
                checker = F.checker;
              },
            )
        | inr e ↦ (
          pushed x s,
          rw (pushes, e) refl,
          record {
            now = P;
            free = ground (arith, e, P.buffer_size, free);
            active = refl;
            checker = refl;
          },
        )
      ]

  pub counted :
      {s s' : System M} {m : M} (f : Stats → Stats) → Ready s s' m → Ready s (count_stat f s') m
  counted f y = record {
    now = count_stat-Represents c f y.now;
    free = y.free;
    active = y.active;
    checker = y.checker;
  }

  -- An access is the same access of the processor, after all that was asked before.
  pub access_lem :
      (x : ℕ) (s : System M) (m : M)
      → Represents c s m
      → s.memory.buffered < data_size
      → Accessible s x
      → (s' : System M) × (access code x s ≡ some s') × Ready s s' (c.execute x m)
  unfolding access
  access_lem x s m R free ok =
      let (s', runs, y) = internal_access_lem x s m R free in
      let f : Stats → Stats = λ t. record t { accesses = incremented t.accesses } in
      (count_stat f s', rw (check_address_lem s x ok, runs) refl, counted f y)

  -- A flush of a line is the word without its upper bit.
  pub clflush_lem :
      (x : ℕ) (s : System M) (m : M)
      → Represents c s m
      → s.memory.buffered < data_size
      → (s' : System M) × (clflush code x s ≡ some s') × Ready s s' (c.execute (x % 2 ^ 63) m)
  unfolding clflush
  clflush_lem x s m R free =
      let (s', runs, y) = internal_access_lem (x % 2 ^ 63) s m R free in
      let f : Stats → Stats = λ t. record t { clflushes = incremented t.clflushes } in
      (count_stat f s', rw runs refl, counted f y)
