-- ===== src/Engine/Queued.antt =====
-- core/engine/src/control.rs: `QueuedLog`, the ring of the steps queued last, and where a realign
-- cuts them (`Cut`). `entries[i]` with `i` reduced by the size of the ring is in bounds.
pub mod Contents
pub mod Cutting
use player.Common.{
  ℕ, zero, suc, ◌+◌, ◌-◌, ◌*◌, ◌%◌, min, max, Option, none, some, Bool, true, false, List, [], ◌∷◌,
  ltb, leb, if◌then◌else◌, get_or, set, replicate,
}

abbrev pub queued_memory : ℕ
queued_memory = 32

pub record Queued : Type 0 where
  pub step : ℕ
  pub first : ℕ
  pub sample : ℕ

abbrev pub no_step : Queued
no_step = record { step = 0; first = 0; sample = 0 }

pub record QueuedLog : Type 0 where
  pub entries : List Queued
  pub head : ℕ
  pub len : ℕ

pub record Cut : Type 0 where
  pub flush : ℕ
  pub heard : Option Queued
  pub dropped : Option ℕ

unfoldable pub new : QueuedLog
new = record { entries = replicate queued_memory no_step; head = 0; len = 0 }

unfoldable pub push : QueuedLog → Queued → QueuedLog
push self queued = record {
  entries = set self.entries self.head queued;
  head = (self.head + 1) % queued_memory;
  len = min (self.len + 1) queued_memory;
}

unfoldable pub newest : QueuedLog → ℕ → Queued
newest self i =
    get_or self.entries ((self.head + 2 * queued_memory - 1 - i) % queued_memory) no_step

-- The newest entry taken off.
abbrev pub forget : QueuedLog → QueuedLog
forget self = record {
  entries = self.entries;
  head = (self.head + queued_memory - 1) % queued_memory;
  len = self.len - 1;
}

-- The loop of `flush_from` ends after `len` rounds, since each one takes an entry off.
unfoldable pub flush_loop : ℕ → QueuedLog → ℕ → QueuedLog
unfolding newest
flush_loop zero self sample = self
flush_loop (suc fuel) self sample = elim (ltb 0 self.len) [
  | false ↦ self
  | true ↦ elim (leb sample (newest self 0).sample) [
    | false ↦ self
    | true ↦ flush_loop fuel (forget self) sample
  ]
]

unfoldable pub flush_from : QueuedLog → ℕ → QueuedLog
unfolding flush_loop
flush_from self sample = flush_loop self.len self sample

-- The loop of `cut` over the `n` newest entries, the oldest of them first.
unfoldable pub cut_loop : QueuedLog → ℕ → Cut → Cut
unfolding newest
cut_loop self zero cut = cut
cut_loop self (suc i) cut = elim (ltb (newest self i).first cut.flush) [
  | true ↦ cut_loop self i (record {
    flush = max cut.flush ((newest self i).sample + 1);
    heard = some (newest self i);
    dropped = cut.dropped;
  })
  | false ↦ record cut { dropped = some (newest self i).step }
]

unfoldable pub cut : QueuedLog → ℕ → Cut
unfolding cut_loop
cut self commit = cut_loop self self.len (record { flush = commit; heard = none; dropped = none })
