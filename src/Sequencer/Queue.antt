-- ===== src/Sequencer/Queue.antt =====
-- core/sequencer/src/queue.rs: the single-producer single-consumer ring, with both halves' calls
-- run one at a time. `w` is the width of `usize` in bits: 64 on the desktop, 32 in WebAssembly.
-- A slot is `none` until it is written (`MaybeUninit`). A call returns `none` where the code would
-- index out of bounds or read a slot that was never written.
pub mod Window
pub mod Refinement
pub mod Create
pub mod History
use player.Common.{
  ℕ, zero, suc, ◌+◌, ◌-◌, ◌*◌, ◌%◌, ◌^◌, max, bit_and, Bool, true, false, Option, none, some, List,
  ltb, leb, ◌==◌, if◌then◌else◌, length, get_elem?, set, replicate,
}

pub record Shared {ℓ} (A : Type ℓ) : Type ℓ where
  pub slots : List (Option A)
  pub mask : ℕ
  pub head : ℕ
  pub tail : ℕ

-- `Result<(), Event>`: a full ring hands the event back.
pub data Pushed {ℓ} (A : Type ℓ) : Type ℓ where
  ok : Pushed A
  err : A → Pushed A

-- `usize::next_power_of_two`: doubles from `p` until it reaches `n`, in at most `fuel` steps.
unfoldable pub next_power_of_two : ℕ → ℕ → ℕ → ℕ
next_power_of_two zero p n = p
next_power_of_two (suc fuel) p n = elim (leb n p) [
  | true ↦ p
  | false ↦ next_power_of_two fuel (p * 2) n
]

module _ (w : ℕ) where
  unfoldable pub wrapping_sub : ℕ → ℕ → ℕ
  wrapping_sub a b = (a + 2 ^ w - b) % 2 ^ w

  unfoldable pub wrapping_add : ℕ → ℕ → ℕ
  wrapping_add a b = (a + b) % 2 ^ w

  module _ {ℓ} {A : Type ℓ} where
    unfoldable pub push : Shared A → A → Option (Pushed A × Shared A)
    push s event =
        if ltb s.mask (wrapping_sub s.tail s.head)
        then some (err event, s)
        else if ltb (bit_and s.tail s.mask) (length s.slots)
        then some (
          ok,
          record s {
            slots = set s.slots (bit_and s.tail s.mask) (some event);
            tail = wrapping_add s.tail 1;
          },
        )
        else none

    unfoldable pub vacant : Shared A → ℕ
    vacant s = s.mask + 1 - wrapping_sub s.tail s.head

    unfoldable pub pop : Shared A → Option (Option A × Shared A)
    pop s =
        if s.head == s.tail
        then some (none, s)
        else elim (get_elem? s.slots (bit_and s.head s.mask)) [
          | some (some event) ↦ some (some event, record s { head = wrapping_add s.head 1 })
          | _ ↦ none
        ]

    unfoldable pub len : Shared A → ℕ
    len s = wrapping_sub s.tail s.head

    unfoldable pub is_empty : Shared A → Bool
    unfolding len
    is_empty s = len s == 0

module _ {ℓ} {A : Type ℓ} where
  unfoldable pub capacity : Shared A → ℕ
  capacity s = s.mask + 1

  -- The doubling needs at most one step for each bit of `usize`.
  unfoldable pub event_queue : ℕ → ℕ → Shared A
  event_queue w requested =
      let size = next_power_of_two w 1 (max requested 2) in
      record { slots = replicate size none; mask = size - 1; head = 0; tail = 0 }
