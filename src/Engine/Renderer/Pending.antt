-- ===== src/Engine/Renderer/Pending.antt =====
-- The invariant of the pending events: in order, and within the capacity. Each block keeps it, and
-- applies exactly the events that are due.
use player.Common.{
  ℕ, zero, suc, ◌+◌, ◌≤◌, ◌<◌, ◌≡◌, refl, ap, ◌∙◌, List, [], ◌∷◌, ltb, leb, ltb→lt, if◌then◌else◌,
  length, arith, All, Bool-cases, inl, inr,
}
use player.Sequencer.Event.{Event, EventKind, trigger, param, flush}
use player.Engine.Renderer.{
  pending_capacity, insert, pull, pull_events, Dsp, Renderer, apply, apply_due_events,
  render_sample, render, process_at,
}
use player.Engine.Renderer.Sorted.{
  IsSorted, insert-place, length-place, place-IsSorted, flush_from-IsSorted, length-flush_from,
}

module _ {V : Type 0} where
  -- The invariant of the pending events.
  abbrev pub IsHeld : List (Event V) → Type 0
  IsHeld pending = IsSorted pending × (length pending ≤ pending_capacity)

  insert-IsHeld :
      (pending : List (Event V)) (event : Event V)
      → IsSorted pending
      → length pending < pending_capacity
      → IsHeld (insert pending event)
  insert-IsHeld pending event h room =
      rw (insert-place pending event h)
        (place-IsSorted pending event h, omega (arith, length-place pending event))

  pull-IsHeld :
      (kind : EventKind V) (event : Event V) (pending : List (Event V))
      → IsSorted pending
      → length pending < pending_capacity
      → IsHeld (pull kind event pending)
  unfolding pull
  pull-IsHeld flush event pending h room = (
    flush_from-IsSorted event.sample pending h,
    omega (arith, length-flush_from event.sample pending),
  )
  pull-IsHeld (trigger v velocity) event pending h room = insert-IsHeld pending event h room
  pull-IsHeld (param target value) event pending h room = insert-IsHeld pending event h room

  pub pull_events-IsHeld :
      (queued pending : List (Event V)) → IsHeld pending → IsHeld (pull_events queued pending).1
  unfolding pull_events
  pull_events-IsHeld [] pending h = h
  pull_events-IsHeld (event ∷ queued) pending h =
      elim (Bool-cases (ltb (length pending) pending_capacity)) [
        | inl room ↦
            rw (pull_events, room)
              (pull_events-IsHeld queued (pull event.kind event pending) (
                pull-IsHeld event.kind event pending h.0
                  (ltb→lt (length pending) pending_capacity room)))
        | inr no_room ↦ rw (pull_events, no_room) h
      ]

  -- The events at or before `now`, and those after it.
  unfoldable pub due : ℕ → List (Event V) → List (Event V)
  due now [] = []
  due now (e ∷ es) = if leb e.sample now then e ∷ due now es else due now es

  unfoldable pub later : ℕ → List (Event V) → List (Event V)
  later now [] = []
  later now (e ∷ es) = if leb e.sample now then later now es else e ∷ later now es

  none_due :
      (now : ℕ) (es : List (Event V))
      → All (λ x. now < x.sample) es
      → (due now es ≡ []) × (later now es ≡ es)
  unfolding due later
  none_due now [] h = (refl, refl)
  none_due now (e ∷ es) (lt, h) = ground (arith, none_due now es h)

  All-past :
      (m n : ℕ) (es : List (Event V))
      → m < n
      → All (λ x. n ≤ x.sample) es
      → All (λ x. m < x.sample) es
  All-past m n [] h a = tt
  All-past m n (e ∷ es) h (first, a) = (omega arith, All-past m n es h a)

  All-later :
      (P : Event V → Type 0) (now : ℕ) (es : List (Event V)) → All P es → All P (later now es)
  unfolding later
  All-later P now [] h = tt
  All-later P now (e ∷ es) (first, h) = ground (arith, All-later P now es h)

  later-IsSorted : (now : ℕ) (es : List (Event V)) → IsSorted es → IsSorted (later now es)
  unfolding later
  later-IsSorted now [] h = tt
  later-IsSorted now (e ∷ es) (first, h) =
      ground (arith, later-IsSorted now es h, All-later (λ x. e.sample ≤ x.sample) now es first)

  length-later : (now : ℕ) (es : List (Event V)) → length (later now es) ≤ length es
  unfolding later
  length-later now [] = omega arith
  length-later now (e ∷ es) = ground (arith, length-later now es)

  later-later : (m n : ℕ) (es : List (Event V)) → n ≤ m → later m (later n es) ≡ later m es
  unfolding later
  later-later m n [] h = refl
  later-later m n (e ∷ es) h = ground (arith, later-later m n es h)

module _ {V A : Type 0} (dsp : Dsp V A) where
  unfoldable pub apply_all : List (Event V) → dsp.State → dsp.State
  apply_all [] state = state
  apply_all (e ∷ es) state = apply_all es (apply dsp e.kind state)

  -- At a sample, the events that are due are applied in order, and the later ones are left.
  pub apply_due_events-due :
      (now : ℕ) (pending : List (Event V)) (state : dsp.State)
      → IsSorted pending
      → apply_due_events dsp now pending state
        ≡ (later now pending, apply_all (due now pending) state)
  unfolding apply_due_events due later apply_all
  apply_due_events-due now [] state h = refl
  apply_due_events-due now (e ∷ pending) state (first, h) = elim (Bool-cases (leb e.sample now)) [
    | inl le ↦
        rw (apply_due_events, le) (apply_due_events-due now pending (apply dsp e.kind state) h)
    | inr gt ↦
        let (nothing_due, all_later) =
          none_due now pending (All-past now e.sample pending (ground arith) first) in
        rw (apply_due_events, gt, nothing_due, all_later) refl
  ]

  -- After a block, the pending events are those past its last sample.
  pub render-later :
      (count now : ℕ) (pending : List (Event V)) (state : dsp.State)
      → IsSorted pending
      → (render dsp (suc count) now pending state).1 ≡ later (now + count) pending
  unfolding render render_sample
  render-later zero now pending state h =
      ap (λ t. t.0) (apply_due_events-due now pending state h)
      ∙ ap (λ t. later t pending) (omega arith)
  render-later (suc count) now pending state h =
      let left = (apply_due_events dsp now pending state).0 in
      let same : left ≡ later now pending =
        ap (λ t. t.0) (apply_due_events-due now pending state h) in
      render-later count (now + 1) left _ (rw same (later-IsSorted now pending h))
      ∙ ap (later (now + 1 + count)) same
      ∙ later-later (now + 1 + count) now pending (omega arith)
      ∙ ap (λ t. later t pending) (omega arith)

  render-IsHeld :
      (count now : ℕ) (pending : List (Event V)) (state : dsp.State)
      → IsHeld pending
      → IsHeld (render dsp count now pending state).1
  unfolding render
  render-IsHeld zero now pending state h = h
  render-IsHeld (suc count) now pending state (sorted, short) =
      rw (render-later count now pending state sorted) (
        later-IsSorted (now + count) pending sorted,
        omega (arith, length-later (now + count) pending),
      )

  -- The invariant of the renderer.
  abbrev pub Inv : Renderer dsp → Type 0
  Inv self = IsHeld self.pending

  -- Whatever events have come, a block keeps the pending ones in order and within the capacity.
  pub process_at-Inv :
      (count host_ticks : ℕ) (self : Renderer dsp)
      → Inv self
      → Inv (process_at dsp count host_ticks self).1
  unfolding process_at
  process_at-Inv count host_ticks self h =
      render-IsHeld count self.position (pull_events self.queued self.pending).1 self.voices
        (pull_events-IsHeld self.queued self.pending h)
