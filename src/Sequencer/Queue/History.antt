-- ===== src/Sequencer/Queue/History.antt =====
-- Any history of calls on the ring, against a bounded first-in first-out list.
use player.Common.{
  ℕ, ◌-◌, ◌^◌, ◌≤◌, ◌<◌, ◌≡◌, refl, sym, ap, ◌∙◌, max, ltb, Bool-cases, inl, inr, true, false,
  Option, none, some, List, [], ◌∷◌, ◌++◌, arith, length,
}
use player.Sequencer.Queue.{Shared, Pushed, ok, err, push, pop, event_queue, capacity}
use player.Sequencer.Queue.Refinement.{
  Refines, push_full, push_room, pop_empty, pop_oldest, capacity_lem,
}
use player.Sequencer.Queue.Create.{event_queue-Refines}

pub data Call {ℓ} (A : Type ℓ) : Type ℓ where
  pushes : A → Call A
  pops : Call A

pub data Reply {ℓ} (A : Type ℓ) : Type ℓ where
  pushed : Pushed A → Reply A
  popped : Option A → Reply A

module _ {ℓ} {A : Type ℓ} where
  -- The calls on the ring, in turn, and their replies; `none` is a fault.
  unfoldable pub run : ℕ → Shared A → List (Call A) → Option (List (Reply A))
  run w r [] = some []
  run w r (pushes x ∷ calls) = elim (push w r x) [
    | none ↦ none
    | some (p, r') ↦ elim (run w r' calls) [
      | none ↦ none
      | some replies ↦ some (pushed p ∷ replies)
    ]
  ]
  run w r (pops ∷ calls) = elim (pop w r) [
    | none ↦ none
    | some (x, r') ↦ elim (run w r' calls) [
      | none ↦ none
      | some replies ↦ some (popped x ∷ replies)
    ]
  ]

  -- The same calls on a list with room for `c` entries, oldest first.
  unfoldable pub fifo : ℕ → List A → List (Call A) → List (Reply A)
  fifo c xs [] = []
  fifo c xs (pushes x ∷ calls) = elim (ltb (length xs) c) [
    | true ↦ pushed ok ∷ fifo c (xs ++ x ∷ []) calls
    | false ↦ pushed (err x) ∷ fifo c xs calls
  ]
  fifo c [] (pops ∷ calls) = popped none ∷ fifo c [] calls
  fifo c (x ∷ xs) (pops ∷ calls) = popped (some x) ∷ fifo c xs calls

  pub run-fifo :
      (w k : ℕ) (r : Shared A) (xs : List A) (calls : List (Call A))
      → Refines w k r xs
      → run w r calls ≡ some (fifo (2 ^ k) xs calls)
  unfolding run fifo
  run-fifo w k r xs [] v = refl
  run-fifo w k r xs (pushes x ∷ calls) v = elim (Bool-cases (ltb (length xs) (2 ^ k))) [
    | inl room ↦
        let (r', e, v') = push_room w k r xs v x (ground (arith, capacity_lem w k r xs v)) in
        rw (room, e, run, fifo) (rw (run-fifo w k r' (xs ++ x ∷ []) calls v'))
    | inr full ↦
        rw
          (
            full,
            push_full w k r xs v x (ground (arith, capacity_lem w k r xs v, v.fits)),
            run,
            fifo,
          )
          (rw (run-fifo w k r xs calls v))
  ]
  run-fifo w k r [] (pops ∷ calls) v = rw (pop_empty w k r v, run) (rw (run-fifo w k r [] calls v))
  run-fifo w k r (x ∷ xs) (pops ∷ calls) v =
      let (r', e, v') = pop_oldest w k r x xs v in rw (e, run) (rw (run-fifo w k r' xs calls v'))

  -- Any sequence of calls on a new ring answers as the list with room for the ring's capacity, and
  -- never faults, if the requested capacity fits in half of the range of `usize`.
  pub event_queue-fifo :
      (w requested : ℕ) (calls : List (Call A))
      → max requested 2 ≤ 2 ^ (w - 1)
      → 0 < w
      → run w (event_queue w requested) calls
        ≡ some (fifo (capacity {A = A} (event_queue w requested)) [] calls)
  event_queue-fifo w requested calls h pos =
      let (k, v, size, _, _) = event_queue-Refines w requested h pos in
      run-fifo w k _ [] calls v ∙ ap (λ c. some (fifo c [] calls)) (sym size)
