-- ===== src/Sequencer/Scheduler/Run.antt =====
-- One call of `Scheduler::schedule`: which steps it emits, where it stops, and that it ends.
use mathlib.Core.Path.{subst}
use player.Common.{
  ℕ, zero, suc, ◌+◌, ◌-◌, ◌*◌, ◌%◌, ◌^◌, ◌≤◌, ◌<◌, ◌≡◌, refl, sym, Bool, true, false, ◌||◌, some,
  List, ◌++◌, ◌⊎◌, inl, inr, Bool-cases, arith, length, length-append, ltb, leb, if◌then◌else◌,
}
use player.Common.Floats.{Floats}
use player.Sequencer.Clock.{ClockSource}
use player.Sequencer.Pattern.{voices, voice_count, step_count}
use player.Sequencer.Event.{Event}
use player.Sequencer.Queue.{Shared, vacant}
use player.Sequencer.Queue.Refinement.{Refines, vacant_lem, capacity_lem}
use player.Sequencer.Scheduler.{
  Scheduler, flush_reserve, step_after, step_sample, flam_samples, ended, next_pattern_step,
  schedule_loop, schedule,
}
use player.Sequencer.Scheduler.Emit.{length-events, emit_room}
use player.Sequencer.Scheduler.Emits.{step_events, Emits, stay, go}

module _ (fl : Floats) (clock : ClockSource fl) where
  open fl use {F32}

  module _ (w k horizon : ℕ) where
    abbrev Due : Scheduler fl → ℕ → Type 0
    Due s n = (horizon ≤ step_sample fl clock s.pattern n) ⊎ (ended fl w s.stop_at n ≡ true)

    abbrev blocked : Scheduler fl → Shared (Event F32) → Bool
    blocked s out =
        leb horizon (step_sample fl clock s.pattern s.next_step)
        || ltb (vacant w out) (2 * voice_count + flush_reserve)

    blocked_why :
        (s : Scheduler fl) (out : Shared (Event F32))
        → blocked s out ≡ true
        → (horizon ≤ step_sample fl clock s.pattern s.next_step)
          ⊎ (vacant w out < 2 * voice_count + flush_reserve)
    blocked_why s out e = ground arith

    open_why :
        (s : Scheduler fl) (out : Shared (Event F32))
        → blocked s out ≡ false
        → (step_sample fl clock s.pattern s.next_step < horizon)
          × (2 * voice_count + flush_reserve ≤ vacant w out)
    open_why s out e = ground arith

    -- The room for a step, in entries.
    room_for :
        (s : Scheduler fl) (out : Shared (Event F32)) (xs : List (Event F32))
        → Refines w k out xs
        → 2 * voice_count + flush_reserve ≤ vacant w out
        → length xs + 2 * length voices ≤ 2 ^ k
    room_for s out xs v room = omega (arith, vacant_lem w k out xs v, capacity_lem w k out xs v)

    reserve_kept :
        (s : Scheduler fl) (out out' : Shared (Event F32)) (xs : List (Event F32))
        → Refines w k out xs
        → Refines w k out' (xs ++ step_events fl clock s.pattern s.next_step)
        → 2 * voice_count + flush_reserve ≤ vacant w out
        → flush_reserve ≤ vacant w out'
    reserve_kept s out out' xs v v' room = omega (
      arith,
      vacant_lem w k out xs v,
      capacity_lem w k out xs v,
      vacant_lem w k out' _ v',
      capacity_lem w k out' _ v',
      length-append xs (step_events fl clock s.pattern s.next_step),
      length-events fl s.pattern (s.next_step % step_count)
          (step_sample fl clock s.pattern s.next_step) (flam_samples fl clock s.pattern) voices,
    )

    Due-later :
        (s : Scheduler fl) (n : ℕ)
        → Due s (s.next_step + n)
        → ended fl w s.stop_at s.next_step ≡ false
        → step_sample fl clock s.pattern s.next_step < horizon
        → (0 < n) × Due s (s.next_step + 1 + (n - 1))
    Due-later s zero due more early =
        absurd
          (elim (subst (Due s) here due) [ inl late ↦ omega arith | inr done ↦ cc (more, done) ])
      where
        here : s.next_step + 0 ≡ s.next_step
        here = omega arith
    Due-later s (suc n) due more early = (omega arith, subst (Due s) (omega arith) due)

    -- The cursor does not wrap.
    step_plain :
        (s : Scheduler fl) (fuel : ℕ)
        → s.next_step + suc fuel < 2 ^ 64
        → s.next_step + 1 ≡ step_after s.next_step
    step_plain s fuel bound = omega arith

    abbrev Onward : Scheduler fl → Shared (Event F32) → List (Event F32) → ℕ → ℕ → ℕ → Type 0
    Onward s out' xs pushed fuel n =
        Emits fl clock w k horizon (record s { next_step = s.next_step + 1 }) out'
          (xs ++ step_events fl clock s.pattern s.next_step)
          (pushed + length (step_events fl clock s.pattern s.next_step))
          (schedule_loop fl w clock fuel (record s { next_step = n }) horizon out'
            (pushed + length (step_events fl clock s.pattern s.next_step)))

    loop-Emits :
        (fuel n : ℕ) (s : Scheduler fl) (out : Shared (Event F32)) (xs : List (Event F32))
        (pushed : ℕ)
        → n < fuel
        → Due s (s.next_step + n)
        → s.next_step + fuel < 2 ^ 64
        → s.playing ≡ true
        → Refines w k out xs
        → Emits fl clock w k horizon s out xs pushed
            (schedule_loop fl w clock fuel s horizon out pushed)
    unfolding schedule_loop next_pattern_step
    loop-Emits zero n s out xs pushed lt due bound on v = elim lt [ ]
    loop-Emits (suc fuel) n s out xs pushed lt due bound on v =
        elim (Bool-cases (ended fl w s.stop_at s.next_step)) [
          | inl done ↦
              rw (done, schedule_loop)
                (stay fl clock w k horizon s false out xs pushed v (inl (refl, done)))
          | inr more ↦ elim (Bool-cases (blocked s out)) [
            | inl shut ↦
                rw (more, schedule_loop)
                  (rw (shut, schedule_loop)
                    (stay fl clock w k horizon s s.playing out xs pushed v
                      (inr (on, more, blocked_why s out shut))))
            | inr clear ↦
                let (early, room) = open_why s out clear in
                let (out', sent, v') =
                  emit_room fl w k s.pattern (next_pattern_step fl s)
                    (step_sample fl clock s.pattern s.next_step) (flam_samples fl clock s.pattern)
                    voices out xs pushed v (room_for s out xs v room) in
                let later = Due-later s n due more early in
                rw (more, schedule_loop)
                  (rw (clear, schedule_loop)
                    (rw sent (
                      go fl clock w k horizon s out out' xs pushed _ more early
                        (reserve_kept s out out' xs v v' room)
                        (subst (Onward s out' xs pushed fuel) (step_plain s fuel bound) (
                          loop-Emits fuel (n - 1) (record s { next_step = s.next_step + 1 }) out'
                            (xs ++ step_events fl clock s.pattern s.next_step)
                            (pushed + length (step_events fl clock s.pattern s.next_step))
                            (omega (arith, later.0)) later.1 (omega (arith, bound)) on v')))))
          ]
        ]

    -- A call of a playing scheduler whose fuel reaches past the first step that is at the horizon
    -- or at the run's end returns as `Emits` says: the steps from the cursor on are emitted behind
    -- what the ring held, in order and each once; they are counted; it stops at the run's end, the
    -- horizon, or too little room; and the flush reserve is not used. The cursor and the fuel stay
    -- below 2 ^ 64.
    pub schedule-Emits :
        (fuel n : ℕ) (s : Scheduler fl) (out : Shared (Event F32)) (xs : List (Event F32))
        → n < fuel
        → (horizon ≤ step_sample fl clock s.pattern (s.next_step + n))
          ⊎ (ended fl w s.stop_at (s.next_step + n) ≡ true)
        → s.next_step + fuel < 2 ^ 64
        → s.playing ≡ true
        → Refines w k out xs
        → Emits fl clock w k horizon s out xs 0 (schedule fl w clock fuel s horizon out)
    unfolding schedule
    schedule-Emits fuel n s out xs lt due bound on v =
        subst
          (λ b.
            Emits fl clock w k horizon s out xs 0
              (if b then schedule_loop fl w clock fuel s horizon out 0 else some (s, 0, out)))
          (sym on) (loop-Emits fuel n s out xs 0 lt due bound on v)
