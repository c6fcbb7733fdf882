-- ===== src/Sequencer/Scheduler/Cursor.antt =====
-- The cursor of the scheduler: `start_at`, `seek`, `first_step_at_or_after`, and runs in several calls.
use native.Mathlib.Decide.{dec_lt}
use mathlib.Core.Path.{subst}
use mathlib.Core.Option
use player.Common.{
  ℕ, zero, suc, ◌+◌, ◌-◌, ◌^◌, ◌≤◌, ◌<◌, ◌≡◌, refl, ap, ◌∙◌, min, Option, none, some, ◌⊎◌, inl, inr,
  Bool-cases, arith, ltb, ltb→lt, u64_max, if◌then◌else◌,
}
use player.Common.Floats.{Floats}
use player.Sequencer.Clock.{ClockSource}
use player.Sequencer.Pattern.{Pattern, beats_per_step}
use player.Sequencer.Scheduler.{
  Scheduler, step_after, step_sample, seek, walk, first_step_at_or_after, resync,
}

module _ (fl : Floats) where
  open fl use {F32, F64, lit64, leb64, of_u64, to_u64, floor64, div64}

  -- The steps that a run has still to play from step `from` on, if it ends.
  abbrev pub remaining : Scheduler fl → ℕ → Option ℕ
  remaining s from = Option.map (λ end. end - from) s.stop_at

  -- After `seek` the run has as many steps to play from the new step on as it had from the first
  -- step that was not heard, or from the cursor if that is earlier; the cursor is at the new step,
  -- and whether it plays is as before. The new end fits a `u64`.
  pub remaining-seek :
      (s : Scheduler fl) (step unplayed : ℕ)
      → ((end : ℕ) → s.stop_at ≡ some end → step + end ≤ u64_max)
      → (remaining (seek fl s step unplayed) step ≡ remaining s (min unplayed s.next_step))
        × ((seek fl s step unplayed).next_step ≡ step)
        × ((seek fl s step unplayed).playing ≡ s.playing)
  unfolding seek
  remaining-seek s step unplayed fits = on s.stop_at fits
    where
      on :
          (o : Option ℕ)
          → ((end : ℕ) → o ≡ some end → step + end ≤ u64_max)
          → (remaining (seek fl (record s { stop_at = o }) step unplayed) step
              ≡ remaining (record s { stop_at = o }) (min unplayed s.next_step))
            × ((seek fl (record s { stop_at = o }) step unplayed).next_step ≡ step)
            × ((seek fl (record s { stop_at = o }) step unplayed).playing ≡ s.playing)
      on none h = (refl, refl, refl)
      on (some end) h = (ap some (omega (arith, h end refl)), refl, refl)

  module _ (clock : ClockSource fl) where
    -- What the search for a step returns: the first from `step` on that falls at or after `sample`.
    abbrev pub Finds : Pattern fl → ℕ → ℕ → Option ℕ → Type 0
    Finds p step sample r =
        (m : ℕ) × (r ≡ some (step + m))
        × (sample ≤ step_sample fl clock p (step + m))
        × ((i : ℕ) → i < m → step_sample fl clock p (step + i) < sample)

    found_later :
        (p : Pattern fl) (step sample : ℕ) (r : Option ℕ)
        → step_sample fl clock p step < sample
        → Finds p (step + 1) sample r
        → Finds p step sample r
    found_later p step sample r early (m, e, at, before) = (
      suc m,
      e ∙ ap some (next m),
      subst (λ t. sample ≤ step_sample fl clock p t) (next m) at,
      earlier,
    )
      where
        next : (i : ℕ) → step + 1 + i ≡ step + suc i
        next i = omega arith

        earlier : (i : ℕ) → i < suc m → step_sample fl clock p (step + i) < sample
        earlier zero h = subst (λ t. step_sample fl clock p t < sample) (omega arith) early
        earlier (suc i) h =
            subst (λ t. step_sample fl clock p t < sample) (next i) (before i (omega arith))

    -- A later step that is due is still ahead once the cursor has moved by one.
    due_ahead :
        (n : ℕ) (p : Pattern fl) (step sample : ℕ)
        → sample ≤ step_sample fl clock p (step + n)
        → step_sample fl clock p step < sample
        → (0 < n) × (sample ≤ step_sample fl clock p (step + 1 + (n - 1)))
    due_ahead zero p step sample at early =
        absurd (omega (arith, subst (λ t. sample ≤ step_sample fl clock p t) here at))
      where
        here : step + 0 ≡ step
        here = omega arith
    due_ahead (suc n) p step sample at early =
        (omega arith, subst (λ t. sample ≤ step_sample fl clock p t) (omega arith) at)

    walk-Finds :
        (fuel n : ℕ) (p : Pattern fl) (step sample : ℕ)
        → n < fuel
        → sample ≤ step_sample fl clock p (step + n)
        → step + fuel < 2 ^ 64
        → Finds p step sample (walk fl clock fuel p step sample)
    unfolding walk
    walk-Finds zero n p step sample lt at bound = elim lt [ ]
    walk-Finds (suc fuel) n p step sample lt at bound =
        elim (Bool-cases (ltb (step_sample fl clock p step) sample)) [
          | inl early ↦
              let below = ltb→lt _ _ early in
              let (pos, ahead) = due_ahead n p step sample at below in
              let plain : step + 1 ≡ step_after step = omega arith in
              rw (early, walk)
                (found_later p step sample _ below (
                  subst (λ t. Finds p (step + 1) sample (walk fl clock fuel p t sample)) plain
                    (walk-Finds fuel (n - 1) p (step + 1) sample (omega arith) ahead
                      (omega arith))))
          | inr here ↦
              let stop : step ≡ step + 0 = omega arith in
              rw (here, walk)
                (
                  0,
                  ap some stop,
                  subst (λ t. sample ≤ step_sample fl clock p t) stop (ground arith),
                  λ i h. elim h [ ],
                )
        ]

    -- Where the search for a sample begins: one step before the one that the clock puts there.
    abbrev pub search_start : ℕ → ℕ
    search_start sample =
        let beat = clock.beat_at_sample (of_u64 sample) in
        (if leb64 beat (lit64 0 1) then 0 else to_u64 (floor64 (div64 beat (beats_per_step fl))))
        - 1

    -- If a step that the fuel reaches falls at or after `sample`, the search returns the first such
    -- step from its start on, and `resync` seeks to that step with nothing unplayed. The steps
    -- searched are below 2 ^ 64.
    pub first_step-Finds :
        (fuel n : ℕ) (s : Scheduler fl) (sample : ℕ)
        → n < fuel
        → sample ≤ step_sample fl clock s.pattern (search_start sample + n)
        → search_start sample + fuel < 2 ^ 64
        → (m : ℕ) × (first_step_at_or_after fl clock fuel s sample ≡ some (search_start sample + m))
          × (resync fl clock fuel s sample ≡ some (seek fl s (search_start sample + m) s.next_step))
          × (sample ≤ step_sample fl clock s.pattern (search_start sample + m))
          × ((i : ℕ)
              → (m ≤ i) ⊎ (step_sample fl clock s.pattern (search_start sample + i) < sample))
    unfolding first_step_at_or_after resync
    first_step-Finds fuel n s sample lt at bound =
        let (m, e, late, before) =
          walk-Finds fuel n s.pattern (search_start sample) sample lt at bound in
        (
          m,
          e,
          ap (Option.map (λ step. seek fl s step s.next_step)) e,
          late,
          λ i. elim (dec_lt i m) [ yes lt ↦ inr (before i lt) | no ge ↦ inl (omega arith) ],
        )
