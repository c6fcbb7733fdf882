-- ===== src/Sequencer/Scheduler/Emits.antt =====
-- What one call of `Scheduler::schedule` may have done: the steps that it emitted and where it stopped.
use mathlib.Core.List.{append_assoc, append-nil}
use mathlib.Core.Path.{subst}
use player.Common.{
  ℕ, zero, suc, ◌+◌, ◌*◌, ◌%◌, ◌≤◌, ◌<◌, ◌≡◌, sym, ◌∙◌, min, Bool, true, false, Option, some, List,
  [], ◌++◌, ◌⊎◌, inl, inr, arith, length, length-append,
}
use player.Common.Floats.{Floats}
use player.Sequencer.Clock.{ClockSource}
use player.Sequencer.Pattern.{Pattern, voices, voice_count, step_count}
use player.Sequencer.Event.{Event}
use player.Sequencer.Queue.{Shared, vacant}
use player.Sequencer.Queue.Refinement.{Refines}
use player.Sequencer.Scheduler.{Scheduler, flush_reserve, step_sample, flam_samples, ended}
use player.Sequencer.Scheduler.Emit.{events}

module _ (fl : Floats) (clock : ClockSource fl) where
  open fl use {F32}

  abbrev pub step_events : Pattern fl → ℕ → List (Event F32)
  step_events p n =
      events fl p (n % step_count) (step_sample fl clock p n) (flam_samples fl clock p) voices

  -- The events of the `m` steps from step `n` on, in order.
  unfoldable pub span : Pattern fl → ℕ → ℕ → List (Event F32)
  span p n zero = []
  span p n (suc m) = step_events p n ++ span p (n + 1) m

  module _ (w k horizon : ℕ) where
    -- Why the loop stopped at step `n`: the run ended there, or the step is at or past the horizon,
    -- or the ring has too little room for a step.
    abbrev pub Halts : Scheduler fl → ℕ → Bool → Shared (Event F32) → Type 0
    Halts s n playing out =
        ((playing ≡ false) × (ended fl w s.stop_at n ≡ true))
        ⊎ ((playing ≡ true)
            × (ended fl w s.stop_at n ≡ false)
            × ((horizon ≤ step_sample fl clock s.pattern n)
                ⊎ (vacant w out < 2 * voice_count + flush_reserve)))

    -- The reply `r` has emitted, behind `xs`, exactly the steps from the cursor to where it halted.
    pub record Emits (s : Scheduler fl) (out : Shared (Event F32)) (xs : List (Event F32))
        (pushed : ℕ) (r : Option (Scheduler fl × ℕ × Shared (Event F32))) : Type 0 where
      pub steps : ℕ
      pub playing : Bool
      pub ring : Shared (Event F32)
      pub reply :
          r
          ≡ some (
            record s { next_step = s.next_step + steps; playing = playing },
            pushed + length (span s.pattern s.next_step steps),
            ring,
          )
      pub holds : Refines w k ring (xs ++ span s.pattern s.next_step steps)
      pub before :
          (i : ℕ)
          → (steps ≤ i)
            ⊎ ((step_sample fl clock s.pattern (s.next_step + i) < horizon)
                × (ended fl w s.stop_at (s.next_step + i) ≡ false))
      pub halts : Halts s (s.next_step + steps) playing ring
      pub reserve : min flush_reserve (vacant w out) ≤ vacant w ring

    abbrev Passes : Scheduler fl → ℕ → Type 0
    Passes s n = (step_sample fl clock s.pattern n < horizon) × (ended fl w s.stop_at n ≡ false)

    pub stay :
        (s : Scheduler fl) (playing : Bool) (out : Shared (Event F32)) (xs : List (Event F32))
        (pushed : ℕ)
        → Refines w k out xs
        → Halts s s.next_step playing out
        → Emits s out xs pushed (some (record s { playing = playing }, pushed, out))
    unfolding span
    stay s playing out xs pushed v h = record {
      steps = 0;
      playing = playing;
      ring = out;
      reply = λ i.
          some (record s { next_step = same s.next_step i; playing = playing }, same pushed i, out);
      holds = subst (Refines w k out) (sym (append-nil xs)) v;
      before = λ i. inl (omega arith);
      halts = subst (λ n. Halts s n playing out) (omega arith) h;
      reserve = omega arith;
    }
      where
        same : (n : ℕ) → n ≡ n + 0
        same n = omega arith

    pub go :
        (s : Scheduler fl) (out out' : Shared (Event F32)) (xs : List (Event F32)) (pushed : ℕ)
        (r : Option (Scheduler fl × ℕ × Shared (Event F32)))
        → ended fl w s.stop_at s.next_step ≡ false
        → step_sample fl clock s.pattern s.next_step < horizon
        → flush_reserve ≤ vacant w out'
        → Emits
            (record s { next_step = s.next_step + 1 })
            out'
            (xs ++ step_events s.pattern s.next_step)
            (pushed + length (step_events s.pattern s.next_step))
            r
        → Emits s out xs pushed r
    unfolding span
    go s out out' xs pushed r more early room e = record {
      steps = suc e.steps;
      playing = e.playing;
      ring = e.ring;
      reply = e.reply ∙ λ i.
          some (record s { next_step = next e.steps i; playing = e.playing }, count i, e.ring);
      holds = subst (λ es. Refines w k e.ring es) joined e.holds;
      before = before;
      halts = subst (λ n. Halts s n e.playing e.ring) (next e.steps) e.halts;
      reserve = omega (arith, e.reserve, room);
    }
      where
        next : (i : ℕ) → s.next_step + 1 + i ≡ s.next_step + suc i
        next i = omega arith

        joined :
            (xs ++ step_events s.pattern s.next_step) ++ span s.pattern (s.next_step + 1) e.steps
            ≡ xs ++ span s.pattern s.next_step (suc e.steps)
        joined = append_assoc xs (step_events s.pattern s.next_step) _

        count :
            pushed
              + length (step_events s.pattern s.next_step)
              + length (span s.pattern (s.next_step + 1) e.steps)
            ≡ pushed + length (span s.pattern s.next_step (suc e.steps))
        count = omega (
          arith,
          length-append (step_events s.pattern s.next_step)
              (span s.pattern (s.next_step + 1) e.steps),
        )

        before :
            (i : ℕ)
            → (suc e.steps ≤ i)
              ⊎ ((step_sample fl clock s.pattern (s.next_step + i) < horizon)
                  × (ended fl w s.stop_at (s.next_step + i) ≡ false))
        before zero = inr (subst (Passes s) (omega arith) (early, more))
        before (suc i) = elim (e.before i) [
          | inl past ↦ inl (omega arith)
          | inr passes ↦ inr (subst (Passes s) (next i) passes)
        ]
