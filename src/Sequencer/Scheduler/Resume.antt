-- ===== src/Sequencer/Scheduler/Resume.antt =====
-- A call of `Scheduler::schedule` after another, and one of a run that ends at a step.
use mathlib.Core.List.{append_assoc}
use native.Mathlib.Decide.{dec_lt}
use mathlib.Core.Path.{subst}
use mathlib.Core.Option
use player.Common.{
  ℕ, zero, suc, ◌+◌, ◌≤◌, ◌<◌, ◌≡◌, sym, ap, ◌∙◌, true, Option, some, List, ◌++◌, ◌⊎◌, inl, inr,
  arith, leb, leb→le, saturating_add,
}
use player.Common.Floats.{Floats}
use player.Sequencer.Clock.{ClockSource}
use player.Sequencer.Pattern.{Pattern}
use player.Sequencer.Event.{Event}
use player.Sequencer.Queue.{Shared}
use player.Sequencer.Queue.Refinement.{Refines}
use player.Sequencer.Scheduler.{Scheduler, ended, start_at}
use player.Sequencer.Scheduler.Emits.{span, Emits, step_events}

module _ (fl : Floats) (clock : ClockSource fl) where
  open fl use {F32}

  pub span-append :
      (p : Pattern fl) (n a b : ℕ)
      → span fl clock p n (a + b) ≡ span fl clock p n a ++ span fl clock p (n + a) b
  unfolding span
  span-append p n zero b =
      ap (λ t. span fl clock p n t) (omega arith) ∙ ap (λ t. span fl clock p t b) (omega arith)
  span-append p n (suc a) b =
      ap (span fl clock p n) more
      ∙ ap (◌++◌ (step_events fl clock p n)) (
          span-append p (n + 1) a b
          ∙ ap (λ t. span fl clock p (n + 1) a ++ span fl clock p t b) (omega arith))
      ∙ sym (append_assoc (step_events fl clock p n) (span fl clock p (n + 1) a) _)
    where
      more : suc a + b ≡ suc (a + b)
      more = omega arith

  -- A second call, with any horizon, goes on where the first stopped: behind what the ring held
  -- stand the events of all the steps of both, each once and in order.
  pub schedule_resumes :
      (w k h₁ h₂ : ℕ) (s : Scheduler fl) (out : Shared (Event F32)) (xs : List (Event F32))
      (r₁ r₂ : Option (Scheduler fl × ℕ × Shared (Event F32)))
      (e₁ : Emits fl clock w k h₁ s out xs 0 r₁)
      (e₂ : Emits fl clock w k h₂
        (record s { next_step = s.next_step + e₁.steps; playing = e₁.playing })
        e₁.ring
        (xs ++ span fl clock s.pattern s.next_step e₁.steps)
        0
        r₂)
      → Refines w k e₂.ring (xs ++ span fl clock s.pattern s.next_step (e₁.steps + e₂.steps))
  schedule_resumes w k h₁ h₂ s out xs r₁ r₂ e₁ e₂ =
      subst (Refines w k e₂.ring)
        (append_assoc xs (span fl clock s.pattern s.next_step e₁.steps) _
          ∙ ap (◌++◌ xs) (sym (span-append s.pattern s.next_step e₁.steps e₂.steps)))
        e₂.holds

  pub stops_at :
      (s : Scheduler fl) (step n : ℕ)
      → s.stop_after ≡ some n
      → (start_at fl s step).stop_at ≡ some (saturating_add step n)
  unfolding start_at
  stops_at s step n e = ap (Option.map (λ m. saturating_add step m)) e

  pub leb_self : (a : ℕ) → leb a a ≡ true
  leb_self a = ground arith

  pub ended_at : (w end n : ℕ) (o : Option ℕ) → o ≡ some end → ended fl w o n ≡ leb end n
  ended_at w end n o e = ap (λ t. ended fl w t n) e

  -- A call of a playing scheduler with `left` steps up to the run's end emits at most those, and exactly
  -- those if it ends the run.
  pub call_length :
      (w k h left : ℕ) (s : Scheduler fl) (out : Shared (Event F32)) (xs : List (Event F32))
      (r : Option (Scheduler fl × ℕ × Shared (Event F32)))
      → s.stop_at ≡ some (s.next_step + left)
      → (em : Emits fl clock w k h s out xs 0 r)
      → (em.steps ≤ left) × ((em.playing ≡ true) ⊎ (em.steps ≡ left))
  call_length w k h left s out xs r stops em = (
    short,
    elim em.halts [
      | inl (_, done) ↦
          inr (omega (arith, short, leb→le (s.next_step + left) _ (sym (end _) ∙ done)))
      | inr (on, _, _) ↦ inl on
    ],
  )
    where
      end : (m : ℕ) → ended fl w s.stop_at m ≡ leb (s.next_step + left) m
      end m = ended_at w (s.next_step + left) m _ stops

      over : left < em.steps → ⊥
      over more = elim (em.before left) [
        | inl past ↦ omega arith
        | inr passes ↦ cc (sym (end (s.next_step + left)) ∙ passes.1, leb_self (s.next_step + left))
      ]

      short : em.steps ≤ left
      short = elim (dec_lt left em.steps) [ yes more ↦ absurd (over more) | no fits ↦ omega arith ]
