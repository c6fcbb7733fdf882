-- ===== src/Engine/Tests.antt =====
-- The engine's theorems on small blocks and logs.
use player.Common.{ℕ, ◌+◌, ◌-◌, ◌≡◌, refl, List, [], ◌∷◌, ◌++◌, drop, arith, ltb}
use player.Sequencer.Pattern.{kick}
use player.Sequencer.Event.{Event, trigger}
use player.Engine.Renderer.{Dsp, Renderer, process_at, apply_due_events, pull_events}
use player.Engine.Renderer.Pending.{
  later, due, apply_all, Inv, apply_due_events-due, process_at-Inv,
}
use player.Engine.Renderer.Blocks.{process_at-add}
use player.Engine.Queued.{Queued, QueuedLog, new, push, newest, cut, flush_from}
use player.Engine.Queued.Contents.{contents, last_entries, new-Inv, push-Inv, contents-push}
use player.Engine.Queued.Cutting.{Parted, uncut, flush_from-cut}

-- Voices that hold the sum of the velocities, and a master that passes it on.
abbrev summing : Dsp ℕ ℕ
summing = record {
  State = ℕ;
  kit_trigger = λ v velocity total. total + velocity;
  kit_set_param = λ v p value total. total;
  set_output_gain = λ value total. total;
  set_limiter_enabled = λ on total. total;
  is_on = λ value. ltb 0 value;
  kit_process = λ total. (total, total);
  master_process = λ mix total. (mix, total);
}

abbrev hit : ℕ → ℕ → Event ℕ
hit sample velocity = record { sample = sample; kind = trigger kick velocity }

abbrev waiting : List (Event ℕ)
waiting = hit 1 5 ∷ hit 3 7 ∷ []

abbrev idle : Renderer summing
idle = record { position = 0; queued = waiting; pending = []; voices = 0; timing = (0, 0) }

process_at-add_example :
    let (out, middle) = process_at summing 2 10 idle in
    let (out', last) = process_at summing 2 20 middle in
    let (whole, once) = process_at summing 4 10 idle in
    (whole ≡ out ++ out')
    × (once.pending ≡ last.pending)
    × (once.voices ≡ last.voices)
    × (once.queued ≡ last.queued)
    × (once.position ≡ last.position)
unfolding pull_events
process_at-add_example = process_at-add summing 2 2 10 20 idle refl

process_at-Inv_example : Inv summing (process_at summing 4 10 idle).1
process_at-Inv_example = process_at-Inv summing 4 10 idle (tt, omega arith)

apply_due_events-due_example :
    apply_due_events summing 2 waiting 0 ≡ (later 2 waiting, apply_all summing (due 2 waiting) 0)
apply_due_events-due_example =
    apply_due_events-due summing 2 waiting 0 ((omega arith, tt), (tt, tt))

abbrev first_step : Queued
first_step = record { step = 0; first = 90; sample = 100 }

abbrev second_step : Queued
second_step = record { step = 1; first = 190; sample = 200 }

abbrev two_steps : QueuedLog
two_steps = push (push new first_step) second_step

two_steps-contents : contents two_steps ≡ first_step ∷ second_step ∷ []
unfolding last_entries push new newest
two_steps-contents = refl

contents-push_example :
    contents (push (push new first_step) second_step)
    ≡ drop ((push new first_step).len + 1 - 32) (contents (push new first_step)) ++ second_step ∷ []
contents-push_example =
    contents-push (push new first_step) second_step (push-Inv new first_step new-Inv)

flush_from-cut_example :
    (parted : Parted (uncut 95) (cut two_steps 95) (contents two_steps)) × (contents
        (flush_from two_steps (cut two_steps 95).flush)
      ≡ parted.kept)
flush_from-cut_example =
    flush_from-cut two_steps 95 (push-Inv _ second_step (push-Inv new first_step new-Inv))
      (rw two_steps-contents (omega arith, ((omega arith, omega arith), tt), (omega arith, tt, tt)))
