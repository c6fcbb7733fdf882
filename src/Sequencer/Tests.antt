-- ===== src/Sequencer/Tests.antt =====
-- The sequencer's theorems at concrete inputs: numbers of three decimals for the floating-point
-- numbers, 120 bpm at 48 kHz, a kick on the first step of every beat.
use player.Common.{
  ℕ, ◌+◌, ◌*◌, ◌/◌, ◌^◌, ◌≤◌, ◌<◌, ◌≡◌, refl, min, max, ◌⊎◌, inl, true, false, none, some, List, [],
  ◌∷◌, map, arith, length,
}
use player.Common.Millis.{millis}
use player.Common.Text.{codes, is_whitespace}
use player.Sequencer.Clock.{ClockSource}
use player.Sequencer.Pattern.{
  kick, Step, off, Track, Pattern, ok as parsed, parse, notation, step_beat, from_symbol, symbol,
  step_count,
}
use player.Sequencer.Pattern.Notation.{audible, parse-notation}
use player.Sequencer.Pattern.Accepted.{strokes, parse-strokes}
use player.Sequencer.Event.{Event}
use player.Sequencer.Queue.{Shared, event_queue, capacity, next_power_of_two}
use player.Sequencer.Queue.Refinement.{Refines}
use player.Sequencer.Queue.Create.{event_queue-Refines}
use player.Sequencer.Queue.History.{Call, pushes, pops, run, fifo, event_queue-fifo}
use player.Sequencer.Scheduler.{
  Scheduler, new, start_at, set_stop_after, seek, schedule, step_sample, first_step_at_or_after,
  resync,
}
use player.Sequencer.Scheduler.Emits.{Emits}
use player.Sequencer.Scheduler.Run.{schedule-Emits}
use player.Sequencer.Scheduler.Cursor.{remaining, remaining-seek, search_start, first_step-Finds}
use player.Sequencer.Scheduler.Runs.{ScheduleCall, Plays, start_at-Plays}

abbrev calls : List (Call ℕ)
calls = pops ∷ pushes 7 ∷ pushes 8 ∷ pushes 9 ∷ pops ∷ []

-- The last push finds both slots taken.
event_queue-fifo_example :
    run 64 (event_queue 64 2) calls ≡ some (fifo (capacity {A = ℕ} (event_queue 64 2)) [] calls)
event_queue-fifo_example = event_queue-fifo 64 2 calls (omega arith) (omega arith)

abbrev two_slots : Shared ℕ
two_slots = event_queue 64 2

two_slots-Refines : Refines 64 1 two_slots []
unfolding event_queue next_power_of_two
two_slots-Refines = record {
  width = omega arith;
  mask_eq = refl;
  size_eq = refl;
  head_lt = omega arith;
  tail_eq = refl;
  fits = omega arith;
  holds = tt;
}

event_queue-Refines_example :
    (k : ℕ) × Refines {A = ℕ} 64 k (event_queue 64 100) []
    × (capacity {A = ℕ} (event_queue 64 100) ≡ 2 ^ k)
    × (max 100 2 ≤ 2 ^ k)
    × (2 ^ k < max 100 2 * 2)
event_queue-Refines_example = event_queue-Refines 64 100 (omega arith) (omega arith)

abbrev one_taken : Shared ℕ
one_taken = record { slots = some 7 ∷ none ∷ []; mask = 1; head = 0; tail = 1 }

one_taken-Refines : Refines 64 1 one_taken (7 ∷ [])
one_taken-Refines = record {
  width = omega arith;
  mask_eq = refl;
  size_eq = refl;
  head_lt = omega arith;
  tail_eq = refl;
  fits = omega arith;
  holds = (refl, tt);
}

abbrev hit : Step
hit = record { on = true; accent = true; flam = false }

abbrev beat_track : Track
beat_track = record {
  steps =
      hit ∷ off ∷ off ∷ off ∷ hit ∷ off ∷ off ∷ off ∷ hit ∷ off ∷ off ∷ off ∷ hit ∷ off ∷ off ∷ off
      ∷ [];
  mute = true;
}

parse-notation_example :
    parse (notation beat_track)
    ≡ parsed (record { steps = map audible beat_track.steps; mute = false })
parse-notation_example = parse-notation beat_track refl

abbrev beat_text : List ℕ
beat_text = codes "X... X... X... X..."

abbrev beat_parsed : Track
beat_parsed = record beat_track { mute = false }

parse-strokes_example :
    (length beat_parsed.steps ≡ step_count)
    × (map symbol beat_parsed.steps ≡ strokes beat_text)
    × (beat_parsed.mute ≡ false)
unfolding parse from_symbol is_whitespace
parse-strokes_example = parse-strokes beat_text beat_parsed refl

abbrev metronome : ClockSource millis
metronome = record {
  sample_rate = 48_000_000;
  tempo_bpm = 120_000;
  beat_at_sample = λ s. s / 24_000;
  sample_at_beat = λ b. b * 24_000;
}

abbrev beat_pattern : Pattern millis
beat_pattern = record {
  tracks = λ v. elim v [ kick ↦ beat_parsed | _ ↦ beat_track ];
  shuffle = 0;
  accent = 500;
  flam = 500;
}

abbrev running : Scheduler millis
running = start_at millis (set_stop_after millis (new millis beat_pattern) (some 3)) 0

abbrev ring : Shared (Event ℕ)
ring = event_queue 64 32

ring-Refines : Refines 64 5 ring []
unfolding event_queue next_power_of_two
ring-Refines = record {
  width = omega arith;
  mask_eq = refl;
  size_eq = refl;
  head_lt = omega arith;
  tail_eq = refl;
  fits = omega arith;
  holds = tt;
}

-- The horizon is past the first two steps and before the third.
schedule-Emits_example :
    Emits millis metronome 64 5 12_000 running ring [] 0
      (schedule millis 64 metronome 5 running 12_000 ring)
unfolding step_sample step_beat start_at set_stop_after new
schedule-Emits_example =
    schedule-Emits millis metronome 64 5 12_000 5 2 running ring [] (omega arith)
      (inl (omega arith)) (omega arith) refl ring-Refines

-- Two calls of a run of three steps, the ring emptied between them.
abbrev two_calls : List (ScheduleCall millis metronome 64 5 4)
two_calls =
    record { horizon = 12_000; ring = ring; contents = []; held = ring-Refines }
    ∷ record { horizon = 40_000; ring = ring; contents = []; held = ring-Refines }
    ∷ []

start_at-Plays_example :
    Plays millis metronome 64 5 4
      (start_at millis (set_stop_after millis (new millis beat_pattern) (some 3)) 0)
      3
      two_calls
unfolding set_stop_after new
start_at-Plays_example =
    start_at-Plays millis metronome 64 5 4
      (set_stop_after millis (new millis beat_pattern) (some 3)) 0 3 two_calls refl (omega arith)
      (omega arith)

remaining-seek_example :
    (remaining millis (seek millis running 16 1) 16
      ≡ remaining millis running (min 1 running.next_step))
    × ((seek millis running 16 1).next_step ≡ 16)
    × ((seek millis running 16 1).playing ≡ running.playing)
unfolding start_at set_stop_after new
remaining-seek_example = remaining-seek millis running 16 1 (λ end e. ground arith)

first_step-Finds_example :
    (m : ℕ) × (first_step_at_or_after millis metronome 5 running 7_000
      ≡ some (search_start millis metronome 7_000 + m))
    × (resync millis metronome 5 running 7_000
        ≡ some (seek millis running (search_start millis metronome 7_000 + m) running.next_step))
    × (7_000
        ≤ step_sample millis metronome running.pattern (search_start millis metronome 7_000 + m))
    × ((i : ℕ)
        → (m ≤ i)
          ⊎ (step_sample millis metronome running.pattern (search_start millis metronome 7_000 + i)
              < 7_000))
unfolding step_sample step_beat start_at set_stop_after new
first_step-Finds_example =
    first_step-Finds millis metronome 5 2 running 7_000 (omega arith) (omega arith) (omega arith)
