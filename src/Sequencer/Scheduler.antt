-- ===== src/Sequencer/Scheduler.antt =====
-- core/sequencer/src/scheduler.rs: walks the pattern ahead of the clock and fills the event ring.
-- `fl` stands for the floating-point numbers and `w` for the bits of `usize`. A `while` or `loop`
-- takes fuel; a call that returns `none` has spent it, or met a fault of the ring.
pub mod Emit
pub mod Emits
pub mod Run
pub mod Cursor
pub mod Resume
pub mod Runs
use player.Common.{
  ℕ, zero, suc, ◌+◌, ◌-◌, ◌*◌, ◌%◌, ◌^◌, min, Bool, true, false, ◌&&◌, ◌||◌, not, Option, none,
  some, List, [], ◌∷◌, ltb, leb, if◌then◌else◌, get_or, saturating_add,
}
use mathlib.Core.Option
use player.Common.Floats.{Floats}
use player.Sequencer.Clock.{ClockSource}
use player.Sequencer.Pattern.{
  VoiceId, voices, voice_count, Step, Track, off, step_count, Pattern, step_beat, velocity,
  flam_seconds, flam_grace_ratio, beats_per_step, empty,
}
use player.Sequencer.Event.{Event, trigger}
use player.Sequencer.Queue.{Shared, push, vacant}

abbrev pub flush_reserve : ℕ
flush_reserve = 2

-- `next_step += 1` on a `u64`.
abbrev pub step_after : ℕ → ℕ
step_after n = (n + 1) % 2 ^ 64

module _ (fl : Floats) where
  open fl use {F32, F64, lit64, mul64, div64, floor64, round64, max64, leb64, of_u64, to_u64, mul32}

  pub record Scheduler : Type 0 where
    pub pattern : Pattern fl
    pub next_step : ℕ
    pub playing : Bool
    pub stop_after : Option ℕ
    pub stop_at : Option ℕ

  unfoldable pub new : Pattern fl → Scheduler
  new p = record { pattern = p; next_step = 0; playing = false; stop_after = none; stop_at = none }

  unfoldable pub set_pattern : Scheduler → Pattern fl → Scheduler
  set_pattern s p = record s { pattern = p }

  unfoldable pub start_at : Scheduler → ℕ → Scheduler
  start_at s step = record s {
    next_step = step;
    playing = true;
    stop_at = Option.map (λ n. saturating_add step n) s.stop_after;
  }

  unfoldable pub start : Scheduler → Scheduler
  unfolding start_at
  start s = start_at s 0

  unfoldable pub seek : Scheduler → ℕ → ℕ → Scheduler
  seek s step unplayed = elim s.stop_at [
    | some end ↦
        let remaining = end - min unplayed s.next_step in
        record s { stop_at = some (saturating_add step remaining); next_step = step }
    | none ↦ record s { next_step = step }
  ]

  unfoldable pub stop : Scheduler → Scheduler
  stop s = record s { playing = false }

  unfoldable pub set_stop_after : Scheduler → Option ℕ → Scheduler
  set_stop_after s steps = record s {
    stop_after = steps;
    stop_at = Option.map (λ n. saturating_add s.next_step n) steps;
  }

  unfoldable pub next_pattern_step : Scheduler → ℕ
  next_pattern_step s = s.next_step % step_count

  module _ (clock : ClockSource fl) where
    unfoldable pub step_sample : Pattern fl → ℕ → ℕ
    step_sample p step =
        to_u64 (max64 (round64 (clock.sample_at_beat (step_beat fl p step))) (lit64 0 1))

    unfoldable pub flam_samples : Pattern fl → ℕ
    flam_samples p = to_u64 (round64 (mul64 (flam_seconds fl p) clock.sample_rate))

    -- The `while` loop: the first step from `step` on that falls at or after `sample`.
    unfoldable pub walk : ℕ → Pattern fl → ℕ → ℕ → Option ℕ
    walk zero p step sample = none
    walk (suc fuel) p step sample = elim (ltb (step_sample p step) sample) [
      | true ↦ walk fuel p (step_after step) sample
      | false ↦ some step
    ]

    unfoldable pub first_step_at_or_after : ℕ → Scheduler → ℕ → Option ℕ
    unfolding walk
    first_step_at_or_after fuel s sample =
        let beat = clock.beat_at_sample (of_u64 sample) in
        let step =
          if leb64 beat (lit64 0 1) then 0 else to_u64 (floor64 (div64 beat (beats_per_step fl))) in
        walk fuel s.pattern (step - 1) sample

    unfoldable pub resync : ℕ → Scheduler → ℕ → Option Scheduler
    unfolding first_step_at_or_after seek
    resync fuel s sample =
        Option.map (λ step. seek s step s.next_step) (first_step_at_or_after fuel s sample)

    unfoldable pub has_flam : Pattern fl → ℕ → List VoiceId → Bool
    has_flam p index [] = false
    has_flam p index (voice ∷ rest) =
        (let track = p.tracks voice in
          let s = get_or track.steps index off in not track.mute && s.on && s.flam)
        || has_flam p index rest

    unfoldable pub step_span : Scheduler → ℕ → ℕ × ℕ
    unfolding has_flam step_sample
    step_span s step =
        let sample = step_sample s.pattern step in
        if has_flam s.pattern (step % step_count) voices
        then (sample - flam_samples s.pattern, sample)
        else (sample, sample)

  module _ (w : ℕ) where
    -- `let _ = out.push(event)`: the reply is not looked at.
    unfoldable pub send : Shared (Event F32) → Event F32 → Option (Shared (Event F32))
    send out event = Option.map (λ r. r.1) (push w out event)

    -- One round of the loop over the voices, with `pushed`.
    unfoldable pub emit_voice :
        Pattern fl → ℕ → ℕ → ℕ → VoiceId → Shared (Event F32) → ℕ → Option (Shared (Event F32) × ℕ)
    unfolding send
    emit_voice p index sample flam voice out pushed =
        let track = p.tracks voice in
        let step = get_or track.steps index off in
        let hit : Event F32 = record {
          sample = sample;
          kind = trigger voice (velocity fl p step);
        } in
        let grace : Event F32 = record {
          sample = sample - flam;
          kind = trigger voice (mul32 (velocity fl p step) (flam_grace_ratio fl));
        } in
        if track.mute
        then some (out, pushed)
        else if step.on
        then if step.flam
          then elim (send out grace) [
            | none ↦ none
            | some out' ↦ Option.map (λ out''. (out'', pushed + 1 + 1)) (send out' hit)
          ]
          else Option.map (λ out'. (out', pushed + 1)) (send out hit)
        else some (out, pushed)

    unfoldable pub emit :
        Pattern fl
        → ℕ
        → ℕ
        → ℕ
        → List VoiceId
        → Shared (Event F32)
        → ℕ
        → Option (Shared (Event F32) × ℕ)
    emit p index sample flam [] out pushed = some (out, pushed)
    emit p index sample flam (voice ∷ rest) out pushed =
        elim (emit_voice p index sample flam voice out pushed) [
          | none ↦ none
          | some (out', pushed') ↦ emit p index sample flam rest out' pushed'
        ]

    abbrev pub ended : Option ℕ → ℕ → Bool
    ended none n = false
    ended (some end) n = leb end n

    unfoldable pub schedule_loop :
        ClockSource fl
        → ℕ
        → Scheduler
        → ℕ
        → Shared (Event F32)
        → ℕ
        → Option (Scheduler × ℕ × Shared (Event F32))
    schedule_loop clock zero s horizon out pushed = none
    schedule_loop clock (suc fuel) s horizon out pushed = elim (ended s.stop_at s.next_step) [
      | true ↦ some (record s { playing = false }, pushed, out)
      | false ↦
          let sample = step_sample clock s.pattern s.next_step in
          elim (leb horizon sample || ltb (vacant w out) (2 * voice_count + flush_reserve)) [
            | true ↦ some (s, pushed, out)
            | false ↦
                elim (emit s.pattern (next_pattern_step s) sample (flam_samples clock s.pattern)
                  voices out pushed) [
                    | none ↦ none
                    | some (out', pushed') ↦
                        schedule_loop clock fuel (record s { next_step = step_after s.next_step })
                          horizon out' pushed'
                  ]
          ]
    ]

    unfoldable pub schedule :
        ClockSource fl
        → ℕ
        → Scheduler
        → ℕ
        → Shared (Event F32)
        → Option (Scheduler × ℕ × Shared (Event F32))
    schedule clock fuel s horizon out =
        if s.playing then schedule_loop clock fuel s horizon out 0 else some (s, 0, out)
