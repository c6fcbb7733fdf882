-- ===== src/Engine/Renderer.antt =====
-- core/engine/src/renderer.rs: the audio callback. The voices and the master section (core/dsp) are
-- an interface of this file; the consumer is the list of events that its `pop` calls return, oldest
-- first, until new ones are pushed. `V` is the type of velocities and values, `A` of samples.
pub mod Sorted
pub mod Blocks
pub mod Pending
use mathlib.Core.List.{reverse}
use player.Common.{
  ℕ, zero, suc, ◌+◌, Bool, true, false, not, ◌&&◌, List, [], ◌∷◌, ◌++◌, ltb, leb, if◌then◌else◌,
  length,
}
use player.Sequencer.Pattern.{VoiceId}
use player.Sequencer.Event.{
  Event, EventKind, trigger, param, flush, ParamTarget, voice, master, MasterParam, output_gain,
  limiter, VoiceParam,
}

abbrev pub pending_capacity : ℕ
pending_capacity = 256

-- core/dsp: what the renderer calls of `Kit` and `Master`, both of which are `State`. `is_on` is the
-- test `value > 0.5`.
pub data Param : Type 0 where
  tune decay tone snappy level : Param

pub record Dsp (V A : Type 0) : Type 1 where
  pub State : Type 0
  pub kit_trigger : VoiceId → V → State → State
  pub kit_set_param : VoiceId → Param → V → State → State
  pub set_output_gain : V → State → State
  pub set_limiter_enabled : Bool → State → State
  pub is_on : V → Bool
  pub kit_process : State → A × State
  pub master_process : A → State → A × State

unfoldable pub dsp_param : VoiceParam → Param
dsp_param VoiceParam.tune = tune
dsp_param VoiceParam.decay = decay
dsp_param VoiceParam.level = level
dsp_param VoiceParam.snappy = snappy
dsp_param VoiceParam.tone = tone

module _ {V : Type 0} where
  abbrev is_trigger : EventKind V → Bool
  is_trigger (trigger v velocity) = true
  is_trigger _ = false

  -- The scan of the insertion: `front` is what lies before the gap, the last event first, and `back`
  -- what was moved behind it.
  unfoldable pub insert_back : List (Event V) → Event V → List (Event V) → List (Event V)
  insert_back [] event back = event ∷ back
  insert_back (e ∷ front) event back =
      if ltb event.sample e.sample
      then insert_back front event (e ∷ back)
      else reverse (e ∷ front) ++ event ∷ back

  unfoldable pub insert : List (Event V) → Event V → List (Event V)
  unfolding insert_back
  insert pending event = insert_back (reverse pending) event []

  unfoldable pub flush_from : ℕ → List (Event V) → List (Event V)
  flush_from sample [] = []
  flush_from sample (e ∷ pending) =
      let kept = flush_from sample pending in
      if is_trigger e.kind && leb sample e.sample then kept else e ∷ kept

  -- What one event of the queue does to the pending ones.
  unfoldable pub pull : EventKind V → Event V → List (Event V) → List (Event V)
  unfolding insert flush_from
  pull flush event pending = flush_from event.sample pending
  pull kind event pending = insert pending event

  -- The events left in the queue, and the pending ones.
  unfoldable pub pull_events : List (Event V) → List (Event V) → List (Event V) × List (Event V)
  unfolding pull
  pull_events [] pending = ([], pending)
  pull_events (event ∷ queued) pending = elim (ltb (length pending) pending_capacity) [
    | false ↦ (event ∷ queued, pending)
    | true ↦ pull_events queued (pull event.kind event pending)
  ]

module _ {V A : Type 0} (dsp : Dsp V A) where
  pub record Renderer : Type 0 where
    pub position : ℕ
    pub queued : List (Event V)
    pub pending : List (Event V)
    pub voices : dsp.State
    -- The position and the host time last published.
    pub timing : ℕ × ℕ

  unfoldable pub apply : EventKind V → dsp.State → dsp.State
  unfolding dsp_param
  apply (trigger v velocity) state = dsp.kit_trigger v velocity state
  apply (param (voice v p) value) state = dsp.kit_set_param v (dsp_param p) value state
  apply (param (master output_gain) value) state = dsp.set_output_gain value state
  apply (param (master limiter) value) state = dsp.set_limiter_enabled (dsp.is_on value) state
  apply flush state = state

  -- The pending events that are left, and the voices after the due ones.
  unfoldable pub apply_due_events : ℕ → List (Event V) → dsp.State → List (Event V) × dsp.State
  unfolding apply
  apply_due_events now [] state = ([], state)
  apply_due_events now (event ∷ pending) state = elim (leb event.sample now) [
    | false ↦ (event ∷ pending, state)
    | true ↦ apply_due_events now pending (apply event.kind state)
  ]

  -- One sample: the due events, then the voices and the master section.
  unfoldable pub render_sample : ℕ → List (Event V) → dsp.State → A × List (Event V) × dsp.State
  unfolding apply_due_events
  render_sample now pending state =
      let (left, due) = apply_due_events now pending state in
      let (mix, mixed) = dsp.kit_process due in
      let (sample, next) = dsp.master_process mix mixed in (sample, left, next)

  -- The loop over the samples of a block, `count` of them from `now` on.
  unfoldable pub render : ℕ → ℕ → List (Event V) → dsp.State → List A × List (Event V) × dsp.State
  unfolding render_sample
  render zero now pending state = ([], pending, state)
  render (suc count) now pending state =
      let (sample, left, next) = render_sample now pending state in
      let (out, rest, last) = render count (now + 1) left next in (sample ∷ out, rest, last)

  unfoldable pub process_at : ℕ → ℕ → Renderer → List A × Renderer
  unfolding pull_events render
  process_at count host_ticks self =
      let (queued, pending) = pull_events self.queued self.pending in
      let (out, left, voices) = render count self.position pending self.voices in
      (
        out,
        record {
          position = self.position + count;
          queued = queued;
          pending = left;
          voices = voices;
          timing = (self.position, host_ticks);
        },
      )
