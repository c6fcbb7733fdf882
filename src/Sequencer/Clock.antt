-- ===== src/Sequencer/Clock.antt =====
-- core/sync/src/clock.rs: the tempo source that the scheduler reads, and the clock with the global
-- timing controls applied. `fl` stands for the floating-point numbers.
use player.Common.Floats.{Floats}

module _ (fl : Floats) where
  open fl use {F64, lit64, add64, sub64, mul64, div64}

  -- The required methods of the trait.
  pub record ClockSource : Type 0 where
    pub sample_rate : F64
    pub tempo_bpm : F64
    pub beat_at_sample : F64 → F64
    pub sample_at_beat : F64 → F64

  unfoldable pub samples_per_beat : ClockSource → F64
  samples_per_beat c = div64 (mul64 c.sample_rate (lit64 60 1)) c.tempo_bpm

  pub record ClockControls : Type 0 where
    pub nudge_beats : F64
    pub latency_ms : F64

  unfoldable pub latency_samples : ClockSource → ClockControls → F64
  latency_samples inner controls =
      div64 (mul64 controls.latency_ms inner.sample_rate) (lit64 1000 1)

  -- `AdjustedClock`, as the clock that it is.
  unfoldable pub adjusted : ClockSource → ClockControls → ClockSource
  unfolding latency_samples
  adjusted inner controls = record {
    sample_rate = inner.sample_rate;
    tempo_bpm = inner.tempo_bpm;
    beat_at_sample = λ sample.
        sub64 (inner.beat_at_sample (add64 sample (latency_samples inner controls)))
          controls.nudge_beats;
    sample_at_beat = λ beat.
        sub64 (inner.sample_at_beat (add64 beat controls.nudge_beats))
          (latency_samples inner controls);
  }
