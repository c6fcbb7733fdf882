-- ===== src/Sequencer/Event.antt =====
-- core/sequencer/src/event.rs: what crosses from the control thread to the render thread. `V` is
-- the type of velocities and parameter values, `f32` in the source.
use player.Common.{ℕ}
use player.Sequencer.Pattern.{VoiceId}

pub data VoiceParam : Type 0 where
  tune decay level snappy tone : VoiceParam

pub data MasterParam : Type 0 where
  output_gain limiter : MasterParam

pub data ParamTarget : Type 0 where
  voice : VoiceId → VoiceParam → ParamTarget
  master : MasterParam → ParamTarget

pub data EventKind (V : Type 0) : Type 0 where
  trigger : VoiceId → V → EventKind V
  param : ParamTarget → V → EventKind V
  flush : EventKind V

pub record Event (V : Type 0) : Type 0 where
  pub sample : ℕ
  pub kind : EventKind V
