-- ===== src/Sequencer/Pattern.antt =====
-- core/sequencer/src/pattern.rs: voices, steps, tracks and the pattern. A text is the list of its
-- code points. An array indexed by voice is a function of the voice.
pub mod Notation
pub mod Accepted
use Prim.Native.String.{String}
use text.Mathlib.Text.{◌==◌ as str_eq}
use player.Common.{
  ℕ, ◌+◌, ◌%◌, Bool, true, false, ◌&&◌, ◌||◌, Option, none, some, List, [], ◌∷◌, ltb, leb, ◌==◌,
  if◌then◌else◌, get_elem?, set, replicate,
}
use player.Common.Floats.{Floats}
use player.Common.Text.{is_whitespace}

abbrev pub step_count : ℕ
step_count = 16

pub data VoiceId : Type 0 where
  kick snare low_tom mid_tom high_tom rim clap closed_hat open_hat cowbell : VoiceId

abbrev pub voices : List VoiceId
voices =
    kick ∷ snare ∷ low_tom ∷ mid_tom ∷ high_tom ∷ rim ∷ clap ∷ closed_hat ∷ open_hat ∷ cowbell ∷ []

abbrev pub voice_count : ℕ
voice_count = 10

pub index : VoiceId → ℕ
index kick = 0
index snare = 1
index low_tom = 2
index mid_tom = 3
index high_tom = 4
index rim = 5
index clap = 6
index closed_hat = 7
index open_hat = 8
index cowbell = 9

pub from_index : ℕ → Option VoiceId
from_index i = get_elem? voices i

pub name : VoiceId → String
name kick = "kick"
name snare = "snare"
name low_tom = "low_tom"
name mid_tom = "mid_tom"
name high_tom = "high_tom"
name rim = "rim"
name clap = "clap"
name closed_hat = "closed_hat"
name open_hat = "open_hat"
name cowbell = "cowbell"

find_name : String → List VoiceId → Option VoiceId
find_name text [] = none
find_name text (v ∷ vs) = if str_eq (name v) text then some v else find_name text vs

pub from_name : String → Option VoiceId
unfolding find_name name
from_name text = find_name text voices

pub record Step : Type 0 where
  pub on : Bool
  pub accent : Bool
  pub flam : Bool

abbrev pub off : Step
off = record { on = false; accent = false; flam = false }

pub symbol : Step → ℕ
symbol s =
    if s.on
    then if s.accent then if s.flam then b'F' else b'X' else if s.flam then b'f' else b'x'
    else b'-'

unfoldable pub from_symbol : ℕ → Option Step
from_symbol c =
    if c == b'-' || c == b'.'
    then some off
    else if c == b'x'
    then some (record { on = true; accent = false; flam = false })
    else if c == b'X'
    then some (record { on = true; accent = true; flam = false })
    else if c == b'f'
    then some (record { on = true; accent = false; flam = true })
    else if c == b'F'
    then some (record { on = true; accent = true; flam = true })
    else none

-- `steps` is `[Step; 16]`.
pub record Track : Type 0 where
  pub steps : List Step
  pub mute : Bool

pub data PatternParseError : Type 0 where
  wrong_length bad_char : ℕ → PatternParseError

pub data Parsed : Type 0 where
  ok : Track → Parsed
  err : PatternParseError → Parsed

-- The loop of `Track::parse` over the characters, with its variables `steps` and `n`.
pub parse_loop : List ℕ → List Step → ℕ → Parsed
parse_loop [] steps n =
    if n == step_count then ok (record { steps = steps; mute = false }) else err (wrong_length n)
parse_loop (c ∷ cs) steps n = elim (is_whitespace c) [
  | true ↦ parse_loop cs steps n
  | false ↦ elim (from_symbol c) [
    | none ↦ err (bad_char c)
    | some s ↦ parse_loop cs (if ltb n step_count then set steps n s else steps) (n + 1)
  ]
]

unfoldable pub parse : List ℕ → Parsed
unfolding parse_loop
parse notation = parse_loop notation (replicate step_count off) 0

-- The loop of `Track::notation` from step `i` on.
pub notation_from : ℕ → List Step → List ℕ
notation_from i [] = []
notation_from i (s ∷ ss) =
    let rest = notation_from (i + 1) ss in
    if ltb 0 i && i % 4 == 0 then b' ' ∷ symbol s ∷ rest else symbol s ∷ rest

pub notation : Track → List ℕ
unfolding notation_from
notation t = notation_from 0 t.steps

module _ (fl : Floats) where
  open fl use {
    F32, F64, lit32, lit64, add32, sub32, mul32, clamp32, add64, sub64, mul64, div64, of_f32,
    of_u64,
  }

  pub record Pattern : Type 0 where
    pub tracks : VoiceId → Track
    pub shuffle : F32
    pub accent : F32
    pub flam : F32

  abbrev pub beats_per_step : F64
  beats_per_step = lit64 25 100

  abbrev pub max_shuffle_beats : F64
  max_shuffle_beats = div64 beats_per_step (lit64 3 1)

  abbrev pub unaccented_velocity : F32
  unaccented_velocity = lit32 7 10

  abbrev pub flam_grace_ratio : F32
  flam_grace_ratio = lit32 6 10

  unfoldable pub empty : Pattern
  empty = record {
    tracks = λ v. record { steps = replicate step_count off; mute = false };
    shuffle = lit32 0 1;
    accent = lit32 5 10;
    flam = lit32 5 10;
  }

  unfoldable pub flam_seconds : Pattern → F64
  flam_seconds p =
      let lo = lit64 8 1000 in
      let hi = lit64 40 1000 in
      add64 lo (mul64 (sub64 hi lo) (of_f32 (clamp32 p.flam (lit32 0 1) (lit32 1 1))))

  unfoldable pub step_beat : Pattern → ℕ → F64
  step_beat p absolute_step =
      let base = mul64 (of_u64 absolute_step) beats_per_step in
      if absolute_step % 2 == 1
      then add64 base (mul64 (of_f32 (clamp32 p.shuffle (lit32 0 1) (lit32 1 1))) max_shuffle_beats)
      else base

  unfoldable pub velocity : Pattern → Step → F32
  velocity p step =
      if step.accent
      then add32 unaccented_velocity
          (mul32 (sub32 (lit32 1 1) unaccented_velocity) (clamp32 p.accent (lit32 0 1) (lit32 1 1)))
      else unaccented_velocity
