-- ===== src/Prolink/Updates/Beats.antt =====
-- core/sync/src/prolink/packets.rs, port 50001: beats, precise position, channels on air.
pub mod RoundTrip
use player.Common.{
  ℕ, ◌+◌, ◌-◌, ◌%◌, ◌^◌, Bool, true, false, not, ◌&&◌, ◌||◌, Option, none, some, List, [], ◌∷◌, leb,
  ◌==◌, if◌then◌else◌, length, set, replicate, is_some,
}
use player.Common.Floats.{Floats}
use player.Prolink.Packets.{
  u8_at, be16, be32, name_at, check, Result, ok, err, ◌>>=◌, ◌>>◌, put16, put32, beat_len,
  precise_position_len,
}
use player.Prolink.Announce.{copy_at}
use player.Prolink.Updates.{neutral_pitch, effective, pitch_to_percent, update_packet}

pub record BeatPacket : Type 0 where
  pub device : ℕ
  pub name : List ℕ
  pub next_beat_ms : ℕ
  pub second_beat_ms : ℕ
  pub next_bar_ms : ℕ
  pub fourth_beat_ms : ℕ
  pub second_bar_ms : ℕ
  pub eighth_beat_ms : ℕ
  pub pitch : ℕ
  pub bpm_x100 : ℕ
  pub beat_within_bar : ℕ

unfoldable pub parse_beat : List ℕ → Result BeatPacket
unfolding be16 be32
parse_beat packet = do
  check packet 0x28 beat_len
  ok (record {
    device = u8_at packet 0x21;
    name = name_at packet 0x0b;
    next_beat_ms = be32 packet 0x24;
    second_beat_ms = be32 packet 0x28;
    next_bar_ms = be32 packet 0x2c;
    fourth_beat_ms = be32 packet 0x30;
    second_bar_ms = be32 packet 0x34;
    eighth_beat_ms = be32 packet 0x38;
    pitch = be32 packet 0x54;
    bpm_x100 = be16 packet 0x5a;
    beat_within_bar = u8_at packet 0x5c;
  })

-- `pitch_x100` is the bit pattern of the `i32`.
pub record PrecisePosition : Type 0 where
  pub device : ℕ
  pub name : List ℕ
  pub track_length_s : ℕ
  pub playhead_ms : ℕ
  pub pitch_x100 : ℕ
  pub bpm_x10 : ℕ

unfoldable pub parse_precise_position : List ℕ → Result PrecisePosition
unfolding be16 be32
parse_precise_position packet = do
  check packet 0x0b precise_position_len
  ok (record {
    device = u8_at packet 0x21;
    name = name_at packet 0x0b;
    track_length_s = be32 packet 0x24;
    playhead_ms = be32 packet 0x28;
    pitch_x100 = be32 packet 0x2c;
    bpm_x10 = be32 packet 0x38;
  })

-- `[Option<bool>; 6]`.
pub record Channels : Type 0 where
  pub c1 : Option Bool
  pub c2 : Option Bool
  pub c3 : Option Bool
  pub c4 : Option Bool
  pub c5 : Option Bool
  pub c6 : Option Bool

pub record OnAir : Type 0 where
  pub device : ℕ
  pub name : List ℕ
  pub channels : Channels

abbrev flag_at : List ℕ → ℕ → Option Bool
flag_at packet at = some (not (u8_at packet at == 0))

unfoldable pub parse_on_air : List ℕ → Result OnAir
parse_on_air packet = do
  check packet 0x03 0x28
  ok (record {
    device = u8_at packet 0x21;
    name = name_at packet 0x0b;
    channels = record {
      c1 = flag_at packet 0x24;
      c2 = flag_at packet 0x25;
      c3 = flag_at packet 0x26;
      c4 = flag_at packet 0x27;
      c5 = if leb 0x35 (length packet) then flag_at packet 0x2d else none;
      c6 = if leb 0x35 (length packet) then flag_at packet 0x2e else none;
    };
  })

unfoldable pub build_beat_packet : BeatPacket → List ℕ
unfolding copy_at put16 put32
build_beat_packet b =
    let p = update_packet 0x28 b.name 0x01 0x00 b.device beat_len in
    let beats = put32 (put32 p 0x24 b.next_beat_ms) 0x28 b.second_beat_ms in
    let bars = put32 (put32 beats 0x2c b.next_bar_ms) 0x30 b.fourth_beat_ms in
    let times = put32 (put32 bars 0x34 b.second_bar_ms) 0x38 b.eighth_beat_ms in
    let pitched = put32 (copy_at times 0x3c (replicate 24 0xff)) 0x54 b.pitch in
    set (set (put16 pitched 0x5a b.bpm_x100) 0x5c b.beat_within_bar) 0x5f b.device

unfoldable pub build_precise_position : PrecisePosition → List ℕ
unfolding put32
build_precise_position pp =
    let p = update_packet 0x0b pp.name 0x02 0x00 pp.device precise_position_len in
    let placed = put32 (put32 p 0x24 pp.track_length_s) 0x28 pp.playhead_ms in
    put32 (put32 placed 0x2c pp.pitch_x100) 0x38 pp.bpm_x10

-- `u8::from(channel == Some(true))`.
abbrev pub channel_byte : Option Bool → ℕ
channel_byte (some true) = 1
channel_byte _ = 0

abbrev pub channel_bytes : Channels → List ℕ
channel_bytes c = channel_byte c.c1 ∷ channel_byte c.c2 ∷ channel_byte c.c3 ∷ channel_byte c.c4 ∷ []

unfoldable pub build_on_air : OnAir → List ℕ
unfolding copy_at
build_on_air o =
    let c = o.channels in
    if is_some c.c5 || is_some c.c6
    then copy_at
        (copy_at (update_packet 0x03 o.name 0x01 0x03 o.device 0x35) 0x24 (channel_bytes c)) 0x2d
        (channel_byte c.c5 ∷ channel_byte c.c6 ∷ [])
    else copy_at (update_packet 0x03 o.name 0x01 0x02 o.device 0x2d) 0x24 (channel_bytes c)

module _ (fl : Floats) where
  unfoldable pub beat_track_bpm : BeatPacket → Option fl.F64
  beat_track_bpm b = effective fl b.bpm_x100 neutral_pitch

  unfoldable pub beat_effective_bpm : BeatPacket → Option fl.F64
  beat_effective_bpm b = effective fl b.bpm_x100 b.pitch

  unfoldable pub beat_pitch_percent : BeatPacket → fl.F64
  beat_pitch_percent b = pitch_to_percent fl b.pitch

  unfoldable pub position_effective_bpm : PrecisePosition → Option fl.F64
  position_effective_bpm p =
      if not (p.bpm_x10 == 0xffff_ffff) && not (p.bpm_x10 == 0)
      then some (fl.div64 (fl.of_u64 p.bpm_x10) (fl.lit64 10 1))
      else none
