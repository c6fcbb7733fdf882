-- ===== src/Prolink/Updates/Beats/RoundTrip.antt =====
-- What is built for port 50001 is parsed back.
use player.Common.{
  ◌^◌, ◌<◌, ◌≡◌, refl, Bool, true, false, not, Option, none, some, ◌==◌, if◌then◌else◌, replicate,
  ◌||◌, is_some, Bool-cases, inl, inr,
}
use player.Prolink.Packets.{u8_at, is_foreign, check, ok, name_at, beat_len, precise_position_len}
use player.Prolink.Packets.Bytes.{spelled, IsName}
use player.Prolink.Updates.{update_packet}
use player.Prolink.Updates.Header.{update_header_lem, read_name, word16, word32}
use player.Prolink.Updates.Beats.{
  BeatPacket, PrecisePosition, OnAir, Channels, parse_beat, parse_precise_position, parse_on_air,
  build_beat_packet, build_precise_position, build_on_air, channel_byte,
}

-- The words of a beat packet fit their fields.
abbrev pub IsBeat : BeatPacket → Type 0
IsBeat b =
    IsName b.name
    × ((b.next_beat_ms < 2 ^ 32) × (b.second_beat_ms < 2 ^ 32))
    × ((b.next_bar_ms < 2 ^ 32) × (b.fourth_beat_ms < 2 ^ 32))
    × ((b.second_bar_ms < 2 ^ 32) × (b.eighth_beat_ms < 2 ^ 32))
    × ((b.pitch < 2 ^ 32) × (b.bpm_x100 < 2 ^ 16))

-- A beat packet whose name is printable, without spaces around it and of 20 bytes at most, and
-- whose words fit their widths, is read back whole.
pub parse-build_beat_packet : (b : BeatPacket) → IsBeat b → parse_beat (build_beat_packet b) ≡ ok b
unfolding parse_beat build_beat_packet update_packet check is_foreign name_at spelled
parse-build_beat_packet b (n, (next, second), (bar, fourth), (bar2, eighth), (pitch, bpm)) =
    rw (update_header_lem 0x28 b.name 0x01 0x00 b.device beat_len (replicate 60 0)) (λ i.
      ok (record b {
        name = read_name b.name n i;
        next_beat_ms = word32 b.next_beat_ms next i;
        second_beat_ms = word32 b.second_beat_ms second i;
        next_bar_ms = word32 b.next_bar_ms bar i;
        fourth_beat_ms = word32 b.fourth_beat_ms fourth i;
        second_bar_ms = word32 b.second_bar_ms bar2 i;
        eighth_beat_ms = word32 b.eighth_beat_ms eighth i;
        pitch = word32 b.pitch pitch i;
        bpm_x100 = word16 b.bpm_x100 bpm i;
      }))

-- The words of a precise position fit their fields.
abbrev pub IsPosition : PrecisePosition → Type 0
IsPosition p =
    IsName p.name
    × ((p.track_length_s < 2 ^ 32) × (p.playhead_ms < 2 ^ 32))
    × ((p.pitch_x100 < 2 ^ 32) × (p.bpm_x10 < 2 ^ 32))

-- A precise position whose name is printable, without spaces around it and of 20 bytes at most,
-- and whose words fit 32 bits, is read back whole.
pub parse-build_precise_position :
    (p : PrecisePosition) → IsPosition p → parse_precise_position (build_precise_position p) ≡ ok p
unfolding parse_precise_position build_precise_position update_packet check is_foreign name_at
    spelled
parse-build_precise_position p (n, (long, head), (pitch, bpm)) =
    rw (update_header_lem 0x0b p.name 0x02 0x00 p.device precise_position_len (replicate 24 0))
      (λ i. ok (record p {
        name = read_name p.name n i;
        track_length_s = word32 p.track_length_s long i;
        playhead_ms = word32 p.playhead_ms head i;
        pitch_x100 = word32 p.pitch_x100 pitch i;
        bpm_x10 = word32 p.bpm_x10 bpm i;
      }))

-- A channel that is not known counts as off on the wire.
abbrev on_wire : Option Bool → Option Bool
on_wire (some true) = some true
on_wire _ = some false

read_channel : (c : Option Bool) → some (not (channel_byte c == 0)) ≡ on_wire c
read_channel none = refl
read_channel (some true) = refl
read_channel (some false) = refl

abbrev pub wired : Channels → Channels
wired c =
    let six = is_some c.c5 || is_some c.c6 in
    record {
      c1 = on_wire c.c1;
      c2 = on_wire c.c2;
      c3 = on_wire c.c3;
      c4 = on_wire c.c4;
      c5 = if six then on_wire c.c5 else none;
      c6 = if six then on_wire c.c6 else none;
    }

-- Channels on air, whose name is printable, without spaces around it and of 20 bytes at most, are
-- read back with a channel that is not known as one that is off; the channels 5 and 6 are read
-- as unknown exactly when neither of them was known.
pub parse-build_on_air :
    (o : OnAir)
    → IsName o.name
    → parse_on_air (build_on_air o) ≡ ok (record o { channels = wired o.channels })
unfolding parse_on_air build_on_air update_packet check is_foreign name_at spelled u8_at
parse-build_on_air o n = elim (Bool-cases (is_some o.channels.c5 || is_some o.channels.c6)) [
  | inl six ↦
      rw (six, build_on_air)
        (rw (update_header_lem 0x03 o.name 0x01 0x03 o.device 0x35 (replicate 17 0)) (λ i.
          ok (record o {
            name = read_name o.name n i;
            channels = record {
              c1 = read_channel o.channels.c1 i;
              c2 = read_channel o.channels.c2 i;
              c3 = read_channel o.channels.c3 i;
              c4 = read_channel o.channels.c4 i;
              c5 = read_channel o.channels.c5 i;
              c6 = read_channel o.channels.c6 i;
            };
          })))
  | inr four ↦
      rw (four, build_on_air)
        (rw (update_header_lem 0x03 o.name 0x01 0x02 o.device 0x2d (replicate 9 0)) (λ i.
          ok (record o {
            name = read_name o.name n i;
            channels = record {
              c1 = read_channel o.channels.c1 i;
              c2 = read_channel o.channels.c2 i;
              c3 = read_channel o.channels.c3 i;
              c4 = read_channel o.channels.c4 i;
              c5 = none;
              c6 = none;
            };
          })))
]
