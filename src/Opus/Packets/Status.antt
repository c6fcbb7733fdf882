-- ===== src/Opus/Packets/Status.antt =====
-- core/sync/src/opus/packets.rs: the status of a deck, the lighting hello, and the packets of each port.
use player.Common.{
  ℕ, ◌-◌, bit_and, Bool, not, ◌&&◌, ◌||◌, Option, none, some, List, leb, ◌==◌, if◌then◌else◌,
  length,
}
use player.Common.Floats.{Floats}
use player.Common.Text.{list_eq}
use player.Opus.Packets.{
  opus_name, keep_alive_kind, status_kind, lighting_hello_kind, lighting_hello_min_len,
  status_min_len, status_flags_min_len, Result, err, ok, u8_at, slice, packet_kind, expect,
  read_name, be16, be32, KeepAlive, parse_keep_alive,
}

pub record DeckStatus : Type 0 where
  pub name : List ℕ
  pub device : ℕ
  pub len : ℕ
  pub track_id : ℕ
  pub play_state_1 : ℕ
  pub flags : ℕ
  pub play_state_2 : ℕ
  pub pitch : ℕ
  pub track_bpm_x100 : ℕ
  pub master_meaningful : ℕ
  pub beat : ℕ
  pub bar_beat : ℕ

unfoldable pub read : List ℕ → DeckStatus
unfolding read_name be16 be32
read bytes = record {
  name = read_name (slice bytes 0x0b 20);
  device = u8_at bytes 0x21;
  len = length bytes;
  track_id = be32 bytes 0x2c;
  play_state_1 = u8_at bytes 0x7b;
  flags = u8_at bytes 0x89;
  play_state_2 = u8_at bytes 0x8b;
  pitch = bit_and (be32 bytes 0x8c) 0x00ff_ffff;
  track_bpm_x100 = be16 bytes 0x92;
  master_meaningful = u8_at bytes 0x9e;
  beat = be32 bytes 0xa0;
  bar_beat = u8_at bytes 0xa6;
}

unfoldable pub parse_status : List ℕ → Result DeckStatus
unfolding expect read
parse_status bytes = elim (expect bytes status_kind status_min_len) [
  | err problem ↦ err problem
  | ok done ↦ ok (read bytes)
]

unfoldable pub opus_deck : ℕ → Option ℕ
opus_deck device =
    if leb 1 device && leb device 4
    then some device
    else if leb 9 device && leb device 12
    then some (device - 8)
    else none

unfoldable pub is_opus : DeckStatus → Bool
is_opus self = list_eq self.name opus_name

unfoldable pub deck : DeckStatus → Option ℕ
unfolding is_opus opus_deck
deck self = if is_opus self then opus_deck self.device else none

unfoldable pub beat_number : DeckStatus → Option ℕ
beat_number self = if not (self.beat == 0xffff_ffff) then some self.beat else none

unfoldable pub beat_within_bar : DeckStatus → Option ℕ
beat_within_bar self =
    if leb 1 self.bar_beat && leb self.bar_beat 4 then some self.bar_beat else none

unfoldable pub p2_moving : DeckStatus → Bool
p2_moving self =
    self.play_state_2 == 0x6a
    || self.play_state_2 == 0x7a
    || self.play_state_2 == 0x9a
    || self.play_state_2 == 0xfa

unfoldable pub is_playing : DeckStatus → Bool
unfolding p2_moving
is_playing self =
    if leb status_flags_min_len self.len
    then not (bit_and self.flags 0x40 == 0) || p2_moving self
    else (self.play_state_1 == 0x03 || self.play_state_1 == 0x04)
      || (self.play_state_1 == 0x09 && p2_moving self)

unfoldable pub is_master : DeckStatus → Bool
is_master self = not (bit_and self.flags 0x20 == 0)

unfoldable pub is_synced : DeckStatus → Bool
is_synced self = not (bit_and self.flags 0x10 == 0)

unfoldable pub is_on_air : DeckStatus → Bool
is_on_air self = not (bit_and self.flags 0x08 == 0)

module _ (fl : Floats) where
  unfoldable pub track_bpm : DeckStatus → Option fl.F64
  track_bpm self =
      if self.track_bpm_x100 == 0 || self.track_bpm_x100 == 0xffff
      then none
      else some (fl.div64 (fl.of_u64 self.track_bpm_x100) (fl.lit64 100 1))

  unfoldable pub pitch_multiplier : DeckStatus → fl.F64
  pitch_multiplier self = fl.div64 (fl.of_u64 self.pitch) (fl.of_u64 0x10_0000)

  unfoldable pub effective_bpm : DeckStatus → Option fl.F64
  unfolding track_bpm pitch_multiplier
  effective_bpm self = elim (track_bpm self) [
    | none ↦ none
    | some track ↦
        let bpm = fl.mul64 track (pitch_multiplier self) in
        if fl.is_finite64 bpm && fl.ltb64 (fl.lit64 0 1) bpm then some bpm else none
  ]

pub record LightingHello : Type 0 where
  pub name : List ℕ
  pub device : ℕ
  pub status : Option DeckStatus

unfoldable pub parse_hello : List ℕ → Result LightingHello
unfolding expect read read_name
parse_hello bytes = elim (expect bytes lighting_hello_kind lighting_hello_min_len) [
  | err problem ↦ err problem
  | ok done ↦ ok (record {
    name = read_name (slice bytes 0x0b 20);
    device = u8_at bytes 0x21;
    status = if leb status_min_len (length bytes) then some (read bytes) else none;
  })
]

pub data AnnouncePacket : Type 0 where
  keep_alive : KeepAlive → AnnouncePacket
  other : ℕ → AnnouncePacket

unfoldable pub parse_announce : List ℕ → Result AnnouncePacket
unfolding packet_kind parse_keep_alive
parse_announce bytes = elim (packet_kind bytes) [
  | err problem ↦ err problem
  | ok kind ↦
      if kind == keep_alive_kind
      then elim (parse_keep_alive bytes) [
        | err problem ↦ err problem
        | ok packet ↦ ok (keep_alive packet)
      ]
      else ok (AnnouncePacket.other kind)
]

pub data UpdatePacket : Type 0 where
  status : DeckStatus → UpdatePacket
  hello : LightingHello → UpdatePacket
  other : ℕ → UpdatePacket

unfoldable pub parse_update : List ℕ → Result UpdatePacket
unfolding packet_kind parse_status parse_hello
parse_update bytes = elim (packet_kind bytes) [
  | err problem ↦ err problem
  | ok kind ↦
      if kind == status_kind
      then elim (parse_status bytes) [
        | err problem ↦ err problem
        | ok packet ↦ ok (UpdatePacket.status packet)
      ]
      else if kind == lighting_hello_kind
      then elim (parse_hello bytes) [ err problem ↦ err problem | ok packet ↦ ok (hello packet) ]
      else ok (UpdatePacket.other kind)
]
