-- ===== src/Prolink/Updates/Status.antt =====
-- core/sync/src/prolink/packets.rs, port 50002: the status of players and mixers.
pub mod RoundTrip
use player.Common.{
  ℕ, ◌+◌, ◌-◌, ◌%◌, ◌^◌, min, max, bit_and, Bool, true, false, not, ◌&&◌, ◌||◌, Option, none, some,
  List, [], ◌∷◌, map, leb, ◌==◌, if◌then◌else◌, length, set, take, drop, replicate,
}
use player.Common.Text.{is_ascii_graphic, take_while}
use player.Common.Floats.{Floats}
use player.Prolink.Packets.{
  u8_at, be16, be32, name_at, check, Result, ok, err, ◌>>=◌, ◌>>◌, put16, put32, cdj_status_min_len,
  cdj_status_nexus_len, mixer_status_len,
}
use player.Prolink.Announce.{copy_at}
use player.Prolink.Updates.{neutral_pitch, effective, update_packet}

abbrev pub flag_playing : ℕ
flag_playing = 0x40

abbrev pub flag_master : ℕ
flag_master = 0x20

abbrev pub flag_synced : ℕ
flag_synced = 0x10

abbrev pub flag_on_air : ℕ
flag_on_air = 0x08

pub record CdjStatus : Type 0 where
  pub device : ℕ
  pub name : List ℕ
  pub packet_len : ℕ
  pub activity : ℕ
  pub track_type : ℕ
  pub play_state : ℕ
  pub firmware : List ℕ
  pub flags : ℕ
  pub play_state_2 : ℕ
  pub pitch : ℕ
  pub bpm_x100 : ℕ
  pub master_handoff : ℕ
  pub beat : ℕ
  pub beat_within_bar : ℕ

-- `flags & flag != 0`.
unfoldable pub has_flag : ℕ → ℕ → Bool
has_flag flags flag = not (bit_and flags flag == 0)

unfoldable pub playing : CdjStatus → Bool
unfolding has_flag
playing s =
    if leb cdj_status_nexus_len s.packet_len
    then has_flag s.flags flag_playing
    else let moving =
        s.play_state_2 == 0x6a
        || s.play_state_2 == 0x7a
        || s.play_state_2 == 0x9a
        || s.play_state_2 == 0xfa in
      (s.play_state == 3 || s.play_state == 4) || (s.play_state == 9 && moving)

unfoldable pub cdj_master : CdjStatus → Bool
unfolding has_flag
cdj_master s = has_flag s.flags flag_master

unfoldable pub synced : CdjStatus → Bool
unfolding has_flag
synced s = has_flag s.flags flag_synced

unfoldable pub on_air : CdjStatus → Bool
unfolding has_flag
on_air s = has_flag s.flags flag_on_air

unfoldable pub beat_number : CdjStatus → Option ℕ
beat_number s = if s.beat == 0xffff_ffff then none else some s.beat

-- `(h != 0xff && h != 0).then_some(h)`.
unfoldable pub handoff_to : ℕ → Option ℕ
handoff_to h = if not (h == 0xff) && not (h == 0) then some h else none

unfoldable pub master_handoff_to : CdjStatus → Option ℕ
unfolding handoff_to
master_handoff_to s = handoff_to s.master_handoff

-- What is shown of the firmware's four bytes.
unfoldable pub firmware_shown : List ℕ → List ℕ
unfolding take_while
firmware_shown bytes =
    map (λ b. if is_ascii_graphic b then b else b'?') (take_while (λ b. not (b == 0)) bytes)

unfoldable pub parse_cdj_status : List ℕ → Result CdjStatus
unfolding be16 be32
parse_cdj_status packet = do
  check packet 0x0a cdj_status_min_len
  ok (record {
    device = u8_at packet 0x21;
    name = name_at packet 0x0b;
    packet_len = length packet;
    activity = u8_at packet 0x27;
    track_type = u8_at packet 0x2a;
    play_state = u8_at packet 0x7b;
    firmware = firmware_shown (take 4 (drop 0x7c packet));
    flags = u8_at packet 0x89;
    play_state_2 = u8_at packet 0x8b;
    pitch = be32 packet 0x8c;
    bpm_x100 = be16 packet 0x92;
    master_handoff = u8_at packet 0x9f;
    beat = be32 packet 0xa0;
    beat_within_bar = u8_at packet 0xa6;
  })

pub record MixerStatus : Type 0 where
  pub device : ℕ
  pub name : List ℕ
  pub flags : ℕ
  pub pitch : ℕ
  pub bpm_x100 : ℕ
  pub master_handoff : ℕ
  pub beat_within_bar : ℕ

unfoldable pub mixer_master : MixerStatus → Bool
unfolding has_flag
mixer_master m = has_flag m.flags flag_master

unfoldable pub parse_mixer_status : List ℕ → Result MixerStatus
unfolding be16 be32
parse_mixer_status packet = do
  check packet 0x29 mixer_status_len
  ok (record {
    device = u8_at packet 0x21;
    name = name_at packet 0x0b;
    flags = u8_at packet 0x27;
    pitch = be32 packet 0x28;
    bpm_x100 = be16 packet 0x2e;
    master_handoff = u8_at packet 0x36;
    beat_within_bar = u8_at packet 0x37;
  })

module _ (fl : Floats) where
  unfoldable pub cdj_track_bpm : CdjStatus → Option fl.F64
  cdj_track_bpm s = effective fl s.bpm_x100 neutral_pitch

  unfoldable pub cdj_effective_bpm : CdjStatus → Option fl.F64
  cdj_effective_bpm s = effective fl s.bpm_x100 s.pitch

  unfoldable pub mixer_effective_bpm : MixerStatus → Option fl.F64
  mixer_effective_bpm m = effective fl m.bpm_x100 m.pitch

abbrev pub cdj_status_build_min_len : ℕ
cdj_status_build_min_len = 0xd0

-- `x.clamp(0xd0, 0x400)`.
abbrev pub built_len : ℕ → ℕ
built_len n = min (max n cdj_status_build_min_len) 0x400

-- What `build_cdj_status` writes over the packet with its header: the part before the firmware, then
-- the firmware and the rest.
unfoldable pub put_track : List ℕ → CdjStatus → List ℕ
put_track p s =
    let loaded = not (s.bpm_x100 == 0xffff) in
    let active = set (set (set p 0x24 s.device) 0x26 0x01) 0x27 s.activity in
    let source =
      set (set active 0x28 (if loaded then s.device else 0)) 0x29 (if loaded then 0x03 else 0) in
    set (set (set (set source 0x2a s.track_type) 0x6f 0x04) 0x73 0x04) 0x7b s.play_state

unfoldable pub put_state : List ℕ → CdjStatus → List ℕ
unfolding put16 put32
put_state p s =
    let loaded = not (s.bpm_x100 == 0xffff) in
    let moving = if playing s then s.pitch else 0 in
    let states = set (set (set p 0x89 s.flags) 0x8a 0xff) 0x8b s.play_state_2 in
    let pitched = put16 (put32 states 0x8c s.pitch) 0x90 (if loaded then 0x8000 else 0x7fff) in
    let tempo = put16 (put16 (put16 pitched 0x92 s.bpm_x100) 0x94 0x7fff) 0x96 0xffff in
    let mode = set (put32 tempo 0x98 moving) 0x9d (if playing s then 0x0d else 0x01) in
    let master = set (set mode 0x9e (if cdj_master s then 1 else 0)) 0x9f s.master_handoff in
    let beats = set (put16 (put32 master 0xa0 s.beat) 0xa4 0x01ff) 0xa6 s.beat_within_bar in
    set (put32 (put32 (set beats 0xb6 0x01) 0xc0 s.pitch) 0xc4 moving) 0xcc 0x1f

unfoldable pub build_cdj_status : CdjStatus → List ℕ
unfolding put_track put_state copy_at
build_cdj_status s =
    let p = update_packet 0x0a s.name 0x01 0x03 s.device (built_len s.packet_len) in
    put_state (copy_at (put_track p s) 0x7c (take 4 s.firmware)) s

unfoldable pub build_mixer_status : MixerStatus → List ℕ
unfolding put16 put32
build_mixer_status m =
    let p = update_packet 0x29 m.name 0x01 0x00 m.device mixer_status_len in
    let pitched = put32 (set (set p 0x24 m.device) 0x27 m.flags) 0x28 m.pitch in
    let tempo = put32 (put16 (set pitched 0x2c 0x80) 0x2e m.bpm_x100) 0x30 neutral_pitch in
    set (set (set tempo 0x35 0x09) 0x36 m.master_handoff) 0x37 m.beat_within_bar
