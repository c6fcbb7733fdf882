-- ===== src/Prolink/Updates.antt =====
-- core/sync/src/prolink/packets.rs: what the packets of the ports 50001 and 50002 share, their
-- header, and tempo and pitch. `u32` and `u16` values are numbers below 2^32 and 2^16.
pub mod Header
pub mod Beats
pub mod Status
use player.Common.{
  ℕ, ◌-◌, ◌*◌, ◌%◌, ◌^◌, Bool, true, false, ◌&&◌, ◌||◌, Option, none, some, List, ◌==◌,
  if◌then◌else◌, set, replicate,
}
use player.Common.Floats.{Floats}
use player.Prolink.Packets.{magic, put_name, put16}
use player.Prolink.Announce.{copy_at}

abbrev pub neutral_pitch : ℕ
neutral_pitch = 0x0010_0000

module _ (fl : Floats) where
  unfoldable pub pitch_to_multiplier : ℕ → fl.F64
  pitch_to_multiplier raw = fl.div64 (fl.of_u64 raw) (fl.of_u64 neutral_pitch)

  unfoldable pub pitch_to_percent : ℕ → fl.F64
  pitch_to_percent raw =
      fl.mul64 (fl.sub64 (pitch_to_multiplier raw) (fl.lit64 1 1)) (fl.lit64 100 1)

  unfoldable pub percent_to_pitch : fl.F64 → ℕ
  percent_to_pitch percent =
      let raw =
        fl.mul64 (fl.add64 (fl.lit64 1 1) (fl.div64 percent (fl.lit64 100 1)))
          (fl.of_u64 neutral_pitch) in
      if fl.is_finite64 raw
      then fl.to_u64 (fl.clamp64 (fl.round64 raw) (fl.lit64 0 1) (fl.of_u64 (2 * neutral_pitch)))
      else neutral_pitch

  -- The tempo of a track at a pitch; 0xffff and 0 stand for an unknown one.
  unfoldable pub effective : ℕ → ℕ → Option fl.F64
  effective bpm_x100 pitch =
      let bpm =
        fl.mul64 (fl.div64 (fl.of_u64 bpm_x100) (fl.lit64 100 1)) (pitch_to_multiplier pitch) in
      if bpm_x100 == 0xffff || bpm_x100 == 0
      then none
      else if fl.is_finite64 bpm && fl.ltb64 (fl.lit64 0 1) bpm
      then some bpm
      else none

-- `update_packet` over the buffer of zeros that it allocates.
unfoldable pub update_header : List ℕ → ℕ → List ℕ → ℕ → ℕ → ℕ → ℕ → List ℕ
update_header zeros kind name b1f subtype device len =
    let head = set (copy_at zeros 0 magic) 0x0a kind in
    let named = put_name head 0x0b name in
    put16 (set (set (set named 0x1f b1f) 0x20 subtype) 0x21 device) 0x22 ((len - 0x24) % 2 ^ 16)

unfoldable pub update_packet : ℕ → List ℕ → ℕ → ℕ → ℕ → ℕ → List ℕ
update_packet kind name b1f subtype device len =
    update_header (replicate len 0) kind name b1f subtype device len
