-- ===== src/Prolink/Devices/History.antt =====
-- Any sequence of calls of the device table.
use player.Common.{List, [], ◌∷◌}
use player.Common.Floats.{Floats}
use player.Prolink.Devices.{
  DeviceTable, keep_alive, beat, cdj_status, mixer_status, precise_position, note_on_air, expire,
}
use player.Prolink.Devices.Contacts.{
  Call, alive, beaten, cdj, mixer, position, channels, expired_at,
}

module _ (fl : Floats) where
  open fl use {F64}

  unfoldable pub step : DeviceTable F64 → Call → DeviceTable F64
  step t (alive k from now) = keep_alive t k from now
  step t (beaten b from now) = beat fl t b from now
  step t (cdj s from now) = cdj_status fl t s from now
  step t (mixer m from now) = mixer_status fl t m from now
  step t (position p from now) = precise_position fl t p from now
  step t (channels o) = note_on_air t o
  step t (expired_at now) = (expire t now).0

  unfoldable pub run : DeviceTable F64 → List Call → DeviceTable F64
  unfolding step
  run t [] = t
  run t (call ∷ calls) = run (step t call) calls
