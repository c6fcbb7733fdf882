-- ===== src/Prolink/Tests.antt =====
-- The theorems on the packets of Pro DJ Link at concrete packets.
use player.Common.{
  ℕ, ◌≤◌, ◌<◌, ◌≡◌, ◌≢◌, refl, ◌⊎◌, true, false, List, [], ◌∷◌, ◌++◌, arith, length,
}
use player.Common.Text.{codes, is_whitespace, trim}
use player.Prolink.Packets.{
  Ipv4Addr, Mac, ok, err, too_short, wrong_kind, not_pro_dj_link, check, u8_at, kind_offset, magic,
}
use player.Prolink.Packets.Bytes.{IsName}
use player.Prolink.Announce.{KeepAlive, build_keep_alive, parse_keep_alive}
use player.Prolink.Announce.RoundTrip.{parse-build_keep_alive}
use player.Prolink.Announce.Errors.{IsProDjLink, check_cases}
use player.Prolink.Updates.Status.{CdjStatus, build_cdj_status, parse_cdj_status}
use player.Prolink.Updates.Status.RoundTrip.{parse-build_cdj_status}

abbrev deck : List ℕ
deck = codes "CDJ-3000"

deck-IsName : IsName deck
unfolding trim is_whitespace
deck-IsName = (omega arith, ground arith, refl)

abbrev address : Ipv4Addr
address = record { a = 169; b = 254; c = 0; d = 7 }

abbrev card : Mac
card = record { m0 = 0; m1 = 1; m2 = 2; m3 = 3; m4 = 4; m5 = 5 }

abbrev announced : KeepAlive
announced = record {
  number = 2;
  name = deck;
  mac = card;
  ip = address;
  peers = 3;
  device_type = 1;
  first_on_network = true;
  cdj3000_compatible = false;
}

parse-build_keep_alive_example : parse_keep_alive (build_keep_alive announced) ≡ ok announced
parse-build_keep_alive_example = parse-build_keep_alive announced deck-IsName

abbrev playing_deck : CdjStatus
playing_deck = record {
  device = 2;
  name = deck;
  packet_len = 0x200;
  activity = 1;
  track_type = 1;
  play_state = 3;
  firmware = codes "3.30";
  flags = 0xe4;
  play_state_2 = 0x7a;
  pitch = 0x0010_0000;
  bpm_x100 = 12_000;
  master_handoff = 0xff;
  beat = 17;
  beat_within_bar = 1;
}

parse-build_cdj_status_example : parse_cdj_status (build_cdj_status playing_deck) ≡ ok playing_deck
parse-build_cdj_status_example = parse-build_cdj_status playing_deck (
  deck-IsName,
  (omega arith, omega arith),
  (omega arith, ground arith),
  (omega arith, omega arith, omega arith),
)

-- A packet of another kind than the one that is wanted.
abbrev claim : List ℕ
claim = magic ++ (0x02 ∷ 0x00 ∷ [])

check_cases_example :
    ((¬ IsProDjLink claim) × (check claim 0x06 54 ≡ err not_pro_dj_link))
    ⊎ (IsProDjLink claim
        × (u8_at claim kind_offset ≢ 0x06)
        × (check claim 0x06 54 ≡ err (wrong_kind 0x06 (u8_at claim kind_offset))))
    ⊎ (IsProDjLink claim
        × (u8_at claim kind_offset ≡ 0x06)
        × (length claim < 54)
        × (check claim 0x06 54 ≡ err (too_short 54 (length claim))))
    ⊎ (IsProDjLink claim
        × (u8_at claim kind_offset ≡ 0x06)
        × (54 ≤ length claim)
        × (check claim 0x06 54 ≡ ok tt))
check_cases_example = check_cases claim 0x06 54
