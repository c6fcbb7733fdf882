-- ===== src/Opus/Tests.antt =====
-- The theorems on the Opus Quad at concrete packets and sessions.
use player.Common.{List, true, ℕ, ◌≡◌, refl, ◌⊎◌, false, not, none, some, [], ◌∷◌, arith}
use player.Common.Text.{codes, trim, trim_start, is_whitespace}
use player.Common.Millis.{millis}
use player.Prolink.Packets.{Ipv4Addr}
use player.Prolink.Devices.Follow.{tempo_master, device}
use player.Opus.Packets.{ok, rekordbox, parse_keep_alive, to_bytes}
use player.Opus.Packets.RoundTrip.{packet, parse_keep_alive-to_bytes}
use player.Opus.Packets.Status.{DeckStatus, is_master, is_playing}
use player.Opus.Session.{Settings, Peer, no_deck, Session, new}
use player.Opus.Session.Follow.{decks_that, choose}
use player.Opus.Session.Follow.Choice.{IsBest, Stays, is_playing_master, choose-IsBest}
use player.Opus.Session.Peers.{must_yield, fallback_first, fallback_count, defend_number}
use player.Opus.Session.Peers.Numbers.{AllUsed, Defended, defend_number-Defended, one_yields}
use player.Opus.Session.Invariant.{Inv}
use player.Opus.Tracker.{
  BeatEstimate, BeatTracker, fresh, push, rel, moved_by, usable, tempo_moved, agreed, narrow,
  estimate, recent, next_beat, report, heard, update, beat_tracker,
}
use player.Opus.Tracker.Reports.{Ring}
use player.Opus.Tracker.Reports
use player.Opus.Tracker.Estimates.{Report, Shows, listen, listen-fresh-Inv, update-Shows}
use player.Opus.Session.Calls.{ticked_at, announced_at, follow_set, run, run-new-Inv}

abbrev ours : Ipv4Addr
ours = record { a = 169; b = 254; c = 7; d = 9 }

parse_keep_alive-to_bytes_example :
    parse_keep_alive
      (to_bytes (packet 3 0x17 1 4 2 80 169 254 7 9 ours 1 0 0 4 8 (codes "rekordbox")))
    ≡ ok (packet 3 0x17 1 4 2 80 169 254 7 9 ours 1 0 0 4 8 (codes "rekordbox"))
unfolding trim trim_start is_whitespace
parse_keep_alive-to_bytes_example =
    parse_keep_alive-to_bytes 3 0x17 1 4 2 80 169 254 7 9 ours 1 0 0 4 8 (codes "rekordbox") (
      omega arith,
      (
        (omega arith, omega arith),
        (
          (omega arith, omega arith),
          (
            (omega arith, omega arith),
            (
              (omega arith, omega arith),
              (
                (omega arith, omega arith),
                (
                  (omega arith, omega arith),
                  (
                    (omega arith, omega arith),
                    ((omega arith, omega arith), ((omega arith, omega arith), tt)),
                  ),
                ),
              ),
            ),
          ),
        ),
      ),
      refl,
    )

abbrev defaults : Settings
defaults = record {
  device_number = 0x17;
  mac = none;
  interface = some ours;
  broadcast = none;
  computer_name = codes "player5";
  announce_interval_ns = 1_500_000_000;
  peer_announce_port = 50000;
  peer_update_port = 50002;
  follow = tempo_master;
}

abbrev lighting_at : ℕ → ℕ → Peer
lighting_at number last = record {
  info = rekordbox number (2 ∷ 80 ∷ 169 ∷ 254 ∷ 7 ∷ last ∷ []) ours;
  addr = ours;
  last_seen = 0;
}

abbrev fresh_session : Session ℕ (BeatTracker ℕ)
fresh_session = new (beat_tracker millis) defaults 0

abbrev contested : Session ℕ (BeatTracker ℕ)
contested = record fresh_session { peers = lighting_at 0x17 1 ∷ [] }

defend_number-Defended_example :
    Defended contested (defend_number contested).0
    × ((must_yield contested.peers (defend_number contested).0.number contested.mac ≡ false)
        ⊎ AllUsed contested.peers fallback_count fallback_first)
defend_number-Defended_example = defend_number-Defended contested

one_yields_example :
    must_yield (lighting_at 0x17 2 ∷ []) 0x17 (some (2 ∷ 80 ∷ 169 ∷ 254 ∷ 7 ∷ 1 ∷ []))
    ≡ not (must_yield (lighting_at 0x17 1 ∷ []) 0x17 (some (2 ∷ 80 ∷ 169 ∷ 254 ∷ 7 ∷ 2 ∷ [])))
unfolding rekordbox
one_yields_example = one_yields (lighting_at 0x17 1) (lighting_at 0x17 2) refl refl refl (λ e. cc e)

run-new-Inv_example : Inv (
    run millis (beat_tracker millis) (new (beat_tracker millis) defaults 0) (
      announced_at (to_bytes (rekordbox 0x17 (2 ∷ 80 ∷ 1 ∷ 1 ∷ 1 ∷ 1 ∷ []) ours)) ours 5
      ∷ ticked_at 10
      ∷ follow_set (device 2)
      ∷ []))
run-new-Inv_example = run-new-Inv millis (beat_tracker millis) defaults 0 (
    announced_at (to_bytes (rekordbox 0x17 (2 ∷ 80 ∷ 1 ∷ 1 ∷ 1 ∷ 1 ∷ []) ours)) ours 5
    ∷ ticked_at 10
    ∷ follow_set (device 2)
    ∷ [])

-- The flags 0x60: playing and tempo master.
abbrev leading : DeckStatus
leading = record {
  name = codes "OPUS-QUAD";
  device = 10;
  len = 0xd4;
  track_id = 7;
  play_state_1 = 3;
  flags = 0x60;
  play_state_2 = 0x7a;
  pitch = 0x10_0000;
  track_bpm_x100 = 12800;
  master_meaningful = 1;
  beat = 33;
  bar_beat = 1;
}

abbrev led : Session ℕ (BeatTracker ℕ)
led = record fresh_session {
  unit = some (record { addr = ours; last_seen = 0 });
  decks =
      no_deck
      ∷ record { status = some leading; last_status = 0; last_valid_flags = 0x60 }
      ∷ no_deck
      ∷ no_deck
      ∷ [];
  followed = some 2;
}

choose-IsBest_example :
    IsBest
      (decks_that is_playing_master led)
      (decks_that is_master led)
      (decks_that is_playing led)
      (choose led)
    × Stays (decks_that is_playing_master led) led.followed (choose led)
unfolding new
choose-IsBest_example = choose-IsBest led (record { addr = ours; last_seen = 0 }) refl refl

-- Reports every 200 ms of a deck at 120 beats per minute, the last after a jump back to beat 2.
abbrev reports : List (Report ℕ)
reports =
    record { host_ns = 1_000_000_000; beat = some 4; playing = true; bpm = some 120_000 }
    ∷ record { host_ns = 1_200_000_000; beat = some 5; playing = true; bpm = some 120_000 }
    ∷ record { host_ns = 1_400_000_000; beat = some 5; playing = true; bpm = some 120_000 }
    ∷ record { host_ns = 1_600_000_000; beat = some 6; playing = true; bpm = some 120_000 }
    ∷ record { host_ns = 1_800_000_000; beat = some 2; playing = true; bpm = some 120_000 }
    ∷ []

listen-fresh-Inv_example : Reports.Inv (listen millis fresh reports)
listen-fresh-Inv_example = listen-fresh-Inv millis reports

abbrev fourth : BeatTracker ℕ
fourth = record fresh { last = some (1_000_000_000, 4) }

fourth-Ring : Ring fourth 4
fourth-Ring = record {
  size = refl;
  head_in = omega arith;
  len_in = omega arith;
  counts = λ i lt. absurd (omega arith);
}

-- The fifth beat began between the reports at 1 s and at 1.2 s.
abbrev fifth : BeatEstimate
fifth = record { beat = 5; host_ns = 1_200_000_000; uncertainty_ns = 2_000_000; beats_used = 1 }

fifth_found : (update millis fourth 1_200_000_000 (some 5) true (some 120_000)).0 ≡ some fifth
unfolding update heard report next_beat usable recent tempo_moved push agreed narrow rel estimate
    moved_by
fifth_found = refl

update-Shows_example : Shows millis fourth.last 1_200_000_000 (some 5) true fifth
update-Shows_example =
    update-Shows millis fourth 1_200_000_000 (some 5) true (some 120_000) fifth fourth-Ring
      fifth_found
