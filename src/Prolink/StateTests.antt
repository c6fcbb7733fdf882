-- ===== src/Prolink/StateTests.antt =====
-- The theorems on the joiner and the device table at concrete states.
use player.Common.{
  ℕ, ◌+◌, ◌-◌, ◌≡◌, refl, inl, true, false, Option, none, some, List, [], ◌∷◌, arith, leb, All,
}
use player.Common.Text.{codes}
use player.Prolink.Packets.{Ipv4Addr, Mac}
use player.Prolink.Join.{Joiner, Phase, hello, new, poll, poll_loop, set_interface, has_yielded}
use player.Prolink.Join.Startup.{hellos, Sent, poll-script}
use player.Prolink.Join.Steady.{Arrived, poll_calls}
use player.Prolink.Join.Arrival.{startup-Arrived}
use player.Prolink.Join.Told.{yields_told, given_up, run-told}
use player.Prolink.Announce.{KeepAlive}
use player.Prolink.Join.Inputs.{Input, interface, polls, number_seen, number_in_use, run}
use player.Prolink.Join.Yield.{yielded_silent}
use player.Prolink.Join.Patience.{IsPatient, listens_first}
use player.Prolink.Devices.{DeviceTable, Peer, Status, get, expire, device_timeout_ns}
use player.Prolink.Devices.Table.{IsSorted}
use player.Prolink.Devices.History
use player.Prolink.Devices.Expiry.{kept, loses, expire_lem}
use player.Prolink.Devices.Follow.{master, settled}
use player.Prolink.Devices.Master.{first_master, otherwise, master_lem}

abbrev deck : List ℕ
deck = codes "CDJ-3000"

abbrev address : Ipv4Addr
address = record { a = 169; b = 254; c = 0; d = 7 }

abbrev card : Mac
card = record { m0 = 0; m1 = 1; m2 = 2; m3 = 3; m4 = 4; m5 = 5 }

abbrev fresh_joiner : Joiner
fresh_joiner = new deck 4 0

abbrev greeting : Joiner
greeting = record fresh_joiner { ip = some address; mac = card; phase = hello 1; next_at = 10 }

poll-script_example : poll greeting 12 2 ≡ Sent greeting 1 12
unfolding new
poll-script_example =
    poll-script greeting 1 12 2 (hellos (omega arith)) (omega arith) (omega arith)
      (inl (omega arith))

abbrev beats : List (ℕ × ℕ)
beats =
    (5, 2)
    ∷ (300_000_005, 2)
    ∷ (600_000_005, 2)
    ∷ (900_000_005, 2)
    ∷ (1_200_000_005, 2)
    ∷ (1_500_000_005, 2)
    ∷ (1_800_000_005, 2)
    ∷ (2_200_000_000, 2)
    ∷ (2_500_000_000, 2)
    ∷ (2_800_000_000, 2)
    ∷ (3_100_000_000, 2)
    ∷ (3_400_000_000, 2)
    ∷ (3_700_000_000, 2)
    ∷ (4_000_000_000, 3)
    ∷ []

-- Polls at the times that the joiner sets; the seventh finds that the listening time is not over.
startup-Arrived_example :
    Arrived
      (set_interface (new deck 4 0) address card)
      0
      (run (set_interface (new deck 4 0) address card) (poll_calls beats))
unfolding new set_interface poll poll_loop
startup-Arrived_example = startup-Arrived deck 4 0 address card beats (omega arith) (
  omega arith,
  (
    omega arith,
    (
      omega arith,
      (
        omega arith,
        (
          omega arith,
          (
            omega arith,
            (
              omega arith,
              (
                omega arith,
                (
                  omega arith,
                  (omega arith, (omega arith, (omega arith, (omega arith, (omega arith, tt))))),
                ),
              ),
            ),
          ),
        ),
      ),
    ),
  ),
)

-- The joiner yields to the first packet about its number, and says so once.
run-told_example :
    yields_told
        (run greeting
          ((100, number_seen 4 address deck) ∷ (200, number_in_use 4 address deck) ∷ [])).1
      + given_up greeting
    ≡ given_up
        (run greeting
          ((100, number_seen 4 address deck) ∷ (200, number_in_use 4 address deck) ∷ [])).0
run-told_example =
    run-told greeting ((100, number_seen 4 address deck) ∷ (200, number_in_use 4 address deck) ∷ [])

abbrev quiet_joiner : Joiner
quiet_joiner = record greeting { phase = Phase.yielded }

abbrev late_calls : List (ℕ × Input)
late_calls = (100, polls 2) ∷ (200, number_seen 4 address deck) ∷ []

yielded_silent_example :
    (has_yielded (run quiet_joiner late_calls).0 ≡ true) × ((run quiet_joiner late_calls).1 ≡ [])
yielded_silent_example = yielded_silent quiet_joiner late_calls refl

abbrev first_calls : List (ℕ × Input)
first_calls =
    (1, interface address card)
    ∷ (2, polls 0)
    ∷ (300_000_002, polls 0)
    ∷ (3_000_000_000, polls 0)
    ∷ []

listens_first_example : All (IsPatient 0) (run (new deck 4 0) first_calls).1
listens_first_example =
    listens_first deck 4 0 first_calls
      (omega arith, (omega arith, (omega arith, (omega arith, tt)))) (tt, (tt, (tt, (tt, tt))))

abbrev peer_at : ℕ → Option Status → Peer ℕ
peer_at seen status = record {
  name = deck;
  address = address;
  device_type = none;
  last_seen = seen;
  status = status;
  last_beat = none;
  beat_interval = none;
  bpm = none;
  on_air = none;
}

abbrev leader : Option ℕ → Option Status
leader handoff = some (record {
  at = 5;
  playing = true;
  master = true;
  on_air = true;
  handoff = handoff;
  bar_meaningful = true;
})

-- Device 1 hands the role of tempo master to device 3.
abbrev table : DeviceTable ℕ
table = (1, peer_at 0 (leader (some 3))) ∷ (3, peer_at 8_000_000_000 (leader none)) ∷ []

table-IsSorted : IsSorted table
table-IsSorted = ((omega arith, tt), (tt, tt))

abbrev greeted : KeepAlive
greeted = record {
  name = deck;
  number = 2;
  mac = card;
  ip = address;
  peers = 1;
  device_type = 1;
  first_on_network = false;
  cdj3000_compatible = true;
}

expire_lem_example :
    (get (expire table 10_000_000_001).0 1
      ≡ kept (λ p. leb (10_000_000_001 - p.last_seen) device_timeout_ns) (get table 1))
    × ((expire table 10_000_000_001).1
        ≡ loses (λ p. leb (10_000_000_001 - p.last_seen) device_timeout_ns) table)
    × IsSorted (expire table 10_000_000_001).0
expire_lem_example = expire_lem table 10_000_000_001 1 table-IsSorted

master_lem_example :
    master table 6 ≡ otherwise (first_master settled table 6) (first_master (λ s. true) table 6)
master_lem_example = master_lem table 6
