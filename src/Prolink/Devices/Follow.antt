-- ===== src/Prolink/Devices/Follow.antt =====
-- core/sync/src/prolink/devices.rs: what the table tells: who plays, who is the tempo master, whom to
-- follow, and the report of all devices.
use player.Common.{
  ℕ, ◌-◌, ◌*◌, ◌/◌, max, Bool, true, false, ◌&&◌, Option, none, some, List, [], ◌∷◌, ltb, leb,
  if◌then◌else◌,
}
use player.Common.Floats.{Floats}
use player.Prolink.Packets.{Ipv4Addr, DeviceKind, player_device, mixer, rekordbox}
use player.Prolink.Devices.{DeviceTable, Peer, Status, get, kind, fresh_status, beat_window_ns}

abbrev pub is_mixer : DeviceKind → Bool
is_mixer mixer = true
is_mixer _ = false

abbrev pub is_player : DeviceKind → Bool
is_player player_device = true
is_player _ = false

-- The window in which the last beat says that a device plays.
abbrev pub window : Option ℕ → ℕ
window none = beat_window_ns
window (some i) = max (i * 5 / 2) beat_window_ns

abbrev pub plays_by_beats : {F : Type 0} → Peer F → ℕ → Option Bool
plays_by_beats p now = elim p.last_beat [
  | none ↦ none
  | some last ↦ some (leb (now - last) (window p.beat_interval))
]

unfoldable pub is_playing : {F : Type 0} → DeviceTable F → ℕ → ℕ → Option Bool
unfolding get kind fresh_status
is_playing t number now = elim (get t number) [
  | none ↦ none
  | some p ↦ elim (fresh_status p now) [
    | none ↦ plays_by_beats p now
    | some s ↦ if is_mixer (kind t number) then plays_by_beats p now else some s.playing
  ]
]

-- Whether nobody is left to yield to: `s.handoff.is_none()`.
abbrev pub settled : Status → Bool
settled s = elim s.handoff [ none ↦ true | some n ↦ false ]

-- A round of the loop of `master` over the entry `n`, with the best one so far.
abbrev pub better : Option (ℕ × Bool) → ℕ → Bool → Option (ℕ × Bool)
better none n b = some (n, b)
better (some (m, true)) n false = some (m, true)
better (some (m, true)) n true = some (m, true)
better (some (m, false)) n false = some (m, false)
better (some (m, false)) n true = some (n, true)

-- `p.fresh_status(now).filter(|s| s.master)`.
abbrev pub mastering : {F : Type 0} → Peer F → ℕ → Option Status
mastering p now = elim (fresh_status p now) [
  | none ↦ none
  | some s ↦ if s.master then some s else none
]

unfoldable pub master_loop :
    {F : Type 0} → DeviceTable F → ℕ → Option (ℕ × Bool) → Option (ℕ × Bool)
unfolding fresh_status
master_loop [] now best = best
master_loop ((n, p) ∷ rest) now best = elim (mastering p now) [
  | none ↦ master_loop rest now best
  | some s ↦ master_loop rest now (better best n (settled s))
]

abbrev pub number_of : Option (ℕ × Bool) → Option ℕ
number_of none = none
number_of (some (n, b)) = some n

unfoldable pub master : {F : Type 0} → DeviceTable F → ℕ → Option ℕ
unfolding master_loop
master t now = number_of (master_loop t now none)

pub data FollowTarget : Type 0 where
  tempo_master : FollowTarget
  device : ℕ → FollowTarget

abbrev pub says_true : Option Bool → Bool
says_true (some true) = true
says_true _ = false

-- The first key of the entries that is a player which plays, as the table `t` knows it.
unfoldable pub first_playing : {F : Type 0} → DeviceTable F → ℕ → DeviceTable F → Option ℕ
unfolding kind is_playing
first_playing t now [] = none
first_playing t now ((n, p) ∷ rest) =
    if is_player (kind t n) && says_true (is_playing t n now)
    then some n
    else first_playing t now rest

unfoldable pub resolve : {F : Type 0} → DeviceTable F → FollowTarget → ℕ → Option ℕ
unfolding master first_playing
resolve t (device n) now = some n
resolve t tempo_master now = elim (master t now) [ some n ↦ some n | none ↦ first_playing t now t ]

-- `self.peers.get(&number).and_then(|p| p.fresh_status(now))`.
abbrev pub status_of : {F : Type 0} → DeviceTable F → ℕ → ℕ → Option Status
status_of t number now = elim (get t number) [ none ↦ none | some p ↦ fresh_status p now ]

unfoldable pub bar_meaningful : {F : Type 0} → DeviceTable F → ℕ → ℕ → ℕ → Bool
unfolding get fresh_status kind
bar_meaningful t number beat_within_bar now =
    if leb 1 beat_within_bar && leb beat_within_bar 4
    then elim (kind t number) [
      | mixer ↦ false
      | rekordbox ↦ false
      | _ ↦ elim (status_of t number now) [ some s ↦ s.bar_meaningful | none ↦ ltb number 0x21 ]
    ]
    else false

-- `address` stands for its dotted text.
pub record DeviceInfo (F : Type 0) : Type 0 where
  pub number : ℕ
  pub name : List ℕ
  pub address : Ipv4Addr
  pub kind : DeviceKind
  pub bpm : Option F
  pub playing : Option Bool
  pub master : Option Bool
  pub on_air : Option Bool

-- `own.or(status.filter(|_| player).map(|s| s.on_air))`.
abbrev on_air_of : Option Bool → Option Status → Bool → Option Bool
on_air_of (some flag) status player = some flag
on_air_of none (some s) true = some s.on_air
on_air_of none _ _ = none

abbrev master_of : Option Status → Option Bool
master_of none = none
master_of (some s) = some s.master

module _ (fl : Floats) where
  -- `(b * 100.0).round() / 100.0`.
  abbrev rounded : Option (fl.F64 × ℕ) → Option fl.F64
  rounded none = none
  rounded (some (b, at)) =
      some (fl.div64 (fl.round64 (fl.mul64 b (fl.lit64 100 1))) (fl.lit64 100 1))

  unfoldable pub snapshot_from :
      DeviceTable fl.F64 → ℕ → DeviceTable fl.F64 → List (DeviceInfo fl.F64)
  unfolding kind is_playing fresh_status
  snapshot_from t now [] = []
  snapshot_from t now ((n, p) ∷ rest) =
      let is_one = is_player (kind t n) in
      record {
        number = n;
        name = p.name;
        address = p.address;
        kind = kind t n;
        bpm = rounded p.bpm;
        playing = if is_one then is_playing t n now else none;
        master = master_of (fresh_status p now);
        on_air = on_air_of p.on_air (fresh_status p now) is_one;
      }
      ∷ snapshot_from t now rest

  unfoldable pub snapshot : DeviceTable fl.F64 → ℕ → List (DeviceInfo fl.F64)
  unfolding snapshot_from
  snapshot t now = snapshot_from t now t
