-- ===== src/Prolink/Devices.antt =====
-- core/sync/src/prolink/devices.rs: what is known about every device, and which one to follow. The
-- `BTreeMap` is its list of entries, in the order of the keys. `DeviceInfo` and `FollowTarget` are of
-- core/sync/src/net.rs. `F` is the type of a tempo, `f64` in the source.
pub mod Table
pub mod Master
pub mod Expiry
pub mod Contacts
pub mod History
pub mod Follow
use player.Common.{
  ℕ, ◌+◌, ◌-◌, ◌*◌, ◌/◌, max, Bool, true, false, not, ◌&&◌, ◌||◌, Option, none, some, List, [], ◌∷◌,
  map, ltb, leb, ◌==◌, if◌then◌else◌, length,
}
use player.Common.Floats.{Floats}
use player.Prolink.Packets.{Ipv4Addr, DeviceKind, classify_device}
use player.Prolink.Announce.{KeepAlive}
use player.Prolink.Updates.Beats.{
  BeatPacket, PrecisePosition, OnAir, Channels, beat_effective_bpm, position_effective_bpm,
}
use player.Prolink.Updates.Status.{
  CdjStatus, MixerStatus, playing, cdj_master, mixer_master, on_air, handoff_to, master_handoff_to,
  cdj_effective_bpm, mixer_effective_bpm,
}

abbrev pub device_timeout_ns : ℕ
device_timeout_ns = 10_000_000_000

abbrev pub status_fresh_ns : ℕ
status_fresh_ns = 1_000_000_000

abbrev pub beat_window_ns : ℕ
beat_window_ns = 2_000_000_000

abbrev pub bpm_priority_ns : ℕ
bpm_priority_ns = 1_000_000_000

pub record Status : Type 0 where
  pub at : ℕ
  pub playing : Bool
  pub master : Bool
  pub on_air : Bool
  pub handoff : Option ℕ
  pub bar_meaningful : Bool

pub record Peer (F : Type 0) : Type 0 where
  pub name : List ℕ
  pub address : Ipv4Addr
  pub device_type : Option ℕ
  pub last_seen : ℕ
  pub status : Option Status
  pub last_beat : Option ℕ
  pub beat_interval : Option ℕ
  pub bpm : Option (F × ℕ)
  pub on_air : Option Bool

abbrev pub DeviceTable : Type 0 → Type 0
DeviceTable F = List (ℕ × Peer F)

unfoldable pub new_peer : {F : Type 0} → List ℕ → Ipv4Addr → ℕ → Peer F
new_peer name address now = record {
  name = name;
  address = address;
  device_type = none;
  last_seen = now;
  status = none;
  last_beat = none;
  beat_interval = none;
  bpm = none;
  on_air = none;
}

-- `now.saturating_sub(s.at) <= STATUS_FRESH_NS`.
abbrev pub fresh : ℕ → Option Status → Option Status
fresh now none = none
fresh now (some s) = if leb (now - s.at) status_fresh_ns then some s else none

unfoldable pub fresh_status : {F : Type 0} → Peer F → ℕ → Option Status
fresh_status p now = fresh now p.status

-- `BTreeMap::get`, and the update of an entry that is made first where it is missing.
unfoldable pub get : {F : Type 0} → DeviceTable F → ℕ → Option (Peer F)
get [] number = none
get ((n, p) ∷ rest) number = if number == n then some p else get rest number

unfoldable pub upsert :
    {F : Type 0} → DeviceTable F → ℕ → Peer F → (Peer F → Peer F) → DeviceTable F
upsert [] number fresh f = (number, f fresh) ∷ []
upsert ((n, p) ∷ rest) number fresh f =
    if number == n
    then (n, f p) ∷ rest
    else if ltb number n
    then (number, f fresh) ∷ (n, p) ∷ rest
    else (n, p) ∷ upsert rest number fresh f

-- What `touch` writes into a peer, new or known.
unfoldable pub touched : {F : Type 0} → List ℕ → Ipv4Addr → ℕ → Peer F → Peer F
touched name address now p = record p {
  last_seen = now;
  address = address;
  name = elim name [ [] ↦ p.name | b ∷ bs ↦ b ∷ bs ];
}

-- `touch`, and `f` for what the caller writes through the reference that it returns.
unfoldable pub touch :
    {F : Type 0} → DeviceTable F → ℕ → List ℕ → Ipv4Addr → ℕ → (Peer F → Peer F) → DeviceTable F
unfolding upsert touched new_peer
touch t number name address now f =
    upsert t number (new_peer name address now) (λ p. f (touched name address now p))

unfoldable pub name_of : {F : Type 0} → DeviceTable F → ℕ → Option (List ℕ)
unfolding get
name_of t number = elim (get t number) [ none ↦ none | some p ↦ some p.name ]

unfoldable pub kind : {F : Type 0} → DeviceTable F → ℕ → DeviceKind
unfolding get classify_device
kind t number = elim (get t number) [
  | some p ↦ classify_device p.name number p.device_type
  | none ↦ classify_device [] number none
]

-- What each packet writes into its device's entry.
abbrev pub noted_alive : {F : Type 0} → KeepAlive → Peer F → Peer F
noted_alive k p = record p { device_type = some k.device_type }

unfoldable pub keep_alive : {F : Type 0} → DeviceTable F → KeepAlive → Ipv4Addr → ℕ → DeviceTable F
unfolding touch
keep_alive t k from now = touch t k.number k.name from now (noted_alive k)

-- The gap between two beats that counts as an interval.
abbrev pub interval : Option ℕ → Option ℕ → ℕ → Option ℕ
interval none old now = old
interval (some prev) old now =
    if ltb 0 (now - prev) && leb (now - prev) (4 * beat_window_ns) then some (now - prev) else none

-- `if let Some(bpm) = .. { peer.bpm = Some((bpm, now)) }`.
abbrev pub or_tempo : {F : Type 0} → Option F → ℕ → Option (F × ℕ) → Option (F × ℕ)
or_tempo none now old = old
or_tempo (some bpm) now old = some (bpm, now)

-- Whether the last tempo is so old that a precise position may replace it.
abbrev pub stale : {F : Type 0} → Option (F × ℕ) → ℕ → Bool
stale none now = true
stale (some (bpm, at)) now = ltb bpm_priority_ns (now - at)

-- `get_or_insert`.
abbrev pub get_or_insert : Option ℕ → ℕ → Option ℕ
get_or_insert none x = some x
get_or_insert (some y) x = some y

module _ (fl : Floats) where
  abbrev pub noted_beat : BeatPacket → ℕ → Peer fl.F64 → Peer fl.F64
  noted_beat b now p = record p {
    beat_interval = interval p.last_beat p.beat_interval now;
    last_beat = some now;
    bpm = or_tempo (beat_effective_bpm fl b) now p.bpm;
  }

  unfoldable pub beat : DeviceTable fl.F64 → BeatPacket → Ipv4Addr → ℕ → DeviceTable fl.F64
  unfolding touch
  beat t b from now = touch t b.device b.name from now (noted_beat b now)

  abbrev pub noted_cdj : CdjStatus → ℕ → Peer fl.F64 → Peer fl.F64
  noted_cdj s now p = record p {
    status = some (record {
      at = now;
      playing = playing s;
      master = cdj_master s;
      on_air = on_air s;
      handoff = master_handoff_to s;
      bar_meaningful = ltb 0 s.beat_within_bar;
    });
    bpm = or_tempo (cdj_effective_bpm fl s) now p.bpm;
  }

  unfoldable pub cdj_status : DeviceTable fl.F64 → CdjStatus → Ipv4Addr → ℕ → DeviceTable fl.F64
  unfolding touch
  cdj_status t s from now = touch t s.device s.name from now (noted_cdj s now)

  abbrev pub noted_mixer : MixerStatus → ℕ → Peer fl.F64 → Peer fl.F64
  noted_mixer m now p = record p {
    device_type = get_or_insert p.device_type 2;
    status = some (record {
      at = now;
      playing = false;
      master = mixer_master m;
      on_air = false;
      handoff = handoff_to m.master_handoff;
      bar_meaningful = false;
    });
    bpm = or_tempo (mixer_effective_bpm fl m) now p.bpm;
  }

  unfoldable pub mixer_status : DeviceTable fl.F64 → MixerStatus → Ipv4Addr → ℕ → DeviceTable fl.F64
  unfolding touch
  mixer_status t m from now = touch t m.device m.name from now (noted_mixer m now)

  abbrev pub noted_position : PrecisePosition → ℕ → Peer fl.F64 → Peer fl.F64
  noted_position pp now p = record p {
    bpm = if stale p.bpm now then or_tempo (position_effective_bpm fl pp) now p.bpm else p.bpm;
  }

  unfoldable pub precise_position :
      DeviceTable fl.F64 → PrecisePosition → Ipv4Addr → ℕ → DeviceTable fl.F64
  unfolding touch
  precise_position t pp from now = touch t pp.device pp.name from now (noted_position pp now)

-- `if let (Some(flag), Some(peer)) = (flag, self.peers.get_mut(&number))`.
unfoldable pub set_on_air : {F : Type 0} → DeviceTable F → ℕ → Option Bool → DeviceTable F
set_on_air t number none = t
set_on_air [] number (some flag) = []
set_on_air ((n, p) ∷ rest) number (some flag) =
    if number == n
    then (n, record p { on_air = some flag }) ∷ rest
    else (n, p) ∷ set_on_air rest number (some flag)

unfoldable pub note_on_air : {F : Type 0} → DeviceTable F → OnAir → DeviceTable F
unfolding set_on_air
note_on_air t o =
    let c = o.channels in
    let low = set_on_air (set_on_air (set_on_air t 1 c.c1) 2 c.c2) 3 c.c3 in
    set_on_air (set_on_air (set_on_air low 4 c.c4) 5 c.c5) 6 c.c6

-- `retain`.
unfoldable pub retain : {F : Type 0} → (Peer F → Bool) → DeviceTable F → DeviceTable F
retain keep [] = []
retain keep ((n, p) ∷ rest) = if keep p then (n, p) ∷ retain keep rest else retain keep rest

abbrev pub is_heard : {F : Type 0} → ℕ → Peer F → Bool
is_heard now p = leb (now - p.last_seen) device_timeout_ns

unfoldable pub expire : {F : Type 0} → DeviceTable F → ℕ → DeviceTable F × Bool
unfolding retain
expire t now = let left = retain (is_heard now) t in (left, not (length left == length t))
