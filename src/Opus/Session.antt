-- ===== src/Opus/Session.antt =====
-- core/sync/src/opus/session.rs: the state machine of the Opus Quad source. An operation returns the new
-- state and the actions that it pushes onto `out`, in order. `F` is `f64` and `T` the state of the beat
-- tracker (core/sync/src/opus/tracker.rs), which is an interface here. The text of a status is a
-- `Message`: the format string with what is put into it.
pub mod Follow
pub mod Peers
pub mod Report
pub mod Decks
pub mod Ticks
pub mod Invariant
pub mod Kept
pub mod Calls
use player.Common.{
  ℕ, ◌+◌, ◌-◌, ◌*◌, ◌≡◌, Bool, true, false, not, ◌&&◌, ◌||◌, Option, none, some, List, [], ◌∷◌,
  ◌++◌, ltb, leb, ◌==◌, if◌then◌else◌, replicate,
}
use player.Common.Text.{list_eq}
use player.Prolink.Packets.{
  Ipv4Addr, DeviceKind, player_device, mixer, rekordbox, all_in_one, other,
}
use player.Prolink.Devices.Follow.{FollowTarget, DeviceInfo}
use player.Opus.Packets.{opus_name, rekordbox_name, KeepAlive, device_type}
use player.Opus.Packets.Status.{DeckStatus}

abbrev pub expiry_ns : ℕ
expiry_ns = 10_000_000_000

abbrev pub devices_min_interval_ns : ℕ
devices_min_interval_ns = 250_000_000

abbrev pub max_peers : ℕ
max_peers = 64

abbrev pub waiting_warning_ns : ℕ
waiting_warning_ns = 5_000_000_000

pub record Settings : Type 0 where
  pub device_number : ℕ
  pub mac : Option (List ℕ)
  pub interface : Option Ipv4Addr
  pub broadcast : Option Ipv4Addr
  pub computer_name : List ℕ
  pub announce_interval_ns : ℕ
  pub peer_announce_port : ℕ
  pub peer_update_port : ℕ
  pub follow : FollowTarget

pub data Via : Type 0 where
  announce update : Via

pub data Message : Type 0 where
  announcing : ℕ → Ipv4Addr → List ℕ → Message
  no_local_address : Message
  number_taken : ℕ → ℕ → Message
  no_number_free : ℕ → Message
  unit_found : Ipv4Addr → Message
  following_master : ℕ → Message
  following : ℕ → Message
  no_deck_to_follow : Message
  no_such_deck : ℕ → Message
  no_unit_yet : Message
  unit_lost : Ipv4Addr → Message

pub data Phase (F : Type 0) : Type 0 where
  bar beat : F → Phase F
  tempo_only : Phase F

pub data Precision : Type 0 where
  exact fine coarse jittery : Precision

pub data SourceEvent (F : Type 0) : Type 0 where
  observation : ℕ → Phase F → Option F → Precision → Option ℕ → SourceEvent F
  devices : List (DeviceInfo F) → SourceEvent F
  status : Bool → Message → SourceEvent F

pub data Action (F : Type 0) : Type 0 where
  send : Via → Ipv4Addr → ℕ → List ℕ → Action F
  event : SourceEvent F → Action F

unfoldable pub fallback_mac : Ipv4Addr → List ℕ
fallback_mac ip = 0x02 ∷ 0x50 ∷ ip.a ∷ ip.b ∷ ip.c ∷ ip.d ∷ []

-- `is_loopback` is 127.0.0.0/8 and `is_link_local` 169.254.0.0/16.
unfoldable pub default_broadcast : Ipv4Addr → Ipv4Addr
default_broadcast ip =
    if ip.a == 127
    then ip
    else if ip.a == 169 && ip.b == 254
    then record { a = 169; b = 254; c = 255; d = 255 }
    else record { a = ip.a; b = ip.b; c = ip.c; d = 255 }

unfoldable pub classify : KeepAlive → DeviceKind
unfolding device_type
classify ka =
    if list_eq ka.name rekordbox_name
    then rekordbox
    else if list_eq ka.name opus_name
    then all_in_one
    else if device_type ka == 0x01
    then player_device
    else if device_type ka == 0x02
    then mixer
    else other

pub record QuadUnit : Type 0 where
  pub addr : Ipv4Addr
  pub last_seen : ℕ

pub record Peer : Type 0 where
  pub info : KeepAlive
  pub addr : Ipv4Addr
  pub last_seen : ℕ

pub record Deck : Type 0 where
  pub status : Option DeckStatus
  pub last_status : ℕ
  pub last_valid_flags : ℕ

abbrev pub no_deck : Deck
no_deck = record { status = none; last_status = 0; last_valid_flags = 0 }

-- What the session calls of the beat tracker; `update` gives the host time of its estimate.
pub record Tracking (F T : Type 0) : Type 0 where
  pub new : T
  pub reset : T → T
  pub update : ℕ → Option ℕ → Bool → Option F → T → Option ℕ × T

pub record Session (F T : Type 0) : Type 0 where
  pub settings : Settings
  pub started : ℕ
  pub number : ℕ
  pub interface : Option Ipv4Addr
  pub mac : Option (List ℕ)
  pub unit : Option QuadUnit
  pub peers : List Peer
  pub decks : List Deck
  pub follow : FollowTarget
  pub followed : Option ℕ
  pub follow_reported : Option (Option ℕ)
  pub tracker : T
  pub next_announce : Option ℕ
  pub published : Option (List (DeviceInfo F))
  pub published_at : ℕ
  pub warned_waiting : Bool
  pub warned_interface : Bool
  pub warned_number : Bool

abbrev pub value_or {ℓ} : {A : Type ℓ} → Option A → A → A
value_or none d = d
value_or (some a) d = a

abbrev pub same_addr : Ipv4Addr → Ipv4Addr → Bool
same_addr x y = x.a == y.a && x.b == y.b && x.c == y.c && x.d == y.d

abbrev pub say : {F : Type 0} → Bool → Message → List (Action F)
say warning message = event (status warning message) ∷ []

module _ {F T : Type 0} where
  unfoldable pub adopt_interface : Session F T → Ipv4Addr → Session F T
  unfolding fallback_mac
  adopt_interface self ip = record self {
    interface = some ip;
    mac = some (value_or self.settings.mac (fallback_mac ip));
    next_announce = none;
  }

  -- A new session, before `adopt_interface`.
  abbrev blank : Tracking F T → Settings → ℕ → Session F T
  blank tracking settings now = record {
    settings = settings;
    started = now;
    number = settings.device_number;
    interface = none;
    mac = none;
    unit = none;
    peers = [];
    decks = replicate 4 no_deck;
    follow = settings.follow;
    followed = none;
    follow_reported = none;
    tracker = tracking.new;
    next_announce = none;
    published = none;
    published_at = 0;
    warned_waiting = false;
    warned_interface = false;
    warned_number = false;
  }

  unfoldable pub new : Tracking F T → Settings → ℕ → Session F T
  unfolding adopt_interface
  new tracking settings now = elim settings.interface [
    | none ↦ blank tracking settings now
    | some ip ↦ adopt_interface (blank tracking settings now) ip
  ]

  unfoldable pub interface_wanted : Session F T → Option Ipv4Addr
  interface_wanted self = elim self.interface [
    | some ip ↦ none
    | none ↦ elim self.unit [ none ↦ none | some u ↦ some u.addr ]
  ]

  unfoldable pub set_interface : Session F T → Ipv4Addr → Session F T × List (Action F)
  unfolding adopt_interface
  set_interface self ip = (
    adopt_interface self ip,
    say false (
        announcing self.number ip (value_or (adopt_interface self ip).mac (replicate {A = ℕ} 6 0))),
  )

  unfoldable pub interface_failed : Session F T → Session F T × List (Action F)
  interface_failed self =
      if not self.warned_interface
      then (record self { warned_interface = true }, say true no_local_address)
      else (self, [])
