-- ===== src/Opus/Session/Report.antt =====
-- core/sync/src/opus/session.rs: the device table that is reported, and when.
use player.Common.{
  ℕ, ◌+◌, ◌-◌, ◌/◌, ◌%◌, Bool, true, false, not, ◌&&◌, ◌||◌, Option, none, some, List, [], ◌∷◌,
  ◌++◌, map, ltb, leb, ◌==◌, if◌then◌else◌,
}
use player.Common.Floats.{Floats}
use player.Common.Text.{list_eq}
use player.Prolink.Packets.{
  Ipv4Addr, DeviceKind, player_device, mixer, rekordbox, all_in_one, other,
}
use player.Prolink.Devices.Follow.{DeviceInfo}
use player.Opus.Packets.{opus_name}
use player.Opus.Packets.Status.{DeckStatus, effective_bpm, is_playing, is_master, is_on_air}
use player.Opus.Session.{
  devices_min_interval_ns, Action, event, SourceEvent, classify, Peer, Deck, Session, same_addr,
}
use player.Opus.Session.Peers.{less}

-- `Ipv4Addr::to_string`.
abbrev decimal : ℕ → List ℕ
decimal n =
    if ltb n 10
    then (b'0' + n) ∷ []
    else if ltb n 100
    then (b'0' + n / 10) ∷ (b'0' + n % 10) ∷ []
    else (b'0' + n / 100) ∷ (b'0' + n / 10 % 10) ∷ (b'0' + n % 10) ∷ []

unfoldable pub dotted : Ipv4Addr → List ℕ
dotted ip = decimal ip.a ++ (b'.' ∷ decimal ip.b) ++ (b'.' ∷ decimal ip.c) ++ (b'.' ∷ decimal ip.d)

abbrev kind_index : DeviceKind → ℕ
kind_index player_device = 0
kind_index mixer = 1
kind_index rekordbox = 2
kind_index all_in_one = 3
kind_index other = 4

-- `==` of options.
abbrev same_option {ℓ} : {A : Type ℓ} → (A → A → Bool) → Option A → Option A → Bool
same_option same none none = true
same_option same (some x) (some y) = same x y
same_option same _ _ = false

abbrev same_bool : Bool → Bool → Bool
same_bool true b = b
same_bool false b = not b

abbrev same_lists {ℓ} : {A : Type ℓ} → (A → A → Bool) → List A → List A → Bool
same_lists same [] [] = true
same_lists same (x ∷ xs) (y ∷ ys) = same x y && same_lists same xs ys
same_lists same _ _ = false

abbrev is_empty {ℓ} : {A : Type ℓ} → List A → Bool
is_empty [] = true
is_empty _ = false

module _ {F : Type 0} where
  -- `(a.number, &a.address).cmp(…)`: whether `x` comes before `y`.
  unfoldable pub comes_before : DeviceInfo F → DeviceInfo F → Bool
  unfolding less dotted
  comes_before x y =
      ltb x.number y.number || (x.number == y.number && less (dotted x.address) (dotted y.address))

  -- A stable sort: an element goes behind all that do not come after it.
  unfoldable pub sort_in : List (DeviceInfo F) → DeviceInfo F → List (DeviceInfo F)
  unfolding comes_before
  sort_in [] x = x ∷ []
  sort_in (y ∷ ys) x = let rest = sort_in ys x in if comes_before x y then x ∷ y ∷ ys else y ∷ rest

  unfoldable pub sorted : List (DeviceInfo F) → List (DeviceInfo F) → List (DeviceInfo F)
  unfolding sort_in
  sorted done [] = done
  sorted done (x ∷ xs) = sorted (sort_in done x) xs

  abbrev same_member : DeviceInfo F → DeviceInfo F → Bool
  same_member x y = x.number == y.number && same_addr x.address y.address

module _ (fl : Floats) where
  -- `==` of two `f64`: neither is below the other, and neither is a NaN.
  abbrev same64 : fl.F64 → fl.F64 → Bool
  same64 x y = fl.leb64 x y && fl.leb64 y x

  abbrev same_info : DeviceInfo fl.F64 → DeviceInfo fl.F64 → Bool
  same_info x y =
      x.number == y.number
      && list_eq x.name y.name
      && same_addr x.address y.address
      && kind_index x.kind == kind_index y.kind
      && same_option same64 x.bpm y.bpm
      && same_option same_bool x.playing y.playing
      && same_option same_bool x.master y.master
      && same_option same_bool x.on_air y.on_air

  -- `(b * 100.0).round() / 100.0`.
  abbrev rounded : Option fl.F64 → Option fl.F64
  rounded none = none
  rounded (some b) = some (fl.div64 (fl.round64 (fl.mul64 b (fl.lit64 100 1))) (fl.lit64 100 1))

  unfoldable pub deck_info : Ipv4Addr → ℕ → Option DeckStatus → DeviceInfo fl.F64
  unfolding effective_bpm is_playing is_master is_on_air
  deck_info addr number none = record {
    number = number;
    name = opus_name;
    address = addr;
    kind = all_in_one;
    bpm = none;
    playing = none;
    master = none;
    on_air = none;
  }
  deck_info addr number (some st) = record {
    number = number;
    name = opus_name;
    address = addr;
    kind = all_in_one;
    bpm = rounded (effective_bpm fl st);
    playing = some (is_playing st);
    master = some (is_master st);
    on_air = some (is_on_air st);
  }

  unfoldable pub deck_infos : Ipv4Addr → ℕ → List Deck → List (DeviceInfo fl.F64)
  unfolding deck_info
  deck_infos addr number [] = []
  deck_infos addr number (deck ∷ decks) =
      deck_info addr number deck.status ∷ deck_infos addr (number + 1) decks

  unfoldable pub peer_info : Peer → DeviceInfo fl.F64
  unfolding classify
  peer_info p = record {
    number = p.info.number;
    name = p.info.name;
    address = p.addr;
    kind = classify p.info;
    bpm = none;
    playing = none;
    master = none;
    on_air = none;
  }

  module _ {T : Type 0} where
    unfoldable pub devices : Session fl.F64 T → List (DeviceInfo fl.F64)
    unfolding deck_infos peer_info sorted
    devices self =
        let ours : List (DeviceInfo fl.F64) = elim self.unit [
          | none ↦ []
          | some u ↦ deck_infos u.addr 1 self.decks
        ] in
        sorted [] (ours ++ map peer_info self.peers)

    unfoldable pub due : Session fl.F64 T → List (DeviceInfo fl.F64) → ℕ → Bool
    due self list now = elim self.published [
      | none ↦ not (is_empty list)
      | some prev ↦
          if same_lists same_info prev list
          then false
          else not (same_lists same_member prev list)
            || leb devices_min_interval_ns (now - self.published_at)
    ]

    unfoldable pub maybe_publish : Session fl.F64 T → ℕ → Session fl.F64 T × List (Action fl.F64)
    unfolding devices due
    maybe_publish self now =
        if due self (devices self) now
        then (
          record self { published = some (devices self); published_at = now },
          event (SourceEvent.devices (devices self)) ∷ [],
        )
        else (self, [])
