-- ===== src/Opus/Session/Peers.antt =====
-- core/sync/src/opus/session.rs: the other devices, and the number that the program announces.
pub mod Numbers
use player.Common.{
  ℕ, zero, suc, ◌+◌, Bool, true, false, not, ◌&&◌, ◌||◌, Option, none, some, List, [], ◌∷◌, ◌++◌,
  ltb, leb, ◌==◌, if◌then◌else◌, length,
}
use player.Common.Text.{list_eq}
use player.Prolink.Packets.{Ipv4Addr}
use player.Opus.Packets.{opus_name, rekordbox_name, KeepAlive, Result, err, ok}
use player.Opus.Packets.Status.{AnnouncePacket, keep_alive, parse_announce}
use player.Opus.Session.{
  max_peers, Action, unit_found, number_taken, no_number_free, QuadUnit, Peer, Session, say,
  same_addr,
}

-- `<` of arrays of bytes.
unfoldable pub less : List ℕ → List ℕ → Bool
less [] [] = false
less [] (y ∷ ys) = true
less (x ∷ xs) [] = false
less (x ∷ xs) (y ∷ ys) = ltb x y || (x == y && less xs ys)

unfoldable pub has_number : List Peer → ℕ → Bool
has_number [] n = false
has_number (p ∷ peers) n = p.info.number == n || has_number peers n

-- `ours.map_or(true, |m| p.info.mac < m)`.
unfoldable pub wins : Option (List ℕ) → List ℕ → Bool
unfolding less
wins none theirs = true
wins (some ours) theirs = less theirs ours

unfoldable pub must_yield : List Peer → ℕ → Option (List ℕ) → Bool
unfolding wins
must_yield [] number ours = false
must_yield (p ∷ peers) number ours =
    (p.info.number == number && (not (list_eq p.info.name rekordbox_name) || wins ours p.info.mac))
    || must_yield peers number ours

-- `FALLBACK_DEVICE_NUMBERS`, `count` numbers from `from` on: 0x13 to 0x27.
unfoldable pub free_number : ℕ → ℕ → List Peer → Option ℕ
unfolding has_number
free_number zero from peers = none
free_number (suc count) from peers =
    let later = free_number count (from + 1) peers in
    if not (has_number peers from) then some from else later

abbrev pub fallback_first : ℕ
fallback_first = 0x13

abbrev pub fallback_count : ℕ
fallback_count = 21

-- The peer with the address `mac` replaced, or none where there is no such peer.
unfoldable pub update_peer : List Peer → KeepAlive → Ipv4Addr → ℕ → Option (List Peer)
update_peer [] ka addr now = none
update_peer (p ∷ peers) ka addr now =
    let rest = update_peer peers ka addr now in
    if list_eq p.info.mac ka.mac
    then some (record { info = ka; addr = addr; last_seen = now } ∷ peers)
    else elim rest [ none ↦ none | some updated ↦ some (p ∷ updated) ]

unfoldable pub note_peer : List Peer → KeepAlive → Ipv4Addr → ℕ → List Peer
unfolding update_peer
note_peer peers ka addr now = elim (update_peer peers ka addr now) [
  | some updated ↦ updated
  | none ↦
      if leb max_peers (length peers)
      then peers
      else peers ++ record { info = ka; addr = addr; last_seen = now } ∷ []
]

abbrev pub is_ours : Option (List ℕ) → List ℕ → Bool
is_ours none theirs = false
is_ours (some ours) theirs = list_eq theirs ours

abbrev pub is_interface : Option Ipv4Addr → Ipv4Addr → Bool
is_interface none addr = false
is_interface (some ip) addr = same_addr ip addr

module _ {F T : Type 0} where
  -- The choice among the fallback numbers.
  unfoldable pub take_number : Session F T → Option ℕ → Session F T × List (Action F)
  take_number self (some n) =
      (record self { number = n; next_announce = none }, say true (number_taken self.number n))
  take_number self none =
      if not self.warned_number
      then (record self { warned_number = true }, say true (no_number_free self.number))
      else (self, [])

  unfoldable pub defend_number : Session F T → Session F T × List (Action F)
  unfolding must_yield free_number take_number
  defend_number self =
      if not (must_yield self.peers self.number self.mac)
      then (self, [])
      else take_number self (free_number fallback_count fallback_first self.peers)

  -- Whether the unit at `addr` is the one that is followed, with the new state.
  unfoldable pub see_unit : Session F T → Ipv4Addr → ℕ → Bool × Session F T × List (Action F)
  see_unit self addr now = elim self.unit [
    | some u ↦
        if same_addr u.addr addr
        then (true, record self { unit = some (record { addr = u.addr; last_seen = now }) }, [])
        else (false, self, [])
    | none ↦ (
      true,
      record self { unit = some (record { addr = addr; last_seen = now }); next_announce = none },
      say false (unit_found addr),
    )
  ]

  -- One operation after another.
  abbrev pub chain :
      Session F T × List (Action F)
      → (Session F T → Session F T × List (Action F))
      → Session F T × List (Action F)
  chain (self, out) next = let (self', out') = next self in (self', out ++ out')

  unfoldable pub on_keep_alive :
      Session F T → KeepAlive → Ipv4Addr → ℕ → Session F T × List (Action F)
  unfolding see_unit defend_number note_peer
  on_keep_alive self ka addr now =
      if list_eq ka.name opus_name
      then (let (seen, next, out) = see_unit self addr now in (next, out))
      else defend_number (record self { peers = note_peer self.peers ka addr now })
