-- ===== src/Opus/Session/Ticks.antt =====
-- core/sync/src/opus/session.rs: the periodic work.

use player.Common.{
  ℕ, ◌-◌, Bool, true, false, not, ◌&&◌, Option, none, some, List, [], ◌∷◌, map, ltb, if◌then◌else◌,
  saturating_add, replicate, is_some,
}
use player.Common.Floats.{Floats}
use player.Prolink.Packets.{Ipv4Addr}
use player.Opus.Packets.{to_bytes, lighting_request}
use player.Opus.Packets.{rekordbox as lighting}
use player.Opus.Session.{
  expiry_ns, waiting_warning_ns, Via, Action, send, no_unit_yet, unit_lost, QuadUnit, Peer, Deck,
  no_deck, Tracking, Session, say, value_or, default_broadcast,
}
use player.Opus.Session.Follow.{reselect}
use player.Opus.Session.Peers.{chain}
use player.Opus.Session.Report.{maybe_publish}

abbrev pub stale : ℕ → ℕ → Bool
stale now t = ltb expiry_ns (now - t)

unfoldable pub retain : ℕ → List Peer → List Peer
retain now [] = []
retain now (p ∷ peers) =
    let kept = retain now peers in if not (stale now p.last_seen) then p ∷ kept else kept

unfoldable pub expire_deck : ℕ → Deck → Deck
expire_deck now deck =
    if is_some deck.status && stale now deck.last_status
    then record deck { status = none }
    else deck

-- `self.next_announce.is_some_and(|t| now < t)`.
abbrev pub not_yet : Option ℕ → ℕ → Bool
not_yet none now = false
not_yet (some t) now = ltb now t

module _ {F T : Type 0} where
  -- The peers and decks, before the unit is looked at.
  unfoldable pub forget_stale : Session F T → ℕ → Session F T
  unfolding retain expire_deck
  forget_stale self now = record self {
    peers = retain now self.peers;
    decks = map (expire_deck now) self.decks;
  }

  -- `if self.settings.interface.is_none() { self.interface = None }`.
  abbrev kept_interface : Session F T → Option Ipv4Addr
  kept_interface self = elim self.settings.interface [ none ↦ none | some ip ↦ self.interface ]

  unfoldable pub lose_unit : Session F T → QuadUnit → Session F T × List (Action F)
  lose_unit self u = (
    record self {
      unit = none;
      decks = replicate 4 no_deck;
      follow_reported = none;
      interface = kept_interface self;
    },
    say true (unit_lost u.addr),
  )

  unfoldable pub expire_unit : Session F T → ℕ → Session F T × List (Action F)
  unfolding lose_unit
  expire_unit self now = elim self.unit [
    | none ↦ (self, [])
    | some u ↦ if stale now u.last_seen then lose_unit self u else (self, [])
  ]

  unfoldable pub expire : Tracking F T → Session F T → ℕ → Session F T × List (Action F)
  unfolding forget_stale expire_unit reselect
  expire tracking self now =
      chain (expire_unit (forget_stale self now) now) (λ next. reselect tracking next)

  unfoldable pub warn_waiting : Session F T → ℕ → Session F T × List (Action F)
  warn_waiting self now =
      if not (is_some self.unit)
        && not self.warned_waiting
        && ltb waiting_warning_ns (now - self.started)
      then (record self { warned_waiting = true }, say true no_unit_yet)
      else (self, [])

  -- The packets of one announcement.
  unfoldable pub announcement : Session F T → Ipv4Addr → List ℕ → List (Action F)
  unfolding default_broadcast lighting to_bytes lighting_request
  announcement self ip mac =
      send Via.announce (value_or self.settings.broadcast (default_broadcast ip))
        self.settings.peer_announce_port (to_bytes (lighting self.number mac ip))
      ∷ elim self.unit [
        | none ↦ []
        | some u ↦
            send Via.update u.addr self.settings.peer_update_port
              (lighting_request self.number self.settings.computer_name)
            ∷ []
      ]

  -- The time of the next announcement.
  abbrev pub announced : Session F T → ℕ → Session F T
  announced self now = record self {
    next_announce = some (saturating_add now self.settings.announce_interval_ns);
  }

  unfoldable pub announce_from :
      Session F T → Option Ipv4Addr → Option (List ℕ) → ℕ → Session F T × List (Action F)
  unfolding announcement
  announce_from self (some ip) (some mac) now =
      if not_yet self.next_announce now
      then (self, [])
      else (announced self now, announcement self ip mac)
  announce_from self _ _ now = (self, [])

  unfoldable pub announce : Session F T → ℕ → Session F T × List (Action F)
  unfolding announce_from
  announce self now = announce_from self self.interface self.mac now

module _ (fl : Floats) {T : Type 0} (tracking : Tracking fl.F64 T) where
  unfoldable pub tick : Session fl.F64 T → ℕ → Session fl.F64 T × List (Action fl.F64)
  unfolding expire warn_waiting announce maybe_publish
  tick self now =
      chain
        (chain (chain (expire tracking self now) (λ next. warn_waiting next now))
          (λ next. announce next now))
        (λ next. maybe_publish fl next now)
