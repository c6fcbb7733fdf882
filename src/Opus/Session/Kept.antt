-- ===== src/Opus/Session/Kept.antt =====
-- Each operation of the session keeps the invariant: other devices, the unit, expiry, announcing.
use player.Common.{
  ℕ, zero, suc, ◌≡◌, ◌≢◌, refl, ap, ◌∙◌, inl, inr, true, ◌&&◌, Bool-cases, Option, none, some,
  Option-cases, List, [], ◌∷◌, map, length, set, arith, All, length-map, is_some,
}
use player.Common.Text.{list_eq}
use player.Prolink.Packets.{Ipv4Addr}
use player.Opus.Packets.{opus_name, KeepAlive}
use player.Opus.Packets.Status.{DeckStatus}
use player.Opus.Session.{Deck, Tracking, Session, same_addr}
use player.Opus.Session.Peers.{
  note_peer, take_number, free_number, fallback_first, fallback_count, defend_number, see_unit,
  on_keep_alive,
}
use player.Opus.Session.Decks.{with_flags}
use player.Opus.Session.Ticks.{
  stale, expire_deck, forget_stale, lose_unit, expire_unit, expire, warn_waiting, not_yet,
  announced, announcement, announce_from,
}
use player.Opus.Session.Invariant.{
  IsFlagged, Inv, if-Inv, reselect-Inv, length-note_peer, length-retain,
}

pub set-All :
    (P : Deck → Type 0) (xs : List Deck) (i : ℕ) (v : Deck) → All P xs → P v → All P (set xs i v)
set-All P [] i v h hv = tt
set-All P (x ∷ xs) zero v (here, h) hv = (hv, h)
set-All P (x ∷ xs) (suc i) v (here, h) hv = (here, set-All P xs i v h hv)

pub expire_deck-HasFlags :
    (now : ℕ) (slot : Deck) → IsFlagged slot → IsFlagged (expire_deck now slot)
unfolding expire_deck
expire_deck-HasFlags now slot h =
    elim (Bool-cases (is_some slot.status && stale now slot.last_status)) [
      | inl e ↦ rw e tt
      | inr e ↦ rw e h
    ]

pub expire_deck-IsFlagged :
    (now : ℕ) (slots : List Deck)
    → All IsFlagged slots
    → All IsFlagged (map (expire_deck now) slots)
expire_deck-IsFlagged now [] h = tt
expire_deck-IsFlagged now (slot ∷ slots) (here, h) =
    (expire_deck-HasFlags now slot here, expire_deck-IsFlagged now slots h)

-- A status that is taken has a flag byte that is not zero.
pub with_flags-flags :
    (slot : Deck) (st taken : DeckStatus) → with_flags slot st ≡ some taken → taken.flags ≢ 0
unfolding with_flags
with_flags-flags slot st taken e = ground arith

module _ {F T : Type 0} where
  -- A change of fields that the invariant does not speak of.
  pub like :
      (self next : Session F T)
      → next.peers ≡ self.peers
      → next.decks ≡ self.decks
      → next.followed ≡ self.followed
      → Inv self
      → Inv next
  like self next ep ed ef h = record {
    few = rw ep h.few;
    four = ap length ed ∙ h.four;
    flagged = rw ed h.flagged;
    chosen = rw ef h.chosen;
  }

  pub take_number-Inv :
      (self : Session F T) (found : Option ℕ) → Inv self → Inv (take_number self found).0
  unfolding take_number
  take_number-Inv self (some n) h = like self _ refl refl refl h
  take_number-Inv self none h =
      if-Inv _ (record self { warned_number = true }, _) (self, []) (like self _ refl refl refl h) h

  pub defend_number-Inv : (self : Session F T) → Inv self → Inv (defend_number self).0
  unfolding defend_number
  defend_number-Inv self h =
      if-Inv _ (self, []) (take_number self (free_number fallback_count fallback_first self.peers))
        h (take_number-Inv self (free_number fallback_count fallback_first self.peers) h)

  pub see_unit-Inv :
      (self : Session F T) (addr : Ipv4Addr) (now : ℕ) → Inv self → Inv (see_unit self addr now).1
  unfolding see_unit
  see_unit-Inv self addr now h = elim (Option-cases self.unit) [
    | inl e ↦ rw (see_unit, e) (like self _ refl refl refl h)
    | inr (u, e) ↦ elim (Bool-cases (same_addr u.addr addr)) [
      | inl same ↦ rw (see_unit, e, same) (like self _ refl refl refl h)
      | inr apart ↦ rw (see_unit, e, apart) h
    ]
  ]

  pub on_keep_alive-Inv :
      (self : Session F T) (ka : KeepAlive) (addr : Ipv4Addr) (now : ℕ)
      → Inv self
      → Inv (on_keep_alive self ka addr now).0
  unfolding on_keep_alive
  on_keep_alive-Inv self ka addr now h =
      if-Inv (list_eq ka.name opus_name) _
        (defend_number (record self { peers = note_peer self.peers ka addr now }))
        (see_unit-Inv self addr now h)
        (defend_number-Inv _ (record {
          few = length-note_peer self.peers ka addr now h.few;
          four = h.four;
          flagged = h.flagged;
          chosen = h.chosen;
        }))

  pub forget_stale-Inv : (self : Session F T) (now : ℕ) → Inv self → Inv (forget_stale self now)
  unfolding forget_stale
  forget_stale-Inv self now h = record {
    few = omega (arith, length-retain now self.peers, h.few);
    four = length-map (expire_deck now) self.decks ∙ h.four;
    flagged = expire_deck-IsFlagged now self.decks h.flagged;
    chosen = h.chosen;
  }

  pub expire_unit-Inv : (self : Session F T) (now : ℕ) → Inv self → Inv (expire_unit self now).0
  unfolding expire_unit lose_unit
  expire_unit-Inv self now h = elim (Option-cases self.unit) [
    | inl e ↦ rw (expire_unit, e) h
    | inr (u, e) ↦
        rw (expire_unit, e)
          (if-Inv _ (lose_unit self u) (self, [])
            (record {
              few = h.few;
              four = refl;
              flagged = (tt, (tt, (tt, (tt, tt))));
              chosen = h.chosen;
            })
            h)
  ]

  pub expire-Inv :
      (tracking : Tracking F T) (self : Session F T) (now : ℕ)
      → Inv self
      → Inv (expire tracking self now).0
  unfolding expire
  expire-Inv tracking self now h =
      reselect-Inv tracking _
        (expire_unit-Inv (forget_stale self now) now (forget_stale-Inv self now h))

  pub warn_waiting-Inv : (self : Session F T) (now : ℕ) → Inv self → Inv (warn_waiting self now).0
  unfolding warn_waiting
  warn_waiting-Inv self now h =
      if-Inv _ (record self { warned_waiting = true }, _) (self, []) (like self _ refl refl refl h)
        h

  pub announce_from-Inv :
      (self : Session F T) (ip : Option Ipv4Addr) (mac : Option (List ℕ)) (now : ℕ)
      → Inv self
      → Inv (announce_from self ip mac now).0
  unfolding announce_from
  announce_from-Inv self none mac now h = h
  announce_from-Inv self (some ip) none now h = h
  announce_from-Inv self (some ip) (some mac) now h =
      if-Inv (not_yet self.next_announce now) (self, [])
        (announced self now, announcement self ip mac) h
        (like self (announced self now) refl refl refl h)
