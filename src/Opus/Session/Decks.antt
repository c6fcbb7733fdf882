-- ===== src/Opus/Session/Decks.antt =====
-- core/sync/src/opus/session.rs: what a status packet does, and the handlers of both ports.
use player.Common.{
  ℕ, ◌-◌, ◌&&◌, ◌||◌, Option, none, some, List, [], ◌∷◌, ◌==◌, if◌then◌else◌, get_or, set,
}
use player.Common.Floats.{Floats}
use player.Common.Text.{list_eq}
use player.Prolink.Packets.{Ipv4Addr}
use player.Opus.Packets.{opus_name, rekordbox_name, ok}
use player.Opus.Packets.Status.{
  DeckStatus, deck, is_opus, beat_number, beat_within_bar, is_playing, effective_bpm, LightingHello,
  keep_alive, hello, UpdatePacket, parse_announce, parse_update,
}
use player.Opus.Session.{
  Action, event, observation, Phase, bar, beat, coarse, Deck, no_deck, Tracking, Session,
}
use player.Opus.Session.Follow.{reselect, same_choice}
use player.Opus.Session.Peers.{see_unit, on_keep_alive, is_ours, is_interface, chain}
use player.Opus.Session.Report.{maybe_publish}

-- A status whose flag byte is zero takes the last valid one, and is dropped where there is none.
unfoldable pub with_flags : Deck → DeckStatus → Option DeckStatus
with_flags slot st =
    if st.flags == 0
    then (if slot.last_valid_flags == 0
        then none
        else some (record st { flags = slot.last_valid_flags }))
    else some st

-- The slot with a status that is taken.
abbrev pub filled : DeckStatus → ℕ → Deck
filled st now = record { status = some st; last_status = now; last_valid_flags = st.flags }

module _ (fl : Floats) where
  -- The phase of an observation.
  unfoldable pub phase_of : Option ℕ → Phase fl.F64
  phase_of none = beat (fl.lit64 0 1)
  phase_of (some b) = bar (fl.of_u64 (b - 1))

  module _ {T : Type 0} (tracking : Tracking fl.F64 T) where
    -- What the tracker makes of a status of the followed deck.
    unfoldable pub observe :
        Session fl.F64 T → ℕ → DeckStatus → ℕ → Session fl.F64 T × List (Action fl.F64)
    unfolding effective_bpm beat_number is_playing beat_within_bar phase_of
    observe self d st now =
        let bpm = effective_bpm fl st in
        let (estimate, next) =
          tracking.update now (beat_number st) (is_playing st) bpm self.tracker in
        (
          record self { tracker = next },
          elim estimate [
            | none ↦ []
            | some host_ns ↦
                event (observation host_ns (phase_of (beat_within_bar st)) bpm coarse (some d)) ∷ []
          ],
        )

    -- The status is stored and the deck chosen anew; the followed deck is observed.
    unfoldable pub take_status :
        Session fl.F64 T → ℕ → DeckStatus → ℕ → Session fl.F64 T × List (Action fl.F64)
    unfolding reselect observe
    take_status self d st now =
        chain (reselect tracking (record self { decks = set self.decks (d - 1) (filled st now) }))
          (λ next. if same_choice next.followed (some d) then observe next d st now else (next, []))

    unfoldable pub on_status :
        Session fl.F64 T → DeckStatus → ℕ → Session fl.F64 T × List (Action fl.F64)
    unfolding deck with_flags take_status
    on_status self st now = elim (deck st) [
      | none ↦ (self, [])
      | some d ↦ elim (with_flags (get_or self.decks (d - 1) no_deck) st) [
        | none ↦ (self, [])
        | some taken ↦ take_status self d taken now
      ]
    ]

    -- A status from the unit at `from`, once it is known to be its own.
    unfoldable pub on_unit_status :
        Session fl.F64 T → DeckStatus → Ipv4Addr → ℕ → Session fl.F64 T × List (Action fl.F64)
    unfolding see_unit on_status maybe_publish
    on_unit_status self st from now =
        let (seen, noted, out) = see_unit self from now in
        if seen
        then chain (chain (noted, out) (λ next. on_status next st now))
            (λ next. maybe_publish fl next now)
        else (self, [])

    -- A hello of the unit, which may carry a status.
    unfoldable pub after_hello :
        Session fl.F64 T
        → Option DeckStatus
        → Ipv4Addr
        → ℕ
        → Session fl.F64 T × List (Action fl.F64)
    unfolding on_unit_status maybe_publish
    after_hello self none from now = maybe_publish fl self now
    after_hello self (some st) from now = on_unit_status self st from now

    unfoldable pub on_hello :
        Session fl.F64 T → LightingHello → Ipv4Addr → ℕ → Session fl.F64 T × List (Action fl.F64)
    unfolding see_unit after_hello
    on_hello self packet from now =
        let (seen, noted, out) = see_unit self from now in
        if seen
        then chain (noted, out) (λ next. after_hello next packet.status from now)
        else (self, [])

    unfoldable pub on_update :
        Session fl.F64 T → List ℕ → Ipv4Addr → ℕ → Session fl.F64 T × List (Action fl.F64)
    unfolding parse_update is_opus on_unit_status on_hello
    on_update self bytes from now = elim (parse_update bytes) [
      | ok (UpdatePacket.status st) ↦
          if is_opus st then on_unit_status self st from now else (self, [])
      | ok (hello packet) ↦
          if list_eq packet.name opus_name then on_hello self packet from now else (self, [])
      | _ ↦ (self, [])
    ]

  module _ {T : Type 0} where
    unfoldable pub on_announce :
        Session fl.F64 T → List ℕ → Ipv4Addr → ℕ → Session fl.F64 T × List (Action fl.F64)
    unfolding parse_announce on_keep_alive maybe_publish
    on_announce self bytes from now = elim (parse_announce bytes) [
      | ok (keep_alive ka) ↦
          if (is_interface self.interface from && list_eq ka.name rekordbox_name)
            || is_ours self.mac ka.mac
          then (self, [])
          else chain (on_keep_alive self ka from now) (λ next. maybe_publish fl next now)
      | _ ↦ (self, [])
    ]
