-- ===== src/Opus/Session/Calls.antt =====
-- Any sequence of calls of the session keeps its invariant.
use player.Common.{
  ℕ, ◌-◌, ◌≡◌, ◌≢◌, refl, ◌∙◌, inl, inr, Option, none, some, Option-cases, List, [], ◌∷◌, set,
  get_or, arith, length-set,
}
use player.Common.Floats.{Floats}
use player.Common.Text.{list_eq}
use player.Prolink.Packets.{Ipv4Addr}
use player.Prolink.Devices.Follow.{FollowTarget}
use player.Opus.Packets.{opus_name, Result, err, ok}
use player.Opus.Packets.Status.{
  DeckStatus, deck, is_opus, LightingHello, AnnouncePacket, UpdatePacket, keep_alive, hello,
  parse_announce, parse_update,
}
use player.Opus.Session.{
  Action, Settings, no_deck, Tracking, Session, adopt_interface, new, set_interface,
  interface_failed,
}
use player.Opus.Session.Follow.{same_choice, reselect, set_follow}
use player.Opus.Session.Peers.{see_unit, on_keep_alive, chain}
use player.Opus.Session.Report.{devices, due, maybe_publish}
use player.Opus.Session.Decks.{
  with_flags, filled, observe, take_status, on_status, on_unit_status, after_hello, on_hello,
  on_update, on_announce,
}
use player.Opus.Session.Ticks.{announce, tick}
use player.Opus.Session.Invariant.{
  IsFlagged, Inv, if-Inv, reselect-Inv, set_follow-Inv, set_interface-Inv, interface_failed-Inv,
}
use player.Opus.Session.Kept.{
  set-All, with_flags-flags, like, see_unit-Inv, on_keep_alive-Inv, expire-Inv, warn_waiting-Inv,
  announce_from-Inv,
}

-- A call of the session by its owner.
pub data Call : Type 0 where
  announced_at : List ℕ → Ipv4Addr → ℕ → Call
  updated_at : List ℕ → Ipv4Addr → ℕ → Call
  ticked_at : ℕ → Call
  interface_found : Ipv4Addr → Call
  interface_missing : Call
  follow_set : FollowTarget → Call

module _ (fl : Floats) {T : Type 0} where
  maybe_publish-Inv :
      (self : Session fl.F64 T) (now : ℕ) → Inv self → Inv (maybe_publish fl self now).0
  unfolding maybe_publish
  maybe_publish-Inv self now h =
      if-Inv (due fl self (devices fl self) now)
        (record self { published = some (devices fl self); published_at = now }, _) (self, [])
        (like self _ refl refl refl h) h

  on_announce-Inv :
      (self : Session fl.F64 T) (bytes : List ℕ) (from : Ipv4Addr) (now : ℕ)
      → Inv self
      → Inv (on_announce fl self bytes from now).0
  unfolding on_announce
  on_announce-Inv self bytes from now h = by_packet (parse_announce bytes) refl
    where
      by_packet :
          (parsed : Result AnnouncePacket)
          → parse_announce bytes ≡ parsed
          → Inv (on_announce fl self bytes from now).0
      by_packet (ok (keep_alive ka)) e =
          rw (on_announce, e)
            (if-Inv _ (self, [])
              (chain (on_keep_alive self ka from now) (λ next. maybe_publish fl next now)) h
              (maybe_publish-Inv _ now (on_keep_alive-Inv self ka from now h)))
      by_packet (ok (AnnouncePacket.other k)) e = rw (on_announce, e) h
      by_packet (err problem) e = rw (on_announce, e) h

  module _ (tracking : Tracking fl.F64 T) where
    observe-Inv :
        (self : Session fl.F64 T) (d : ℕ) (st : DeckStatus) (now : ℕ)
        → Inv self
        → Inv (observe fl tracking self d st now).0
    unfolding observe
    observe-Inv self d st now h = like self _ refl refl refl h

    take_status-Inv :
        (self : Session fl.F64 T) (d : ℕ) (st : DeckStatus) (now : ℕ)
        → st.flags ≢ 0
        → Inv self
        → Inv (take_status fl tracking self d st now).0
    unfolding take_status
    take_status-Inv self d st now flags h =
        let stored : Session fl.F64 T = record self {
          decks = set self.decks (d - 1) (filled st now);
        } in
        let next = (reselect tracking stored).0 in
        let kept = reselect-Inv tracking stored (record {
          few = h.few;
          four = length-set self.decks (d - 1) (filled st now) ∙ h.four;
          flagged = set-All IsFlagged self.decks (d - 1) (filled st now) h.flagged flags;
          chosen = h.chosen;
        }) in
        if-Inv (same_choice next.followed (some d)) (observe fl tracking next d st now) (next, [])
          (observe-Inv next d st now kept) kept

    on_status-Inv :
        (self : Session fl.F64 T) (st : DeckStatus) (now : ℕ)
        → Inv self
        → Inv (on_status fl tracking self st now).0
    unfolding on_status
    on_status-Inv self st now h = elim (Option-cases (deck st)) [
      | inl e ↦ rw (on_status, e) h
      | inr (d, e) ↦ elim (Option-cases (with_flags (get_or self.decks (d - 1) no_deck) st)) [
        | inl e' ↦ rw (on_status, e, e') h
        | inr (taken, e') ↦
            rw (on_status, e, e')
              (take_status-Inv self d taken now
                (with_flags-flags (get_or self.decks (d - 1) no_deck) st taken e') h)
      ]
    ]

    on_unit_status-Inv :
        (self : Session fl.F64 T) (st : DeckStatus) (from : Ipv4Addr) (now : ℕ)
        → Inv self
        → Inv (on_unit_status fl tracking self st from now).0
    unfolding on_unit_status
    on_unit_status-Inv self st from now h =
        if-Inv (see_unit self from now).0 _ (self, [])
          (maybe_publish-Inv _ now (on_status-Inv _ st now (see_unit-Inv self from now h))) h

    after_hello-Inv :
        (self : Session fl.F64 T) (status : Option DeckStatus) (from : Ipv4Addr) (now : ℕ)
        → Inv self
        → Inv (after_hello fl tracking self status from now).0
    unfolding after_hello
    after_hello-Inv self none from now h = maybe_publish-Inv self now h
    after_hello-Inv self (some st) from now h = on_unit_status-Inv self st from now h

    on_hello-Inv :
        (self : Session fl.F64 T) (packet : LightingHello) (from : Ipv4Addr) (now : ℕ)
        → Inv self
        → Inv (on_hello fl tracking self packet from now).0
    unfolding on_hello
    on_hello-Inv self packet from now h =
        if-Inv (see_unit self from now).0 _ (self, [])
          (after_hello-Inv _ packet.status from now (see_unit-Inv self from now h)) h

    on_update-Inv :
        (self : Session fl.F64 T) (bytes : List ℕ) (from : Ipv4Addr) (now : ℕ)
        → Inv self
        → Inv (on_update fl tracking self bytes from now).0
    unfolding on_update
    on_update-Inv self bytes from now h = by_packet (parse_update bytes) refl
      where
        by_packet :
            (parsed : Result UpdatePacket)
            → parse_update bytes ≡ parsed
            → Inv (on_update fl tracking self bytes from now).0
        by_packet (ok (UpdatePacket.status st)) e =
            rw (on_update, e)
              (if-Inv (is_opus st) (on_unit_status fl tracking self st from now) (self, [])
                (on_unit_status-Inv self st from now h) h)
        by_packet (ok (hello packet)) e =
            rw (on_update, e)
              (if-Inv (list_eq packet.name opus_name) (on_hello fl tracking self packet from now)
                (self, []) (on_hello-Inv self packet from now h) h)
        by_packet (ok (UpdatePacket.other k)) e = rw (on_update, e) h
        by_packet (err problem) e = rw (on_update, e) h

    tick-Inv : (self : Session fl.F64 T) (now : ℕ) → Inv self → Inv (tick fl tracking self now).0
    unfolding tick announce
    tick-Inv self now h =
        let waited = warn_waiting-Inv _ now (expire-Inv tracking self now h) in
        maybe_publish-Inv _ now (announce_from-Inv _ _ _ now waited)

    -- What a call does.
    unfoldable pub step : Session fl.F64 T → Call → Session fl.F64 T × List (Action fl.F64)
    step self (announced_at bytes from now) = on_announce fl self bytes from now
    step self (updated_at bytes from now) = on_update fl tracking self bytes from now
    step self (ticked_at now) = tick fl tracking self now
    step self (interface_found ip) = set_interface self ip
    step self interface_missing = interface_failed self
    step self (follow_set target) = set_follow tracking self target

    unfoldable pub run : Session fl.F64 T → List Call → Session fl.F64 T
    unfolding step
    run self [] = self
    run self (call ∷ calls) = run (step self call).0 calls

    step-Inv : (self : Session fl.F64 T) (call : Call) → Inv self → Inv (step self call).0
    unfolding step
    step-Inv self (announced_at bytes from now) h = on_announce-Inv self bytes from now h
    step-Inv self (updated_at bytes from now) h = on_update-Inv self bytes from now h
    step-Inv self (ticked_at now) h = tick-Inv self now h
    step-Inv self (interface_found ip) h = set_interface-Inv self ip h
    step-Inv self interface_missing h = interface_failed-Inv self h
    step-Inv self (follow_set target) h = set_follow-Inv tracking self target h

    run-Inv : (self : Session fl.F64 T) (calls : List Call) → Inv self → Inv (run self calls)
    unfolding run
    run-Inv self [] h = h
    run-Inv self (call ∷ calls) h = run-Inv (step self call).0 calls (step-Inv self call h)

    new-Inv : (settings : Settings) (now : ℕ) → Inv (new tracking settings now)
    unfolding new adopt_interface
    new-Inv settings now = elim (Option-cases settings.interface) [
      | inl e ↦
          rw (new, e)
            ((record {
              few = omega arith;
              four = refl;
              flagged = (tt, (tt, (tt, (tt, tt))));
              chosen = tt;
            }))
      | inr (ip, e) ↦
          rw (new, e)
            ((record {
              few = omega arith;
              four = refl;
              flagged = (tt, (tt, (tt, (tt, tt))));
              chosen = tt;
            }))
    ]

    -- From a new session, whatever packets come in and whatever its owner calls, at most 64 other
    -- devices are tracked, there are four decks, none of which holds a status with a zero flag byte, and a
    -- followed deck is one of the four.
    pub run-new-Inv :
        (settings : Settings) (now : ℕ) (calls : List Call)
        → Inv (run (new tracking settings now) calls)
    run-new-Inv settings now calls =
        run-Inv (new tracking settings now) calls (new-Inv settings now)
