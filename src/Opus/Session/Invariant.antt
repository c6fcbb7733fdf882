-- ===== src/Opus/Session/Invariant.antt =====
-- The invariant of the session, kept by the choice of a deck and by the settings.
use player.Common.{
  ℕ, suc, ◌≤◌, ◌≡◌, ◌≢◌, refl, ap, ◌⊎◌, inl, inr, Bool, true, false, ◌&&◌, Bool-cases, Option, none,
  some, Option-cases, List, [], ◌∷◌, leb, if◌then◌else◌, length, arith, All, length-append,
}
use player.Common.Text.{list_eq}
use player.Prolink.Packets.{Ipv4Addr}
use player.Prolink.Devices.Follow.{FollowTarget, tempo_master, device}
use player.Opus.Packets.{KeepAlive}
use player.Opus.Packets.Status.{DeckStatus, is_master, is_playing}
use player.Opus.Session.{
  max_peers, Action, Peer, Deck, Tracking, Session, adopt_interface, set_interface,
  interface_failed,
}
use player.Opus.Session.Follow.{
  contains, keep, first, kept_in, or_else, only, choose_master, deck_numbers, status_is, decks_that,
  choose_for, choose, same_choice, refollow, report, reselect, set_follow,
}
use player.Opus.Session.Peers.{update_peer, note_peer, chain}
use player.Opus.Session.Ticks.{retain}

abbrev pub IsDeck : ℕ → Type 0
IsDeck d = (1 ≤ d) × (d ≤ 4)

abbrev pub IsChoice : Option ℕ → Type 0
IsChoice none = Unit {0}
IsChoice (some d) = IsDeck d

abbrev pub HasFlags : Option DeckStatus → Type 0
HasFlags none = Unit {0}
HasFlags (some st) = st.flags ≢ 0

abbrev pub IsFlagged : Deck → Type 0
IsFlagged slot = HasFlags slot.status

-- At most 64 other devices, four decks, no stored status with a zero flag byte, and a followed deck that
-- is one of the four.
pub record Inv {F T : Type 0} (self : Session F T) : Type 0 where
  pub few : length self.peers ≤ max_peers
  pub four : length self.decks ≡ 4
  pub flagged : All IsFlagged self.decks
  pub chosen : IsChoice self.followed

pub keep-All : (P : ℕ → Type 0) (p : ℕ → Bool) (ds : List ℕ) → All P ds → All P (keep p ds)
unfolding keep
keep-All P p [] h = tt
keep-All P p (x ∷ ds) (here, h) = ground (arith, keep-All P p ds h)

or_else-IsChoice : (x y : Option ℕ) → IsChoice x → IsChoice y → IsChoice (or_else x y)
or_else-IsChoice none y hx hy = hy
or_else-IsChoice (some d) y hx hy = hx

kept_in-IsChoice :
    (current : Option ℕ) (ds : List ℕ) → IsChoice current → IsChoice (kept_in current ds)
unfolding kept_in
kept_in-IsChoice none ds h = tt
kept_in-IsChoice (some c) ds h = elim (Bool-cases (contains ds c)) [
  | inl e ↦ rw e h
  | inr e ↦ rw e tt
]

first-IsChoice : (ds : List ℕ) → All IsDeck ds → IsChoice (first ds)
first-IsChoice [] h = tt
first-IsChoice (d ∷ ds) (here, h) = here

only-IsChoice : (ds : List ℕ) → All IsDeck ds → IsChoice (only ds)
only-IsChoice [] h = tt
only-IsChoice (d ∷ []) (here, h) = here
only-IsChoice (d ∷ e ∷ ds) h = tt

choose_master-IsChoice :
    (masters playing : List ℕ) (current : Option ℕ)
    → All IsDeck masters
    → All IsDeck playing
    → IsChoice current
    → IsChoice (choose_master masters playing current)
unfolding choose_master
choose_master-IsChoice masters playing current hm hp hc =
    let both = keep (contains playing) masters in
    or_else-IsChoice _ _ (kept_in-IsChoice current both hc) (
      or_else-IsChoice _ _ (first-IsChoice both (keep-All IsDeck (contains playing) masters hm)) (
        or_else-IsChoice _ _ (kept_in-IsChoice current playing hc)
          (or_else-IsChoice _ _ (only-IsChoice playing hp) (first-IsChoice masters hm))))

module _ {F T : Type 0} where
  decks_that-All : (f : DeckStatus → Bool) (self : Session F T) → All IsDeck (decks_that f self)
  unfolding decks_that
  decks_that-All f self = keep-All IsDeck (status_is f self) deck_numbers (
    (omega arith, omega arith),
    ((omega arith, omega arith), ((omega arith, omega arith), ((omega arith, omega arith), tt))),
  )

  choose_for-IsChoice :
      (target : FollowTarget) (self : Session F T)
      → IsChoice self.followed
      → IsChoice (choose_for target self)
  unfolding choose_for
  choose_for-IsChoice (device d) self h = elim (Bool-cases (leb 1 d && leb d 4)) [
    | inl e ↦ rw e (ground arith)
    | inr e ↦ rw e tt
  ]
  choose_for-IsChoice tempo_master self h =
      choose_master-IsChoice _ _ self.followed (decks_that-All is_master self)
        (decks_that-All is_playing self) h

  choose-IsChoice : (self : Session F T) → IsChoice self.followed → IsChoice (choose self)
  unfolding choose
  choose-IsChoice self h = elim (Option-cases self.unit) [
    | inl e ↦ rw (choose, e) tt
    | inr (u, e) ↦ rw (choose, e) (choose_for-IsChoice self.follow self h)
  ]

  pub if-Inv :
      (b : Bool) (x y : Session F T × List (Action F))
      → Inv x.0
      → Inv y.0
      → Inv (if b then x else y).0
  if-Inv true x y hx hy = hx
  if-Inv false x y hx hy = hy

  pub chain-Inv :
      (r : Session F T × List (Action F)) (next : Session F T → Session F T × List (Action F))
      → Inv r.0
      → ((s : Session F T) → Inv s → Inv (next s).0)
      → Inv (chain r next).0
  chain-Inv r next h keeps = keeps r.0 h

  report-Inv : (self : Session F T) (chosen : Option ℕ) → Inv self → Inv (report self chosen).0
  unfolding report
  report-Inv self chosen h =
      if-Inv _ (record self { follow_reported = some chosen }, _) (self, [])
        (record { few = h.few; four = h.four; flagged = h.flagged; chosen = h.chosen }) h

  refollow-Inv :
      (tracking : Tracking F T) (self : Session F T) (chosen : Option ℕ)
      → Inv self
      → IsChoice chosen
      → Inv (refollow tracking self chosen)
  unfolding refollow
  refollow-Inv tracking self chosen h c = elim (Bool-cases (same_choice chosen self.followed)) [
    | inl e ↦ rw e h
    | inr e ↦ rw e (record { few = h.few; four = h.four; flagged = h.flagged; chosen = c })
  ]

  pub reselect-Inv :
      (tracking : Tracking F T) (self : Session F T) → Inv self → Inv (reselect tracking self).0
  unfolding reselect
  reselect-Inv tracking self h =
      report-Inv (refollow tracking self (choose self)) (choose self)
        (refollow-Inv tracking self (choose self) h (choose-IsChoice self h.chosen))

  pub set_follow-Inv :
      (tracking : Tracking F T) (self : Session F T) (target : FollowTarget)
      → Inv self
      → Inv (set_follow tracking self target).0
  unfolding set_follow
  set_follow-Inv tracking self target h =
      reselect-Inv tracking (record self { follow = target })
        (record { few = h.few; four = h.four; flagged = h.flagged; chosen = h.chosen })

  pub set_interface-Inv :
      (self : Session F T) (ip : Ipv4Addr) → Inv self → Inv (set_interface self ip).0
  unfolding set_interface adopt_interface
  set_interface-Inv self ip h = record {
    few = h.few;
    four = h.four;
    flagged = h.flagged;
    chosen = h.chosen;
  }

  pub interface_failed-Inv : (self : Session F T) → Inv self → Inv (interface_failed self).0
  unfolding interface_failed
  interface_failed-Inv self h =
      if-Inv _ (record self { warned_interface = true }, _) (self, [])
        (record { few = h.few; four = h.four; flagged = h.flagged; chosen = h.chosen }) h

length-update_peer :
    (peers : List Peer) (ka : KeepAlive) (addr : Ipv4Addr) (now : ℕ)
    → (update_peer peers ka addr now ≡ none)
      ⊎ ((updated : List Peer) × (update_peer peers ka addr now ≡ some updated)
          × (length updated ≡ length peers))
unfolding update_peer
length-update_peer [] ka addr now = inl refl
length-update_peer (p ∷ peers) ka addr now = elim (Bool-cases (list_eq p.info.mac ka.mac)) [
  | inl e ↦ inr (record { info = ka; addr = addr; last_seen = now } ∷ peers, rw e refl, refl)
  | inr e ↦ elim (length-update_peer peers ka addr now) [
    | inl missing ↦ inl (rw (e, missing) refl)
    | inr (updated, found, same) ↦ inr (p ∷ updated, rw (e, found) refl, ap suc same)
  ]
]

pub length-note_peer :
    (peers : List Peer) (ka : KeepAlive) (addr : Ipv4Addr) (now : ℕ)
    → length peers ≤ max_peers
    → length (note_peer peers ka addr now) ≤ max_peers
unfolding note_peer
length-note_peer peers ka addr now h = elim (length-update_peer peers ka addr now) [
  | inr (updated, found, same) ↦ rw (note_peer, found) (omega (arith, same))
  | inl missing ↦
      rw (note_peer, missing)
        (elim (Bool-cases (leb max_peers (length peers))) [
          | inl full ↦ rw full h
          | inr room ↦ rw room (
              ground (
                arith,
                length-append peers (record { info = ka; addr = addr; last_seen = now } ∷ []),
              ))
        ])
]

pub length-retain : (now : ℕ) (peers : List Peer) → length (retain now peers) ≤ length peers
unfolding retain
length-retain now [] = omega arith
length-retain now (p ∷ peers) = ground (arith, length-retain now peers)
