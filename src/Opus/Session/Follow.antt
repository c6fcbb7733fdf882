-- ===== src/Opus/Session/Follow.antt =====
-- core/sync/src/opus/session.rs: which deck is followed.
pub mod Choice
use player.Common.{
  ℕ, suc, ◌+◌, ◌-◌, Bool, true, false, not, ◌&&◌, ◌||◌, Option, none, some, List, [], ◌∷◌, leb,
  ◌==◌, if◌then◌else◌, length, get_or, is_some,
}
use player.Prolink.Devices.Follow.{FollowTarget, tempo_master, device}
use player.Opus.Packets.Status.{DeckStatus, is_master, is_playing}
use player.Opus.Session.{
  Action, Message, following_master, following, no_deck_to_follow, no_such_deck, Deck, no_deck,
  Tracking, Session, say,
}

abbrev pub contains : List ℕ → ℕ → Bool
contains [] d = false
contains (x ∷ xs) d = x == d || contains xs d

unfoldable pub keep : (ℕ → Bool) → List ℕ → List ℕ
keep p [] = []
keep p (d ∷ ds) = let kept = keep p ds in if p d then d ∷ kept else kept

abbrev pub first : List ℕ → Option ℕ
first [] = none
first (d ∷ ds) = some d

-- `current.filter(|c| decks.contains(c))`.
unfoldable pub kept_in : Option ℕ → List ℕ → Option ℕ
kept_in none decks = none
kept_in (some c) decks = if contains decks c then some c else none

abbrev pub or_else : Option ℕ → Option ℕ → Option ℕ
or_else none otherwise = otherwise
or_else (some d) otherwise = some d

abbrev pub only : List ℕ → Option ℕ
only (d ∷ []) = some d
only _ = none

-- The playing tempo master, staying put; else the deck followed while it plays; else the only one that
-- plays; else a stopped master.
unfoldable pub choose_master : List ℕ → List ℕ → Option ℕ → Option ℕ
unfolding keep kept_in
choose_master masters playing current =
    let playing_masters = keep (contains playing) masters in
    or_else (kept_in current playing_masters) (
      or_else (first playing_masters)
        (or_else (kept_in current playing) (or_else (only playing) (first masters))))

abbrev pub same_choice : Option ℕ → Option ℕ → Bool
same_choice none none = true
same_choice (some d) (some e) = d == e
same_choice _ _ = false

abbrev pub is_reported : Option (Option ℕ) → Option ℕ → Bool
is_reported none chosen = false
is_reported (some before) chosen = same_choice before chosen

unfoldable pub choice_message : Option ℕ → FollowTarget → Message
choice_message (some d) tempo_master = following_master d
choice_message (some d) (device n) = following d
choice_message none tempo_master = no_deck_to_follow
choice_message none (device d) = no_such_deck d

abbrev pub deck_numbers : List ℕ
deck_numbers = 1 ∷ 2 ∷ 3 ∷ 4 ∷ []

module _ {F T : Type 0} where
  -- `status(d).is_some_and(f)`.
  unfoldable pub status_is : (DeckStatus → Bool) → Session F T → ℕ → Bool
  status_is f self d = elim (get_or self.decks (d - 1) no_deck).status [
    | none ↦ false
    | some st ↦ f st
  ]

  unfoldable pub decks_that : (DeckStatus → Bool) → Session F T → List ℕ
  unfolding status_is keep
  decks_that f self = keep (status_is f self) deck_numbers

  unfoldable pub choose_for : FollowTarget → Session F T → Option ℕ
  unfolding decks_that choose_master
  choose_for (device d) self = if leb 1 d && leb d 4 then some d else none
  choose_for tempo_master self =
      choose_master (decks_that is_master self) (decks_that is_playing self) self.followed

  unfoldable pub choose : Session F T → Option ℕ
  unfolding choose_for
  choose self = elim self.unit [ none ↦ none | some u ↦ choose_for self.follow self ]

  -- The followed deck is set, and the tracker reset where it is another one.
  unfoldable pub refollow : Tracking F T → Session F T → Option ℕ → Session F T
  refollow tracking self chosen =
      if same_choice chosen self.followed
      then self
      else record self { followed = chosen; tracker = tracking.reset self.tracker }

  unfoldable pub report : Session F T → Option ℕ → Session F T × List (Action F)
  unfolding choice_message
  report self chosen =
      if is_some self.unit && not (is_reported self.follow_reported chosen)
      then (
        record self { follow_reported = some chosen },
        say false (choice_message chosen self.follow),
      )
      else (self, [])

  unfoldable pub reselect : Tracking F T → Session F T → Session F T × List (Action F)
  unfolding choose refollow report
  reselect tracking self = report (refollow tracking self (choose self)) (choose self)

  unfoldable pub set_follow :
      Tracking F T → Session F T → FollowTarget → Session F T × List (Action F)
  unfolding reselect
  set_follow tracking self target = reselect tracking (record self { follow = target })
