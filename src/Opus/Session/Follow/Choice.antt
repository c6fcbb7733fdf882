-- ===== src/Opus/Session/Follow/Choice.antt =====
-- The deck that is chosen where the tempo master is to be followed.
use player.Common.{
  ℕ, ◌≡◌, refl, sym, ap, ◌∙◌, ◌⊎◌, inl, inr, Bool, true, false, ◌&&◌, Bool-cases, ==_iff, All, ◌-◌,
  get_or, Option, none, some, List, [], ◌∷◌, ◌==◌, if◌then◌else◌, arith,
}
use player.Prolink.Devices.Follow.{tempo_master}
use player.Opus.Packets.Status.{DeckStatus, is_master, is_playing}
use player.Opus.Session.{QuadUnit, no_deck, Session}
use player.Opus.Session.Follow.{
  contains, keep, first, kept_in, or_else, only, choose_master, status_is, decks_that, choose_for,
  choose, deck_numbers,
}

-- A choice as good as the lists allow: a playing master where there is one, else a playing deck or a
-- master, and none only where there is no master.
abbrev pub IsBest : List ℕ → List ℕ → List ℕ → Option ℕ → Type 0
IsBest both masters playing none = masters ≡ []
IsBest both masters playing (some d) =
    (contains both d ≡ true)
    ⊎ ((both ≡ []) × ((contains playing d ≡ true) ⊎ (contains masters d ≡ true)))

kept_in-cases :
    (current : Option ℕ) (decks : List ℕ)
    → (kept_in current decks ≡ none)
      ⊎ ((d : ℕ) × (kept_in current decks ≡ some d)
          × (current ≡ some d)
          × (contains decks d ≡ true))
unfolding kept_in
kept_in-cases none decks = inl refl
kept_in-cases (some c) decks = elim (Bool-cases (contains decks c)) [
  | inl e ↦ inr (c, rw e refl, refl, e)
  | inr e ↦ inl (rw e refl)
]

first-IsBest :
    (masters playing : List ℕ) → IsBest [] masters playing (or_else (only playing) (first masters))
first-IsBest [] [] = refl
first-IsBest (m ∷ masters) [] = inr (refl, inr (ground arith))
first-IsBest masters (d ∷ []) = inr (refl, inl (ground arith))
first-IsBest [] (d ∷ e ∷ playing) = refl
first-IsBest (m ∷ masters) (d ∷ e ∷ playing) = inr (refl, inr (ground arith))

fallback-IsBest :
    (both masters playing : List ℕ) (current : Option ℕ)
    → IsBest both masters playing (
        or_else
          (first both)
          (or_else (kept_in current playing) (or_else (only playing) (first masters))))
fallback-IsBest (d ∷ both) masters playing current = inl (ground arith)
fallback-IsBest [] masters playing current = elim (kept_in-cases current playing) [
  | inl e ↦ rw e (first-IsBest masters playing)
  | inr (d, e, same, held) ↦ rw e (inr (refl, inl held))
]

choose_master-IsBest :
    (masters playing : List ℕ) (current : Option ℕ)
    → IsBest
        (keep (contains playing) masters)
        masters
        playing
        (choose_master masters playing current)
unfolding choose_master
choose_master-IsBest masters playing current =
    let both = keep (contains playing) masters in
    elim (kept_in-cases current both) [
      | inl e ↦ rw e (fallback-IsBest both masters playing current)
      | inr (d, e, same, held) ↦ rw e (inl held)
    ]

-- A followed deck that is a playing master is kept.
abbrev pub Stays : List ℕ → Option ℕ → Option ℕ → Type 0
Stays both none chosen = Unit {0}
Stays both (some c) chosen = (contains both c ≡ false) ⊎ (chosen ≡ some c)

choose_master-Stays :
    (masters playing : List ℕ) (current : Option ℕ)
    → Stays (keep (contains playing) masters) current (choose_master masters playing current)
unfolding choose_master kept_in
choose_master-Stays masters playing none = tt
choose_master-Stays masters playing (some c) =
    elim (Bool-cases (contains (keep (contains playing) masters) c)) [
      | inl e ↦ inr (rw e refl)
      | inr e ↦ inl e
    ]

contains-keep-false :
    (p : ℕ → Bool) (ds : List ℕ) (d : ℕ) → p d ≡ false → contains (keep p ds) d ≡ false
unfolding keep
contains-keep-false p [] d e = refl
contains-keep-false p (x ∷ ds) d e = elim (Bool-cases (p x)) [
  | inl px ↦ elim (Bool-cases (x == d)) [
    | inl same ↦ absurd (cc (px, e, ap p ((==_iff x d).0 same)))
    | inr apart ↦ rw (px, apart) (contains-keep-false p ds d e)
  ]
  | inr px ↦ rw px (contains-keep-false p ds d e)
]

contains-keep :
    (p : ℕ → Bool) (ds : List ℕ) (d : ℕ) → contains ds d ≡ true → contains (keep p ds) d ≡ p d
unfolding keep
contains-keep p [] d h = absurd (cc h)
contains-keep p (x ∷ ds) d h = elim (Bool-cases (x == d)) [
  | inl same ↦
      let here : p x ≡ p d = ap p ((==_iff x d).0 same) in
      elim (Bool-cases (p x)) [
        | inl px ↦ rw (px, same) (sym px ∙ here)
        | inr px ↦ rw px (contains-keep-false p ds d (sym here ∙ px) ∙ sym px ∙ here)
      ]
  | inr apart ↦
      let later : contains ds d ≡ true = cc (h, apart) in
      elim (Bool-cases (p x)) [
        | inl px ↦ rw (px, apart) (contains-keep p ds d later)
        | inr px ↦ rw px (contains-keep p ds d later)
      ]
]

keep_both :
    (p m : ℕ → Bool) (qs ds : List ℕ)
    → All (λ d. contains qs d ≡ p d) ds
    → keep (contains qs) (keep m ds) ≡ keep (λ d. m d && p d) ds
unfolding keep
keep_both p m qs [] h = refl
keep_both p m qs (x ∷ ds) (here, h) = elim (Bool-cases (m x)) [
  | inl mx ↦ rw (mx, here, keep_both p m qs ds h) refl
  | inr mx ↦ rw (mx, keep_both p m qs ds h) refl
]

abbrev pub is_playing_master : DeckStatus → Bool
is_playing_master st = is_master st && is_playing st

keep_ext : (p q : ℕ → Bool) (ds : List ℕ) → ((d : ℕ) → p d ≡ q d) → keep p ds ≡ keep q ds
unfolding keep
keep_ext p q [] h = refl
keep_ext p q (x ∷ ds) h =
    ap (λ t. if p x then x ∷ t else t) (keep_ext p q ds h)
    ∙ ap (λ t. if t then x ∷ keep q ds else keep q ds) (h x)

status_both :
    (o : Option DeckStatus)
    → (elim o as (λ x. Bool) [ none ↦ false | some st ↦ is_master st ]
        && elim o as (λ x. Bool) [ none ↦ false | some st ↦ is_playing st ])
      ≡ elim o as (λ x. Bool) [ none ↦ false | some st ↦ is_playing_master st ]
status_both none = refl
status_both (some st) = refl

module _ {F T : Type 0} (self : Session F T) where
  abbrev plays : ℕ → Bool
  plays = status_is is_playing self

  numbered : All (λ d. contains (decks_that is_playing self) d ≡ plays d) deck_numbers
  unfolding decks_that
  numbered =
      let found : (d : ℕ)
          → contains deck_numbers d ≡ true
          → contains (keep plays deck_numbers) d ≡ plays d =
        contains-keep plays deck_numbers in
      (found 1 refl, (found 2 refl, (found 3 refl, (found 4 refl, tt))))

  playing_masters :
      keep (contains (decks_that is_playing self)) (decks_that is_master self)
      ≡ decks_that is_playing_master self
  unfolding decks_that status_is
  playing_masters =
      keep_both plays (status_is is_master self) (decks_that is_playing self) deck_numbers numbered
      ∙ keep_ext _ (status_is is_playing_master self) deck_numbers
          (λ d. status_both (get_or self.decks (d - 1) no_deck).status)

  -- Following the tempo master, with the unit seen: the deck is a playing tempo master where there is
  -- one, else one that plays or a stopped master, and there is none only where no deck is master. The
  -- followed deck is kept while it is a playing tempo master.
  pub choose-IsBest :
      (u : QuadUnit)
      → self.unit ≡ some u
      → self.follow ≡ tempo_master
      → IsBest
          (decks_that is_playing_master self)
          (decks_that is_master self)
          (decks_that is_playing self)
          (choose self)
        × Stays (decks_that is_playing_master self) self.followed (choose self)
  unfolding choose choose_for
  choose-IsBest u seen follows =
      let masters = decks_that is_master self in
      let playing = decks_that is_playing self in
      rw (choose, seen, choose_for, follows, sym playing_masters)
        (
          choose_master-IsBest masters playing self.followed,
          choose_master-Stays masters playing self.followed,
        )
