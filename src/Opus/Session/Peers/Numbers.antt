-- ===== src/Opus/Session/Peers/Numbers.antt =====
-- Conflicts over the device number.
use player.Common.{
  ℕ, zero, suc, ◌+◌, ◌≤◌, ◌<◌, ◌≡◌, ◌≢◌, refl, ap, ◌∙◌, ◌⊎◌, inl, inr, true, false, not, Bool-cases,
  Option, none, some, List, [], ◌∷◌, ◌==◌, arith,
}
use player.Opus.Packets.{rekordbox_name}
use player.Opus.Session.{Peer, Session}
use player.Opus.Session.Peers.{
  less, has_number, wins, must_yield, free_number, fallback_first, fallback_count, take_number,
  defend_number,
}

-- A number that no peer uses is not contested.
unused-must_yield :
    (peers : List Peer) (n : ℕ) (ours : Option (List ℕ))
    → has_number peers n ≡ false
    → must_yield peers n ours ≡ false
unfolding has_number must_yield
unused-must_yield [] n ours h = refl
unused-must_yield (p ∷ peers) n ours h = ground (arith, unused-must_yield peers n ours)

-- Every number of the range is used.
abbrev pub AllUsed : List Peer → ℕ → ℕ → Type 0
AllUsed peers zero from = Unit {0}
AllUsed peers (suc count) from = (has_number peers from ≡ true) × AllUsed peers count (from + 1)

-- The search gives an unused number of the range, or there is none.
abbrev Found : List Peer → ℕ → ℕ → Option ℕ → Type 0
Found peers count from none = AllUsed peers count from
Found peers count from (some n) = (from ≤ n) × (n < from + count) × (has_number peers n ≡ false)

Found-later :
    (peers : List Peer) (count from : ℕ) (found : Option ℕ)
    → has_number peers from ≡ true
    → Found peers count (from + 1) found
    → Found peers (suc count) from found
Found-later peers count from none used h = (used, h)
Found-later peers count from (some n) used (lo, hi, free) = (omega arith, omega arith, free)

free_number-Found :
    (count from : ℕ) (peers : List Peer) → Found peers count from (free_number count from peers)
unfolding free_number
free_number-Found zero from peers = tt
free_number-Found (suc count) from peers = elim (Bool-cases (has_number peers from)) [
  | inl used ↦ rw used (
      Found-later peers count from (free_number count (from + 1) peers) used
        (free_number-Found count (from + 1) peers))
  | inr free ↦ rw free (omega arith, omega arith, free)
]

module _ {F T : Type 0} where
  -- How a defence ends: the number is kept and not contested, or it is a number of the range that no
  -- peer uses, or it is kept as every number of the range is used.
  abbrev pub Defended : Session F T → Session F T → Type 0
  Defended self next =
      ((next.number ≡ self.number) × (must_yield self.peers self.number self.mac ≡ false))
      ⊎ (((0x13 ≤ next.number) × (next.number ≤ 0x27) × (has_number self.peers next.number ≡ false))
          ⊎ ((next.number ≡ self.number) × AllUsed self.peers fallback_count fallback_first))

  take_number-Defended :
      (self : Session F T) (found : Option ℕ)
      → Found self.peers fallback_count fallback_first found
      → Defended self (take_number self found).0
  unfolding take_number
  take_number-Defended self (some n) (lo, hi, free) = inr (inl (lo, omega arith, free))
  take_number-Defended self none used = elim (Bool-cases self.warned_number) [
    | inl e ↦ rw e (inr (inr (refl, used)))
    | inr e ↦ rw e (inr (inr (refl, used)))
  ]

  uncontested :
      (self next : Session F T)
      → Defended self next
      → (must_yield self.peers next.number self.mac ≡ false)
        ⊎ AllUsed self.peers fallback_count fallback_first
  uncontested self next (inl (same, calm)) =
      inl (ap (λ n. must_yield self.peers n self.mac) same ∙ calm)
  uncontested self next (inr (inl (lo, hi, free))) =
      inl (unused-must_yield self.peers next.number self.mac free)
  uncontested self next (inr (inr (same, used))) = inr used

  only-Defended : (self : Session F T) → Defended self (defend_number self).0
  unfolding defend_number
  only-Defended self = elim (Bool-cases (must_yield self.peers self.number self.mac)) [
    | inl e ↦
        let taken : defend_number self
            ≡ take_number self (free_number fallback_count fallback_first self.peers) =
          rw (defend_number, e) refl in
        rw taken (
          take_number-Defended self (free_number fallback_count fallback_first self.peers)
            (free_number-Found fallback_count fallback_first self.peers))
    | inr e ↦
        let kept : defend_number self ≡ (self, []) = rw (defend_number, e) refl in
        rw kept (inl (refl, e))
  ]

  -- A defence leaves a number that is not contested, and takes another one only from 0x13 to 0x27 and
  -- unused; it fails only where that range is used up.
  pub defend_number-Defended :
      (self : Session F T)
      → Defended self (defend_number self).0
        × ((must_yield self.peers (defend_number self).0.number self.mac ≡ false)
            ⊎ AllUsed self.peers fallback_count fallback_first)
  defend_number-Defended self =
      (only-Defended self, uncontested self (defend_number self).0 (only-Defended self))

less_irrefl : (xs : List ℕ) → less xs xs ≡ false
unfolding less
less_irrefl [] = refl
less_irrefl (x ∷ xs) = ground (arith, less_irrefl xs)

-- One order of two addresses holds, unless they are the same.
less-cases :
    (xs ys : List ℕ)
    → ((less xs ys ≡ true) × (less ys xs ≡ false))
      ⊎ (((less xs ys ≡ false) × (less ys xs ≡ true)) ⊎ (xs ≡ ys))
unfolding less
less-cases [] [] = inr (inr refl)
less-cases [] (y ∷ ys) = inl (refl, refl)
less-cases (x ∷ xs) [] = inr (inl (refl, refl))
less-cases (x ∷ xs) (y ∷ ys) = ground (arith, less-cases xs ys)

-- Of two rekordbox devices with the same number and different addresses, each of which sees only the
-- other, exactly one gives the number up.
pub one_yields :
    (p q : Peer)
    → p.info.name ≡ rekordbox_name
    → q.info.name ≡ rekordbox_name
    → p.info.number ≡ q.info.number
    → p.info.mac ≢ q.info.mac
    → must_yield (q ∷ []) p.info.number (some p.info.mac)
      ≡ not (must_yield (p ∷ []) q.info.number (some q.info.mac))
unfolding must_yield wins
one_yields p q np nq same apart =
    let here : (q.info.number == q.info.number) ≡ true = ground arith in
    elim (less-cases p.info.mac q.info.mac) [
      | inl (below, above) ↦ rw (np, nq, same, here, below, above) refl
      | inr (inl (below, above)) ↦ rw (np, nq, same, here, below, above) refl
      | inr (inr e) ↦ absurd (apart e)
    ]
