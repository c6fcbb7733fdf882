-- ===== src/Bridge/Counts.antt =====
-- apps/bridge/src/server.rs, Counts: how many connections are open, in all and of each peer. An address
-- is a parameter with its equality test and its loopback test, which the standard library has.
pub mod Entries
pub mod Slots
use player.Common.{
  ℕ, zero, suc, ◌+◌, ◌-◌, ◌≤◌, ◌<◌, ◌≡◌, Bool, true, false, not, ◌&&◌, ◌||◌, List, [], ◌∷◌, leb,
  ◌==◌, if◌then◌else◌,
}

abbrev pub max_connections : ℕ
max_connections = 64

abbrev pub max_per_peer : ℕ
max_per_peer = 16

pub record IpAddr : Type 1 where
  pub Addr : Type 0
  pub same : Addr → Addr → Bool
  pub is_loopback : Addr → Bool

pub record Counts (A : Type 0) : Type 0 where
  pub total : ℕ
  pub per_peer : List (A × ℕ)

-- `Vec::swap_remove(0)` of `x ∷ xs`, less `x`: the last entry comes to the front.
module _ {A : Type 0} where
  unfoldable pub last_of : A → List A → A
  last_of x [] = x
  last_of x (y ∷ xs) = last_of y xs

  unfoldable pub all_but_last : A → List A → List A
  all_but_last x [] = []
  all_but_last x (y ∷ xs) = x ∷ all_but_last y xs

  unfoldable pub refill : List A → List A
  unfolding last_of all_but_last
  refill [] = []
  refill (x ∷ xs) = last_of x xs ∷ all_but_last x xs

module _ (ip : IpAddr) where
  open ip use {Addr, same, is_loopback}

  abbrev pub none_open : Counts Addr
  none_open = record { total = 0; per_peer = [] }

  unfoldable pub of : Addr → List (Addr × ℕ) → ℕ
  of peer [] = 0
  of peer ((p, n) ∷ xs) = let rest = of peer xs in if same p peer then n else rest

  -- One more connection of a peer.
  unfoldable pub raise : Addr → List (Addr × ℕ) → List (Addr × ℕ)
  raise peer [] = (peer, 1) ∷ []
  raise peer ((p, n) ∷ xs) =
      let rest = raise peer xs in if same p peer then (p, n + 1) ∷ xs else (p, n) ∷ rest

  unfoldable pub is_full : Counts Addr → Addr → Bool
  unfolding of
  is_full self peer =
      leb max_connections self.total
      || (not (is_loopback peer) && leb max_per_peer (of peer self.per_peer))

  unfoldable pub admit : Counts Addr → Addr → Bool × Counts Addr
  unfolding is_full raise
  admit self peer =
      if is_full self peer
      then (false, self)
      else (true, record { total = self.total + 1; per_peer = raise peer self.per_peer })

  -- One connection of a peer less; an entry at 0 is swapped with the last one and removed.
  unfoldable pub lower : Addr → List (Addr × ℕ) → List (Addr × ℕ)
  unfolding refill
  lower peer [] = []
  lower peer ((p, n) ∷ xs) =
      let rest = lower peer xs in
      if same p peer then (if n - 1 == 0 then refill xs else (p, n - 1) ∷ xs) else (p, n) ∷ rest

  unfoldable pub release : Counts Addr → Addr → Counts Addr
  unfolding lower
  release self peer = record { total = self.total - 1; per_peer = lower peer self.per_peer }
