-- ===== src/Bridge/Counts/Slots.antt =====
-- The counts are those of the slots that are held, whatever the order of admissions and releases.
use player.Common.{
  ℕ, suc, ◌+◌, ◌≤◌, ◌<◌, ◌≡◌, refl, sym, ap, ◌∙◌, inl, inr, Bool, true, false, not, ◌&&◌, ◌||◌,
  Bool-cases, List, [], ◌∷◌, ◌++◌, leb, if◌then◌else◌, length, arith, length-append,
}
use player.Bridge.Counts.{
  max_connections, max_per_peer, IpAddr, Counts, none_open, of, raise, is_full, admit, release,
}
use player.Bridge.Counts.Entries.{
  IsEquality, IsTable, of-raise, raise-IsTable, of-lower, lower-IsTable,
}

room_of :
    (open_in_all open_of_peer : ℕ) (loopback : Bool)
    → (leb max_connections open_in_all || (not loopback && leb max_per_peer open_of_peer)) ≡ false
    → (open_in_all < max_connections) × (loopback ≡ false → open_of_peer < max_per_peer)
room_of t n true h = (ground (arith, h), λ e. ground (arith, e))
room_of t n false h = (ground (arith, h), λ e. ground (arith, h))

module _ (ip : IpAddr) where
  open ip use {Addr, same, is_loopback}

  -- How many of the held slots are of a peer.
  unfoldable pub held_by : Addr → List Addr → ℕ
  held_by peer [] = 0
  held_by peer (p ∷ ps) = let rest = held_by peer ps in if same p peer then suc rest else rest

  -- The held slots, from the start, by admissions that were granted and by releases in any order.
  pub data Held : Counts Addr → List Addr → Type 0 where
    start : Held (none_open ip) []
    admitted :
        {c : Counts Addr} {slots : List Addr} (p : Addr)
        → Held c slots
        → (admit ip c p).0 ≡ true
        → Held (admit ip c p).1 (p ∷ slots)
    released :
        {c : Counts Addr} (before : List Addr) (p : Addr) (after : List Addr)
        → Held c (before ++ p ∷ after)
        → Held (release ip c p) (before ++ after)

  -- What the counts are for the held slots, and the caps.
  pub record Counted (c : Counts Addr) (slots : List Addr) : Type 0 where
    pub in_all : c.total ≡ length slots
    pub of_each : (peer : Addr) → of ip peer c.per_peer ≡ held_by peer slots
    pub cap : length slots ≤ max_connections
    pub peer_cap : (peer : Addr) → is_loopback peer ≡ false → held_by peer slots ≤ max_per_peer

  held_by-append :
      (q p : Addr) (before after : List Addr)
      → held_by q (before ++ p ∷ after)
        ≡ (if same p q then suc (held_by q (before ++ after)) else held_by q (before ++ after))
  unfolding held_by
  held_by-append q p [] after = refl
  held_by-append q p (b ∷ before) after =
      rw (held_by-append q p before after) (elim (Bool-cases (same b q)) [
        | inl e ↦ elim (Bool-cases (same p q)) [ inl f ↦ rw (e, f) refl | inr f ↦ rw (e, f) refl ]
        | inr e ↦ elim (Bool-cases (same p q)) [ inl f ↦ rw (e, f) refl | inr f ↦ rw (e, f) refl ]
      ])

  module _ (law : IsEquality ip) where
    raised :
        (c : Counts Addr) (slots : List Addr) (p : Addr)
        → Counted c slots
        → is_full ip c p ≡ false
        → Counted (record { total = c.total + 1; per_peer = raise ip p c.per_peer }) (p ∷ slots)
    unfolding held_by is_full
    raised c slots p h e = record {
      in_all = omega (arith, h.in_all);
      of_each = λ q. of-raise ip law p q c.per_peer ∙ rw (h.of_each q) refl;
      cap = omega (arith, room.0, h.in_all);
      peer_cap = peer_cap;
    }
      where
        room :
            (c.total < max_connections)
            × (is_loopback p ≡ false → of ip p c.per_peer < max_per_peer)
        room = room_of c.total (of ip p c.per_peer) (is_loopback p) e

        peer_cap : (q : Addr) → is_loopback q ≡ false → held_by q (p ∷ slots) ≤ max_per_peer
        peer_cap q remote = elim (Bool-cases (same p q)) [
          | inl f ↦
              let at : p ≡ q = law.sound p q f in
              let below : of ip p c.per_peer < max_per_peer = room.1 (ap is_loopback at ∙ remote) in
              let count : held_by q slots ≡ of ip p c.per_peer =
                sym (h.of_each q) ∙ ap (λ a. of ip a c.per_peer) (sym at) in
              rw f (omega (arith, below, count))
          | inr f ↦ rw f (h.peer_cap q remote)
        ]

    admit-Counted :
        (c : Counts Addr) (slots : List Addr) (p : Addr)
        → IsTable ip law c.per_peer
        → Counted c slots
        → (admit ip c p).0 ≡ true
        → IsTable ip law (admit ip c p).1.per_peer × Counted (admit ip c p).1 (p ∷ slots)
    unfolding admit
    admit-Counted c slots p table h granted = elim (Bool-cases (is_full ip c p)) [
      | inl e ↦
          let refused : (admit ip c p).0 ≡ false = rw (admit, e) refl in
          ground (arith, granted, refused)
      | inr e ↦
          let next : Counts Addr = record {
            total = c.total + 1;
            per_peer = raise ip p c.per_peer;
          } in
          let taken : admit ip c p ≡ (true, next) = rw (admit, e) refl in
          rw taken (raise-IsTable ip law p c.per_peer table, raised c slots p h e)
    ]

    release-Counted :
        (c : Counts Addr) (before : List Addr) (p : Addr) (after : List Addr)
        → IsTable ip law c.per_peer
        → Counted c (before ++ p ∷ after)
        → IsTable ip law (release ip c p).per_peer × Counted (release ip c p) (before ++ after)
    unfolding release
    release-Counted c before p after table h = (
      lower-IsTable ip law p c.per_peer table,
      record {
        in_all =
            omega (arith, h.in_all, length-append before (p ∷ after), length-append before after);
        of_each = of_each;
        cap = omega (arith, h.cap, length-append before (p ∷ after), length-append before after);
        peer_cap = peer_cap;
      },
    )
      where
        split :
            (q : Addr)
            → held_by q (before ++ p ∷ after) ≡ (
                if same p q then suc (held_by q (before ++ after)) else held_by q (before ++ after))
        split q = held_by-append q p before after

        of_each : (q : Addr) → of ip q (release ip c p).per_peer ≡ held_by q (before ++ after)
        of_each q =
            of-lower ip law p q c.per_peer table
            ∙ rw (h.of_each q, split q)
                (elim (Bool-cases (same p q)) [ inl f ↦ rw f (omega arith) | inr f ↦ rw f refl ])

        peer_cap : (q : Addr) → is_loopback q ≡ false → held_by q (before ++ after) ≤ max_per_peer
        peer_cap q remote = elim (Bool-cases (same p q)) [
          | inl f ↦
              let more : held_by q (before ++ p ∷ after) ≡ suc (held_by q (before ++ after)) =
                split q ∙ rw f refl in
              omega (arith, more, h.peer_cap q remote)
          | inr f ↦
              let equal : held_by q (before ++ p ∷ after) ≡ held_by q (before ++ after) =
                split q ∙ rw f refl in
              omega (arith, equal, h.peer_cap q remote)
        ]

    held :
        (c : Counts Addr) (slots : List Addr)
        → Held c slots
        → IsTable ip law c.per_peer × Counted c slots
    unfolding held_by of
    held _ _ start = (
      tt,
      record {
        in_all = refl;
        of_each = λ q. refl;
        cap = omega arith;
        peer_cap = λ q remote. omega arith;
      },
    )
    held _ _ (admitted {c = c} {slots = slots} p h granted) =
        let (table, counted) = held c slots h in admit-Counted c slots p table counted granted
    held _ _ (released {c = c} before p after h) =
        let (table, counted) = held c (before ++ p ∷ after) h in
        release-Counted c before p after table counted

    -- Whatever the order of admissions and releases, the counts are those of the held slots, in all and
    -- of each peer; at most 64 slots are held, and at most 16 by one peer that is not a loopback address.
    pub Held-Counted : (c : Counts Addr) (slots : List Addr) → Held c slots → Counted c slots
    Held-Counted c slots h = (held c slots h).1
