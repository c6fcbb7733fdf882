-- ===== src/Prolink/Devices/Table.antt =====
-- The device table as a map in the order of its keys: what `touch` and `retain` do to it.
use player.Common.{
  ℕ, ◌≤◌, ◌<◌, ◌≡◌, ◌≢◌, ◌⊎◌, refl, ap, ◌∙◌, true, false, Option, none, some, List, [], ◌∷◌, ltb,
  ◌==◌, arith, Bool-cases, inl, inr, ltb→lt,
}
use player.Prolink.Packets.{Ipv4Addr}
use player.Prolink.Devices.{DeviceTable, Peer, get, upsert, touch, touched, new_peer}

-- Every key is above `n`.
abbrev pub IsAbove : {F : Type 0} → ℕ → DeviceTable F → Type 0
IsAbove n [] = Unit {0}
IsAbove n ((m, p) ∷ rest) = (n < m) × IsAbove n rest

-- The keys rise strictly, as those of the source's `BTreeMap` do.
abbrev pub IsSorted : {F : Type 0} → DeviceTable F → Type 0
IsSorted [] = Unit {0}
IsSorted ((n, p) ∷ rest) = IsAbove n rest × IsSorted rest

abbrev pub or_else {ℓ} : {A : Type ℓ} → Option A → A → A
or_else none d = d
or_else (some a) d = a

==_off : (a b : ℕ) → a ≢ b → (a == b) ≡ false
==_off a b ne = ground arith

==_same : (a : ℕ) → (a == a) ≡ true
==_same a = ground arith

pub IsAbove-le : {F : Type 0} (m n : ℕ) (t : DeviceTable F) → m ≤ n → IsAbove n t → IsAbove m t
IsAbove-le m n [] h a = tt
IsAbove-le m n ((k, p) ∷ t) h (lt, a) = (ground arith, IsAbove-le m n t h a)

-- A key at or below all others is not there.
pub get_above : {F : Type 0} (m n : ℕ) (t : DeviceTable F) → m ≤ n → IsAbove n t → get t m ≡ none
unfolding get
get_above m n [] h a = refl
get_above m n ((k, p) ∷ t) h (lt, a) = rw (==_off m k (omega arith), get) (get_above m n t h a)

upsert-IsAbove :
    {F : Type 0} (n number : ℕ) (t : DeviceTable F) (d : Peer F) (f : Peer F → Peer F)
    → n < number
    → IsAbove n t
    → IsAbove n (upsert t number d f)
unfolding upsert
upsert-IsAbove n number [] d f h a = (h, tt)
upsert-IsAbove n number ((k, p) ∷ t) d f h (lt, a) = elim (Bool-cases (number == k)) [
  | inl e ↦ rw (e, upsert) (lt, a)
  | inr e ↦ elim (Bool-cases (ltb number k)) [
    | inl l ↦ rw (e, l, upsert) (h, (lt, a))
    | inr l ↦ rw (e, l, upsert) (lt, upsert-IsAbove n number t d f h a)
  ]
]

upsert-IsSorted :
    {F : Type 0} (number : ℕ) (t : DeviceTable F) (d : Peer F) (f : Peer F → Peer F)
    → IsSorted t
    → IsSorted (upsert t number d f)
unfolding upsert
upsert-IsSorted number [] d f s = (tt, tt)
upsert-IsSorted number ((k, p) ∷ t) d f (a, s) = elim (Bool-cases (number == k)) [
  | inl e ↦ rw (e, upsert) (a, s)
  | inr e ↦ elim (Bool-cases (ltb number k)) [
    | inl l ↦
        rw (e, l, upsert) ((ltb→lt number k l, IsAbove-le number k t (ground arith) a), (a, s))
    | inr l ↦
        rw (e, l, upsert)
          (upsert-IsAbove k number t d f (ground arith) a, upsert-IsSorted number t d f s)
  ]
]

get-upsert :
    {F : Type 0} (number : ℕ) (t : DeviceTable F) (d : Peer F) (f : Peer F → Peer F)
    → IsSorted t
    → get (upsert t number d f) number ≡ some (f (or_else (get t number) d))
unfolding upsert get
get-upsert number [] d f s = rw (==_same number, get) refl
get-upsert number ((k, p) ∷ t) d f (a, s) = elim (Bool-cases (number == k)) [
  | inl e ↦ rw (e, upsert, get) (rw (e, get) refl)
  | inr e ↦ elim (Bool-cases (ltb number k)) [
    | inl l ↦
        rw (e, l, upsert, get)
          (rw (==_same number, get_above number k t (ground arith) a, get) refl)
    | inr l ↦ rw (e, l, upsert, get) (rw (e, get) (get-upsert number t d f s))
  ]
]

get-upsert_other :
    {F : Type 0} (number m : ℕ) (t : DeviceTable F) (d : Peer F) (f : Peer F → Peer F)
    → m ≢ number
    → get (upsert t number d f) m ≡ get t m
unfolding upsert get
get-upsert_other number m [] d f ne = rw (==_off m number ne, get) refl
get-upsert_other number m ((k, p) ∷ t) d f ne = elim (Bool-cases (number == k)) [
  | inl e ↦ rw (e, upsert) (rw (==_off m k (ground arith), get) refl)
  | inr e ↦ elim (Bool-cases (ltb number k)) [
    | inl l ↦ rw (e, l, upsert) (rw (==_off m number ne, get) refl)
    | inr l ↦
        rw (e, l, upsert)
          (elim (Bool-cases (m == k)) [
            | inl q ↦ rw (q, get) refl
            | inr q ↦ rw (q, get) (get-upsert_other number m t d f ne)
          ])
  ]
]

-- The name of a device after a packet that gives `name`, which may be empty.
abbrev pub renamed : List ℕ → List ℕ → List ℕ
renamed [] old = old
renamed (b ∷ bs) old = b ∷ bs

-- An entry after a packet of its device: heard from at `now`, at `address`, under the name given.
abbrev pub heard : {F : Type 0} → List ℕ → Ipv4Addr → ℕ → Peer F → Peer F
heard name address now p = record p {
  last_seen = now;
  address = address;
  name = renamed name p.name;
}

touched_lem :
    {F : Type 0} (name : List ℕ) (address : Ipv4Addr) (now : ℕ) (p : Peer F)
    → touched name address now p ≡ heard name address now p
unfolding touched
touched_lem [] address now p = refl
touched_lem (b ∷ bs) address now p = refl

-- In a sorted table, recording a packet of device `number` leaves in its entry, new or known, the
-- time, the address and a name that is not empty, and then what the packet says (`f`); the entry of
-- every other device `m` stays as it was, and the table stays sorted.
pub touch_lem :
    {F : Type 0} (t : DeviceTable F) (number : ℕ) (name : List ℕ) (address : Ipv4Addr) (now : ℕ)
    (f : Peer F → Peer F) (m : ℕ)
    → IsSorted t
    → (get (touch t number name address now f) number
        ≡ some (f (heard name address now (or_else (get t number) (new_peer name address now)))))
      × ((m ≡ number) ⊎ (get (touch t number name address now f) m ≡ get t m))
      × IsSorted (touch t number name address now f)
unfolding touch
touch_lem {F = F} t number name address now f m s =
    let g : Peer F → Peer F = λ p. f (touched name address now p) in
    (
      get-upsert number t (new_peer name address now) g s
          ∙ ap (λ p. some (f p))
              (touched_lem name address now (or_else (get t number) (new_peer name address now))),
      elim (Bool-cases (m == number)) [
        | inl e ↦ inl (ground arith)
        | inr e ↦ inr (get-upsert_other number m t (new_peer name address now) g (ground arith))
      ],
      upsert-IsSorted number t (new_peer name address now) g s,
    )
