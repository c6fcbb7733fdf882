-- ===== src/Prolink/Devices/Expiry.antt =====
-- `expire` drops exactly the devices that were not heard from for the timeout.
use player.Common.{
  ℕ, suc, ◌-◌, ◌≤◌, ◌≡◌, refl, ap, ◌∙◌, Bool, true, false, not, Option, none, some, [], ◌∷◌, leb,
  ◌==◌, if◌then◌else◌, arith, length, Bool-cases, inl, inr,
}
use player.Prolink.Devices.{DeviceTable, Peer, get, retain, expire, is_heard, device_timeout_ns}
use player.Prolink.Devices.Table.{IsAbove, IsSorted, get_above}

-- An entry that passes the test.
abbrev pub kept : {F : Type 0} → (Peer F → Bool) → Option (Peer F) → Option (Peer F)
kept keep none = none
kept keep (some p) = if keep p then some p else none

retain-IsAbove :
    {F : Type 0} (n : ℕ) (keep : Peer F → Bool) (t : DeviceTable F)
    → IsAbove n t
    → IsAbove n (retain keep t)
unfolding retain
retain-IsAbove n keep [] a = tt
retain-IsAbove n keep ((m, p) ∷ t) (lt, a) = elim (Bool-cases (keep p)) [
  | inl e ↦ rw (e, retain) (lt, retain-IsAbove n keep t a)
  | inr e ↦ rw (e, retain) (retain-IsAbove n keep t a)
]

retain-IsSorted :
    {F : Type 0} (keep : Peer F → Bool) (t : DeviceTable F) → IsSorted t → IsSorted (retain keep t)
unfolding retain
retain-IsSorted keep [] s = tt
retain-IsSorted keep ((m, p) ∷ t) (a, s) = elim (Bool-cases (keep p)) [
  | inl e ↦ rw (e, retain) (retain-IsAbove m keep t a, retain-IsSorted keep t s)
  | inr e ↦ rw (e, retain) (retain-IsSorted keep t s)
]

get-retain :
    {F : Type 0} (keep : Peer F → Bool) (t : DeviceTable F) (n : ℕ)
    → IsSorted t
    → get (retain keep t) n ≡ kept keep (get t n)
unfolding retain get
get-retain keep [] n s = refl
get-retain keep ((m, p) ∷ t) n (a, s) = elim (Bool-cases (keep p)) [
  | inl e ↦ elim (Bool-cases (n == m)) [
    | inl q ↦ rw (e, retain, q, get) (rw (e, kept) refl)
    | inr q ↦ rw (e, retain, q, get) (get-retain keep t n s)
  ]
  | inr e ↦ elim (Bool-cases (n == m)) [
    | inl q ↦
        rw (e, retain, q, get)
          (rw (e, get) (get_above n m (retain keep t) (ground arith) (retain-IsAbove m keep t a)))
    | inr q ↦ rw (e, retain, q, get) (get-retain keep t n s)
  ]
]

-- Some entry fails the test.
abbrev pub loses : {F : Type 0} → (Peer F → Bool) → DeviceTable F → Bool
loses keep [] = false
loses keep ((n, p) ∷ t) = if keep p then loses keep t else true

length-retain :
    {F : Type 0} (keep : Peer F → Bool) (t : DeviceTable F) → length (retain keep t) ≤ length t
unfolding retain
length-retain keep [] = omega arith
length-retain keep ((n, p) ∷ t) = elim (Bool-cases (keep p)) [
  | inl e ↦ rw (e, retain) (omega (arith, length-retain keep t))
  | inr e ↦ rw (e, retain) (omega (arith, length-retain keep t))
]

suc_eq : (a b : ℕ) → (suc a == suc b) ≡ (a == b)
suc_eq a b = ground arith

retain-loses :
    {F : Type 0} (keep : Peer F → Bool) (t : DeviceTable F)
    → not (length (retain keep t) == length t) ≡ loses keep t
unfolding retain
retain-loses keep [] = refl
retain-loses keep ((n, p) ∷ t) = elim (Bool-cases (keep p)) [
  | inl e ↦ rw (e, retain) (ap not (suc_eq _ _) ∙ retain-loses keep t)
  | inr e ↦ rw (e, retain) (ground (arith, length-retain keep t))
]

-- In a sorted table exactly the devices last heard from at most 10 s ago stay, with their entries
-- as they were, the answer tells whether one was dropped, and the table stays sorted.
pub expire_lem :
    {F : Type 0} (t : DeviceTable F) (now n : ℕ)
    → IsSorted t
    → (get (expire t now).0 n ≡ kept (λ p. leb (now - p.last_seen) device_timeout_ns) (get t n))
      × ((expire t now).1 ≡ loses (λ p. leb (now - p.last_seen) device_timeout_ns) t)
      × IsSorted (expire t now).0
unfolding expire
expire_lem t now n s = (
  get-retain (is_heard now) t n s,
  retain-loses (is_heard now) t,
  retain-IsSorted (is_heard now) t s,
)
