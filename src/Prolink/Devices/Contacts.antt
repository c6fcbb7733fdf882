-- ===== src/Prolink/Devices/Contacts.antt =====
-- When, from where and under what name a device was last heard: the table's answer, and that of its packets.
use mathlib.Core.Option
use mathlib.Core.Path.{subst}
use player.Common.{
  ℕ, ◌-◌, ◌≡◌, refl, sym, ap, ◌∙◌, Bool, true, Option, none, some, List, [], ◌∷◌, leb, ◌==◌,
  if◌then◌else◌, arith, Bool-cases, inl, inr,
}
use player.Prolink.Packets.{Ipv4Addr}
use player.Prolink.Announce.{KeepAlive}
use player.Prolink.Updates.Beats.{BeatPacket, PrecisePosition, OnAir}
use player.Prolink.Updates.Status.{CdjStatus, MixerStatus}
use player.Prolink.Devices.{
  DeviceTable, Peer, get, touch, new_peer, set_on_air, note_on_air, expire, device_timeout_ns,
}
use player.Prolink.Devices.Table.{IsAbove, IsSorted, renamed, heard, or_else, touch_lem}
use player.Prolink.Devices.Expiry.{kept, expire_lem}

-- A packet that the table is told of, with its sender's address and its time, or the periodic expiry.
pub data Call : Type 0 where
  alive : KeepAlive → Ipv4Addr → ℕ → Call
  beaten : BeatPacket → Ipv4Addr → ℕ → Call
  cdj : CdjStatus → Ipv4Addr → ℕ → Call
  mixer : MixerStatus → Ipv4Addr → ℕ → Call
  position : PrecisePosition → Ipv4Addr → ℕ → Call
  channels : OnAir → Call
  expired_at : ℕ → Call

-- What is known of a device's presence.
pub record Contact : Type 0 where
  pub seen : ℕ
  pub address : Ipv4Addr
  pub name : List ℕ

abbrev pub contact_of : {F : Type 0} → Peer F → Contact
contact_of p = record { seen = p.last_seen; address = p.address; name = p.name }

unfoldable pub contact : {F : Type 0} → DeviceTable F → ℕ → Option Contact
contact t n = Option.map contact_of (get t n)

-- The same from the calls alone: a packet of device `d` tells its time, its address and, where it has one,
-- its name; a device that is silent for more than ten seconds is forgotten.
abbrev name_before : Option Contact → List ℕ
name_before none = []
name_before (some c) = c.name

abbrev pub told : ℕ → ℕ → List ℕ → Ipv4Addr → ℕ → Option Contact → Option Contact
told n d name from now before =
    if n == d
    then some (record { seen = now; address = from; name = renamed name (name_before before) })
    else before

abbrev pub forgotten : ℕ → Option Contact → Option Contact
forgotten now none = none
forgotten now (some c) = if leb (now - c.seen) 10_000_000_000 then some c else none

unfoldable pub after_call : ℕ → Call → Option Contact → Option Contact
after_call n (alive k from now) c = told n k.number k.name from now c
after_call n (beaten b from now) c = told n b.device b.name from now c
after_call n (cdj s from now) c = told n s.device s.name from now c
after_call n (mixer m from now) c = told n m.device m.name from now c
after_call n (position p from now) c = told n p.device p.name from now c
after_call n (channels o) c = c
after_call n (expired_at now) c = forgotten now c

unfoldable pub history : ℕ → List Call → Option Contact → Option Contact
unfolding after_call
history n [] c = c
history n (call ∷ calls) c = history n calls (after_call n call c)

-- What a change of the table does to a device's contact, the table staying in order.
abbrev pub Tells : {F : Type 0} → DeviceTable F → ℕ → Option Contact → Type 0
Tells t n c = (contact t n ≡ c) × IsSorted t

renamed_new :
    {F : Type 0} (name : List ℕ) (address : Ipv4Addr) (now : ℕ) (before : Option (Peer F))
    → renamed name (or_else before (new_peer name address now)).name
      ≡ renamed name (name_before (Option.map contact_of before))
unfolding new_peer
renamed_new [] address now none = refl
renamed_new (b ∷ bs) address now none = refl
renamed_new name address now (some p) = refl

contact-touch_self :
    {F : Type 0} (t : DeviceTable F) (number : ℕ) (name : List ℕ) (address : Ipv4Addr) (now : ℕ)
    (f : Peer F → Peer F)
    → ((p : Peer F) → contact_of (f p) ≡ contact_of p)
    → IsSorted t
    → contact (touch t number name address now f) number
      ≡ told number number name address now (contact t number)
unfolding contact
contact-touch_self t number name address now f kept_fields s =
    let (mine, others, sorted) = touch_lem t number name address now f number s in
    let here : (number == number) ≡ true = ground arith in
    ap (Option.map contact_of) mine
    ∙ ap some
        (kept_fields (heard name address now (or_else (get t number) (new_peer name address now))))
    ∙ ap (λ a. some (record { seen = now; address = address; name = a }))
        (renamed_new name address now (get t number))
    ∙ rw here refl

pub contact-touch :
    {F : Type 0} (t : DeviceTable F) (number : ℕ) (name : List ℕ) (address : Ipv4Addr) (now : ℕ)
    (f : Peer F → Peer F) (n : ℕ)
    → ((p : Peer F) → contact_of (f p) ≡ contact_of p)
    → IsSorted t
    → Tells (touch t number name address now f) n (told n number name address now (contact t n))
unfolding contact
contact-touch t number name address now f n kept_fields s =
    let (mine, others, sorted) = touch_lem t number name address now f n s in
    (
      elim (Bool-cases (n == number)) [
        | inl e ↦
            let at : n ≡ number = ground arith in
            subst
              (λ m.
                contact (touch t number name address now f) m
                ≡ told m number name address now (contact t m))
              (sym at) (contact-touch_self t number name address now f kept_fields s)
        | inr e ↦ elim others [
          | inl same ↦ absurd (ground arith)
          | inr untouched ↦ rw e (ap (Option.map contact_of) untouched)
        ]
      ],
      sorted,
    )

set_on_air-IsAbove :
    {F : Type 0} (n : ℕ) (t : DeviceTable F) (number : ℕ) (flag : Option Bool)
    → IsAbove n t
    → IsAbove n (set_on_air t number flag)
unfolding set_on_air
set_on_air-IsAbove n t number none a = a
set_on_air-IsAbove n [] number (some flag) a = a
set_on_air-IsAbove n ((m, p) ∷ t) number (some flag) (lt, a) = elim (Bool-cases (number == m)) [
  | inl e ↦ rw (e, set_on_air) (lt, a)
  | inr e ↦ rw (e, set_on_air) (lt, set_on_air-IsAbove n t number (some flag) a)
]

contact-set_on_air :
    {F : Type 0} (t : DeviceTable F) (number : ℕ) (flag : Option Bool) (n : ℕ)
    → IsSorted t
    → Tells (set_on_air t number flag) n (contact t n)
unfolding set_on_air contact get
contact-set_on_air t number none n s = (refl, s)
contact-set_on_air [] number (some flag) n s = (refl, s)
contact-set_on_air ((m, p) ∷ t) number (some flag) n (a, s) = elim (Bool-cases (number == m)) [
  | inl e ↦ elim (Bool-cases (n == m)) [
    | inl here ↦ rw (e, set_on_air, here, get) (refl, (a, s))
    | inr off ↦ rw (e, set_on_air, off, get) (refl, (a, s))
  ]
  | inr e ↦
      let (same, sorted) = contact-set_on_air t number (some flag) n s in
      elim (Bool-cases (n == m)) [
        | inl here ↦
            rw (e, set_on_air, here, get)
              (refl, (set_on_air-IsAbove m t number (some flag) a, sorted))
        | inr off ↦
            rw (e, set_on_air, off, get)
              (same, (set_on_air-IsAbove m t number (some flag) a, sorted))
      ]
]

-- Six changes of the on-air flags.
pub contact-note_on_air :
    {F : Type 0} (t : DeviceTable F) (o : OnAir) (n : ℕ)
    → IsSorted t
    → Tells (note_on_air t o) n (contact t n)
unfolding note_on_air
contact-note_on_air t o n s =
    let c = o.channels in
    let (e1, s1) = contact-set_on_air t 1 c.c1 n s in
    let (e2, s2) = contact-set_on_air (set_on_air t 1 c.c1) 2 c.c2 n s1 in
    let (e3, s3) = contact-set_on_air (set_on_air (set_on_air t 1 c.c1) 2 c.c2) 3 c.c3 n s2 in
    let low = set_on_air (set_on_air (set_on_air t 1 c.c1) 2 c.c2) 3 c.c3 in
    let (e4, s4) = contact-set_on_air low 4 c.c4 n s3 in
    let (e5, s5) = contact-set_on_air (set_on_air low 4 c.c4) 5 c.c5 n s4 in
    let (e6, s6) = contact-set_on_air (set_on_air (set_on_air low 4 c.c4) 5 c.c5) 6 c.c6 n s5 in
    (e6 ∙ e5 ∙ e4 ∙ e3 ∙ e2 ∙ e1, s6)

pub contact-expire :
    {F : Type 0} (t : DeviceTable F) (now n : ℕ)
    → IsSorted t
    → Tells (expire t now).0 n (forgotten now (contact t n))
unfolding contact
contact-expire t now n s =
    let (left, dropped, sorted) = expire_lem t now n s in
    (ap (Option.map contact_of) left ∙ kept_contact (get t n), sorted)
  where
    kept_contact :
        {F : Type 0} (p : Option (Peer F))
        → Option.map contact_of (kept (λ p. leb (now - p.last_seen) device_timeout_ns) p)
          ≡ forgotten now (Option.map contact_of p)
    kept_contact none = refl
    kept_contact (some p) = elim (Bool-cases (leb (now - p.last_seen) device_timeout_ns)) [
      | inl e ↦ rw e refl
      | inr e ↦ rw e refl
    ]
