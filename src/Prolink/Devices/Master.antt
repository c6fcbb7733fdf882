-- ===== src/Prolink/Devices/Master.antt =====
-- Which device `master` takes, against the entries in the order of their numbers.
use player.Common.{
  ℕ, ◌≡◌, refl, Bool, true, false, Option, none, some, [], ◌∷◌, if◌then◌else◌, Bool-cases,
  Option-cases, inl, inr,
}
use player.Prolink.Devices.{DeviceTable, Status}
use player.Prolink.Devices.Follow.{settled, mastering, master_loop, number_of, master}

-- The first entry whose fresh status says tempo master and passes the test.
pub first_master : {F : Type 0} → (Status → Bool) → DeviceTable F → ℕ → Option ℕ
first_master test [] now = none
first_master test ((n, p) ∷ t) now = elim (mastering p now) [
  | none ↦ first_master test t now
  | some s ↦ if test s then some n else first_master test t now
]

abbrev pub otherwise {ℓ} : {A : Type ℓ} → Option A → Option A → Option A
otherwise none d = d
otherwise (some a) d = some a

loop_settled :
    {F : Type 0} (t : DeviceTable F) (now m : ℕ)
    → master_loop t now (some (m, true)) ≡ some (m, true)
unfolding master_loop
loop_settled [] now m = refl
loop_settled ((n, p) ∷ t) now m = elim (Option-cases (mastering p now)) [
  | inl e ↦ rw (e, master_loop) (loop_settled t now m)
  | inr (s, e) ↦ elim (Bool-cases (settled s)) [
    | inl b ↦ rw (e, master_loop) (rw (b, master_loop) (loop_settled t now m))
    | inr b ↦ rw (e, master_loop) (rw (b, master_loop) (loop_settled t now m))
  ]
]

loop_yielding :
    {F : Type 0} (t : DeviceTable F) (now m : ℕ)
    → number_of (master_loop t now (some (m, false)))
      ≡ otherwise (first_master settled t now) (some m)
unfolding master_loop first_master
loop_yielding [] now m = refl
loop_yielding ((n, p) ∷ t) now m = elim (Option-cases (mastering p now)) [
  | inl e ↦ rw (e, master_loop, first_master) (loop_yielding t now m)
  | inr (s, e) ↦ elim (Bool-cases (settled s)) [
    | inl b ↦
        rw (e, master_loop, first_master) (rw (b, master_loop) (rw (loop_settled t now n) refl))
    | inr b ↦ rw (e, master_loop, first_master) (rw (b, master_loop) (loop_yielding t now m))
  ]
]

-- The tempo master is the first device, in the order of the table, whose fresh status says that it
-- is master and hands the role to nobody; without one, the first whose fresh status says that it is
-- master.
pub master_lem :
    {F : Type 0} (t : DeviceTable F) (now : ℕ)
    → master t now ≡ otherwise (first_master settled t now) (first_master (λ s. true) t now)
unfolding master master_loop first_master
master_lem [] now = refl
master_lem ((n, p) ∷ t) now = elim (Option-cases (mastering p now)) [
  | inl e ↦ rw (e, master_loop, first_master) (master_lem t now)
  | inr (s, e) ↦ elim (Bool-cases (settled s)) [
    | inl b ↦
        rw (e, master_loop, first_master) (rw (b, master_loop) (rw (loop_settled t now n) refl))
    | inr b ↦ rw (e, master_loop, first_master) (rw (b, master_loop) (loop_yielding t now n))
  ]
]
