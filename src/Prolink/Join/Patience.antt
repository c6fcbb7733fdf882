-- ===== src/Prolink/Join/Patience.antt =====
-- Listening before claiming: our number goes on the wire only after the listening time.
use player.Common.{
  ℕ, ◌≤◌, ◌<◌, ◌≡◌, refl, ◌⊎◌, inl, inr, false, List, [], ◌∷◌, ◌++◌, map, ltb, ltb→lt, arith, All,
  Option-cases, ◌==◌, ◌&&◌, not, Bool-cases,
}
use player.Prolink.Packets.{Ipv4Addr}
use player.Prolink.Join.{
  Joiner, Phase, waiting, hello, stage1, stage2, stage3, JoinAction, listen_before_claim_ns, later,
  new, set_interface, on_number_seen, on_number_in_use, on_assignment_intention,
  on_assignment_finished, yield_to, is_yielded, awaits_mixer, confirmed,
}
use player.Prolink.Join.Inputs.{
  Input, interface, polls, number_seen, number_in_use, assignment_intention, assignment,
  assignment_finished, step, run,
}
use player.Prolink.Join.Listen.{IsQuiet, IsEarly, Listens, Keeps, Keeps-poll}

-- Every input but a mixer's assignment, which moves the claim to stage 3 at once.
abbrev pub IsPlain : ℕ × Input → Type 0
IsPlain (now, assignment number mixer) = ⊥
IsPlain _ = Unit {0}

Keeps-seen :
    (since : ℕ) (j : Joiner) (number : ℕ) (by : Ipv4Addr) (name : List ℕ)
    → Listens since j
    → Keeps since (on_number_seen j number by name)
unfolding on_number_seen yield_to
Keeps-seen since j number by name (e, p) =
    elim (Bool-cases (number == j.number && not (is_yielded j.phase))) [
      | inr off ↦ rw (off, on_number_seen) ((e, p), tt)
      | inl met ↦
          rw (met, on_number_seen)
            (elim (Bool-cases (is_yielded j.phase)) [
              | inl gone ↦ rw (gone, yield_to) ((e, p), tt)
              | inr here ↦ rw (here, yield_to) ((e, tt), (tt, tt))
            ])
    ]

Keeps-intention :
    (since : ℕ) (j : Joiner) (mixer : Ipv4Addr)
    → Listens since j
    → Keeps since (on_assignment_intention j mixer)
unfolding on_assignment_intention
Keeps-intention since j mixer (e, p) = elim (Bool-cases (awaits_mixer j.phase)) [
  | inr off ↦ rw (off, on_assignment_intention) ((e, p), tt)
  | inl met ↦ elim (Option-cases j.ip) [
    | inl off ↦ rw (met, off, on_assignment_intention) ((e, p), tt)
    | inr (ip, on) ↦ rw (met, on, on_assignment_intention) ((e, p), (tt, tt))
  ]
]

early_unconfirmed : (ph : Phase) → IsEarly ph → confirmed ph ≡ false
early_unconfirmed waiting p = refl
early_unconfirmed (hello n) p = refl
early_unconfirmed (stage1 n) p = refl
early_unconfirmed (stage2 n) p = elim p [ ]
early_unconfirmed (stage3 n) p = elim p [ ]
early_unconfirmed Phase.joined p = elim p [ ]
early_unconfirmed Phase.yielded p = refl

step-Keeps :
    (since now : ℕ) (j : Joiner) (input : Input)
    → now < later since listen_before_claim_ns
    → IsPlain (now, input)
    → Listens since j
    → Keeps since (step j now input)
unfolding step set_interface on_number_in_use on_assignment_finished
step-Keeps since now j (interface ip mac) before a h = (h, tt)
step-Keeps since now j (polls peers) before a h = Keeps-poll since now peers before j h
step-Keeps since now j (number_seen number by name) before a h = Keeps-seen since j number by name h
step-Keeps since now j (number_in_use number by name) before a h =
    Keeps-seen since j number by name h
step-Keeps since now j (assignment_intention mixer) before a h = Keeps-intention since j mixer h
step-Keeps since now j (assignment number mixer) before a h = elim a [ ]
step-Keeps since now j assignment_finished before a h =
    rw (early_unconfirmed j.phase h.1, on_assignment_finished) (h, tt)

-- The calls come in the order of their times, and none is before `t`.
abbrev pub IsOrdered : ℕ → List (ℕ × Input) → Type 0
IsOrdered t [] = Unit {0}
IsOrdered t ((now, input) ∷ rest) = (t ≤ now) × IsOrdered now rest

-- Before the end of the listening time only quiet actions are asked for.
abbrev pub IsPatient : ℕ → ℕ × JoinAction → Type 0
IsPatient since (now, a) = (later since listen_before_claim_ns ≤ now) ⊎ IsQuiet a

quiet-IsPatient :
    (since now : ℕ) (xs : List JoinAction)
    → All IsQuiet xs
    → All (IsPatient since) (map (λ a. (now, a)) xs)
quiet-IsPatient since now [] h = tt
quiet-IsPatient since now (x ∷ xs) h = (inr h.0, quiet-IsPatient since now xs h.1)

late-IsPatient :
    (since now : ℕ) (xs : List JoinAction)
    → later since listen_before_claim_ns ≤ now
    → All (IsPatient since) (map (λ a. (now, a)) xs)
late-IsPatient since now [] h = tt
late-IsPatient since now (x ∷ xs) h = (inl h, late-IsPatient since now xs h)

late_or_quiet :
    (since : ℕ) (xs ys : List (ℕ × JoinAction))
    → All (IsPatient since) xs
    → All (IsPatient since) ys
    → All (IsPatient since) (xs ++ ys)
late_or_quiet since [] ys h k = k
late_or_quiet since (x ∷ xs) ys h k = (h.0, late_or_quiet since xs ys h.1 k)

run_late :
    (since t : ℕ) (j : Joiner) (calls : List (ℕ × Input))
    → later since listen_before_claim_ns ≤ t
    → IsOrdered t calls
    → All (IsPatient since) (run j calls).1
unfolding run
run_late since t j [] late o = tt
run_late since t j ((now, input) ∷ rest) late o =
    late_or_quiet since (map (λ a. (now, a)) (step j now input).1) _
      (late-IsPatient since now (step j now input).1 (ground arith))
      (run_late since now (step j now input).0 rest (ground arith) o.1)

run_early :
    (since t : ℕ) (j : Joiner) (calls : List (ℕ × Input))
    → Listens since j
    → IsOrdered t calls
    → All IsPlain calls
    → All (IsPatient since) (run j calls).1
unfolding run
run_early since t j [] h o a = tt
run_early since t j ((now, input) ∷ rest) h o a =
    elim (Bool-cases (ltb now (later since listen_before_claim_ns))) [
      | inr over ↦ run_late since now j ((now, input) ∷ rest) (ground arith) (ground arith, o.1)
      | inl before ↦
          let kept = step-Keeps since now j input (ltb→lt _ _ before) a.0 h in
          late_or_quiet since (map (λ a. (now, a)) (step j now input).1) _
            (quiet-IsPatient since now (step j now input).1 kept.1)
            (run_early since now (step j now input).0 rest kept.0 o.1 a.1)
    ]

-- A joiner started at `start` and driven by calls in the order of their times, none of them a
-- mixer's assignment, broadcasts no packet of kind 02, 04 or 06 (a claim of its number of stage 2
-- or 3, a keep-alive) before the listening time of 2.1 s after `start` is over (the sum wraps
-- as `u64` does).
pub listens_first :
    (name : List ℕ) (number start : ℕ) (calls : List (ℕ × Input))
    → IsOrdered start calls
    → All IsPlain calls
    → All (IsPatient start) (run (new name number start) calls).1
unfolding new
listens_first name number start calls o a =
    run_early start start (new name number start) calls (refl, tt) o a
