-- ===== src/Prolink/Join/Yield.antt =====
-- Giving the number up: a joiner whose number another device has falls silent for good.
use mathlib.Core.Path.{subst}
use player.Common.{
  ℕ, suc, ◌≡◌, refl, sym, ap, ◌∙◌, inl, inr, true, List, [], ◌∷◌, ◌++◌, map, ltb, arith, Bool-cases,
}
use player.Prolink.Join.{
  Joiner, Phase, is_yielded, has_yielded, on_number_seen, on_number_in_use, on_assignment_intention,
  on_assignment, on_assignment_finished, poll, poll_loop, set_interface, yield_to,
}
use player.Prolink.Join.Inputs.{
  Input, interface, polls, number_seen, number_in_use, assignment_intention, assignment,
  assignment_finished, step, run,
}

-- A yielded joiner that is polled does nothing, due or not.
silent_round :
    (r : ℕ) (j : Joiner) (now peers : ℕ)
    → poll_loop (suc r) (record j { phase = Phase.yielded }) now peers []
      ≡ (record j { phase = Phase.yielded }, [])
unfolding poll_loop
silent_round r j now peers = elim (Bool-cases (ltb now j.next_at)) [
  | inl early ↦ rw (early, poll_loop) refl
  | inr due ↦ rw (due, poll_loop) refl
]

silent_poll :
    (j : Joiner) (now peers : ℕ)
    → j.phase ≡ Phase.yielded
    → ((poll j now peers).0.phase ≡ Phase.yielded) × ((poll j now peers).1 ≡ [])
unfolding poll
silent_poll j now peers e =
    subst
      (λ ph.
        ((poll (record j { phase = ph }) now peers).0.phase ≡ Phase.yielded)
        × ((poll (record j { phase = ph }) now peers).1 ≡ []))
      (sym e)
      (ap (λ r. r.0.phase) (silent_round 7 j now peers), ap (λ r. r.1) (silent_round 7 j now peers))

silent_step :
    (j : Joiner) (now : ℕ) (input : Input)
    → j.phase ≡ Phase.yielded
    → ((step j now input).0.phase ≡ Phase.yielded) × ((step j now input).1 ≡ [])
unfolding step set_interface on_number_in_use on_number_seen on_assignment_intention on_assignment
    on_assignment_finished yield_to
silent_step j now (interface ip mac) e = (e, refl)
silent_step j now (polls peers) e = silent_poll j now peers e
silent_step j now (number_seen number by name) e = ground arith
silent_step j now (number_in_use number by name) e = ground arith
silent_step j now (assignment_intention mixer) e = ground arith
silent_step j now (assignment number mixer) e = ground arith
silent_step j now assignment_finished e = ground arith

-- Once yielded, no sequence of calls makes the joiner send or report anything, and it stays
-- yielded.
pub yielded_silent :
    (j : Joiner) (calls : List (ℕ × Input))
    → j.phase ≡ Phase.yielded
    → (has_yielded (run j calls).0 ≡ true) × ((run j calls).1 ≡ [])
unfolding run has_yielded
yielded_silent j [] e = (ap is_yielded e, refl)
yielded_silent j ((now, input) ∷ rest) e =
    let (still, none_now) = silent_step j now input e in
    let (last, none_later) = yielded_silent (step j now input).0 rest still in
    (
      last,
      ap (λ l. map (λ a. (now, a)) l ++ (run (step j now input).0 rest).1) none_now ∙ none_later,
    )
