-- ===== src/Prolink/Join/Told.antt =====
-- Giving the number up is reported to the caller once, and only then.
use mathlib.Core.Path.{subst}
use player.Common.{
  ℕ, zero, suc, ◌+◌, ◌≡◌, refl, sym, ◌∙◌, inl, inr, false, Option-cases, List, [], ◌∷◌, ◌++◌, map,
  ltb, if◌then◌else◌, arith, Bool-cases,
}
use player.Prolink.Join.{
  Joiner, Phase, waiting, hello, stage1, stage2, stage3, JoinAction, send, event, JoinEvent,
  claiming, assigned, is_yielded, begun, on_number_seen, on_number_in_use, on_assignment_intention,
  on_assignment, on_assignment_finished, poll, poll_loop, set_interface, yield_to, later,
  listen_before_claim_ns, later,
}
use player.Prolink.Join.Rounds.{
  round_hello, round_hello_done, round_stage1, round_stage1_done, round_stage1_waits, round_stage2,
  round_stage2_done, round_stage3, round_stage3_done, round_joined, round_idle,
}
use player.Prolink.Join.Inputs.{
  Input, interface, polls, number_seen, number_in_use, assignment_intention, assignment,
  assignment_finished, step, run,
}

-- How often the actions report that the number was given up.
unfoldable pub yields_in : List JoinAction → ℕ
yields_in [] = 0
yields_in (event (JoinEvent.yielded number by name) ∷ rest) = suc (yields_in rest)
yields_in (event (claiming number) ∷ rest) = yields_in rest
yields_in (event (JoinEvent.joined number) ∷ rest) = yields_in rest
yields_in (event (assigned number by) ∷ rest) = yields_in rest
yields_in (send packet ∷ rest) = yields_in rest

unfoldable pub yields_told : List (ℕ × JoinAction) → ℕ
unfolding yields_in
yields_told [] = 0
yields_told ((now, action) ∷ rest) = yields_in (action ∷ []) + yields_told rest

-- 1 for a joiner that has given its number up.
abbrev pub given_up : Joiner → ℕ
given_up j = if is_yielded j.phase then 1 else 0

-- A reply reports as many yields as happened.
abbrev IsTold : Joiner → Joiner × List JoinAction → Type 0
IsTold j r = yields_in r.1 + given_up j ≡ given_up r.0

yields_in-append : (xs ys : List JoinAction) → yields_in (xs ++ ys) ≡ yields_in xs + yields_in ys
unfolding yields_in
yields_in-append [] ys = omega arith
yields_in-append (event (JoinEvent.yielded number by name) ∷ rest) ys =
    omega (arith, yields_in-append rest ys)
yields_in-append (event (claiming number) ∷ rest) ys = yields_in-append rest ys
yields_in-append (event (JoinEvent.joined number) ∷ rest) ys = yields_in-append rest ys
yields_in-append (event (assigned number by) ∷ rest) ys = yields_in-append rest ys
yields_in-append (send packet ∷ rest) ys = yields_in-append rest ys

-- The loop of a poll neither yields nor reports it.
abbrev IsCalm : Joiner → List JoinAction → Joiner × List JoinAction → Type 0
IsCalm j out r = (yields_in r.1 ≡ yields_in out) × (given_up r.0 ≡ given_up j)

calm_end :
    (out : List JoinAction) (a : JoinAction)
    → yields_in (a ∷ []) ≡ 0
    → yields_in (out ++ a ∷ []) ≡ yields_in out
calm_end out a h = omega (arith, yields_in-append out (a ∷ []), h)

round-IsCalm :
    (r : ℕ) (ph : Phase) (j : Joiner) (now peers : ℕ) (out : List JoinAction)
    → ltb now j.next_at ≡ false
    → ((ph' : Phase) (out' : List JoinAction)
        → IsCalm
            (record j { phase = ph' })
            out'
            (poll_loop r (record j { phase = ph' }) now peers out'))
    → IsCalm
        (record j { phase = ph })
        out
        (poll_loop (suc r) (record j { phase = ph }) now peers out)
unfolding poll_loop yields_in
round-IsCalm r waiting j now peers out due go_on = rw (due, poll_loop) (refl, refl)
round-IsCalm r Phase.yielded j now peers out due go_on = rw (due, poll_loop) (refl, refl)
round-IsCalm r (hello n) j now peers out due go_on = elim (Bool-cases (ltb n 3)) [
  | inl more ↦
      subst (IsCalm (record j { phase = hello n }) out)
        (sym (round_hello r j now peers out n due more)) (calm_end out _ refl, refl)
  | inr done ↦
      subst (IsCalm (record j { phase = hello n }) out)
        (sym (round_hello_done r j now peers out n due done)) (go_on (stage1 0) out)
]
round-IsCalm r (stage1 n) j now peers out due go_on = elim (Bool-cases (ltb n 3)) [
  | inl more ↦
      subst (IsCalm (record j { phase = stage1 n }) out)
        (sym (round_stage1 r j now peers out n due more)) (calm_end out _ refl, refl)
  | inr done ↦ elim (Bool-cases (ltb now (later j.listen_since listen_before_claim_ns))) [
    | inl early ↦
        subst (IsCalm (record j { phase = stage1 n }) out)
          (sym (round_stage1_waits r j now peers out n due done early)) (refl, refl)
    | inr heard ↦
        subst (IsCalm (record j { phase = stage1 n }) out)
          (sym (round_stage1_done r j now peers out n due done heard)) (go_on (stage2 0) out)
  ]
]
round-IsCalm r (stage2 n) j now peers out due go_on = elim (Bool-cases (ltb n 3)) [
  | inl more ↦
      subst (IsCalm (record j { phase = stage2 n }) out)
        (sym (round_stage2 r j now peers out n due more)) (calm_end out _ refl, refl)
  | inr done ↦
      subst (IsCalm (record j { phase = stage2 n }) out)
        (sym (round_stage2_done r j now peers out n due done)) (go_on (stage3 0) out)
]
round-IsCalm r (stage3 n) j now peers out due go_on = elim (Bool-cases (ltb n 3)) [
  | inl more ↦
      subst (IsCalm (record j { phase = stage3 n }) out)
        (sym (round_stage3 r j now peers out n due more)) (calm_end out _ refl, refl)
  | inr done ↦
      let told = out ++ event (JoinEvent.joined j.number) ∷ [] in
      let (quiet, same) = go_on Phase.joined told in
      subst (IsCalm (record j { phase = stage3 n }) out)
        (sym (round_stage3_done r j now peers out n due done)) (quiet ∙ calm_end out _ refl, same)
]
round-IsCalm r Phase.joined j now peers out due go_on =
    subst (IsCalm (record j { phase = Phase.joined }) out)
      (sym (round_joined r j now peers out due)) (calm_end out _ refl, refl)

loop-IsCalm :
    (rounds : ℕ) (ph : Phase) (j : Joiner) (now peers : ℕ) (out : List JoinAction)
    → IsCalm
        (record j { phase = ph })
        out
        (poll_loop rounds (record j { phase = ph }) now peers out)
unfolding poll_loop
loop-IsCalm zero ph j now peers out = (refl, refl)
loop-IsCalm (suc r) ph j now peers out = elim (Bool-cases (ltb now j.next_at)) [
  | inl early ↦
      subst (IsCalm (record j { phase = ph }) out)
        (sym (round_idle r (record j { phase = ph }) now peers out early)) (refl, refl)
  | inr due ↦ round-IsCalm r ph j now peers out due (λ ph' out'. loop-IsCalm r ph' j now peers out')
]

poll-IsTold :
    (ph : Phase) (j : Joiner) (now peers : ℕ)
    → IsTold (record j { phase = ph }) (poll (record j { phase = ph }) now peers)
unfolding poll yields_in
poll-IsTold waiting j now peers = elim (Option-cases j.ip) [
  | inl e ↦ rw (poll, e) refl
  | inr (ip, e) ↦
      let (quiet, same) =
        loop-IsCalm 8 (hello 0) (begun j now peers) now peers (event (claiming j.number) ∷ []) in
      rw (poll, e) (omega (arith, quiet, same))
]
poll-IsTold Phase.yielded j now peers =
    let (quiet, same) = loop-IsCalm 8 Phase.yielded j now peers [] in omega (arith, quiet, same)
poll-IsTold (hello n) j now peers =
    let (quiet, same) = loop-IsCalm 8 (hello n) j now peers [] in omega (arith, quiet, same)
poll-IsTold (stage1 n) j now peers =
    let (quiet, same) = loop-IsCalm 8 (stage1 n) j now peers [] in omega (arith, quiet, same)
poll-IsTold (stage2 n) j now peers =
    let (quiet, same) = loop-IsCalm 8 (stage2 n) j now peers [] in omega (arith, quiet, same)
poll-IsTold (stage3 n) j now peers =
    let (quiet, same) = loop-IsCalm 8 (stage3 n) j now peers [] in omega (arith, quiet, same)
poll-IsTold Phase.joined j now peers =
    let (quiet, same) = loop-IsCalm 8 Phase.joined j now peers [] in omega (arith, quiet, same)

step-IsTold : (j : Joiner) (now : ℕ) (input : Input) → IsTold j (step j now input)
unfolding step set_interface on_number_in_use on_number_seen on_assignment_intention on_assignment
    on_assignment_finished yield_to yields_in
step-IsTold j now (interface ip mac) = omega arith
step-IsTold j now (polls peers) = poll-IsTold j.phase j now peers
step-IsTold j now (number_seen number by name) = ground arith
step-IsTold j now (number_in_use number by name) = ground arith
step-IsTold j now (assignment_intention mixer) = ground arith
step-IsTold j now (assignment number mixer) = ground arith
step-IsTold j now assignment_finished = ground arith

yields_told-append :
    (now : ℕ) (actions : List JoinAction) (rest : List (ℕ × JoinAction))
    → yields_told (map (λ a. (now, a)) actions ++ rest) ≡ yields_in actions + yields_told rest
unfolding yields_told yields_in
yields_told-append now [] rest = omega arith
yields_told-append now (a ∷ actions) rest =
    omega (arith, yields_told-append now actions rest, yields_in-append (a ∷ []) actions)

-- Over any sequence of calls, the yield of the number is reported exactly once if the joiner yields during
-- them, and not at all if it does not or had yielded before.
pub run-told :
    (j : Joiner) (calls : List (ℕ × Input))
    → yields_told (run j calls).1 + given_up j ≡ given_up (run j calls).0
unfolding run yields_told
run-told j [] = omega arith
run-told j ((now, input) ∷ rest) =
    let here = step-IsTold j now input in
    let behind = run-told (step j now input).0 rest in
    omega (
      arith,
      here,
      behind,
      yields_told-append now (step j now input).1 (run (step j now input).0 rest).1,
    )
