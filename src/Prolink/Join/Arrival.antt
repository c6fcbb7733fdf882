-- ===== src/Prolink/Join/Arrival.antt =====
-- The whole startup: a joiner that is polled when it is due, however late, joins the network.
use mathlib.Core.Path.{subst}
use player.Common.{
  Bool, ℕ, zero, suc, ◌+◌, ◌-◌, ◌≤◌, ◌<◌, ◌≡◌, refl, sym, ap, ◌∙◌, ◌⊎◌, inl, inr, some, List, [],
  ◌∷◌, ◌++◌, length, ltb, ◌&&◌, ◌==◌, arith, Bool-cases,
}
use player.Prolink.Packets.{Ipv4Addr, Mac}
use player.Prolink.Join.{
  Joiner, Phase, broadcast, JoinAction, send, event, claiming, begun, poll, later, step_ns,
  keep_alive_ns, keep_alive, new, set_interface,
}
use player.Prolink.Join.Rounds.{round_hello}
use player.Prolink.Join.Startup.{script, phase_after}
use player.Prolink.Join.Inputs.{polls, run}
use player.Prolink.Join.Steady.{
  packets, poll_calls, AllDue, scripts, Arrived, run-poll, AllDue-poll, joined-Steady,
}
use player.Prolink.Join.Turns.{phase_at, at, listened_at, poll-last, poll-waits, poll-sends}

-- The polls that are left are enough; one may find that the listening time is not over yet.
abbrev Enough : Joiner → ℕ → ℕ → Type 0
Enough j i polls_left =
    ((13 ≤ i + polls_left) × ((6 < i) ⊎ ((i ≡ 6) × (listened_at j ≤ j.next_at))))
    ⊎ ((i ≤ 6) × (14 ≤ i + polls_left))

waits-Enough :
    (j : Joiner) (i now polls_left : ℕ)
    → j.next_at ≤ now
    → i ≡ 6
    → now < listened_at j
    → Enough j i (suc polls_left)
    → Enough (record j { next_at = listened_at j }) i polls_left
waits-Enough j i now n due six early (inl (many, inl past)) = absurd (omega arith)
waits-Enough j i now n due six early (inl (many, inr (e, heard))) = absurd (omega arith)
waits-Enough j i now n due six early (inr (low, many)) = inl (omega arith, inr (six, omega arith))

sends-Enough :
    (j next : Joiner) (i polls_left : ℕ)
    → Enough j i (suc polls_left)
    → Enough next (suc i) polls_left
sends-Enough j next i n (inl (many, inl past)) = inl (omega arith, inl (omega arith))
sends-Enough j next i n (inl (many, inr (e, heard))) = inl (omega arith, inl (omega arith))
sends-Enough j next i n (inr (low, many)) = elim (Bool-cases (ltb i 6)) [
  | inl h ↦ inr (ground arith, omega arith)
  | inr h ↦ inl (omega arith, inl (ground arith))
]

-- One packet is sent, and the rest follows.
sent-Arrived :
    (j : Joiner) (i now : ℕ) (r : Joiner × List (ℕ × JoinAction))
    → i < 12
    → Arrived j (suc i) r
    → Arrived j i (r.0, (now, send (broadcast (script j i))) ∷ r.1)
unfolding packets scripts
sent-Arrived j i now r below a =
    let left : 12 - i ≡ suc (12 - suc i) = omega arith in
    let here : i + 1 ≡ suc i = omega arith in
    record {
      phase = a.phase;
      announced = a.announced;
      order = rw left (rw here (ap (◌∷◌ (script j i)) a.order));
      some_sent = a.some_sent;
      keep_alives = a.keep_alives;
    }

scripts-timed :
    (j : Joiner) (next i n : ℕ) → scripts (record j { next_at = next }) i n ≡ scripts j i n
unfolding scripts script
scripts-timed j next i zero = refl
scripts-timed j next i (suc n) = ap (◌∷◌ (script j i)) (scripts-timed j next (i + 1) n)

timed-Arrived :
    (j : Joiner) (next i : ℕ) (r : Joiner × List (ℕ × JoinAction))
    → Arrived (record j { next_at = next }) i r
    → Arrived j i r
timed-Arrived j next i r a = record {
  phase = a.phase;
  announced = a.announced;
  order = a.order ∙ ap (λ s. s ++ a.announced) (scripts-timed j next i (12 - i));
  some_sent = a.some_sent;
  keep_alives = a.keep_alives;
}

last-Arrived :
    (calls : List (ℕ × ℕ)) (j : Joiner) (i now peers : ℕ)
    → i ≡ 12
    → j.next_at ≤ now
    → AllDue (poll (at j i) now peers).0 calls
    → Arrived j i (run (at j i) ((now, polls peers) ∷ poll_calls calls))
unfolding packets scripts keep_alive
last-Arrived calls j i now peers e due h =
    let next : Joiner = record j { next_at = later now keep_alive_ns } in
    let joined : Joiner = record next { phase = Phase.joined } in
    let reply = poll-last j i now peers e due in
    let s = joined-Steady calls next (AllDue-poll (at j i) joined _ now peers calls reply h) in
    subst (Arrived j i) (sym (run-poll (at j i) joined _ now peers (poll_calls calls) reply))
      (record {
        phase = s.phase;
        announced = keep_alive j peers ∷ packets (run joined (poll_calls calls)).1;
        order = rw e refl;
        some_sent = omega arith;
        keep_alives = ((peers, sym (s.same peers)), s.keep_alives);
      })

at-Arrived :
    (calls : List (ℕ × ℕ)) (j : Joiner) (i : ℕ)
    → i < 13
    → Enough j i (length calls)
    → AllDue (at j i) calls
    → Arrived j i (run (at j i) (poll_calls calls))
at-Arrived [] j i below (inl (many, ready)) due = absurd (omega arith)
at-Arrived [] j i below (inr (low, many)) due = absurd (omega arith)
at-Arrived ((now, peers) ∷ calls) j i below enough (due, later_due) = elim (Bool-cases (i == 12)) [
  | inl last ↦ last-Arrived calls j i now peers (ground arith) due later_due
  | inr more ↦ elim (Bool-cases (i == 6 && ltb now (listened_at j))) [
    | inl early ↦
        let waiting : Joiner = record j { next_at = listened_at j } in
        let reply = poll-waits j i now peers (ground arith) due (ground arith) in
        let rest =
          at-Arrived calls waiting i below
            (waits-Enough j i now (length calls) due (ground arith) (ground arith) enough)
            (AllDue-poll (at j i) (at waiting i) [] now peers calls reply later_due) in
        subst (Arrived j i)
          (sym (run-poll (at j i) (at waiting i) [] now peers (poll_calls calls) reply))
          (timed-Arrived j (listened_at j) i _ rest)
    | inr go ↦
        let next : Joiner = record j { next_at = later now step_ns } in
        let reply = poll-sends j i now peers (ground arith) due (ground arith) in
        let rest =
          at-Arrived calls next (suc i) (ground arith) (sends-Enough j next i (length calls) enough)
            (AllDue-poll (at j i) (at next (suc i)) _ now peers calls reply later_due) in
        subst (Arrived j i)
          (sym (run-poll (at j i) (at next (suc i)) _ now peers (poll_calls calls) reply))
          (sent-Arrived j i now _ (ground arith)
            (timed-Arrived j (later now step_ns) (suc i) _ rest))
  ]
]

poll-first :
    (j : Joiner) (ip : Ipv4Addr) (now peers : ℕ)
    → poll (record j { phase = Phase.waiting; ip = some ip }) now peers ≡ (
      at (record j { ip = some ip; first_on_network = peers == 0; next_at = later now step_ns }) 1,
      event (claiming j.number) ∷ send (broadcast (script j 0)) ∷ [],
    )
unfolding poll phase_at phase_after script
poll-first j ip now peers =
    round_hello 7 (begun (record j { ip = some ip }) now peers) now peers
      (event (claiming j.number) ∷ []) 0 (ground arith) refl

scripts-begun :
    (j : Joiner) (first : Bool) (next i n : ℕ)
    → scripts (record j { first_on_network = first; next_at = next }) i n ≡ scripts j i n
unfolding scripts script
scripts-begun j first next i zero = refl
scripts-begun j first next i (suc n) = ap (◌∷◌ (script j i)) (scripts-begun j first next (i + 1) n)

begun-Arrived :
    (j : Joiner) (first : Bool) (next now : ℕ) (r : Joiner × List (ℕ × JoinAction))
    → Arrived (record j { first_on_network = first; next_at = next }) 1 r
    → Arrived j 0
        (r.0, (now, event (claiming j.number)) ∷ (now, send (broadcast (script j 0))) ∷ r.1)
unfolding packets scripts
begun-Arrived j first next now r a = record {
  phase = a.phase;
  announced = a.announced;
  order =
      ap (◌∷◌ (script j 0))
        (a.order ∙ ap (λ s. s ++ a.announced) (scripts-begun j first next 1 11));
  some_sent = a.some_sent;
  keep_alives = a.keep_alives;
}

-- A new joiner with an interface that is polled fourteen times or more, each time when it is due or
-- later, joins; it broadcasts the twelve packets of the startup sequence in order, then only
-- keep-alives, and at least one.
pub startup-Arrived :
    (name : List ℕ) (number start : ℕ) (ip : Ipv4Addr) (mac : Mac) (calls : List (ℕ × ℕ))
    → 14 ≤ length calls
    → AllDue (set_interface (new name number start) ip mac) calls
    → Arrived
        (set_interface (new name number start) ip mac)
        0
        (run (set_interface (new name number start) ip mac) (poll_calls calls))
unfolding new set_interface
startup-Arrived name number start ip mac [] many due = absurd (omega arith)
startup-Arrived name number start ip mac ((now, peers) ∷ calls) many (due, later_due) =
    let j = set_interface (new name number start) ip mac in
    let next : Joiner = record j { first_on_network = peers == 0; next_at = later now step_ns } in
    let reply = poll-first j ip now peers in
    let rest =
      at-Arrived calls next 1 (omega arith) (inr (omega arith, omega arith))
        (AllDue-poll j (at next 1) _ now peers calls reply later_due) in
    subst (Arrived j 0) (sym (run-poll j (at next 1) _ now peers (poll_calls calls) reply))
      (begun-Arrived j (peers == 0) (later now step_ns) now _ rest)
