-- ===== src/Prolink/Join/Steady.antt =====
-- A joiner that is polled when it is due: what it broadcasts, and what it does once it has joined.
use mathlib.Core.Path.{subst}
use player.Common.{
  ℕ, zero, suc, ◌+◌, ◌-◌, ◌≤◌, ◌<◌, ◌≡◌, refl, sym, ap, List, [], ◌∷◌, ◌++◌, map, All, length,
  arith,
}
use player.Prolink.Join.{
  Joiner, Phase, broadcast, unicast, JoinAction, send, event, poll, later, keep_alive_ns,
  keep_alive,
}
use player.Prolink.Join.Rounds.{round_joined}
use player.Prolink.Join.Startup.{script}
use player.Prolink.Join.Inputs.{Input, polls, step, run}

-- The broadcasts among the actions.
unfoldable pub packets : List (ℕ × JoinAction) → List (List ℕ)
packets [] = []
packets ((now, send (broadcast p)) ∷ rest) = p ∷ packets rest
packets ((now, send (unicast to p)) ∷ rest) = packets rest
packets ((now, event e) ∷ rest) = packets rest

-- Polls at given times, with the number of peers that the caller knows of.
abbrev pub poll_calls : List (ℕ × ℕ) → List (ℕ × Input)
poll_calls [] = []
poll_calls ((now, peers) ∷ rest) = (now, polls peers) ∷ poll_calls rest

-- No poll comes before the time that the joiner has set.
abbrev pub AllDue : Joiner → List (ℕ × ℕ) → Type 0
AllDue j [] = Unit {0}
AllDue j ((now, peers) ∷ rest) = (j.next_at ≤ now) × AllDue (poll j now peers).0 rest

-- The `n` packets of the startup sequence from number `i` on.
unfoldable pub scripts : Joiner → ℕ → ℕ → List (List ℕ)
scripts j i zero = []
scripts j i (suc n) = script j i ∷ scripts j (i + 1) n

abbrev pub IsKeepAlive : Joiner → List ℕ → Type 0
IsKeepAlive j packet = (peers : ℕ) × (packet ≡ keep_alive j peers)

-- The joiner has joined, and sent the startup sequence from packet `i` on and then keep-alives.
pub record Arrived (j : Joiner) (i : ℕ) (r : Joiner × List (ℕ × JoinAction)) : Type 0 where
  pub phase : r.0.phase ≡ Phase.joined
  pub announced : List (List ℕ)
  pub order : packets r.1 ≡ scripts j i (12 - i) ++ announced
  pub some_sent : 0 < length announced
  pub keep_alives : All (IsKeepAlive r.0) announced

pub packets-append :
    (now : ℕ) (actions : List JoinAction) (rest : List (ℕ × JoinAction))
    → packets (map (λ a. (now, a)) actions ++ rest)
      ≡ packets (map (λ a. (now, a)) actions) ++ packets rest
unfolding packets
packets-append now [] rest = refl
packets-append now (send (broadcast p) ∷ actions) rest =
    ap (◌∷◌ p) (packets-append now actions rest)
packets-append now (send (unicast to p) ∷ actions) rest = packets-append now actions rest
packets-append now (event e ∷ actions) rest = packets-append now actions rest

-- A poll whose reply is known, and the calls behind it.
pub run-poll :
    (j next : Joiner) (actions : List JoinAction) (now peers : ℕ) (rest : List (ℕ × Input))
    → poll j now peers ≡ (next, actions)
    → run j ((now, polls peers) ∷ rest)
      ≡ ((run next rest).0, map (λ a. (now, a)) actions ++ (run next rest).1)
unfolding run step
run-poll j next actions now peers rest e =
    ap (λ r. ((run r.0 rest).0, map (λ a. (now, a)) r.1 ++ (run r.0 rest).1)) e

pub AllDue-poll :
    (j next : Joiner) (actions : List JoinAction) (now peers : ℕ) (rest : List (ℕ × ℕ))
    → poll j now peers ≡ (next, actions)
    → AllDue (poll j now peers).0 rest
    → AllDue next rest
AllDue-poll j next actions now peers rest e h = subst (λ r. AllDue r.0 rest) e h

-- Once joined, due polls send keep-alives of the same joiner.
pub record Steady (j : Joiner) (r : Joiner × List (ℕ × JoinAction)) : Type 0 where
  pub phase : r.0.phase ≡ Phase.joined
  pub same : (peers : ℕ) → keep_alive r.0 peers ≡ keep_alive j peers
  pub keep_alives : All (IsKeepAlive r.0) (packets r.1)

pub poll-joined :
    (j : Joiner) (now peers : ℕ)
    → j.next_at ≤ now
    → poll (record j { phase = Phase.joined }) now peers ≡ (
      record j { phase = Phase.joined; next_at = later now keep_alive_ns },
      send (broadcast (keep_alive j peers)) ∷ [],
    )
unfolding poll keep_alive
poll-joined j now peers due = round_joined 7 j now peers [] (ground arith)

pub joined-Steady :
    (calls : List (ℕ × ℕ)) (j : Joiner)
    → AllDue (record j { phase = Phase.joined }) calls
    → Steady j (run (record j { phase = Phase.joined }) (poll_calls calls))
unfolding packets run keep_alive
joined-Steady [] j h = record { phase = refl; same = λ p. refl; keep_alives = tt }
joined-Steady ((now, peers) ∷ rest) j (due, h) =
    let next : Joiner = record j { next_at = later now keep_alive_ns } in
    let reply = poll-joined j now peers due in
    let joined : Joiner = record j { phase = Phase.joined } in
    let s =
      joined-Steady rest next
        (AllDue-poll joined (record next { phase = Phase.joined }) _ now peers rest reply h) in
    subst (Steady j)
      (sym (
        run-poll joined (record next { phase = Phase.joined }) _ now peers (poll_calls rest) reply))
      (record {
        phase = s.phase;
        same = s.same;
        keep_alives = ((peers, sym (s.same peers)), s.keep_alives);
      })
