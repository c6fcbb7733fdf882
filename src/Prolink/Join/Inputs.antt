-- ===== src/Prolink/Join/Inputs.antt =====
-- The joiner as its caller drives it: a list of timed calls, and the actions that they answer.
use player.Common.{ℕ, List, [], ◌∷◌, ◌++◌, map}
use player.Prolink.Packets.{Ipv4Addr, Mac}
use player.Prolink.Join.{
  Joiner, JoinAction, poll, set_interface, on_number_seen, on_number_in_use,
  on_assignment_intention, on_assignment, on_assignment_finished,
}

-- A call of the joiner's owner, without its time.
pub data Input : Type 0 where
  interface : Ipv4Addr → Mac → Input
  polls : (peers : ℕ) → Input
  number_seen number_in_use : (number : ℕ) → Ipv4Addr → (name : List ℕ) → Input
  assignment_intention : (mixer : Ipv4Addr) → Input
  assignment : (number : ℕ) → (mixer : Ipv4Addr) → Input
  assignment_finished : Input

unfoldable pub step : Joiner → ℕ → Input → Joiner × List JoinAction
step j now (interface ip mac) = (set_interface j ip mac, [])
step j now (polls peers) = poll j now peers
step j now (number_seen number by name) = on_number_seen j number by name
step j now (number_in_use number by name) = on_number_in_use j number by name
step j now (assignment_intention mixer) = on_assignment_intention j mixer
step j now (assignment number mixer) = on_assignment j number mixer now
step j now assignment_finished = (on_assignment_finished j now, [])

-- The state after the calls, and the actions with the times at which they were asked for.
unfoldable pub run : Joiner → List (ℕ × Input) → Joiner × List (ℕ × JoinAction)
unfolding step
run j [] = (j, [])
run j ((now, input) ∷ rest) =
    let (j', actions) = step j now input in
    let (last, more) = run j' rest in (last, map (λ a. (now, a)) actions ++ more)
