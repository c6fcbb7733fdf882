-- ===== src/Prolink/Join.antt =====
-- core/sync/src/prolink/join.rs: joining the network as a virtual player. A handler returns the new
-- joiner and the actions for the caller. Times are `u64` nanoseconds; a sum of times wraps.
pub mod Rounds
pub mod Startup
pub mod Inputs
pub mod Yield
pub mod Steady
pub mod Turns
pub mod Arrival
pub mod Told
pub mod Listen
pub mod Patience
use player.Common.{
  ℕ, zero, suc, ◌+◌, ◌%◌, ◌^◌, min, Bool, true, false, not, ◌&&◌, ◌||◌, Option, none, some, List,
  [], ◌∷◌, ◌++◌, ltb, ◌==◌, if◌then◌else◌,
}
use player.Common.Text.{list_eq}
use player.Prolink.Packets.{Ipv4Addr, Mac}
use player.Prolink.Announce.{
  build_assignment_request, build_claim_stage1, build_claim_stage2, build_claim_stage3, build_hello,
  build_keep_alive, KeepAlive,
}

abbrev pub step_ns : ℕ
step_ns = 300_000_000

abbrev pub keep_alive_ns : ℕ
keep_alive_ns = 1_500_000_000

abbrev pub listen_before_claim_ns : ℕ
listen_before_claim_ns = 2_100_000_000

-- `a + b` of two `u64`.
abbrev pub later : ℕ → ℕ → ℕ
later a b = (a + b) % 2 ^ 64

pub data Outgoing : Type 0 where
  broadcast : List ℕ → Outgoing
  unicast : Ipv4Addr → List ℕ → Outgoing

pub data JoinEvent : Type 0 where
  claiming joined : ℕ → JoinEvent
  assigned : (number : ℕ) (by : Ipv4Addr) → JoinEvent
  yielded : (number : ℕ) (by : Ipv4Addr) (name : List ℕ) → JoinEvent

pub data JoinAction : Type 0 where
  send : Outgoing → JoinAction
  event : JoinEvent → JoinAction

pub data Phase : Type 0 where
  waiting : Phase
  hello stage1 stage2 stage3 : ℕ → Phase
  joined yielded : Phase

pub record Joiner : Type 0 where
  pub name : List ℕ
  pub mac : Mac
  pub number : ℕ
  pub ip : Option Ipv4Addr
  pub phase : Phase
  pub listen_since : ℕ
  pub next_at : ℕ
  pub first_on_network : Bool

abbrev pub unspecified : Ipv4Addr
unspecified = record { a = 0; b = 0; c = 0; d = 0 }

unfoldable pub new : List ℕ → ℕ → ℕ → Joiner
new name number now = record {
  name = name;
  mac = record { m0 = 0; m1 = 0; m2 = 0; m3 = 0; m4 = 0; m5 = 0 };
  number = number;
  ip = none;
  phase = waiting;
  listen_since = now;
  next_at = now;
  first_on_network = false;
}

unfoldable pub set_interface : Joiner → Ipv4Addr → Mac → Joiner
set_interface j ip mac = record j { mac = mac; ip = some ip }

abbrev pub is_yielded : Phase → Bool
is_yielded Phase.yielded = true
is_yielded _ = false

unfoldable pub has_yielded : Joiner → Bool
has_yielded j = is_yielded j.phase

abbrev pub ip_eq : Ipv4Addr → Ipv4Addr → Bool
ip_eq x y = x.a == y.a && x.b == y.b && x.c == y.c && x.d == y.d

unfoldable pub is_self : Joiner → List ℕ → Ipv4Addr → Bool
is_self j name ip = elim j.ip [ none ↦ false | some own ↦ ip_eq own ip && list_eq name j.name ]

abbrev pub deadline_of : Phase → ℕ → Option ℕ
deadline_of waiting next = none
deadline_of Phase.yielded next = none
deadline_of _ next = some next

unfoldable pub deadline : Joiner → Option ℕ
deadline j = deadline_of j.phase j.next_at

abbrev pub is_claiming : Phase → Bool
is_claiming (hello n) = true
is_claiming (stage1 n) = true
is_claiming (stage2 n) = true
is_claiming (stage3 n) = true
is_claiming _ = false

unfoldable pub is_claiming_now : Joiner → Bool
is_claiming_now j = is_claiming j.phase

abbrev pub ip_or_unspecified : Option Ipv4Addr → Ipv4Addr
ip_or_unspecified none = unspecified
ip_or_unspecified (some ip) = ip

-- `u8::try_from(peers.saturating_add(1)).unwrap_or(u8::MAX)`.
unfoldable pub keep_alive : Joiner → ℕ → List ℕ
keep_alive j peers = build_keep_alive (record {
  number = j.number;
  name = j.name;
  mac = j.mac;
  ip = ip_or_unspecified j.ip;
  peers = min (peers + 1) 255;
  device_type = 0x01;
  first_on_network = j.first_on_network;
  cdj3000_compatible = true;
})

abbrev pub sends : Joiner → List JoinAction → List ℕ → Phase → ℕ → Joiner × List JoinAction
sends j out packet phase next =
    (record j { phase = phase; next_at = next }, out ++ send (broadcast packet) ∷ [])

-- The loop of `poll`, with the rounds left. A round that breaks returns.
unfoldable pub poll_loop : ℕ → Joiner → ℕ → ℕ → List JoinAction → Joiner × List JoinAction
poll_loop zero j now peers out = (j, out)
poll_loop (suc rounds) j now peers out = elim (ltb now j.next_at) [
  | true ↦ (j, out)
  | false ↦ elim j.phase [
    | waiting ↦ (j, out)
    | Phase.yielded ↦ (j, out)
    | hello n ↦ elim (ltb n 3) [
      | true ↦ sends j out (build_hello j.name) (hello (n + 1)) (later now step_ns)
      | false ↦ poll_loop rounds (record j { phase = stage1 0 }) now peers out
    ]
    | stage1 n ↦ elim (ltb n 3) [
      | true ↦
          sends j out (build_claim_stage1 j.name j.mac (n + 1)) (stage1 (n + 1)) (later now step_ns)
      | false ↦
          let earliest = later j.listen_since listen_before_claim_ns in
          elim (ltb now earliest) [
            | true ↦ (record j { next_at = earliest }, out)
            | false ↦ poll_loop rounds (record j { phase = stage2 0 }) now peers out
          ]
    ]
    | stage2 n ↦ elim (ltb n 3) [
      | true ↦
          sends j out
            (build_claim_stage2 j.name (ip_or_unspecified j.ip) j.mac j.number (n + 1) false)
            (stage2 (n + 1)) (later now step_ns)
      | false ↦ poll_loop rounds (record j { phase = stage3 0 }) now peers out
    ]
    | stage3 n ↦ elim (ltb n 3) [
      | true ↦
          sends j out (build_claim_stage3 j.name j.number (n + 1)) (stage3 (n + 1))
            (later now step_ns)
      | false ↦
          poll_loop rounds (record j { phase = Phase.joined }) now peers
            (out ++ event (JoinEvent.joined j.number) ∷ [])
    ]
    | Phase.joined ↦ sends j out (keep_alive j peers) Phase.joined (later now keep_alive_ns)
  ]
]

abbrev pub is_waiting : Phase → Bool
is_waiting waiting = true
is_waiting _ = false

abbrev pub begun : Joiner → ℕ → ℕ → Joiner
begun j now peers = record j { phase = hello 0; next_at = now; first_on_network = peers == 0 }

unfoldable pub poll : Joiner → ℕ → ℕ → Joiner × List JoinAction
unfolding poll_loop
poll j now peers = elim (is_waiting j.phase) [
  | true ↦ elim j.ip [
    | none ↦ (j, [])
    | some ip ↦ poll_loop 8 (begun j now peers) now peers (event (claiming j.number) ∷ [])
  ]
  | false ↦ poll_loop 8 j now peers []
]

unfoldable pub yield_to : Joiner → Ipv4Addr → List ℕ → Joiner × List JoinAction
yield_to j by name = elim (is_yielded j.phase) [
  | true ↦ (j, [])
  | false ↦ (record j { phase = Phase.yielded }, event (JoinEvent.yielded j.number by name) ∷ [])
]

unfoldable pub on_number_seen : Joiner → ℕ → Ipv4Addr → List ℕ → Joiner × List JoinAction
unfolding yield_to
on_number_seen j number by name =
    if number == j.number && not (is_yielded j.phase) then yield_to j by name else (j, [])

unfoldable pub on_number_in_use : Joiner → ℕ → Ipv4Addr → List ℕ → Joiner × List JoinAction
unfolding on_number_seen
on_number_in_use j number by name = on_number_seen j number by name

abbrev pub awaits_mixer : Phase → Bool
awaits_mixer (stage1 n) = true
awaits_mixer (stage2 n) = true
awaits_mixer _ = false

unfoldable pub on_assignment_intention : Joiner → Ipv4Addr → Joiner × List JoinAction
on_assignment_intention j mixer = elim (awaits_mixer j.phase) [
  | false ↦ (j, [])
  | true ↦ elim j.ip [
    | none ↦ (j, [])
    | some ip ↦ (j, send (unicast mixer (build_assignment_request j.name ip j.mac false)) ∷ [])
  ]
]

abbrev pub in_stage3 : Phase → Bool
in_stage3 (stage3 n) = true
in_stage3 _ = false

unfoldable pub on_assignment : Joiner → ℕ → Ipv4Addr → ℕ → Joiner × List JoinAction
on_assignment j number mixer now =
    let takes = not (number == 0) && not (number == j.number) in
    let j' = if takes then record j { number = number } else j in
    let out = if takes then event (assigned number mixer) ∷ [] else [] in
    if is_claiming j.phase
    then if in_stage3 j.phase
      then (j', out)
      else (record j' { phase = stage3 0; next_at = now }, out)
    else (j, [])

abbrev pub confirmed : Phase → Bool
confirmed (stage3 (suc n)) = true
confirmed _ = false

unfoldable pub on_assignment_finished : Joiner → ℕ → Joiner
on_assignment_finished j now =
    if confirmed j.phase then record j { phase = stage3 3; next_at = now } else j
