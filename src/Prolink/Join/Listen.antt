-- ===== src/Prolink/Join/Listen.antt =====
-- A poll before the listening time is over: the joiner stays in the phases without our number.
use mathlib.Core.Path.{subst}
use player.Common.{
  ℕ, suc, ◌+◌, ◌<◌, ◌≡◌, ◌≢◌, sym, inl, inr, true, List, [], ◌∷◌, ◌++◌, ltb, arith, All,
  Option-cases, Bool-cases, replicate,
}
use player.Prolink.Packets.{kind_offset, u8_at, Mac}
use player.Prolink.Announce.{build_hello, build_claim_stage1, announce_packet, copy_at}
use player.Prolink.Announce.Header.{announce_header_lem}
use player.Prolink.Join.{
  Joiner, Phase, waiting, hello, stage1, stage2, stage3, broadcast, JoinAction, send, event,
  listen_before_claim_ns, later, poll, poll_loop, begun, is_waiting, claiming,
}
use player.Prolink.Join.Rounds.{
  round_hello, round_hello_done, round_stage1, round_stage1_waits, round_idle,
}

-- Not a broadcast that carries our number: a claim of stage 2 or 3, or a keep-alive.
abbrev pub IsQuiet : JoinAction → Type 0
IsQuiet (send (broadcast p)) =
    (u8_at p kind_offset ≢ 0x02) × (u8_at p kind_offset ≢ 0x04) × (u8_at p kind_offset ≢ 0x06)
IsQuiet _ = Unit {0}

hello-IsQuiet : (name : List ℕ) → IsQuiet (send (broadcast (build_hello name)))
unfolding build_hello announce_packet u8_at
hello-IsQuiet name = rw (announce_header_lem 0x0a 0 name 0x04 0x26 (replicate 2 0)) (omega arith)

stage1-IsQuiet :
    (name : List ℕ) (mac : Mac) (counter : ℕ)
    → IsQuiet (send (broadcast (build_claim_stage1 name mac counter)))
unfolding build_claim_stage1 announce_packet copy_at u8_at
stage1-IsQuiet name mac counter =
    rw (announce_header_lem 0x00 0 name 0x03 0x2c (replicate 8 0)) (omega arith)

-- The phases before our number is on the wire, and the one after we gave it up.
abbrev pub IsEarly : Phase → Type 0
IsEarly waiting = Unit {0}
IsEarly (hello n) = Unit {0}
IsEarly (stage1 n) = Unit {0}
IsEarly Phase.yielded = Unit {0}
IsEarly _ = ⊥

-- The joiner listens since `since` and is in an early phase.
abbrev pub Listens : ℕ → Joiner → Type 0
Listens since j = (j.listen_since ≡ since) × IsEarly j.phase

-- A call's answer, before the listening time is over.
abbrev pub Keeps : ℕ → Joiner × List JoinAction → Type 0
Keeps since r = Listens since r.0 × All IsQuiet r.1

All-append :
    (xs : List JoinAction) (y : JoinAction)
    → All IsQuiet xs
    → IsQuiet y
    → All IsQuiet (xs ++ y ∷ [])
All-append [] y h p = (p, tt)
All-append (x ∷ xs) y h p = (h.0, All-append xs y h.1 p)

module _ (since now peers : ℕ) (before : now < later since listen_before_claim_ns) where
  soon :
      (j : Joiner)
      → j.listen_since ≡ since
      → ltb now (later j.listen_since listen_before_claim_ns) ≡ true
  soon j e = rw e (ground arith)

  -- A loop that starts in `stage1` before the time is over stays there.
  Keeps-stage1 :
      (r n : ℕ) (j : Joiner) (out : List JoinAction)
      → j.listen_since ≡ since
      → All IsQuiet out
      → Keeps since (poll_loop (suc r) (record j { phase = stage1 n }) now peers out)
  Keeps-stage1 r n j out e q = elim (Bool-cases (ltb now j.next_at)) [
    | inl idle ↦
        subst (Keeps since) (sym (round_idle r (record j { phase = stage1 n }) now peers out idle))
          ((e, tt), q)
    | inr due ↦ elim (Bool-cases (ltb n 3)) [
      | inl more ↦
          subst (Keeps since) (sym (round_stage1 r j now peers out n due more))
            ((e, tt), (All-append out _ q (stage1-IsQuiet j.name j.mac (n + 1))))
      | inr done ↦
          subst (Keeps since) (sym (round_stage1_waits r j now peers out n due done (soon j e)))
            ((e, tt), q)
    ]
  ]

  Keeps-hello :
      (r n : ℕ) (j : Joiner) (out : List JoinAction)
      → j.listen_since ≡ since
      → All IsQuiet out
      → Keeps since (poll_loop (suc (suc r)) (record j { phase = hello n }) now peers out)
  Keeps-hello r n j out e q = elim (Bool-cases (ltb now j.next_at)) [
    | inl idle ↦
        subst (Keeps since)
          (sym (round_idle (suc r) (record j { phase = hello n }) now peers out idle)) ((e, tt), q)
    | inr due ↦ elim (Bool-cases (ltb n 3)) [
      | inl more ↦
          subst (Keeps since) (sym (round_hello (suc r) j now peers out n due more))
            ((e, tt), (All-append out _ q (hello-IsQuiet j.name)))
      | inr done ↦
          subst (Keeps since) (sym (round_hello_done (suc r) j now peers out n due done))
            (Keeps-stage1 r 0 j out e q)
    ]
  ]

  Keeps-waiting :
      (j : Joiner) (out : List JoinAction)
      → j.listen_since ≡ since
      → All IsQuiet out
      → Keeps since (poll_loop 8 (record j { phase = waiting }) now peers out)
  unfolding poll_loop
  Keeps-waiting j out e q = elim (Bool-cases (ltb now j.next_at)) [
    | inl idle ↦ rw (idle, poll_loop) ((e, tt), q)
    | inr due ↦ rw (due, poll_loop) ((e, tt), q)
  ]

  Keeps-yielded :
      (j : Joiner) (out : List JoinAction)
      → j.listen_since ≡ since
      → All IsQuiet out
      → Keeps since (poll_loop 8 (record j { phase = Phase.yielded }) now peers out)
  unfolding poll_loop
  Keeps-yielded j out e q = elim (Bool-cases (ltb now j.next_at)) [
    | inl idle ↦ rw (idle, poll_loop) ((e, tt), q)
    | inr due ↦ rw (due, poll_loop) ((e, tt), q)
  ]

  Keeps-loop :
      (j : Joiner) (ph : Phase) (out : List JoinAction)
      → j.listen_since ≡ since
      → IsEarly ph
      → All IsQuiet out
      → Keeps since (poll_loop 8 (record j { phase = ph }) now peers out)
  Keeps-loop j waiting out e p q = Keeps-waiting j out e q
  Keeps-loop j (hello n) out e p q = Keeps-hello 6 n j out e q
  Keeps-loop j (stage1 n) out e p q = Keeps-stage1 7 n j out e q
  Keeps-loop j (stage2 n) out e p q = elim p [ ]
  Keeps-loop j (stage3 n) out e p q = elim p [ ]
  Keeps-loop j Phase.joined out e p q = elim p [ ]
  Keeps-loop j Phase.yielded out e p q = Keeps-yielded j out e q

  pub Keeps-poll : (j : Joiner) → Listens since j → Keeps since (poll j now peers)
  unfolding poll
  Keeps-poll j (e, p) = elim (Bool-cases (is_waiting j.phase)) [
    | inr off ↦ rw (off, poll) (Keeps-loop j j.phase [] e p tt)
    | inl met ↦ elim (Option-cases j.ip) [
      | inl off ↦ rw (met, off, poll) ((e, p), tt)
      | inr (ip, on) ↦
          rw (met, on, poll)
            (Keeps-loop (begun j now peers) (hello 0) (event (claiming j.number) ∷ []) e tt
              (tt, tt))
    ]
  ]
