-- ===== src/Prolink/Join/Rounds.antt =====
-- One round of the loop of `Joiner::poll`, phase by phase, once it is due.
use player.Common.{ℕ, suc, ◌+◌, ◌≡◌, refl, true, false, List, [], ◌∷◌, ◌++◌, ltb}
use player.Prolink.Announce.{
  build_claim_stage1, build_claim_stage2, build_claim_stage3, build_hello,
}
use player.Prolink.Join.{
  Joiner, Phase, hello, stage1, stage2, stage3, JoinAction, event, JoinEvent, sends, poll_loop,
  later, step_ns, keep_alive_ns, listen_before_claim_ns, ip_or_unspecified, keep_alive,
}

module _ (r : ℕ) (j : Joiner) (now peers : ℕ) (out : List JoinAction) (n : ℕ)
    (due : ltb now j.next_at ≡ false) where
  pub round_hello :
      ltb n 3 ≡ true
      → poll_loop (suc r) (record j { phase = hello n }) now peers out
        ≡ sends j out (build_hello j.name) (hello (n + 1)) (later now step_ns)
  unfolding poll_loop
  round_hello e = rw (due, poll_loop) (rw (e, poll_loop) refl)

  pub round_hello_done :
      ltb n 3 ≡ false
      → poll_loop (suc r) (record j { phase = hello n }) now peers out
        ≡ poll_loop r (record j { phase = stage1 0 }) now peers out
  unfolding poll_loop
  round_hello_done e = rw (due, poll_loop) (rw (e, poll_loop) refl)

  pub round_stage1 :
      ltb n 3 ≡ true
      → poll_loop (suc r) (record j { phase = stage1 n }) now peers out
        ≡ sends j out (build_claim_stage1 j.name j.mac (n + 1)) (stage1 (n + 1)) (later now step_ns)
  unfolding poll_loop
  round_stage1 e = rw (due, poll_loop) (rw (e, poll_loop) refl)

  pub round_stage1_done :
      ltb n 3 ≡ false
      → ltb now (later j.listen_since listen_before_claim_ns) ≡ false
      → poll_loop (suc r) (record j { phase = stage1 n }) now peers out
        ≡ poll_loop r (record j { phase = stage2 0 }) now peers out
  unfolding poll_loop
  round_stage1_done e l = rw (due, poll_loop) (rw (e, poll_loop) (rw (l, poll_loop) refl))

  pub round_stage1_waits :
      ltb n 3 ≡ false
      → ltb now (later j.listen_since listen_before_claim_ns) ≡ true
      → poll_loop (suc r) (record j { phase = stage1 n }) now peers out ≡ (
        record j { phase = stage1 n; next_at = later j.listen_since listen_before_claim_ns },
        out,
      )
  unfolding poll_loop
  round_stage1_waits e l = rw (due, poll_loop) (rw (e, poll_loop) (rw (l, poll_loop) refl))

  pub round_stage2 :
      ltb n 3 ≡ true
      → poll_loop (suc r) (record j { phase = stage2 n }) now peers out
        ≡ sends j out
            (build_claim_stage2 j.name (ip_or_unspecified j.ip) j.mac j.number (n + 1) false)
            (stage2 (n + 1))
            (later now step_ns)
  unfolding poll_loop
  round_stage2 e = rw (due, poll_loop) (rw (e, poll_loop) refl)

  pub round_stage2_done :
      ltb n 3 ≡ false
      → poll_loop (suc r) (record j { phase = stage2 n }) now peers out
        ≡ poll_loop r (record j { phase = stage3 0 }) now peers out
  unfolding poll_loop
  round_stage2_done e = rw (due, poll_loop) (rw (e, poll_loop) refl)

  pub round_stage3 :
      ltb n 3 ≡ true
      → poll_loop (suc r) (record j { phase = stage3 n }) now peers out
        ≡ sends j out
            (build_claim_stage3 j.name j.number (n + 1))
            (stage3 (n + 1))
            (later now step_ns)
  unfolding poll_loop
  round_stage3 e = rw (due, poll_loop) (rw (e, poll_loop) refl)

  pub round_stage3_done :
      ltb n 3 ≡ false
      → poll_loop (suc r) (record j { phase = stage3 n }) now peers out
        ≡ poll_loop r
            (record j { phase = Phase.joined })
            now
            peers
            (out ++ event (JoinEvent.joined j.number) ∷ [])
  unfolding poll_loop
  round_stage3_done e = rw (due, poll_loop) (rw (e, poll_loop) refl)

pub round_joined :
    (r : ℕ) (j : Joiner) (now peers : ℕ) (out : List JoinAction)
    → ltb now j.next_at ≡ false
    → poll_loop (suc r) (record j { phase = Phase.joined }) now peers out
      ≡ sends j out
          (keep_alive (record j { phase = Phase.joined }) peers)
          Phase.joined
          (later now keep_alive_ns)
unfolding poll_loop
round_joined r j now peers out due = rw (due, poll_loop) refl

-- A round that is not due yet ends the loop.
pub round_idle :
    (r : ℕ) (j : Joiner) (now peers : ℕ) (out : List JoinAction)
    → ltb now j.next_at ≡ true
    → poll_loop (suc r) j now peers out ≡ (j, out)
unfolding poll_loop
round_idle r j now peers out early = rw (early, poll_loop) refl
