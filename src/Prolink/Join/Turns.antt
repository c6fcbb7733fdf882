-- ===== src/Prolink/Join/Turns.antt =====
-- One due poll of a joiner that has sent a given number of the startup packets.
use mathlib.Core.Path.{subst}
use player.Common.{
  ℕ, zero, suc, ◌≤◌, ◌<◌, ◌≡◌, ◌≢◌, refl, ◌∙◌, ◌⊎◌, inl, inr, [], ◌∷◌, ltb, arith, Bool-cases,
}
use player.Prolink.Join.{
  Joiner, Phase, hello, broadcast, send, event, JoinEvent, poll, later, step_ns, keep_alive_ns,
  listen_before_claim_ns, keep_alive,
}
use player.Prolink.Join.Rounds.{round_stage1_waits, round_stage3_done, round_joined}
use player.Prolink.Join.Startup.{
  At, hellos, claims1, claims2, claims3, script, phase_after, poll-script,
}

-- The phase of a joiner that has sent `i` packets.
unfoldable pub phase_at : ℕ → Phase
unfolding phase_after
phase_at zero = hello 0
phase_at (suc i) = phase_after i

abbrev pub at : Joiner → ℕ → Joiner
at j i = record j { phase = phase_at i }

abbrev pub listened_at : Joiner → ℕ
listened_at j = later j.listen_since listen_before_claim_ns

pub phase_at-At : (i : ℕ) → i < 13 → At (phase_at i) i
unfolding phase_at phase_after
phase_at-At zero h = hellos (omega arith)
phase_at-At (suc i) h = elim (Bool-cases (ltb i 3)) [
  | inl a ↦ rw a (subst (λ n. At (hello n) (suc i)) (omega arith) (hellos (ground arith)))
  | inr a ↦ elim (Bool-cases (ltb i 6)) [
    | inl b ↦ rw (a, b) (claims1 (ground arith) (ground arith))
    | inr b ↦ elim (Bool-cases (ltb i 9)) [
      | inl c ↦ rw (a, b, c) (claims2 (ground arith) (ground arith))
      | inr c ↦ rw (a, b, c) (claims3 (ground arith) (ground arith))
    ]
  ]
]

pub poll-last :
    (j : Joiner) (i now peers : ℕ)
    → i ≡ 12
    → j.next_at ≤ now
    → poll (at j i) now peers ≡ (
      record j { phase = Phase.joined; next_at = later now keep_alive_ns },
      event (JoinEvent.joined j.number) ∷ send (broadcast (keep_alive j peers)) ∷ [],
    )
unfolding poll phase_at phase_after keep_alive
poll-last j i now peers e due = rw e (
    round_stage3_done 7 j now peers [] 3 (ground arith) refl
    ∙ round_joined 6 j now peers (event (JoinEvent.joined j.number) ∷ []) (ground arith))

pub poll-waits :
    (j : Joiner) (i now peers : ℕ)
    → i ≡ 6
    → j.next_at ≤ now
    → now < listened_at j
    → poll (at j i) now peers ≡ (at (record j { next_at = listened_at j }) i, [])
unfolding poll phase_at phase_after
poll-waits j i now peers e due early =
    rw e (round_stage1_waits 7 j now peers [] 3 (ground arith) refl (ground arith))

pub poll-sends :
    (j : Joiner) (i now peers : ℕ)
    → i < 12
    → j.next_at ≤ now
    → (i ≢ 6) ⊎ (listened_at j ≤ now)
    → poll (at j i) now peers
      ≡ (at (record j { next_at = later now step_ns }) (suc i), send (broadcast (script j i)) ∷ [])
unfolding phase_at script
poll-sends j i now peers below due listened =
    poll-script (at j i) i now peers (phase_at-At i (omega arith)) below due listened
