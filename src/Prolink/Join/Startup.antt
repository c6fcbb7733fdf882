-- ===== src/Prolink/Join/Startup.antt =====
-- The startup sequence of the joiner: twelve packets in a fixed order, then keep-alives.
use player.Common.{
  ℕ, ◌+◌, ◌-◌, ◌≤◌, ◌<◌, ◌≡◌, ◌≢◌, refl, ◌∙◌, ◌⊎◌, inl, inr, false, ltb→lt, List, [], ◌∷◌, ltb,
  if◌then◌else◌, arith, Bool-cases,
}
use player.Prolink.Announce.{
  build_claim_stage1, build_claim_stage2, build_claim_stage3, build_hello,
}
use player.Prolink.Join.Rounds.{
  round_hello, round_hello_done, round_stage1, round_stage1_done, round_stage2, round_stage2_done,
  round_stage3,
}
use player.Prolink.Join.{
  Joiner, Phase, hello, stage1, stage2, stage3, broadcast, JoinAction, send, sends, poll, later,
  step_ns, listen_before_claim_ns, ip_or_unspecified,
}

-- How many packets of the startup sequence have been sent, while it runs.
pub data At : Phase → ℕ → Type 0 where
  hellos : {n : ℕ} → n ≤ 3 → At (hello n) n
  claims1 : {n i : ℕ} → n ≤ 3 → i ≡ n + 3 → At (stage1 n) i
  claims2 : {n i : ℕ} → n ≤ 3 → i ≡ n + 6 → At (stage2 n) i
  claims3 : {n i : ℕ} → n ≤ 3 → i ≡ n + 9 → At (stage3 n) i

-- The packet that is sent as number `i` of the sequence, counted from 0.
unfoldable pub script : Joiner → ℕ → List ℕ
script j i =
    if ltb i 3
    then build_hello j.name
    else if ltb i 6
    then build_claim_stage1 j.name j.mac (i - 2)
    else if ltb i 9
    then build_claim_stage2 j.name (ip_or_unspecified j.ip) j.mac j.number (i - 5) false
    else build_claim_stage3 j.name j.number (i - 8)

-- The phase after packet number `i`.
unfoldable pub phase_after : ℕ → Phase
phase_after i =
    if ltb i 3
    then hello (i + 1)
    else if ltb i 6
    then stage1 (i - 2)
    else if ltb i 9
    then stage2 (i - 5)
    else stage3 (i - 8)

abbrev pub Sent : Joiner → ℕ → ℕ → Joiner × List JoinAction
Sent j i now = (
  record j { phase = phase_after i; next_at = later now step_ns },
  send (broadcast (script j i)) ∷ [],
)

-- The sequence, stage by stage.
abbrev Next : Joiner → ℕ → List ℕ → Phase → Type 0
Next j i packet phase = (packet ≡ script j i) × (phase ≡ phase_after i)

hello-Next : (j : Joiner) (i : ℕ) → i < 3 → Next j i (build_hello j.name) (hello (i + 1))
unfolding script phase_after
hello-Next j i h = (ground arith, ground arith)

stage1-Next :
    (j : Joiner) (i n : ℕ)
    → n < 3
    → i ≡ n + 3
    → Next j i (build_claim_stage1 j.name j.mac (n + 1)) (stage1 (n + 1))
unfolding script phase_after
stage1-Next j i n h e = let c : i - 2 ≡ n + 1 = omega arith in (ground arith, ground arith)

stage2-Next :
    (j : Joiner) (i n : ℕ)
    → n < 3
    → i ≡ n + 6
    → Next j i
        (build_claim_stage2 j.name (ip_or_unspecified j.ip) j.mac j.number (n + 1) false)
        (stage2 (n + 1))
unfolding script phase_after
stage2-Next j i n h e = let c : i - 5 ≡ n + 1 = omega arith in (ground arith, ground arith)

stage3-Next :
    (j : Joiner) (i n : ℕ)
    → n < 3
    → i ≡ n + 9
    → Next j i (build_claim_stage3 j.name j.number (n + 1)) (stage3 (n + 1))
unfolding script phase_after
stage3-Next j i n h e = let c : i - 8 ≡ n + 1 = omega arith in (ground arith, ground arith)

sent :
    (j : Joiner) (i now : ℕ) (packet : List ℕ) (phase : Phase)
    → Next j i packet phase
    → sends j [] packet phase (later now step_ns) ≡ Sent j i now
sent j i now packet phase (p, q) =
    λ t. (record j { phase = q t; next_at = later now step_ns }, send (broadcast (p t)) ∷ [])

-- A poll that is due, of a joiner that has sent `i` of the twelve packets, sends exactly packet `i`
-- and waits 300 ms; for packet 6, the first with our number, the listening time is over.
pub poll-script :
    (j : Joiner) (i now peers : ℕ)
    → At j.phase i
    → i < 12
    → j.next_at ≤ now
    → (i ≢ 6) ⊎ (later j.listen_since listen_before_claim_ns ≤ now)
    → poll j now peers ≡ Sent j i now
unfolding poll
poll-script j i now peers at below due listened = go at
  where
    late : ltb now j.next_at ≡ false
    late = ground arith

    go : {ph : Phase} → At ph i → poll (record j { phase = ph }) now peers ≡ Sent j i now
    go (hellos {n = n} h) = elim (Bool-cases (ltb n 3)) [
      | inl more ↦
          round_hello 7 j now peers [] n late more
          ∙ sent j i now _ _ (hello-Next j i (ltb→lt _ _ more))
      | inr done ↦
          round_hello_done 7 j now peers [] n late done
          ∙ round_stage1 6 j now peers [] 0 late refl
          ∙ sent j i now _ _ (stage1-Next j i 0 (omega arith) (ground arith))
    ]
    go (claims1 {n = n} h e) = elim (Bool-cases (ltb n 3)) [
      | inl more ↦
          round_stage1 7 j now peers [] n late more
          ∙ sent j i now _ _ (stage1-Next j i n (ltb→lt _ _ more) e)
      | inr done ↦
          round_stage1_done 7 j now peers [] n late done (ground arith)
          ∙ round_stage2 6 j now peers [] 0 late refl
          ∙ sent j i now _ _ (stage2-Next j i 0 (omega arith) (ground arith))
    ]
    go (claims2 {n = n} h e) = elim (Bool-cases (ltb n 3)) [
      | inl more ↦
          round_stage2 7 j now peers [] n late more
          ∙ sent j i now _ _ (stage2-Next j i n (ltb→lt _ _ more) e)
      | inr done ↦
          round_stage2_done 7 j now peers [] n late done
          ∙ round_stage3 6 j now peers [] 0 late refl
          ∙ sent j i now _ _ (stage3-Next j i 0 (omega arith) (ground arith))
    ]
    go (claims3 {n = n} h e) =
        round_stage3 7 j now peers [] n late (ground arith)
        ∙ sent j i now _ _ (stage3-Next j i n (omega arith) e)
