-- ===== src/Sequencer/Scheduler/Emit.antt =====
-- The events of one step: what the loop over the voices in `Scheduler::schedule` pushes.
use mathlib.Core.List.{append_assoc, append-nil}
use mathlib.Core.Path.{subst}
use mathlib.Core.Option
use player.Common.{
  ℕ, ◌+◌, ◌-◌, ◌*◌, ◌^◌, ◌≤◌, ◌<◌, ◌≡◌, refl, sym, ap, ◌∙◌, Bool, true, false, Option, none, some,
  List, [], ◌∷◌, ◌++◌, if◌then◌else◌, arith, length, length-append, get_or,
}
use player.Common.Floats.{Floats}
use player.Sequencer.Pattern.{VoiceId, off, Pattern, velocity, flam_grace_ratio}
use player.Sequencer.Event.{Event, trigger}
use player.Sequencer.Queue.{Shared}
use player.Sequencer.Queue.Refinement.{Refines, push_room, capacity_lem}
use player.Sequencer.Scheduler.{send, emit_voice, emit}

module _ (fl : Floats) where
  open fl use {F32, mul32}

  -- The events that one voice has at a step, the grace note first.
  unfoldable pub voice_events : Pattern fl → ℕ → ℕ → ℕ → VoiceId → List (Event F32)
  voice_events p index sample flam voice =
      let track = p.tracks voice in
      let step = get_or track.steps index off in
      let hit : Event F32 = record { sample = sample; kind = trigger voice (velocity fl p step) } in
      let grace : Event F32 = record {
        sample = sample - flam;
        kind = trigger voice (mul32 (velocity fl p step) (flam_grace_ratio fl));
      } in
      if track.mute
      then []
      else if step.on
      then if step.flam then grace ∷ hit ∷ [] else hit ∷ []
      else []

  unfoldable pub events : Pattern fl → ℕ → ℕ → ℕ → List VoiceId → List (Event F32)
  events p index sample flam [] = []
  events p index sample flam (voice ∷ rest) =
      voice_events p index sample flam voice ++ events p index sample flam rest

  length-voice_events :
      (p : Pattern fl) (index sample flam : ℕ) (voice : VoiceId)
      → length (voice_events p index sample flam voice) ≤ 2
  unfolding voice_events
  length-voice_events p index sample flam voice = ground arith

  pub length-events :
      (p : Pattern fl) (index sample flam : ℕ) (vs : List VoiceId)
      → length (events p index sample flam vs) ≤ 2 * length vs
  unfolding events
  length-events p index sample flam [] = omega arith
  length-events p index sample flam (v ∷ vs) = omega (
    arith,
    length-append (voice_events p index sample flam v) (events p index sample flam vs),
    length-voice_events p index sample flam v,
    length-events p index sample flam vs,
  )

  module _ (w k : ℕ) where
    -- With room in the ring an event that is sent stands last in it.
    send_room :
        (out : Shared (Event F32)) (xs : List (Event F32)) (e : Event F32)
        → Refines w k out xs
        → length xs < 2 ^ k
        → (out' : Shared (Event F32)) × (send fl w out e ≡ some out')
          × Refines w k out' (xs ++ e ∷ [])
    unfolding send
    send_room out xs e v room =
        let (out', sent, v') =
          push_room w k out xs v e (omega (arith, capacity_lem w k out xs v)) in
        (out', rw sent refl, v')

    -- The reply `r` has put `es` behind `xs` in the ring and counted them.
    abbrev pub Sends :
        List (Event F32) → ℕ → List (Event F32) → Option (Shared (Event F32) × ℕ) → Type 0
    Sends xs pushed es r =
        (out' : Shared (Event F32)) × (r ≡ some (out', pushed + length es))
        × Refines w k out' (xs ++ es)

    module _ (hit grace : Event F32) (out : Shared (Event F32)) (xs : List (Event F32)) (pushed : ℕ)
        (v : Refines w k out xs) (room : length xs + 2 ≤ 2 ^ k) where
      send_none : Sends xs pushed [] (some (out, pushed))
      send_none = (
        out,
        ap (λ n. some (out, n)) (omega arith),
        subst (Refines w k out) (sym (append-nil xs)) v,
      )

      send-hit :
          Sends xs pushed (hit ∷ []) (Option.map (λ out'. (out', pushed + 1)) (send fl w out hit))
      send-hit =
          let (out', e, v') = send_room out xs hit v (omega arith) in
          (out', rw e (ap (λ n. some (out', n)) (omega arith)), v')

      send_flam : Sends xs pushed (grace ∷ hit ∷ []) (elim (send fl w out grace) [
        | none ↦ none
        | some out' ↦ Option.map (λ out''. (out'', pushed + 1 + 1)) (send fl w out' hit)
      ])
      send_flam =
          let (a, e, va) = send_room out xs grace v (omega arith) in
          let (b, f, vb) =
            send_room a (xs ++ grace ∷ []) hit va (omega (arith, length-append xs (grace ∷ []))) in
          (
            b,
            rw e (rw f (ap (λ n. some (b, n)) (omega arith))),
            subst (Refines w k b) (append_assoc xs (grace ∷ []) (hit ∷ [])) vb,
          )

    -- The branches of one round, as the code takes them.
    choose-Sends :
        (mute on flam : Bool) (hit grace : Event F32) (out : Shared (Event F32))
        (xs : List (Event F32)) (pushed : ℕ)
        → Refines w k out xs
        → length xs + 2 ≤ 2 ^ k
        → Sends xs pushed
            (if mute then [] else if on then if flam then grace ∷ hit ∷ [] else hit ∷ [] else [])
            (if mute
              then some (out, pushed)
              else if on
              then if flam
                then elim (send fl w out grace) [
                  | none ↦ none
                  | some out' ↦ Option.map (λ out''. (out'', pushed + 1 + 1)) (send fl w out' hit)
                ]
                else Option.map (λ out'. (out', pushed + 1)) (send fl w out hit)
              else some (out, pushed))
    choose-Sends true on flam hit grace out xs pushed v room =
        send_none hit grace out xs pushed v room
    choose-Sends false false flam hit grace out xs pushed v room =
        send_none hit grace out xs pushed v room
    choose-Sends false true false hit grace out xs pushed v room =
        send-hit hit grace out xs pushed v room
    choose-Sends false true true hit grace out xs pushed v room =
        send_flam hit grace out xs pushed v room

    emit_voice_room :
        (p : Pattern fl) (index sample flam : ℕ) (voice : VoiceId) (out : Shared (Event F32))
        (xs : List (Event F32)) (pushed : ℕ)
        → Refines w k out xs
        → length xs + 2 ≤ 2 ^ k
        → Sends xs pushed
            (voice_events p index sample flam voice)
            (emit_voice fl w p index sample flam voice out pushed)
    unfolding emit_voice voice_events
    emit_voice_room p index sample flam voice out xs pushed v room =
        choose-Sends (p.tracks voice).mute (get_or (p.tracks voice).steps index off).on
          (get_or (p.tracks voice).steps index off).flam _ _ out xs pushed v room

    -- With room for two events a voice, the loop pushes exactly the events of the step.
    pub emit_room :
        (p : Pattern fl) (index sample flam : ℕ) (vs : List VoiceId) (out : Shared (Event F32))
        (xs : List (Event F32)) (pushed : ℕ)
        → Refines w k out xs
        → length xs + 2 * length vs ≤ 2 ^ k
        → Sends xs pushed
            (events p index sample flam vs)
            (emit fl w p index sample flam vs out pushed)
    unfolding emit events
    emit_room p index sample flam [] out xs pushed v room = (
      out,
      ap (λ n. some (out, n)) (omega arith),
      subst (Refines w k out) (sym (append-nil xs)) v,
    )
    emit_room p index sample flam (voice ∷ vs) out xs pushed v room =
        let es = voice_events p index sample flam voice in
        let (a, e, va) = emit_voice_room p index sample flam voice out xs pushed v (omega arith) in
        let (b, f, vb) =
          emit_room p index sample flam vs a (xs ++ es) (pushed + length es) va
            (omega (arith, length-append xs es, length-voice_events p index sample flam voice)) in
        (
          b,
          rw (e, emit)
              (f
                ∙ ap (λ n. some (b, n))
                    (omega (arith, length-append es (events p index sample flam vs)))),
          subst (Refines w k b) (append_assoc xs es (events p index sample flam vs)) vb,
        )
