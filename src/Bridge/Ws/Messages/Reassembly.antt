-- ===== src/Bridge/Ws/Messages/Reassembly.antt =====
-- What comes out of the assembler over a sequence of frames.
use mathlib.Core.List.{append_assoc}
use player.Common.{
  ℕ, ◌+◌, ◌≤◌, ◌<◌, ◌≡◌, refl, sym, ap, ◌∙◌, inl, inr, Bool, true, false, map, Bool-cases, none,
  some, List, [], ◌∷◌, ◌++◌, ltb, length, arith, length-append,
}
use player.Common.Text.{codes}
use player.Common.Utf8.{is_utf8}
use player.Bridge.Ws.{
  max_message, continuation, pong, Opcode, Frame, ProtocolError, Result, err, ok, refused,
}
use player.Bridge.Ws.Messages.{
  Event, text, ping, nothing, Assembler, fresh, finish, push_text, push_continuation, push_opcode,
  push,
}

-- An event in front of the rest.
abbrev pub behind : Event → Result (List Event) → Result (List Event)
behind event (err problem) = err problem
behind event (ok events) = ok (event ∷ events)

-- Feeding frames in order; a violation ends the connection.
unfoldable pub feed : Assembler → List Frame → Result (List Event)
unfolding push
feed self [] = ok []
feed self (frame ∷ frames) = elim (push self frame).0 [
  | err problem ↦ err problem
  | ok event ↦ behind event (feed (push self frame).1 frames)
]

-- What may come between the first and the last fragment of a message.
pub data Between : Type 0 where
  fragment : List ℕ → Between
  pinged : List ℕ → Between
  ponged : List ℕ → Between

abbrev pub frame_of : Between → Frame
frame_of (fragment payload) = record { fin = false; opcode = continuation; payload = payload }
frame_of (pinged payload) = record { fin = true; opcode = Opcode.ping; payload = payload }
frame_of (ponged payload) = record { fin = true; opcode = pong; payload = payload }

abbrev pub reply : Between → Event
reply (pinged payload) = ping payload
reply _ = nothing

-- The bytes of the message in what comes between.
abbrev pub joined : List Between → List ℕ
joined [] = []
joined (fragment payload ∷ rest) = payload ++ joined rest
joined (_ ∷ rest) = joined rest

abbrev pub last_fragment : List ℕ → Frame
last_fragment payload = record { fin = true; opcode = continuation; payload = payload }

push_continuation-last :
    (buf payload : List ℕ)
    → length buf + length payload ≤ max_message
    → is_utf8 (buf ++ payload) ≡ true
    → push_continuation (some buf) true payload
      ≡ (ok (text (buf ++ payload)), record { partial = none })
unfolding push_continuation finish
push_continuation-last buf payload h utf8 =
    let small : ltb max_message (length buf + length payload) ≡ false = ground arith in
    rw (small, utf8) refl

push_continuation-more :
    (buf more : List ℕ)
    → length buf + length more ≤ max_message
    → push_continuation (some buf) false more
      ≡ (ok nothing, record { partial = some (buf ++ more) })
unfolding push_continuation
push_continuation-more buf more h =
    let small : ltb max_message (length buf + length more) ≡ false = ground arith in rw small refl

push_continuation-over :
    (buf more : List ℕ) (fin : Bool)
    → max_message < length buf + length more
    → push_continuation (some buf) fin more
      ≡ (refused 1009 (codes "message too big"), record { partial = none })
unfolding push_continuation
push_continuation-over buf more fin h =
    let over : ltb max_message (length buf + length more) ≡ true = ground arith in rw over refl

feed-push :
    (self next : Assembler) (frame : Frame) (frames : List Frame) (event : Event)
    (rest : Result (List Event))
    → push self frame ≡ (ok event, next)
    → feed next frames ≡ rest
    → feed self (frame ∷ frames) ≡ behind event rest
unfolding feed
feed-push self next frame frames event rest e later = rw (feed, e, e) (ap (behind event) later)

feed-push_err :
    (self next : Assembler) (frame : Frame) (frames : List Frame) (problem : ProtocolError)
    → push self frame ≡ (err problem, next)
    → feed self (frame ∷ frames) ≡ err problem
unfolding feed
feed-push_err self next frame frames problem e = rw (feed, e) refl

feed-between :
    (buf payload : List ℕ) (between : List Between)
    → length buf + (length (joined between) + length payload) ≤ max_message
    → is_utf8 (buf ++ (joined between ++ payload)) ≡ true
    → feed (record { partial = some buf }) (map frame_of between ++ last_fragment payload ∷ [])
      ≡ ok (map reply between ++ text (buf ++ (joined between ++ payload)) ∷ [])
unfolding push push_opcode feed
feed-between buf payload [] h utf8 =
    feed-push (record { partial = some buf }) _ (last_fragment payload) [] _ _
      (push_continuation-last buf payload (omega arith) utf8) refl
feed-between buf payload (fragment more ∷ between) h utf8 =
    let total = length-append more (joined between) in
    let here : (buf ++ more) ++ (joined between ++ payload)
        ≡ buf ++ ((more ++ joined between) ++ payload) =
      append_assoc buf more (joined between ++ payload)
      ∙ ap (◌++◌ buf) (sym (append_assoc more (joined between) payload)) in
    let later =
      feed-between (buf ++ more) payload between (omega (arith, total, length-append buf more))
        (ap is_utf8 here ∙ utf8) in
    feed-push (record { partial = some buf }) _ (frame_of (fragment more))
      (map frame_of between ++ last_fragment payload ∷ []) _ _
      (push_continuation-more buf more (omega (arith, total))) later
    ∙ ap (λ t. ok (nothing ∷ (map reply between ++ text t ∷ []))) here
feed-between buf payload (pinged more ∷ between) h utf8 =
    feed-push (record { partial = some buf }) (record { partial = some buf })
      (frame_of (pinged more)) (map frame_of between ++ last_fragment payload ∷ []) _ _ refl
      (feed-between buf payload between h utf8)
feed-between buf payload (ponged more ∷ between) h utf8 =
    feed-push (record { partial = some buf }) (record { partial = some buf })
      (frame_of (ponged more)) (map frame_of between ++ last_fragment payload ∷ []) _ _ refl
      (feed-between buf payload between h utf8)

feed-over :
    (buf payload : List ℕ) (between : List Between)
    → max_message < length buf + (length (joined between) + length payload)
    → feed (record { partial = some buf }) (map frame_of between ++ last_fragment payload ∷ [])
      ≡ refused 1009 (codes "message too big")
unfolding push push_opcode refused
feed-over buf payload [] h =
    feed-push_err (record { partial = some buf }) _ (last_fragment payload) [] _
      (push_continuation-over buf payload true (omega arith))
feed-over buf payload (fragment more ∷ between) h =
    let total = length-append more (joined between) in
    elim (Bool-cases (ltb max_message (length buf + length more))) [
      | inl e ↦
          feed-push_err (record { partial = some buf }) _ (frame_of (fragment more))
            (map frame_of between ++ last_fragment payload ∷ []) _
            (push_continuation-over buf more false (ground arith))
      | inr e ↦
          feed-push (record { partial = some buf }) _ (frame_of (fragment more))
            (map frame_of between ++ last_fragment payload ∷ []) _ _
            (push_continuation-more buf more (ground arith))
            (feed-over (buf ++ more) payload between
              (omega (arith, h, total, length-append buf more)))
    ]
feed-over buf payload (pinged more ∷ between) h =
    feed-push (record { partial = some buf }) (record { partial = some buf })
      (frame_of (pinged more)) (map frame_of between ++ last_fragment payload ∷ []) _ _ refl
      (feed-over buf payload between h)
feed-over buf payload (ponged more ∷ between) h =
    feed-push (record { partial = some buf }) (record { partial = some buf })
      (frame_of (ponged more)) (map frame_of between ++ last_fragment payload ∷ []) _ _ refl
      (feed-over buf payload between h)

-- The frames of a message in fragments, the control frames between them included.
abbrev pub fragmented : List ℕ → List Between → List ℕ → List Frame
fragmented first between payload =
    record { fin = false; opcode = Opcode.text; payload = first }
    ∷ (map frame_of between ++ last_fragment payload ∷ [])

-- A fragmented message is given out whole at its last fragment, as the bytes of its fragments in
-- order, and every ping between them is answered: where it fits and is UTF-8.
pub feed-fragmented :
    (first payload : List ℕ) (between : List Between)
    → length first + (length (joined between) + length payload) ≤ max_message
    → is_utf8 (first ++ (joined between ++ payload)) ≡ true
    → feed fresh (fragmented first between payload)
      ≡ ok (nothing ∷ (map reply between ++ text (first ++ (joined between ++ payload)) ∷ []))
unfolding push push_opcode push_text
feed-fragmented first payload between h utf8 =
    feed-push fresh (record { partial = some first })
      (record { fin = false; opcode = Opcode.text; payload = first })
      (map frame_of between ++ last_fragment payload ∷ []) _ _ refl
      (feed-between first payload between h utf8)

-- A fragmented message that is too long in all ends the connection with 1009, however its bytes are
-- spread over the fragments.
pub feed-fragmented_over :
    (first payload : List ℕ) (between : List Between)
    → max_message < length first + (length (joined between) + length payload)
    → feed fresh (fragmented first between payload) ≡ refused 1009 (codes "message too big")
unfolding push push_opcode push_text refused
feed-fragmented_over first payload between h =
    feed-push fresh (record { partial = some first })
      (record { fin = false; opcode = Opcode.text; payload = first })
      (map frame_of between ++ last_fragment payload ∷ []) _ _ refl
      (feed-over first payload between h)
