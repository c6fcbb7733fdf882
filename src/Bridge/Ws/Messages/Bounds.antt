-- ===== src/Bridge/Ws/Messages/Bounds.antt =====
-- The messages of the assembler stay within the largest one.
use player.Common.{
  ℕ, ◌+◌, ◌≤◌, ◌≡◌, inl, inr, Bool, true, false, Bool-cases, Option, none, some, List, [], ◌∷◌,
  ◌++◌, ltb, if◌then◌else◌, length, arith, length-append,
}
use player.Common.Utf8.{is_utf8}
use player.Bridge.Ws.{max_message, continuation, binary, pong, Opcode, Frame, Result, ok, refused}
use player.Bridge.Ws.Messages.{
  Event, text, nothing, Assembler, close_event, finish, push_text, push_continuation, push_opcode,
  push,
}

-- A message under way, and one that is given out, fit in the largest message.
abbrev pub Fits : Option (List ℕ) → Type 0
Fits none = Unit {0}
Fits (some buf) = length buf ≤ max_message

abbrev pub EventFits : Result Event → Type 0
EventFits (ok (text bytes)) = (length bytes ≤ max_message) × (is_utf8 bytes ≡ true)
EventFits _ = Unit {0}

finish-EventFits : (bytes : List ℕ) → length bytes ≤ max_message → EventFits (finish bytes)
unfolding finish refused
finish-EventFits bytes h = elim (Bool-cases (is_utf8 bytes)) [
  | inl e ↦ rw e (h, e)
  | inr e ↦ rw e tt
]

close_event-EventFits : (payload : List ℕ) → EventFits (close_event payload)
unfolding close_event refused
close_event-EventFits [] = tt
close_event-EventFits (b ∷ []) = tt
close_event-EventFits (h ∷ l ∷ rest) = ground arith

push_text-Fits :
    (partial : Option (List ℕ)) (fin : Bool) (payload : List ℕ)
    → Fits partial
    → length payload ≤ max_message
    → EventFits (push_text partial fin payload).0 × Fits (push_text partial fin payload).1.partial
unfolding push_text refused
push_text-Fits (some before) fin payload h short = (tt, h)
push_text-Fits none true payload h short = (finish-EventFits payload short, tt)
push_text-Fits none false payload h short = (tt, short)

push_continuation-Fits :
    (partial : Option (List ℕ)) (fin : Bool) (payload : List ℕ)
    → EventFits (push_continuation partial fin payload).0
      × Fits (push_continuation partial fin payload).1.partial
unfolding push_continuation refused
push_continuation-Fits none fin payload = (tt, tt)
push_continuation-Fits (some buf) fin payload =
    elim (Bool-cases (ltb max_message (length buf + length payload))) [
      | inl e ↦ rw e (tt, tt)
      | inr e ↦ rw e (kept fin (ground (arith, length-append buf payload)))
    ]
  where
    kept :
        (fin : Bool)
        → length (buf ++ payload) ≤ max_message
        → let out : Result Event × Assembler =
            if fin
            then (finish (buf ++ payload), record { partial = none })
            else (ok nothing, record { partial = some (buf ++ payload) }) in
          EventFits out.0 × Fits out.1.partial
    kept true h = (finish-EventFits (buf ++ payload) h, tt)
    kept false h = (tt, h)

-- Whatever frames come, none of them over the largest message, the message under way and the ones
-- given out stay within it, and what is given out is UTF-8.
pub push-Fits :
    (self : Assembler) (frame : Frame)
    → Fits self.partial
    → length frame.payload ≤ max_message
    → EventFits (push self frame).0 × Fits (push self frame).1.partial
unfolding push push_opcode refused
push-Fits self frame h short = by_opcode frame.opcode
  where
    by_opcode :
        (opcode : Opcode)
        → EventFits (push_opcode opcode self frame.fin frame.payload).0
          × Fits (push_opcode opcode self frame.fin frame.payload).1.partial
    by_opcode Opcode.ping = (tt, h)
    by_opcode pong = (tt, h)
    by_opcode Opcode.close = (close_event-EventFits frame.payload, h)
    by_opcode binary = (tt, h)
    by_opcode Opcode.text = push_text-Fits self.partial frame.fin frame.payload h short
    by_opcode continuation = push_continuation-Fits self.partial frame.fin frame.payload
