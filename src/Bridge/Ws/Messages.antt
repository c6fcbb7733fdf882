-- ===== src/Bridge/Ws/Messages.antt =====
-- apps/bridge/src/ws.rs: `Assembler`, which puts fragments together and enforces the rules of
-- messages.
pub mod Bounds
pub mod Reassembly
use player.Common.{
  ℕ, ◌+◌, Bool, true, false, not, ◌&&◌, ◌||◌, Option, none, some, List, [], ◌∷◌, ◌++◌, ltb, leb,
  if◌then◌else◌, length,
}
use player.Common.Text.{codes}
use player.Common.Utf8.{is_utf8}
use player.Bridge.Ws.{
  max_message, continuation, binary, pong, Opcode, Frame, Result, err, ok, refused, be16,
}

pub data Event : Type 0 where
  text : List ℕ → Event
  ping : List ℕ → Event
  close : ℕ → Event
  nothing : Event

pub record Assembler : Type 0 where
  pub partial : Option (List ℕ)

abbrev pub fresh : Assembler
fresh = record { partial = none }

-- `matches!(c, 1000..=1003 | 1007..=1011 | 3000..=4999)`.
abbrev pub is_valid_code : ℕ → Bool
is_valid_code c =
    (leb 1000 c && leb c 1003) || (leb 1007 c && leb c 1011) || (leb 3000 c && leb c 4999)

unfoldable pub close_event : List ℕ → Result Event
unfolding refused
close_event [] = ok (close 1000)
close_event (b ∷ []) = refused 1002 (codes "bad close payload")
close_event (h ∷ l ∷ rest) =
    if not (is_utf8 rest)
    then refused 1007 (codes "close reason is not UTF-8")
    else if not (is_valid_code (be16 h l))
    then refused 1002 (codes "invalid close code")
    else ok (close (be16 h l))

unfoldable pub finish : List ℕ → Result Event
unfolding refused
finish bytes = if is_utf8 bytes then ok (text bytes) else refused 1007 (codes "text is not UTF-8")

unfoldable pub push_text : Option (List ℕ) → Bool → List ℕ → Result Event × Assembler
unfolding refused finish
push_text (some before) fin payload =
    (refused 1002 (codes "new message before the previous ended"), record { partial = some before })
push_text none fin payload =
    if fin
    then (finish payload, record { partial = none })
    else (ok nothing, record { partial = some payload })

unfoldable pub push_continuation : Option (List ℕ) → Bool → List ℕ → Result Event × Assembler
unfolding refused finish
push_continuation none fin payload =
    (refused 1002 (codes "continuation without a message"), record { partial = none })
push_continuation (some buf) fin payload =
    if ltb max_message (length buf + length payload)
    then (refused 1009 (codes "message too big"), record { partial = none })
    else if fin
    then (finish (buf ++ payload), record { partial = none })
    else (ok nothing, record { partial = some (buf ++ payload) })

-- `push`, given the opcode of the frame.
unfoldable pub push_opcode : Opcode → Assembler → Bool → List ℕ → Result Event × Assembler
unfolding refused close_event push_text push_continuation
push_opcode Opcode.ping self fin payload = (ok (ping payload), self)
push_opcode pong self fin payload = (ok nothing, self)
push_opcode Opcode.close self fin payload = (close_event payload, self)
push_opcode binary self fin payload =
    (refused 1003 (codes "binary messages are not supported"), self)
push_opcode Opcode.text self fin payload = push_text self.partial fin payload
push_opcode continuation self fin payload = push_continuation self.partial fin payload

unfoldable pub push : Assembler → Frame → Result Event × Assembler
unfolding push_opcode
push self frame = push_opcode frame.opcode self frame.fin frame.payload
