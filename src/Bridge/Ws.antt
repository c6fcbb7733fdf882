-- ===== src/Bridge/Ws.antt =====
-- apps/bridge/src/ws.rs: WebSocket frames over a growing buffer, and the reassembly of messages.
-- Bytes are numbers and texts lists of bytes; the functions that take `buf` by `&mut` return the new
-- buffer beside their result. The bits that `|` sets in a first byte stay `bit_or`.
pub mod Stream
pub mod Progress
pub mod RoundTrip
pub mod Messages
pub mod Connection
use player.Common.{
  ℕ, zero, suc, ◌+◌, ◌*◌, ◌/◌, ◌%◌, ◌^◌, min, bit_and, bit_or, bit_xor, Bool, true, false, not,
  ◌&&◌, ◌||◌, Option, none, some, List, [], ◌∷◌, ◌++◌, ltb, leb, ◌==◌, if◌then◌else◌, length,
  get_or, take, drop,
}
use player.Common.Text.{codes}
use player.Common.Utf8.{is_utf8}

abbrev pub max_message : ℕ
max_message = 64 * 1024

pub data Opcode : Type 0 where
  continuation text binary close ping pong : Opcode

unfoldable pub from_bits : ℕ → Option Opcode
from_bits zero = some continuation
from_bits (suc zero) = some Opcode.text
from_bits (suc (suc zero)) = some binary
from_bits bits =
    if bits == 0x8
    then some Opcode.close
    else if bits == 0x9
    then some Opcode.ping
    else if bits == 0xA
    then some pong
    else none

unfoldable pub bits : Opcode → ℕ
bits continuation = 0x0
bits Opcode.text = 0x1
bits binary = 0x2
bits Opcode.close = 0x8
bits Opcode.ping = 0x9
bits pong = 0xA

abbrev pub is_control : Opcode → Bool
is_control Opcode.close = true
is_control Opcode.ping = true
is_control pong = true
is_control _ = false

pub record Frame : Type 0 where
  pub fin : Bool
  pub opcode : Opcode
  pub payload : List ℕ

pub record ProtocolError : Type 0 where
  pub code : ℕ
  pub reason : List ℕ

pub data Result {ℓ} (A : Type ℓ) : Type ℓ where
  err : ProtocolError → Result A
  ok : A → Result A

unfoldable pub refused {ℓ} : {A : Type ℓ} → ℕ → List ℕ → Result A
refused code reason = err (record { code = code; reason = reason })

-- `[x0, …]` from big-endian bytes, and `to_be_bytes`.
abbrev pub be16 : ℕ → ℕ → ℕ
be16 h l = h * 2 ^ 8 + l

abbrev pub be64 : ℕ → ℕ → ℕ → ℕ → ℕ → ℕ → ℕ → ℕ → ℕ
be64 a b c d e f g h = (be16 a b * 2 ^ 16 + be16 c d) * 2 ^ 32 + (be16 e f * 2 ^ 16 + be16 g h)

abbrev pub bytes16 : ℕ → List ℕ
bytes16 n = n / 2 ^ 8 % 2 ^ 8 ∷ n % 2 ^ 8 ∷ []

abbrev pub bytes64 : ℕ → List ℕ
bytes64 n = bytes16 (n / 2 ^ 48) ++ bytes16 (n / 2 ^ 32) ++ bytes16 (n / 2 ^ 16) ++ bytes16 n

-- The bytes of `payload` from index `i` on, each `^ mask[i % 4]`.
unfoldable pub masked : List ℕ → ℕ → List ℕ → List ℕ
masked mask i [] = []
masked mask i (b ∷ payload) = bit_xor b (get_or mask (i % 4) 0) ∷ masked mask (i + 1) payload

-- `fin` and `opcode` of the first two bytes, or what is wrong with them.
unfoldable pub client_header : ℕ → ℕ → Result (Bool × Opcode)
unfolding from_bits refused
client_header b0 b1 =
    if not (bit_and b0 0x70 == 0)
    then refused 1002 (codes "reserved bits set")
    else elim (from_bits (bit_and b0 0x0F)) [
      | none ↦ refused 1002 (codes "unknown opcode")
      | some opcode ↦
          if bit_and b1 0x80 == 0
          then refused 1002 (codes "client frames must be masked")
          else ok (not (bit_and b0 0x80 == 0), opcode)
    ]

-- The length of the payload and the bytes from `pos` on, given `len7` and the bytes past the first
-- two; `none` where more bytes are needed.
unfoldable pub client_len16 : List ℕ → Result (Option (ℕ × List ℕ))
unfolding refused
client_len16 (h ∷ l ∷ rest) =
    if ltb (be16 h l) 126
    then refused 1002 (codes "non-minimal length")
    else ok (some (be16 h l, rest))
client_len16 _ = ok none

unfoldable pub client_len64 : List ℕ → Result (Option (ℕ × List ℕ))
unfolding refused
client_len64 (a ∷ b ∷ c ∷ d ∷ e ∷ f ∷ g ∷ h ∷ rest) =
    if not (be64 a b c d e f g h / 2 ^ 63 == 0)
    then refused 1002 (codes "length has the high bit set")
    else if leb (be64 a b c d e f g h) 0xFFFF
    then refused 1002 (codes "non-minimal length")
    else ok (some (be64 a b c d e f g h, rest))
client_len64 _ = ok none

unfoldable pub client_len : ℕ → List ℕ → Result (Option (ℕ × List ℕ))
unfolding client_len16 client_len64
client_len len7 buf =
    if len7 == 126
    then client_len16 buf
    else if len7 == 127
    then client_len64 buf
    else ok (some (len7, buf))

-- What a control frame and the largest message allow: the violation, if there is one.
unfoldable pub client_limits : Bool → Opcode → ℕ → Option ProtocolError
client_limits fin opcode len =
    if is_control opcode && not fin
    then some (record { code = 1002; reason = codes "fragmented control frame" })
    else if is_control opcode && ltb 125 len
    then some (record { code = 1002; reason = codes "control frame too long" })
    else if ltb max_message len
    then some (record { code = 1009; reason = codes "message too big" })
    else none

-- The mask and the payload at `pos`; `buf` is kept until the whole frame is there.
unfoldable pub client_payload : List ℕ → Bool → Opcode → ℕ → List ℕ → Result (Option Frame) × List ℕ
unfolding masked
client_payload buf fin opcode len (m0 ∷ m1 ∷ m2 ∷ m3 ∷ rest) =
    if ltb (length rest) len then (ok none, buf) else (
      ok (
          some (record {
            fin = fin;
            opcode = opcode;
            payload = masked (m0 ∷ m1 ∷ m2 ∷ m3 ∷ []) 0 (take len rest);
          })),
      drop len rest,
    )
client_payload buf fin opcode len _ = (ok none, buf)

-- The frame once its header and its length are read.
unfoldable pub after_len :
    List ℕ → Bool → Opcode → Result (Option (ℕ × List ℕ)) → Result (Option Frame) × List ℕ
unfolding client_limits client_payload
after_len buf fin opcode (err problem) = (err problem, buf)
after_len buf fin opcode (ok none) = (ok none, buf)
after_len buf fin opcode (ok (some (len, rest))) = elim (client_limits fin opcode len) [
  | some problem ↦ (err problem, buf)
  | none ↦ client_payload buf fin opcode len rest
]

unfoldable pub after_header :
    List ℕ → ℕ → List ℕ → Result (Bool × Opcode) → Result (Option Frame) × List ℕ
unfolding client_len after_len
after_header buf b1 rest (err problem) = (err problem, buf)
after_header buf b1 rest (ok (fin, opcode)) =
    after_len buf fin opcode (client_len (bit_and b1 0x7F) rest)

unfoldable pub parse_client_frame : List ℕ → Result (Option Frame) × List ℕ
unfolding client_header after_header
parse_client_frame (b0 ∷ b1 ∷ rest) = after_header (b0 ∷ b1 ∷ rest) b1 rest (client_header b0 b1)
parse_client_frame buf = (ok none, buf)

-- The bytes of a frame between the first one and the payload, without and with the mask bit.
unfoldable pub server_len : ℕ → List ℕ
server_len len =
    if ltb len 126
    then len % 2 ^ 8 ∷ []
    else if leb len 0xFFFF
    then 126 ∷ bytes16 (len % 2 ^ 16)
    else 127 ∷ bytes64 (len % 2 ^ 64)

unfoldable pub masked_len : ℕ → List ℕ
masked_len len =
    if ltb len 126
    then bit_or 0x80 (len % 2 ^ 8) ∷ []
    else if leb len 0xFFFF
    then bit_or 0x80 126 ∷ bytes16 (len % 2 ^ 16)
    else bit_or 0x80 127 ∷ bytes64 (len % 2 ^ 64)

unfoldable pub encode_frame : Opcode → List ℕ → List ℕ
unfolding bits server_len
encode_frame opcode payload = bit_or 0x80 (bits opcode) ∷ server_len (length payload) ++ payload

unfoldable pub text_frame : List ℕ → List ℕ
unfolding encode_frame
text_frame bytes = encode_frame Opcode.text bytes

unfoldable pub close_frame : ℕ → List ℕ → List ℕ
unfolding encode_frame
close_frame code reason =
    encode_frame Opcode.close (bytes16 code ++ take (min (length reason) 123) reason)

unfoldable pub client_frame : Opcode → Bool → List ℕ → List ℕ → List ℕ
unfolding bits masked_len masked
client_frame opcode fin payload mask =
    bit_or (if fin then 0x80 else 0) (bits opcode) ∷ masked_len (length payload)
    ++ (mask ++ masked mask 0 payload)

-- The length that a server frame announces, and the bytes past it.
unfoldable pub server_len16 : List ℕ → Option (ℕ × List ℕ)
server_len16 (h ∷ l ∷ rest) = some (be16 h l, rest)
server_len16 _ = none

unfoldable pub server_len64 : List ℕ → Option (ℕ × List ℕ)
server_len64 (a ∷ b ∷ c ∷ d ∷ e ∷ f ∷ g ∷ h ∷ rest) = some (be64 a b c d e f g h, rest)
server_len64 _ = none

unfoldable pub server_length : ℕ → List ℕ → Option (ℕ × List ℕ)
unfolding server_len16 server_len64
server_length len7 buf =
    if len7 == 126
    then server_len16 buf
    else if len7 == 127
    then server_len64 buf
    else some (len7, buf)

unfoldable pub server_payload : List ℕ → Bool → Opcode → Option (ℕ × List ℕ) → Option Frame × List ℕ
server_payload buf fin opcode none = (none, buf)
server_payload buf fin opcode (some (len, rest)) =
    if ltb (length rest) len
    then (none, buf)
    else (some (record { fin = fin; opcode = opcode; payload = take len rest }), drop len rest)

unfoldable pub parse_server_frame : List ℕ → Option Frame × List ℕ
unfolding from_bits server_length server_payload
parse_server_frame (b0 ∷ b1 ∷ rest) = elim (from_bits (bit_and b0 0x0F)) [
  | none ↦ (none, b0 ∷ b1 ∷ rest)
  | some opcode ↦
      server_payload (b0 ∷ b1 ∷ rest) (not (bit_and b0 0x80 == 0)) opcode
        (server_length (bit_and b1 0x7F) rest)
]
parse_server_frame buf = (none, buf)
