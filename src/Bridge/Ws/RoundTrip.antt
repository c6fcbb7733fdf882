-- ===== src/Bridge/Ws/RoundTrip.antt =====
-- Frames are parsed back from their bytes, on both sides of the connection.
use mathlib.Core.List.{append_assoc}
use player.Common.{
  ℕ, zero, suc, ◌+◌, ◌/◌, ◌%◌, ◌^◌, ◌≤◌, ◌<◌, ◌≡◌, refl, sym, ap, ◌∙◌, ◌⊎◌, inl, inr, bit_and,
  bit_or, Bool, true, false, not, ◌&&◌, Bool-cases, none, some, List, [], ◌∷◌, ◌++◌, ltb, leb, ◌==◌,
  ltb→lt, if◌then◌else◌, length, get_or, arith, take-length, drop-length, length-append,
}
use player.Common.Bits.{bit_and-mask, bit_xor_twice}
use player.Bridge.Ws.{
  max_message, Opcode, continuation, binary, pong, is_control, from_bits, bits, Frame, ok, be16,
  be64, bytes16, bytes64, masked, client_header, client_len16, client_len64, client_len,
  client_limits, client_payload, after_len, after_header, parse_client_frame, masked_len,
  client_frame, server_len, encode_frame, server_len16, server_len64, server_length, server_payload,
  parse_server_frame,
}
use player.Bridge.Ws.Stream.{IsWithin}

-- Masking twice gives the payload back.
masked_twice :
    (mask : List ℕ) (i : ℕ) (bytes : List ℕ) → masked mask i (masked mask i bytes) ≡ bytes
unfolding masked
masked_twice mask i [] = refl
masked_twice mask i (b ∷ bytes) =
    rw (bit_xor_twice b (get_or mask (i % 4) 0)) (ap (◌∷◌ b) (masked_twice mask (i + 1) bytes))

length-masked :
    (mask : List ℕ) (i : ℕ) (bytes : List ℕ) → length (masked mask i bytes) ≡ length bytes
unfolding masked
length-masked mask i [] = refl
length-masked mask i (b ∷ bytes) = ap suc (length-masked mask (i + 1) bytes)

-- The first byte of a frame gives back its opcode and whether it is the last fragment.
first_byte_client :
    (fin : Bool) (opcode : Opcode) (b1 : ℕ)
    → (bit_and b1 0x80 == 0) ≡ false
    → client_header (bit_or (if fin then 0x80 else 0) (bits opcode)) b1 ≡ ok (fin, opcode)
unfolding client_header bits from_bits
first_byte_client true continuation b1 e = rw e refl
first_byte_client true Opcode.text b1 e = rw e refl
first_byte_client true binary b1 e = rw e refl
first_byte_client true Opcode.close b1 e = rw e refl
first_byte_client true Opcode.ping b1 e = rw e refl
first_byte_client true pong b1 e = rw e refl
first_byte_client false continuation b1 e = rw e refl
first_byte_client false Opcode.text b1 e = rw e refl
first_byte_client false binary b1 e = rw e refl
first_byte_client false Opcode.close b1 e = rw e refl
first_byte_client false Opcode.ping b1 e = rw e refl
first_byte_client false pong b1 e = rw e refl

-- The second byte gives back the mask bit and the seven bits of the length.
second_ok : ℕ → Bool
second_ok len = not (bit_and (bit_or 0x80 len) 0x80 == 0) && bit_and (bit_or 0x80 len) 0x7F == len

all_ok : ℕ → Bool
all_ok zero = true
all_ok (suc n) = second_ok n && all_ok n

seven_bits : all_ok 128 ≡ true
unfolding all_ok second_ok
seven_bits = refl

ok_below : (n len : ℕ) → all_ok n ≡ true → len < n → second_ok len ≡ true
unfolding all_ok
ok_below zero len h lt = absurd (omega arith)
ok_below (suc n) len h lt = ground (arith, ok_below n len)

second_byte :
    (len : ℕ)
    → len < 128
    → ((bit_and (bit_or 0x80 len) 0x80 == 0) ≡ false) × (bit_and (bit_or 0x80 len) 0x7F ≡ len)
unfolding second_ok
second_byte len h = ground (arith, ok_below 128 len seven_bits h)

be16-bytes : (n : ℕ) → n < 2 ^ 16 → be16 (n / 2 ^ 8 % 2 ^ 8) (n % 2 ^ 8) ≡ n
be16-bytes n h = omega arith

be64-bytes :
    (n : ℕ)
    → n < 2 ^ 64
    → be64
        (n / 2 ^ 48 / 2 ^ 8 % 2 ^ 8)
        (n / 2 ^ 48 % 2 ^ 8)
        (n / 2 ^ 32 / 2 ^ 8 % 2 ^ 8)
        (n / 2 ^ 32 % 2 ^ 8)
        (n / 2 ^ 16 / 2 ^ 8 % 2 ^ 8)
        (n / 2 ^ 16 % 2 ^ 8)
        (n / 2 ^ 8 % 2 ^ 8)
        (n % 2 ^ 8)
      ≡ n
be64-bytes n h = omega arith

-- A length as `client_frame` writes it: the second byte carries the mask bit, and the length is read
-- back before any bytes.
record Written (len : ℕ) (tail : List ℕ) : Type 0 where
  b1 : ℕ
  extended : List ℕ
  spelled : masked_len len ≡ b1 ∷ extended
  mask_bit : (bit_and b1 0x80 == 0) ≡ false
  len_read : client_len (bit_and b1 0x7F) (extended ++ tail) ≡ ok (some (len, tail))

client_len_seven :
    (len : ℕ) (tail : List ℕ) → len < 126 → client_len len tail ≡ ok (some (len, tail))
unfolding client_len
client_len_seven len tail h = ground arith

client_len_sixteen :
    (len : ℕ) (tail : List ℕ)
    → 126 ≤ len
    → len < 2 ^ 16
    → client_len16 (bytes16 len ++ tail) ≡ ok (some (len, tail))
unfolding client_len16
client_len_sixteen len tail lo hi = rw (be16-bytes len hi) (ground arith)

client_len_sixty_four :
    (len : ℕ) (tail : List ℕ)
    → 2 ^ 16 ≤ len
    → len < 2 ^ 63
    → client_len64 (bytes64 len ++ tail) ≡ ok (some (len, tail))
unfolding client_len64
client_len_sixty_four len tail lo hi = rw (be64-bytes len (omega arith)) (ground arith)

Written-seven : (len : ℕ) (tail : List ℕ) → len < 126 → Written len tail
unfolding masked_len
Written-seven len tail h =
    let (bit, seven) = second_byte len (omega arith) in
    record {
      b1 = bit_or 0x80 len;
      extended = [];
      spelled = (let fits : len % 2 ^ 8 ≡ len = omega arith in rw fits (ground arith));
      mask_bit = bit;
      len_read = rw seven (client_len_seven len tail h);
    }

Written-sixteen : (len : ℕ) (tail : List ℕ) → 126 ≤ len → len < 2 ^ 16 → Written len tail
unfolding masked_len client_len
Written-sixteen len tail lo hi = record {
  b1 = bit_or 0x80 126;
  extended = bytes16 len;
  spelled = (let fits : len % 2 ^ 16 ≡ len = omega arith in rw fits (ground arith));
  mask_bit = refl;
  len_read = client_len_sixteen len tail lo hi;
}

Written-sixty_four : (len : ℕ) (tail : List ℕ) → 2 ^ 16 ≤ len → len < 2 ^ 63 → Written len tail
unfolding masked_len client_len
Written-sixty_four len tail lo hi = record {
  b1 = bit_or 0x80 127;
  extended = bytes64 len;
  spelled = (let fits : len % 2 ^ 64 ≡ len = omega arith in rw fits (ground arith));
  mask_bit = refl;
  len_read = client_len_sixty_four len tail lo hi;
}

written : (len : ℕ) (tail : List ℕ) → len < 2 ^ 63 → Written len tail
written len tail h = elim (Bool-cases (ltb len 126)) [
  | inl e ↦ Written-seven len tail (ltb→lt len 126 e)
  | inr e ↦ elim (Bool-cases (leb len 0xFFFF)) [
    | inl e' ↦ Written-sixteen len tail (ground arith) (ground arith)
    | inr e' ↦ Written-sixty_four len tail (ground arith) h
  ]
]

limits_within :
    (fin : Bool) (opcode : Opcode) (len : ℕ)
    → len ≤ max_message
    → (is_control opcode ≡ false) ⊎ ((fin ≡ true) × (len ≤ 125))
    → client_limits fin opcode len ≡ none
unfolding client_limits
limits_within fin opcode len h whole = ground arith

-- A payload behind its mask is unmasked, and what comes after it is left.
body_read :
    (buf : List ℕ) (fin : Bool) (opcode : Opcode) (len : ℕ) (body rest : List ℕ) (m0 m1 m2 m3 : ℕ)
    → len ≡ length body
    → let mask = m0 ∷ m1 ∷ m2 ∷ m3 ∷ [] in
      client_payload buf fin opcode len (mask ++ (body ++ rest))
      ≡ (ok (some (record { fin = fin; opcode = opcode; payload = masked mask 0 body })), rest)
unfolding client_payload
body_read buf fin opcode len body rest m0 m1 m2 m3 e =
    rw (e, take-length body rest, drop-length body rest) (ground (arith, length-append body rest))

payload_read :
    (buf : List ℕ) (fin : Bool) (opcode : Opcode) (payload rest : List ℕ) (m0 m1 m2 m3 : ℕ)
    → let mask = m0 ∷ m1 ∷ m2 ∷ m3 ∷ [] in
      client_payload buf fin opcode (length payload) (mask ++ (masked mask 0 payload ++ rest))
      ≡ (ok (some (record { fin = fin; opcode = opcode; payload = payload })), rest)
payload_read buf fin opcode payload rest m0 m1 m2 m3 =
    let mask = m0 ∷ m1 ∷ m2 ∷ m3 ∷ [] in
    body_read buf fin opcode (length payload) (masked mask 0 payload) rest m0 m1 m2 m3
      (sym (length-masked mask 0 payload))
    ∙ ap (λ t. (ok (some (record { fin = fin; opcode = opcode; payload = t })), rest))
        (masked_twice mask 0 payload)

parsed_with :
    (buf tail after : List ℕ) (b0 b1 len : ℕ) (fin : Bool) (opcode : Opcode)
    → buf ≡ b0 ∷ b1 ∷ tail
    → client_header b0 b1 ≡ ok (fin, opcode)
    → client_len (bit_and b1 0x7F) tail ≡ ok (some (len, after))
    → client_limits fin opcode len ≡ none
    → parse_client_frame buf ≡ client_payload (b0 ∷ b1 ∷ tail) fin opcode len after
unfolding parse_client_frame after_header after_len
parsed_with buf tail after b0 b1 len fin opcode e head read limits =
    rw (e, head, read, after_len, limits) refl

regrouped :
    (front extended mask body rest : List ℕ) (b1 : ℕ)
    → front ≡ b1 ∷ extended
    → (front ++ (mask ++ body)) ++ rest ≡ b1 ∷ (extended ++ (mask ++ (body ++ rest)))
regrouped front extended mask body rest b1 e =
    ap (λ t. (t ++ (mask ++ body)) ++ rest) e
    ∙ ap (◌∷◌ b1) (
        append_assoc extended (mask ++ body) rest
        ∙ ap (◌++◌ extended) (append_assoc mask body rest))

-- The server reads back what `client_frame` writes, and leaves the bytes behind it.
pub parse_client_frame-client_frame :
    (frame : Frame) (m0 m1 m2 m3 : ℕ) (rest : List ℕ)
    → IsWithin frame
    → let bytes = client_frame frame.opcode frame.fin frame.payload (m0 ∷ m1 ∷ m2 ∷ m3 ∷ []) in
      parse_client_frame (bytes ++ rest) ≡ (ok (some frame), rest)
unfolding client_frame
parse_client_frame-client_frame frame m0 m1 m2 m3 rest (short, whole) =
    let fin = frame.fin in
    let opcode = frame.opcode in
    let payload = frame.payload in
    let mask = m0 ∷ m1 ∷ m2 ∷ m3 ∷ [] in
    let behind = mask ++ (masked mask 0 payload ++ rest) in
    let w = written (length payload) behind (omega arith) in
    let b0 = bit_or (if fin then 0x80 else 0) (bits opcode) in
    let spelled : client_frame opcode fin payload mask ++ rest
        ≡ b0 ∷ w.b1 ∷ (w.extended ++ behind) =
      ap (◌∷◌ b0) (
        regrouped (masked_len (length payload)) w.extended mask (masked mask 0 payload) rest w.b1
          w.spelled) in
    parsed_with _ (w.extended ++ behind) behind b0 w.b1 (length payload) fin opcode spelled
      (first_byte_client fin opcode w.b1 w.mask_bit) w.len_read
      (limits_within fin opcode (length payload) short whole)
    ∙ payload_read _ fin opcode payload rest m0 m1 m2 m3

first_byte_server :
    (opcode : Opcode) → from_bits (bit_and (bit_or 0x80 (bits opcode)) 0x0F) ≡ some opcode
unfolding bits from_bits
first_byte_server continuation = refl
first_byte_server Opcode.text = refl
first_byte_server binary = refl
first_byte_server Opcode.close = refl
first_byte_server Opcode.ping = refl
first_byte_server pong = refl

final_bit : (opcode : Opcode) → not (bit_and (bit_or 0x80 (bits opcode)) 0x80 == 0) ≡ true
unfolding bits
final_bit continuation = refl
final_bit Opcode.text = refl
final_bit binary = refl
final_bit Opcode.close = refl
final_bit Opcode.ping = refl
final_bit pong = refl

-- A length as `encode_frame` writes it.
record ServerWritten (len : ℕ) (tail : List ℕ) : Type 0 where
  b1 : ℕ
  extended : List ℕ
  spelled : server_len len ≡ b1 ∷ extended
  len_read : server_length (bit_and b1 0x7F) (extended ++ tail) ≡ some (len, tail)

server_written : (len : ℕ) (tail : List ℕ) → len < 2 ^ 64 → ServerWritten len tail
unfolding server_len server_length server_len16 server_len64
server_written len tail h = elim (Bool-cases (ltb len 126)) [
  | inl e ↦
      let fits : len % 2 ^ 8 ≡ len = ground arith in
      let seven : bit_and len 0x7F ≡ len = ground (arith, bit_and-mask 7 len) in
      record {
        b1 = len;
        extended = [];
        spelled = rw fits (ground arith);
        len_read = rw seven (ground arith);
      }
  | inr e ↦ elim (Bool-cases (leb len 0xFFFF)) [
    | inl e' ↦
        let fits : len % 2 ^ 16 ≡ len = ground arith in
        record {
          b1 = 126;
          extended = bytes16 len;
          spelled = rw fits (ground arith);
          len_read = rw (be16-bytes len (ground arith)) refl;
        }
    | inr e' ↦
        let fits : len % 2 ^ 64 ≡ len = ground arith in
        record {
          b1 = 127;
          extended = bytes64 len;
          spelled = rw fits (ground arith);
          len_read = rw (be64-bytes len h) refl;
        }
  ]
]

server_read :
    (buf : List ℕ) (fin : Bool) (opcode : Opcode) (payload rest : List ℕ)
    → server_payload buf fin opcode (some (length payload, payload ++ rest))
      ≡ (some (record { fin = fin; opcode = opcode; payload = payload }), rest)
unfolding server_payload
server_read buf fin opcode payload rest =
    rw (take-length payload rest, drop-length payload rest)
      (ground (arith, length-append payload rest))

-- A client reads back what `encode_frame` writes, and leaves the bytes behind it.
pub parse_server_frame-encode_frame :
    (opcode : Opcode) (payload rest : List ℕ)
    → length payload < 2 ^ 64
    → parse_server_frame (encode_frame opcode payload ++ rest)
      ≡ (some (record { fin = true; opcode = opcode; payload = payload }), rest)
unfolding parse_server_frame encode_frame
parse_server_frame-encode_frame opcode payload rest h =
    let w = server_written (length payload) (payload ++ rest) h in
    let b0 = bit_or 0x80 (bits opcode) in
    ap (λ t. parse_server_frame (b0 ∷ t))
      (ap (λ t. (t ++ payload) ++ rest) w.spelled
        ∙ ap (◌∷◌ w.b1) (append_assoc w.extended payload rest))
    ∙ rw (parse_server_frame, first_byte_server opcode, final_bit opcode, w.len_read)
        (server_read _ true opcode payload rest)
