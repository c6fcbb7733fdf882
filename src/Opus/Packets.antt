-- ===== src/Opus/Packets.antt =====
-- core/sync/src/opus/packets.rs: the packets of an Opus Quad and the ones sent to it. A packet is the
-- list of its bytes, and a name the list of its code points. `bytes[i]` past an `expect` is `u8_at`,
-- as the bound holds there; so is `bytes[a..b]`, which is `slice`.
pub mod Status
pub mod RoundTrip
use player.Common.{
  ℕ, zero, suc, ◌+◌, ◌-◌, ◌*◌, ◌/◌, ◌%◌, ◌^◌, max, bit_and, Bool, true, false, not, ◌&&◌, ◌||◌,
  Option, none, some, List, [], ◌∷◌, ◌++◌, ltb, leb, ◌==◌, if◌then◌else◌, length, get_or, take,
  drop, replicate,
}
use player.Common.Floats.{Floats}
use player.Common.Text.{codes, list_eq, trim, take_while}
use player.Common.Utf8.{from_utf8_lossy, encode_utf8}
use player.Prolink.Packets.{Ipv4Addr}

abbrev pub magic : List ℕ
magic = 0x51 ∷ 0x73 ∷ 0x70 ∷ 0x74 ∷ 0x31 ∷ 0x57 ∷ 0x6d ∷ 0x4a ∷ 0x4f ∷ 0x4c ∷ []

abbrev pub kind_offset : ℕ
kind_offset = 0x0a

abbrev pub opus_name : List ℕ
opus_name = codes "OPUS-QUAD"

abbrev pub rekordbox_name : List ℕ
rekordbox_name = codes "rekordbox"

-- `kind`.
abbrev pub keep_alive_kind : ℕ
keep_alive_kind = 0x06

abbrev pub status_kind : ℕ
status_kind = 0x0a

abbrev pub lighting_hello_kind : ℕ
lighting_hello_kind = 0x10

abbrev pub lighting_request_kind : ℕ
lighting_request_kind = 0x11

abbrev pub keep_alive_len : ℕ
keep_alive_len = 0x36

abbrev pub lighting_request_len : ℕ
lighting_request_len = 0x128

abbrev pub lighting_hello_min_len : ℕ
lighting_hello_min_len = 0x22

abbrev pub status_min_len : ℕ
status_min_len = 0xcc

abbrev pub status_flags_min_len : ℕ
status_flags_min_len = 0xd4

pub data ParseError : Type 0 where
  too_short : ℕ → ℕ → ParseError
  bad_magic : ParseError
  wrong_kind : ℕ → ParseError

pub data Result {ℓ} (A : Type ℓ) : Type ℓ where
  err : ParseError → Result A
  ok : A → Result A

abbrev pub u8_at : List ℕ → ℕ → ℕ
u8_at bytes i = get_or bytes i 0

-- `bytes[a..a + n]`.
abbrev pub slice : List ℕ → ℕ → ℕ → List ℕ
slice bytes a n = take n (drop a bytes)

unfoldable pub packet_kind : List ℕ → Result ℕ
packet_kind bytes =
    if leb (length bytes) kind_offset
    then err (too_short (length bytes) (kind_offset + 1))
    else if not (list_eq (take 10 bytes) magic)
    then err bad_magic
    else ok (u8_at bytes kind_offset)

-- `expect`, given the kind byte.
unfoldable pub expect_kind : Result ℕ → List ℕ → ℕ → ℕ → Result (Unit {0})
expect_kind (err problem) bytes kind need = err problem
expect_kind (ok k) bytes kind need =
    if not (k == kind)
    then err (wrong_kind k)
    else if ltb (length bytes) need
    then err (too_short (length bytes) need)
    else ok tt

unfoldable pub expect : List ℕ → ℕ → ℕ → Result (Unit {0})
unfolding packet_kind expect_kind
expect bytes kind need = expect_kind (packet_kind bytes) bytes kind need

unfoldable pub read_name : List ℕ → List ℕ
read_name field = trim (from_utf8_lossy (take_while (λ b. not (b == 0)) field))

-- The characters that fit in `n` bytes, as bytes: the cut is at the last character boundary.
unfoldable pub fitting : ℕ → List ℕ → List ℕ
unfolding encode_utf8
fitting n [] = []
fitting n (c ∷ name) =
    if leb (length (encode_utf8 c)) n
    then encode_utf8 c ++ fitting (n - length (encode_utf8 c)) name
    else []

unfoldable pub padded : ℕ → List ℕ → List ℕ
padded n bytes = bytes ++ replicate (n - length bytes) 0

-- The field of `n` bytes that `write_name` fills.
unfoldable pub write_name : ℕ → List ℕ → List ℕ
unfolding fitting padded
write_name n name = padded n (fitting n name)

unfoldable pub be16 : List ℕ → ℕ → ℕ
be16 b at = u8_at b at * 2 ^ 8 + u8_at b (at + 1)

unfoldable pub be32 : List ℕ → ℕ → ℕ
be32 b at =
    u8_at b at * 2 ^ 24 + u8_at b (at + 1) * 2 ^ 16 + u8_at b (at + 2) * 2 ^ 8 + u8_at b (at + 3)

-- `[u8; 6]` and `[u8; 5]` are lists.
pub record KeepAlive : Type 0 where
  pub name : List ℕ
  pub subtype : ℕ
  pub number : ℕ
  pub byte_25 : ℕ
  pub mac : List ℕ
  pub ip : Ipv4Addr
  pub peers : ℕ
  pub tail : List ℕ

unfoldable pub rekordbox : ℕ → List ℕ → Ipv4Addr → KeepAlive
rekordbox number mac ip = record {
  name = rekordbox_name;
  subtype = 0x03;
  number = number;
  byte_25 = 0x01;
  mac = mac;
  ip = ip;
  peers = 0x04;
  tail = 0x01 ∷ 0x00 ∷ 0x00 ∷ 0x04 ∷ 0x08 ∷ [];
}

unfoldable pub device_type : KeepAlive → ℕ
device_type self = get_or self.tail 3 0

-- The fields of a keep-alive that `expect` has accepted.
unfoldable pub read_keep_alive : List ℕ → KeepAlive
unfolding read_name
read_keep_alive bytes = record {
  name = read_name (slice bytes 0x0c 20);
  subtype = u8_at bytes 0x21;
  number = u8_at bytes 0x24;
  byte_25 = u8_at bytes 0x25;
  mac = slice bytes 0x26 6;
  ip = record {
    a = u8_at bytes 0x2c;
    b = u8_at bytes 0x2d;
    c = u8_at bytes 0x2e;
    d = u8_at bytes 0x2f;
  };
  peers = u8_at bytes 0x30;
  tail = slice bytes 0x31 5;
}

unfoldable pub parse_keep_alive : List ℕ → Result KeepAlive
unfolding expect read_keep_alive
parse_keep_alive bytes = elim (expect bytes keep_alive_kind keep_alive_len) [
  | err problem ↦ err problem
  | ok done ↦ ok (read_keep_alive bytes)
]

unfoldable pub to_bytes : KeepAlive → List ℕ
unfolding write_name
to_bytes self =
    magic
    ++ (keep_alive_kind ∷ 0x00 ∷ [])
    ++ write_name 20 self.name
    ++ (0x01 ∷ self.subtype ∷ 0x00 ∷ 0x36 ∷ self.number ∷ self.byte_25 ∷ [])
    ++ self.mac
    ++ (self.ip.a ∷ self.ip.b ∷ self.ip.c ∷ self.ip.d ∷ self.peers ∷ [])
    ++ self.tail

-- The computer name as code units of two bytes.
unfoldable pub units : List ℕ → List ℕ
units [] = []
units (c ∷ name) = 0 ∷ (if leb 0x20 c && ltb c 0x7f then c else b'?') ∷ units name

unfoldable pub lighting_request : ℕ → List ℕ → List ℕ
unfolding write_name units padded
lighting_request number computer_name = padded lighting_request_len (
    magic
    ++ (lighting_request_kind ∷ [])
    ++ write_name 20 rekordbox_name
    ++ (0x01 ∷ 0x01 ∷ number ∷ 0x01 ∷ 0x04 ∷ number ∷ 0x01 ∷ 0 ∷ 0 ∷ [])
    ++ units (take 127 computer_name))
