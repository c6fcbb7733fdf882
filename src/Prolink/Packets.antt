-- ===== src/Prolink/Packets.antt =====
-- core/sync/src/prolink/packets.rs: bytes, header, names and the classification of packets. A
-- packet is the list of its bytes. `packet[i]` past a `check` is `u8_at`, as the bound holds there.
pub mod Bytes
use player.Common.{
  ℕ, zero, suc, ◌+◌, ◌-◌, ◌*◌, ◌/◌, ◌%◌, ◌^◌, min, bit_and, Bool, true, false, not, ◌&&◌, ◌||◌,
  Option, none, some, List, [], ◌∷◌, ◌++◌, map, ltb, leb, ◌==◌, if◌then◌else◌, length, get_or, set,
  take, drop, replicate,
}
use player.Common.Text.{
  codes, list_eq, starts_with, trim, is_ascii_graphic, to_ascii_lowercase, take_while,
}

abbrev pub magic : List ℕ
magic = 0x51 ∷ 0x73 ∷ 0x70 ∷ 0x74 ∷ 0x31 ∷ 0x57 ∷ 0x6d ∷ 0x4a ∷ 0x4f ∷ 0x4c ∷ []

abbrev pub kind_offset : ℕ
kind_offset = 0x0a

abbrev pub name_len : ℕ
name_len = 20

abbrev pub keep_alive_len : ℕ
keep_alive_len = 0x36

abbrev pub beat_len : ℕ
beat_len = 0x60

abbrev pub precise_position_len : ℕ
precise_position_len = 0x3c

abbrev pub mixer_status_len : ℕ
mixer_status_len = 0x38

abbrev pub cdj_status_min_len : ℕ
cdj_status_min_len = 0xcc

abbrev pub cdj_status_nexus_len : ℕ
cdj_status_nexus_len = 0xd4

pub data Port : Type 0 where
  announce beat status : Port

unfoldable pub number : Port → ℕ
number announce = 50000
number beat = 50001
number status = 50002

pub data PacketKind : Type 0 where
  hello claim_stage1 assignment_intention claim_stage2 assignment claim_stage3 : PacketKind
  assignment_finished keep_alive number_in_use fader_start channels_on_air : PacketKind
  precise_position master_handoff_request master_handoff_response beat : PacketKind
  sync_control media_query media_response cdj_status load_track load_track_ack : PacketKind
  mixer_status load_settings : PacketKind
  unknown : ℕ → PacketKind

-- The table of kinds, port by port.
unfoldable pub kind_at : Port → ℕ → PacketKind
kind_at Port.announce kind =
    if kind == 0x0a
    then hello
    else if kind == 0x00
    then claim_stage1
    else if kind == 0x01
    then assignment_intention
    else if kind == 0x02
    then claim_stage2
    else if kind == 0x03
    then assignment
    else if kind == 0x04
    then claim_stage3
    else if kind == 0x05
    then assignment_finished
    else if kind == 0x06
    then keep_alive
    else if kind == 0x08
    then number_in_use
    else unknown kind
kind_at Port.beat kind =
    if kind == 0x02
    then fader_start
    else if kind == 0x03
    then channels_on_air
    else if kind == 0x0b
    then precise_position
    else if kind == 0x26
    then master_handoff_request
    else if kind == 0x27
    then master_handoff_response
    else if kind == 0x28
    then PacketKind.beat
    else if kind == 0x2a
    then sync_control
    else unknown kind
kind_at Port.status kind =
    if kind == 0x05
    then media_query
    else if kind == 0x06
    then media_response
    else if kind == 0x0a
    then cdj_status
    else if kind == 0x19
    then load_track
    else if kind == 0x1a
    then load_track_ack
    else if kind == 0x29
    then mixer_status
    else if kind == 0x34
    then load_settings
    else unknown kind

unfoldable pub u8_at : List ℕ → ℕ → ℕ
u8_at p at = get_or p at 0

-- `packet.len() <= KIND_OFFSET || packet[..MAGIC.len()] != MAGIC`.
unfoldable pub is_foreign : List ℕ → Bool
is_foreign packet =
    leb (length packet) kind_offset || not (list_eq (take (length magic) packet) magic)

unfoldable pub classify : Port → List ℕ → Option PacketKind
unfolding is_foreign kind_at u8_at
classify port packet =
    if is_foreign packet then none else some (kind_at port (u8_at packet kind_offset))

pub data ParseError : Type 0 where
  not_pro_dj_link : ParseError
  wrong_kind : (expected found : ℕ) → ParseError
  too_short : (needed got : ℕ) → ParseError

-- `Result<A, ParseError>`, and `?` as a bind.
pub data Result {ℓ} (A : Type ℓ) : Type ℓ where
  err : ParseError → Result A
  ok : A → Result A

abbrev pub ◌>>=◌ {ℓ κ} : {A : Type ℓ} {B : Type κ} → Result A → (A → Result B) → Result B
parsed >>= next = elim parsed [ err problem ↦ err problem | ok value ↦ next value ]

abbrev pub ◌>>◌ {ℓ κ} : {A : Type ℓ} {B : Type κ} → Result A → Result B → Result B
parsed >> next = parsed >>= (λ value. next)

infixl 5 ◌>>◌ ◌>>=◌
unfoldable pub check : List ℕ → ℕ → ℕ → Result (Unit {0})
check packet kind needed =
    if is_foreign packet
    then err not_pro_dj_link
    else if u8_at packet kind_offset == kind
    then if ltb (length packet) needed then err (too_short needed (length packet)) else ok tt
    else err (wrong_kind kind (u8_at packet kind_offset))

unfoldable pub be16 : List ℕ → ℕ → ℕ
unfolding u8_at
be16 p at = u8_at p at * 2 ^ 8 + u8_at p (at + 1)

unfoldable pub be32 : List ℕ → ℕ → ℕ
unfolding u8_at
be32 p at =
    u8_at p at * 2 ^ 24 + u8_at p (at + 1) * 2 ^ 16 + u8_at p (at + 2) * 2 ^ 8 + u8_at p (at + 3)

-- `Ipv4Addr` by its octets, and `[u8; 6]`.
pub record Ipv4Addr : Type 0 where
  pub a : ℕ
  pub b : ℕ
  pub c : ℕ
  pub d : ℕ

pub record Mac : Type 0 where
  pub m0 : ℕ
  pub m1 : ℕ
  pub m2 : ℕ
  pub m3 : ℕ
  pub m4 : ℕ
  pub m5 : ℕ

unfoldable pub ip_at : List ℕ → ℕ → Ipv4Addr
unfolding u8_at
ip_at p at = record {
  a = u8_at p at;
  b = u8_at p (at + 1);
  c = u8_at p (at + 2);
  d = u8_at p (at + 3);
}

unfoldable pub mac_at : List ℕ → ℕ → Mac
unfolding u8_at
mac_at p at = record {
  m0 = u8_at p at;
  m1 = u8_at p (at + 1);
  m2 = u8_at p (at + 2);
  m3 = u8_at p (at + 3);
  m4 = u8_at p (at + 4);
  m5 = u8_at p (at + 5);
}

-- What is shown of a name's field: the bytes up to the first NUL, `?` for what is not printable.
unfoldable pub shown : List ℕ → List ℕ
unfolding take_while
shown field =
    map (λ b. if is_ascii_graphic b || b == b' ' then b else b'?')
      (take_while (λ b. not (b == 0)) field)

unfoldable pub name_at : List ℕ → ℕ → List ℕ
unfolding shown trim
name_at p at =
    let end = min (at + name_len) (length p) in
    trim (shown (if leb at end then take (end - at) (drop at p) else []))

unfoldable pub device_name : Port → List ℕ → List ℕ
unfolding name_at
device_name Port.announce packet = name_at packet 0x0c
device_name _ packet = name_at packet 0x0b

-- core/sync/src/net.rs; `player_device` is `Player` there.
pub data DeviceKind : Type 0 where
  player_device mixer rekordbox all_in_one other : DeviceKind

unfoldable pub classify_device : List ℕ → ℕ → Option ℕ → DeviceKind
classify_device name number device_type =
    if list_eq name (codes "OPUS-QUAD")
    then all_in_one
    else if starts_with (to_ascii_lowercase name) (codes "rekordbox")
    then rekordbox
    else elim device_type [
      | some t ↦
          if t == 2
          then mixer
          else if t == 1 && (leb 1 number && leb number 6)
          then player_device
          else other
      | none ↦
          if leb 1 number && leb number 6
          then player_device
          else if leb 0x21 number
          then mixer
          else other
    ]

-- The writers. A write past the end is a panic in the source; every one here is in bounds.
unfoldable pub put_bytes : List ℕ → ℕ → List ℕ → List ℕ
put_bytes buf at [] = buf
put_bytes buf at (b ∷ bs) =
    put_bytes (set buf at (if ltb b 128 && not (b == 0) then b else b'?')) (at + 1) bs

unfoldable pub put_name : List ℕ → ℕ → List ℕ → List ℕ
unfolding put_bytes
put_name buf at name = put_bytes buf at (take name_len name)

unfoldable pub put16 : List ℕ → ℕ → ℕ → List ℕ
put16 buf at v = set (set buf at (v / 2 ^ 8 % 2 ^ 8)) (at + 1) (v % 2 ^ 8)

unfoldable pub put32 : List ℕ → ℕ → ℕ → List ℕ
put32 buf at v =
    set
      (set (set (set buf at (v / 2 ^ 24 % 2 ^ 8)) (at + 1) (v / 2 ^ 16 % 2 ^ 8)) (at + 2)
        (v / 2 ^ 8 % 2 ^ 8))
      (at + 3) (v % 2 ^ 8)
