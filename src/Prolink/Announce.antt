-- ===== src/Prolink/Announce.antt =====
-- core/sync/src/prolink/packets.rs, port 50000: announcements and number negotiation, parsed and
-- built. A name is the list of its bytes.
pub mod Header
pub mod RoundTrip
pub mod Errors
use player.Common.{
  ℕ, zero, suc, ◌+◌, ◌%◌, ◌^◌, Bool, true, false, not, Option, none, some, List, [], ◌∷◌, ◌==◌,
  if◌then◌else◌, set, replicate,
}
use player.Prolink.Packets.{
  magic, kind_offset, keep_alive_len, u8_at, is_foreign, ParseError, not_pro_dj_link, wrong_kind,
  Result, ok, err, ◌>>=◌, ◌>>◌, check, Ipv4Addr, Mac, ip_at, mac_at, name_at, DeviceKind,
  classify_device, put_name, put16,
}

pub record KeepAlive : Type 0 where
  pub number : ℕ
  pub name : List ℕ
  pub mac : Mac
  pub ip : Ipv4Addr
  pub peers : ℕ
  pub device_type : ℕ
  pub first_on_network : Bool
  pub cdj3000_compatible : Bool

unfoldable pub kind : KeepAlive → DeviceKind
kind k = classify_device k.name k.number (some k.device_type)

unfoldable pub parse_keep_alive : List ℕ → Result KeepAlive
parse_keep_alive packet = do
  check packet 0x06 keep_alive_len
  ok (record {
    number = u8_at packet 0x24;
    name = name_at packet 0x0c;
    mac = mac_at packet 0x26;
    ip = ip_at packet 0x2c;
    peers = u8_at packet 0x30;
    device_type = u8_at packet 0x34;
    first_on_network = u8_at packet 0x25 == 2;
    cdj3000_compatible = u8_at packet 0x35 == 0x64;
  })

pub record NumberClaim : Type 0 where
  pub stage : ℕ
  pub name : List ℕ
  pub counter : ℕ
  pub number : Option ℕ
  pub ip : Option Ipv4Addr
  pub mac : Option Mac
  pub auto_assign : Option Bool
  pub assignment_request : Bool

claim_stage1 : List ℕ → Result NumberClaim
claim_stage1 packet = do
  check packet 0x00 0x2c
  ok (record {
    stage = 1;
    name = name_at packet 0x0c;
    counter = u8_at packet 0x24;
    number = none;
    ip = none;
    mac = some (mac_at packet 0x26);
    auto_assign = none;
    assignment_request = false;
  })

claim_stage2 : List ℕ → Result NumberClaim
claim_stage2 packet = do
  check packet 0x02 0x32
  let number = u8_at packet 0x2e
  ok (record {
    stage = 2;
    name = name_at packet 0x0c;
    counter = u8_at packet 0x2f;
    number = if number == 0 then none else some number;
    ip = some (ip_at packet 0x24);
    mac = some (mac_at packet 0x28);
    auto_assign = some (u8_at packet 0x31 == 1);
    assignment_request = u8_at packet 0x0b == 1;
  })

claim_stage3 : List ℕ → Result NumberClaim
claim_stage3 packet = do
  check packet 0x04 0x26
  ok (record {
    stage = 3;
    name = name_at packet 0x0c;
    counter = u8_at packet 0x25;
    number = some (u8_at packet 0x24);
    ip = none;
    mac = none;
    auto_assign = none;
    assignment_request = false;
  })

unfoldable pub parse_number_claim : List ℕ → Result NumberClaim
unfolding claim_stage1 claim_stage2 claim_stage3
parse_number_claim packet =
    if is_foreign packet
    then err not_pro_dj_link
    else let found = u8_at packet kind_offset in
      if found == 0x00
      then claim_stage1 packet
      else if found == 0x02
      then claim_stage2 packet
      else if found == 0x04
      then claim_stage3 packet
      else err (wrong_kind 0x02 found)

pub record NumberInUse : Type 0 where
  pub name : List ℕ
  pub number : ℕ
  pub ip : Ipv4Addr

unfoldable pub parse_number_in_use : List ℕ → Result NumberInUse
parse_number_in_use packet = do
  check packet 0x08 0x29
  ok (record { name = name_at packet 0x0c; number = u8_at packet 0x24; ip = ip_at packet 0x25 })

unfoldable pub parse_assignment : List ℕ → Result ℕ
parse_assignment packet = do check packet 0x03 0x26; ok (u8_at packet 0x24)

unfoldable pub parse_assignment_finished : List ℕ → Result ℕ
parse_assignment_finished packet = do check packet 0x05 0x26; ok (u8_at packet 0x24)

-- `p[at..].copy_from_slice(bytes)`.
unfoldable pub copy_at : List ℕ → ℕ → List ℕ → List ℕ
copy_at buf at [] = buf
copy_at buf at (b ∷ bs) = copy_at (set buf at b) (at + 1) bs

abbrev pub octets : Ipv4Addr → List ℕ
octets ip = ip.a ∷ ip.b ∷ ip.c ∷ ip.d ∷ []

abbrev pub mac_bytes : Mac → List ℕ
mac_bytes m = m.m0 ∷ m.m1 ∷ m.m2 ∷ m.m3 ∷ m.m4 ∷ m.m5 ∷ []

-- `announce_packet` over the buffer of zeros that it allocates.
unfoldable pub announce_header : List ℕ → ℕ → ℕ → List ℕ → ℕ → ℕ → List ℕ
unfolding copy_at put16
announce_header zeros kind subtype name structure len =
    let head = set (set (copy_at zeros 0 magic) 0x0a kind) 0x0b subtype in
    put16 (set (set (put_name head 0x0c name) 0x20 0x01) 0x21 structure) 0x22 (len % 2 ^ 16)

unfoldable pub announce_packet : ℕ → ℕ → List ℕ → ℕ → ℕ → List ℕ
announce_packet kind subtype name structure len =
    announce_header (replicate len 0) kind subtype name structure len

unfoldable pub build_hello : List ℕ → List ℕ
build_hello name = set (set (announce_packet 0x0a 0 name 0x04 0x26) 0x24 0x01) 0x25 0x40

unfoldable pub build_claim_stage1 : List ℕ → Mac → ℕ → List ℕ
unfolding copy_at
build_claim_stage1 name mac counter =
    copy_at (set (set (announce_packet 0x00 0 name 0x03 0x2c) 0x24 counter) 0x25 0x01) 0x26
      (mac_bytes mac)

-- `if auto_assign { 0x01 } else { 0x02 }`.
abbrev assign_byte : Bool → ℕ
assign_byte auto_assign = if auto_assign then 0x01 else 0x02

unfoldable pub build_claim_stage2 : List ℕ → Ipv4Addr → Mac → ℕ → ℕ → Bool → List ℕ
unfolding copy_at
build_claim_stage2 name ip mac number counter auto_assign =
    let p = announce_packet 0x02 0 name 0x03 0x32 in
    let addressed = copy_at (copy_at p 0x24 (octets ip)) 0x28 (mac_bytes mac) in
    set (set (set (set addressed 0x2e number) 0x2f counter) 0x30 0x01) 0x31
      (assign_byte auto_assign)

unfoldable pub build_claim_stage3 : List ℕ → ℕ → ℕ → List ℕ
build_claim_stage3 name number counter =
    set (set (announce_packet 0x04 0 name 0x03 0x26) 0x24 number) 0x25 counter

unfoldable pub build_assignment_request : List ℕ → Ipv4Addr → Mac → Bool → List ℕ
unfolding copy_at
build_assignment_request name ip mac auto_assign =
    let p = announce_packet 0x02 0x01 name 0x02 0x32 in
    let addressed = copy_at (copy_at p 0x24 (octets ip)) 0x28 (mac_bytes mac) in
    set (set (set addressed 0x2f 0x01) 0x30 0x01) 0x31 (assign_byte auto_assign)

unfoldable pub build_assignment_intention : List ℕ → Ipv4Addr → Mac → List ℕ
unfolding copy_at
build_assignment_intention name ip mac =
    let p = announce_packet 0x01 0 name 0x02 0x2f in
    set (copy_at (copy_at p 0x24 (octets ip)) 0x28 (mac_bytes mac)) 0x2e 0x01

unfoldable pub build_assignment : List ℕ → ℕ → List ℕ
build_assignment name number =
    set (set (announce_packet 0x03 0x01 name 0x02 0x27) 0x24 number) 0x25 0x01

unfoldable pub build_assignment_finished : List ℕ → ℕ → List ℕ
build_assignment_finished name sender =
    set (set (announce_packet 0x05 0 name 0x02 0x26) 0x24 sender) 0x25 0x01

unfoldable pub build_number_in_use : List ℕ → ℕ → Ipv4Addr → List ℕ
unfolding copy_at
build_number_in_use name number ip =
    copy_at (set (announce_packet 0x08 0 name 0x02 0x29) 0x24 number) 0x25 (octets ip)

unfoldable pub build_keep_alive : KeepAlive → List ℕ
unfolding copy_at
build_keep_alive k =
    let p = announce_packet 0x06 0 k.name 0x02 keep_alive_len in
    let first = set (set p 0x24 k.number) 0x25 (if k.first_on_network then 0x02 else 0x01) in
    let addressed = copy_at (copy_at first 0x26 (mac_bytes k.mac)) 0x2c (octets k.ip) in
    set (set (set addressed 0x30 k.peers) 0x34 k.device_type) 0x35
      (if k.cdj3000_compatible then 0x64 else 0x00)
