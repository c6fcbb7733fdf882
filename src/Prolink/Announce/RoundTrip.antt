-- ===== src/Prolink/Announce/RoundTrip.antt =====
-- What is built for port 50000 is parsed back.
use player.Common.{
  ℕ, ◌≡◌, ◌≢◌, refl, ap, ◌∙◌, Bool, true, false, none, some, List, ◌==◌, if◌then◌else◌, replicate,
  arith,
}
use player.Common.Text.{trim}
use player.Prolink.Packets.{
  is_foreign, check, ok, Ipv4Addr, Mac, ip_at, mac_at, name_at, name_len, keep_alive_len, shown,
}
use player.Prolink.Packets.Bytes.{field, spelled, IsName, read_field}
use player.Prolink.Announce.{
  KeepAlive, parse_number_claim, parse_number_in_use, parse_assignment, parse_assignment_finished,
  build_claim_stage1, build_claim_stage2, build_claim_stage3, build_assignment_request,
  build_number_in_use, build_assignment, build_assignment_finished, parse_keep_alive,
  build_keep_alive, announce_packet,
}
use player.Prolink.Announce.Header.{announce_header_lem, name_field}

-- The name in a header is read back.
read_name :
    (name : List ℕ) → IsName name → trim (shown (spelled name_len (field name_len name))) ≡ name
read_name name h = ap (λ f. trim (shown f)) (name_field name) ∙ read_field name h

flag_two : (b : Bool) → ((if b then 0x02 else 0x01) == 2) ≡ b
flag_two true = refl
flag_two false = refl

flag_cdj3000 : (b : Bool) → ((if b then 0x64 else 0x00) == 0x64) ≡ b
flag_cdj3000 true = refl
flag_cdj3000 false = refl

flag_auto : (b : Bool) → ((if b then 0x01 else 0x02) == 1) ≡ b
flag_auto true = refl
flag_auto false = refl

-- A keep-alive whose name is printable ASCII, without spaces around it and of 20 bytes at most, is
-- read back whole.
pub parse-build_keep_alive :
    (k : KeepAlive) → IsName k.name → parse_keep_alive (build_keep_alive k) ≡ ok k
unfolding parse_keep_alive build_keep_alive announce_packet check is_foreign mac_at ip_at name_at
    spelled
parse-build_keep_alive k h =
    rw (announce_header_lem 0x06 0 k.name 0x02 keep_alive_len (replicate 18 0)) (λ i. ok (record k {
      name = read_name k.name h i;
      first_on_network = flag_two k.first_on_network i;
      cdj3000_compatible = flag_cdj3000 k.cdj3000_compatible i;
    }))

-- A first-stage claim is read back with its name, MAC address and counter, for a name that is
-- printable ASCII, without spaces around it and of 20 bytes at most.
pub parse-build_claim_stage1 :
    (name : List ℕ) (mac : Mac) (counter : ℕ)
    → IsName name
    → parse_number_claim (build_claim_stage1 name mac counter)
      ≡ ok (record {
        stage = 1;
        name = name;
        counter = counter;
        number = none;
        ip = none;
        mac = some mac;
        auto_assign = none;
        assignment_request = false;
      })
unfolding parse_number_claim build_claim_stage1 announce_packet check is_foreign mac_at ip_at
    name_at spelled
parse-build_claim_stage1 name mac counter h =
    rw (announce_header_lem 0x00 0 name 0x03 0x2c (replicate 8 0)) (λ i. ok (record {
      stage = 1;
      name = read_name name h i;
      counter = counter;
      number = none;
      ip = none;
      mac = some mac;
      auto_assign = none;
      assignment_request = false;
    }))

number_present : (n : ℕ) → n ≢ 0 → (if n == 0 then none else some n) ≡ some n
number_present n h = ground arith

-- A second-stage claim for a number that is not 0 is read back with all its fields, for a name that
-- is printable ASCII, without spaces around it and of 20 bytes at most.
pub parse-build_claim_stage2 :
    (name : List ℕ) (ip : Ipv4Addr) (mac : Mac) (number counter : ℕ) (auto_assign : Bool)
    → IsName name
    → number ≢ 0
    → parse_number_claim (build_claim_stage2 name ip mac number counter auto_assign)
      ≡ ok (record {
        stage = 2;
        name = name;
        counter = counter;
        number = some number;
        ip = some ip;
        mac = some mac;
        auto_assign = some auto_assign;
        assignment_request = false;
      })
unfolding parse_number_claim build_claim_stage2 announce_packet check is_foreign mac_at ip_at
    name_at spelled
parse-build_claim_stage2 name ip mac number counter auto_assign h nonzero =
    rw (announce_header_lem 0x02 0 name 0x03 0x32 (replicate 14 0)) (λ i. ok (record {
      stage = 2;
      name = read_name name h i;
      counter = counter;
      number = number_present number nonzero i;
      ip = some ip;
      mac = some mac;
      auto_assign = some (flag_auto auto_assign i);
      assignment_request = false;
    }))

-- A final-stage claim is read back with its name, number and counter, for a name that is printable
-- ASCII, without spaces around it and of 20 bytes at most.
pub parse-build_claim_stage3 :
    (name : List ℕ) (number counter : ℕ)
    → IsName name
    → parse_number_claim (build_claim_stage3 name number counter)
      ≡ ok (record {
        stage = 3;
        name = name;
        counter = counter;
        number = some number;
        ip = none;
        mac = none;
        auto_assign = none;
        assignment_request = false;
      })
unfolding parse_number_claim build_claim_stage3 announce_packet check is_foreign mac_at ip_at
    name_at spelled
parse-build_claim_stage3 name number counter h =
    rw (announce_header_lem 0x04 0 name 0x03 0x26 (replicate 2 0)) (λ i. ok (record {
      stage = 3;
      name = read_name name h i;
      counter = counter;
      number = some number;
      ip = none;
      mac = none;
      auto_assign = none;
      assignment_request = false;
    }))

-- A request for an assignment is read back as a second-stage claim that is a request, without a
-- number and with counter 1, for a name that is printable ASCII, without spaces around it and of 20
-- bytes at most.
pub parse-build_assignment_request :
    (name : List ℕ) (ip : Ipv4Addr) (mac : Mac) (auto_assign : Bool)
    → IsName name
    → parse_number_claim (build_assignment_request name ip mac auto_assign)
      ≡ ok (record {
        stage = 2;
        name = name;
        counter = 1;
        number = none;
        ip = some ip;
        mac = some mac;
        auto_assign = some auto_assign;
        assignment_request = true;
      })
unfolding parse_number_claim build_assignment_request announce_packet check is_foreign mac_at ip_at
    name_at spelled
parse-build_assignment_request name ip mac auto_assign h =
    rw (announce_header_lem 0x02 0x01 name 0x02 0x32 (replicate 14 0)) (λ i. ok (record {
      stage = 2;
      name = read_name name h i;
      counter = 1;
      number = none;
      ip = some ip;
      mac = some mac;
      auto_assign = some (flag_auto auto_assign i);
      assignment_request = true;
    }))

-- A defence of a number is read back whole, and a mixer's assignment and the end of one with their
-- number, for a name that is printable ASCII, without spaces around it and of 20 bytes at most.
pub parse-build_answers :
    (name : List ℕ) (number : ℕ) (ip : Ipv4Addr)
    → IsName name
    → (parse_number_in_use (build_number_in_use name number ip)
        ≡ ok (record { name = name; number = number; ip = ip }))
      × (parse_assignment (build_assignment name number) ≡ ok number)
      × (parse_assignment_finished (build_assignment_finished name number) ≡ ok number)
unfolding parse_number_in_use build_number_in_use parse_assignment build_assignment
    parse_assignment_finished build_assignment_finished announce_packet check is_foreign mac_at
    ip_at name_at spelled
parse-build_answers name number ip h = (
  rw (announce_header_lem 0x08 0 name 0x02 0x29 (replicate 5 0))
      (λ i. ok (record { name = read_name name h i; number = number; ip = ip })),
  rw (announce_header_lem 0x03 0x01 name 0x02 0x27 (replicate 3 0)) refl,
  rw (announce_header_lem 0x05 0 name 0x02 0x26 (replicate 2 0)) refl,
)
