-- ===== src/Opus/Packets/RoundTrip.antt =====
-- A keep-alive is read back from its bytes.
use mathlib.Core.List.{append_assoc}
use player.Common.{
  ℕ, zero, suc, ◌+◌, ◌-◌, ◌≤◌, ◌≡◌, refl, sym, ap, ◌∙◌, true, not, List, [], ◌∷◌, ◌++◌, ltb, ◌==◌,
  length, get_or, take, drop, replicate, arith, All, length-append, length-replicate, take-length,
}
use player.Common.Text.{trim, take_while}
use player.Common.Utf8.{
  from_utf8_lossy, lossy_from, read_byte, started, first_byte, settled, encode_utf8,
}
use player.Prolink.Packets.{Ipv4Addr}
use player.Opus.Packets.{
  ok, KeepAlive, packet_kind, expect_kind, expect, read_name, fitting, padded, write_name,
  read_keep_alive, parse_keep_alive, to_bytes,
}

-- A printable ASCII character.
abbrev pub IsPrintable : ℕ → Type 0
IsPrintable b = (32 ≤ b) × (b ≤ 126)

-- A name that a field of 20 bytes can carry.
abbrev pub IsName : List ℕ → Type 0
IsName name = (length name ≤ 20) × All IsPrintable name × (trim name ≡ name)

encode_utf8_ascii : (c : ℕ) → c ≤ 126 → encode_utf8 c ≡ c ∷ []
unfolding encode_utf8
encode_utf8_ascii c h = ground arith

fitting_ascii :
    (n : ℕ) (name : List ℕ) → length name ≤ n → All IsPrintable name → fitting n name ≡ name
unfolding fitting
fitting_ascii n [] h p = refl
fitting_ascii n (c ∷ name) h ((lo, hi), p) =
    rw (encode_utf8_ascii c hi) (ground (arith, fitting_ascii (n - 1) name))

started_ascii : (c : ℕ) → c ≤ 126 → started (first_byte c) c ≡ (c ∷ [], (settled, 0))
unfolding started first_byte
started_ascii c h = let small : ltb c 0x80 ≡ true = ground arith in rw small refl

lossy_ascii : (name : List ℕ) → All IsPrintable name → from_utf8_lossy name ≡ name
unfolding lossy_from read_byte
lossy_ascii [] p = refl
lossy_ascii (c ∷ name) ((lo, hi), p) = rw (started_ascii c hi) (ap (◌∷◌ c) (lossy_ascii name p))

before_zero :
    (name : List ℕ) (n : ℕ)
    → All IsPrintable name
    → take_while (λ b. not (b == 0)) (name ++ replicate n 0) ≡ name
unfolding take_while
before_zero [] zero p = refl
before_zero [] (suc n) p = refl
before_zero (c ∷ name) n ((lo, hi), p) = ground (arith, before_zero name n p)

length-padded : (n : ℕ) (bytes : List ℕ) → length bytes ≤ n → length (padded n bytes) ≡ n
unfolding padded
length-padded n bytes h = omega (
  arith,
  length-append bytes (replicate (n - length bytes) 0),
  length-replicate {A = ℕ} (n - length bytes) 0,
)

read_name-write_name : (name : List ℕ) → IsName name → read_name (write_name 20 name) ≡ name
unfolding read_name write_name padded
read_name-write_name name (short, printable, trimmed) = rw (fitting_ascii 20 name short printable) (
    ap (λ t. trim (from_utf8_lossy t)) (before_zero name (20 - length name) printable)
    ∙ ap trim (lossy_ascii name printable)
    ∙ trimmed)

length-write_name : (name : List ℕ) → IsName name → length (write_name 20 name) ≡ 20
unfolding write_name
length-write_name name (short, printable, trimmed) =
    rw (fitting_ascii 20 name short printable) (length-padded 20 name short)

module _ (w rest : List ℕ) (n : ℕ) (e : length w ≡ n) where
  take-field : take n (w ++ rest) ≡ w
  take-field = ap (λ t. take t (w ++ rest)) (sym e) ∙ take-length w rest

get_or-past :
    (w rest : List ℕ) (n k : ℕ) → length w ≡ n → get_or (w ++ rest) (k + n) 0 ≡ get_or rest k 0
get_or-past [] rest n k e = ap (λ t. get_or rest t 0) (omega (arith, e))
get_or-past (x ∷ w) rest n k e =
    let inner : k + n ≡ suc (k + length w) = omega (arith, e) in
    ap (λ t. get_or (x ∷ (w ++ rest)) t 0) inner ∙ get_or-past w rest (length w) k refl

drop-past : (w rest : List ℕ) (n k : ℕ) → length w ≡ n → drop (k + n) (w ++ rest) ≡ drop k rest
drop-past [] rest n k e = ap (λ t. drop t rest) (omega (arith, e))
drop-past (x ∷ w) rest n k e =
    let inner : k + n ≡ suc (k + length w) = omega (arith, e) in
    ap (λ t. drop t (x ∷ (w ++ rest))) inner ∙ drop-past w rest (length w) k refl

-- A keep-alive from its name field on.
abbrev headed : List ℕ → List ℕ
headed bytes =
    0x51 ∷ 0x73 ∷ 0x70 ∷ 0x74 ∷ 0x31 ∷ 0x57 ∷ 0x6d ∷ 0x4a ∷ 0x4f ∷ 0x4c ∷ 0x06 ∷ 0x00 ∷ bytes

abbrev framed : List ℕ → List ℕ → List ℕ
framed w rest = headed (w ++ rest)

expect-framed :
    (w rest : List ℕ) → length w ≡ 20 → length rest ≡ 22 → expect (framed w rest) 0x06 0x36 ≡ ok tt
unfolding expect expect_kind packet_kind
expect-framed w rest ew er = ground (arith, length-append w rest)

regrouped : (w a b c d : List ℕ) → w ++ a ++ b ++ c ++ d ≡ w ++ (a ++ (b ++ (c ++ d)))
regrouped w a b c d =
    append_assoc (w ++ a ++ b) c d
    ∙ append_assoc (w ++ a) b (c ++ d)
    ∙ append_assoc w a (b ++ (c ++ d))

module _ (subtype number byte_25 peers : ℕ) (m0 m1 m2 m3 m4 m5 : ℕ) (ip : Ipv4Addr)
    (t0 t1 t2 t3 t4 : ℕ) where
  abbrev pub packet : List ℕ → KeepAlive
  packet name = record {
    name = name;
    subtype = subtype;
    number = number;
    byte_25 = byte_25;
    mac = m0 ∷ m1 ∷ m2 ∷ m3 ∷ m4 ∷ m5 ∷ [];
    ip = ip;
    peers = peers;
    tail = t0 ∷ t1 ∷ t2 ∷ t3 ∷ t4 ∷ [];
  }

  -- The bytes behind the name.
  abbrev behind : List ℕ
  behind =
      0x01 ∷ subtype ∷ 0x00 ∷ 0x36 ∷ number ∷ byte_25 ∷ m0 ∷ m1 ∷ m2 ∷ m3 ∷ m4 ∷ m5 ∷ ip.a ∷ ip.b
      ∷ ip.c ∷ ip.d ∷ peers ∷ t0 ∷ t1 ∷ t2 ∷ t3 ∷ t4 ∷ []

  read_keep_alive-framed :
      (w : List ℕ) → length w ≡ 20 → read_keep_alive (framed w behind) ≡ packet (read_name w)
  unfolding read_keep_alive
  read_keep_alive-framed w e =
      rw
        (
          take-field w behind 20 e,
          get_or-past w behind 20 1 e,
          get_or-past w behind 20 4 e,
          get_or-past w behind 20 5 e,
          drop-past w behind 20 6 e,
          get_or-past w behind 20 12 e,
          get_or-past w behind 20 13 e,
          get_or-past w behind 20 14 e,
          get_or-past w behind 20 15 e,
          get_or-past w behind 20 16 e,
          drop-past w behind 20 17 e,
        )
        refl

  to_bytes-framed : (name : List ℕ) → to_bytes (packet name) ≡ framed (write_name 20 name) behind
  unfolding to_bytes
  to_bytes-framed name = ap headed (
      regrouped (write_name 20 name) (0x01 ∷ subtype ∷ 0x00 ∷ 0x36 ∷ number ∷ byte_25 ∷ [])
        (m0 ∷ m1 ∷ m2 ∷ m3 ∷ m4 ∷ m5 ∷ []) (ip.a ∷ ip.b ∷ ip.c ∷ ip.d ∷ peers ∷ [])
        (t0 ∷ t1 ∷ t2 ∷ t3 ∷ t4 ∷ []))

  -- A keep-alive with a name of at most 20 printable ASCII characters, without spaces at its ends, is
  -- read back whole from its bytes.
  pub parse_keep_alive-to_bytes :
      (name : List ℕ) → IsName name → parse_keep_alive (to_bytes (packet name)) ≡ ok (packet name)
  unfolding parse_keep_alive
  parse_keep_alive-to_bytes name h =
      let w = write_name 20 name in
      ap parse_keep_alive (to_bytes-framed name)
      ∙ rw (parse_keep_alive, expect-framed w behind (length-write_name name h) refl) refl
      ∙ ap ok (read_keep_alive-framed w (length-write_name name h))
      ∙ ap (λ t. ok (packet t)) (read_name-write_name name h)
