-- ===== src/Prolink/Updates/Header.antt =====
-- The header of a packet for the ports 50001 and 50002, spelled out byte by byte.
use player.Common.{
  ℕ, ◌+◌, ◌-◌, ◌*◌, ◌/◌, ◌%◌, ◌^◌, ◌<◌, ◌≡◌, sym, ap, ◌∙◌, List, [], ◌∷◌, ◌++◌, set, replicate,
  arith,
}
use player.Common.Text.{trim}
use player.Prolink.Packets.{magic, name_len, put16, shown}
use player.Prolink.Packets.Bytes.{field, put_name-field, spelled, IsName, read_field}
use player.Prolink.Announce.{copy_at}
use player.Prolink.Announce.Header.{name_field}
use player.Prolink.Updates.{update_header}

abbrev pub header : ℕ → List ℕ → ℕ → ℕ → ℕ → ℕ → List ℕ → List ℕ
header kind name b1f subtype device len rest =
    let left = (len - 0x24) % 2 ^ 16 in
    magic
    ++ (kind
        ∷ (spelled name_len (field name_len name)
            ++ (b1f ∷ subtype ∷ device ∷ (left / 2 ^ 8 % 2 ^ 8) ∷ (left % 2 ^ 8) ∷ rest)))

pub update_header_lem :
    (kind : ℕ) (name : List ℕ) (b1f subtype device len : ℕ) (rest : List ℕ)
    → update_header (replicate 36 0 ++ rest) kind name b1f subtype device len
      ≡ header kind name b1f subtype device len rest
unfolding update_header spelled copy_at put16
update_header_lem kind name b1f subtype device len rest =
    ap
      (λ p.
        put16 (set (set (set p 0x1f b1f) 0x20 subtype) 0x21 device) 0x22 ((len - 0x24) % 2 ^ 16))
      (put_name-field (magic ++ (kind ∷ [])) (0 ∷ 0 ∷ 0 ∷ 0 ∷ 0 ∷ rest) name
        ∙ ap (λ f. (magic ++ (kind ∷ [])) ++ (f ++ (0 ∷ 0 ∷ 0 ∷ 0 ∷ 0 ∷ rest)))
            (sym (name_field name)))

pub read_name :
    (name : List ℕ) → IsName name → trim (shown (spelled name_len (field name_len name))) ≡ name
read_name name h = ap (λ f. trim (shown f)) (name_field name) ∙ read_field name h

-- The bytes that `put16` and `put32` write hold the number.
pub word16 : (v : ℕ) → v < 2 ^ 16 → v / 2 ^ 8 % 2 ^ 8 * 2 ^ 8 + v % 2 ^ 8 ≡ v
word16 v h = omega arith

pub word32 :
    (v : ℕ)
    → v < 2 ^ 32
    → v / 2 ^ 24 % 2 ^ 8 * 2 ^ 24
        + v / 2 ^ 16 % 2 ^ 8 * 2 ^ 16
        + v / 2 ^ 8 % 2 ^ 8 * 2 ^ 8
        + v % 2 ^ 8
      ≡ v
word32 v h = omega arith
