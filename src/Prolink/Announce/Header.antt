-- ===== src/Prolink/Announce/Header.antt =====
-- The header of a packet for port 50000, with its name field spelled out byte by byte.
use player.Common.{ℕ, ◌/◌, ◌%◌, ◌^◌, ◌≡◌, sym, ap, ◌∙◌, List, [], ◌∷◌, ◌++◌, set, replicate}
use player.Prolink.Packets.{magic, name_len, put16}
use player.Prolink.Packets.Bytes.{field, put_name-field, spelled, spelled_lem, length-field}
use player.Prolink.Announce.{announce_header}
use mathlib.Core.Path.{subst}

pub name_field : (name : List ℕ) → spelled name_len (field name_len name) ≡ field name_len name
name_field name =
    subst (λ n. spelled n (field name_len name) ≡ field name_len name) (length-field name_len name)
      (spelled_lem (field name_len name))

-- The header that `announce_header` writes, before the bytes `rest`.
abbrev pub header : ℕ → ℕ → List ℕ → ℕ → ℕ → List ℕ → List ℕ
header kind subtype name structure len rest =
    magic
    ++ (kind
        ∷ subtype
        ∷ (spelled name_len (field name_len name)
            ++ (0x01 ∷ structure ∷ (len % 2 ^ 16 / 2 ^ 8 % 2 ^ 8) ∷ (len % 2 ^ 16 % 2 ^ 8) ∷ rest)))

pub announce_header_lem :
    (kind subtype : ℕ) (name : List ℕ) (structure len : ℕ) (rest : List ℕ)
    → announce_header (replicate 36 0 ++ rest) kind subtype name structure len
      ≡ header kind subtype name structure len rest
unfolding announce_header spelled
announce_header_lem kind subtype name structure len rest =
    ap (λ p. put16 (set (set p 0x20 0x01) 0x21 structure) 0x22 (len % 2 ^ 16))
      (put_name-field (magic ++ (kind ∷ subtype ∷ [])) (0 ∷ 0 ∷ 0 ∷ 0 ∷ rest) name
        ∙ ap (λ f. (magic ++ (kind ∷ subtype ∷ [])) ++ (f ++ (0 ∷ 0 ∷ 0 ∷ 0 ∷ rest)))
            (sym (name_field name)))
