-- ===== src/Bridge/Base64.antt =====
-- apps/bridge/src/base64.rs: base64 with padding. Bytes and characters are numbers; the shifted
-- operands of the source's `|` have no bits in common, so that it is a sum here.
pub mod RoundTrip
use player.Common.{
  ℕ, zero, suc, ◌+◌, ◌*◌, ◌/◌, ◌%◌, ◌^◌, Bool, true, false, not, ◌&&◌, ◌||◌, Option, none, some,
  List, [], ◌∷◌, ◌++◌, ltb, ◌==◌, if◌then◌else◌, length, get_or,
}
use player.Common.Text.{codes}

abbrev pub alphabet : List ℕ
alphabet = codes "ABCDEFGHIJKLMNOPQRSTUVWXYZabcdefghijklmnopqrstuvwxyz0123456789+/"

-- The three bytes of a chunk as one number of 24 bits.
abbrev pub joined : ℕ → ℕ → ℕ → ℕ
joined a b c = a * 2 ^ 16 + b * 2 ^ 8 + c

-- `ALPHABET[(n >> shift) as usize & 63]`.
unfoldable pub digit : ℕ → ℕ → ℕ
digit n shift = get_or alphabet (n / 2 ^ shift % 64) 0

unfoldable pub encode : List ℕ → List ℕ
unfolding digit
encode [] = []
encode (a ∷ []) = let n = joined a 0 0 in digit n 18 ∷ digit n 12 ∷ b'=' ∷ b'=' ∷ []
encode (a ∷ b ∷ []) = let n = joined a b 0 in digit n 18 ∷ digit n 12 ∷ digit n 6 ∷ b'=' ∷ []
encode (a ∷ b ∷ c ∷ rest) =
    let n = joined a b c in digit n 18 ∷ digit n 12 ∷ digit n 6 ∷ digit n 0 ∷ encode rest

-- `iter().position(|&a| a == c)`, from index `i` on.
unfoldable pub position : List ℕ → ℕ → ℕ → Option ℕ
position [] c i = none
position (a ∷ rest) c i = if a == c then some i else position rest c (i + 1)

unfoldable pub value : ℕ → Option ℕ
unfolding position
value c = position alphabet c 0

-- How many `=` end the four characters.
unfoldable pub padding : ℕ → ℕ → ℕ → ℕ → ℕ
padding p q r s =
    if s == b'='
    then if r == b'=' then if q == b'=' then if p == b'=' then 4 else 3 else 2 else 1
    else 0

-- The digits before the padding, most significant first, put behind `n`.
unfoldable pub gather : ℕ → List ℕ → Option ℕ
unfolding value
gather n [] = some n
gather n (c ∷ rest) = elim (value c) [ none ↦ none | some v ↦ gather (n * 64 + v) rest ]

-- The four characters without their padding.
abbrev pub unpadded : ℕ → ℕ → ℕ → ℕ → ℕ → List ℕ
unpadded zero p q r s = p ∷ q ∷ r ∷ s ∷ []
unpadded (suc zero) p q r s = p ∷ q ∷ r ∷ []
unpadded (suc (suc pad)) p q r s = p ∷ q ∷ []

abbrev pub has_pad : List ℕ → Bool
has_pad [] = false
has_pad (c ∷ rest) = c == b'=' || has_pad rest

-- The bytes of a number of 24 bits that the padding leaves.
abbrev pub bytes_of : ℕ → ℕ → List ℕ
bytes_of zero n = n / 2 ^ 16 % 2 ^ 8 ∷ n / 2 ^ 8 % 2 ^ 8 ∷ n % 2 ^ 8 ∷ []
bytes_of (suc zero) n = n / 2 ^ 16 % 2 ^ 8 ∷ n / 2 ^ 8 % 2 ^ 8 ∷ []
bytes_of (suc (suc pad)) n = n / 2 ^ 16 % 2 ^ 8 ∷ []

-- One round of the loop of `decode`: the bytes of four characters with `pad` of them padding, the
-- last ones or not.
unfoldable pub decode_padded : Bool → ℕ → ℕ → ℕ → ℕ → ℕ → Option (List ℕ)
unfolding gather
decode_padded last pad p q r s =
    if ltb 2 pad || (ltb 0 pad && not last) || has_pad (unpadded pad p q r s)
    then none
    else elim (gather 0 (unpadded pad p q r s)) [
      | none ↦ none
      | some n ↦ some (bytes_of pad (n * 2 ^ (6 * pad)))
    ]

unfoldable pub decode_quad : Bool → ℕ → ℕ → ℕ → ℕ → Option (List ℕ)
unfolding padding decode_padded
decode_quad last p q r s = decode_padded last (padding p q r s) p q r s

abbrev pub is_end : List ℕ → Bool
is_end [] = true
is_end (c ∷ rest) = false

abbrev pub prepend : Option (List ℕ) → Option (List ℕ) → Option (List ℕ)
prepend none later = none
prepend (some front) none = none
prepend (some front) (some back) = some (front ++ back)

unfoldable pub decode_quads : List ℕ → Option (List ℕ)
unfolding decode_quad
decode_quads (p ∷ q ∷ r ∷ s ∷ rest) =
    prepend (decode_quad (is_end rest) p q r s) (decode_quads rest)
decode_quads _ = some []

unfoldable pub decode : List ℕ → Option (List ℕ)
unfolding decode_quads
decode text = if length text % 4 == 0 then decode_quads text else none
