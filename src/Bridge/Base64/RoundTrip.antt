-- ===== src/Bridge/Base64/RoundTrip.antt =====
-- Base64 decodes what it encodes.
use player.Common.{
  ℕ, zero, suc, ◌+◌, ◌*◌, ◌/◌, ◌%◌, ◌^◌, ◌<◌, ◌≡◌, refl, ap, ◌∙◌, Bool, true, false, not, ◌&&◌,
  Option, none, some, List, [], ◌∷◌, ◌==◌, length, get_or, arith, All,
}
use native.Mathlib.Nat.{mod-lt}
use player.Bridge.Base64.{
  alphabet, joined, digit, encode, position, value, padding, gather, bytes_of, decode_padded,
  decode_quad, is_end, prepend, decode_quads, decode,
}

-- The digit is in the alphabet, where it is found again, and is not the padding.
digit_ok : ℕ → Bool
digit_ok d = elim (value (get_or alphabet d 0)) [
  | none ↦ false
  | some v ↦ v == d && not (get_or alphabet d 0 == b'=')
]

all_ok : ℕ → Bool
all_ok zero = true
all_ok (suc n) = digit_ok n && all_ok n

sixty_four : all_ok 64 ≡ true
unfolding all_ok digit_ok value position
sixty_four = refl

-- A Boolean of each digit below `n`.
ok_below : (n d : ℕ) → all_ok n ≡ true → d < n → digit_ok d ≡ true
unfolding all_ok
ok_below zero d h lt = absurd (omega arith)
ok_below (suc n) d h lt = ground (arith, ok_below n d)

value_found :
    (o : Option ℕ) (d : ℕ) (c : Bool)
    → (elim o as (λ x. Bool) [ none ↦ false | some v ↦ v == d && c ]) ≡ true
    → (o ≡ some d) × (c ≡ true)
value_found none d c h = absurd (cc h)
value_found (some v) d c h = ground arith

not-true : (b : Bool) → not b ≡ true → b ≡ false
not-true true h = absurd (cc h)
not-true false h = refl

digit-value :
    (n shift : ℕ)
    → (value (digit n shift) ≡ some (n / 2 ^ shift % 64)) × ((digit n shift == b'=') ≡ false)
unfolding digit digit_ok
digit-value n shift =
    let (found, clear) =
      value_found _ _ _
        (ok_below 64 (n / 2 ^ shift % 64) sixty_four (mod-lt (n / 2 ^ shift) (omega arith))) in
    (found, not-true _ clear)

-- A number of 24 bits from its four digits.
digits_lem :
    (n : ℕ)
    → n < 2 ^ 24
    → ((n / 2 ^ 18 % 64 * 64 + n / 2 ^ 12 % 64) * 64 + n / 2 ^ 6 % 64) * 64 + n / 2 ^ 0 % 64 ≡ n
digits_lem n h = omega arith

joined-bytes :
    (a b c : ℕ) → a < 256 → b < 256 → c < 256 → bytes_of 0 (joined a b c) ≡ a ∷ b ∷ c ∷ []
joined-bytes a b c ha hb hc =
    let high : joined a b c / 2 ^ 16 % 2 ^ 8 ≡ a = omega arith in
    let middle : joined a b c / 2 ^ 8 % 2 ^ 8 ≡ b = omega arith in
    let low : joined a b c % 2 ^ 8 ≡ c = omega arith in λ i. high i ∷ middle i ∷ low i ∷ []

two_bytes : (a b : ℕ) → a < 256 → b < 256 → bytes_of 1 (joined a b 0) ≡ a ∷ b ∷ []
two_bytes a b ha hb =
    let high : joined a b 0 / 2 ^ 16 % 2 ^ 8 ≡ a = omega arith in
    let middle : joined a b 0 / 2 ^ 8 % 2 ^ 8 ≡ b = omega arith in λ i. high i ∷ middle i ∷ []

-- A character of the alphabet, with its digit.
abbrev Digit : ℕ → ℕ → Type 0
Digit c v = (value c ≡ some v) × ((c == b'=') ≡ false)

pad_none : (p q r s v : ℕ) → Digit s v → padding p q r s ≡ 0
unfolding padding
pad_none p q r s v (_, clear) = rw (clear, padding) refl

pad_one : (p q r v : ℕ) → Digit r v → padding p q r b'=' ≡ 1
unfolding padding
pad_one p q r v (_, clear) = rw (clear, padding) refl

pad_two : (p q v : ℕ) → Digit q v → padding p q b'=' b'=' ≡ 2
unfolding padding
pad_two p q v (_, clear) = rw (clear, padding) refl

quad_full :
    (last : Bool) (p q r s v₁ v₂ v₃ v₄ : ℕ)
    → Digit p v₁
    → Digit q v₂
    → Digit r v₃
    → Digit s v₄
    → decode_quad last p q r s ≡ some (bytes_of 0 (((v₁ * 64 + v₂) * 64 + v₃) * 64 + v₄))
unfolding decode_quad decode_padded gather
quad_full last p q r s v₁ v₂ v₃ v₄ hp hq hr hs =
    let same : ((((0 * 64 + v₁) * 64 + v₂) * 64 + v₃) * 64 + v₄) * 2 ^ (6 * 0)
        ≡ ((v₁ * 64 + v₂) * 64 + v₃) * 64 + v₄ =
      omega arith in
    ap (λ k. decode_padded last k p q r s) (pad_none p q r s v₄ hs)
    ∙ rw (hp.1, hq.1, hr.1, hs.1, decode_padded)
        (rw (hp.0, hq.0, hr.0, hs.0, gather) (λ i. some (bytes_of 0 (same i))))

quad_one :
    (p q r v₁ v₂ v₃ : ℕ)
    → Digit p v₁
    → Digit q v₂
    → Digit r v₃
    → decode_quad true p q r b'=' ≡ some (bytes_of 1 (((v₁ * 64 + v₂) * 64 + v₃) * 64))
unfolding decode_quad decode_padded gather
quad_one p q r v₁ v₂ v₃ hp hq hr =
    let same : (((0 * 64 + v₁) * 64 + v₂) * 64 + v₃) * 2 ^ (6 * 1)
        ≡ ((v₁ * 64 + v₂) * 64 + v₃) * 64 =
      omega arith in
    ap (λ k. decode_padded true k p q r b'=') (pad_one p q r v₃ hr)
    ∙ rw (hp.1, hq.1, hr.1, decode_padded)
        (rw (hp.0, hq.0, hr.0, gather) (λ i. some (bytes_of 1 (same i))))

quad_two :
    (p q v₁ v₂ : ℕ)
    → Digit p v₁
    → Digit q v₂
    → decode_quad true p q b'=' b'=' ≡ some (bytes_of 2 ((v₁ * 64 + v₂) * 4096))
unfolding decode_quad decode_padded gather
quad_two p q v₁ v₂ hp hq =
    let same : ((0 * 64 + v₁) * 64 + v₂) * 2 ^ (6 * 2) ≡ (v₁ * 64 + v₂) * 4096 = omega arith in
    ap (λ k. decode_padded true k p q b'=' b'=') (pad_two p q v₂ hq)
    ∙ rw (hp.1, hq.1, decode_padded) (rw (hp.0, hq.0, gather) (λ i. some (bytes_of 2 (same i))))

abbrev pub IsByte : ℕ → Type 0
IsByte b = b < 256

decode_quads-encode : (bytes : List ℕ) → All IsByte bytes → decode_quads (encode bytes) ≡ some bytes
unfolding decode_quads encode
decode_quads-encode [] h = refl
decode_quads-encode (a ∷ []) (ha, _) =
    let n = joined a 0 0 in
    let e : (n / 2 ^ 18 % 64 * 64 + n / 2 ^ 12 % 64) * 4096 / 2 ^ 16 % 2 ^ 8 ≡ a = omega arith in
    ap (λ o. prepend o (some []))
      (quad_two _ _ _ _ (digit-value n 18) (digit-value n 12) ∙ (λ i. some (e i ∷ [])))
decode_quads-encode (a ∷ b ∷ []) (ha, (hb, _)) =
    let n = joined a b 0 in
    let whole : ((n / 2 ^ 18 % 64 * 64 + n / 2 ^ 12 % 64) * 64 + n / 2 ^ 6 % 64) * 64 ≡ n =
      omega arith in
    ap (λ o. prepend o (some []))
      (quad_one _ _ _ _ _ _ (digit-value n 18) (digit-value n 12) (digit-value n 6)
        ∙ (λ i. some (bytes_of 1 (whole i)))
        ∙ (λ i. some (two_bytes a b ha hb i)))
decode_quads-encode (a ∷ b ∷ c ∷ rest) (ha, (hb, (hc, h))) =
    let n = joined a b c in
    ap
      (λ o.
        prepend
          (decode_quad (is_end (encode rest)) (digit n 18) (digit n 12) (digit n 6) (digit n 0)) o)
      (decode_quads-encode rest h)
    ∙ ap (λ o. prepend o (some rest))
        (quad_full _ _ _ _ _ _ _ _ _ (digit-value n 18) (digit-value n 12) (digit-value n 6)
            (digit-value n 0)
          ∙ (λ i. some (bytes_of 0 (digits_lem n (omega arith) i)))
          ∙ (λ i. some (joined-bytes a b c ha hb hc i)))

length-encode : (bytes : List ℕ) → length (encode bytes) % 4 ≡ 0
unfolding encode
length-encode [] = refl
length-encode (a ∷ []) = refl
length-encode (a ∷ b ∷ []) = refl
length-encode (a ∷ b ∷ c ∷ rest) = omega (arith, length-encode rest)

-- What `encode` makes of any bytes, `decode` reads back.
pub decode-encode : (bytes : List ℕ) → All IsByte bytes → decode (encode bytes) ≡ some bytes
unfolding decode
decode-encode bytes h = rw (length-encode bytes, decode) (decode_quads-encode bytes h)
