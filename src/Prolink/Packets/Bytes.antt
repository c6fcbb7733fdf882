-- ===== src/Prolink/Packets/Bytes.antt =====
-- The name field of a packet and a buffer of known length, for the round trips of the packets.
use mathlib.Core.List.{append_assoc}
use player.Common.{
  ℕ, zero, suc, ◌+◌, ◌≤◌, ◌≡◌, refl, sym, ap, ◌∙◌, not, ◌&&◌, List, [], ◌∷◌, ◌++◌, ltb, ◌==◌,
  if◌then◌else◌, arith, length, get_or, set, take, drop, replicate, All, length-append,
}
use player.Common.Text.{trim}
use player.Prolink.Packets.{name_len, put_bytes, put_name, shown}

-- The bytes that `put_name` leaves in a field of `n` zeros.
pub field : ℕ → List ℕ → List ℕ
field zero bs = []
field (suc n) [] = 0 ∷ field n []
field (suc n) (b ∷ bs) = (if ltb b 128 && not (b == 0) then b else b'?') ∷ field n bs

pub length-field : (n : ℕ) (bs : List ℕ) → length (field n bs) ≡ n
unfolding field
length-field zero bs = refl
length-field (suc n) [] = ap suc (length-field n [])
length-field (suc n) (b ∷ bs) = ap suc (length-field n bs)

field-nil : (n : ℕ) → field n [] ≡ replicate n 0
unfolding field
field-nil zero = refl
field-nil (suc n) = ap (◌∷◌ 0) (field-nil n)

set_at_length :
    (front : List ℕ) (x v : ℕ) (back : List ℕ)
    → set (front ++ x ∷ back) (length front) v ≡ front ++ v ∷ back
set_at_length [] x v back = refl
set_at_length (y ∷ front) x v back = ap (◌∷◌ y) (set_at_length front x v back)

put_bytes-field :
    (front : List ℕ) (n : ℕ) (back bs : List ℕ)
    → put_bytes (front ++ (replicate n 0 ++ back)) (length front) (take n bs)
      ≡ front ++ (field n bs ++ back)
unfolding put_bytes field
put_bytes-field front zero back bs = refl
put_bytes-field front (suc n) back [] = rw (field-nil n) refl
put_bytes-field front (suc n) back (b ∷ bs) =
    let c = if ltb b 128 && not (b == 0) then b else b'?' in
    let longer : length front + 1 ≡ length (front ++ c ∷ []) =
      omega (arith, length-append front (c ∷ [])) in
    ap (λ t. put_bytes t (length front + 1) (take n bs))
      (set_at_length front 0 c (replicate n 0 ++ back) ∙ sym (append_assoc front (c ∷ []) _))
    ∙ ap (λ t. put_bytes ((front ++ c ∷ []) ++ (replicate n 0 ++ back)) t (take n bs)) longer
    ∙ put_bytes-field (front ++ c ∷ []) n back bs
    ∙ append_assoc front (c ∷ []) _

-- Writing a name over zeros fills its field.
pub put_name-field :
    (front back name : List ℕ)
    → put_name (front ++ (replicate name_len 0 ++ back)) (length front) name
      ≡ front ++ (field name_len name ++ back)
unfolding put_name
put_name-field front back name = put_bytes-field front name_len back name

-- A list of known length, with its elements spelled out.
unfoldable pub spelled : ℕ → List ℕ → List ℕ
spelled zero xs = []
spelled (suc n) xs = get_or xs 0 0 ∷ spelled n (drop 1 xs)

pub spelled_lem : (xs : List ℕ) → spelled (length xs) xs ≡ xs
unfolding spelled
spelled_lem [] = refl
spelled_lem (x ∷ xs) = ap (◌∷◌ x) (spelled_lem xs)

-- A printable ASCII byte.
abbrev pub IsPrintable : ℕ → Type 0
IsPrintable b = (32 ≤ b) × (b ≤ 126)

-- A name that a packet can carry: it fits the field, is printable, and has no spaces around it.
abbrev pub IsName : List ℕ → Type 0
IsName name = (length name ≤ name_len) × All IsPrintable name × (trim name ≡ name)

shown-replicate : (n : ℕ) → shown (replicate n 0) ≡ []
unfolding shown
shown-replicate zero = refl
shown-replicate (suc n) = refl

shown-field :
    (n : ℕ) (name : List ℕ) → length name ≤ n → All IsPrintable name → shown (field n name) ≡ name
unfolding shown field
shown-field zero [] h p = refl
shown-field (suc n) [] h p = refl
shown-field zero (b ∷ bs) h p = absurd (omega arith)
shown-field (suc n) (b ∷ bs) h ((lo, hi), p) = ground (arith, shown-field n bs)

-- A name is read back from its field.
pub read_field : (name : List ℕ) → IsName name → trim (shown (field name_len name)) ≡ name
read_field name (short, printable, trimmed) =
    ap trim (shown-field name_len name short printable) ∙ trimmed
