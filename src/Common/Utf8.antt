-- ===== src/Common/Utf8.antt =====
-- UTF-8, as `std::str::from_utf8`, `String::from_utf8_lossy` and `char::encode_utf8` have it: the
-- well-formed byte sequences of the Unicode Standard, table 3-7.
use Prim.Native.Nat.{ℕ, zero, suc, ◌+◌, ◌-◌, ◌*◌, ◌/◌, ◌%◌, ◌^◌}
use mathlib.Core.Bool.{Bool, false, ◌&&◌}
use mathlib.Core.Option.{Option, none, some}
use mathlib.Core.List.{List, [], ◌∷◌, ◌++◌}
use player.Common.Tests.{ltb, leb, ◌==◌, if◌then◌else◌}

-- How many continuation bytes are due, and the range of the next one.
pub record Due : Type 0 where
  pub count : ℕ
  pub low : ℕ
  pub high : ℕ

abbrev pub settled : Due
settled = record { count = 0; low = 0x80; high = 0xBF }

abbrev due : ℕ → ℕ → ℕ → Option Due
due count low high = some (record { count = count; low = low; high = high })

-- What a first byte announces.
unfoldable pub first_byte : ℕ → Option Due
first_byte b =
    if ltb b 0x80
    then some settled
    else if ltb b 0xC2
    then none
    else if ltb b 0xE0
    then due 1 0x80 0xBF
    else if b == 0xE0
    then due 2 0xA0 0xBF
    else if b == 0xED
    then due 2 0x80 0x9F
    else if ltb b 0xF0
    then due 2 0x80 0xBF
    else if b == 0xF0
    then due 3 0x90 0xBF
    else if ltb b 0xF4
    then due 3 0x80 0xBF
    else if b == 0xF4
    then due 3 0x80 0x8F
    else none

unfoldable pub next_due : ℕ → ℕ → ℕ → ℕ → Option Due
unfolding first_byte
next_due zero low high b = first_byte b
next_due (suc count) low high b = if leb low b && leb b high then due count 0x80 0xBF else none

abbrev pub next_byte : Due → ℕ → Option Due
unfolding next_due
next_byte state b = next_due state.count state.low state.high b

unfoldable pub utf8_from : Due → List ℕ → Bool
unfolding next_due
utf8_from state [] = state.count == 0
utf8_from state (b ∷ bytes) = elim (next_byte state b) [
  | none ↦ false
  | some state' ↦ utf8_from state' bytes
]

abbrev pub is_utf8 : List ℕ → Bool
is_utf8 bytes = utf8_from settled bytes

-- `String::from_utf8_lossy`: what is due, and the code point so far. A sequence that stops short is
-- one replacement character, and the byte that stopped it starts over.
abbrev pub replacement : ℕ
replacement = 0xFFFD

abbrev Reading : Type 0
Reading = Due × ℕ

unfoldable pub started : Option Due → ℕ → List ℕ × Reading
started none b = (replacement ∷ [], (settled, 0))
started (some state) b =
    if state.count == 0 then (b ∷ [], (settled, 0)) else ([], (state, b % 2 ^ (6 - state.count)))

unfoldable pub read_byte : ℕ → Reading → ℕ → List ℕ × Reading
unfolding first_byte started
read_byte zero state b = started (first_byte b) b
read_byte (suc count) (state, value) b =
    if leb state.low b && leb b state.high
    then (if count == 0
        then ((value * 64 + b % 64) ∷ [], (settled, 0))
        else ([], (record { count = count; low = 0x80; high = 0xBF }, value * 64 + b % 64)))
    else (let (chars, next) = started (first_byte b) b in (replacement ∷ chars, next))

unfoldable pub lossy_from : Reading → List ℕ → List ℕ
unfolding read_byte
lossy_from (state, value) [] = if state.count == 0 then [] else replacement ∷ []
lossy_from (state, value) (b ∷ bytes) =
    let (chars, next) = read_byte state.count (state, value) b in chars ++ lossy_from next bytes

abbrev pub from_utf8_lossy : List ℕ → List ℕ
from_utf8_lossy bytes = lossy_from (settled, 0) bytes

-- The bytes of one character.
unfoldable pub encode_utf8 : ℕ → List ℕ
encode_utf8 c =
    if ltb c 0x80
    then c ∷ []
    else if ltb c 0x800
    then (0xC0 + c / 64) ∷ (0x80 + c % 64) ∷ []
    else if ltb c 0x10000
    then (0xE0 + c / 4096) ∷ (0x80 + c / 64 % 64) ∷ (0x80 + c % 64) ∷ []
    else (0xF0 + c / 262144) ∷ (0x80 + c / 4096 % 64) ∷ (0x80 + c / 64 % 64) ∷ (0x80 + c % 64) ∷ []
