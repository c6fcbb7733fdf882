-- ===== src/Bridge/Ws/Progress.antt =====
-- A frame that is parsed takes bytes off the buffer.
use player.Common.{
  ℕ, zero, suc, ◌≤◌, ◌<◌, Bool, Option, none, some, List, [], ◌∷◌, length, drop, arith, bit_and,
}
use player.Bridge.Ws.{
  Opcode, Frame, Result, err, ok, refused, client_header, client_len16, client_len64, client_len,
  client_payload, after_len, after_header, parse_client_frame,
}

-- What is left behind a frame is shorter than the buffer.
abbrev pub Shorter : ℕ → Result (Option Frame) × List ℕ → Type 0
Shorter n (ok (some frame), rest) = length rest < n
Shorter n _ = Unit {0}

length-drop_le : (n : ℕ) (xs : List ℕ) → length (drop n xs) ≤ length xs
length-drop_le zero xs = omega arith
length-drop_le (suc n) [] = omega arith
length-drop_le (suc n) (x ∷ xs) = omega (arith, length-drop_le n xs)

client_payload-Shorter :
    (buf : List ℕ) (fin : Bool) (opcode : Opcode) (len n : ℕ) (rest : List ℕ)
    → length rest < n
    → Shorter n (client_payload buf fin opcode len rest)
unfolding client_payload
client_payload-Shorter buf fin opcode len n (a ∷ b ∷ c ∷ d ∷ rest) h =
    ground (arith, length-drop_le len rest)
client_payload-Shorter buf fin opcode len n [] h = tt
client_payload-Shorter buf fin opcode len n (a ∷ []) h = tt
client_payload-Shorter buf fin opcode len n (a ∷ b ∷ []) h = tt
client_payload-Shorter buf fin opcode len n (a ∷ b ∷ c ∷ []) h = tt

abbrev Left : ℕ → Result (Option (ℕ × List ℕ)) → Type 0
Left n (ok (some (len, rest))) = length rest < n
Left n _ = Unit {0}

client_len16-Left : (n : ℕ) (buf : List ℕ) → length buf < n → Left n (client_len16 buf)
unfolding client_len16 refused
client_len16-Left n [] h = tt
client_len16-Left n (a ∷ []) h = tt
client_len16-Left n (a ∷ b ∷ rest) h = ground arith

client_len64-Left : (n : ℕ) (buf : List ℕ) → length buf < n → Left n (client_len64 buf)
unfolding client_len64 refused
client_len64-Left n [] h = tt
client_len64-Left n (a ∷ []) h = tt
client_len64-Left n (a ∷ b ∷ []) h = tt
client_len64-Left n (a ∷ b ∷ c ∷ []) h = tt
client_len64-Left n (a ∷ b ∷ c ∷ d ∷ []) h = tt
client_len64-Left n (a ∷ b ∷ c ∷ d ∷ e ∷ []) h = tt
client_len64-Left n (a ∷ b ∷ c ∷ d ∷ e ∷ f ∷ []) h = tt
client_len64-Left n (a ∷ b ∷ c ∷ d ∷ e ∷ f ∷ g ∷ []) h = tt
client_len64-Left n (a ∷ b ∷ c ∷ d ∷ e ∷ f ∷ g ∷ i ∷ rest) h = ground arith

client_len-Left : (len7 n : ℕ) (buf : List ℕ) → length buf < n → Left n (client_len len7 buf)
unfolding client_len
client_len-Left len7 n buf h = ground (arith, client_len16-Left n buf h, client_len64-Left n buf h)

after_len-Shorter :
    (buf : List ℕ) (fin : Bool) (opcode : Opcode) (n : ℕ) (read : Result (Option (ℕ × List ℕ)))
    → Left n read
    → Shorter n (after_len buf fin opcode read)
unfolding after_len
after_len-Shorter buf fin opcode n (err problem) h = tt
after_len-Shorter buf fin opcode n (ok none) h = tt
after_len-Shorter buf fin opcode n (ok (some (len, rest))) h =
    ground (arith, client_payload-Shorter buf fin opcode len n rest h)

after_header-Shorter :
    (buf rest : List ℕ) (b1 n : ℕ) (header : Result (Bool × Opcode))
    → length rest < n
    → Shorter n (after_header buf b1 rest header)
unfolding after_header
after_header-Shorter buf rest b1 n (err problem) h = tt
after_header-Shorter buf rest b1 n (ok (fin, opcode)) h =
    after_len-Shorter buf fin opcode n _ (client_len-Left (bit_and b1 0x7F) n rest h)

pub parse_client_frame-Shorter : (buf : List ℕ) → Shorter (length buf) (parse_client_frame buf)
unfolding parse_client_frame
parse_client_frame-Shorter [] = tt
parse_client_frame-Shorter (b0 ∷ []) = tt
parse_client_frame-Shorter (b0 ∷ b1 ∷ rest) =
    after_header-Shorter (b0 ∷ b1 ∷ rest) rest b1 (length (b0 ∷ b1 ∷ rest)) (client_header b0 b1)
      (omega arith)
