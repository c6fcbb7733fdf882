-- ===== src/Bridge/Ws/Stream.antt =====
-- How the parser of client frames meets a stream that arrives in pieces.
use player.Common.{
  ℕ, suc, ◌+◌, ◌/◌, ◌^◌, ◌≤◌, ◌≡◌, refl, ap, ◌⊎◌, inl, inr, Bool, true, false, not, Option, none,
  some, List, [], ◌∷◌, ◌++◌, ltb, leb, ◌==◌, if◌then◌else◌, length, take, arith, length-append,
  take-append_le, drop-append_le, length-take_le, bit_and,
}
use player.Bridge.Ws.{
  max_message, Opcode, is_control, Frame, ProtocolError, Result, err, ok, refused, be16, be64,
  masked, client_header, client_len16, client_len64, client_len, client_limits, client_payload,
  after_len, after_header, parse_client_frame,
}

-- What was read, with more bytes behind the rest of the buffer.
abbrev longer : List ℕ → Result (Option (ℕ × List ℕ)) → Result (Option (ℕ × List ℕ))
longer more (err problem) = err problem
longer more (ok none) = ok none
longer more (ok (some (len, rest))) = ok (some (len, rest ++ more))

longer-if :
    (more : List ℕ) (b : Bool) (x y : Result (Option (ℕ × List ℕ)))
    → longer more (if b then x else y) ≡ (if b then longer more x else longer more y)
longer-if more true x y = refl
longer-if more false x y = refl

client_len16-append :
    (buf more : List ℕ)
    → (client_len16 buf ≡ ok none) ⊎ (client_len16 (buf ++ more) ≡ longer more (client_len16 buf))
unfolding client_len16 refused
client_len16-append [] more = inl refl
client_len16-append (h ∷ []) more = inl refl
client_len16-append (h ∷ l ∷ rest) more = inr (rw (longer-if more (ltb (be16 h l) 126)) refl)

client_len64-append :
    (buf more : List ℕ)
    → (client_len64 buf ≡ ok none) ⊎ (client_len64 (buf ++ more) ≡ longer more (client_len64 buf))
unfolding client_len64 refused
client_len64-append (a ∷ b ∷ c ∷ d ∷ e ∷ f ∷ g ∷ h ∷ rest) more = inr (
    rw (longer-if more (not (be64 a b c d e f g h / 2 ^ 63 == 0)))
      (rw (longer-if more (leb (be64 a b c d e f g h) 0xFFFF)) refl))
client_len64-append [] more = inl refl
client_len64-append (a ∷ []) more = inl refl
client_len64-append (a ∷ b ∷ []) more = inl refl
client_len64-append (a ∷ b ∷ c ∷ []) more = inl refl
client_len64-append (a ∷ b ∷ c ∷ d ∷ []) more = inl refl
client_len64-append (a ∷ b ∷ c ∷ d ∷ e ∷ []) more = inl refl
client_len64-append (a ∷ b ∷ c ∷ d ∷ e ∷ f ∷ []) more = inl refl
client_len64-append (a ∷ b ∷ c ∷ d ∷ e ∷ f ∷ g ∷ []) more = inl refl

client_len-append :
    (len7 : ℕ) (buf more : List ℕ)
    → (client_len len7 buf ≡ ok none)
      ⊎ (client_len len7 (buf ++ more) ≡ longer more (client_len len7 buf))
unfolding client_len
client_len-append len7 buf more =
    ground (arith, client_len16-append buf more, client_len64-append buf more)

-- A parse either asks for more bytes and leaves the buffer, or gives with more bytes behind the
-- buffer what it gives without them.
abbrev pub IsStable :
    List ℕ → List ℕ → Result (Option Frame) × List ℕ → Result (Option Frame) × List ℕ → Type 0
IsStable buf more short long =
    ((short.0 ≡ ok none) × (short.1 ≡ buf)) ⊎ (long ≡ (short.0, short.1 ++ more))

client_payload-IsStable :
    (buf more : List ℕ) (fin : Bool) (opcode : Opcode) (len : ℕ) (rest : List ℕ)
    → IsStable buf more
        (client_payload buf fin opcode len rest)
        (client_payload (buf ++ more) fin opcode len (rest ++ more))
unfolding client_payload
client_payload-IsStable buf more fin opcode len (a ∷ b ∷ c ∷ d ∷ rest) =
    ground
      (arith, length-append rest more, take-append_le len rest more, drop-append_le len rest more)
client_payload-IsStable buf more fin opcode len _ = inl (refl, refl)

after_len-IsStable :
    (buf more : List ℕ) (fin : Bool) (opcode : Opcode) (short long : Result (Option (ℕ × List ℕ)))
    → (short ≡ ok none) ⊎ (long ≡ longer more short)
    → IsStable buf more (after_len buf fin opcode short) (after_len (buf ++ more) fin opcode long)
unfolding after_len
after_len-IsStable buf more fin opcode short long (inl e) = rw e (inl (refl, refl))
after_len-IsStable buf more fin opcode (err problem) long (inr e) = rw e (inr refl)
after_len-IsStable buf more fin opcode (ok none) long (inr e) = inl (refl, refl)
after_len-IsStable buf more fin opcode (ok (some (len, rest))) long (inr e) =
    rw e (ground (arith, client_payload-IsStable buf more fin opcode len rest))

after_header-IsStable :
    (buf more rest : List ℕ) (b1 : ℕ) (header : Result (Bool × Opcode))
    → IsStable buf more
        (after_header buf b1 rest header)
        (after_header (buf ++ more) b1 (rest ++ more) header)
unfolding after_header
after_header-IsStable buf more rest b1 (err problem) = inr refl
after_header-IsStable buf more rest b1 (ok (fin, opcode)) =
    after_len-IsStable buf more fin opcode _ _ (client_len-append (bit_and b1 0x7F) rest more)

-- A buffer is either left as it is for want of bytes, or gives the same frame or violation whatever
-- bytes come behind it, which then stand behind what the parse leaves.
pub parse_client_frame-append :
    (buf more : List ℕ)
    → IsStable buf more (parse_client_frame buf) (parse_client_frame (buf ++ more))
unfolding parse_client_frame
parse_client_frame-append [] more = inl (refl, refl)
parse_client_frame-append (b0 ∷ []) more = inl (refl, refl)
parse_client_frame-append (b0 ∷ b1 ∷ rest) more =
    after_header-IsStable (b0 ∷ b1 ∷ rest) more rest b1 (client_header b0 b1)

-- A frame within the limits: no longer than the largest message, and a control frame is whole and
-- no longer than 125 bytes.
abbrev pub IsWithin : Frame → Type 0
IsWithin frame =
    (length frame.payload ≤ max_message)
    × ((is_control frame.opcode ≡ false) ⊎ ((frame.fin ≡ true) × (length frame.payload ≤ 125)))

abbrev pub IsBounded : Result (Option Frame) → Type 0
IsBounded (ok (some frame)) = IsWithin frame
IsBounded _ = Unit {0}

length-masked :
    (mask : List ℕ) (i : ℕ) (bytes : List ℕ) → length (masked mask i bytes) ≡ length bytes
unfolding masked
length-masked mask i [] = refl
length-masked mask i (b ∷ bytes) = ap suc (length-masked mask (i + 1) bytes)

client_limits-none :
    (fin : Bool) (opcode : Opcode) (len : ℕ)
    → client_limits fin opcode len ≡ none
    → (len ≤ max_message) × ((is_control opcode ≡ false) ⊎ ((fin ≡ true) × (len ≤ 125)))
unfolding client_limits
client_limits-none fin opcode len e = ground arith

client_payload-IsBounded :
    (buf : List ℕ) (fin : Bool) (opcode : Opcode) (len : ℕ) (rest : List ℕ)
    → client_limits fin opcode len ≡ none
    → IsBounded (client_payload buf fin opcode len rest).0
unfolding client_payload
client_payload-IsBounded buf fin opcode len (a ∷ b ∷ c ∷ d ∷ rest) e = ground (
  arith,
  client_limits-none fin opcode len e,
  length-masked (a ∷ b ∷ c ∷ d ∷ []) 0 (take len rest),
  length-take_le len rest,
)
client_payload-IsBounded buf fin opcode len [] e = tt
client_payload-IsBounded buf fin opcode len (a ∷ []) e = tt
client_payload-IsBounded buf fin opcode len (a ∷ b ∷ []) e = tt
client_payload-IsBounded buf fin opcode len (a ∷ b ∷ c ∷ []) e = tt

after_len-IsBounded :
    (buf : List ℕ) (fin : Bool) (opcode : Opcode) (read : Result (Option (ℕ × List ℕ)))
    → IsBounded (after_len buf fin opcode read).0
unfolding after_len
after_len-IsBounded buf fin opcode (err problem) = tt
after_len-IsBounded buf fin opcode (ok none) = tt
after_len-IsBounded buf fin opcode (ok (some (len, rest))) =
    within (client_limits fin opcode len) refl
  where
    within :
        (limits : Option ProtocolError)
        → client_limits fin opcode len ≡ limits
        → IsBounded
            (elim limits as (λ x. Result (Option Frame) × List ℕ) [
              | some problem ↦ (err problem, buf)
              | none ↦ client_payload buf fin opcode len rest
            ]).0
    within (some problem) e = tt
    within none e = client_payload-IsBounded buf fin opcode len rest e

after_header-IsBounded :
    (buf rest : List ℕ) (b1 : ℕ) (header : Result (Bool × Opcode))
    → IsBounded (after_header buf b1 rest header).0
unfolding after_header
after_header-IsBounded buf rest b1 (err problem) = tt
after_header-IsBounded buf rest b1 (ok (fin, opcode)) =
    after_len-IsBounded buf fin opcode (client_len (bit_and b1 0x7F) rest)

-- A frame that is parsed has a payload within the largest message, and one of control is whole and
-- has 125 bytes at most.
pub parse_client_frame-IsBounded : (buf : List ℕ) → IsBounded (parse_client_frame buf).0
unfolding parse_client_frame
parse_client_frame-IsBounded [] = tt
parse_client_frame-IsBounded (b0 ∷ []) = tt
parse_client_frame-IsBounded (b0 ∷ b1 ∷ rest) =
    after_header-IsBounded (b0 ∷ b1 ∷ rest) rest b1 (client_header b0 b1)
