-- ===== src/Bridge/Tests.antt =====
-- The bridge's theorems at concrete bytes.
use mathlib.Core.List.{flatten}
use player.Common.{
  ℕ, ◌≡◌, ◌==◌, refl, Bool, true, Option, none, some, inl, List, [], ◌∷◌, ◌++◌, arith, replicate,
  length-replicate,
}
use player.Common.Text.{codes}
use player.Bridge.Base64.{encode, decode}
use player.Bridge.Base64.RoundTrip.{decode-encode}
use player.Bridge.Counts.{IpAddr, none_open, of, raise, is_full, admit, release}
use player.Bridge.Counts.Entries.{IsEquality}
use player.Bridge.Counts.Slots.{start, admitted, released, Counted, Held-Counted}
use player.Common.Utf8.{utf8_from, next_due, first_byte}
use player.Bridge.Ws.{
  Opcode, pong, Frame, ok, refused, from_bits, bits, masked, client_header, client_len,
  client_limits, client_payload, after_len, after_header, parse_client_frame, client_frame,
  server_len, encode_frame, parse_server_frame,
}
use player.Bridge.Ws.RoundTrip.{parse_client_frame-client_frame, parse_server_frame-encode_frame}
use player.Bridge.Ws.Messages.{text, ping, nothing, fresh, push, push_opcode}
use player.Bridge.Ws.Messages.Bounds.{Fits, EventFits, push-Fits}
use player.Bridge.Ws.Messages.Reassembly.{
  feed, pinged, fragment, last_fragment, fragmented, feed-fragmented, feed-fragmented_over,
}
use player.Bridge.Ws.Connection.{send, respond, serve, receive, resume, receive_all}
use player.Bridge.Ws.Connection.Chunks.{IsDrained, receive_all-flatten, receive-IsDrained}

abbrev five : List ℕ
five = 0 ∷ 255 ∷ 16 ∷ 131 ∷ 16 ∷ []

decode-encode_example : decode (encode five) ≡ some five
decode-encode_example =
    decode-encode five (omega arith, (omega arith, (omega arith, (omega arith, (omega arith, tt)))))

abbrev hello : Frame
hello = record { fin = true; opcode = Opcode.text; payload = b'h' ∷ b'i' ∷ [] }

parse_client_frame-client_frame_example :
    parse_client_frame
      (client_frame Opcode.text true (b'h' ∷ b'i' ∷ []) (7 ∷ 200 ∷ 3 ∷ 91 ∷ []) ++ 129 ∷ [])
    ≡ (ok (some hello), 129 ∷ [])
parse_client_frame-client_frame_example =
    parse_client_frame-client_frame hello 7 200 3 91 (129 ∷ []) (omega arith, inl refl)

parse_server_frame-encode_frame_example :
    parse_server_frame (encode_frame pong (1 ∷ 2 ∷ 3 ∷ []) ++ 137 ∷ [])
    ≡ (some (record { fin = true; opcode = pong; payload = 1 ∷ 2 ∷ 3 ∷ [] }), 137 ∷ [])
parse_server_frame-encode_frame_example =
    parse_server_frame-encode_frame pong (1 ∷ 2 ∷ 3 ∷ []) (137 ∷ []) (omega arith)

-- A connection that replies to no message, over a socket whose writes succeed.
abbrev silent : List ℕ → Option (List ℕ)
silent bytes = none

abbrev writable : List ℕ → Bool
writable frame = true

-- A masked ping, cut in the middle of its header and of its payload.
abbrev pieces : List (List ℕ)
pieces = (137 ∷ []) ∷ (130 ∷ 1 ∷ 2 ∷ []) ∷ (3 ∷ 4 ∷ 9 ∷ []) ∷ (9 ∷ []) ∷ []

receive_all-flatten_example :
    receive_all silent writable (receive silent writable [] fresh) pieces
    ≡ receive silent writable (137 ∷ 130 ∷ 1 ∷ 2 ∷ 3 ∷ 4 ∷ 9 ∷ 9 ∷ []) fresh
unfolding flatten
receive_all-flatten_example = receive_all-flatten silent writable [] pieces fresh

receive-IsDrained_example :
    IsDrained silent writable
      (receive silent writable (137 ∷ 130 ∷ 1 ∷ 2 ∷ 3 ∷ 4 ∷ 9 ∷ 9 ∷ 129 ∷ []) fresh).status
receive-IsDrained_example =
    receive-IsDrained silent writable (137 ∷ 130 ∷ 1 ∷ 2 ∷ 3 ∷ 4 ∷ 9 ∷ 9 ∷ 129 ∷ []) fresh

-- The pong comes once the last piece is there.
pinged_back :
    (receive_all silent writable (receive silent writable [] fresh) pieces).sent
    ≡ (138 ∷ 2 ∷ 8 ∷ 11 ∷ []) ∷ []
unfolding receive_all receive resume serve parse_client_frame client_header client_len after_len
    after_header client_limits client_payload masked respond push push_opcode encode_frame send
    from_bits bits server_len
pinged_back = refl

push-Fits_example :
    EventFits (push (record { partial = some (b'h' ∷ []) }) (last_fragment (b'i' ∷ []))).0
    × Fits (push (record { partial = some (b'h' ∷ []) }) (last_fragment (b'i' ∷ []))).1.partial
push-Fits_example =
    push-Fits (record { partial = some (b'h' ∷ []) }) (last_fragment (b'i' ∷ [])) (omega arith)
      (omega arith)

feed-fragmented_example :
    feed fresh (fragmented (b'h' ∷ []) (pinged (5 ∷ []) ∷ fragment (b'e' ∷ []) ∷ []) (b'y' ∷ []))
    ≡ ok (nothing ∷ ping (5 ∷ []) ∷ nothing ∷ text (b'h' ∷ b'e' ∷ b'y' ∷ []) ∷ [])
unfolding utf8_from next_due first_byte
feed-fragmented_example =
    feed-fragmented (b'h' ∷ []) (b'y' ∷ []) (pinged (5 ∷ []) ∷ fragment (b'e' ∷ []) ∷ [])
      (omega arith) refl

feed-fragmented_over_example :
    feed fresh (fragmented (replicate {A = ℕ} 65537 b'x') [] [])
    ≡ refused 1009 (codes "message too big")
feed-fragmented_over_example =
    feed-fragmented_over (replicate {A = ℕ} 65537 b'x') [] []
      (omega (arith, length-replicate {A = ℕ} 65537 b'x'))

-- Addresses as numbers, of which 0 is the loopback address.
abbrev addresses : IpAddr
addresses = record { Addr = ℕ; same = λ a b. a == b; is_loopback = λ a. a == 0 }

addresses-IsEquality : IsEquality addresses
addresses-IsEquality = record { reflexive = λ a. ground arith; sound = λ a b h. ground (arith, h) }

-- Two peers connect, one of them twice, and the first connection is closed.
Held-Counted_example :
    Counted addresses
      (release addresses
        (admit addresses (admit addresses (admit addresses (none_open addresses) 7).1 9).1 7).1
        7)
      (7 ∷ 9 ∷ [])
unfolding admit is_full of raise
Held-Counted_example =
    Held-Counted addresses addresses-IsEquality
      (release addresses
        (admit addresses (admit addresses (admit addresses (none_open addresses) 7).1 9).1 7).1 7)
      (7 ∷ 9 ∷ [])
      (released (7 ∷ 9 ∷ []) 7 [] (admitted 7 (admitted 9 (admitted 7 start refl) refl) refl))
