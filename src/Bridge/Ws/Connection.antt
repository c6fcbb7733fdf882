-- ===== src/Bridge/Ws/Connection.antt =====
-- apps/bridge/src/server.rs: the inner loop of `websocket_loop`, which takes every whole frame from
-- the bytes received. What `handle_client_message` replies and whether a write to the socket succeeds
-- are parameters; the writes that succeed are listed in order.
pub mod Chunks
use player.Common.{
  ℕ, zero, suc, Bool, true, false, Option, none, some, List, [], ◌∷◌, ◌++◌, if◌then◌else◌, length,
}
use player.Bridge.Ws.{
  Opcode, pong, Frame, ProtocolError, Result, err, ok, parse_client_frame, encode_frame, text_frame,
  close_frame,
}
use player.Bridge.Ws.Messages.{Event, text, ping, close, nothing, Assembler, push}

pub data End : Type 0 where
  io closed idle shutdown : End
  protocol : ℕ → End

-- The connection goes on with `buf` and the assembler, or has returned.
pub data Status : Type 0 where
  open_with : List ℕ → Assembler → Status
  ended : End → Status

pub record Served : Type 0 where
  pub sent : List (List ℕ)
  pub status : Status

module _ (handle_client_message : List ℕ → Option (List ℕ)) (writes : List ℕ → Bool) where
  -- `send`, with the end that a failed write is.
  unfoldable pub send : List ℕ → List (List ℕ) × Option End
  send frame = if writes frame then (frame ∷ [], none) else ([], some io)

  -- `let _ = send(…)`, then `return`.
  unfoldable pub send_last : List ℕ → End → List (List ℕ) × Option End
  send_last frame last = ((if writes frame then frame ∷ [] else []), some last)

  unfoldable pub violated : ProtocolError → List (List ℕ) × Option End
  unfolding send_last
  violated problem = send_last (close_frame problem.code problem.reason) (protocol problem.code)

  unfoldable pub respond : Result Event → List (List ℕ) × Option End
  unfolding send send_last violated
  respond (ok (text bytes)) = elim (handle_client_message bytes) [
    | none ↦ ([], none)
    | some reply ↦ send (text_frame reply)
  ]
  respond (ok (ping payload)) = send (encode_frame pong payload)
  respond (ok (close code)) = send_last (close_frame code []) closed
  respond (ok nothing) = ([], none)
  respond (err problem) = violated problem

  abbrev pub before : List (List ℕ) → Served → Served
  before frames served = record served { sent = frames ++ served.sent }

  -- What follows the reply to a frame: the return, or the rest of the loop.
  abbrev pub after : List (List ℕ) × Option End → Served → Served
  after (frames, some last) rest = record { sent = frames; status = ended last }
  after (frames, none) rest = before frames rest

  -- The loop, with fuel for the frames in `buf`; each one takes bytes off it.
  unfoldable pub serve : ℕ → List ℕ → Assembler → Served
  unfolding respond violated
  serve zero buf assembler = record { sent = []; status = open_with buf assembler }
  serve (suc fuel) buf assembler = elim (parse_client_frame buf).0 [
    | err problem ↦ record { sent = (violated problem).0; status = ended (protocol problem.code) }
    | ok none ↦ record { sent = []; status = open_with buf assembler }
    | ok (some frame) ↦
        after (respond (push assembler frame).0)
          (serve fuel (parse_client_frame buf).1 (push assembler frame).1)
  ]

  -- The fuel that is enough: one round for each frame of at least one byte, and one more.
  unfoldable pub receive : List ℕ → Assembler → Served
  unfolding serve
  receive buf assembler = serve (suc (length buf)) buf assembler

  -- The same with the next bytes of the network, where the connection is still open.
  unfoldable pub resume : Served → List ℕ → Served
  unfolding receive
  resume served chunk = elim served.status [
    | ended last ↦ record { sent = served.sent; status = ended last }
    | open_with buf assembler ↦ before served.sent (receive (buf ++ chunk) assembler)
  ]

  -- The outer loop over the chunks that `stream.read` gives.
  unfoldable pub receive_all : Served → List (List ℕ) → Served
  unfolding resume
  receive_all served [] = served
  receive_all served (chunk ∷ chunks) = receive_all (resume served chunk) chunks
