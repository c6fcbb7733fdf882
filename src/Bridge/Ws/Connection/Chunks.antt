-- ===== src/Bridge/Ws/Connection/Chunks.antt =====
-- What a connection does does not depend on how the network cuts the bytes into pieces.
use mathlib.Core.List.{append_assoc, append-nil, flatten}
use player.Common.{
  ℕ, zero, suc, ◌<◌, ◌≡◌, refl, sym, ap, ◌∙◌, inl, inr, Bool, Option, none, some, List, [], ◌∷◌,
  ◌++◌, length, arith, length-append,
}
use player.Bridge.Ws.{Frame, ProtocolError, Result, err, ok, parse_client_frame}
use player.Bridge.Ws.Progress.{Shorter, parse_client_frame-Shorter}
use player.Bridge.Ws.Stream.{IsStable, parse_client_frame-append}
use player.Bridge.Ws.Messages.{Assembler, push}
use player.Bridge.Ws.Connection.{
  End, protocol, Status, open_with, ended, Served, respond, violated, before, after, serve, receive,
  resume, receive_all,
}

module _ (handle_client_message : List ℕ → Option (List ℕ)) (writes : List ℕ → Bool) where
  abbrev served : ℕ → List ℕ → Assembler → Served
  served = serve handle_client_message writes

  abbrev replied : Assembler → Frame → List (List ℕ) × Option End
  replied assembler frame = respond handle_client_message writes (push assembler frame).0

  -- What one round does for each result of the parser.
  serve-err :
      (k : ℕ) (buf rest : List ℕ) (assembler : Assembler) (problem : ProtocolError)
      → parse_client_frame buf ≡ (err problem, rest)
      → served (suc k) buf assembler ≡ record {
        sent = (violated handle_client_message writes problem).0;
        status = ended (protocol problem.code);
      }
  unfolding serve
  serve-err k buf rest assembler problem e = rw (serve, e) refl

  serve-none :
      (k : ℕ) (buf rest : List ℕ) (assembler : Assembler)
      → parse_client_frame buf ≡ (ok none, rest)
      → served (suc k) buf assembler ≡ record { sent = []; status = open_with buf assembler }
  unfolding serve
  serve-none k buf rest assembler e = rw (serve, e) refl

  serve-frame :
      (k : ℕ) (buf rest : List ℕ) (assembler : Assembler) (frame : Frame)
      → parse_client_frame buf ≡ (ok (some frame), rest)
      → served (suc k) buf assembler
        ≡ after handle_client_message writes
            (replied assembler frame)
            (served k rest (push assembler frame).1)
  unfolding serve
  serve-frame k buf rest assembler frame e = rw (serve, e, e) refl

  -- Fuel past the bytes of the buffer changes nothing, given so for what is behind a frame.
  fuel_by_parse :
      (m n : ℕ) (buf : List ℕ) (assembler : Assembler) (parsed : Result (Option Frame) × List ℕ)
      → ((rest : List ℕ) (next : Assembler)
          → length rest < length buf
          → served m rest next ≡ served n rest next)
      → parse_client_frame buf ≡ parsed
      → Shorter (length buf) parsed
      → served (suc m) buf assembler ≡ served (suc n) buf assembler
  fuel_by_parse m n buf assembler (err problem, rest) later e h =
      serve-err m buf rest assembler problem e ∙ sym (serve-err n buf rest assembler problem e)
  fuel_by_parse m n buf assembler (ok none, rest) later e h =
      serve-none m buf rest assembler e ∙ sym (serve-none n buf rest assembler e)
  fuel_by_parse m n buf assembler (ok (some frame), rest) later e h =
      serve-frame m buf rest assembler frame e
      ∙ ap (after handle_client_message writes (replied assembler frame))
          (later rest (push assembler frame).1 h)
      ∙ sym (serve-frame n buf rest assembler frame e)

  serve_fuel :
      (m n : ℕ) (buf : List ℕ) (assembler : Assembler)
      → length buf < m
      → length buf < n
      → served m buf assembler ≡ served n buf assembler
  serve_fuel zero n buf assembler hm hn = absurd (omega arith)
  serve_fuel (suc m) zero buf assembler hm hn = absurd (omega arith)
  serve_fuel (suc m) (suc n) buf assembler hm hn =
      fuel_by_parse m n buf assembler (parse_client_frame buf)
        (λ rest next h. serve_fuel m n rest next (omega arith) (omega arith)) refl
        (parse_client_frame-Shorter buf)

  abbrev resumed : Served → List ℕ → Served
  resumed = resume handle_client_message writes

  resume-before_status :
      (frames sent : List (List ℕ)) (status : Status) (chunk : List ℕ)
      → resumed (record { sent = frames ++ sent; status = status }) chunk
        ≡ before handle_client_message writes frames
            (resumed (record { sent = sent; status = status }) chunk)
  unfolding resume
  resume-before_status frames sent (ended last) chunk = refl
  resume-before_status frames sent (open_with buf assembler) chunk =
      let later = receive handle_client_message writes (buf ++ chunk) assembler in
      ap (λ t. record { sent = t; status = later.status }) (append_assoc frames sent later.sent)

  resume-before :
      (frames : List (List ℕ)) (rest : Served) (chunk : List ℕ)
      → resumed (before handle_client_message writes frames rest) chunk
        ≡ before handle_client_message writes frames (resumed rest chunk)
  resume-before frames rest chunk = resume-before_status frames rest.sent rest.status chunk

  resume-after :
      (reply : List (List ℕ) × Option End) (rest : Served) (chunk : List ℕ)
      → resumed (after handle_client_message writes reply rest) chunk
        ≡ after handle_client_message writes reply (resumed rest chunk)
  unfolding resume
  resume-after (frames, some last) rest chunk = refl
  resume-after (frames, none) rest chunk = resume-before frames rest chunk

  append_by_parse :
      (m n : ℕ) (buf chunk : List ℕ) (assembler : Assembler)
      (parsed whole : Result (Option Frame) × List ℕ)
      → ((rest : List ℕ) (next : Assembler)
          → length rest < length buf
          → served n (rest ++ chunk) next ≡ resumed (served m rest next) chunk)
      → length (buf ++ chunk) < suc n
      → parse_client_frame buf ≡ parsed
      → parse_client_frame (buf ++ chunk) ≡ whole
      → Shorter (length buf) parsed
      → IsStable buf chunk parsed whole
      → served (suc n) (buf ++ chunk) assembler ≡ resumed (served (suc m) buf assembler) chunk
  unfolding resume receive
  append_by_parse m n buf chunk assembler (ok none, rest) whole later long e e' h stable =
      serve_fuel (suc n) (suc (length (buf ++ chunk))) (buf ++ chunk) assembler long (omega arith)
      ∙ sym (ap (λ t. resumed t chunk) (serve-none m buf rest assembler e))
  append_by_parse m n buf chunk assembler (err problem, rest) whole later long e e' h
        (inl (no_more, same)) =
      absurd (cc no_more)
  append_by_parse m n buf chunk assembler (ok (some frame), rest) whole later long e e' h
        (inl (no_more, same)) =
      absurd (cc no_more)
  append_by_parse m n buf chunk assembler (err problem, rest) whole later long e e' h (inr stable) =
      serve-err n (buf ++ chunk) _ assembler problem (e' ∙ stable)
      ∙ sym (ap (λ t. resumed t chunk) (serve-err m buf rest assembler problem e))
  append_by_parse m n buf chunk assembler (ok (some frame), rest) whole later long e e' h
        (inr stable) =
      serve-frame n (buf ++ chunk) _ assembler frame (e' ∙ stable)
      ∙ ap (after handle_client_message writes (replied assembler frame))
          (later rest (push assembler frame).1 h)
      ∙ sym (resume-after (replied assembler frame) (served m rest (push assembler frame).1) chunk)
      ∙ sym (ap (λ t. resumed t chunk) (serve-frame m buf rest assembler frame e))

  serve-append :
      (m n : ℕ) (buf chunk : List ℕ) (assembler : Assembler)
      → length buf < m
      → length (buf ++ chunk) < n
      → served n (buf ++ chunk) assembler ≡ resumed (served m buf assembler) chunk
  serve-append zero n buf chunk assembler hm hn = absurd (omega arith)
  serve-append (suc m) zero buf chunk assembler hm hn = absurd (omega arith)
  serve-append (suc m) (suc n) buf chunk assembler hm hn =
      append_by_parse m n buf chunk assembler (parse_client_frame buf)
        (parse_client_frame (buf ++ chunk))
        (λ rest next h.
          serve-append m n rest chunk next (omega arith)
            (omega (arith, length-append rest chunk, length-append buf chunk)))
        hn refl refl (parse_client_frame-Shorter buf) (parse_client_frame-append buf chunk)

  -- Receiving bytes in two pieces is receiving them at once.
  pub receive-append :
      (buf chunk : List ℕ) (assembler : Assembler)
      → receive handle_client_message writes (buf ++ chunk) assembler
        ≡ resume handle_client_message writes
            (receive handle_client_message writes buf assembler)
            chunk
  unfolding receive
  receive-append buf chunk assembler =
      serve-append (suc (length buf)) (suc (length (buf ++ chunk))) buf chunk assembler
        (omega arith) (omega arith)

  -- What a connection sends, and how it stands or ends, is the same however the network cuts the
  -- bytes into chunks.
  pub receive_all-flatten :
      (buf : List ℕ) (chunks : List (List ℕ)) (assembler : Assembler)
      → receive_all handle_client_message writes
          (receive handle_client_message writes buf assembler)
          chunks
        ≡ receive handle_client_message writes (buf ++ flatten chunks) assembler
  unfolding receive_all flatten
  receive_all-flatten buf [] assembler =
      ap (λ t. receive handle_client_message writes t assembler) (sym (append-nil buf))
  receive_all-flatten buf (chunk ∷ chunks) assembler =
      ap (λ t. receive_all handle_client_message writes t chunks)
        (sym (receive-append buf chunk assembler))
      ∙ receive_all-flatten (buf ++ chunk) chunks assembler
      ∙ ap (λ t. receive handle_client_message writes t assembler)
          (append_assoc buf chunk (flatten chunks))

  -- The status after a loop that did not stop for want of fuel.
  abbrev pub IsDrained : Status → Type 0
  IsDrained (ended last) = Unit {0}
  IsDrained (open_with buf assembler) = (parse_client_frame buf).0 ≡ ok none

  after-IsDrained :
      (reply : List (List ℕ) × Option End) (rest : Served)
      → IsDrained rest.status
      → IsDrained (after handle_client_message writes reply rest).status
  after-IsDrained (frames, some last) rest h = tt
  after-IsDrained (frames, none) rest h = h

  IsDrained-by_parse :
      (m : ℕ) (buf : List ℕ) (assembler : Assembler) (parsed : Result (Option Frame) × List ℕ)
      → ((rest : List ℕ) (next : Assembler)
          → length rest < length buf
          → IsDrained (served m rest next).status)
      → parse_client_frame buf ≡ parsed
      → Shorter (length buf) parsed
      → IsDrained (served (suc m) buf assembler).status
  IsDrained-by_parse m buf assembler (err problem, rest) later e h =
      rw (serve-err m buf rest assembler problem e) tt
  IsDrained-by_parse m buf assembler (ok none, rest) later e h =
      rw (serve-none m buf rest assembler e) (ap (λ t. t.0) e)
  IsDrained-by_parse m buf assembler (ok (some frame), rest) later e h =
      rw (serve-frame m buf rest assembler frame e)
        (after-IsDrained (replied assembler frame) _ (later rest (push assembler frame).1 h))

  serve-IsDrained :
      (m : ℕ) (buf : List ℕ) (assembler : Assembler)
      → length buf < m
      → IsDrained (served m buf assembler).status
  serve-IsDrained zero buf assembler h = absurd (omega arith)
  serve-IsDrained (suc m) buf assembler h =
      IsDrained-by_parse m buf assembler (parse_client_frame buf)
        (λ rest next shorter. serve-IsDrained m rest next (omega arith)) refl
        (parse_client_frame-Shorter buf)

  -- The fuel is enough: every whole frame of the buffer is taken, until the connection ends or the
  -- bytes left are no whole frame.
  pub receive-IsDrained :
      (buf : List ℕ) (assembler : Assembler)
      → IsDrained (receive handle_client_message writes buf assembler).status
  unfolding receive
  receive-IsDrained buf assembler = serve-IsDrained (suc (length buf)) buf assembler (omega arith)
