-- ===== src/Sequencer/Pattern/Notation.antt =====
-- The step notation: `Track::parse` against `Track::notation` of core/sequencer/src/pattern.rs.
use mathlib.Core.List.{append_assoc, append-nil}
use player.Common.{
  ℕ, ◌+◌, ◌%◌, ◌<◌, ◌≡◌, refl, ap, ◌∙◌, inl, inr, true, false, ◌&&◌, some, List, [], ◌∷◌, ◌++◌, map,
  ltb, ◌==◌, if◌then◌else◌, Bool-cases, ==_iff, arith, length, set, replicate, length-append,
  length-replicate,
}
use player.Common.Text.{is_whitespace}
use player.Sequencer.Pattern.{
  Step, Track, off, ok, symbol, from_symbol, parse_loop, parse, notation_from, notation, step_count,
}

-- What the notation keeps of a step: a step that is off has no accent and no flam.
pub audible : Step → Step
audible s = if s.on then s else off

symbol_visible : (s : Step) → is_whitespace (symbol s) ≡ false
unfolding is_whitespace symbol
symbol_visible s = ground arith

from_symbol-symbol : (s : Step) → from_symbol (symbol s) ≡ some (audible s)
unfolding from_symbol symbol audible
from_symbol-symbol s = ground arith

set-length {ℓ} :
    {A : Type ℓ} (front : List A) (x v : A) (back : List A)
    → set (front ++ x ∷ back) (length front) v ≡ front ++ v ∷ back
set-length [] x v back = refl
set-length (y ∷ front) x v back = ap (◌∷◌ y) (set-length front x v back)

-- One visible character writes the next step.
pub parse_loop_step :
    (c : ℕ) (cs : List ℕ) (s : Step) (front : List Step) (x : Step) (back : List Step)
    → is_whitespace c ≡ false
    → from_symbol c ≡ some s
    → length front < step_count
    → parse_loop (c ∷ cs) (front ++ x ∷ back) (length front)
      ≡ parse_loop cs ((front ++ s ∷ []) ++ back) (length (front ++ s ∷ []))
unfolding parse_loop
parse_loop_step c cs s front x back visible known below =
    rw (visible, parse_loop)
      (rw (known, parse_loop)
        (rw
          (
            room,
            set-length front x s back,
            append_assoc front (s ∷ []) back,
            length-append front (s ∷ []),
          )
          refl))
  where
    room : ltb (length front) step_count ≡ true
    room = ground arith

-- A group of four begins with a space, which is ignored.
spaced :
    (i : ℕ) (s : Step) (ss steps : List Step) (n : ℕ)
    → (ltb 0 i && i % 4 == 0) ≡ true
    → parse_loop (notation_from i (s ∷ ss)) steps n
      ≡ parse_loop (symbol s ∷ notation_from (i + 1) ss) steps n
unfolding notation_from
spaced i s ss steps n e = rw (e, notation_from) (unfold parse_loop is_whitespace in refl)

unspaced :
    (i : ℕ) (s : Step) (ss steps : List Step) (n : ℕ)
    → (ltb 0 i && i % 4 == 0) ≡ false
    → parse_loop (notation_from i (s ∷ ss)) steps n
      ≡ parse_loop (symbol s ∷ notation_from (i + 1) ss) steps n
unfolding notation_from
unspaced i s ss steps n e = rw (e, notation_from) refl

-- The characters of a notation write the steps in order.
parse_loop-notation_from :
    (i : ℕ) (ss front back : List Step)
    → length back ≡ length ss
    → length front + length ss ≡ step_count
    → parse_loop (notation_from i ss) (front ++ back) (length front)
      ≡ ok (record { steps = front ++ map audible ss; mute = false })
parse_loop-notation_from i [] front [] same full =
    unfold parse_loop notation_from in rw (append-nil, done) refl
  where
    done : (length front == step_count) ≡ true
    done = (==_iff _ _).1 (omega arith)
parse_loop-notation_from i [] front (x ∷ back) same full = absurd (omega arith)
parse_loop-notation_from i (s ∷ ss) front [] same full = absurd (omega arith)
parse_loop-notation_from i (s ∷ ss) front (x ∷ back) same full =
    let rest =
      parse_loop_step (symbol s) (notation_from (i + 1) ss) (audible s) front x back
        (symbol_visible s) (from_symbol-symbol s) (omega arith)
      ∙ parse_loop-notation_from (i + 1) ss (front ++ audible s ∷ []) back (omega arith)
          (omega (arith, length-append front (audible s ∷ [])))
      ∙ ap (λ t. ok (record { steps = t; mute = false }))
          (append_assoc front (audible s ∷ []) (map audible ss)) in
    elim (Bool-cases (ltb 0 i && i % 4 == 0)) [
      | inl space ↦ spaced i s ss _ _ space ∙ rest
      | inr plain ↦ unspaced i s ss _ _ plain ∙ rest
    ]

-- The notation of a track of sixteen steps parses to its audible steps, unmuted: what a step that
-- is off carried is dropped.
pub parse-notation :
    (t : Track)
    → length t.steps ≡ step_count
    → parse (notation t) ≡ ok (record { steps = map audible t.steps; mute = false })
unfolding parse notation
parse-notation t full =
    parse_loop-notation_from 0 t.steps [] (replicate step_count off)
      (omega (arith, length-replicate step_count off)) (omega arith)
