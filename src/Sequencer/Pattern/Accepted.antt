-- ===== src/Sequencer/Pattern/Accepted.antt =====
-- What `Track::parse` of core/sequencer/src/pattern.rs accepts, and the names of the voices.
use mathlib.Core.List.{append_assoc, append-nil, map-append}
use player.Common.{
  ℕ, zero, suc, ◌+◌, ◌<◌, ◌≡◌, ◌↔◌, refl, sym, ap, ◌∙◌, inl, inr, true, false, Option, none, some,
  List, [], ◌∷◌, ◌++◌, map, ltb, ◌==◌, if◌then◌else◌, Bool-cases, Option-cases, arith, length, set,
  replicate, length-append,
}
use player.Common.Text.{is_whitespace}
use player.Sequencer.Pattern.{
  Step, Track, off, ok, err, bad_char, symbol, from_symbol, parse_loop, parse, step_count, VoiceId,
  kick, index, from_index, name, from_name, voice_count,
}
use player.Sequencer.Pattern.Notation.{parse_loop_step}

-- The characters that stand for steps, with the two ways to write a rest made one.
pub strokes : List ℕ → List ℕ
strokes [] = []
strokes (c ∷ cs) = elim (is_whitespace c) [
  | true ↦ strokes cs
  | false ↦ (if c == b'.' then b'-' else c) ∷ strokes cs
]

symbol-from_symbol :
    (c : ℕ) (s : Step) → from_symbol c ≡ some s → symbol s ≡ (if c == b'.' then b'-' else c)
unfolding from_symbol symbol
symbol-from_symbol c s e = ground arith

parse_loop_space :
    (c : ℕ) (cs : List ℕ) (steps : List Step) (n : ℕ)
    → is_whitespace c ≡ true
    → parse_loop (c ∷ cs) steps n ≡ parse_loop cs steps n
unfolding parse_loop
parse_loop_space c cs steps n e = rw (e, parse_loop) refl

parse_loop_unknown :
    (c : ℕ) (cs : List ℕ) (steps : List Step) (n : ℕ)
    → is_whitespace c ≡ false
    → from_symbol c ≡ none
    → parse_loop (c ∷ cs) steps n ≡ err (bad_char c)
unfolding parse_loop
parse_loop_unknown c cs steps n e u = rw (e, parse_loop) (rw (u, parse_loop) refl)

parse_loop_known :
    (c : ℕ) (cs : List ℕ) (s : Step) (steps : List Step) (n : ℕ)
    → is_whitespace c ≡ false
    → from_symbol c ≡ some s
    → parse_loop (c ∷ cs) steps n
      ≡ parse_loop cs (if ltb n step_count then set steps n s else steps) (n + 1)
unfolding parse_loop
parse_loop_known c cs s steps n e k = rw (e, parse_loop) (rw (k, parse_loop) refl)

-- Past the sixteenth step nothing is accepted.
parse_loop_over :
    (cs : List ℕ) (steps : List Step) (n : ℕ) (t : Track)
    → step_count < n
    → parse_loop cs steps n ≡ ok t
    → ⊥
parse_loop_over [] steps n t over e = unfold parse_loop in ground arith
parse_loop_over (c ∷ cs) steps n t over e = elim (Bool-cases (is_whitespace c)) [
  | inl space ↦ parse_loop_over cs steps n t over (sym (parse_loop_space c cs steps n space) ∙ e)
  | inr visible ↦ elim (Option-cases (from_symbol c)) [
    | inl unknown ↦ cc (e, parse_loop_unknown c cs steps n visible unknown)
    | inr (s, known) ↦
        parse_loop_over cs _ (n + 1) t (omega arith)
          (sym (parse_loop_known c cs s steps n visible known) ∙ e)
  ]
]

strokes_space : (c : ℕ) (cs : List ℕ) → is_whitespace c ≡ true → strokes (c ∷ cs) ≡ strokes cs
unfolding strokes
strokes_space c cs e = rw (e, strokes) refl

strokes_visible :
    (c : ℕ) (cs : List ℕ)
    → is_whitespace c ≡ false
    → strokes (c ∷ cs) ≡ (if c == b'.' then b'-' else c) ∷ strokes cs
unfolding strokes
strokes_visible c cs e = rw (e, strokes) refl

abbrev Reads : List Step → List ℕ → Track → Type 0
Reads front text t =
    (length t.steps ≡ step_count)
    × (map symbol t.steps ≡ map symbol front ++ strokes text)
    × (t.mute ≡ false)

-- The step that a visible character writes, before the rest of the text is read.
Reads-step :
    (c : ℕ) (cs : List ℕ) (s : Step) (front back : List Step) (t : Track)
    → length front + length back ≡ step_count
    → is_whitespace c ≡ false
    → from_symbol c ≡ some s
    → ((rest : List Step)
        → suc (length rest) ≡ length back
        → parse_loop cs ((front ++ s ∷ []) ++ rest) (length (front ++ s ∷ [])) ≡ ok t
        → Reads (front ++ s ∷ []) cs t)
    → parse_loop (c ∷ cs) (front ++ back) (length front) ≡ ok t
    → Reads front (c ∷ cs) t
Reads-step c cs s front [] t full visible known more e = absurd (
    parse_loop_over cs _ (length front + 1) t (omega arith)
      (sym (parse_loop_known c cs s _ _ visible known) ∙ e))
Reads-step c cs s front (x ∷ back) t full visible known more e =
    let (a, b, d) =
      more back refl (sym (parse_loop_step c cs s front x back visible known (omega arith)) ∙ e) in
    (
      a,
      rw (strokes_visible c cs visible, ← symbol-from_symbol c s known)
          (b
            ∙ ap (λ l. l ++ strokes cs) (map-append symbol front (s ∷ []))
            ∙ append_assoc (map symbol front) (symbol s ∷ []) (strokes cs)),
      d,
    )

parse_loop-Reads :
    (cs : List ℕ) (front back : List Step) (t : Track)
    → length front + length back ≡ step_count
    → parse_loop cs (front ++ back) (length front) ≡ ok t
    → Reads front cs t
parse_loop-Reads [] front [] t full e =
    unfold strokes parse_loop in ground (arith, append-nil front, append-nil (map symbol front))
parse_loop-Reads [] front (x ∷ back) t full e = unfold parse_loop in ground arith
parse_loop-Reads (c ∷ cs) front back t full e = elim (Bool-cases (is_whitespace c)) [
  | inl space ↦
      rw (strokes_space c cs space)
        (parse_loop-Reads cs front back t full (sym (parse_loop_space c cs _ _ space) ∙ e))
  | inr visible ↦ elim (Option-cases (from_symbol c)) [
    | inl unknown ↦
        absurd (cc (e, parse_loop_unknown c cs (front ++ back) (length front) visible unknown))
    | inr (s, known) ↦
        Reads-step c cs s front back t full visible known
          (λ rest d.
            parse_loop-Reads cs (front ++ s ∷ []) rest t
              (omega (arith, length-append front (s ∷ []))))
          e
  ]
]

-- A text that parses has sixteen steps, which are its strokes, and the track is not muted.
pub parse-strokes :
    (text : List ℕ) (t : Track)
    → parse text ≡ ok t
    → (length t.steps ≡ step_count) × (map symbol t.steps ≡ strokes text) × (t.mute ≡ false)
unfolding parse
parse-strokes text t e = parse_loop-Reads text [] (replicate step_count off) t (omega arith) e

from_index-index : (v : VoiceId) → from_index (index v) ≡ some v
unfolding from_index index
from_index-index kick = refl
from_index-index _ = refl

from_name-name : (v : VoiceId) → from_name (name v) ≡ some v
unfolding from_name name
from_name-name kick = refl
from_name-name _ = refl

index-lt : (v : VoiceId) → index v < voice_count
unfolding index
index-lt kick = omega arith
index-lt _ = omega arith

index_found : Option VoiceId → ℕ
index_found none = 0
index_found (some v) = index v

index-from_index : (i : ℕ) (v : VoiceId) → from_index i ≡ some v → i ≡ index v
unfolding from_index index index_found
index-from_index zero v e = ap index_found e
index-from_index (suc zero) v e = ap index_found e
index-from_index (suc (suc zero)) v e = ap index_found e
index-from_index (suc (suc (suc zero))) v e = ap index_found e
index-from_index (suc (suc (suc (suc zero)))) v e = ap index_found e
index-from_index (suc (suc (suc (suc (suc zero))))) v e = ap index_found e
index-from_index (suc (suc (suc (suc (suc (suc zero)))))) v e = ap index_found e
index-from_index (suc (suc (suc (suc (suc (suc (suc zero))))))) v e = ap index_found e
index-from_index (suc (suc (suc (suc (suc (suc (suc (suc zero)))))))) v e = ap index_found e
index-from_index (suc (suc (suc (suc (suc (suc (suc (suc (suc zero))))))))) v e = ap index_found e
index-from_index (suc (suc (suc (suc (suc (suc (suc (suc (suc (suc n)))))))))) v e = absurd (cc e)

-- A track index names a voice exactly if it is that voice's index, which is below the number of
-- voices, and a voice's name in pattern files is read back as that voice.
pub from_index_iff :
    (i : ℕ) (v : VoiceId)
    → ((from_index i ≡ some v) ↔ (i ≡ index v))
      × (index v < voice_count)
      × (from_name (name v) ≡ some v)
from_index_iff i v = (
  (index-from_index i v, λ e. ap from_index e ∙ from_index-index v),
  index-lt v,
  from_name-name v,
)
