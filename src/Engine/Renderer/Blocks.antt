-- ===== src/Engine/Renderer/Blocks.antt =====
-- What the renderer plays does not depend on the sizes of the blocks.
use player.Common.{ℕ, zero, suc, ◌+◌, ◌≡◌, refl, ap, ◌∙◌, List, [], ◌∷◌, ◌++◌, arith}
use player.Sequencer.Event.{Event}
use player.Engine.Renderer.{pull_events, Dsp, Renderer, render_sample, render, process_at}

module _ {V A : Type 0} (dsp : Dsp V A) where
  -- Two runs of the loop, the second from where the first ends.
  abbrev both : ℕ → ℕ → ℕ → List (Event V) → dsp.State → List A × List (Event V) × dsp.State
  both n m now pending state =
      let (out, left, voices) = render dsp n now pending state in
      let (out', left', voices') = render dsp m (now + n) left voices in
      (out ++ out', left', voices')

  render-add :
      (n m now : ℕ) (pending : List (Event V)) (state : dsp.State)
      → render dsp (n + m) now pending state ≡ both n m now pending state
  unfolding render
  render-add zero m now pending state =
      ap (λ t. render dsp t now pending state) (omega arith)
      ∙ ap (λ t. render dsp m t pending state) (omega arith)
  render-add (suc n) m now pending state =
      let (sample, left, next) = render_sample dsp now pending state in
      let (out, rest, voices) = render dsp n (now + 1) left next in
      let second : ℕ → List A × List (Event V) × dsp.State = λ t. render dsp m t rest voices in
      let length_split : suc n + m ≡ suc (n + m) = omega arith in
      let start_split : now + 1 + n ≡ now + suc n = omega arith in
      ap (λ t. render dsp t now pending state) length_split
      ∙ ap (λ r. (sample ∷ r.0, r.1, r.2)) (render-add n m (now + 1) left next)
      ∙ ap (λ t. (sample ∷ (out ++ (second t).0), (second t).1, (second t).2)) start_split

  -- Where the first call takes the whole queue and no event comes in between, rendering `n` samples and
  -- then `m` gives the output of rendering `n + m` at once, and leaves the same pending events, the same
  -- voices and the same position.
  pub process_at-add :
      (n m first_ticks second_ticks : ℕ) (self : Renderer dsp)
      → (pull_events self.queued self.pending).0 ≡ []
      → let (out, middle) = process_at dsp n first_ticks self in
        let (out', last) = process_at dsp m second_ticks middle in
        let (whole, once) = process_at dsp (n + m) first_ticks self in
        (whole ≡ out ++ out')
        × (once.pending ≡ last.pending)
        × (once.voices ≡ last.voices)
        × (once.queued ≡ last.queued)
        × (once.position ≡ last.position)
  unfolding process_at pull_events
  process_at-add n m first_ticks second_ticks self e =
      let pending = (pull_events self.queued self.pending).1 in
      let joined = render-add n m self.position pending self.voices in
      rw e (ap (λ t. t.0) joined, ap (λ t. t.1) joined, ap (λ t. t.2) joined, refl, omega arith)
