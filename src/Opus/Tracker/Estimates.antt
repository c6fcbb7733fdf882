-- ===== src/Opus/Tracker/Estimates.antt =====
-- Sequences of reports to the beat tracker, and when it gives an estimate.
use player.Common.{
  ℕ, ◌+◌, ◌-◌, ◌≤◌, ◌<◌, ◌≡◌, refl, sym, ap, ◌∙◌, inl, inr, Bool, true, false, Option, none, some,
  List, [], ◌∷◌, leb, if◌then◌else◌, arith, length-replicate,
}
use mathlib.Core.Path.{subst}
use mathlib.Core.Option.{some-injective, none-ne-some}
use player.Common.Floats.{Floats}
use player.Opus.Tracker.{
  window, max_uncertainty_ns, no_bracket, newest_bracket, BeatTracker, BeatEstimate, fresh, clear,
  push, usable, uncertainty_of, start_of, agreed, estimate, recent, next_beat, report, heard,
  update,
}
use player.Opus.Tracker.Reports.{
  Ring, Heard, Inv, shorter-Ring, empty-Ring, timed-Ring, push-Ring, push-some, recent-Ring,
  agreed-used, next_beat-Ring, next_beat-last, report-cases,
}

-- A status report, as the tracker is given it.
pub record Report (F : Type 0) : Type 0 where
  pub host_ns : ℕ
  pub beat : Option ℕ
  pub playing : Bool
  pub bpm : Option F

module _ (fl : Floats) where
  open fl use {F64}

  fresh-Inv : Inv {F = F64} fresh
  fresh-Inv = (
    record {
      size = length-replicate window no_bracket;
      head_in = omega arith;
      len_in = omega arith;
      counts = λ i lt. absurd (omega arith);
    },
    refl,
  )

  last-Inv :
      (self : BeatTracker F64) (last : Option (ℕ × ℕ))
      → self.last ≡ last
      → Heard self last
      → Inv self
  last-Inv self last e h = subst (λ l. Heard self l) (sym e) h

  report-Inv :
      (self : BeatTracker F64) (prev_ns prev_beat host_ns beat : ℕ) (playing : Bool)
      (bpm : Option F64)
      → self.last ≡ some (host_ns, beat)
      → Ring self prev_beat
      → Inv (report fl self prev_ns prev_beat host_ns beat playing bpm).1
  report-Inv self prev_ns prev_beat host_ns beat playing bpm now h =
      elim (report-cases fl self prev_ns prev_beat host_ns beat playing bpm) [
        | inl e ↦
            let cleared = shorter-Ring self prev_beat 0 h (omega arith) in
            rw e (last-Inv (clear self) _ now (empty-Ring (clear self) prev_beat beat cleared refl))
        | inr (inl (e, same)) ↦ rw e (last-Inv self _ now (rw same h))
        | inr (inr (e, moving, order, positive, next)) ↦
            let tempo = usable fl bpm in
            let stepped = (next_beat fl self prev_ns host_ns beat tempo).1 in
            rw e (
              last-Inv stepped _ (next_beat-last fl self prev_ns host_ns beat tempo ∙ now)
                (next_beat-Ring fl self prev_ns host_ns beat prev_beat tempo h next))
      ]

  heard-Inv :
      (last : Option (ℕ × ℕ)) (self : BeatTracker F64) (host_ns beat : ℕ) (playing : Bool)
      (bpm : Option F64)
      → Heard self last
      → Inv (heard fl last (record self { last = some (host_ns, beat) }) host_ns beat playing bpm).1
  unfolding heard
  heard-Inv none self host_ns beat playing bpm (h, e) =
      timed-Ring self (some (host_ns, beat)) self.bpm beat (empty-Ring self 0 beat h e)
  heard-Inv (some (prev_ns, prev_beat)) self host_ns beat playing bpm h =
      report-Inv (record self { last = some (host_ns, beat) }) prev_ns prev_beat host_ns beat
        playing bpm refl (timed-Ring self (some (host_ns, beat)) self.bpm prev_beat h)

  remembered :
      (last : Option (ℕ × ℕ)) (self : BeatTracker F64) → Heard self last → (n : ℕ) × Ring self n
  remembered none self (h, e) = (0, h)
  remembered (some (t, beat)) self h = (beat, h)

  update-Inv :
      (self : BeatTracker F64) (host_ns : ℕ) (beat : Option ℕ) (playing : Bool) (bpm : Option F64)
      → Inv self
      → Inv (update fl self host_ns beat playing bpm).1
  unfolding update
  update-Inv self host_ns none playing bpm h =
      let (n, ring) = remembered self.last self h in
      let cleared = shorter-Ring self n 0 ring (omega arith) in
      (timed-Ring (clear self) none none 0 (empty-Ring (clear self) n 0 cleared refl), refl)
  update-Inv self host_ns (some beat) playing bpm h =
      heard-Inv self.last self host_ns beat playing bpm h

  unfoldable pub listen : BeatTracker F64 → List (Report F64) → BeatTracker F64
  listen self [] = self
  listen self (r ∷ reports) = listen (update fl self r.host_ns r.beat r.playing r.bpm).1 reports

  listen-Inv :
      (self : BeatTracker F64) (reports : List (Report F64)) → Inv self → Inv (listen self reports)
  unfolding listen
  listen-Inv self [] h = h
  listen-Inv self (r ∷ reports) h =
      listen-Inv (update fl self r.host_ns r.beat r.playing r.bpm).1 reports
        (update-Inv self r.host_ns r.beat r.playing r.bpm h)

  -- After any sequence of reports to a fresh tracker, it remembers at most sixteen brackets, which are of
  -- consecutive beats that end at the beat last reported, and none before a beat is reported.
  pub listen-fresh-Inv : (reports : List (Report F64)) → Inv (listen fresh reports)
  listen-fresh-Inv reports = listen-Inv fresh reports fresh-Inv

  guarded :
      (b : Bool) (x e : BeatEstimate) → (if b then some x else none) ≡ some e → (b ≡ true) × (x ≡ e)
  guarded true x e given = (refl, some-injective x e given)
  guarded false x e given = absurd (none-ne-some e given)

  estimate-some :
      (host_ns beat : ℕ) (found : ℕ × F64 × F64) (e : BeatEstimate)
      → estimate fl host_ns beat found ≡ some e
      → (e.beat ≡ beat) × (e.uncertainty_ns ≤ max_uncertainty_ns) × (e.beats_used ≡ found.0)
  unfolding estimate
  estimate-some host_ns beat (used, lo, hi) e given =
      let uncertainty = uncertainty_of fl lo hi in
      let (sure, same) =
        guarded (leb uncertainty max_uncertainty_ns)
          (record {
            beat = beat;
            host_ns = start_of fl host_ns lo hi;
            uncertainty_ns = uncertainty;
            beats_used = used;
          })
          e given in
      (
        sym (ap (λ t. t.beat) same),
        rw (sym (ap (λ t. t.uncertainty_ns) same)) (ground (arith, sure)),
        sym (ap (λ t. t.beats_used) same),
      )

  next_beat-some :
      (self : BeatTracker F64) (prev_ns host_ns beat prev : ℕ) (tempo : Option F64)
      (e : BeatEstimate)
      → Ring self prev
      → prev + 1 ≡ beat
      → (next_beat fl self prev_ns host_ns beat tempo).0 ≡ some e
      → (e.beat ≡ beat)
        × (e.uncertainty_ns ≤ max_uncertainty_ns)
        × (0 < e.beats_used)
        × (e.beats_used ≤ window)
  unfolding next_beat
  next_beat-some self prev_ns host_ns beat prev tempo e h next given =
      let kept = recent fl self (host_ns - prev_ns) tempo in
      let b = newest_bracket prev_ns host_ns beat in
      let (some_used, within) =
        agreed-used fl (push kept b) b tempo host_ns beat (push-some kept b) in
      let ring =
        push-Ring kept b prev (recent-Ring fl self (host_ns - prev_ns) prev tempo h) next in
      let (named, sure, used) =
        estimate-some host_ns beat (agreed fl (push kept b) b tempo host_ns beat) e given in
      (named, sure, omega (arith, used, some_used), omega (arith, used, within, ring.len_in))

  -- What an estimate shows: the deck plays, and its beat counter went on by one, from a beat of the track.
  abbrev pub Shows : Option (ℕ × ℕ) → ℕ → Option ℕ → Bool → BeatEstimate → Type 0
  Shows last host_ns reported playing e =
      (reported ≡ some e.beat)
      × (playing ≡ true)
      × (e.uncertainty_ns ≤ max_uncertainty_ns)
      × (0 < e.beats_used)
      × (e.beats_used ≤ window)
      × ((prev_ns prev : ℕ) × (last ≡ some (prev_ns, prev))
          × (prev_ns ≤ host_ns)
          × (0 < prev)
          × (prev + 1 ≡ e.beat))

  heard-Shows :
      (last : Option (ℕ × ℕ)) (self : BeatTracker F64) (host_ns beat : ℕ) (playing : Bool)
      (bpm : Option F64) (e : BeatEstimate)
      → Heard self last
      → (heard fl last (record self { last = some (host_ns, beat) }) host_ns beat playing bpm).0
        ≡ some e
      → Shows last host_ns (some beat) playing e
  unfolding heard
  heard-Shows none self host_ns beat playing bpm e h given = absurd (none-ne-some e given)
  heard-Shows (some (prev_ns, prev)) self host_ns beat playing bpm e h given =
      let now : BeatTracker F64 = record self { last = some (host_ns, beat) } in
      elim (report-cases fl now prev_ns prev host_ns beat playing bpm) [
        | inl r ↦ absurd (none-ne-some e (sym (ap (λ t. t.0) r) ∙ given))
        | inr (inl (r, same)) ↦ absurd (none-ne-some e (sym (ap (λ t. t.0) r) ∙ given))
        | inr (inr (r, moving, order, positive, next)) ↦
            let ring = timed-Ring self (some (host_ns, beat)) self.bpm prev h in
            let (named, sure, some_used, within) =
              next_beat-some now prev_ns host_ns beat prev (usable fl bpm) e ring next
                (sym (ap (λ t. t.0) r) ∙ given) in
            (
              ap some (sym named),
              moving,
              sure,
              some_used,
              within,
              (prev_ns, prev, refl, order, positive, next ∙ sym named),
            )
      ]

  -- A tracker that keeps its invariant gives an estimate only of the beat that is reported, when
  -- the deck plays, the last report before is not later, and the beat counter went up by one from
  -- that report, which named a beat of the track; the estimate is within the largest uncertainty
  -- and uses one to sixteen brackets.
  pub update-Shows :
      (self : BeatTracker F64) (host_ns : ℕ) (beat : Option ℕ) (playing : Bool) (bpm : Option F64)
      (e : BeatEstimate)
      → Inv self
      → (update fl self host_ns beat playing bpm).0 ≡ some e
      → Shows self.last host_ns beat playing e
  unfolding update
  update-Shows self host_ns none playing bpm e h given = absurd (none-ne-some e given)
  update-Shows self host_ns (some beat) playing bpm e h given =
      heard-Shows self.last self host_ns beat playing bpm e h given
