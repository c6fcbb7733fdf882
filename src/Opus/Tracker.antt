-- ===== src/Opus/Tracker.antt =====
-- core/sync/src/opus/tracker.rs: beat times from coarse status reports. A report that shows the beat
-- counter step brackets the new beat; the brackets of the last beats, projected with the tempo, are
-- intersected. A time relative to now, of either sign, is a floating-point number.
pub mod Reports
pub mod Estimates
use player.Common.{
  ℕ, zero, suc, ◌+◌, ◌-◌, ◌*◌, ◌%◌, ◌^◌, ◌≡◌, min, Bool, true, false, not, ◌&&◌, ◌||◌, Option, none,
  some, List, [], ◌∷◌, map, ltb, leb, ◌==◌, if◌then◌else◌, length, get_or, set, replicate,
}
use mathlib.Core.Option
use player.Common.Floats.{Floats}
use player.Opus.Session.{Tracking}

abbrev pub window : ℕ
window = 16

abbrev pub slack_ns : ℕ
slack_ns = 4_000_000

abbrev pub max_gap_ns : ℕ
max_gap_ns = 1_000_000_000

abbrev pub max_uncertainty_ns : ℕ
max_uncertainty_ns = 150_000_000

pub record BeatEstimate : Type 0 where
  pub beat : ℕ
  pub host_ns : ℕ
  pub uncertainty_ns : ℕ
  pub beats_used : ℕ

pub record Bracket : Type 0 where
  pub beat : ℕ
  pub lo : ℕ
  pub hi : ℕ

abbrev pub no_bracket : Bracket
no_bracket = record { beat = 0; lo = 0; hi = 0 }

pub record BeatTracker (F : Type 0) : Type 0 where
  pub last : Option (ℕ × ℕ)
  pub bpm : Option F
  pub ring : List Bracket
  pub len : ℕ
  pub head : ℕ

-- `prev.checked_add(1) == Some(beat)` in `u32`.
abbrev pub follows : ℕ → ℕ → Bool
follows prev beat = ltb (prev + 1) (2 ^ 32) && prev + 1 == beat

module _ {F : Type 0} where
  abbrev pub fresh : BeatTracker F
  fresh = record { last = none; bpm = none; ring = replicate window no_bracket; len = 0; head = 0 }

  abbrev pub clear : BeatTracker F → BeatTracker F
  clear self = record self { len = 0 }

  abbrev pub reset : BeatTracker F → BeatTracker F
  reset self = record self { last = none; bpm = none; len = 0 }

  unfoldable pub push : BeatTracker F → Bracket → BeatTracker F
  push self b =
      let head = (self.head + 1) % window in
      record self { head = head; ring = set self.ring head b; len = min (self.len + 1) window }

  unfoldable pub nth_newest : BeatTracker F → ℕ → Bracket
  nth_newest self i = get_or self.ring ((self.head + window - i) % window) no_bracket

-- What a step between two reports tells: the beat began between them, with the slack on both sides.
abbrev pub newest_bracket : ℕ → ℕ → ℕ → Bracket
newest_bracket prev_ns host_ns beat = record {
  beat = beat;
  lo = prev_ns - slack_ns;
  hi = min (host_ns + slack_ns) (2 ^ 64 - 1);
}

module _ (fl : Floats) where
  open fl use {
    F64, lit64, add64, sub64, mul64, div64, max64, min64, abs64, round64, is_finite64, leb64, ltb64,
    of_u64, to_u64,
  }

  abbrev pub tempo_tolerance : F64
  tempo_tolerance = lit64 5 10_000

  -- `bpm.filter(|b| b.is_finite() && *b > 0.0)`.
  unfoldable pub usable : Option F64 → Option F64
  usable none = none
  usable (some b) = if is_finite64 b && ltb64 (lit64 0 1) b then some b else none

  unfoldable pub tempo_moved : Option F64 → Option F64 → Bool
  tempo_moved (some old) (some new) = ltb64 tempo_tolerance (abs64 (div64 (sub64 new old) old))
  tempo_moved none none = false
  tempo_moved (some old) none = true
  tempo_moved none (some new) = true

  -- `(i128::from(t) - i128::from(host_ns)) as f64`.
  unfoldable pub rel : ℕ → ℕ → F64
  rel host_ns t =
      if leb host_ns t then of_u64 (t - host_ns) else sub64 (lit64 0 1) (of_u64 (host_ns - t))

  -- `(i128::from(host_ns) + by as i128).max(0) as u64`.
  unfoldable pub moved_by : ℕ → F64 → ℕ
  moved_by host_ns by =
      if ltb64 by (lit64 0 1) then host_ns - to_u64 (sub64 (lit64 0 1) by) else host_ns + to_u64 by

  -- The loop over the remembered brackets, `n` of which are left: how many are used, and the bounds.
  unfoldable pub narrow : BeatTracker F64 → ℕ → ℕ → F64 → ℕ → ℕ → F64 → F64 → ℕ × F64 × F64
  unfolding nth_newest rel
  narrow self host_ns beat period zero used lo hi = (used, lo, hi)
  narrow self host_ns beat period (suc n) used lo hi =
      let b = nth_newest self used in
      let shift = mul64 (of_u64 ((beat + 2 ^ 32 - b.beat) % 2 ^ 32)) period in
      let nlo = max64 lo (add64 (rel host_ns b.lo) shift) in
      let nhi = min64 hi (add64 (rel host_ns b.hi) shift) in
      let rest = narrow self host_ns beat period n (used + 1) nlo nhi in
      if ltb64 nhi nlo then (used, lo, hi) else rest

  abbrev pub period_of : F64 → F64
  period_of b = div64 (lit64 60_000_000_000 1) b

  -- How many brackets agree with the newest, and the bounds of the beat relative to now.
  unfoldable pub agreed : BeatTracker F64 → Bracket → Option F64 → ℕ → ℕ → ℕ × F64 × F64
  unfolding narrow rel
  agreed self newest none host_ns beat = (1, rel host_ns newest.lo, rel host_ns newest.hi)
  agreed self newest (some b) host_ns beat =
      narrow self host_ns beat (period_of b) (self.len - 1) 1 (rel host_ns newest.lo)
        (rel host_ns newest.hi)

  abbrev pub start_of : ℕ → F64 → F64 → ℕ
  start_of host_ns lo hi =
      moved_by host_ns (round64 (min64 (div64 (add64 lo hi) (lit64 2 1)) (lit64 0 1)))

  abbrev pub uncertainty_of : F64 → F64 → ℕ
  uncertainty_of lo hi = to_u64 (max64 (div64 (sub64 hi lo) (lit64 2 1)) (lit64 0 1))

  unfoldable pub estimate : ℕ → ℕ → ℕ × F64 × F64 → Option BeatEstimate
  estimate host_ns beat (used, lo, hi) =
      let uncertainty = uncertainty_of lo hi in
      if leb uncertainty max_uncertainty_ns
      then some (record {
        beat = beat;
        host_ns = start_of host_ns lo hi;
        uncertainty_ns = uncertainty;
        beats_used = used;
      })
      else none

  -- The brackets that a new beat is compared with: none after a gap or a change of tempo.
  unfoldable pub recent : BeatTracker F64 → ℕ → Option F64 → BeatTracker F64
  unfolding tempo_moved
  recent self gap tempo =
      let timed : BeatTracker F64 = record self { bpm = tempo } in
      if ltb max_gap_ns gap || tempo_moved self.bpm tempo then clear timed else timed

  -- A step to the next beat.
  unfoldable pub next_beat :
      BeatTracker F64 → ℕ → ℕ → ℕ → Option F64 → Option BeatEstimate × BeatTracker F64
  unfolding push agreed estimate recent
  next_beat self prev_ns host_ns beat tempo =
      let newest = newest_bracket prev_ns host_ns beat in
      let pushed = push (recent self (host_ns - prev_ns) tempo) newest in
      let found = agreed pushed newest tempo host_ns beat in
      (estimate host_ns beat found, record pushed { len = found.0 })

  -- A report after an earlier one, which `self.last` no longer holds.
  unfoldable pub report :
      BeatTracker F64 → ℕ → ℕ → ℕ → ℕ → Bool → Option F64 → Option BeatEstimate × BeatTracker F64
  unfolding next_beat usable
  report self prev_ns prev_beat host_ns beat playing bpm =
      if ltb host_ns prev_ns || not playing
      then (none, clear self)
      else if beat == prev_beat
      then (none, self)
      else if prev_beat == 0 || not (follows prev_beat beat)
      then (none, clear self)
      else next_beat self prev_ns host_ns beat (usable bpm)

  unfoldable pub heard :
      Option (ℕ × ℕ)
      → BeatTracker F64
      → ℕ
      → ℕ
      → Bool
      → Option F64
      → Option BeatEstimate × BeatTracker F64
  unfolding report
  heard none self host_ns beat playing bpm = (none, self)
  heard (some (prev_ns, prev_beat)) self host_ns beat playing bpm =
      report self prev_ns prev_beat host_ns beat playing bpm

  unfoldable pub update :
      BeatTracker F64 → ℕ → Option ℕ → Bool → Option F64 → Option BeatEstimate × BeatTracker F64
  unfolding heard
  update self host_ns none playing bpm = (none, reset self)
  update self host_ns (some beat) playing bpm =
      heard self.last (record self { last = some (host_ns, beat) }) host_ns beat playing bpm

  -- The tracker, as the session calls it.
  abbrev pub beat_tracker : Tracking F64 (BeatTracker F64)
  beat_tracker = record {
    new = fresh;
    reset = reset;
    update = λ host_ns beat playing bpm self.
        let (found, next) = update self host_ns beat playing bpm in
        (Option.map (λ e. e.host_ns) found, next);
  }
