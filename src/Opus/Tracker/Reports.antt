-- ===== src/Opus/Tracker/Reports.antt =====
-- What the beat tracker remembers over any sequence of reports: consecutive beats, the newest of which
-- is the one last reported.
use player.Common.{
  ℕ, zero, suc, ◌+◌, ◌-◌, ◌%◌, ◌^◌, ◌≤◌, ◌<◌, ◌≡◌, refl, ap, ◌∙◌, ◌⊎◌, inl, inr, min, Bool, true,
  false, not, ◌||◌, Bool-cases, Option, none, some, ltb, ◌==◌, if◌then◌else◌, length, get_or, set,
  arith, length-set, get_or-set_self, get_or-set_ne,
}
use player.Common.Floats.{Floats}
use player.Opus.Tracker.{
  newest_bracket, rel, period_of, window, Bracket, no_bracket, BeatTracker, follows, clear, push,
  nth_newest, usable, narrow, agreed, recent, next_beat, report,
}

if-both : {A : Type 0} (P : A → Type 0) (b : Bool) (x y : A) → P x → P y → P (if b then x else y)
if-both P true x y hx hy = hx
if-both P false x y hx hy = hy

module _ {F : Type 0} where
  -- The ring is within its bounds, and the remembered brackets are those of the beats that end at `beat`.
  pub record Ring (self : BeatTracker F) (beat : ℕ) : Type 0 where
    pub size : length self.ring ≡ window
    pub head_in : self.head < window
    pub len_in : self.len ≤ window
    pub counts : (i : ℕ) → i < self.len → (nth_newest self i).beat + i ≡ beat

  abbrev pub Heard : BeatTracker F → Option (ℕ × ℕ) → Type 0
  Heard self none = Ring self 0 × (self.len ≡ 0)
  Heard self (some (host_ns, beat)) = Ring self beat

  -- The remembered beats are consecutive, and the newest of them is the one last reported.
  abbrev pub Inv : BeatTracker F → Type 0
  Inv self = Heard self self.last

  pub shorter-Ring :
      (self : BeatTracker F) (beat n : ℕ)
      → Ring self beat
      → n ≤ self.len
      → Ring (record self { len = n }) beat
  unfolding nth_newest
  shorter-Ring self beat n h le = record {
    size = h.size;
    head_in = h.head_in;
    len_in = omega (arith, h.len_in);
    counts = λ i lt. h.counts i (omega arith);
  }

  pub empty-Ring :
      (self : BeatTracker F) (beat other : ℕ) → Ring self beat → self.len ≡ 0 → Ring self other
  empty-Ring self beat other h e = record {
    size = h.size;
    head_in = h.head_in;
    len_in = h.len_in;
    counts = λ i lt. absurd (omega arith);
  }

  pub timed-Ring :
      (self : BeatTracker F) (last : Option (ℕ × ℕ)) (bpm : Option F) (beat : ℕ)
      → Ring self beat
      → Ring (record self { last = last; bpm = bpm }) beat
  unfolding nth_newest
  timed-Ring self last bpm beat h = record {
    size = h.size;
    head_in = h.head_in;
    len_in = h.len_in;
    counts = h.counts;
  }

  nth_newest-push-zero :
      (self : BeatTracker F) (b : Bracket) (beat : ℕ)
      → Ring self beat
      → nth_newest (push self b) 0 ≡ b
  unfolding nth_newest push
  nth_newest-push-zero self b beat h =
      let head = (self.head + 1) % window in
      let at : (head + window - 0) % window ≡ head = omega arith in
      ap (λ t. get_or (set self.ring head b) t no_bracket) at
      ∙ get_or-set_self self.ring head b no_bracket (omega (arith, h.size))

  nth_newest-push-suc :
      (self : BeatTracker F) (b : Bracket) (beat i : ℕ)
      → Ring self beat
      → i + 1 < window
      → nth_newest (push self b) (suc i) ≡ nth_newest self i
  unfolding nth_newest push
  nth_newest-push-suc self b beat i h small =
      let head = (self.head + 1) % window in
      let from = (self.head + window - i) % window in
      let at : (head + window - suc i) % window ≡ from = omega (arith, h.head_in) in
      ap (λ t. get_or (set self.ring head b) t no_bracket) at
      ∙ get_or-set_ne self.ring head from b no_bracket (λ e. omega (arith, e, h.head_in))

  pub push-Ring :
      (self : BeatTracker F) (b : Bracket) (beat : ℕ)
      → Ring self beat
      → beat + 1 ≡ b.beat
      → Ring (push self b) b.beat
  unfolding push
  push-Ring self b beat h next = record {
    size = length-set self.ring ((self.head + 1) % window) b ∙ h.size;
    head_in = omega arith;
    len_in = omega arith;
    counts = counts;
  }
    where
      counts :
          (i : ℕ) → i < min (self.len + 1) window → (nth_newest (push self b) i).beat + i ≡ b.beat
      counts zero lt = rw (nth_newest-push-zero self b beat h) (omega arith)
      counts (suc i) lt =
          rw (nth_newest-push-suc self b beat i h (omega arith))
            (omega (arith, h.counts i (omega arith), next))

  pub push-some : (self : BeatTracker F) (b : Bracket) → 0 < (push self b).len
  unfolding push
  push-some self b = omega arith

order_of :
    (host_ns prev_ns : ℕ) (playing : Bool)
    → (ltb host_ns prev_ns || not playing) ≡ false
    → (playing ≡ true) × (prev_ns ≤ host_ns)
order_of host_ns prev_ns true h = (refl, ground (arith, h))
order_of host_ns prev_ns false h = (ground (arith, h), ground (arith, h))

step_of :
    (prev beat : ℕ)
    → (prev == 0 || not (follows prev beat)) ≡ false
    → (0 < prev) × (prev + 1 ≡ beat)
step_of prev beat h = (ground (arith, h), ground (arith, h))

module _ (fl : Floats) where
  open fl use {F64}

  pub recent-Ring :
      (self : BeatTracker F64) (gap beat : ℕ) (tempo : Option F64)
      → Ring self beat
      → Ring (recent fl self gap tempo) beat
  unfolding recent
  recent-Ring self gap beat tempo h =
      let timed = timed-Ring self self.last tempo beat h in
      if-both {A = BeatTracker F64} (λ t. Ring t beat) _ _ _
        (shorter-Ring (record self { bpm = tempo }) beat 0 timed (omega arith)) timed

  recent-last :
      (self : BeatTracker F64) (gap : ℕ) (tempo : Option F64)
      → (recent fl self gap tempo).last ≡ self.last
  unfolding recent
  recent-last self gap tempo =
      if-both {A = BeatTracker F64} (λ t. t.last ≡ self.last) _ _ _ refl refl

  -- The loop uses at least the brackets it starts with, and at most as many more as are left.
  narrow-used :
      (self : BeatTracker F64) (host_ns beat : ℕ) (period : F64) (n used : ℕ) (lo hi : F64)
      → (used ≤ (narrow fl self host_ns beat period n used lo hi).0)
        × ((narrow fl self host_ns beat period n used lo hi).0 ≤ used + n)
  unfolding narrow
  narrow-used self host_ns beat period zero used lo hi = (omega arith, omega arith)
  narrow-used self host_ns beat period (suc n) used lo hi =
      let b = nth_newest self used in
      let shift = fl.mul64 (fl.of_u64 ((beat + 2 ^ 32 - b.beat) % 2 ^ 32)) period in
      let nlo = fl.max64 lo (fl.add64 (rel fl host_ns b.lo) shift) in
      let nhi = fl.min64 hi (fl.add64 (rel fl host_ns b.hi) shift) in
      let (least, most) = narrow-used self host_ns beat period n (used + 1) nlo nhi in
      if-both {A = ℕ × F64 × F64} (λ t. (used ≤ t.0) × (t.0 ≤ used + suc n)) (fl.ltb64 nhi nlo)
        (used, lo, hi) (narrow fl self host_ns beat period n (used + 1) nlo nhi)
        (omega arith, omega arith) (omega (arith, least), omega (arith, most))

  pub agreed-used :
      (self : BeatTracker F64) (newest : Bracket) (tempo : Option F64) (host_ns beat : ℕ)
      → 0 < self.len
      → (0 < (agreed fl self newest tempo host_ns beat).0)
        × ((agreed fl self newest tempo host_ns beat).0 ≤ self.len)
  unfolding agreed
  agreed-used self newest none host_ns beat some_left = (omega arith, omega arith)
  agreed-used self newest (some b) host_ns beat some_left =
      let (least, most) =
        narrow-used self host_ns beat (period_of fl b) (self.len - 1) 1 (rel fl host_ns newest.lo)
          (rel fl host_ns newest.hi) in
      (omega (arith, least), omega (arith, most))

  pub next_beat-Ring :
      (self : BeatTracker F64) (prev_ns host_ns beat prev : ℕ) (tempo : Option F64)
      → Ring self prev
      → prev + 1 ≡ beat
      → Ring (next_beat fl self prev_ns host_ns beat tempo).1 beat
  unfolding next_beat
  next_beat-Ring self prev_ns host_ns beat prev tempo h next =
      let kept = recent fl self (host_ns - prev_ns) tempo in
      let b : Bracket = newest_bracket prev_ns host_ns beat in
      let pushed = push-Ring kept b prev (recent-Ring self (host_ns - prev_ns) prev tempo h) next in
      let used = agreed-used (push kept b) b tempo host_ns beat (push-some kept b) in
      shorter-Ring (push kept b) beat _ pushed used.1

  pub next_beat-last :
      (self : BeatTracker F64) (prev_ns host_ns beat : ℕ) (tempo : Option F64)
      → (next_beat fl self prev_ns host_ns beat tempo).1.last ≡ self.last
  unfolding next_beat push
  next_beat-last self prev_ns host_ns beat tempo = recent-last self (host_ns - prev_ns) tempo

  pub report-cases :
      (self : BeatTracker F64) (prev_ns prev_beat host_ns beat : ℕ) (playing : Bool)
      (bpm : Option F64)
      → (report fl self prev_ns prev_beat host_ns beat playing bpm ≡ (none, clear self))
        ⊎ (((report fl self prev_ns prev_beat host_ns beat playing bpm ≡ (none, self))
              × (beat ≡ prev_beat))
            ⊎ ((report fl self prev_ns prev_beat host_ns beat playing bpm
                  ≡ next_beat fl self prev_ns host_ns beat (usable fl bpm))
                × (playing ≡ true)
                × (prev_ns ≤ host_ns)
                × (0 < prev_beat)
                × (prev_beat + 1 ≡ beat)))
  unfolding report
  report-cases self prev_ns prev_beat host_ns beat playing bpm =
      elim (Bool-cases (ltb host_ns prev_ns || not playing)) [
        | inl early ↦ inl (rw (report, early) refl)
        | inr going ↦ elim (Bool-cases (beat == prev_beat)) [
          | inl same ↦ inr (inl (rw (report, going, same) refl, ground arith))
          | inr other ↦ elim (Bool-cases (prev_beat == 0 || not (follows prev_beat beat))) [
            | inl jump ↦ inl (rw (report, going, other, jump) refl)
            | inr step ↦
                let (moving, order) = order_of host_ns prev_ns playing going in
                let (positive, next) = step_of prev_beat beat step in
                inr (inr (rw (report, going, other, step) refl, moving, order, positive, next))
          ]
        ]
      ]
