-- ===== src/Engine/Queued/Cutting.antt =====
-- A cut takes no step apart: each is heard whole or dropped whole.
use player.Common.{
  ℕ, zero, suc, ◌+◌, ◌≤◌, ◌<◌, ◌≡◌, refl, sym, ap, ◌∙◌, max, Option, none, some, List, [], ◌∷◌,
  ◌++◌, ltb, arith, All, Bool-cases, inl, inr,
}
use player.Engine.Queued.{Queued, QueuedLog, Cut, newest, cut_loop, cut, flush_from}
use player.Engine.Queued.Contents.{
  last_entries, contents, Inv, Precedes, IsOrdered, before, contents-flush_from,
}

abbrev pub last_or : Option Queued → List Queued → Option Queued
last_or otherwise [] = otherwise
last_or otherwise (q ∷ qs) = last_or (some q) qs

abbrev pub first_or : Option ℕ → List Queued → Option ℕ
first_or otherwise [] = otherwise
first_or otherwise (q ∷ qs) = some q.step

-- `qs` in two parts at the cut `to`, which started as `from`.
pub record Parted (from to : Cut) (qs : List Queued) : Type 0 where
  pub kept : List Queued
  pub lost : List Queued
  pub parts : qs ≡ kept ++ lost
  pub not_before : from.flush ≤ to.flush
  pub whole : All (λ q. q.sample < to.flush) kept
  pub intact : All (λ q. to.flush ≤ q.first) lost
  pub newest_kept : to.heard ≡ last_or from.heard kept
  pub first_lost : to.dropped ≡ first_or from.dropped lost

All-firsts :
    (flush : ℕ) (q : Queued) (qs : List Queued)
    → flush ≤ q.first
    → All (Precedes q) qs
    → All (λ x. flush ≤ x.first) qs
All-firsts flush q [] h a = tt
All-firsts flush q (x ∷ qs) h ((le, _), a) = (omega arith, All-firsts flush q qs h a)

-- The cut after one step that is heard.
abbrev hearing : Queued → Cut → Cut
hearing q from = record {
  flush = max from.flush (q.sample + 1);
  heard = some q;
  dropped = from.dropped;
}

Parted-heard :
    (q : Queued) (qs : List Queued) (from to : Cut)
    → Parted (hearing q from) to qs
    → Parted from to (q ∷ qs)
Parted-heard q qs from to h = record {
  kept = q ∷ h.kept;
  lost = h.lost;
  parts = ap (◌∷◌ q) h.parts;
  not_before = omega (arith, h.not_before);
  whole = (omega (arith, h.not_before), h.whole);
  intact = h.intact;
  newest_kept = h.newest_kept;
  first_lost = h.first_lost;
}

cut_loop-Parted :
    (self : QueuedLog) (n : ℕ) (from : Cut)
    → IsOrdered (last_entries self n)
    → Parted from (cut_loop self n from) (last_entries self n)
unfolding last_entries cut_loop
cut_loop-Parted self zero from h = record {
  kept = [];
  lost = [];
  parts = refl;
  not_before = omega arith;
  whole = tt;
  intact = tt;
  newest_kept = refl;
  first_lost = refl;
}
cut_loop-Parted self (suc i) from (le, ahead, h) =
    elim (Bool-cases (ltb (newest self i).first from.flush)) [
      | inl lt ↦
          rw (cut_loop, lt)
            (Parted-heard (newest self i) (last_entries self i) from _
              (cut_loop-Parted self i (hearing (newest self i) from) h))
      | inr ge ↦
          rw (cut_loop, ge)
            (record {
              kept = [];
              lost = newest self i ∷ last_entries self i;
              parts = refl;
              not_before = omega arith;
              whole = tt;
              intact = (
                ground arith,
                All-firsts from.flush (newest self i) (last_entries self i) (ground arith) ahead,
              );
              newest_kept = refl;
              first_lost = refl;
            })
    ]

abbrev pub uncut : ℕ → Cut
uncut commit = record { flush = commit; heard = none; dropped = none }

before-parts :
    (flush : ℕ) (kept lost : List Queued)
    → All (λ q. q.sample < flush) kept
    → All (λ q. flush ≤ q.first) lost
    → IsOrdered (kept ++ lost)
    → before flush (kept ++ lost) ≡ kept
unfolding before
before-parts flush [] [] hk hl h = refl
before-parts flush [] (q ∷ lost) hk (late, hl) (le, ahead, h) =
    ground (arith, before-parts flush [] lost tt hl h)
before-parts flush (q ∷ kept) lost (early, hk) hl (le, ahead, h) =
    ground (arith, before-parts flush kept lost hk hl h)

-- A cut parts the queued steps at its flush, which is not before `commit`: all events of the steps of
-- the first part are before the flush, all of the second part at or after it. `heard` is the last step
-- of the first part and `dropped` the number of the first step of the second. Flushing at the cut
-- leaves in the record exactly the first part. This is where the steps are in order.
pub flush_from-cut :
    (self : QueuedLog) (commit : ℕ)
    → Inv self
    → IsOrdered (contents self)
    → (parted : Parted (uncut commit) (cut self commit) (contents self)) × (contents
          (flush_from self (cut self commit).flush)
        ≡ parted.kept)
unfolding cut
flush_from-cut self commit inv h =
    let parted = cut_loop-Parted self self.len (uncut commit) h in
    let flush = (cut self commit).flush in
    (
      parted,
      contents-flush_from self flush inv h
          ∙ ap (before flush) parted.parts
          ∙ before-parts flush parted.kept parted.lost parted.whole parted.intact
              (rw (sym parted.parts) h),
    )
