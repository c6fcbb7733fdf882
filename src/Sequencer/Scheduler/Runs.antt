-- ===== src/Sequencer/Scheduler/Runs.antt =====
-- Several calls of `Scheduler::schedule`: a run from its start to its end.
use mathlib.Core.List.{append-nil, flatten}
use mathlib.Core.Path.{subst}
use mathlib.Core.Option
use player.Common.{
  ℕ, ◌+◌, ◌≤◌, ◌<◌, ◌≡◌, sym, ap, ◌∙◌, true, Option, none, some, List, ◌++◌, ◌⊎◌, inl, inr, arith,
  false, Bool, [], ◌∷◌, Bool-cases, ◌^◌, ◌-◌, refl,
}
use player.Common.Floats.{Floats}
use player.Sequencer.Clock.{ClockSource}
use player.Sequencer.Event.{Event}
use player.Sequencer.Queue.{Shared}
use player.Sequencer.Queue.Refinement.{Refines}
use player.Sequencer.Scheduler.{Scheduler, ended, start_at, schedule}
use player.Sequencer.Scheduler.Emits.{span, Emits}
use player.Sequencer.Scheduler.Run.{schedule-Emits}
use player.Sequencer.Scheduler.Resume.{span-append, stops_at, leb_self, ended_at, call_length}

module _ (fl : Floats) (clock : ClockSource fl) where
  open fl use {F32}

  module _ (w k fuel : ℕ) where
    -- A call of `schedule`: its horizon, and the ring as the consumer has left it.
    pub record ScheduleCall : Type 0 where
      pub horizon : ℕ
      pub ring : Shared (Event F32)
      pub contents : List (Event F32)
      pub held : Refines w k ring contents

    -- The calls one after another, with the rings that they leave.
    unfoldable pub play :
        Scheduler fl → List ScheduleCall → Option (Scheduler fl × List (Shared (Event F32)))
    play s [] = some (s, [])
    play s (c ∷ calls) = elim (schedule fl w clock fuel s c.horizon c.ring) [
      | none ↦ none
      | some r ↦ Option.map (λ t. (t.0, r.2 ∷ t.1)) (play r.0 calls)
    ]

    -- Every ring holds what it held before its call, and then the call's events.
    abbrev pub Behind :
        List ScheduleCall → List (Shared (Event F32)) → List (List (Event F32)) → Type 0
    Behind [] [] [] = Unit {0}
    Behind (c ∷ calls) (r ∷ rings) (es ∷ events) =
        Refines w k r (c.contents ++ es) × Behind calls rings events
    Behind _ _ _ = ⊥

    -- The calls return, and together emit the next steps, at most `left`, each once and in order; a run
    -- that is over has emitted them all.
    pub record Plays (s : Scheduler fl) (left : ℕ) (calls : List ScheduleCall) : Type 0 where
      pub steps : ℕ
      pub playing : Bool
      pub rings : List (Shared (Event F32))
      pub events : List (List (Event F32))
      pub reply :
          play s calls
          ≡ some (record s { next_step = s.next_step + steps; playing = playing }, rings)
      pub behind : Behind calls rings events
      pub whole : flatten events ≡ span fl clock s.pattern s.next_step steps
      pub within : steps ≤ left
      pub over : (playing ≡ true) ⊎ (steps ≡ left)

    schedule-Plays :
        (s : Scheduler fl) (left : ℕ) (c : ScheduleCall) (calls : List ScheduleCall)
        (em : Emits fl clock w k c.horizon s c.ring c.contents 0
          (schedule fl w clock fuel s c.horizon c.ring))
        → (em.steps ≤ left)
        → Plays
            (record s { next_step = s.next_step + em.steps; playing = em.playing })
            (left - em.steps)
            calls
        → Plays s left (c ∷ calls)
    unfolding play flatten
    schedule-Plays s left c calls em short p =
        let a = em.steps in
        let first = span fl clock s.pattern s.next_step a in
        record {
          steps = a + p.steps;
          playing = p.playing;
          rings = em.ring ∷ p.rings;
          events = first ∷ p.events;
          reply =
              rw (em.reply, play)
                (rw p.reply (
                  ap
                    (λ n. some (record s { next_step = n; playing = p.playing }, em.ring ∷ p.rings))
                    (omega arith)));
          behind = (em.holds, p.behind);
          whole =
              ap (◌++◌ first) p.whole ∙ sym (span-append fl clock s.pattern s.next_step a p.steps);
          within = omega (arith, p.within, short);
          over = elim p.over [ inl on ↦ inl on | inr all ↦ inr (omega (arith, all, short)) ];
        }

    nil-Plays : (s : Scheduler fl) (left : ℕ) → (s.playing ≡ true) ⊎ (left ≡ 0) → Plays s left []
    unfolding play span flatten
    nil-Plays s left on = record {
      steps = 0;
      playing = s.playing;
      rings = [];
      events = [];
      reply = ap (λ n. some (record s { next_step = n }, [])) (omega arith);
      behind = tt;
      whole = refl;
      within = omega arith;
      over = elim on [ inl e ↦ inl e | inr e ↦ inr (omega (arith, e)) ];
    }

    -- A call of a scheduler that has stopped changes nothing.
    idle-Plays :
        (s : Scheduler fl) (left : ℕ) (c : ScheduleCall) (calls : List ScheduleCall)
        → s.playing ≡ false
        → Plays s left calls
        → Plays s left (c ∷ calls)
    unfolding play schedule flatten
    idle-Plays s left c calls off p =
        let back : schedule fl w clock fuel s c.horizon c.ring ≡ some (s, 0, c.ring) =
          rw (off, schedule) refl in
        record {
          steps = p.steps;
          playing = p.playing;
          rings = c.ring ∷ p.rings;
          events = [] ∷ p.events;
          reply = rw (back, play) (rw p.reply refl);
          behind = (subst (Refines w k c.ring) (sym (append-nil c.contents)) c.held, p.behind);
          whole = p.whole;
          within = p.within;
          over = p.over;
        }

    left-Plays :
        (calls : List ScheduleCall) (s : Scheduler fl) (left : ℕ)
        → s.stop_at ≡ some (s.next_step + left)
        → (s.playing ≡ true) ⊎ (left ≡ 0)
        → left < fuel
        → s.next_step + left + fuel < 2 ^ 64
        → Plays s left calls
    left-Plays [] s left stops on enough bound = nil-Plays s left on
    left-Plays (c ∷ calls) s left stops on enough bound = elim (Bool-cases s.playing) [
      | inr off ↦ idle-Plays s left c calls off (left-Plays calls s left stops on enough bound)
      | inl going ↦
          let ends : ended fl w s.stop_at (s.next_step + left) ≡ true =
            ended_at fl clock w (s.next_step + left) (s.next_step + left) _ stops
            ∙ leb_self fl clock (s.next_step + left) in
          let em =
            schedule-Emits fl clock w k c.horizon fuel left s c.ring c.contents enough (inr ends)
              (omega (arith, bound)) going c.held in
          let (short, all) =
            call_length fl clock w k c.horizon left s c.ring c.contents _ stops em in
          let total : s.next_step + left ≡ s.next_step + em.steps + (left - em.steps) =
            omega (arith, short) in
          schedule-Plays s left c calls em short (
            left-Plays calls (record s { next_step = s.next_step + em.steps; playing = em.playing })
              (left - em.steps) (stops ∙ ap some total)
              (elim all [ inl more ↦ inl more | inr done ↦ inr (omega (arith, done)) ])
              (omega (arith, enough)) (omega (arith, bound, short)))
    ]

    -- A run that is started at a step with a stop-after count: whatever the horizons of the calls of
    -- schedule, and however the consumer empties the ring between them, the calls return and together emit
    -- the steps from that step on, each once and in order, at most as many as the count, and exactly as
    -- many once the run is over. The fuel is above the count, and the steps and the fuel stay below 2 ^ 64.
    pub start_at-Plays :
        (s : Scheduler fl) (step n : ℕ) (calls : List ScheduleCall)
        → s.stop_after ≡ some n
        → n < fuel
        → step + n + fuel < 2 ^ 64
        → Plays (start_at fl s step) n calls
    unfolding start_at
    start_at-Plays s step n calls e enough bound =
        left-Plays calls (start_at fl s step) n
          (stops_at fl clock s step n e ∙ ap some (omega (arith, bound))) (inl refl) enough
          (omega (arith, bound))
