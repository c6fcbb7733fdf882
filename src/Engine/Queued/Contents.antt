-- ===== src/Engine/Queued/Contents.antt =====
-- The ring is the list of the steps queued last, the oldest first.
use player.Common.{
  ℕ, zero, suc, ◌+◌, ◌-◌, ◌*◌, ◌%◌, ◌≤◌, ◌<◌, ◌≡◌, refl, sym, ap, ◌∙◌, min, true, false, List, [],
  ◌∷◌, ◌++◌, ltb, leb, ltb→lt, if◌then◌else◌, length, get_or, set, drop, arith, All, length-set,
  get_or-set_self, get_or-set_ne, Bool-cases, inl, inr,
}
use player.Engine.Queued.{
  queued_memory, Queued, no_step, QueuedLog, new, push, newest, forget, flush_loop, flush_from,
}

-- The `n` newest entries, the oldest first.
unfoldable pub last_entries : QueuedLog → ℕ → List Queued
last_entries self zero = []
last_entries self (suc n) = newest self n ∷ last_entries self n

abbrev pub contents : QueuedLog → List Queued
contents self = last_entries self self.len

pub record Inv (self : QueuedLog) : Type 0 where
  pub size : length self.entries ≡ queued_memory
  pub head_in : self.head < queued_memory
  pub len_in : self.len ≤ queued_memory

pub new-Inv : Inv new
unfolding new
new-Inv = record { size = refl; head_in = omega arith; len_in = omega arith }

pub push-Inv : (self : QueuedLog) (queued : Queued) → Inv self → Inv (push self queued)
unfolding push
push-Inv self queued h = record {
  size = length-set self.entries self.head queued ∙ h.size;
  head_in = omega arith;
  len_in = omega arith;
}

newest-push-zero :
    (self : QueuedLog) (queued : Queued) → Inv self → newest (push self queued) 0 ≡ queued
unfolding newest push
newest-push-zero self queued h =
    let at : ((self.head + 1) % queued_memory + 2 * queued_memory - 1 - 0) % queued_memory
        ≡ self.head =
      omega (arith, h.head_in) in
    ap (λ t. get_or (set self.entries self.head queued) t no_step) at
    ∙ get_or-set_self self.entries self.head queued no_step (omega (arith, h.size, h.head_in))

newest-push-suc :
    (self : QueuedLog) (queued : Queued) (i : ℕ)
    → Inv self
    → i + 1 < queued_memory
    → newest (push self queued) (suc i) ≡ newest self i
unfolding newest push
newest-push-suc self queued i h small =
    let from = (self.head + 2 * queued_memory - 1 - i) % queued_memory in
    let at : ((self.head + 1) % queued_memory + 2 * queued_memory - 1 - suc i) % queued_memory
        ≡ from =
      omega (arith, h.head_in) in
    ap (λ t. get_or (set self.entries self.head queued) t no_step) at
    ∙ get_or-set_ne self.entries self.head from queued no_step (λ e. omega (arith, e, h.head_in))

newest-forget :
    (self : QueuedLog) (i : ℕ)
    → Inv self
    → i + 1 < queued_memory
    → newest (forget self) i ≡ newest self (suc i)
unfolding newest
newest-forget self i h small = ap (λ t. get_or self.entries t no_step) (omega (arith, h.head_in))

last_entries-push :
    (self : QueuedLog) (queued : Queued) (n : ℕ)
    → Inv self
    → n < queued_memory
    → last_entries (push self queued) (suc n) ≡ last_entries self n ++ queued ∷ []
unfolding last_entries
last_entries-push self queued zero h small = ap (λ t. t ∷ []) (newest-push-zero self queued h)
last_entries-push self queued (suc n) h small =
    ap (λ t. t ∷ last_entries (push self queued) (suc n))
      (newest-push-suc self queued n h (omega arith))
    ∙ ap (◌∷◌ (newest self n)) (last_entries-push self queued n h (omega arith))

-- A step is added behind the others; in a full ring the oldest one goes.
pub contents-push :
    (self : QueuedLog) (queued : Queued)
    → Inv self
    → contents (push self queued)
      ≡ drop (self.len + 1 - queued_memory) (contents self) ++ queued ∷ []
unfolding last_entries push
contents-push self queued h = elim (Bool-cases (ltb self.len queued_memory)) [
  | inl lt ↦
      let room = ltb→lt self.len queued_memory lt in
      let longer : min (self.len + 1) queued_memory ≡ suc self.len = omega arith in
      let kept : 0 ≡ self.len + 1 - queued_memory = omega arith in
      ap (last_entries (push self queued)) longer
      ∙ last_entries-push self queued self.len h room
      ∙ ap (λ t. drop t (contents self) ++ queued ∷ []) kept
  | inr ge ↦
      let full : queued_memory ≡ self.len = ground (arith, h.len_in) in
      let same : min (self.len + 1) queued_memory ≡ queued_memory = omega arith in
      ap (last_entries (push self queued)) same
      ∙ last_entries-push self queued 31 h (omega arith)
      ∙ ap (λ t. drop (t + 1 - queued_memory) (last_entries self t) ++ queued ∷ []) full
]

last_entries-forget :
    (self : QueuedLog) (n : ℕ)
    → Inv self
    → n < queued_memory
    → last_entries self (suc n) ≡ last_entries (forget self) n ++ newest self 0 ∷ []
unfolding last_entries
last_entries-forget self zero h small = refl
last_entries-forget self (suc n) h small =
    ap (λ t. t ∷ last_entries self (suc n)) (sym (newest-forget self n h (omega arith)))
    ∙ ap (◌∷◌ (newest (forget self) n)) (last_entries-forget self n h (omega arith))

forget-Inv : (self : QueuedLog) → Inv self → Inv (forget self)
forget-Inv self h = record {
  size = h.size;
  head_in = omega arith;
  len_in = omega (arith, h.len_in);
}

-- The steps in order: each grace note no later than its hit, and both growing from step to step.
abbrev pub Precedes : Queued → Queued → Type 0
Precedes a b = (a.first ≤ b.first) × (a.sample ≤ b.sample)

abbrev pub IsOrdered : List Queued → Type 0
IsOrdered [] = Unit {0}
IsOrdered (q ∷ qs) = (q.first ≤ q.sample) × All (Precedes q) qs × IsOrdered qs

-- The steps whose hit is before `sample`.
unfoldable pub before : ℕ → List Queued → List Queued
before sample [] = []
before sample (q ∷ qs) = if leb sample q.sample then before sample qs else q ∷ before sample qs

before-snoc_late :
    (sample : ℕ) (qs : List Queued) (q : Queued)
    → leb sample q.sample ≡ true
    → before sample (qs ++ q ∷ []) ≡ before sample qs
unfolding before
before-snoc_late sample [] q e = rw e refl
before-snoc_late sample (x ∷ qs) q e = ground (arith, before-snoc_late sample qs q e)

All-last :
    (P : Queued → Type 0) (qs : List Queued) (q : Queued) → All P (qs ++ q ∷ []) → All P qs × P q
All-last P [] q (h, rest) = (tt, h)
All-last P (x ∷ qs) q (h, rest) = let (front, last) = All-last P qs q rest in ((h, front), last)

before-snoc_early :
    (sample : ℕ) (qs : List Queued) (q : Queued)
    → leb sample q.sample ≡ false
    → IsOrdered (qs ++ q ∷ [])
    → before sample (qs ++ q ∷ []) ≡ qs ++ q ∷ []
unfolding before
before-snoc_early sample [] q e h = rw e refl
before-snoc_early sample (x ∷ qs) q e (whole, ahead, h) =
    let (front, last) = All-last (Precedes x) qs q ahead in
    ground (arith, before-snoc_early sample qs q e h)

IsOrdered-front : (qs : List Queued) (q : Queued) → IsOrdered (qs ++ q ∷ []) → IsOrdered qs
IsOrdered-front [] q h = tt
IsOrdered-front (x ∷ qs) q (whole, ahead, h) =
    (whole, (All-last (Precedes x) qs q ahead).0, IsOrdered-front qs q h)

contents-flush_loop :
    (n : ℕ) (self : QueuedLog) (sample : ℕ)
    → self.len ≡ n
    → Inv self
    → IsOrdered (last_entries self n)
    → contents (flush_loop n self sample) ≡ before sample (last_entries self n)
unfolding last_entries flush_loop before
contents-flush_loop zero self sample e inv h = ap (last_entries self) e
contents-flush_loop (suc n) self sample e inv h =
    let split = last_entries-forget self n inv (omega (arith, e, inv.len_in)) in
    let here : ltb 0 self.len ≡ true = rw e (ground arith) in
    let ordered : IsOrdered (last_entries (forget self) n ++ newest self 0 ∷ []) =
      rw (sym split) h in
    elim (Bool-cases (leb sample (newest self 0).sample)) [
      | inl late ↦
          rw (flush_loop, here, late)
            (contents-flush_loop n (forget self) sample (omega (arith, e)) (forget-Inv self inv)
                (IsOrdered-front (last_entries (forget self) n) (newest self 0) ordered)
              ∙ sym (before-snoc_late sample (last_entries (forget self) n) (newest self 0) late)
              ∙ ap (before sample) (sym split))
      | inr early ↦
          rw (flush_loop, here, early)
            (ap (last_entries self) e
              ∙ split
              ∙ sym (
                  before-snoc_early sample (last_entries (forget self) n) (newest self 0) early
                    ordered)
              ∙ ap (before sample) (sym split))
    ]

-- A flush forgets exactly the steps whose hit it drops.
pub contents-flush_from :
    (self : QueuedLog) (sample : ℕ)
    → Inv self
    → IsOrdered (contents self)
    → contents (flush_from self sample) ≡ before sample (contents self)
unfolding flush_from
contents-flush_from self sample inv h = contents-flush_loop self.len self sample refl inv h
