-- ===== src/Sequencer/Queue/Create.antt =====
-- `event_queue` of core/sequencer/src/queue.rs.
use native.Mathlib.Decide.{dec_lt}
use native.Mathlib.Nat.{mod-eq_of_lt, pow-suc}
use native.Mathlib.Numerals.{add-one}
use player.Common.{
  ℕ, zero, suc, ◌+◌, ◌-◌, ◌*◌, ◌^◌, ◌≤◌, ◌<◌, ◌≡◌, refl, sym, ap, ◌∙◌, max, Bool-cases, leb, leb→le,
  ◌⊎◌, inl, inr, none, [], arith, length-replicate,
}
use player.Common.Bits.{pow_pos}
use player.Sequencer.Queue.{capacity, event_queue, next_power_of_two}
use player.Sequencer.Queue.Refinement.{Refines}

-- A power of two below 2 ^ w that holds `n` is reached before the fuel ends.
doubling :
    (fuel j n w : ℕ)
    → j + fuel ≡ w
    → n ≤ 2 ^ (w - 1)
    → 0 < w
    → j < w
    → (k : ℕ) × (next_power_of_two fuel (2 ^ j) n ≡ 2 ^ k)
      × (k < w)
      × (n ≤ 2 ^ k)
      × ((k ≡ j) ⊎ (2 ^ k < n * 2))
unfolding next_power_of_two
doubling zero j n w e h pos below = absurd (omega arith)
doubling (suc fuel) j n w e h pos below = elim (Bool-cases (leb n (2 ^ j))) [
  | inl big ↦ (j, rw (big, next_power_of_two), below, leb→le _ _ big, inl refl)
  | inr small ↦
      let above : 2 ^ j < n = ground arith in
      let (k, reach, width, holds, least) =
        doubling fuel (j + 1) n w (omega arith) h pos (further above) in
      (
        k,
        rw (small, next_power_of_two) (ap (λ t. next_power_of_two fuel t n) double ∙ reach),
        width,
        holds,
        inr (elim least [
          | inl same ↦ omega (arith, above, double, ap (λ (t : ℕ). 2 ^ t) same)
          | inr near ↦ near
        ]),
      )
]
  where
    double : 2 ^ j * 2 ≡ 2 ^ (j + 1)
    double = rw add-one (sym (pow-suc 2 j))

    further : 2 ^ j < n → j + 1 < w
    further above = elim (dec_lt (j + 1) w) [
      | yes more ↦ more
      | no last ↦
          let top : w - 1 ≡ j = omega arith in
          absurd (omega (arith, above, h, ap (λ (t : ℕ). 2 ^ t) top))
    ]

-- A new ring is well formed and empty, and its capacity is the least power of two that is at least
-- the requested one and at least 2, if those fit in half of the range of `usize`.
pub event_queue-Refines {ℓ} :
    {A : Type ℓ} (w requested : ℕ)
    → max requested 2 ≤ 2 ^ (w - 1)
    → 0 < w
    → (k : ℕ) × Refines {A = A} w k (event_queue w requested) []
      × (capacity {A = A} (event_queue w requested) ≡ 2 ^ k)
      × (max requested 2 ≤ 2 ^ k)
      × (2 ^ k < max requested 2 * 2)
unfolding event_queue capacity
event_queue-Refines {A} w requested h pos =
    let (k, reach, width, holds, least) =
      doubling w 0 (max requested 2) w (omega arith) h pos pos in
    (
      k,
      record {
        width = width;
        mask_eq = ap (λ t. t - 1) reach;
        size_eq = length-replicate _ none ∙ reach;
        head_lt = pow_pos w;
        tail_eq = sym (mod-eq_of_lt (omega (arith, pow_pos w)));
        fits = omega arith;
        holds = tt;
      },
      omega (arith, reach, pow_pos k),
      holds,
      elim least [
        | inl one ↦ absurd (omega (arith, holds, ap (λ (t : ℕ). 2 ^ t) one))
        | inr near ↦ near
      ],
    )
