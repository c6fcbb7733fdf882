-- ===== src/Sequencer/Queue/Refinement.antt =====
-- The ring as a bounded first-in first-out list.
use native.Mathlib.Decide.{dec_lt}
use native.Mathlib.Nat.{mod-lt, mod-eq_of_lt, mod-eq-sub-mod, mod-add-mod, pow-suc}
use mathlib.Core.Path.{subst}
use player.Common.{
  ℕ, zero, suc, ◌+◌, ◌-◌, ◌*◌, ◌%◌, ◌^◌, ◌≤◌, ◌<◌, ◌≡◌, sym, ap, ◌∙◌, bit_and, ◌==◌, none, some,
  List, [], ◌∷◌, ◌++◌, arith, length, get_elem?, set, length-set, length-append, get_elem?-set_self,
}
use player.Common.Bits.{bit_and-mask, mod-mod_mul, pow_pos}
use player.Sequencer.Queue.{
  Shared, ok, err, push, pop, vacant, len, is_empty, capacity, wrapping_sub, wrapping_add,
}
use player.Sequencer.Queue.Window.{Holds, Holds-mod, Holds-set, Holds-append}

-- The ring `r`, of 2 ^ k slots on a machine whose `usize` has `w` bits, holds `xs`, oldest first.
pub record Refines {ℓ} {A : Type ℓ} (w k : ℕ) (r : Shared A) (xs : List A) : Type ℓ where
  pub width : k < w
  pub mask_eq : r.mask ≡ 2 ^ k - 1
  pub size_eq : length r.slots ≡ 2 ^ k
  pub head_lt : r.head < 2 ^ w
  pub tail_eq : r.tail ≡ (r.head + length xs) % 2 ^ w
  pub fits : length xs ≤ 2 ^ k
  pub holds : Holds (2 ^ k) r.slots r.head xs

pub pow_split : (k w : ℕ) → k < w → (q : ℕ) × (2 ^ w ≡ 2 ^ k * q) × (2 ≤ q)
pow_split k zero h = elim h [ ]
pow_split k (suc w) h = elim (dec_lt k w) [
  | yes below ↦
      let (q, e, two) = pow_split k w below in
      (q * 2, omega (arith, pow-suc 2 w, ap (λ (t : ℕ). t * 2) e), omega arith)
  | no here ↦
      let same : k ≡ w = omega arith in
      (2, subst (λ t. 2 ^ suc w ≡ 2 ^ t * 2) (sym same) (pow-suc 2 w), omega arith)
]

pub pow_lt : (k w : ℕ) → k < w → 2 ^ k < 2 ^ w
pow_lt k w h = let (q, e, two) = pow_split k w h in grind (arith, pow_pos k)

-- The distance from `h` to a wrapped `h + n`.
sub_wrapped : (h n m : ℕ) → h < m → n < m → ((h + n) % m + m - h) % m ≡ n
sub_wrapped h n m p q = elim (dec_lt (h + n) m) [
  | yes fits ↦
      ap (λ t. (t + m - h) % m) (mod-eq_of_lt fits)
      ∙ mod-eq-sub-mod {n = h + n + m - h} {m = m} (omega arith)
      ∙ ap (λ t. t % m) (omega arith)
      ∙ mod-eq_of_lt q
  | no laps ↦
      ap (λ t. (t + m - h) % m)
        (mod-eq-sub-mod {n = h + n} {m = m} (omega arith)
          ∙ mod-eq_of_lt {n = h + n - m} {m = m} (omega arith))
      ∙ ap (λ t. t % m) (omega arith)
      ∙ mod-eq_of_lt q
]

slot_of : (k w i : ℕ) → k < w → i % 2 ^ w % 2 ^ k ≡ i % 2 ^ k
slot_of k w i h =
    let (q, e, two) = pow_split k w h in ap (λ t. i % t % 2 ^ k) e ∙ mod-mod_mul i (2 ^ k) q

module _ {ℓ} {A : Type ℓ} (w k : ℕ) (r : Shared A) (xs : List A) (v : Refines w k r xs) where
  pub len_lem : len w r ≡ length xs
  unfolding len wrapping_sub
  len_lem =
      ap (λ t. (t + 2 ^ w - r.head) % 2 ^ w) v.tail_eq
      ∙ sub_wrapped r.head (length xs) (2 ^ w) v.head_lt (omega (arith, pow_lt k w v.width, v.fits))

  distance : wrapping_sub w r.tail r.head ≡ length xs
  unfolding len
  distance = len_lem

  pub is_empty_lem : is_empty w r ≡ (length xs == 0)
  unfolding is_empty len
  is_empty_lem = rw distance

  pub capacity_lem : capacity r ≡ 2 ^ k
  unfolding capacity
  capacity_lem = omega (arith, v.mask_eq, pow_pos k)

  -- The room left and the entries make up the capacity.
  pub vacant_lem : vacant w r + length xs ≡ capacity r
  unfolding vacant capacity
  vacant_lem = omega (arith, distance, v.fits, v.mask_eq, pow_pos k)

  tail_slot : bit_and r.tail r.mask ≡ (r.head + length xs) % 2 ^ k
  tail_slot =
      ap (bit_and r.tail) v.mask_eq
      ∙ bit_and-mask k r.tail
      ∙ ap (λ t. t % 2 ^ k) v.tail_eq
      ∙ slot_of k w (r.head + length xs) v.width

  head_slot : bit_and r.head r.mask ≡ r.head % 2 ^ k
  head_slot = ap (bit_and r.head) v.mask_eq ∙ bit_and-mask k r.head

  -- A full ring refuses, hands the event back, and stays as it is.
  pub push_full : (x : A) → length xs ≡ capacity r → push w r x ≡ some (err x, r)
  unfolding push capacity
  push_full x full = ground (arith, distance)

  pushed : A → Shared A
  pushed x = record r {
    slots = set r.slots (bit_and r.tail r.mask) (some x);
    tail = wrapping_add w r.tail 1;
  }

  push_room_eq : (x : A) → length xs < capacity r → push w r x ≡ some (ok, pushed x)
  unfolding push capacity pushed
  push_room_eq x room =
      ground (arith, distance, tail_slot, mod-lt (r.head + length xs) (pow_pos k), v.size_eq)

  pushed-Refines : (x : A) → length xs < capacity r → Refines w k (pushed x) (xs ++ x ∷ [])
  unfolding pushed capacity wrapping_add
  pushed-Refines x room = record {
    width = v.width;
    mask_eq = v.mask_eq;
    size_eq = length-set r.slots _ (some x) ∙ v.size_eq;
    head_lt = v.head_lt;
    tail_eq =
        ap (λ t. (t + 1) % 2 ^ w) v.tail_eq
        ∙ mod-add-mod (r.head + length xs) (2 ^ w) 1
        ∙ ap (λ t. t % 2 ^ w) (omega (arith, length-append xs (x ∷ [])));
    fits = omega (arith, v.mask_eq, length-append xs (x ∷ []), pow_pos k);
    holds =
        Holds-append (2 ^ k) _ r.head xs x
          (subst (λ t. Holds (2 ^ k) (set r.slots t (some x)) r.head xs) (sym tail_slot)
            (Holds-set (2 ^ k) r.slots r.head (length xs) (some x) xs (omega arith)
              (omega (arith, v.mask_eq, pow_pos k)) v.holds))
          (subst
            (λ t. get_elem? (set r.slots t (some x)) ((r.head + length xs) % 2 ^ k) ≡ some (some x))
            (sym tail_slot)
            (get_elem?-set_self r.slots _ (some x)
              (omega (arith, v.size_eq, mod-lt (r.head + length xs) (pow_pos k)))));
  }

  -- With room left, `push` on a well-formed ring stores the event, and the ring then holds it
  -- behind the others.
  pub push_room :
      (x : A)
      → length xs < capacity r
      → (r' : Shared A) × (push w r x ≡ some (ok, r')) × Refines w k r' (xs ++ x ∷ [])
  push_room x room = (pushed x, push_room_eq x room, pushed-Refines x room)

module _ {ℓ} {A : Type ℓ} (w k : ℕ) (r : Shared A) where
  -- An empty ring has nothing to take and stays as it is.
  pub pop_empty : Refines w k r [] → pop w r ≡ some (none, r)
  unfolding pop
  pop_empty v =
      let e : r.head ≡ r.tail =
        sym (v.tail_eq ∙ ap (λ t. t % 2 ^ w) (omega arith) ∙ mod-eq_of_lt v.head_lt) in
      ground arith

  popped : Shared A
  popped = record r { head = wrapping_add w r.head 1 }

  module _ (x : A) (xs : List A) (v : Refines w k r (x ∷ xs)) where
    head_ne_tail : r.head ≡ r.tail → ⊥
    unfolding len wrapping_sub
    head_ne_tail e = omega (
      arith,
      sym (len_lem w k r (x ∷ xs) v) ∙ ap (λ t. (t + 2 ^ w - r.head) % 2 ^ w) (sym e),
      ap (λ t. t % 2 ^ w) lap,
      mod-eq-sub-mod {n = 2 ^ w} {m = 2 ^ w} (omega arith),
      mod-eq_of_lt {n = 2 ^ w - 2 ^ w} {m = 2 ^ w} (omega (arith, pow_pos w)),
    )
      where
        lap : r.head + 2 ^ w - r.head ≡ 2 ^ w
        lap = omega arith

    pop_eq : pop w r ≡ some (some x, popped)
    unfolding pop popped
    pop_eq = ground (arith, head_ne_tail, head_slot w k r (x ∷ xs) v, v.holds.0)

    popped-Refines : Refines w k popped xs
    unfolding popped wrapping_add
    popped-Refines = record {
      width = v.width;
      mask_eq = v.mask_eq;
      size_eq = v.size_eq;
      head_lt = mod-lt (r.head + 1) (pow_pos w);
      tail_eq =
          v.tail_eq
          ∙ ap (λ t. t % 2 ^ w) (omega arith)
          ∙ sym (mod-add-mod (r.head + 1) (2 ^ w) (length xs));
      fits = omega (arith, v.fits);
      holds =
          Holds-mod (2 ^ k) r.slots (r.head + 1) _ xs (sym (slot_of k w (r.head + 1) v.width))
            v.holds.1;
    }

    -- A well-formed ring that holds events gives up the oldest one and then holds the others in
    -- order.
    pub pop_oldest : (r' : Shared A) × (pop w r ≡ some (some x, r')) × Refines w k r' xs
    pop_oldest = (popped, pop_eq, popped-Refines)
