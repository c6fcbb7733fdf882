-- ===== src/Sequencer/Queue/Window.antt =====
-- The slots of the ring that hold a given list, from a position on.
use native.Mathlib.Nat.{add-mod, mod-lt, mod-eq_of_lt, mod-eq-sub-mod, mod-add-mod}
use mathlib.Core.Path.{subst}
use native.Mathlib.Decide.{dec_lt}
use player.Common.{
  ℕ, suc, ◌+◌, ◌-◌, ◌%◌, ◌≤◌, ◌<◌, ◌≡◌, ◌≢◌, sym, ap, ◌∙◌, Option, some, List, [], ◌∷◌, ◌++◌, arith,
  length, get_elem?, set, get_elem?-set_ne,
}

-- Two positions less than a lap apart have different slots.
pub slot_ne : (i n c : ℕ) → 0 < n → n < c → i % c ≢ (i + n) % c
slot_ne i n c p h e = elim (dec_lt (i % c + n) c) [
  | yes fits ↦ omega (arith, e, moved, mod-eq_of_lt fits)
  | no laps ↦ omega (
    arith,
    e,
    moved,
    mod-eq-sub-mod {n = i % c + n} {m = c} (omega arith),
    mod-eq_of_lt {n = i % c + n - c} {m = c} (omega (arith, below)),
    below,
  )
]
  where
    below : i % c < c
    below = mod-lt i (omega arith)

    moved : (i + n) % c ≡ (i % c + n) % c
    moved = sym (mod-add-mod i c n)

pub mod_suc : (i j c : ℕ) → i % c ≡ j % c → (i + 1) % c ≡ (j + 1) % c
mod_suc i j c e = add-mod i 1 c ∙ ap (λ t. (t + 1 % c) % c) e ∙ sym (add-mod j 1 c)

module _ {ℓ} {A : Type ℓ} where
  abbrev pub Holds : ℕ → List (Option A) → ℕ → List A → Type ℓ
  Holds c slots i [] = Unit {ℓ}
  Holds c slots i (x ∷ xs) = (get_elem? slots (i % c) ≡ some (some x)) × Holds c slots (i + 1) xs

  pub Holds-mod :
      (c : ℕ) (slots : List (Option A)) (i j : ℕ) (xs : List A)
      → i % c ≡ j % c
      → Holds c slots i xs
      → Holds c slots j xs
  Holds-mod c slots i j [] e h = tt
  Holds-mod c slots i j (x ∷ xs) e h =
      (rw (sym e) h.0, Holds-mod c slots (i + 1) (j + 1) xs (mod_suc i j c e) h.1)

  -- A write further on, within the lap, leaves the list in place.
  pub Holds-set :
      (c : ℕ) (slots : List (Option A)) (i n : ℕ) (v : Option A) (xs : List A)
      → length xs ≤ n
      → n < c
      → Holds c slots i xs
      → Holds c (set slots ((i + n) % c) v) i xs
  Holds-set c slots i n v [] l m h = tt
  Holds-set c slots i n v (x ∷ xs) l m h = (
    get_elem?-set_ne slots ((i + n) % c) (i % c) v (λ e. slot_ne i n c (omega arith) m (sym e))
        ∙ h.0,
    subst (λ t. Holds c (set slots (t % c) v) (i + 1) xs) (sym next)
        (Holds-set c slots (i + 1) (n - 1) v xs (omega arith) (omega arith) h.1),
  )
    where
      next : i + n ≡ i + 1 + (n - 1)
      next = omega arith

  pub Holds-append :
      (c : ℕ) (slots : List (Option A)) (i : ℕ) (xs : List A) (x : A)
      → Holds c slots i xs
      → get_elem? slots ((i + length xs) % c) ≡ some (some x)
      → Holds c slots i (xs ++ x ∷ [])
  Holds-append c slots i [] x h e =
      (subst (λ t. get_elem? slots (t % c) ≡ some (some x)) zero_end e, tt)
    where
      zero_end : i + 0 ≡ i
      zero_end = omega arith
  Holds-append c slots i (y ∷ xs) x h e = (
    h.0,
    Holds-append c slots (i + 1) xs x h.1
        (subst (λ t. get_elem? slots (t % c) ≡ some (some x)) next e),
  )
    where
      next : i + suc (length xs) ≡ i + 1 + length xs
      next = omega arith
