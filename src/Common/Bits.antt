-- ===== src/Common/Bits.antt =====
-- Bit masks as remainders, and the exclusive or.
use Prim.Native.Nat.{
  ℕ, zero, suc, ◌+◌, ◌-◌, ◌*◌, ◌/◌, ◌%◌, ◌^◌, ◌≤◌, ◌<◌, min, bit_and, bit_xor, differ, digits,
  bit_and-bitwise, bit_xor-bitwise,
}
use mathlib.Core.Path.{◌≡◌, refl, sym, ap, ◌∙◌}
use native.Mathlib.Omega.{arith}
use native.Mathlib.Nat.{pow-suc, div-add-mod, add-mul-mod_self_left, mod-eq_of_lt, mod-lt}

pub pow_pos : (k : ℕ) → 0 < 2 ^ k
pow_pos zero = omega arith
pow_pos (suc k) = omega (arith, pow-suc 2 k, pow_pos k)

-- The lowest bit and the rest of a remainder by `p * 2`.
mod-mul_two : (a p : ℕ) → 0 < p → a % (p * 2) ≡ a / 2 % p * 2 + a % 2
mod-mul_two a p h =
    ap (λ t. t % (p * 2)) split
    ∙ add-mul-mod_self_left (a / 2 % p * 2 + a % 2) (p * 2) (a / 2 / p)
    ∙ mod-eq_of_lt (omega (arith, mod-lt (a / 2) h))
  where
    split : a ≡ (a / 2 % p * 2 + a % 2) + p * 2 * (a / 2 / p)
    split = omega (arith, div-add-mod (a / 2) p, div-add-mod a 2)

half_mask : (k : ℕ) → (2 ^ suc k - 1) / 2 ≡ 2 ^ k - 1
half_mask k = omega (arith, pow-suc 2 k, pow_pos k)

low_mask : (k : ℕ) → (2 ^ suc k - 1) % 2 ≡ 1
low_mask k = omega (arith, pow-suc 2 k, pow_pos k)

-- The digits of `a` that a mask of `k` ones leaves, where `a` has at most `n` of them.
masked : ℕ → ℕ → ℕ → ℕ
masked n k a = digits (λ b. zero) min n a (2 ^ k - 1)

masked_lem : (n k a : ℕ) → a ≤ n → masked n k a ≡ a % 2 ^ k
unfolding masked
masked_lem zero k zero h = sym (mod-eq_of_lt (pow_pos k))
masked_lem zero k (suc a) h = absurd (omega arith)
masked_lem (suc n) k zero h = sym (mod-eq_of_lt (pow_pos k))
masked_lem (suc n) zero (suc a) h = omega (arith, masked_lem n 0 (suc a / 2) (omega arith))
masked_lem (suc n) (suc k) (suc a) h = omega (
  arith,
  ap (digits (λ b. zero) min n (suc a / 2)) (half_mask k),
  low_mask k,
  masked_lem n k (suc a / 2) (omega arith),
  ap (λ p. suc a % p) (pow-suc 2 k),
  mod-mul_two (suc a) (2 ^ k) (pow_pos k),
)

-- A mask of `k` ones keeps the low `k` bits.
pub bit_and-mask : (k a : ℕ) → bit_and a (2 ^ k - 1) ≡ a % 2 ^ k
unfolding masked
bit_and-mask k a = bit_and-bitwise a (2 ^ k - 1) ∙ masked_lem a k a (omega arith)

-- A remainder by a multiple of `c` has the same remainder by `c`.
pub mod-mod_mul : (x c q : ℕ) → x % (c * q) % c ≡ x % c
mod-mod_mul x c q =
    sym (ap (λ t. t % c) split ∙ add-mul-mod_self_left (x % (c * q)) c (q * (x / (c * q))))
  where
    split : x ≡ x % (c * q) + c * (q * (x / (c * q)))
    split = omega (arith, div-add-mod x (c * q))

-- The digits of `bit_xor a b`, where `a` has at most `n` of them.
abbrev xor_digits : ℕ → ℕ → ℕ → ℕ
xor_digits n a b = digits (λ b. b) differ n a b

xor_digits_fuel : (n m a b : ℕ) → a ≤ n → a ≤ m → xor_digits n a b ≡ xor_digits m a b
xor_digits_fuel zero zero a b p q = refl
xor_digits_fuel zero (suc m) zero b p q = refl
xor_digits_fuel zero (suc m) (suc a) b p q = absurd (omega arith)
xor_digits_fuel (suc n) zero zero b p q = refl
xor_digits_fuel (suc n) zero (suc a) b p q = absurd (omega arith)
xor_digits_fuel (suc n) (suc m) zero b p q = refl
xor_digits_fuel (suc n) (suc m) (suc a) b p q =
    omega (arith, xor_digits_fuel n m (suc a / 2) (b / 2) (omega arith) (omega arith))

zero-bit_xor : (b : ℕ) → bit_xor 0 b ≡ b
zero-bit_xor b = bit_xor-bitwise 0 b

zero-differ : (q : ℕ) → differ 0 q ≡ q
zero-differ q = refl

bit_xor_step : (a b : ℕ) → bit_xor a b ≡ bit_xor (a / 2) (b / 2) * 2 + differ (a % 2) (b % 2)
bit_xor_step zero b =
    omega (arith, zero-bit_xor b, zero-bit_xor (b / 2), zero-differ (b % 2), div-add-mod b 2)
bit_xor_step (suc a) b = omega (
  arith,
  bit_xor-bitwise (suc a) b,
  bit_xor-bitwise (suc a / 2) (b / 2),
  xor_digits_fuel a (suc a / 2) (suc a / 2) (b / 2) (omega arith) (omega arith),
)

-- On single digits, the exclusive or is a digit and undoes itself.
differ_twice : (p q : ℕ) → p < 2 → q < 2 → (differ p q < 2) × (differ (differ p q) q ≡ p)
differ_twice zero zero hp hq = (omega arith, refl)
differ_twice zero (suc zero) hp hq = (omega arith, refl)
differ_twice (suc zero) zero hp hq = (omega arith, refl)
differ_twice (suc zero) (suc zero) hp hq = (omega arith, refl)
differ_twice (suc (suc p)) q hp hq = absurd (omega arith)
differ_twice p (suc (suc q)) hp hq = absurd (omega arith)

xor_twice : (n a b : ℕ) → a ≤ n → b ≤ n → bit_xor (bit_xor a b) b ≡ a
xor_twice zero zero zero ha hb = refl
xor_twice zero (suc a) b ha hb = absurd (omega arith)
xor_twice zero a (suc b) ha hb = absurd (omega arith)
xor_twice (suc n) a b ha hb =
    let d = differ (a % 2) (b % 2) in
    let (small, back) = differ_twice (a % 2) (b % 2) (omega arith) (omega arith) in
    let upper : bit_xor a b / 2 ≡ bit_xor (a / 2) (b / 2) =
      omega (arith, bit_xor_step a b, small) in
    let lower : bit_xor a b % 2 ≡ d = omega (arith, bit_xor_step a b, small) in
    omega (
      arith,
      bit_xor_step (bit_xor a b) b,
      ap (λ t. bit_xor t (b / 2)) upper,
      ap (λ t. differ t (b % 2)) lower,
      back,
      xor_twice n (a / 2) (b / 2) (omega arith) (omega arith),
      div-add-mod a 2,
    )

-- A second exclusive or with the same number undoes the first.
pub bit_xor_twice : (a b : ℕ) → bit_xor (bit_xor a b) b ≡ a
bit_xor_twice a b = xor_twice (a + b) a b (omega arith) (omega arith)
