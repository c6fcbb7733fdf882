-- ===== src/Common/Millis.antt =====
-- An instance of the floating-point parameter that evaluates, for tests.
use Prim.Native.Nat.{ℕ, ◌+◌, ◌-◌, ◌*◌, ◌/◌, min, max}
use mathlib.Core.Bool.{true}
use player.Common.Tests.{ltb, leb}
use player.Common.Floats.{Floats}

-- Thousandths in place of floating-point numbers, for tests.
abbrev pub millis : Floats
millis = record {
  F32 = ℕ;
  F64 = ℕ;
  lit32 = λ n d. n * 1000 / d;
  add32 = λ a b. a + b;
  sub32 = λ a b. a - b;
  mul32 = λ a b. a * b / 1000;
  clamp32 = λ x lo hi. min (max x lo) hi;
  lit64 = λ n d. n * 1000 / d;
  add64 = λ a b. a + b;
  sub64 = λ a b. a - b;
  mul64 = λ a b. a * b / 1000;
  div64 = λ a b. a * 1000 / b;
  floor64 = λ x. x / 1000 * 1000;
  round64 = λ x. (x + 500) / 1000 * 1000;
  max64 = max;
  min64 = min;
  abs64 = λ x. x;
  clamp64 = λ x lo hi. min (max x lo) hi;
  is_finite64 = λ x. true;
  leb64 = leb;
  ltb64 = ltb;
  of_f32 = λ x. x;
  of_u64 = λ n. n * 1000;
  to_u64 = λ x. x / 1000;
}
