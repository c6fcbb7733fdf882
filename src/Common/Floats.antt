-- ===== src/Common/Floats.antt =====
-- The floating-point numbers of the source (`f32`, `f64`), as a parameter: the carriers and the
-- operations that the modelled code calls, with no law assumed. `lit64 n d` is the literal n / d.
use Prim.Native.Nat.{ℕ}
use mathlib.Core.Bool.{Bool}

pub record Floats : Type 1 where
  pub F32 : Type 0
  pub F64 : Type 0
  pub lit32 : ℕ → ℕ → F32
  pub add32 : F32 → F32 → F32
  pub sub32 : F32 → F32 → F32
  pub mul32 : F32 → F32 → F32
  -- `x.clamp(lo, hi)` is `clamp32 x lo hi`.
  pub clamp32 : F32 → F32 → F32 → F32
  pub lit64 : ℕ → ℕ → F64
  pub add64 : F64 → F64 → F64
  pub sub64 : F64 → F64 → F64
  pub mul64 : F64 → F64 → F64
  pub div64 : F64 → F64 → F64
  pub floor64 : F64 → F64
  pub round64 : F64 → F64
  pub max64 : F64 → F64 → F64
  pub min64 : F64 → F64 → F64
  pub abs64 : F64 → F64
  pub clamp64 : F64 → F64 → F64 → F64
  pub is_finite64 : F64 → Bool
  pub leb64 : F64 → F64 → Bool
  pub ltb64 : F64 → F64 → Bool
  -- `f64::from(x)` of an `f32`, `n as f64` of a `u64`, and the saturating `x as u64`.
  pub of_f32 : F32 → F64
  pub of_u64 : ℕ → F64
  pub to_u64 : F64 → ℕ
