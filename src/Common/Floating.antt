-- ===== src/Common/Floating.antt =====
-- The C++ `float`, as an interface. The compiler's floating point is not under the repository's
-- control, so its type and operations are a parameter. `lit n k` is the literal n * 10^-k.
use Prim.Native.Nat.{ℕ}
use mathlib.Core.Bool.{Bool}

pub record Floats : Type 1 where
  pub Float : Type 0
  pub is_finite : Float → Bool
  pub le : Float → Float → Bool
  pub lt : Float → Float → Bool
  pub add : Float → Float → Float
  pub sub : Float → Float → Float
  pub fmin : Float → Float → Float
  pub fmax : Float → Float → Float
  pub mul : Float → Float → Float
  pub div : Float → Float → Float
  pub lit : ℕ → ℕ → Float
  pub of_uint : ℕ → Float
  pub not_a_number : Float
