-- ===== src/Prelude/Floats.antt =====
-- The operations on doubles that a score uses, over non-negative doubles in units of 2 ^ -1074.
-- The laws are those of the IEEE operations with rounding to nearest, on finite values.
use Prim.Native.Nat.{ℕ, ◌*◌, ◌^◌, ◌≤◌, ◌<◌}
use catchment.Prelude.Json.{one}

unfoldable pub half : ℕ
half = 2 ^ 1073

-- The doubles nearest to 0.7 and 0.3.
unfoldable pub seven_tenths : ℕ
seven_tenths = 3152519739159347 * 2 ^ 1022

unfoldable pub three_tenths : ℕ
three_tenths = 5404319552844595 * 2 ^ 1020

pub record FloatOps : Type 0 where
  pub add : ℕ → ℕ → ℕ
  pub mul : ℕ → ℕ → ℕ
  pub div : ℕ → ℕ → ℕ
  -- `max(0.0, a - b)`.
  pub above : ℕ → ℕ → ℕ
  -- `float(n)` of a small integer.
  pub of_int : ℕ → ℕ
  pub add_mono : (a b c d : ℕ) → a ≤ b → c ≤ d → add a c ≤ add b d
  pub add_grows : (a b : ℕ) → a ≤ add a b
  pub mul_shrinks : (a b : ℕ) → b ≤ one → mul a b ≤ a
  pub div_shrinks : (a b : ℕ) → one ≤ b → div a b ≤ a
  pub div_le_one : (a b : ℕ) → a ≤ b → 0 < b → div a b ≤ one
  pub of_int_mono : (m n : ℕ) → m ≤ n → of_int m ≤ of_int n
  pub of_int_pos : (n : ℕ) → 0 < n → 0 < of_int n
  pub weights : add seven_tenths three_tenths ≤ one
