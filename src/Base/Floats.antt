-- ===== src/Base/Floats.antt =====
-- What the program uses of `float64`: a parameter of the definitions that compute rates. `leb` is
-- `<=` and `ratio a b` is `float64(a)/float64(b)`, for a positive b.
use Prim.Native.Nat.{ℕ, suc, ◌<◌, ◌*◌, ◌/◌}
use mathlib.Core.Path.{◌≡◌}
use mathlib.Core.Bool.{Bool, true, not}
use edge_rollout_control_ser.Base.Int.{ℤ, pos, negsuc, leb_ℤ, ◌≤ℤ◌}

pub record Floats : Type 1 where
  pub Float : Type 0
  pub zero : Float
  pub one : Float
  pub leb : Float → Float → Bool
  pub ratio : ℤ → ℕ → Float
  -- `math.Round(float64(a)/float64(b)*10000)/s`
  pub rounded : ℤ → ℕ → ℕ → Float

-- `<` and `>=` between values that are no NaN.
abbrev pub ltb_float : (f : Floats) → f.Float → f.Float → Bool
ltb_float f a b = not (f.leb b a)

-- What IEEE division and comparison guarantee: correct rounding is monotone, so the rate of more
-- is not smaller.
pub record IsRounding (f : Floats) : Type 0 where
  pub leb_trans : (a b c : f.Float) → f.leb a b ≡ true → f.leb b c ≡ true → f.leb a c ≡ true
  pub ratio_mono : (a b : ℤ) (n : ℕ) → 0 < n → a ≤ℤ b → f.leb (f.ratio a n) (f.ratio b n) ≡ true

abbrev scaled : ℕ → ℤ → ℕ → ℤ
scaled s (pos a) n = pos (a * s / n)
scaled s (negsuc a) n = negsuc (suc a * s / n)

-- Rates in millionths.
abbrev pub millionths : Floats
millionths = record {
  Float = ℤ;
  zero = pos 0;
  one = pos 1000000;
  leb = leb_ℤ;
  ratio = scaled 1000000;
  rounded = λ a n s. scaled (10000000000 / s) a n;
}
