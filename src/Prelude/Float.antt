-- ===== src/Prelude/Float.antt =====
-- The values of Go's `float64` with the comparisons of IEEE 754, which are all that the program
-- does with prices and sizes outside the provider clients: a value is its bit pattern.
use Prim.Native.Nat.{ℕ}
use mathlib.Core.Path.{◌≡◌, refl}
use mathlib.Core.Bool.{Bool, true, false, not, ◌&&◌, ◌||◌}
use cloudinfo.Prelude.Tests.{ltb, ◌==◌}

-- The sign bit, and the other 63 bits as a number.
pub record Float64 : Type 0 where
  pub is_negative : Bool
  pub magnitude : ℕ

abbrev pub infinity_magnitude : ℕ
infinity_magnitude = 0x7ff0_0000_0000_0000

pub is_nan : Float64 → Bool
is_nan a = ltb infinity_magnitude a.magnitude

same_sign : Bool → Bool → Bool
same_sign true b = b
same_sign false b = not b

-- `a == b`: no NaN equals anything, and the two zeros are equal.
unfoldable pub float_eq : Float64 → Float64 → Bool
unfolding is_nan same_sign
float_eq a b =
    (not (is_nan a) && not (is_nan b))
    && ((a.magnitude == b.magnitude) && (a.magnitude == 0 || same_sign a.is_negative b.is_negative))

below : Bool → ℕ → Bool → ℕ → Bool
below false m false n = ltb m n
below false m true n = false
below true m false n = not (m == 0 && n == 0)
below true m true n = ltb n m

-- `a < b`
unfoldable pub float_lt : Float64 → Float64 → Bool
unfolding is_nan below
float_lt a b =
    (not (is_nan a) && not (is_nan b)) && below a.is_negative a.magnitude b.is_negative b.magnitude

-- `a <= b`
unfoldable pub float_le : Float64 → Float64 → Bool
unfolding float_lt float_eq
float_le a b = float_lt a b || float_eq a b

abbrev pub float_zero : Float64
float_zero = record { is_negative = false; magnitude = 0 }

abbrev pub float_one : Float64
float_one = record { is_negative = false; magnitude = 0x3ff0_0000_0000_0000 }

abbrev pub float_two : Float64
float_two = record { is_negative = false; magnitude = 0x4000_0000_0000_0000 }

abbrev minus_one : Float64
minus_one = record { is_negative = true; magnitude = 0x3ff0_0000_0000_0000 }

abbrev minus_zero : Float64
minus_zero = record { is_negative = true; magnitude = 0 }

abbrev nan : Float64
nan = record { is_negative = false; magnitude = 0x7ff8_0000_0000_0001 }

float_tests :
    (float_lt float_one float_two ≡ true)
    × (float_lt minus_one float_zero ≡ true)
    × (float_eq minus_zero float_zero ≡ true)
    × (float_lt minus_zero float_zero ≡ false)
    × (float_eq nan nan ≡ false)
    × (float_le float_two float_two ≡ true)
unfolding float_lt float_eq float_le
float_tests = (refl, refl, refl, refl, refl, refl)
