-- ===== src/Prelude/FloatOfInt.antt =====
-- The conversion of a number to `float64` and its text in decimal.
use Prim.Native.Nat.{ℕ, zero, suc, ◌+◌, ◌-◌, ◌*◌, ◌/◌, ◌%◌, ◌^◌}
use Prim.Native.String.{String, [], ◌∷◌, char_at}
use mathlib.Core.Path.{◌≡◌, refl}
use mathlib.Core.Bool.{false}
use cloudinfo.Prelude.Tests.{ltb, leb, ◌==◌, if◌then◌else◌}
use cloudinfo.Prelude.Float.{Float64, float_zero, float_one, float_two}

-- The position of the highest bit of a number below 2 ^ `bits`.
log2 : ℕ → ℕ → ℕ
log2 zero n = 0
log2 (suc bits) n = if leb (2 ^ suc bits) n then suc bits else log2 bits n

-- A quotient by 2 ^ `s`, rounded to the nearest, and to the even one of two.
round_even : ℕ → ℕ → ℕ
round_even n s =
    let q = n / 2 ^ s in
    let r = 2 * (n % 2 ^ s) in
    if ltb r (2 ^ s) then q else (if ltb (2 ^ s) r then q + 1 else q + q % 2)

-- The bits of a number whose highest bit is at `e`.
bits_at : ℕ → ℕ → ℕ
unfolding round_even
bits_at e n =
    let significand = if leb e 52 then n * 2 ^ (52 - e) else round_even n (e - 52) in
    (1023 + e) * 2 ^ 52 + (significand - 2 ^ 52)

-- `float64(n)` for an integer of 64 bits that is not negative.
unfoldable pub float_of_int : ℕ → Float64
unfolding log2 bits_at
float_of_int n = record {
  is_negative = false;
  magnitude = if n == 0 then 0 else bits_at (log2 63 n) n;
}

-- `float64(n) / 1024`, which takes 10 from the exponent.
unfoldable pub float_kibi : ℕ → Float64
unfolding log2 bits_at
float_kibi n = record {
  is_negative = false;
  magnitude = if n == 0 then 0 else bits_at (log2 63 n) n - 10 * 2 ^ 52;
}

digits : ℕ → ℕ → String → String
digits zero n rest = rest
digits (suc fuel) n rest =
    let more = digits fuel (n / 10) (char_at "0123456789" (n % 10) ∷ rest) in
    if ltb n 10 then char_at "0123456789" (n % 10) ∷ rest else more

-- `fmt.Sprint(n)`: an integer of 64 bits has at most 20 digits.
unfoldable pub sprint_int : ℕ → String
unfolding digits
sprint_int n = digits 20 n []

float_of_int_tests :
    (float_of_int 0 ≡ float_zero)
    × (float_of_int 1 ≡ float_one)
    × (float_of_int 2 ≡ float_two)
    × ((float_of_int 3).magnitude ≡ 0x4008_0000_0000_0000)
    × ((float_of_int 9_007_199_254_740_993).magnitude ≡ 0x4340_0000_0000_0000)
    × (float_kibi 2048 ≡ float_two)
    × (sprint_int 16384 ≡ "16384")
unfolding float_of_int float_kibi sprint_int
float_of_int_tests = (refl, refl, refl, refl, refl, refl, refl)
