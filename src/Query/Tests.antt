-- ===== src/Query/Tests.antt =====
-- Tests of the filters, and their theorems at concrete inputs.
use cloudinfo.Prelude.{◌≡◌, refl, ◌↔◌, true, false, [], ◌∷◌, some}
use cloudinfo.Prelude.Float.{float_one, float_two, float_zero, float_eq, float_lt, float_le}
use cloudinfo.Prelude.Int.{pos, negsuc, int_eq, int_lt, int_le}
use cloudinfo.Query.{
  FloatFilter, apply_filter, apply_float_filter, apply_int_filter, no_filter, float_compared,
  int_compared,
}
use cloudinfo.Query.Laws.{Accepts, apply_filter_iff, apply_filter_nin}

abbrev cheap : FloatFilter
cheap = record no_filter { gt = some float_zero; lte = some float_one }

filter_tests :
    (apply_float_filter float_one cheap ≡ true)
    × (apply_float_filter float_two cheap ≡ false)
    × (apply_float_filter float_zero cheap ≡ false)
    × (apply_int_filter (negsuc 3) (record no_filter { lt = some (pos 0) }) ≡ true)
unfolding apply_filter float_eq float_lt float_le int_eq int_lt int_le
filter_tests = (refl, refl, refl, refl)

apply_filter_iff_example : (apply_float_filter float_one cheap ≡ true) ↔ Accepts float_one cheap
apply_filter_iff_example = apply_filter_iff float_one cheap refl

-- Meant to reject 1 and to pass 2, the filter rejects both.
abbrev not_one : FloatFilter
not_one = record no_filter { in_list = some (float_two ∷ []); nin_list = some (float_one ∷ []) }

apply_filter_nin_example : apply_float_filter float_two not_one ≡ false
apply_filter_nin_example = apply_filter_nin float_two not_one (float_one ∷ []) refl
