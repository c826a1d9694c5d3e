-- ===== src/Query.antt =====
-- internal/cloudinfo/query.go: filters over numbers. The functions for `float64` and for `int` have
-- the same text, so they are one function over the comparisons of the type.
pub mod Laws
mod Tests
use cloudinfo.Prelude.{
  Bool, true, false, not, ◌&&◌, List, [], ◌∷◌, Option, none, some, any, if◌then◌else◌,
}
use cloudinfo.Prelude.Float.{Float64, float_eq, float_lt, float_le}
use cloudinfo.Prelude.Int.{ℤ, int_eq, int_lt, int_le}

-- Go's `==`, `<` and `<=` on a type.
pub record Compared (A : Type 0) : Type 0 where
  pub eq : A → A → Bool
  pub lt : A → A → Bool
  pub le : A → A → Bool

instance abbrev pub float_compared : Compared Float64
float_compared = record { eq = float_eq; lt = float_lt; le = float_le }

instance abbrev pub int_compared : Compared ℤ
int_compared = record { eq = int_eq; lt = int_lt; le = int_le }

-- A pointer or slice field is `none` where it is nil.
pub record Filter (A : Type 0) : Type 0 where
  pub lt : Option A
  pub lte : Option A
  pub gt : Option A
  pub gte : Option A
  pub eq : Option A
  pub ne : Option A
  pub in_list : Option (List A)
  pub nin_list : Option (List A)

abbrev pub FloatFilter : Type 0
FloatFilter = Filter Float64

abbrev pub IntFilter : Type 0
IntFilter = Filter ℤ

-- `field != nil && !test(*field)`
abbrev pub fails : {A : Type 0} → Option A → (A → Bool) → Bool
fails none test = false
fails (some x) test = not (test x)

abbrev pub is_set : {A : Type 0} → Option A → Bool
is_set none = false
is_set (some x) = true

-- The entries that a `range` over a slice visits, none where it is nil.
abbrev pub entries : {A : Type 0} → Option (List A) → List A
entries none = []
entries (some xs) = xs

module _ {A : Type 0} ⦃o : Compared A⦄ where
  unfoldable pub apply_filter : A → Filter A → Bool
  apply_filter value filter =
      if fails filter.eq (λ x. o.eq value x)
      then false
      else if fails filter.ne (λ x. not (o.eq value x))
      then false
      else if fails filter.lt (λ x. o.lt value x)
      then false
      else if fails filter.lte (λ x. o.le value x)
      then false
      else if fails filter.gt (λ x. o.lt x value)
      then false
      else if fails filter.gte (λ x. o.le x value)
      then false
      else if fails filter.in_list (λ xs. any (λ x. o.eq value x) xs)
      then false
      else if is_set filter.nin_list && any (λ x. o.eq value x) (entries filter.in_list)
      then false
      else true

-- `applyFloatFilter`
abbrev pub apply_float_filter : Float64 → FloatFilter → Bool
apply_float_filter = apply_filter

-- `applyIntFilter`
abbrev pub apply_int_filter : ℤ → IntFilter → Bool
apply_int_filter = apply_filter

abbrev pub no_filter : {A : Type 0} → Filter A
no_filter = record {
  lt = none;
  lte = none;
  gt = none;
  gte = none;
  eq = none;
  ne = none;
  in_list = none;
  nin_list = none;
}
