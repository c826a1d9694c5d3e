-- ===== src/InstanceType/Laws.antt =====
-- The filters of categories, and the values that products carry in those fields.
use cloudinfo.Prelude.{
  not, ◌&&◌, String, ◌≡◌, refl, ◌↔◌, ◌⊎◌, inl, inr, ◌≢◌, Bool, true, false, List, [], ◌∷◌, none,
  some, In, arith, str_eq, eq_iff, subst, sym, Bool-cases,
}
use cloudinfo.Prelude.Text.{distinct, to_lower}
use cloudinfo.Prelude.Result.{ok}
use cloudinfo.Types.{ProductDetails}
use cloudinfo.Query.{is_set}
use cloudinfo.InstanceType.Categories.{
  ntw_low, ntw_medium, ntw_hight, ntw_extra, is_valid_instance_type_category,
  instance_type_category_map, instance_type_category_reverse_map, value_at, category_general,
  category_compute, category_storage, category_memory, GqlValue, text, other,
  unmarshal_instance_type_category,
}
use cloudinfo.InstanceType.{
  CategoryFilter, apply_network_category_filter, apply_instance_type_category_filter, transform,
}

-- The categories that the network mappers of the providers give.
abbrev pub network_categories : List String
network_categories = ntw_low ∷ ntw_medium ∷ ntw_hight ∷ ntw_extra ∷ []

-- The enumeration's `MODERATE` stands for no category that a product can have: a filter for it
-- rejects every product.
pub moderate_matches_nothing :
    (value : String) (filter : CategoryFilter)
    → In value network_categories
    → filter.eq ≡ some "MODERATE"
    → apply_network_category_filter value filter ≡ false
unfolding apply_network_category_filter to_lower
moderate_matches_nothing value filter (inl e) h = rw (e, h)
moderate_matches_nothing value filter (inr (inl e)) h = rw (e, h)
moderate_matches_nothing value filter (inr (inr (inl e))) h = rw (e, h)
moderate_matches_nothing value filter (inr (inr (inr (inl e)))) h = rw (e, h)
moderate_matches_nothing value filter (inr (inr (inr (inr m)))) h = elim m [ ]

valid_category_cases :
    (c : String)
    → is_valid_instance_type_category c ≡ true
    → (c ≡ "GENERAL_PURPOSE")
      ⊎ ((c ≡ "MEMORY_OPTIMIZED") ⊎ ((c ≡ "STORAGE_OPTIMIZED") ⊎ (c ≡ "COMPUTE_OPTIMIZED")))
unfolding is_valid_instance_type_category
valid_category_cases c h = ground (
  arith,
  eq_iff c "GENERAL_PURPOSE",
  eq_iff c "MEMORY_OPTIMIZED",
  eq_iff c "STORAGE_OPTIMIZED",
  eq_iff c "COMPUTE_OPTIMIZED",
)

abbrev SameCategory : String → String → Type 0
SameCategory value c =
    (str_eq value (value_at c instance_type_category_map) ≡ true)
    ↔ (value_at value instance_type_category_reverse_map ≡ c)

reverse_cases :
    (value : String)
    → In value (category_general ∷ category_compute ∷ category_storage ∷ category_memory ∷ [])
      ⊎ (value_at value instance_type_category_reverse_map ≡ "")
unfolding value_at
reverse_cases value = ground (
  arith,
  eq_iff category_general value,
  eq_iff category_compute value,
  eq_iff category_storage value,
  eq_iff category_memory value,
)

abbrev EachSame : String → Type 0
EachSame value =
    SameCategory value "GENERAL_PURPOSE"
    × SameCategory value "MEMORY_OPTIMIZED"
    × SameCategory value "STORAGE_OPTIMIZED"
    × SameCategory value "COMPUTE_OPTIMIZED"

holds : {x c : String} {b : Bool} → b ≡ true → x ≡ c → (b ≡ true) ↔ (x ≡ c)
holds p q = (λ h. q, λ h. p)

fails : {x c : String} {b : Bool} → b ≡ false → x ≢ c → (b ≡ true) ↔ (x ≡ c)
fails p q = (λ h. cc, λ h. absurd (q h))

EachSame-unknown :
    (value : String) → value_at value instance_type_category_reverse_map ≡ "" → EachSame value
unfolding value_at
EachSame-unknown value e = (
  fails (differs category_general (λ h. cc h)) (λ h. cc (e, h)),
  fails (differs category_memory (λ h. cc h)) (λ h. cc (e, h)),
  fails (differs category_storage (λ h. cc h)) (λ h. cc (e, h)),
  fails (differs category_compute (λ h. cc h)) (λ h. cc (e, h)),
)
  where
    differs :
        (v : String) → value_at v instance_type_category_reverse_map ≢ "" → str_eq value v ≡ false
    differs v n = elim (Bool-cases (str_eq value v)) [
      | inl same ↦ absurd (
          n (
            subst (λ w. value_at w instance_type_category_reverse_map ≡ "")
              ((eq_iff value v).0 same) e))
      | inr other_value ↦ other_value
    ]

same_category_at : (value : String) → EachSame value
unfolding value_at
same_category_at value = elim (reverse_cases value) [
  | inl (inl e) ↦ subst EachSame (sym e) (
    holds refl refl,
    fails refl (distinct _ _ refl),
    fails refl (distinct _ _ refl),
    fails refl (distinct _ _ refl),
  )
  | inl (inr (inl e)) ↦ subst EachSame (sym e) (
    fails refl (distinct _ _ refl),
    fails refl (distinct _ _ refl),
    fails refl (distinct _ _ refl),
    holds refl refl,
  )
  | inl (inr (inr (inl e))) ↦ subst EachSame (sym e) (
    fails refl (distinct _ _ refl),
    fails refl (distinct _ _ refl),
    holds refl refl,
    fails refl (distinct _ _ refl),
  )
  | inl (inr (inr (inr (inl e)))) ↦ subst EachSame (sym e) (
    fails refl (distinct _ _ refl),
    holds refl refl,
    fails refl (distinct _ _ refl),
    fails refl (distinct _ _ refl),
  )
  | inl (inr (inr (inr (inr m)))) ↦ elim m [ ]
  | inr e ↦ EachSame-unknown value e
]

same_category : (value c : String) → is_valid_instance_type_category c ≡ true → SameCategory value c
same_category value c h = elim (valid_category_cases c h) [
  | inl e ↦ subst (SameCategory value) (sym e) (same_category_at value).0
  | inr (inl e) ↦ subst (SameCategory value) (sym e) (same_category_at value).1
  | inr (inr (inl e)) ↦ subst (SameCategory value) (sym e) (same_category_at value).2
  | inr (inr (inr e)) ↦ subst (SameCategory value) (sym e) (same_category_at value).3
]

abbrev pub only_eq : String → CategoryFilter
only_eq c = record { eq = some c; ne = none; in_list = none; nin_list = none }

-- A filter for one valid category passes exactly the products whose instance types show that
-- category.
pub apply_category_filter_iff :
    (product : ProductDetails) (region zone c : String)
    → is_valid_instance_type_category c ≡ true
    → (apply_instance_type_category_filter product.category (only_eq c) ≡ true)
      ↔ ((transform product region zone).category ≡ c)
unfolding apply_instance_type_category_filter transform
apply_category_filter_iff product region zone c h =
    ground (arith, same_category product.category c h)

-- What a client sends for an enumeration is taken exactly if it is one of the enumeration's
-- values, and is kept as it is.
pub unmarshal_iff :
    (v : GqlValue) (c : String)
    → (unmarshal_instance_type_category v ≡ ok c)
      ↔ ((v ≡ text c) × (is_valid_instance_type_category c ≡ true))
unfolding unmarshal_instance_type_category
unmarshal_iff other c = (λ h. cc, λ h. cc h.0)
unmarshal_iff (text str) c = ground arith

-- `Nin` of a category filter is never compared with the value: a filter that has it passes what the
-- filter without it passes if `In` is nil, and nothing if `In` is there.
pub category_filter_nin :
    (value : String) (filter : CategoryFilter) (xs : List String)
    → filter.nin_list ≡ some xs
    → (apply_instance_type_category_filter value filter ≡ (
        not (is_set filter.in_list)
        && apply_instance_type_category_filter value (record filter { nin_list = none })))
      × (apply_network_category_filter value filter ≡ (
          not (is_set filter.in_list)
          && apply_network_category_filter value (record filter { nin_list = none })))
unfolding apply_instance_type_category_filter apply_network_category_filter
category_filter_nin value filter xs h = (ground arith, ground arith)
