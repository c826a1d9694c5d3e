-- ===== src/Providers/Azure/Known.antt =====
-- The regions for which `Initialize` of Azure has prices.
use cloudinfo.Prelude.{
  String, ◌≡◌, refl, ◌∙◌, subst, ◌≢◌, inl, inr, true, List, [], ◌∷◌, Option, some, none, str_eq,
  eq_iff, Bool-cases, some-injective,
}
use cloudinfo.Prelude.Maps.{lookup, insert, lookup-insert}
use cloudinfo.Prelude.Float.{Float64}
use cloudinfo.Prelude.Result.{ok, ok-injective}
use cloudinfo.Types.{Price}
use cloudinfo.Providers.Prices.{set_price}
use cloudinfo.Providers.Azure.RegionIds.{
  RegionId, found, not_found, out_of_range, to_region_id, check_region_id,
  to_region_id-check_region_id,
}
use cloudinfo.Providers.Azure.MachineTypes.{machine_type, get_machine_type_variants}
use cloudinfo.Providers.Azure.Client.{AzureClients, get_regions}
use cloudinfo.Providers.Azure.Meters.{
  Meter, Prices, Metered, and_then, is_machine_meter, set_all, price_variants, price_types, made,
  price_region, price_meter, price_meters, initialize, has_rates, finished, no_meters,
}

and_then-some {ℓ κ} :
    {A : Type ℓ} {B : Type κ} (o : Option A) (next : A → Option B) {b : B}
    → and_then o next ≡ some b
    → (a : A) × (o ≡ some a) × (next a ≡ some b)
and_then-some none next e = cc
and_then-some (some a) next e = (a, refl, e)

finished-some :
    (o : Option Metered) (prices : Prices)
    → finished o ≡ some (ok prices)
    → (m : Metered) × (o ≡ some m) × (m.all_prices ≡ prices)
finished-some none prices e = cc
finished-some (some m) prices e = (m, refl, ok-injective (some-injective e))

module _ (regions : List (String × String)) where
  -- Only regions that Azure lists have prices.
  abbrev pub IsKnown : Prices → Type 0
  IsKnown m = (region : String) → lookup region m ≢ none → check_region_id region regions ≡ true

  insert-IsKnown :
      (region : String) (prices : List (String × Price)) (m : Prices)
      → check_region_id region regions ≡ true
      → IsKnown m
      → IsKnown (insert region prices m)
  insert-IsKnown region prices m h known r n = elim (Bool-cases (str_eq region r)) [
    | inl same ↦ subst (λ s. check_region_id s regions ≡ true) ((eq_iff region r).0 same) h
    | inr other ↦ known r (λ e. n (lookup-insert region r prices m ∙ rw other e))
  ]

  set_price-IsKnown :
      (region type : String) (price : Price) (m : Prices)
      → check_region_id region regions ≡ true
      → IsKnown m
      → IsKnown (set_price region type price m)
  unfolding set_price
  set_price-IsKnown region type price m h known = insert-IsKnown region _ m h known

  set_all-IsKnown :
      (region : String) (price : Price) (types : List String) (m : Prices)
      → check_region_id region regions ≡ true
      → IsKnown m
      → IsKnown (set_all region price types m)
  unfolding set_all
  set_all-IsKnown region price [] m h known = known
  set_all-IsKnown region price (type ∷ types) m h known =
      set_all-IsKnown region price types _ h (set_price-IsKnown region type price m h known)

  price_variants-IsKnown :
      (region : String) (price : Price) (types : Option (List String)) (m m' : Prices)
      → check_region_id region regions ≡ true
      → IsKnown m
      → price_variants region price types m ≡ some m'
      → IsKnown m'
  unfolding price_variants
  price_variants-IsKnown region price none m m' h known e = cc
  price_variants-IsKnown region price (some types) m m' h known e =
      subst IsKnown (some-injective e) (set_all-IsKnown region price types m h known)

  price_types-IsKnown :
      (meter_name region : String) (usd : Float64) (types : List String) (m m' : Prices)
      → check_region_id region regions ≡ true
      → IsKnown m
      → price_types meter_name region usd types m ≡ some m'
      → IsKnown m'
  unfolding price_types
  price_types-IsKnown meter_name region usd [] m m' h known e =
      subst IsKnown (some-injective e) known
  price_types-IsKnown meter_name region usd (type ∷ types) m m' h known e =
      let (between, first, rest) = and_then-some _ _ e in
      price_types-IsKnown meter_name region usd types between m' h
        (price_variants-IsKnown region _ (get_machine_type_variants type) _ between h
          (set_price-IsKnown region type _ m h known) first)
        rest

  nothing : IsKnown no_meters.all_prices
  unfolding lookup
  nothing region n = elim (n refl) [ ]

  module _ (plus : Float64 → Float64 → Float64) where
    price_region-IsKnown :
        (region : String) (v : Meter) (m m' : Prices)
        → check_region_id region regions ≡ true
        → IsKnown m
        → price_region plus region v m ≡ some m'
        → IsKnown m'
    unfolding price_region
    price_region-IsKnown region v m m' h known e = elim (Bool-cases (has_rates v)) [
      | inl rated ↦
          price_types-IsKnown v.meter_name region _ (machine_type v.meter_name v.meter_sub_category)
            (made region m) m' h (insert-IsKnown region _ m h known) (rw (rated, price_region) at e)
      | inr unrated ↦ subst IsKnown (some-injective (rw (unrated, price_region) at e)) known
    ]

    price_meter-IsKnown :
        (id : RegionId) (v : Meter) (m m' : Metered)
        → ((region : String) → id ≡ found region → check_region_id region regions ≡ true)
        → IsKnown m.all_prices
        → price_meter plus id v m ≡ some m'
        → IsKnown m'.all_prices
    unfolding price_meter
    price_meter-IsKnown out_of_range v m m' h known e = cc
    price_meter-IsKnown not_found v m m' h known e =
        subst (λ x. IsKnown x.all_prices) (some-injective e) known
    price_meter-IsKnown (found region) v m m' h known e =
        let (prices, priced, rest) = and_then-some _ _ e in
        subst (λ x. IsKnown x.all_prices) (some-injective rest)
          (price_region-IsKnown region v m.all_prices prices (h region refl) known priced)

    price_meters-IsKnown :
        (meters : List Meter) (m m' : Metered)
        → IsKnown m.all_prices
        → price_meters plus regions meters m ≡ some m'
        → IsKnown m'.all_prices
    unfolding price_meters
    price_meters-IsKnown [] m m' known e =
        subst (λ x. IsKnown x.all_prices) (some-injective e) known
    price_meters-IsKnown (v ∷ meters) m m' known e = elim (Bool-cases (is_machine_meter v)) [
      | inr other ↦ price_meters-IsKnown meters m m' known (rw (other, price_meters) at e)
      | inl machine ↦
          let (between, first, rest) =
            and_then-some (price_meter plus (to_region_id v.meter_region regions) v m)
              (price_meters plus regions meters) (rw (machine, price_meters) at e) in
          price_meters-IsKnown meters between m'
            (price_meter-IsKnown (to_region_id v.meter_region regions) v m between
              (λ region. to_region_id-check_region_id v.meter_region region regions) known first)
            rest
    ]

    -- Where `Initialize` gives prices, they are for regions that Azure answers for "compute".
    pub initialize-IsKnown :
        (clients : AzureClients) (meters : List Meter) (prices : Prices)
        → get_regions clients "compute" ≡ ok regions
        → initialize plus clients (ok meters) ≡ some (ok prices)
        → IsKnown prices
    unfolding initialize
    initialize-IsKnown clients meters prices answered e =
        let (m, run, same) =
          finished-some (price_meters plus regions meters no_meters) prices
            (rw (answered, initialize) at e) in
        subst IsKnown same (price_meters-IsKnown meters no_meters m nothing run)
