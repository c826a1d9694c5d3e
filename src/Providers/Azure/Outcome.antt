-- ===== src/Providers/Azure/Outcome.antt =====
-- When `Initialize` of Azure panics, and for which regions it has prices.
use cloudinfo.Prelude.{
  String, ◌≡◌, refl, ◌≢◌, ◌↔◌, inl, inr, Bool, true, ◌&&◌, List, [], ◌∷◌, Option, some, none, any,
  Bool-cases, Option-cases,
}
use cloudinfo.Prelude.Text.{to_lower}
use cloudinfo.Prelude.Strings.{is_int}
use cloudinfo.Prelude.Float.{Float64}
use cloudinfo.Prelude.Result.{ok}
use cloudinfo.Types.{Price}
use cloudinfo.Providers.Azure.RegionIds.{
  RegionId, found, not_found, out_of_range, to_region_id, to_region_id-out_of_range_iff,
}
use cloudinfo.Providers.Azure.MachineTypes.{machine_type, get_machine_type_variants}
use cloudinfo.Providers.Azure.Variants.{get_machine_type_variants-total}
use cloudinfo.Providers.Azure.Client.{AzureClients, get_regions}
use cloudinfo.Providers.Azure.Meters.{
  Meter, Prices, Metered, and_then, is_machine_meter, price_variants, price_types, made, has_rates,
  finished, no_meters, price_region, price_meter, price_meters, initialize,
}

price_variants-total :
    (region : String) (price : Price) (types : Option (List String)) (m : Prices)
    → types ≢ none
    → price_variants region price types m ≢ none
unfolding price_variants
price_variants-total region price none m n e = n refl
price_variants-total region price (some types) m n e = cc

and_then-total {ℓ κ} :
    {A : Type ℓ} {B : Type κ} (o : Option A) (next : A → Option B)
    → o ≢ none
    → ((a : A) → next a ≢ none)
    → and_then o next ≢ none
and_then-total none next n h e = n refl
and_then-total (some a) next n h e = h a e

price_types-total :
    (meter_name region : String) (usd : Float64) (types : List String) (m : Prices)
    → price_types meter_name region usd types m ≢ none
unfolding price_types
price_types-total meter_name region usd [] m = λ e. cc
price_types-total meter_name region usd (type ∷ types) m =
    and_then-total _ _
      (price_variants-total region _ (get_machine_type_variants type) _
        (get_machine_type_variants-total type))
      (price_types-total meter_name region usd types)

finished-none : (o : Option Metered) → finished o ≡ none → o ≡ none
finished-none none e = refl
finished-none (some m) e = cc

module _ (plus : Float64 → Float64 → Float64) where
  price_region-total :
      (region : String) (v : Meter) (m : Prices) → price_region plus region v m ≢ none
  unfolding price_region
  price_region-total region v m e = elim (Bool-cases (has_rates v)) [
    | inl rated ↦
        price_types-total v.meter_name region _ (machine_type v.meter_name v.meter_sub_category)
          (made region m) (rw (rated, price_region) at e)
    | inr unrated ↦ cc (rw (unrated, price_region) at e)
  ]

  -- The meters that are priced and whose region is a number.
  abbrev pub crashes : Meter → Bool
  crashes v = is_machine_meter v && is_int (to_lower v.meter_region)

  price_meter-none :
      (id : RegionId) (v : Meter) (m : Metered)
      → (price_meter plus id v m ≡ none) ↔ (id ≡ out_of_range)
  unfolding price_meter
  price_meter-none out_of_range v m = (λ e. refl, λ e. refl)
  price_meter-none not_found v m = (λ e. cc, λ e. cc)
  price_meter-none (found region) v m = (
    λ e.
        elim (and_then-total (price_region plus region v m.all_prices) _
          (price_region-total region v m.all_prices) (λ prices. λ e'. cc) e) [ ],
    λ e. cc,
  )

  price_meter-none_iff :
      (regions : List (String × String)) (v : Meter) (m : Metered)
      → (price_meter plus (to_region_id v.meter_region regions) v m ≡ none)
        ↔ (is_int (to_lower v.meter_region) ≡ true)
  price_meter-none_iff regions v m =
      let step = price_meter-none (to_region_id v.meter_region regions) v m in
      let number = to_region_id-out_of_range_iff v.meter_region regions in
      (λ e. number.0 (step.0 e), λ e. step.1 (number.1 e))

  price_meters-none_iff :
      (regions : List (String × String)) (meters : List Meter) (m : Metered)
      → (price_meters plus regions meters m ≡ none) ↔ (any crashes meters ≡ true)
  unfolding price_meters
  price_meters-none_iff regions [] m = (λ e. cc, λ e. cc)
  price_meters-none_iff regions (v ∷ meters) m = elim (Bool-cases (is_machine_meter v)) [
    | inr other ↦ rw (other, price_meters) (price_meters-none_iff regions meters m)
    | inl machine ↦
        elim (Option-cases (price_meter plus (to_region_id v.meter_region regions) v m)) [
          | inl crashed ↦
              let number = (price_meter-none_iff regions v m).0 crashed in
              rw (machine, price_meters, crashed, number) (λ e. refl, λ e. refl)
          | inr (m', priced) ↦ elim (Bool-cases (is_int (to_lower v.meter_region))) [
            | inl number ↦ cc ((price_meter-none_iff regions v m).1 number, priced)
            | inr word ↦
                rw (machine, price_meters, priced, word) (price_meters-none_iff regions meters m')
          ]
        ]
  ]

  -- Where Azure answers, `Initialize` panics exactly if the rate card has a meter of virtual machines
  -- that is to be priced and whose region is a number.
  pub initialize-none_iff :
      (clients : AzureClients) (regions : List (String × String)) (meters : List Meter)
      → get_regions clients "compute" ≡ ok regions
      → (initialize plus clients (ok meters) ≡ none) ↔ (any crashes meters ≡ true)
  unfolding initialize
  initialize-none_iff clients regions meters answered =
      let run = price_meters-none_iff regions meters no_meters in
      rw (answered, initialize) (λ e. run.0 (finished-none _ e), λ e. rw (run.1 e) refl)
