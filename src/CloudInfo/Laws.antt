-- ===== src/CloudInfo/Laws.antt =====
-- What the reads of internal/cloudinfo/cloudinfo.go answer.
use mathlib.Core.List.{append_assoc, append-nil, map-append}
use mathlib.Core.Path.{ap₂}
use cloudinfo.Prelude.{
  String, ◌≡◌, refl, sym, ap, ◌∙◌, ◌≢◌, ◌↔◌, inl, inr, true, List, [], ◌∷◌, ◌++◌, none, some, any,
  map, All, In, str_eq, eq_iff, arith, Option-cases,
}
use cloudinfo.Prelude.Text.{IsName}
use cloudinfo.Prelude.Float.{Float64}
use cloudinfo.Prelude.Result.{ok, >>=-eq-ok, ok-injective}
use cloudinfo.Types.{VmInfo, ZonePrice, Price, ProductDetails, Provider, is_burst}
use cloudinfo.Store.Key.{vm_key, price_key}
use cloudinfo.Store.Interface.{CloudInfoStore, get_price, get_services, store_vm}
use cloudinfo.CloudInfo.{
  price_or_empty, append_spot_prices, details_of, details, provider_enabled, get_services_of,
  provider_with_services, get_provider, collect_providers, get_providers, get_product_details,
}

-- The zone prices that a price gives.
abbrev pub zone_prices : List (String × Float64) → List ZonePrice
zone_prices prices = map (λ p. record { zone = p.0; price = p.1 }) prices

append_spot_prices_lem :
    (prices : List (String × Float64)) (zone_prices_before : List ZonePrice)
    → append_spot_prices zone_prices_before prices ≡ zone_prices_before ++ zone_prices prices
unfolding append_spot_prices
append_spot_prices_lem [] before = sym (append-nil before)
append_spot_prices_lem ((zone, price) ∷ rest) before =
    append_spot_prices_lem rest _ ∙ append_assoc before _ (zone_prices rest)

details_of_lem :
    (vm : VmInfo) (price : Price)
    → details_of vm price ≡ record {
      vm_info = record vm { spot_price = vm.spot_price ++ zone_prices price.spot_price };
      burst = is_burst vm;
    }
unfolding details_of
details_of_lem vm price =
    ap (λ prices. record { vm_info = record vm { spot_price = prices }; burst = is_burst vm })
      (append_spot_prices_lem price.spot_price vm.spot_price)

module _ (st : CloudInfoStore) (providers : List String) (store : st.State) where
  -- The details of a virtual machine with a price.
  abbrev pub described : String → String → VmInfo → ProductDetails
  described provider region vm = record {
    vm_info = record vm {
      spot_price =
          vm.spot_price
          ++ zone_prices (price_or_empty (get_price st store provider region vm.type)).spot_price;
    };
    burst = is_burst vm;
  }

  details_lem :
      (provider region : String) (vms : List VmInfo)
      → details st providers store provider region vms ≡ map (described provider region) vms
  unfolding details details_of
  details_lem provider region [] = refl
  details_lem provider region (vm ∷ vms) =
      ap₂ ◌∷◌ (details_of_lem vm (price_or_empty (get_price st store provider region vm.type)))
        (details_lem provider region vms)

  pub enabled_of_In : (ps : List String) (p : String) → In p ps → any (λ q. str_eq q p) ps ≡ true
  enabled_of_In [] p m = elim m [ ]
  enabled_of_In (q ∷ ps) p (inl e) = ground (arith, eq_iff q p, e)
  enabled_of_In (q ∷ ps) p (inr m) = ground (arith, enabled_of_In ps p m)

  -- A provider is answered exactly if it is enabled and its services are in the store; the answer
  -- has its name and those services.
  pub get_provider_iff :
      (name : String) (provider : Provider)
      → (get_provider st providers store name ≡ ok provider) ↔ (
          (provider_enabled st providers store name ≡ true)
          × (get_services st store name ≡ some provider.services)
          × (provider.provider ≡ name))
  unfolding get_provider provider_with_services get_services_of
  get_provider_iff name provider = (λ h. ground arith, λ h. ground arith)

  pub collect_providers_names :
      (names : List String) (found ps : List Provider)
      → collect_providers st providers store names found ≡ ok ps
      → map (λ p. p.provider) ps ≡ map (λ p. p.provider) found ++ names
  unfolding collect_providers
  collect_providers_names [] found ps e =
      ap (map (λ p. p.provider)) (sym (ok-injective e)) ∙ sym (append-nil _)
  collect_providers_names (name ∷ names) found ps e =
      let (provider, got, rest) =
        >>=-eq-ok (get_provider st providers store name)
          (λ provider. collect_providers st providers store names (found ++ (provider ∷ []))) e in
      collect_providers_names names (found ++ (provider ∷ [])) ps rest
      ∙ ap (λ l. l ++ names) (map-append (λ p. p.provider) found (provider ∷ []))
      ∙ append_assoc (map (λ p. p.provider) found) _ names
      ∙ ap (λ n. map (λ p. p.provider) found ++ n ∷ names)
          ((get_provider_iff name provider).0 got).2

  -- `GetProviders` answers every enabled provider under its name, in the configured order.
  pub get_providers_names :
      (ps : List Provider)
      → get_providers st providers store ≡ ok ps
      → map (λ p. p.provider) ps ≡ providers
  unfolding get_providers
  get_providers_names ps e = collect_providers_names providers [] ps e

  collect_providers_total :
      (names : List String) (found : List Provider)
      → All
          (λ n. (provider_enabled st providers store n ≡ true) × (get_services st store n ≢ none))
          names
      → (ps : List Provider) × (collect_providers st providers store names found ≡ ok ps)
  unfolding collect_providers
  collect_providers_total [] found h = (found, refl)
  collect_providers_total (name ∷ names) found ((enabled, cached), hs) =
      elim (Option-cases (get_services st store name)) [
        | inl missing ↦ absurd (cached missing)
        | inr (services, found_services) ↦
            let provider : Provider = record { provider = name; services = services } in
            let (ps, e) = collect_providers_total names (found ++ (provider ∷ [])) hs in
            (ps, rw ((get_provider_iff name provider).1 (enabled, found_services, refl)) e)
      ]

  collect_providers_cached :
      (names : List String) (found ps : List Provider)
      → collect_providers st providers store names found ≡ ok ps
      → All (λ n. get_services st store n ≢ none) names
  unfolding collect_providers
  collect_providers_cached [] found ps e = tt
  collect_providers_cached (name ∷ names) found ps e =
      let (provider, got, rest) =
        >>=-eq-ok (get_provider st providers store name)
          (λ provider. collect_providers st providers store names (found ++ (provider ∷ []))) e in
      (
        λ missing. cc (((get_provider_iff name provider).0 got).1),
        collect_providers_cached names (found ++ (provider ∷ [])) ps rest,
      )

  all_enabled :
      (names : List String)
      → ((n : String) → In n names → In n providers)
      → All (λ n. get_services st store n ≢ none) names
      → All
          (λ n. (provider_enabled st providers store n ≡ true) × (get_services st store n ≢ none))
          names
  unfolding provider_enabled
  all_enabled [] sub h = tt
  all_enabled (n ∷ names) sub (h, hs) = (
    (enabled_of_In providers n (sub n (inl refl)), h),
    all_enabled names (λ m i. sub m (inr i)) hs,
  )

  -- `GetProviders` succeeds exactly if the services of every enabled provider are in the store.
  pub get_providers_iff :
      ((ps : List Provider) × (get_providers st providers store ≡ ok ps))
      ↔ All (λ n. get_services st store n ≢ none) providers
  unfolding get_providers
  get_providers_iff = (
    λ h. collect_providers_cached providers [] h.0 h.1,
    λ h. collect_providers_total providers [] (all_enabled providers (λ n m. m) h),
  )

described-store_vm :
    (st : CloudInfoStore) (providers : List String) (store : st.State)
    (provider service region : String) (stored vms : List VmInfo)
    → IsName provider
    → IsName service
    → IsName region
    → All (λ vm. IsName vm.type) vms
    → map
        (described st providers (store_vm st store provider service region stored) provider region)
        vms
      ≡ map (described st providers store provider region) vms
described-store_vm st providers store provider service region stored [] hp hs hr ht = refl
described-store_vm st providers store provider service region stored (vm ∷ vms) hp hs hr (h, ht) =
    ap₂ ◌∷◌
      (ap
        (λ price. record {
          vm_info = record vm {
            spot_price = vm.spot_price ++ zone_prices (price_or_empty price).spot_price;
          };
          burst = is_burst vm;
        })
        (st.fetch-put_other store (price_key provider region vm.type)
          (vm_key provider service region) stored (hp, hr, h) (hp, hs, hr) (λ e. cc)))
      (described-store_vm st providers store provider service region stored vms hp hs hr ht)

-- After the virtual machines of a region have been stored, their details are answered in the same
-- order: each with its own zone prices followed by those of the price that the store has for its
-- type, and with none added where the store has no price. No name holds a slash.
pub get_product_details-store_vm :
    (st : CloudInfoStore) (providers : List String) (store : st.State)
    (provider service region : String) (vms : List VmInfo)
    → IsName provider
    → IsName service
    → IsName region
    → All (λ vm. IsName vm.type) vms
    → get_product_details st providers
        (store_vm st store provider service region vms)
        provider
        service
        region
      ≡ ok (map (described st providers store provider region) vms)
unfolding get_product_details
get_product_details-store_vm st providers store provider service region vms hp hs hr ht =
    rw (st.fetch-put store (vm_key provider service region) vms (hp, hs, hr)) (
      ap ok (
        details_lem st providers (store_vm st store provider service region vms) provider region vms
        ∙ described-store_vm st providers store provider service region vms vms hp hs hr ht))
