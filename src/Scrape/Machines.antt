-- ===== src/Scrape/Machines.antt =====
-- The virtual machines that a run keeps for a region.
use cloudinfo.Prelude.{
  String, ◌≡◌, refl, sym, ◌∙◌, ◌↔◌, ◌⊎◌, inl, inr, true, false, List, [], ◌∷◌, Option, none, some,
  In, Bool-cases, subst, some-injective,
}
use cloudinfo.Prelude.Text.{IsName}
use cloudinfo.Prelude.Float.{float_eq, float_lt, float_zero}
use cloudinfo.Prelude.Result.{ok, err}
use cloudinfo.Types.{VmInfo, Price}
use cloudinfo.Store.Key.{vm_key}
use cloudinfo.Store.Interface.{CloudInfoStore, get_vm, get_price, store_vm, delete_vm}
use cloudinfo.Scrape.{
  CloudInfoer, no_products, or_nil, repriced, keep_priced, World, virtual_machines,
  update_virtual_machines, scrape_service_region_products,
}

IsPriced : VmInfo → Type 0
IsPriced vm = float_eq vm.on_demand_price float_zero ≡ false

keep_priced_sound :
    (vm : VmInfo) (rest : List VmInfo) (kept : VmInfo)
    → In kept (keep_priced vm rest)
    → ((kept ≡ vm) × IsPriced kept) ⊎ In kept rest
unfolding IsPriced
keep_priced_sound vm rest kept m = elim (Bool-cases (float_eq vm.on_demand_price float_zero)) [
  | inl zero_price ↦ inr (rw zero_price at m)
  | inr priced ↦ elim (rw priced at m) [
    | inl e ↦ inl (e, subst IsPriced (sym e) priced)
    | inr later ↦ inr later
  ]
]

keep_priced_here : (vm : VmInfo) (rest : List VmInfo) → IsPriced vm → In vm (keep_priced vm rest)
unfolding IsPriced
keep_priced_here vm rest priced = rw priced (inl refl)

keep_priced_later :
    (vm : VmInfo) (rest : List VmInfo) (kept : VmInfo)
    → In kept rest
    → In kept (keep_priced vm rest)
keep_priced_later vm rest kept m = elim (Bool-cases (float_eq vm.on_demand_price float_zero)) [
  | inl zero_price ↦ rw zero_price m
  | inr priced ↦ rw priced (inr m)
]

-- A machine with the stored price where that is positive, and otherwise as it was.
abbrev pub IsRepriced : VmInfo → Option Price → VmInfo → Type 0
IsRepriced vm stored kept =
    ((price : Price) × (stored ≡ some price)
      × (float_lt float_zero price.on_demand_price ≡ true)
      × (kept ≡ record vm { on_demand_price = price.on_demand_price }))
    ⊎ (((price : Price) → stored ≡ some price → float_lt float_zero price.on_demand_price ≡ false)
        × (kept ≡ vm))

repriced-IsRepriced :
    (vm : VmInfo) (stored : Option Price) → IsRepriced vm stored (repriced vm stored)
repriced-IsRepriced vm none = inr (λ price e. cc, refl)
repriced-IsRepriced vm (some price) =
    elim (Bool-cases (float_lt float_zero price.on_demand_price)) [
      | inl positive ↦ inl (price, refl, positive, rw positive refl)
      | inr not_positive ↦ inr (
        λ p e.
            subst (λ x. float_lt float_zero x.on_demand_price ≡ false) (some-injective e)
              not_positive,
        rw not_positive refl,
      )
    ]

IsRepriced-repriced :
    (vm : VmInfo) (stored : Option Price) (kept : VmInfo)
    → IsRepriced vm stored kept
    → kept ≡ repriced vm stored
IsRepriced-repriced vm stored kept (inl (price, e, positive, made)) = made ∙ rw (e, positive) refl
IsRepriced-repriced vm none kept (inr (free, made)) = made
IsRepriced-repriced vm (some price) kept (inr (free, made)) = made ∙ rw (free price refl) refl

module _ (st : CloudInfoStore) (infoer : CloudInfoer) (provider : String) where
  -- The machine of the provider's answer from which a kept one was made.
  pub record IsKept (s : st.State) (region : String) (vms : List VmInfo) (kept : VmInfo)
      : Type 0 where
    pub vm : VmInfo
    pub named : In vm vms
    pub made : IsRepriced vm (get_price st s provider region vm.type) kept
    pub priced : float_eq kept.on_demand_price float_zero ≡ false

  virtual_machines_sound :
      (s : st.State) (region : String) (vms : List VmInfo) (kept : VmInfo)
      → In kept (virtual_machines st infoer provider s region vms)
      → IsKept s region vms kept
  unfolding virtual_machines IsPriced
  virtual_machines_sound s region [] kept m = elim m [ ]
  virtual_machines_sound s region (vm ∷ vms) kept m = elim (keep_priced_sound _ _ kept m) [
    | inl (e, priced) ↦
        let stored = get_price st s provider region vm.type in
        record {
          vm = vm;
          named = inl refl;
          made = subst (IsRepriced vm stored) (sym e) (repriced-IsRepriced vm stored);
          priced = priced;
        }
    | inr later ↦
        let k = virtual_machines_sound s region vms kept later in
        record { vm = k.vm; named = inr k.named; made = k.made; priced = k.priced }
  ]

  virtual_machines_complete :
      (s : st.State) (region : String) (vms : List VmInfo) (vm : VmInfo)
      → In vm vms
      → IsPriced (repriced vm (get_price st s provider region vm.type))
      → In
          (repriced vm (get_price st s provider region vm.type))
          (virtual_machines st infoer provider s region vms)
  unfolding virtual_machines
  virtual_machines_complete s region [] vm m priced = elim m [ ]
  virtual_machines_complete s region (v ∷ vms) vm (inl e) priced =
      subst
        (λ u. In (repriced vm (get_price st s provider region vm.type)) (
          keep_priced (repriced u (get_price st s provider region u.type))
            (virtual_machines st infoer provider s region vms)))
        e (keep_priced_here _ _ priced)
  virtual_machines_complete s region (v ∷ vms) vm (inr m) priced =
      keep_priced_later _ _ _ (virtual_machines_complete s region vms vm m priced)

  -- A machine is kept exactly if its price is not 0 and it is one of the given ones: with the
  -- price that the store has for its type if that is positive, and else with its own price.
  pub virtual_machines_iff :
      (s : st.State) (region : String) (vms : List VmInfo) (kept : VmInfo)
      → In kept (virtual_machines st infoer provider s region vms) ↔ IsKept s region vms kept
  unfolding IsPriced
  virtual_machines_iff s region vms kept = (
    virtual_machines_sound s region vms kept,
    λ k.
        let made = IsRepriced-repriced k.vm _ kept k.made in
        subst (λ v. In v (virtual_machines st infoer provider s region vms)) (sym made)
          (virtual_machines_complete s region vms k.vm k.named (subst IsPriced made k.priced)),
  )

  -- The world after the machines of a region have been scraped.
  abbrev pub with_machines :
      World st infoer provider → String → String → List VmInfo → World st infoer provider
  with_machines w service region values =
      let stored = store_vm st w.store provider service region values in
      record w {
        store =
            store_vm st (delete_vm st stored provider service region) provider service region
              (virtual_machines st infoer provider stored region values);
      }

  -- Once the provider has answered, scraping the products of a region succeeds.
  pub scrape_service_region_products_lem :
      (w : World st infoer provider) (service region : String) (values : List VmInfo)
      → IsName provider
      → IsName service
      → IsName region
      → infoer.get_products (or_nil (get_vm st w.store provider service region)) service region
        ≡ ok values
      → scrape_service_region_products st infoer provider w service region
        ≡ (with_machines w service region values, none)
  unfolding scrape_service_region_products update_virtual_machines
  scrape_service_region_products_lem w service region values hp hs hr e =
      rw (e, scrape_service_region_products)
        (rw (
          st.fetch-put w.store (vm_key provider service region) values (hp, hs, hr),
          update_virtual_machines,
        ))

  -- Without machines none are kept.
  pub virtual_machines-nil :
      (s : st.State) (region : String) → virtual_machines st infoer provider s region [] ≡ []
  unfolding virtual_machines
  virtual_machines-nil s region = refl

  -- A failing call leaves the world as it was.
  pub scrape_service_region_products-err :
      (w : World st infoer provider) (service region e : String)
      → infoer.get_products (or_nil (get_vm st w.store provider service region)) service region
        ≡ err e
      → scrape_service_region_products st infoer provider w service region
        ≡ (w, some (no_products e))
  unfolding scrape_service_region_products
  scrape_service_region_products-err w service region e h =
      rw (h, scrape_service_region_products) refl
