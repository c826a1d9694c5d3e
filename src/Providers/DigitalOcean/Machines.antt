-- ===== src/Providers/DigitalOcean/Machines.antt =====
-- The machines of DigitalOcean: their prices, and what becomes of them in a run of the scraping.
use cloudinfo.Prelude.{
  String, ◌≡◌, refl, ◌∙◌, ◌≢◌, inl, inr, Bool, true, ◌&&◌, ◌||◌, List, [], ◌∷◌, Option, some, In,
  All, str_eq, eq_iff, if◌then◌else◌, Bool-cases, arith, eq_refl,
}
use cloudinfo.Types.{VmInfo, Price}
use cloudinfo.Providers.Prices.{price_in, price_in-set_price}
use cloudinfo.Providers.DigitalOcean.{
  Size, contains, hourly, price_regions, price_sizes, to_vm, machines_of_sizes,
}

price_in-price_regions :
    (region slug : String) (size : Size) (regions : List String)
    (m : List (String × List (String × Price)))
    → price_in region slug (price_regions size regions m) ≡ (
        if contains region regions && str_eq slug size.slug
        then some (hourly size)
        else price_in region slug m)
unfolding price_regions
price_in-price_regions region slug size [] m = refl
price_in-price_regions region slug size (r ∷ regions) m =
    price_in-price_regions region slug size regions _
    ∙ rw (price_in-set_price region slug r size.slug (hourly size) m) (
        choice (str_eq region r) (contains region regions) (str_eq slug size.slug) (hourly size)
          (price_in region slug m))
  where
    choice :
        (a b c : Bool) (p : Price) (o : Option Price)
        → (if b && c then some p else (if a && c then some p else o))
          ≡ (if (a || b) && c then some p else o)
    choice a b c p o = ground arith

-- No slug stands twice.
abbrev pub IsFresh : Size → List Size → Type 0
IsFresh size sizes = All (λ other. size.slug ≢ other.slug) sizes

abbrev pub HasDistinctSlugs : List Size → Type 0
HasDistinctSlugs [] = Unit
HasDistinctSlugs (size ∷ sizes) = IsFresh size sizes × HasDistinctSlugs sizes

price_in-price_sizes-IsFresh :
    (region : String) (size : Size) (sizes : List Size) (m : List (String × List (String × Price)))
    → IsFresh size sizes
    → price_in region size.slug (price_sizes sizes m) ≡ price_in region size.slug m
unfolding price_sizes
price_in-price_sizes-IsFresh region size [] m h = refl
price_in-price_sizes-IsFresh region size (other ∷ sizes) m (n, h) =
    elim (Bool-cases other.available) [
      | inl available ↦
          rw (available, price_sizes)
            (price_in-price_sizes-IsFresh region size sizes _ h
              ∙ price_in-price_regions region size.slug other other.regions m
              ∙ unchosen)
      | inr missing ↦ rw (missing, price_sizes) (price_in-price_sizes-IsFresh region size sizes m h)
    ]
  where
    unchosen :
        (if contains region other.regions && str_eq size.slug other.slug
          then some (hourly other)
          else price_in region size.slug m)
        ≡ price_in region size.slug m
    unchosen = ground (arith, eq_iff size.slug other.slug)

-- The price of a size after its own round of the loop.
priced_here :
    (region : String) (size : Size) (sizes : List Size) (m : List (String × List (String × Price)))
    → IsFresh size sizes
    → contains region size.regions ≡ true
    → price_in region (to_vm size).type (price_sizes sizes (price_regions size size.regions m))
      ≡ some (record { on_demand_price = (to_vm size).on_demand_price; spot_price = [] })
unfolding to_vm
priced_here region size sizes m fresh h =
    price_in-price_sizes-IsFresh region size sizes _ fresh
    ∙ price_in-price_regions region size.slug size size.regions m
    ∙ rw (h, eq_refl size.slug) refl

-- Every machine that `GetVirtualMachines` makes of the sizes has the price that `Initialize` has for
-- its type in the region, if no two sizes have the same slug.
pub machines_of_sizes-price_sizes :
    (region : String) (sizes : List Size) (m : List (String × List (String × Price))) (vm : VmInfo)
    → HasDistinctSlugs sizes
    → In vm (machines_of_sizes region sizes)
    → price_in region vm.type (price_sizes sizes m)
      ≡ some (record { on_demand_price = vm.on_demand_price; spot_price = [] })
unfolding machines_of_sizes price_sizes
machines_of_sizes-price_sizes region [] m vm d i = elim i [ ]
machines_of_sizes-price_sizes region (size ∷ sizes) m vm (fresh, d) i =
    elim (Bool-cases size.available) [
      | inr missing ↦
          rw missing (machines_of_sizes-price_sizes region sizes m vm d (rw missing at i))
      | inl available ↦ elim (Bool-cases (contains region size.regions)) [
        | inr elsewhere ↦
            rw available
              (machines_of_sizes-price_sizes region sizes _ vm d (rw (available, elsewhere) at i))
        | inl here ↦ elim (rw (available, here) at i) [
          | inl e ↦ rw (available, e) (priced_here region size sizes m fresh here)
          | inr later ↦ rw available (machines_of_sizes-price_sizes region sizes _ vm d later)
        ]
      ]
    ]
