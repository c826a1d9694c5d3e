-- ===== src/Providers/Google/Zones.antt =====
-- The spot prices that `Initialize` of the client of Google has for the zones of a region, whose zones
-- become known only while the loop over the regions runs.
use cloudinfo.Prelude.{
  String, ◌≡◌, refl, ◌∙◌, ap, sym, ◌≢◌, inl, inr, true, false, ◌&&◌, List, [], ◌∷◌, Option, none,
  some, In, str_eq, eq_iff, eq_refl, Bool-cases, arith, subst,
}
use cloudinfo.Prelude.Maps.{lookup, insert, lookup-insert}
use cloudinfo.Prelude.Float.{Float64}
use cloudinfo.Types.{Price}
use cloudinfo.CloudInfo.{contains_text}
use cloudinfo.Providers.Prices.{price_in, set_price, price_in-set_price}
use cloudinfo.Providers.Google.Machines.{MachineType}
use cloudinfo.Providers.Google.Prices.{
  FloatOps, DevicePrices, zone_spot_prices, unsupported_instance_types, price_machines, known_zones,
  price_listed_regions,
}

some-ne-none : {A : Type 0} → {a : A} → some a ≢ none
some-ne-none e = cc

spot-kept :
    (p : Float64) (zones : List String) (found : List (String × Float64)) (z : String)
    → lookup z found ≢ none
    → lookup z (zone_spot_prices p zones found) ≢ none
unfolding zone_spot_prices
spot-kept p [] found z there = there
spot-kept p (y ∷ zones) found z there =
    spot-kept p zones (insert y p found) z (rw (lookup-insert y z p found) (ground (arith, there)))

spot-there :
    (p : Float64) (zones : List String) (found : List (String × Float64)) (z : String)
    → In z zones
    → lookup z (zone_spot_prices p zones found) ≢ none
unfolding zone_spot_prices
spot-there p [] found z i = elim i [ ]
spot-there p (y ∷ zones) found z (inr i) = spot-there p zones (insert y p found) z i
spot-there p (y ∷ zones) found z (inl e) =
    spot-kept p zones (insert y p found) z
      (rw (lookup-insert y z p found, (eq_iff y z).1 (sym e)) some-ne-none)

module _ (r t : String) (region_zones : List String) where
  -- A spot price for each zone of the region.
  abbrev HasZones : Price → Type 0
  HasZones p = (z : String) → In z region_zones → lookup z p.spot_price ≢ none

  -- A price with a spot price for each zone of the region.
  abbrev pub IsPriced : Option Price → Type 0
  IsPriced found = (p : Price) × (found ≡ some p) × HasZones p

  set_price-IsPriced :
      (region name : String) (priced : Price) (m : List (String × List (String × Price)))
      → IsPriced (price_in r t m)
      → (str_eq r region ≡ true
          → (z : String) → In z region_zones
          → lookup z priced.spot_price ≢ none)
      → IsPriced (price_in r t (set_price region name priced m))
  set_price-IsPriced region name priced m (p, e, has) zoned =
      elim (Bool-cases (str_eq r region && str_eq t name)) [
        | inl same ↦ (
          priced,
          rw (price_in-set_price r t region name priced m, same) refl,
          zoned (ground arith),
        )
        | inr other ↦ (p, rw (price_in-set_price r t region name priced m, other) e, has)
      ]

  price_in-same :
      (priced : Price) (m : List (String × List (String × Price)))
      → HasZones priced
      → IsPriced (price_in r t (set_price r t priced m))
  price_in-same priced m zoned =
      (priced, rw (price_in-set_price r t r t priced m, eq_refl r, eq_refl t) refl, zoned)

  known_here :
      (region : String) (known : List (String × List String))
      → lookup r known ≡ some region_zones
      → str_eq r region ≡ true
      → known_zones (lookup region known) ≡ region_zones
  known_here region known here same =
      subst (λ x. known_zones (lookup x known) ≡ region_zones) ((eq_iff r region).0 same)
        (ap known_zones here)

  module _ (ops : FloatOps) where
    price_machines-kept :
        (region : String) (price : DevicePrices) (zones : List String) (mts : List MachineType)
        (m : List (String × List (String × Price)))
        → (str_eq r region ≡ true → zones ≡ region_zones)
        → IsPriced (price_in r t m)
        → IsPriced (price_in r t (price_machines ops region price zones mts m))
    unfolding price_machines
    price_machines-kept region price zones [] m same there = there
    price_machines-kept region price zones (mt ∷ mts) m same there =
        elim (Bool-cases (contains_text unsupported_instance_types mt.name)) [
          | inl unsupported ↦
              rw unsupported (price_machines-kept region price zones mts m same there)
          | inr supported ↦ rw supported (
              price_machines-kept region price zones mts _ same (
                set_price-IsPriced region mt.name _ m there
                  (λ e z i. spot-there _ zones [] z (subst (In z) (sym (same e)) i))))
        ]

    price_machines-made :
        (price : DevicePrices) (zones : List String) (mts : List MachineType)
        (m : List (String × List (String × Price))) (mt : MachineType)
        → zones ≡ region_zones
        → In mt mts
        → mt.name ≡ t
        → contains_text unsupported_instance_types t ≡ false
        → IsPriced (price_in r t (price_machines ops r price zones mts m))
    unfolding price_machines
    price_machines-made price zones [] m mt same i e supported = elim i [ ]
    price_machines-made price zones (x ∷ mts) m mt same (inr i) e supported =
        price_machines-made price zones mts _ mt same i e supported
    price_machines-made price zones (x ∷ mts) m mt same (inl f) e supported =
        let named : x.name ≡ t = ap (λ y. y.name) (sym f) ∙ e in
        rw (named, supported)
          (price_machines-kept r price zones mts _ (λ i. same)
            (price_in-same _ m (λ z i. spot-there _ zones [] z (subst (In z) (sym same) i))))

    -- A loop over the prices of all regions, where the zones of the region are known.
    pub price_listed_regions-kept :
        (listed : List (String × DevicePrices)) (known : List (String × List String))
        (mts : List MachineType) (m : List (String × List (String × Price)))
        → lookup r known ≡ some region_zones
        → IsPriced (price_in r t m)
        → IsPriced (price_in r t (price_listed_regions ops listed known mts m))
    unfolding price_listed_regions
    price_listed_regions-kept [] known mts m here there = there
    price_listed_regions-kept ((region, price) ∷ listed) known mts m here there =
        price_listed_regions-kept listed known mts _ here
          (price_machines-kept region price _ mts m (known_here region known here) there)

    pub price_listed_regions-made :
        (listed : List (String × DevicePrices)) (known : List (String × List String))
        (mts : List MachineType) (m : List (String × List (String × Price))) (price : DevicePrices)
        (mt : MachineType)
        → lookup r known ≡ some region_zones
        → In (r, price) listed
        → In mt mts
        → mt.name ≡ t
        → contains_text unsupported_instance_types t ≡ false
        → IsPriced (price_in r t (price_listed_regions ops listed known mts m))
    unfolding price_listed_regions
    price_listed_regions-made [] known mts m price mt here j i e supported = elim j [ ]
    price_listed_regions-made ((region, p) ∷ listed) known mts m price mt here (inr j) i e
          supported =
        price_listed_regions-made listed known mts _ price mt here j i e supported
    price_listed_regions-made ((region, p) ∷ listed) known mts m price mt here (inl f) i e
          supported =
        price_listed_regions-kept listed known mts _ here (
          subst
            (λ x.
              IsPriced (price_in r t (price_machines ops x p (known_zones (lookup x known)) mts m)))
            (ap (λ x. x.0) f)
            (price_machines-made p (known_zones (lookup r known)) mts m mt (ap known_zones here) i e
              supported))
