-- ===== src/Providers/Google/Outcome.antt =====
-- The loop of `Initialize` of the client of Google over the regions.
use cloudinfo.Prelude.{
  String, ◌≡◌, refl, ◌∙◌, ap, sym, inl, inr, false, List, [], ◌∷◌, some, In, ◌⊎◌, str_eq, eq_iff,
  Bool-cases, Option-cases, some-injective, subst,
}
use cloudinfo.Prelude.Maps.{lookup, insert, lookup-insert}
use cloudinfo.Prelude.Result.{Result, ok, err, ok-injective, Result-cases}
use cloudinfo.Types.{Price}
use cloudinfo.CloudInfo.{contains_text}
use cloudinfo.Providers.Prices.{price_in}
use cloudinfo.Providers.Google.Machines.{MachineType}
use cloudinfo.Providers.Google.Prices.{
  FloatOps, DevicePrices, unsupported_instance_types, price_listed_regions,
}
use cloudinfo.Providers.Google.Client.{
  GoogleClients, finished-ok, visit_zones, get_zones, get_regions, get_price, initialize_regions,
  initialize,
}
use cloudinfo.Providers.Google.Zones.{
  IsPriced, price_listed_regions-kept, price_listed_regions-made,
}

abbrev head_or : String → List String → String
head_or z [] = z
head_or z (x ∷ xs) = x

module _ (ops : FloatOps) (clients : GoogleClients) (listed : List (String × DevicePrices)) where
  -- A round that ends: the zones that it adds, and the prices that it makes.
  abbrev IsVisit :
      String
      → List (String × List String)
      → List (String × List (String × Price))
      → Result String (List String)
      → List (String × List String)
      → List (String × List (String × Price))
      → Type 0
  IsVisit r known prices answered now made =
      (zone : String) × (zones : List String) × (answered ≡ ok (zone ∷ zones))
      × (now ≡ insert r (zone ∷ zones) known)
      × (made
          ≡ price_listed_regions ops listed (insert r (zone ∷ zones) known)
              (clients.list_machine_types zone).items prices)

  visit_zones-IsVisit :
      (r : String) (known now : List (String × List String))
      (prices made : List (String × List (String × Price))) (answered : Result String (List String))
      → visit_zones ops clients listed r known prices answered ≡ some (ok (now, made))
      → IsVisit r known prices answered now made
  unfolding visit_zones
  visit_zones-IsVisit r known now prices made (err x) e = cc
  visit_zones-IsVisit r known now prices made (ok []) e = cc
  visit_zones-IsVisit r known now prices made (ok (zone ∷ zones)) e =
      let mts = clients.list_machine_types zone in
      let result = finished-ok mts.failed _ (now, made) (some-injective e) in
      (zone, zones, refl, sym (ap (λ x. x.0) result), sym (ap (λ x. x.1) result))

  first_round :
      (region name : String) (regions : List (String × String))
      (known : List (String × List String)) (prices result : List (String × List (String × Price)))
      → initialize_regions ops clients listed ((region, name) ∷ regions) known prices
        ≡ some (ok result)
      → (now : List (String × List String)) × (made : List (String × List (String × Price)))
        × IsVisit region known prices (get_zones clients region) now made
        × (initialize_regions ops clients listed regions now made ≡ some (ok result))
  unfolding initialize_regions
  first_round region name regions known prices result e =
      elim (Option-cases
        (visit_zones ops clients listed region known prices (get_zones clients region))) [
          | inl panic ↦ cc (rw (panic, initialize_regions) at e)
          | inr (answer, ended) ↦ elim (Result-cases answer) [
            | inr (x, failed) ↦ cc (rw (ended ∙ ap some failed, initialize_regions) at e)
            | inl ((now, made), visited) ↦ (
              now,
              made,
              visit_zones-IsVisit region known now prices made (get_zones clients region)
                  (ended ∙ ap some visited),
              rw (ended ∙ ap some visited, initialize_regions) at e,
            )
          ]
        ]

  module _ (r t zone : String) (zones : List String)
      (answered : get_zones clients r ≡ ok (zone ∷ zones)) where
    same_zones :
        (region z : String) (zs : List String)
        → r ≡ region
        → get_zones clients region ≡ ok (z ∷ zs)
        → z ∷ zs ≡ zone ∷ zones
    same_zones region z zs same e =
        ok-injective (sym e ∙ ap (get_zones clients) (sym same) ∙ answered)

    known_after :
        (region z : String) (zs : List String) (known : List (String × List String))
        → get_zones clients region ≡ ok (z ∷ zs)
        → (region ≡ r) ⊎ (lookup r known ≡ some (zone ∷ zones))
        → lookup r (insert region (z ∷ zs) known) ≡ some (zone ∷ zones)
    known_after region z zs known e here = elim (Bool-cases (str_eq region r)) [
      | inl same ↦
          rw (lookup-insert region r (z ∷ zs) known, same)
            (ap some (same_zones region z zs (sym ((eq_iff region r).0 same)) e))
      | inr other ↦ elim here [
        | inl same ↦ cc (other, (eq_iff region r).1 same)
        | inr before ↦ rw (lookup-insert region r (z ∷ zs) known, other) before
      ]
    ]

    initialize_regions-kept :
        (regions : List (String × String)) (known : List (String × List String))
        (prices result : List (String × List (String × Price)))
        → initialize_regions ops clients listed regions known prices ≡ some (ok result)
        → lookup r known ≡ some (zone ∷ zones)
        → IsPriced r t (zone ∷ zones) (price_in r t prices)
        → IsPriced r t (zone ∷ zones) (price_in r t result)
    unfolding initialize_regions
    initialize_regions-kept [] known prices result e here there =
        subst (λ m. IsPriced r t (zone ∷ zones) (price_in r t m)) (ok-injective (some-injective e))
          there
    initialize_regions-kept ((region, name) ∷ regions) known prices result e here there =
        let (now, made, (z, zs, a, n, p), later) =
          first_round region name regions known prices result e in
        let known_now = known_after region z zs known a (inr here) in
        initialize_regions-kept regions now made result later
          (subst (λ k. lookup r k ≡ some (zone ∷ zones)) (sym n) known_now)
          (subst (λ m. IsPriced r t (zone ∷ zones) (price_in r t m)) (sym p)
            (price_listed_regions-kept r t (zone ∷ zones) ops listed _ _ prices known_now there))

    initialize_regions-made :
        (regions : List (String × String)) (known : List (String × List String))
        (prices result : List (String × List (String × Price))) (display_name : String)
        (price : DevicePrices) (mt : MachineType)
        → initialize_regions ops clients listed regions known prices ≡ some (ok result)
        → In (r, display_name) regions
        → In (r, price) listed
        → In mt (clients.list_machine_types zone).items
        → mt.name ≡ t
        → contains_text unsupported_instance_types t ≡ false
        → IsPriced r t (zone ∷ zones) (price_in r t result)
    initialize_regions-made [] known prices result display_name price mt e i j k named supported =
        elim i [ ]
    initialize_regions-made ((region, name) ∷ regions) known prices result display_name price mt e i
          j k named supported =
        let (now, made, (z, zs, a, n, p), later) =
          first_round region name regions known prices result e in
        elim i [
          | inr l ↦
              initialize_regions-made regions now made result display_name price mt later l j k
                named supported
          | inl f ↦
              let same : r ≡ region = ap (λ x. x.0) f in
              let known_now = known_after region z zs known a (inl (sym same)) in
              let first : z ≡ zone = ap (head_or "") (same_zones region z zs same a) in
              initialize_regions-kept regions now made result later
                (subst (λ k. lookup r k ≡ some (zone ∷ zones)) (sym n) known_now)
                (subst (λ m. IsPriced r t (zone ∷ zones) (price_in r t m)) (sym p)
                  (price_listed_regions-made r t (zone ∷ zones) ops listed _ _ prices price mt
                    known_now j
                    (subst (λ y. In mt (clients.list_machine_types y).items) (sym first) k) named
                    supported))
        ]

-- Where `Initialize` gives prices, they have every machine type of the first zone of a region that is
-- listed and that the price list prices, but for the unsupported types: and with a spot price for each
-- zone of the region, although the zones of a region become known only as the loop reaches it, in
-- whatever order the regions are visited.
pub initialize-IsPriced :
    (ops : FloatOps) (clients : GoogleClients) (result : List (String × List (String × Price)))
    (regions : List (String × String)) (listed : List (String × DevicePrices))
    (r display_name zone : String) (zones : List String) (price : DevicePrices) (mt : MachineType)
    → initialize ops clients ≡ some (ok result)
    → get_regions clients "compute" ≡ ok regions
    → get_price ops clients ≡ ok listed
    → In (r, display_name) regions
    → In (r, price) listed
    → get_zones clients r ≡ ok (zone ∷ zones)
    → In mt (clients.list_machine_types zone).items
    → contains_text unsupported_instance_types mt.name ≡ false
    → IsPriced r mt.name (zone ∷ zones) (price_in r mt.name result)
unfolding initialize
initialize-IsPriced ops clients result regions listed r display_name zone zones price mt e a b i j
      answered k supported =
    initialize_regions-made ops clients listed r mt.name zone zones answered regions [] [] result
      display_name price mt (rw (a, b) at e) i j k refl supported
