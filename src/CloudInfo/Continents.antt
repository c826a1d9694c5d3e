-- ===== src/CloudInfo/Continents.antt =====
-- Regions by continent: `getContinent` and the loop of `GetContinentsData` in
-- internal/cloudinfo/cloudinfo.go.
use cloudinfo.Prelude.{
  String, ◌≡◌, refl, sym, ap, ◌∙◌, ◌≢◌, ◌↔◌, ◌⊎◌, inl, inr, Bool, true, false, ◌||◌, List, [], ◌∷◌,
  ◌++◌, Option, none, some, any, str_eq, eq_iff, arith, In, if◌then◌else◌, Bool-cases,
}
use mathlib.Core.List.{append-nil, append_assoc}
use cloudinfo.Prelude.Text.{contains, has_prefix, distinct}
use cloudinfo.Prelude.Maps.{lookup, insert, lookup-insert}
use cloudinfo.Types.{Region}

abbrev pub continent_north_america : String
continent_north_america = "North America"

abbrev pub continent_south_america : String
continent_south_america = "South America"

abbrev pub continent_europe : String
continent_europe = "Europe"

abbrev pub continent_africa : String
continent_africa = "Africa"

abbrev pub continent_asia : String
continent_asia = "Asia"

abbrev pub continent_australia : String
continent_australia = "Australia"

-- `GetContinents`
abbrev pub get_continents : List String
get_continents =
    continent_asia ∷ continent_australia ∷ continent_europe ∷ continent_north_america
    ∷ continent_south_america ∷ []

-- `checkContinent`
unfoldable pub check_continent : String → List String → Bool
check_continent region substrs = any (λ substr. contains region substr) substrs

-- `strings.HasPrefix(region, …)` for three prefixes.
unfoldable pub any_prefix : String → String → String → String → Bool
any_prefix region a b c = has_prefix region a || (has_prefix region b || has_prefix region c)

unfoldable pub get_continent : String → String
get_continent region =
    if check_continent region ("ap-southeast-2" ∷ "australia" ∷ [])
    then continent_australia
    else if check_continent region
          ("cn-" ∷ "ap-" ∷ "me-" ∷ "asia" ∷ "japan" ∷ "india" ∷ "korea" ∷ [])
        || any_prefix region "sgp" "blr" "uae"
    then continent_asia
    else if check_continent region
          ("eu" ∷ "uk" ∷ "france" ∷ "switzerland" ∷ "germany" ∷ "norway" ∷ [])
        || any_prefix region "ams" "lon" "fra"
    then continent_europe
    else if check_continent region ("us" ∷ "ca-central-1" ∷ "canada" ∷ "northamerica" ∷ [])
        || any_prefix region "nyc" "sfo" "tor"
    then continent_north_america
    else if check_continent region ("southamerica" ∷ "brazil" ∷ "sa-" ∷ [])
    then continent_south_america
    else if check_continent region ("africa" ∷ "af-" ∷ [])
    then continent_africa
    else "unknown"

-- `continents[continent]`, the nil slice where the key is missing.
abbrev pub regions_at : Option (List Region) → List Region
regions_at none = []
regions_at (some regions) = regions

-- `continents[continent] = append(continents[continent], types.Region{…})`
unfoldable pub add_region :
    List (String × List Region) → String → String → String → List (String × List Region)
add_region continents continent id name =
    insert continent
      (regions_at (lookup continent continents) ++ (record { id = id; name = name } ∷ []))
      continents

-- The loop of `GetContinentsData`.
unfoldable pub add_regions :
    List (String × List Region) → List (String × String) → List (String × List Region)
add_regions continents [] = continents
add_regions continents ((id, name) ∷ rest) =
    add_regions (add_region continents (get_continent id) id name) rest

unfoldable pub continents_of : List (String × String) → List (String × List Region)
continents_of regions = add_regions [] regions

-- The regions of one continent, in the order of the map.
unfoldable pub regions_of : String → List (String × String) → List Region
regions_of continent [] = []
regions_of continent ((id, name) ∷ rest) =
    let others = regions_of continent rest in
    if str_eq (get_continent id) continent then record { id = id; name = name } ∷ others else others

regions_at-add_region :
    (c continent id name : String) (continents : List (String × List Region))
    → regions_at (lookup c (add_region continents continent id name))
      ≡ regions_at (lookup c continents)
        ++ (if str_eq continent c then record { id = id; name = name } ∷ [] else [])
unfolding add_region
regions_at-add_region c continent id name continents =
    rw (lookup-insert continent c) (elim (Bool-cases (str_eq continent c)) [
      | inl e ↦ rw (e, (eq_iff continent c).0 e)
      | inr e ↦ rw e (sym (append-nil _))
    ])

if_append :
    (b : Bool) (r : Region) (others : List Region)
    → (if b then r ∷ [] else []) ++ others ≡ (if b then r ∷ others else others)
if_append true r others = refl
if_append false r others = refl

add_regions_lem :
    (c : String) (regions : List (String × String)) (continents : List (String × List Region))
    → regions_at (lookup c (add_regions continents regions))
      ≡ regions_at (lookup c continents) ++ regions_of c regions
unfolding add_regions regions_of
add_regions_lem c [] continents = sym (append-nil _)
add_regions_lem c ((id, name) ∷ rest) continents =
    add_regions_lem c rest (add_region continents (get_continent id) id name)
    ∙ ap (λ l. l ++ regions_of c rest)
        (regions_at-add_region c (get_continent id) id name continents)
    ∙ append_assoc (regions_at (lookup c continents)) _ _
    ∙ ap (◌++◌ (regions_at (lookup c continents))) (
        if_append (str_eq (get_continent id) c) (record { id = id; name = name })
          (regions_of c rest))

-- Under each continent `GetContinentsData` has exactly the regions of that continent, each once
-- and in the order in which the map was visited, whatever that order is.
pub continents_of_lem :
    (c : String) (regions : List (String × String))
    → regions_at (lookup c (continents_of regions)) ≡ regions_of c regions
unfolding continents_of lookup
continents_of_lem c regions = add_regions_lem c regions []

get_continent_cases :
    (region : String)
    → (get_continent region ≡ continent_africa)
      ⊎ ((get_continent region ≡ "unknown") ⊎ In (get_continent region) get_continents)
unfolding get_continent
get_continent_cases region = ground arith

IsPlaced : String → Type 0
IsPlaced c = (◌≢◌ {A = String} c continent_africa) × (◌≢◌ {A = String} c "unknown")

placed :
    (c d : String)
    → c ≡ d
    → str_eq d continent_africa ≡ false
    → str_eq d "unknown" ≡ false
    → IsPlaced c
unfolding IsPlaced
placed c d e p q = (λ h. distinct d _ p (sym e ∙ h), λ h. distinct d _ q (sym e ∙ h))

listed-IsPlaced : (c : String) → In c get_continents → IsPlaced c
listed-IsPlaced c (inl e) = placed c _ e refl refl
listed-IsPlaced c (inr (inl e)) = placed c _ e refl refl
listed-IsPlaced c (inr (inr (inl e))) = placed c _ e refl refl
listed-IsPlaced c (inr (inr (inr (inl e)))) = placed c _ e refl refl
listed-IsPlaced c (inr (inr (inr (inr (inl e))))) = placed c _ e refl refl
listed-IsPlaced c (inr (inr (inr (inr (inr m))))) = elim m [ ]

-- `GetContinents` lists the continent of a region exactly if that is not Africa and not "unknown".
pub get_continent_listed_iff :
    (region : String)
    → In (get_continent region) get_continents
      ↔ ((get_continent region ≢ continent_africa) × (get_continent region ≢ "unknown"))
unfolding IsPlaced
get_continent_listed_iff region = (
  listed-IsPlaced (get_continent region),
  λ h. elim (get_continent_cases region) [
    | inl e ↦ absurd (h.0 e)
    | inr (inl e) ↦ absurd (h.1 e)
    | inr (inr m) ↦ m
  ],
)

continent_tests :
    (get_continent "ap-southeast-2" ≡ continent_australia)
    × (get_continent "eu-west-1" ≡ continent_europe)
    × (get_continent "sa-east-1" ≡ continent_south_america)
    × (get_continent "af-south-1" ≡ continent_africa)
    × (get_continent "southafricanorth" ≡ continent_africa)
    × (get_continent "westus2" ≡ continent_north_america)
unfolding get_continent check_continent any_prefix contains has_prefix
continent_tests = (refl, refl, refl, refl, refl, refl)
