-- ===== src/Providers/Azure/RegionIds.antt =====
-- `toRegionID` of internal/cloudinfo/providers/azure/cloudinfo.go: from the region of a meter, such
-- as "EU North" or "US West 2", to the identifier of the region.
use Prim.Native.Char.{code}
use Prim.Native.Nat.{◌^◌}
use cloudinfo.Prelude.{
  ℕ, ◌+◌, ◌*◌, ◌-◌, String, ◌≡◌, refl, subst, ◌↔◌, inl, inr, Bool, true, false, List, [], ◌∷◌,
  Option, some, none, In, str_eq, eq_iff, if◌then◌else◌, Bool-cases, arith,
}
use cloudinfo.Prelude.Text.{concat, to_lower}
use cloudinfo.Prelude.Maps.{lookup}
use cloudinfo.Prelude.Strings.{split, is_int, is_number, read_digits}

-- `regionCodeMappings`
abbrev pub region_code_mappings : List (String × String)
region_code_mappings =
    ("ap", "asia")
    ∷ ("au", "australia")
    ∷ ("br", "brazil")
    ∷ ("ca", "canada")
    ∷ ("eu", "europe")
    ∷ ("fr", "france")
    ∷ ("in", "india")
    ∷ ("ja", "japan")
    ∷ ("kr", "korea")
    ∷ ("uk", "uk")
    ∷ ("us", "us")
    ∷ ("za", "southafrica")
    ∷ []

-- A missing code is the empty text.
abbrev pub region_code : Option String → String
region_code none = ""
region_code (some code) = code

-- `regionParts.String`
unfoldable pub parts_text : List String → String
unfolding concat
parts_text [] = ""
parts_text (p ∷ ps) = concat p (parts_text ps)

-- `rp[len(rp)-1]`, and `rp[1:len(rp)-1]` for the parts after the first.
unfoldable pub last_part : String → List String → String
last_part first [] = first
last_part first (p ∷ ps) = last_part p ps

unfoldable pub without_last : List String → List String
without_last [] = []
without_last (p ∷ []) = []
without_last (p ∷ q ∷ ps) = p ∷ without_last (q ∷ ps)

-- `checkRegionID`
unfoldable pub check_region_id : String → List (String × String) → Bool
check_region_id region_id [] = false
check_region_id region_id ((region, name) ∷ regions) =
    let later = check_region_id region_id regions in if str_eq region_id region then true else later

-- The result of `toRegionID`; the slice expression `rp[1:len(rp)-1]` panics if `rp` has one part.
pub data RegionId : Type 0 where
  found : String → RegionId
  not_found : RegionId
  out_of_range : RegionId

-- The loop over the two candidates.
unfoldable pub first_known : String → String → List (String × String) → RegionId
unfolding check_region_id
first_known a b regions =
    if check_region_id a regions
    then found a
    else (if check_region_id b regions then found b else not_found)

numbered : String → String → List String → List (String × String) → RegionId
numbered region_code last [] regions = out_of_range
numbered region_code last (p ∷ ps) regions =
    let middle = parts_text (without_last (p ∷ ps)) in
    first_known (concat region_code (concat middle last)) (concat middle (concat region_code last))
      regions

candidates : String × List String → List (String × String) → RegionId
unfolding numbered lookup
candidates (first, rest) regions =
    let code = region_code (lookup first region_code_mappings) in
    if is_int (last_part first rest)
    then numbered code (last_part first rest) rest regions
    else first_known (concat code (parts_text rest)) (concat (parts_text rest) code) regions

-- `toRegionID`
unfoldable pub to_region_id : String → List (String × String) → RegionId
unfolding candidates
to_region_id meter_region regions = candidates (split b' ' (to_lower meter_region)) regions

check_region_id-In :
    (id : String) (regions : List (String × String))
    → check_region_id id regions ≡ true
    → (name : String) × In (id, name) regions
unfolding check_region_id
check_region_id-In id [] h = cc
check_region_id-In id ((region, name) ∷ regions) h = elim (Bool-cases (str_eq id region)) [
  | inl same ↦ (name, inl (rw ((eq_iff id region).0 same) refl))
  | inr other ↦ let later = check_region_id-In id regions (rw other at h) in (later.0, inr later.1)
]

first_known-found :
    (a b id : String) (regions : List (String × String))
    → first_known a b regions ≡ found id
    → check_region_id id regions ≡ true
unfolding first_known
first_known-found a b id regions e = ground arith

candidates-found :
    (id : String) (parts : String × List String) (regions : List (String × String))
    → candidates parts regions ≡ found id
    → check_region_id id regions ≡ true
unfolding candidates numbered last_part
candidates-found id (first, []) regions e = elim (Bool-cases (is_int first)) [
  | inl number ↦ cc (rw (number, candidates) at e)
  | inr word ↦ first_known-found _ _ id regions (rw (word, candidates) at e)
]
candidates-found id (first, p ∷ ps) regions e = elim (Bool-cases (is_int (last_part p ps))) [
  | inl number ↦ first_known-found _ _ id regions (rw (number, candidates) at e)
  | inr word ↦ first_known-found _ _ id regions (rw (word, candidates) at e)
]

pub to_region_id-check_region_id :
    (meter_region id : String) (regions : List (String × String))
    → to_region_id meter_region regions ≡ found id
    → check_region_id id regions ≡ true
unfolding to_region_id
to_region_id-check_region_id meter_region id regions e = candidates-found id _ regions e

-- What `toRegionID` finds is one of the regions.
pub to_region_id-found :
    (meter_region id : String) (regions : List (String × String))
    → to_region_id meter_region regions ≡ found id
    → (name : String) × In (id, name) regions
to_region_id-found meter_region id regions e =
    check_region_id-In id regions (to_region_id-check_region_id meter_region id regions e)

first_known-ne-out_of_range :
    (a b : String) (regions : List (String × String)) → first_known a b regions ≡ out_of_range → ⊥
unfolding first_known
first_known-ne-out_of_range a b regions e = ground arith

-- A number has no space in it.
read_digits-split : (n : ℕ) (s : String) → (read_digits n s).1 ≡ true → split b' ' s ≡ (s, [])
unfolding read_digits split
read_digits-split n String.[] h = refl
read_digits-split n (String.◌∷◌ c s) h =
    ground (arith, read_digits-split (10 * n + (code c - b'0')) s)

is_number-split : (bound : ℕ) (s : String) → is_number bound s ≡ true → split b' ' s ≡ (s, [])
unfolding is_number
is_number-split bound String.[] h = cc
is_number-split bound (String.◌∷◌ c s) h = read_digits-split 0 (String.◌∷◌ c s) (ground arith)

is_int-split : (s : String) → is_int s ≡ true → split b' ' s ≡ (s, [])
unfolding is_int split
is_int-split String.[] h = cc
is_int-split (String.◌∷◌ c s) h = ground (
  arith,
  is_number-split (2 ^ 63) s,
  is_number-split (2 ^ 63 - 1) s,
  is_number-split (2 ^ 63 - 1) (String.◌∷◌ c s),
)

candidates-out_of_range :
    (parts : String × List String) (regions : List (String × String))
    → candidates parts regions ≡ out_of_range
    → (is_int parts.0 ≡ true) × (parts.1 ≡ [])
unfolding candidates numbered last_part
candidates-out_of_range (first, []) regions e = elim (Bool-cases (is_int first)) [
  | inl number ↦ (number, refl)
  | inr word ↦ elim (first_known-ne-out_of_range _ _ regions (rw (word, candidates) at e)) [ ]
]
candidates-out_of_range (first, p ∷ ps) regions e = elim (Bool-cases (is_int (last_part p ps))) [
  | inl number ↦ elim (first_known-ne-out_of_range _ _ regions (rw (number, candidates) at e)) [ ]
  | inr word ↦ elim (first_known-ne-out_of_range _ _ regions (rw (word, candidates) at e)) [ ]
]

-- What is not split is its first part.
split-single : (sep : ℕ) (s : String) → (split sep s).1 ≡ [] → (split sep s).0 ≡ s
unfolding split
split-single sep String.[] h = refl
split-single sep (String.◌∷◌ c s) h = ground (arith, split-single sep s)

candidates-number :
    (s : String) (regions : List (String × String))
    → is_int s ≡ true
    → candidates (split b' ' s) regions ≡ out_of_range
unfolding candidates last_part numbered
candidates-number s regions number = rw (is_int-split s number, number) refl

-- `toRegionID` panics exactly if the region of the meter is a number: then the slice of its one part
-- has its end before its start.
pub to_region_id-out_of_range_iff :
    (meter_region : String) (regions : List (String × String))
    → (to_region_id meter_region regions ≡ out_of_range) ↔ (is_int (to_lower meter_region) ≡ true)
unfolding to_region_id
to_region_id-out_of_range_iff meter_region regions = (
  λ e.
      let (number, single) = candidates-out_of_range _ regions e in
      subst (λ s. is_int s ≡ true) (split-single b' ' (to_lower meter_region) single) number,
  λ number. candidates-number _ regions number,
)
