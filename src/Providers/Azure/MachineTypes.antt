-- ===== src/Providers/Azure/MachineTypes.antt =====
-- The machine types of a meter, in internal/cloudinfo/providers/azure/cloudinfo.go.
use cloudinfo.Prelude.{String, ◌||◌, List, [], ◌∷◌, ◌++◌, Option, some, none, map, if◌then◌else◌}
use cloudinfo.Prelude.Text.{concat, contains}
use cloudinfo.Prelude.Strings.{
  split, has_suffix, trim_suffix, replace, replace_all, Piece, one, optional, star, plus, matches,
  literal, any_of, is_digit,
}
use cloudinfo.CloudInfo.{create_string}

abbrev pub promo : List Piece
promo = star (any_of "_Promo") ∷ []

abbrev pub version_promo : List Piece
version_promo = star (λ c. any_of "_v" c || is_digit c) ∷ promo

-- The regular expressions for the series of machines, each as its fixed start and what follows it.
abbrev pub b_pieces : List Piece
b_pieces = plus is_digit ∷ optional (any_of "m") ∷ version_promo

unfoldable pub mt_standard_b : List Piece
unfolding literal
mt_standard_b = literal "Standard_B" b_pieces

abbrev pub d_pieces : List Piece
d_pieces = one is_digit ∷ version_promo

unfoldable pub mt_standard_d : List Piece
unfolding literal
mt_standard_d = literal "Standard_D" d_pieces

abbrev pub e_pieces : List Piece
e_pieces = plus is_digit ∷ optional (any_of "i") ∷ version_promo

unfoldable pub mt_standard_e : List Piece
unfolding literal
mt_standard_e = literal "Standard_E" e_pieces

abbrev pub f_pieces : List Piece
f_pieces = plus is_digit ∷ version_promo

unfoldable pub mt_standard_f : List Piece
unfolding literal
mt_standard_f = literal "Standard_F" f_pieces

abbrev pub g_pieces : List Piece
g_pieces = plus is_digit ∷ version_promo

unfoldable pub mt_standard_g : List Piece
unfolding literal
mt_standard_g = literal "Standard_G" g_pieces

abbrev pub l_pieces : List Piece
l_pieces = plus is_digit ∷ version_promo

unfoldable pub mt_standard_l : List Piece
unfolding literal
mt_standard_l = literal "Standard_L" l_pieces

abbrev pub m_pieces : List Piece
m_pieces = plus is_digit ∷ star (any_of "m|t|l") ∷ one (any_of "s") ∷ version_promo

unfoldable pub mt_standard_m : List Piece
unfolding literal
mt_standard_m = literal "Standard_M" m_pieces

abbrev pub n_pieces : List Piece
n_pieces = one (any_of "C|D|V") ∷ plus is_digit ∷ optional (any_of "r") ∷ version_promo

unfoldable pub mt_standard_n : List Piece
unfolding literal
mt_standard_n = literal "Standard_N" n_pieces

-- `suffix = CreateString(suffix, "_", p)` over the further parts.
unfoldable pub rest_suffix : List String → String
unfolding concat
rest_suffix [] = ""
rest_suffix (p ∷ ps) = concat "_" (concat p (rest_suffix ps))

-- The list of results, if there is a second part.
abbrev pub suffixed : String × List String → List String → Option (List String)
suffixed (first, []) suffixes = none
suffixed (first, second ∷ rest) suffixes =
    some (map (λ s. create_string (first ∷ "_" ∷ second ∷ s ∷ rest_suffix rest ∷ [])) suffixes)

-- `addSuffix`; `none` is the panic of `parts[1]` where there is one part. With no suffix to add
-- nothing is indexed, which does not happen.
unfoldable pub add_suffix : String → List String → Option (List String)
add_suffix mt suffixes = suffixed (split b'_' mt) suffixes

abbrev pub prepend : List String → Option (List String) → Option (List String)
prepend before none = none
prepend before (some types) = some (before ++ types)

-- The case of `mtStandardD`.
unfoldable pub d_variants : String → Option (List String)
unfolding add_suffix replace_all
d_variants mt =
    let ds_type = replace_all mt "Standard_D" "Standard_DS" in
    elim (add_suffix mt ("s" ∷ [])) [
      | none ↦ none
      | some with_s ↦
          prepend (with_s ++ (ds_type ∷ [])) (add_suffix ds_type ("-1" ∷ "-2" ∷ "-4" ∷ "-8" ∷ []))
    ]

-- The case of `mtStandardG`.
unfoldable pub g_variants : String → Option (List String)
unfolding add_suffix replace_all
g_variants mt =
    let gs_type = replace_all mt "Standard_G" "Standard_GS" in
    prepend (gs_type ∷ []) (add_suffix gs_type ("-4" ∷ "-8" ∷ "-16" ∷ []))

-- The cases of `mtStandardM`, by the end of the type.
unfoldable pub m_variants : String → Option (List String) → Option (List String)
unfolding add_suffix has_suffix trim_suffix
m_variants mt otherwise =
    if has_suffix mt "ms"
    then add_suffix (trim_suffix mt "ms")
        ("-2ms" ∷ "-4ms" ∷ "-8ms" ∷ "-16ms" ∷ "-32ms" ∷ "-64ms" ∷ [])
    else (if has_suffix mt "ls" || has_suffix mt "ts"
        then some []
        else (if has_suffix mt "s"
            then add_suffix (trim_suffix mt "s") ("" ∷ "m" ∷ [])
            else otherwise))

-- `getMachineTypeVariants`
unfoldable pub get_machine_type_variants : String → Option (List String)
unfolding matches mt_standard_b mt_standard_d mt_standard_e mt_standard_f mt_standard_g
    mt_standard_l mt_standard_m mt_standard_n d_variants g_variants m_variants add_suffix
    create_string
get_machine_type_variants mt =
    let n_case = if matches mt_standard_n mt then add_suffix mt ("s" ∷ []) else some [] in
    if matches mt_standard_b mt
    then some (create_string (mt ∷ "s" ∷ []) ∷ [])
    else (if matches mt_standard_d mt
        then d_variants mt
        else (if matches mt_standard_e mt
            then add_suffix mt ("s" ∷ "-2s" ∷ "-4s" ∷ "-8s" ∷ "-16s" ∷ "-32s" ∷ [])
            else (if matches mt_standard_f mt
                then add_suffix mt ("s" ∷ [])
                else (if matches mt_standard_g mt
                    then g_variants mt
                    else (if matches mt_standard_l mt
                        then add_suffix mt ("s" ∷ [])
                        else (if matches mt_standard_m mt
                            then m_variants mt n_case
                            else n_case))))))

-- `transformMachineType`, where the list of types has a first one.
unfoldable pub transform_machine_type : String → String → List String → List String
unfolding contains create_string
transform_machine_type sub_category first [] =
    if contains sub_category "Basic"
    then create_string ("Basic_" ∷ first ∷ []) ∷ []
    else create_string ("Standard_" ∷ first ∷ []) ∷ []
transform_machine_type sub_category first (second ∷ []) =
    if contains sub_category "Basic"
    then create_string ("Basic_" ∷ first ∷ []) ∷ []
    else create_string ("Standard_" ∷ first ∷ []) ∷ create_string ("Standard_" ∷ second ∷ []) ∷ []
transform_machine_type sub_category first (second ∷ third ∷ rest) =
    if contains sub_category "Basic"
    then create_string ("Basic_" ∷ first ∷ []) ∷ []
    else create_string ("Standard_" ∷ first ∷ []) ∷ []

abbrev underscored : String → String
underscored it = replace it " " "_" 1

typed : String → String × List String → List String
unfolding transform_machine_type create_string contains replace
typed sub_category (first, rest) =
    let head = underscored first in
    let promoted =
      if contains sub_category "Promo" then create_string (head ∷ "_Promo" ∷ []) else head in
    transform_machine_type sub_category promoted (map underscored rest)

-- `machineType`
unfoldable pub machine_type : String → String → List String
unfolding typed split trim_suffix contains
machine_type meter_name sub_category =
    let name = trim_suffix meter_name " Low Priority" in
    let types = typed sub_category (split b'/' name) in
    if contains name "Expired" then [] else types
