-- ===== src/Providers/Azure/Variants.antt =====
-- No index in the variants of a machine type is out of range: an underscore is in every type that a
-- regular expression lets through.
use Prim.Native.Char.{code}
use cloudinfo.Prelude.{
  ℕ, String, ◌≡◌, refl, ◌≢◌, inl, inr, Bool, true, false, ◌||◌, List, [], ◌∷◌, Option, some, none,
  str_eq, eq_iff, if◌then◌else◌, Bool-cases, Option-cases, if_total, arith, ◌==◌, subst,
}
use cloudinfo.Prelude.Text.{concat, has_prefix}
use cloudinfo.Prelude.Strings.{
  split, has_suffix, trim_suffix, replace, replace_all, replace_from, text_length, Piece, matches,
  literal,
}
use cloudinfo.CloudInfo.{create_string}
use cloudinfo.Providers.Azure.MachineTypes.{
  d_pieces, e_pieces, f_pieces, g_pieces, l_pieces, m_pieces, n_pieces, mt_standard_b,
  mt_standard_d, mt_standard_e, mt_standard_f, mt_standard_g, mt_standard_l, mt_standard_m,
  mt_standard_n, add_suffix, suffixed, prepend, d_variants, g_variants, m_variants,
  get_machine_type_variants,
}

-- Whether a character is in a text.
has_code : ℕ → String → Bool
has_code n String.[] = false
has_code n (String.◌∷◌ c s) = (code c == n) || has_code n s

has_prefix-literal :
    (p s : String) (ps : List Piece) → matches (literal p ps) s ≡ true → has_prefix s p ≡ true
unfolding matches literal has_prefix
has_prefix-literal String.[] s ps h = refl
has_prefix-literal (String.◌∷◌ d p) String.[] ps h = cc
has_prefix-literal (String.◌∷◌ d p) (String.◌∷◌ c s) ps h =
    ground (arith, has_prefix-literal p s ps)

has_code-has_prefix :
    (n : ℕ) (p s : String) → has_prefix s p ≡ true → has_code n p ≡ true → has_code n s ≡ true
unfolding has_prefix has_code
has_code-has_prefix n String.[] s h u = cc
has_code-has_prefix n (String.◌∷◌ d p) String.[] h u = cc
has_code-has_prefix n (String.◌∷◌ d p) (String.◌∷◌ c s) h u =
    ground (arith, has_code-has_prefix n p s)

has_code-concat : (n : ℕ) (a b : String) → has_code n a ≡ true → has_code n (concat a b) ≡ true
unfolding has_code concat
has_code-concat n String.[] b h = cc
has_code-concat n (String.◌∷◌ c a) b h = ground (arith, has_code-concat n a b)

has_code-trim_suffix :
    (n : ℕ) (s p : String)
    → has_code n s ≡ true
    → has_code n p ≡ false
    → has_code n (trim_suffix s p) ≡ true
unfolding has_code trim_suffix
has_code-trim_suffix n String.[] p h u = cc
has_code-trim_suffix n (String.◌∷◌ c s) p h u = elim (Bool-cases (str_eq (String.◌∷◌ c s) p)) [
  | inl same ↦
      let whole : has_code n p ≡ true =
        subst (λ t. has_code n t ≡ true) ((eq_iff (String.◌∷◌ c s) p).0 same) h in
      cc (whole, u)
  | inr other ↦ rw other (ground (arith, has_code-trim_suffix n s p))
]

has_code-split : (n : ℕ) (s : String) → has_code n s ≡ true → (split n s).1 ≢ []
unfolding has_code split
has_code-split n String.[] h = cc
has_code-split n (String.◌∷◌ c s) h = ground (arith, has_code-split n s)

add_suffix-total :
    (s : String) (suffixes : List String) → has_code b'_' s ≡ true → add_suffix s suffixes ≢ none
unfolding add_suffix
add_suffix-total s suffixes h = indexed (split b'_' s) (has_code-split b'_' s h)
  where
    indexed : (parts : String × List String) → parts.1 ≢ [] → suffixed parts suffixes ≢ none
    indexed (first, []) n e = n refl
    indexed (first, second ∷ rest) n e = cc

prepend-total :
    (before : List String) (o : Option (List String)) → o ≢ none → prepend before o ≢ none
prepend-total before none n e = n refl
prepend-total before (some types) n e = cc

has_code-replace_all :
    (n : ℕ) (s old new : String)
    → has_prefix s old ≡ true
    → has_code n old ≡ true
    → has_code n new ≡ true
    → has_code n (replace_all s old new) ≡ true
unfolding replace_all replace replace_from text_length has_prefix
has_code-replace_all n String.[] String.[] new p o h = cc
has_code-replace_all n String.[] (String.◌∷◌ d old) new p o h = cc
has_code-replace_all n (String.◌∷◌ c s) old new p o h =
    rw (p, replace_from) (has_code-concat n new _ h)

abbrev ms_suffixes : List String
ms_suffixes = "-2ms" ∷ "-4ms" ∷ "-8ms" ∷ "-16ms" ∷ "-32ms" ∷ "-64ms" ∷ []

abbrev e_suffixes : List String
e_suffixes = "s" ∷ "-2s" ∷ "-4s" ∷ "-8s" ∷ "-16s" ∷ "-32s" ∷ []

given : (types : List String) → some types ≢ none
given types e = cc

-- What a series lets through has an underscore.
has_code-literal :
    (p s : String) (ps : List Piece)
    → has_code b'_' p ≡ true
    → matches (literal p ps) s ≡ true
    → has_code b'_' s ≡ true
has_code-literal p s ps u h = has_code-has_prefix b'_' p s (has_prefix-literal p s ps h) u

d_variants-total : (mt : String) → has_prefix mt "Standard_D" ≡ true → d_variants mt ≢ none
unfolding d_variants has_code
d_variants-total mt h = elim (Option-cases (add_suffix mt ("s" ∷ []))) [
  | inl missing ↦
      elim (add_suffix-total mt ("s" ∷ []) (has_code-has_prefix b'_' "Standard_D" mt h refl)
        missing) [ ]
  | inr (types, e) ↦
      rw (e, d_variants)
        (prepend-total _ _ (
          add_suffix-total (replace_all mt "Standard_D" "Standard_DS") _
            (has_code-replace_all b'_' mt "Standard_D" "Standard_DS" h refl refl)))
]

g_variants-total : (mt : String) → has_prefix mt "Standard_G" ≡ true → g_variants mt ≢ none
unfolding g_variants has_code
g_variants-total mt h = prepend-total (replace_all mt "Standard_G" "Standard_GS" ∷ []) _ (
    add_suffix-total (replace_all mt "Standard_G" "Standard_GS") _
      (has_code-replace_all b'_' mt "Standard_G" "Standard_GS" h refl refl))

m_variants-total :
    (mt : String) (otherwise : Option (List String))
    → has_code b'_' mt ≡ true
    → otherwise ≢ none
    → m_variants mt otherwise ≢ none
unfolding m_variants has_code
m_variants-total mt otherwise h n =
    if_total (has_suffix mt "ms") (add_suffix (trim_suffix mt "ms") ms_suffixes) _
      (λ e.
        add_suffix-total (trim_suffix mt "ms") ms_suffixes
          (has_code-trim_suffix b'_' mt "ms" h refl))
      (if_total (has_suffix mt "ls" || has_suffix mt "ts") (some []) _ (λ e. given [])
        (if_total (has_suffix mt "s") (add_suffix (trim_suffix mt "s") ("" ∷ "m" ∷ [])) otherwise
          (λ e.
            add_suffix-total (trim_suffix mt "s") ("" ∷ "m" ∷ [])
              (has_code-trim_suffix b'_' mt "s" h refl))
          n))

-- `getMachineTypeVariants` never panics: whatever the type of a machine is, its parts are there where
-- they are indexed.
pub get_machine_type_variants-total : (mt : String) → get_machine_type_variants mt ≢ none
unfolding get_machine_type_variants mt_standard_b mt_standard_d mt_standard_e mt_standard_f
    mt_standard_g mt_standard_l mt_standard_m mt_standard_n has_code
get_machine_type_variants-total mt =
    if_total (matches mt_standard_b mt) (some (create_string (mt ∷ "s" ∷ []) ∷ [])) _ (λ e. given _)
      (if_total (matches mt_standard_d mt) (d_variants mt) _
        (λ e. d_variants-total mt (has_prefix-literal "Standard_D" mt d_pieces e))
        (if_total (matches mt_standard_e mt) (add_suffix mt e_suffixes) _
          (λ e. add_suffix-total mt e_suffixes (has_code-literal "Standard_E" mt e_pieces refl e))
          (if_total (matches mt_standard_f mt) (add_suffix mt ("s" ∷ [])) _
            (λ e. add_suffix-total mt ("s" ∷ []) (has_code-literal "Standard_F" mt f_pieces refl e))
            (if_total (matches mt_standard_g mt) (g_variants mt) _
              (λ e. g_variants-total mt (has_prefix-literal "Standard_G" mt g_pieces e))
              (if_total (matches mt_standard_l mt) (add_suffix mt ("s" ∷ [])) _
                (λ e.
                  add_suffix-total mt ("s" ∷ []) (has_code-literal "Standard_L" mt l_pieces refl e))
                (if_total (matches mt_standard_m mt) (m_variants mt n_case) n_case
                  (λ e.
                    m_variants-total mt n_case (has_code-literal "Standard_M" mt m_pieces refl e)
                      n_case-total)
                  n_case-total))))))
  where
    n_case : Option (List String)
    n_case = if matches mt_standard_n mt then add_suffix mt ("s" ∷ []) else some []

    n_case-total : n_case ≢ none
    n_case-total =
        if_total (matches mt_standard_n mt) (add_suffix mt ("s" ∷ [])) (some [])
          (λ e. add_suffix-total mt ("s" ∷ []) (has_code-literal "Standard_N" mt n_pieces refl e))
          (given [])
