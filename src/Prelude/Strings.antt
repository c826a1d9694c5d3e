-- ===== src/Prelude/Strings.antt =====
-- More functions of Go's `strings` and `strconv`, and regular expressions, on texts walked by code
-- point.
use Prim.Native.Char.{Char, code}
use Prim.Native.String.{String, [], ◌∷◌}
use Prim.Native.Nat.{ℕ, zero, suc, ◌+◌, ◌-◌, ◌*◌, ◌^◌}
use mathlib.Core.Path.{◌≡◌, refl}
use mathlib.Core.Bool.{Bool, true, false, ◌&&◌, ◌||◌}
use mathlib.Core.List.{List}
use text.Mathlib.Text.{◌==◌ as str_eq}
use cloudinfo.Prelude.Tests.{leb, ◌==◌, if◌then◌else◌}
use cloudinfo.Prelude.Text.{concat, has_prefix}

-- `len`, in code points.
unfoldable pub text_length : String → ℕ
text_length [] = 0
text_length (c ∷ s) = suc (text_length s)

abbrev pub cons_first : Char → String × List String → String × List String
cons_first c (first, rest) = (c ∷ first, rest)

abbrev pub new_part : String × List String → String × List String
new_part (first, rest) = ([], List.◌∷◌ first rest)

-- `strings.Split` at a single character: the first part, which is always there, and the others.
unfoldable pub split : ℕ → String → String × List String
split sep [] = ([], List.[])
split sep (c ∷ s) =
    let rest = split sep s in if code c == sep then new_part rest else cons_first c rest

-- `strings.HasSuffix`
unfoldable pub has_suffix : String → String → Bool
has_suffix [] p = str_eq [] p
has_suffix (c ∷ s) p = str_eq (c ∷ s) p || has_suffix s p

-- `strings.TrimSuffix`
unfoldable pub trim_suffix : String → String → String
trim_suffix [] p = []
trim_suffix (c ∷ s) p = let kept = c ∷ trim_suffix s p in if str_eq (c ∷ s) p then [] else kept

-- Whether a character is in a set that is given as a text.
unfoldable pub in_cutset : Char → String → Bool
in_cutset c [] = false
in_cutset c (d ∷ set) = (code c == code d) || in_cutset c set

-- `strings.TrimLeft`
unfoldable pub trim_left : String → String → String
unfolding in_cutset
trim_left [] cutset = []
trim_left (c ∷ s) cutset =
    let shorter = trim_left s cutset in if in_cutset c cutset then shorter else c ∷ s

abbrev pub unless_empty : Char → Bool → String → String
unless_empty c droppable [] = if droppable then [] else c ∷ []
unless_empty c droppable (d ∷ s) = c ∷ (d ∷ s)

-- `strings.TrimRight`
unfoldable pub trim_right : String → String → String
unfolding in_cutset
trim_right [] cutset = []
trim_right (c ∷ s) cutset = unless_empty c (in_cutset c cutset) (trim_right s cutset)

-- The walk of `strings.Replace`: `skip` characters belong to an occurrence that has been replaced,
-- and `n` more occurrences are to be.
unfoldable pub replace_from : ℕ → ℕ → String → String → String → String
unfolding has_prefix concat text_length
replace_from skip n [] old new = []
replace_from (suc skip) n (c ∷ s) old new = replace_from skip n s old new
replace_from zero zero (c ∷ s) old new = c ∷ s
replace_from zero (suc n) (c ∷ s) old new =
    let replaced = concat new (replace_from (text_length old - 1) n s old new) in
    let kept = c ∷ replace_from zero (suc n) s old new in
    if has_prefix (c ∷ s) old then replaced else kept

-- `strings.Replace(s, old, new, n)` for an `old` that is not empty.
unfoldable pub replace : String → String → String → ℕ → String
unfolding replace_from
replace s old new n = replace_from 0 n s old new

-- `strings.Replace(s, old, new, -1)`: there are no more occurrences than characters.
unfoldable pub replace_all : String → String → String → String
unfolding replace text_length
replace_all s old new = replace s old new (text_length s)

abbrev pub is_digit : Char → Bool
is_digit c = leb b'0' (code c) && leb (code c) b'9'

-- The value of digits after a value that has been read, and whether there are only digits.
unfoldable pub read_digits : ℕ → String → ℕ × Bool
read_digits n [] = (n, true)
read_digits n (c ∷ s) =
    let read = read_digits (10 * n + (code c - b'0')) s in (read.0, is_digit c && read.1)

-- Digits for a number up to a bound.
unfoldable pub is_number : ℕ → String → Bool
unfolding read_digits
is_number bound [] = false
is_number bound (c ∷ s) = let read = read_digits 0 (c ∷ s) in read.1 && leb read.0 bound

-- Whether `strconv.Atoi` gives no error, for an `int` of 64 bits.
unfoldable pub is_int : String → Bool
unfolding is_number
is_int [] = false
is_int (c ∷ s) =
    if code c == b'-'
    then is_number (2 ^ 63) s
    else (if code c == b'+' then is_number (2 ^ 63 - 1) s else is_number (2 ^ 63 - 1) (c ∷ s))

-- A regular expression that is anchored at both ends: sets of characters, which stand once, at most
-- once, any number of times, or at least once.
pub data Piece : Type 0 where
  one optional star plus : (Char → Bool) → Piece

-- `MatchString`
unfoldable pub matches : List Piece → String → Bool
matches List.[] [] = true
matches List.[] (c ∷ s) = false
matches (List.◌∷◌ (one set) ps) [] = false
matches (List.◌∷◌ (one set) ps) (c ∷ s) = set c && matches ps s
matches (List.◌∷◌ (optional set) ps) [] = matches ps []
matches (List.◌∷◌ (optional set) ps) (c ∷ s) = matches ps (c ∷ s) || (set c && matches ps s)
matches (List.◌∷◌ (star set) ps) [] = matches ps []
matches (List.◌∷◌ (star set) ps) (c ∷ s) =
    matches ps (c ∷ s) || (set c && matches (List.◌∷◌ (star set) ps) s)
matches (List.◌∷◌ (plus set) ps) [] = false
matches (List.◌∷◌ (plus set) ps) (c ∷ s) =
    set c && (matches ps s || matches (List.◌∷◌ (plus set) ps) s)

-- The pieces for the characters of a text, before others.
unfoldable pub literal : String → List Piece → List Piece
literal [] ps = ps
literal (c ∷ s) ps = List.◌∷◌ (one (λ d. code d == code c)) (literal s ps)

-- A set that is given by its characters.
abbrev pub any_of : String → Char → Bool
any_of set c = in_cutset c set

string_tests :
    (split b' ' "eu west 2" ≡ ("eu", List.◌∷◌ "west" (List.◌∷◌ "2" List.[])))
    × (split b' ' "" ≡ ("", List.[]))
    × (trim_suffix "D2 Low Priority" " Low Priority" ≡ "D2")
    × (has_suffix "M8ms" "ms" ≡ true)
    × (trim_left "standardDSv2" "standard" ≡ "DSv2")
    × (trim_right "DSv2Family" "Family" ≡ "DSv2")
    × (replace "A 1 2" " " "_" 1 ≡ "A_1 2")
    × (replace_all "aXbaXb" "aX" "ZZ" ≡ "ZZbZZb")
    × (is_int "-12" ≡ true)
    × (is_int "9223372036854775808" ≡ false)
    × (is_int "2b" ≡ false)
    × (matches
          (literal "ab" (List.◌∷◌ (plus is_digit) (List.◌∷◌ (star (any_of "xy")) List.[])))
          "ab12yx"
        ≡ true)
unfolding split trim_suffix has_suffix trim_left trim_right replace replace_all is_int matches
    literal
string_tests = (refl, refl, refl, refl, refl, refl, refl, refl, refl, refl, refl, refl)
