-- ===== src/Prelude/Text.antt =====
-- Go strings as native texts, walked by code point: the functions of `fmt` and `strings` that the
-- program calls. The case conversions are those of ASCII.
use Prim.Native.Char.{Char, code}
use Prim.Native.String.{String, [], ◌∷◌, char_at}
use Prim.Native.Nat.{◌-◌}
use mathlib.Core.Path.{◌≡◌, refl}
use mathlib.Core.Logic.{◌≢◌}
use mathlib.Core.Bool.{Bool, true, false, ◌&&◌, ◌||◌}
use mathlib.Core.List.{List}
use native.Mathlib.Omega.{arith}
use text.Mathlib.Text.{◌==◌ as str_eq}
use text.Mathlib.TextEquality.{eq_iff}
use cloudinfo.Prelude.Tests.{leb, ◌==◌, if◌then◌else◌}

-- `a + b`, and `strings.Builder.WriteString`.
unfoldable pub concat : String → String → String
concat [] t = t
concat (c ∷ s) t = c ∷ concat s t

next_arg : List String → String
next_arg List.[] = "%!s(MISSING)"
next_arg (List.◌∷◌ a args) = a

rest_args : List String → List String
rest_args List.[] = List.[]
rest_args (List.◌∷◌ a args) = args

-- `fmt.Sprintf` for a format whose only verb is `%s`.
unfoldable pub sprintf : String → List String → String
unfolding next_arg rest_args concat
sprintf [] args = []
sprintf (c ∷ []) args = c ∷ []
sprintf (c ∷ d ∷ t) args =
    let spliced = concat (next_arg args) (sprintf t (rest_args args)) in
    let plain = c ∷ sprintf (d ∷ t) args in
    if (code c == b'%') && (code d == b's') then spliced else plain

-- `strings.HasPrefix`
unfoldable pub has_prefix : String → String → Bool
has_prefix s [] = true
has_prefix [] (d ∷ p) = false
has_prefix (c ∷ s) (d ∷ p) = (code c == code d) && has_prefix s p

-- `strings.Contains`
unfoldable pub contains : String → String → Bool
unfolding has_prefix
contains [] p = has_prefix [] p
contains (c ∷ s) p = has_prefix (c ∷ s) p || contains s p

-- The parts between slashes.
cons_head : Char → List String → List String
cons_head c List.[] = List.◌∷◌ (c ∷ []) List.[]
cons_head c (List.◌∷◌ w ws) = List.◌∷◌ (c ∷ w) ws

unfoldable pub split_slash : String → List String
unfolding cons_head
split_slash [] = List.◌∷◌ [] List.[]
split_slash (c ∷ s) =
    if code c == b'/' then List.◌∷◌ [] (split_slash s) else cons_head c (split_slash s)

-- A name with no slash in it.
abbrev pub IsName : String → Type 0
IsName [] = Unit
IsName (c ∷ s) = (code c ≢ b'/') × IsName s

pub split_slash-concat :
    (a : String) (c : Char) (t : String)
    → IsName a
    → code c ≡ b'/'
    → split_slash (concat a (c ∷ t)) ≡ List.◌∷◌ a (split_slash t)
unfolding split_slash concat
split_slash-concat [] c t h e = ground arith
split_slash-concat (d ∷ a) c t h e = ground (arith, split_slash-concat a c t h.1 e)

pub split_slash-name : (a : String) → IsName a → split_slash (concat a []) ≡ List.◌∷◌ a List.[]
unfolding split_slash concat
split_slash-name [] h = refl
split_slash-name (d ∷ a) h = ground (arith, split_slash-name a h.1)

is_lower : Char → Bool
is_lower c = leb b'a' (code c) && leb (code c) b'z'

is_upper : Char → Bool
is_upper c = leb b'A' (code c) && leb (code c) b'Z'

upper_char : Char → Char
unfolding is_lower
upper_char c = if is_lower c then char_at "ABCDEFGHIJKLMNOPQRSTUVWXYZ" (code c - b'a') else c

lower_char : Char → Char
unfolding is_upper
lower_char c = if is_upper c then char_at "abcdefghijklmnopqrstuvwxyz" (code c - b'A') else c

-- `strings.ToUpper` and `strings.ToLower`
unfoldable pub to_upper : String → String
unfolding upper_char
to_upper [] = []
to_upper (c ∷ s) = upper_char c ∷ to_upper s

unfoldable pub to_lower : String → String
unfolding lower_char
to_lower [] = []
to_lower (c ∷ s) = lower_char c ∷ to_lower s

text_tests :
    (to_upper "low-2" ≡ "LOW-2")
    × (to_lower "HiGh" ≡ "high")
    × (contains "ap-southeast-2" "south" ≡ true)
    × (has_prefix "sgp1" "sgp" ≡ true)
    × (sprintf "/a/%s/b/%s" (List.◌∷◌ "x" (List.◌∷◌ "y%" List.[])) ≡ "/a/x/b/y%")
unfolding to_upper to_lower contains has_prefix sprintf
text_tests = (refl, refl, refl, refl, refl)

pub distinct : (s t : String) → str_eq s t ≡ false → s ≢ t
distinct s t e h = cc (e, (eq_iff s t).1 h)
