-- ===== src/Json.antt =====
-- The values of `encoding/json` that the program writes and reads: a text in JSON is the value
-- that it denotes. A date is the instant whose text is written.
pub mod Codec
pub mod RoundTrip
pub mod Marshal
mod Tests
use cloudinfo.Prelude.{
  ◌≡◌, refl, ℕ, String, Bool, true, false, List, [], ◌∷◌, ◌++◌, Option, none, some, str_eq,
  if◌then◌else◌,
}
use cloudinfo.Prelude.Float.{Float64}
use cloudinfo.Prelude.Result.{Result, ok, err, ◌>>=◌}

mutual
  pub data Json : Type 0 where
    null : Json
    boolean : Bool → Json
    number : Float64 → Json
    date : ℕ → Json
    text : String → Json
    array : Items → Json
    object : Fields → Json

  pub data Items : Type 0 where
    no_items : Items
    item : Json → Items → Items

  pub data Fields : Type 0 where
    no_fields : Fields
    field : String → Json → Fields → Fields

-- `m[key]` in an object; a name stands once in what `Marshal` writes.
unfoldable pub member : String → Fields → Option Json
member key no_fields = none
member key (field name value rest) =
    let later = member key rest in if str_eq name key then some value else later

-- The errors of `Unmarshal`.
pub data JsonError : Type 0 where
  wrong_type : JsonError

-- The fields of a struct: an object, and `null`, which leaves the struct as it is.
abbrev pub as_fields : Json → Result JsonError Fields
as_fields (object fields) = ok fields
as_fields null = ok no_fields
as_fields _ = err wrong_type

abbrev pub as_text : Json → Result JsonError String
as_text (text s) = ok s
as_text null = ok ""
as_text _ = err wrong_type

abbrev pub as_boolean : Json → Result JsonError Bool
as_boolean (boolean b) = ok b
as_boolean null = ok false
as_boolean _ = err wrong_type

abbrev pub as_number : Float64 → Json → Result JsonError Float64
as_number zero_value (number f) = ok f
as_number zero_value null = ok zero_value
as_number zero_value _ = err wrong_type

abbrev pub as_date : Json → Result JsonError ℕ
as_date (date t) = ok t
as_date null = ok 0
as_date _ = err wrong_type

module _ {A : Type 0} where
  -- A field of a struct, which keeps its value where the object has none of the name.
  unfoldable pub decode_field :
      String → (Json → Result JsonError A) → A → Fields → Result JsonError A
  unfolding member
  decode_field name decode kept fields = elim (member name fields) [
    | none ↦ ok kept
    | some value ↦ decode value
  ]

  unfoldable pub encode_items : (A → Json) → List A → Items
  encode_items encode [] = no_items
  encode_items encode (a ∷ as') = item (encode a) (encode_items encode as')

  unfoldable pub decode_items : (Json → Result JsonError A) → Items → Result JsonError (List A)
  decode_items decode no_items = ok []
  decode_items decode (item value rest) = do
    a ← decode value
    as' ← decode_items decode rest
    ok (a ∷ as')

  -- A slice is an array, and `null` gives the nil slice.
  unfoldable pub decode_list : (Json → Result JsonError A) → Json → Result JsonError (List A)
  unfolding decode_items
  decode_list decode (array items) = decode_items decode items
  decode_list decode null = ok []
  decode_list decode _ = err wrong_type

  unfoldable pub encode_map : (A → Json) → List (String × A) → Fields
  encode_map encode [] = no_fields
  encode_map encode ((key, a) ∷ m) = field key (encode a) (encode_map encode m)

  unfoldable pub decode_fields :
      (Json → Result JsonError A) → Fields → Result JsonError (List (String × A))
  decode_fields decode no_fields = ok []
  decode_fields decode (field key value rest) = do
    a ← decode value
    m ← decode_fields decode rest
    ok ((key, a) ∷ m)

  -- A map is an object.
  unfoldable pub decode_map :
      (Json → Result JsonError A) → Json → Result JsonError (List (String × A))
  unfolding decode_fields
  decode_map decode (object fields) = decode_fields decode fields
  decode_map decode null = ok []
  decode_map decode _ = err wrong_type

  pub decode_items-encode_items :
      (encode : A → Json) (decode : Json → Result JsonError A) (as' : List A)
      → ((a : A) → decode (encode a) ≡ ok a)
      → decode_items decode (encode_items encode as') ≡ ok as'
  unfolding decode_items encode_items
  decode_items-encode_items encode decode [] h = refl
  decode_items-encode_items encode decode (a ∷ as') h =
      rw (h a, decode_items-encode_items encode decode as' h) refl

  pub decode_fields-encode_map :
      (encode : A → Json) (decode : Json → Result JsonError A) (m : List (String × A))
      → ((a : A) → decode (encode a) ≡ ok a)
      → decode_fields decode (encode_map encode m) ≡ ok m
  unfolding decode_fields encode_map
  decode_fields-encode_map encode decode [] h = refl
  decode_fields-encode_map encode decode ((key, a) ∷ m) h =
      rw (h a, decode_fields-encode_map encode decode m h) refl
