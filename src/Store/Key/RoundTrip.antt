-- ===== src/Store/Key/RoundTrip.antt =====
-- A key can be read back from its text, so distinct entries are kept under distinct texts.
use cloudinfo.Prelude.{
  String, ◌≡◌, refl, ap, ◌∙◌, List, [], ◌∷◌, Option, none, some, str_eq, if◌then◌else◌,
}
use cloudinfo.Prelude.Text.{IsName, concat, split_slash, split_slash-concat, split_slash-name}
use cloudinfo.Store.Key.{
  Key, vm_key, price_key, zone_key, image_key, version_key, region_key, status_key, services_key,
  key_text, IsClean,
}

segments : Key → List String
segments (vm_key p s r) = p ∷ "services" ∷ s ∷ "regions" ∷ r ∷ "vms" ∷ []
segments (price_key p r t) = p ∷ "regions" ∷ r ∷ "prices" ∷ t ∷ []
segments (zone_key p s r) = p ∷ "services" ∷ s ∷ "regions" ∷ r ∷ "zones" ∷ "" ∷ []
segments (image_key p s r) = p ∷ "services" ∷ s ∷ "regions" ∷ r ∷ "images" ∷ []
segments (version_key p s r) = p ∷ "services" ∷ s ∷ "regions" ∷ r ∷ "versions" ∷ []
segments (region_key p s) = p ∷ "services" ∷ s ∷ "regions" ∷ "" ∷ []
segments (status_key p) = p ∷ "status" ∷ "" ∷ []
segments (services_key p) = p ∷ "services" ∷ []

read_regional : String → String → String → String → Option Key
read_regional p s r kind =
    if str_eq kind "vms"
    then some (vm_key p s r)
    else if str_eq kind "images"
    then some (image_key p s r)
    else if str_eq kind "versions"
    then some (version_key p s r)
    else none

read_segments : List String → Option Key
unfolding read_regional
read_segments (p ∷ a ∷ []) = some (services_key p)
read_segments (p ∷ a ∷ b ∷ []) = some (status_key p)
read_segments (p ∷ a ∷ b ∷ c ∷ d ∷ []) =
    if str_eq a "services" then some (region_key p b) else some (price_key p b d)
read_segments (p ∷ a ∷ b ∷ c ∷ d ∷ e ∷ []) = read_regional p b d e
read_segments (p ∷ a ∷ b ∷ c ∷ d ∷ e ∷ f ∷ []) = some (zone_key p b d)
read_segments _ = none

read_segments-segments : (k : Key) → read_segments (segments k) ≡ some k
unfolding read_segments segments
read_segments-segments (vm_key p s r) = refl
read_segments-segments (price_key p r t) = refl
read_segments-segments (zone_key p s r) = refl
read_segments-segments (image_key p s r) = refl
read_segments-segments (version_key p s r) = refl
read_segments-segments (region_key p s) = refl
read_segments-segments (status_key p) = refl
read_segments-segments (services_key p) = refl

-- The part of a key's text behind the provider's name, for an entry of a region.
split_slash-regional :
    (p s r t : String)
    → IsName p × IsName s × IsName r
    → split_slash
        (concat p (concat "/services/" (concat s (concat "/regions/" (concat r (concat "/" t))))))
      ≡ p ∷ "services" ∷ s ∷ "regions" ∷ r ∷ split_slash t
unfolding split_slash concat
split_slash-regional p s r t (hp, hs, hr) =
    split_slash-concat p _ _ hp refl
    ∙ ap (λ l. p ∷ "services" ∷ l)
        (split_slash-concat s _ _ hs refl
          ∙ ap (λ l. s ∷ "regions" ∷ l) (split_slash-concat r _ _ hr refl))

-- The same for a price, and for an entry of a provider or of one of its services.
split_slash-price :
    (p r t : String)
    → IsName p × IsName r × IsName t
    → split_slash (concat p (concat "/regions/" (concat r (concat "/prices/" (concat t "")))))
      ≡ p ∷ "regions" ∷ r ∷ "prices" ∷ t ∷ []
unfolding split_slash concat
split_slash-price p r t (hp, hr, ht) =
    split_slash-concat p _ _ hp refl
    ∙ ap (λ l. p ∷ "regions" ∷ l)
        (split_slash-concat r _ _ hr refl ∙ ap (λ l. r ∷ "prices" ∷ l) (split_slash-name t ht))

split_slash-service :
    (p s t : String)
    → IsName p × IsName s
    → split_slash (concat p (concat "/services/" (concat s (concat "/" t))))
      ≡ p ∷ "services" ∷ s ∷ split_slash t
unfolding split_slash concat
split_slash-service p s t (hp, hs) =
    split_slash-concat p _ _ hp refl
    ∙ ap (λ l. p ∷ "services" ∷ l) (split_slash-concat s _ _ hs refl)

split_slash-provider :
    (p t : String) → IsName p → split_slash (concat p (concat "/" t)) ≡ p ∷ split_slash t
unfolding concat
split_slash-provider p t hp = split_slash-concat p _ _ hp refl

abbrev prefixed : List String → List String
prefixed l = "" ∷ "banzaicloud.com" ∷ "cloudinfo" ∷ "providers" ∷ l

split_slash-key_text : (k : Key) → IsClean k → split_slash (key_text k) ≡ prefixed (segments k)
unfolding key_text segments split_slash concat
split_slash-key_text (vm_key p s r) h = ap prefixed (split_slash-regional p s r "vms" h)
split_slash-key_text (image_key p s r) h = ap prefixed (split_slash-regional p s r "images" h)
split_slash-key_text (version_key p s r) h = ap prefixed (split_slash-regional p s r "versions" h)
split_slash-key_text (zone_key p s r) h = ap prefixed (split_slash-regional p s r "zones/" h)
split_slash-key_text (price_key p r t) h = ap prefixed (split_slash-price p r t h)
split_slash-key_text (region_key p s) h = ap prefixed (split_slash-service p s "regions/" h)
split_slash-key_text (status_key p) h = ap prefixed (split_slash-provider p "status/" h)
split_slash-key_text (services_key p) h = ap prefixed (split_slash-provider p "services" h)

read_parts : List String → Option Key
unfolding read_segments
read_parts (a ∷ b ∷ c ∷ d ∷ l) = read_segments l
read_parts _ = none

-- Which entry a text is the key of.
pub read_key : String → Option Key
unfolding read_parts split_slash
read_key text = read_parts (split_slash text)

-- The text of a key with no slash in its names determines the key: the kind of the entry and
-- every name are read back.
pub read_key-key_text : (k : Key) → IsClean k → read_key (key_text k) ≡ some k
unfolding read_parts read_key
read_key-key_text k h = ap read_parts (split_slash-key_text k h) ∙ read_segments-segments k

-- Distinct entries whose names have no slash are kept under distinct texts.
pub key_text_injective : (j k : Key) → IsClean j → IsClean k → key_text j ≡ key_text k → j ≡ k
key_text_injective j k hj hk e = cc (read_key-key_text j hj, read_key-key_text k hk, ap read_key e)

-- A slash in a name can make two entries share a text.
shared_text :
    key_text (vm_key "p" "s" "r/prices/x") ≡ key_text (price_key "p/services/s" "r" "x/vms")
unfolding key_text
shared_text = refl
