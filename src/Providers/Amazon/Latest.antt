-- ===== src/Providers/Amazon/Latest.antt =====
-- The image that `getLatestImage` finds.
use cloudinfo.Prelude.{
  ℕ, ◌≤◌, ◌<◌, String, ◌≡◌, refl, sym, subst, ◌⊎◌, inl, inr, true, false, List, [], ◌∷◌, Option,
  some, none, In, All, ltb, Bool-cases, Option-cases, some-injective, arith,
}
use cloudinfo.Prelude.Result.{ok, ok-injective}
use cloudinfo.Providers.Amazon.Images.{Ec2Image, latest_from, get_latest_image, IsUpTo, IsLatest}

ltb-true : (a b : ℕ) → ltb a b ≡ true → a < b
ltb-true a b h = ground arith

ltb-false : (a b : ℕ) → ltb a b ≡ false → b ≤ a
ltb-false a b h = ground arith

after_zero : (a b : ℕ) → a < b → 0 < b
after_zero a b h = omega arith

after_all : (a b c : ℕ) → a < b → b ≤ c → a ≤ c
after_all a b c h k = omega arith

before_all : (a b c : ℕ) → b ≤ a → a ≤ c → b ≤ c
before_all a b c h k = omega arith

-- Where a found image comes from, with an image in front of the others.
from_image :
    (images : List Ec2Image) (image : Ec2Image) (found : Option Ec2Image)
    → (found ≡ some image) ⊎ ((latest : Ec2Image) × (found ≡ some latest) × In latest images)
    → (latest : Ec2Image) × (found ≡ some latest) × In latest (image ∷ images)
from_image images image found (inl e) = (image, e, inl refl)
from_image images image found (inr (latest, e, i)) = (latest, e, inr i)

later :
    (images : List Ec2Image) (image : Ec2Image) (before found : Option Ec2Image)
    → (found ≡ before) ⊎ ((latest : Ec2Image) × (found ≡ some latest) × In latest images)
    → (found ≡ before) ⊎ ((latest : Ec2Image) × (found ≡ some latest) × In latest (image ∷ images))
later images image before found (inl e) = inl e
later images image before found (inr (latest, e, i)) = inr (latest, e, inr i)

module _ (parse_date : String → Option ℕ) where
  -- What has been found so far, and the images that are left.
  abbrev IsSoFar : Option Ec2Image → ℕ → Type 0
  IsSoFar none date = date ≡ 0
  IsSoFar (some latest) date = (parse_date latest.created ≡ some date) × (0 < date)

  abbrev IsFinal : List Ec2Image → Option Ec2Image → ℕ → Option Ec2Image → Type 0
  IsFinal images before date found =
      (bound : ℕ) × ((found ≡ before)
        ⊎ ((latest : Ec2Image) × (found ≡ some latest) × In latest images))
      × IsSoFar found bound
      × (date ≤ bound)
      × All (IsUpTo parse_date bound) images

  latest_from-IsFinal :
      (images : List Ec2Image) (before : Option Ec2Image) (date : ℕ) (found : Option Ec2Image)
      → IsSoFar before date
      → latest_from parse_date images before date ≡ ok found
      → IsFinal images before date found
  unfolding latest_from
  latest_from-IsFinal [] before date found so_far e = (
    date,
    inl (sym (ok-injective e)),
    subst (λ f. IsSoFar f date) (ok-injective e) so_far,
    omega arith,
    tt,
  )
  latest_from-IsFinal (image ∷ images) before date found so_far e =
      elim (Option-cases (parse_date image.created)) [
        | inl unread ↦ cc (rw (unread, latest_from) at e)
        | inr (d, read) ↦ elim (Bool-cases (ltb date d)) [
          | inl newer ↦
              let (bound, origin, final, above, all) =
                latest_from-IsFinal images (some image) d found
                  (read, after_zero date d (ltb-true date d newer))
                  (rw (read, latest_from, newer) at e) in
              (
                bound,
                inr (from_image images image found origin),
                final,
                after_all date d bound (ltb-true date d newer) above,
                ((d, read, above), all),
              )
          | inr older ↦
              let (bound, origin, final, above, all) =
                latest_from-IsFinal images before date found so_far
                  (rw (read, latest_from, older) at e) in
              (
                bound,
                later images image before found origin,
                final,
                above,
                ((d, read, before_all date d bound (ltb-false date d older) above), all),
              )
        ]
      ]

  -- Where `getLatestImage` gives no error, its image is one of those given, was created after the
  -- zero time, and no other was created later; without an image all are of the zero time.
  pub get_latest_image-IsLatest :
      (images : List Ec2Image) (found : Option Ec2Image)
      → get_latest_image parse_date images ≡ ok found
      → IsLatest parse_date images found
  unfolding get_latest_image
  get_latest_image-IsLatest images none e =
      let (bound, origin, final, above, all) = latest_from-IsFinal images none 0 none refl e in
      subst (λ b. All (IsUpTo parse_date b) images) final all
  get_latest_image-IsLatest images (some latest) e =
      let (bound, origin, final, above, all) =
        latest_from-IsFinal images none 0 (some latest) refl e in
      (one_of origin, (bound, final.0, final.1, all))
    where
      one_of :
          (some latest ≡ none) ⊎ ((other : Ec2Image) × (some latest ≡ some other) × In other images)
          → In latest images
      one_of (inl missing) = cc
      one_of (inr (other, same, i)) = subst (λ x. In x images) (sym (some-injective same)) i
