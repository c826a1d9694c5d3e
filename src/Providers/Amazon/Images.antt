-- ===== src/Providers/Amazon/Images.antt =====
-- The images of Amazon: `getLatestImage`, `tagsFormImage` and the queries of image_helper.go in
-- internal/cloudinfo/providers/amazon.
use cloudinfo.Prelude.{
  ℕ, ◌≤◌, ◌<◌, String, ◌≡◌, Bool, false, ◌||◌, List, [], ◌∷◌, Option, some, none, In, All, ltb,
  str_eq, if◌then◌else◌,
}
use cloudinfo.Prelude.Text.{sprintf}
use cloudinfo.Prelude.Maps.{lookup, insert}
use cloudinfo.Prelude.Result.{Result, ok, err}
use cloudinfo.Types.{Image, new_image}

pub record Ec2Image : Type 0 where
  pub image_id : String
  pub created : String
  pub image_tags : List (String × String)

-- The filters, each with its value, and the owners of a query.
pub record DescribeImagesInput : Type 0 where
  pub filters : List (String × String)
  pub owners : List String

abbrev pub eks_image_name_format : String
eks_image_name_format = "%s-node-%s-*"

-- `getEKSDescribeImagesInput`
unfoldable pub get_eks_describe_images_input : String → Bool → DescribeImagesInput
unfolding sprintf
get_eks_describe_images_input kubernetes_version gpus =
    let name_filter =
      if gpus
      then sprintf eks_image_name_format ("amazon-eks-gpu" ∷ kubernetes_version ∷ [])
      else sprintf eks_image_name_format ("amazon-eks" ∷ kubernetes_version ∷ []) in
    record {
      filters =
          ("name", name_filter)
          ∷ ("is-public", "true")
          ∷ ("state", "available")
          ∷ ("owner-alias", "amazon")
          ∷ [];
      owners = [];
    }

-- `getPKEDescribeImagesInput`
abbrev pub get_pke_describe_images_input : DescribeImagesInput
get_pke_describe_images_input = record {
  filters = ("tag:pke-version", "*") ∷ ("is-public", "true") ∷ [];
  owners = "161831738826" ∷ "self" ∷ [];
}

-- `tagsFormImage`
unfoldable pub tags_form_image :
    List (String × String) → List (String × String) → List (String × String)
unfolding insert
tags_form_image [] tags = tags
tags_form_image ((key, value) ∷ rest) tags = tags_form_image rest (insert key value tags)

-- `strconv.ParseBool`, which gives `false` with an error.
abbrev pub parse_bool : String → Bool
parse_bool s =
    (str_eq s "1" || (str_eq s "t" || str_eq s "T"))
    || (str_eq s "TRUE" || (str_eq s "true" || str_eq s "True"))

abbrev pub is_gpu : Option String → Bool
is_gpu none = false
is_gpu (some gpu_tag_value) = parse_bool gpu_tag_value

abbrev pub tag_value : Option String → String
tag_value none = ""
tag_value (some value) = value

-- `parse_date` is `time.Parse(time.RFC3339, …)`, with `none` for an error; the zero time is 0.
module _ (parse_date : String → Option ℕ) where
  -- `getLatestImage` from an image and its date on.
  unfoldable pub latest_from : List Ec2Image → Option Ec2Image → ℕ → Result String (Option Ec2Image)
  latest_from [] latest_image latest_date = ok latest_image
  latest_from (image ∷ images) latest_image latest_date = elim (parse_date image.created) [
    | none ↦ err "parsing time"
    | some date ↦
        let newer = latest_from images (some image) date in
        let older = latest_from images latest_image latest_date in
        if ltb latest_date date then newer else older
  ]

  -- `getLatestImage`
  unfoldable pub get_latest_image : List Ec2Image → Result String (Option Ec2Image)
  unfolding latest_from
  get_latest_image images = latest_from images none 0

  -- The image of the service pke.
  unfoldable pub pke_image : Ec2Image → Image
  unfolding tags_form_image lookup
  pke_image image =
      let tags = tags_form_image image.image_tags [] in
      record (new_image image.image_id (tag_value (lookup "k8s-version" tags))
        (is_gpu (lookup "gpu" tags))) {
          tags = tags;
          creation_date = elim (parse_date image.created) [ none ↦ 0 | some date ↦ date ];
        }

  unfoldable pub pke_images : List Ec2Image → List Image
  unfolding pke_image
  pke_images [] = []
  pke_images (image ∷ images) = pke_image image ∷ pke_images images

  -- An image was created at a date up to a bound.
  abbrev pub IsUpTo : ℕ → Ec2Image → Type 0
  IsUpTo bound image = (date : ℕ) × (parse_date image.created ≡ some date) × (date ≤ bound)

  -- The latest of some images: one of them with a date up to which the others are, or none if all
  -- are of the zero time.
  abbrev pub IsLatest : List Ec2Image → Option Ec2Image → Type 0
  IsLatest images none = All (IsUpTo 0) images
  IsLatest images (some latest) =
      In latest images
      × ((bound : ℕ) × (parse_date latest.created ≡ some bound)
          × (0 < bound)
          × All (IsUpTo bound) images)
