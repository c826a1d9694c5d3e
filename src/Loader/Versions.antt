-- ===== src/Loader/Versions.antt =====
-- What the strategies of the loader select of the versions.
use cloudinfo.Prelude.{
  String, ◌≡◌, refl, sym, ap, ◌∙◌, ◌↔◌, inl, inr, Bool, true, not, List, [], ◌∷◌, In, In-append,
  In-append_left, In-append_right, subst, str_eq, eq_iff, Bool-cases,
}
use cloudinfo.Types.{LocationVersion}
use cloudinfo.CloudInfo.{contains_text}
use cloudinfo.Loader.{per_value, per_location, filter_versions, exclude_versions, include_versions}

module _ (passes : String → Bool) (version : LocationVersion) where
  per_value-In :
      (values : List String) (v : LocationVersion)
      → In v (per_value passes version values)
      → (v ≡ version) × ((value : String) × In value values × (passes value ≡ true))
  unfolding per_value
  per_value-In [] v m = elim m [ ]
  per_value-In (x ∷ xs) v m = elim (Bool-cases (passes x)) [
    | inl e ↦ elim (rw e at m) [
      | inl same ↦ (same, (x, inl refl, e))
      | inr later ↦ let (same, (value, i, h)) = per_value-In xs v later in (same, (value, inr i, h))
    ]
    | inr e ↦ let (same, (value, i, h)) = per_value-In xs v (rw e at m) in (same, (value, inr i, h))
  ]

  In-per_value :
      (values : List String) (value : String)
      → In value values
      → passes value ≡ true
      → In version (per_value passes version values)
  unfolding per_value
  In-per_value [] value m e = elim m [ ]
  In-per_value (x ∷ xs) value (inl same) e = rw (subst (λ y. passes y ≡ true) same e) (inl refl)
  In-per_value (x ∷ xs) value (inr m) e = elim (Bool-cases (passes x)) [
    | inl h ↦ rw h (inr (In-per_value xs value m e))
    | inr h ↦ rw h (In-per_value xs value m e)
  ]

module _ (passes : LocationVersion → String → Bool) where
  -- A listed version at the same location, and a value of the source version that passes there.
  pub record IsSelected (listed : List LocationVersion) (version : LocationVersion) : Type 0 where
    pub data_version : LocationVersion
    pub named : In data_version listed
    pub same_location : data_version.location ≡ version.location
    pub value : String
    pub of_version : In value version.versions
    pub selected : passes data_version value ≡ true

  later :
      (listed : List LocationVersion) (l version v : LocationVersion)
      → (v ≡ version) × IsSelected listed version
      → (v ≡ version) × IsSelected (l ∷ listed) version
  later listed l version v (same, h) = (
    same,
    record {
      data_version = h.data_version;
      named = inr h.named;
      same_location = h.same_location;
      value = h.value;
      of_version = h.of_version;
      selected = h.selected;
    },
  )

  per_location-In :
      (version : LocationVersion) (listed : List LocationVersion) (v : LocationVersion)
      → In v (per_location passes version listed)
      → (v ≡ version) × IsSelected listed version
  unfolding per_location
  per_location-In version [] v m = elim m [ ]
  per_location-In version (l ∷ listed) v m =
      elim (Bool-cases (str_eq l.location version.location)) [
        | inr e ↦ later listed l version v (per_location-In version listed v (rw e at m))
        | inl e ↦
            elim (In-append v (per_value (passes l) version version.versions)
              (per_location passes version listed) (rw e at m)) [
                | inl here ↦
                    let (same, (value, i, h)) =
                      per_value-In (passes l) version version.versions v here in
                    (
                      same,
                      record {
                        data_version = l;
                        named = inl refl;
                        same_location = (eq_iff l.location version.location).0 e;
                        value = value;
                        of_version = i;
                        selected = h;
                      },
                    )
                | inr rest ↦ later listed l version v (per_location-In version listed v rest)
              ]
      ]

  In-per_location :
      (version : LocationVersion) (listed : List LocationVersion) (l : LocationVersion)
      (value : String)
      → In l listed
      → l.location ≡ version.location
      → In value version.versions
      → passes l value ≡ true
      → In version (per_location passes version listed)
  unfolding per_location
  In-per_location version [] l value m e i h = elim m [ ]
  In-per_location version (k ∷ listed) l value (inl same) e i h =
      rw ((eq_iff k.location version.location).1 (ap (λ x. x.location) (sym same) ∙ e)) (
        In-append_left version (per_value (passes k) version version.versions)
          (per_location passes version listed)
          (In-per_value (passes k) version version.versions value i
            (subst (λ x. passes x value ≡ true) same h)))
  In-per_location version (k ∷ listed) l value (inr m) e i h =
      let rest = In-per_location version listed l value m e i h in
      elim (Bool-cases (str_eq k.location version.location)) [
        | inr other ↦ rw other rest
        | inl here ↦ rw here (
            In-append_right version (per_value (passes k) version version.versions)
              (per_location passes version listed) rest)
      ]

  filter_versions-In :
      (versions listed : List LocationVersion) (v : LocationVersion)
      → In v (filter_versions passes versions listed)
      → In v versions × IsSelected listed v
  unfolding filter_versions
  filter_versions-In [] listed v m = elim m [ ]
  filter_versions-In (version ∷ versions) listed v m =
      elim (In-append v (per_location passes version listed)
        (filter_versions passes versions listed) m) [
          | inl here ↦
              let (same, h) = per_location-In version listed v here in
              (inl same, subst (λ x. IsSelected listed x) (sym same) h)
          | inr rest ↦ let (i, h) = filter_versions-In versions listed v rest in (inr i, h)
        ]

  In-filter_versions :
      (versions listed : List LocationVersion) (v : LocationVersion)
      → In v versions
      → IsSelected listed v
      → In v (filter_versions passes versions listed)
  unfolding filter_versions
  In-filter_versions [] listed v m h = elim m [ ]
  In-filter_versions (version ∷ versions) listed v (inl same) h =
      In-append_left v (per_location passes version listed) (filter_versions passes versions listed)
        (subst (λ x. In v (per_location passes x listed)) same
          (In-per_location v listed h.data_version h.value h.named h.same_location h.of_version
            h.selected))
  In-filter_versions (version ∷ versions) listed v (inr m) h =
      In-append_right v (per_location passes version listed)
        (filter_versions passes versions listed) (In-filter_versions versions listed v m h)

-- A source version passes "exclude" exactly if a listed version at its location lacks one of its
-- values, and "include" exactly if a listed version at its location has one. It is stored with all
-- its values then, and a version at a location that is not listed is dropped by both.
pub versions_iff :
    (versions listed : List LocationVersion) (v : LocationVersion)
    → (In v (exclude_versions versions listed) ↔ (
        In v versions
        × IsSelected
            (λ data_version value. not (contains_text data_version.versions value))
            listed
            v))
      × (In v (include_versions versions listed) ↔ (
          In v versions
          × IsSelected (λ data_version value. contains_text data_version.versions value) listed v))
unfolding exclude_versions include_versions
versions_iff versions listed v = (
  (filter_versions-In _ versions listed v, λ h. In-filter_versions _ versions listed v h.0 h.1),
  (filter_versions-In _ versions listed v, λ h. In-filter_versions _ versions listed v h.0 h.1),
)
