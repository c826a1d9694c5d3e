-- ===== src/Loader/Stored.antt =====
-- What the loaders leave in the store for each region of a file.
use cloudinfo.Prelude.{
  String, ◌≡◌, refl, ◌≢◌, inl, inr, List, Option, none, some, Bool-cases, str_eq, if◌then◌else◌,
}
use cloudinfo.Prelude.Text.{IsName}
use cloudinfo.Types.{VmInfo, Image, LocationVersion}
use cloudinfo.Store.Key.{Key, Content, vm_key, zone_key, image_key, version_key, IsClean}
use cloudinfo.Store.Interface.{CloudInfoStore, get_vm, get_zones, get_image, get_version}
use cloudinfo.Loader.{
  Region, ServiceData, by_strategy, or_keep, exclude_zones, include_zones, exclude_versions,
  include_versions, exclude_images, include_images, exclude_vms, include_vms, load_zones,
  load_versions, load_images, load_vms,
}

-- A new value, or else the one that was there.
abbrev pub or_old : {A : Type 0} → Option A → Option A → Option A
or_old none old = old
or_old (some a) old = some a

module _ (st : CloudInfoStore) (d : ServiceData) where
  or_keep-fetch :
      (s : st.State) (k : Key) (o : Option (Content k))
      → IsClean k
      → st.fetch (or_keep s o (λ v. st.put s k v)) k ≡ or_old o (st.fetch s k)
  or_keep-fetch s k none hk = refl
  or_keep-fetch s k (some v) hk = st.fetch-put s k v hk

  or_keep-fetch_other :
      (s : st.State) (j k : Key) (o : Option (Content k))
      → IsClean j
      → IsClean k
      → j ≢ k
      → st.fetch (or_keep s o (λ v. st.put s k v)) j ≡ st.fetch s j
  or_keep-fetch_other s j k none hj hk n = refl
  or_keep-fetch_other s j k (some v) hj hk n = st.fetch-put_other s j k v hj hk n

  pub record AreNames (id : String) : Type 0 where
    pub provider_name : IsName d.provider
    pub service_name : IsName d.name
    pub source_name : IsName d.source
    pub id_name : IsName id

  -- What the strategies of a region make of the store before the run.
  abbrev pub zones_after : st.State → Region → Option (List String)
  zones_after s r =
      or_old
        (by_strategy r.content.zones.strategy r.content.zones.entries
          (get_zones st s d.provider d.source r.id) exclude_zones include_zones)
        (get_zones st s d.provider d.name r.id)

  abbrev pub versions_after : st.State → Region → Option (List LocationVersion)
  versions_after s r =
      or_old
        (by_strategy r.content.versions.strategy r.content.versions.entries
          (get_version st s d.provider d.source r.id) exclude_versions include_versions)
        (get_version st s d.provider d.name r.id)

  abbrev pub images_after : st.State → Region → Option (List Image)
  images_after s r =
      if str_eq d.name "pke"
      then get_image st s d.provider d.name r.id
      else or_old
          (by_strategy r.content.images.strategy r.content.images.entries
            (get_image st s d.provider d.source r.id) exclude_images include_images)
          (get_image st s d.provider d.name r.id)

  abbrev pub vms_after : st.State → Region → Option (List VmInfo)
  vms_after s r =
      or_old
        (by_strategy r.content.vms.strategy r.content.vms.entries
          (get_vm st s d.provider d.source r.id) exclude_vms include_vms)
        (get_vm st s d.provider d.name r.id)

  -- From the store `s` before to the store `t` after the run.
  pub record IsLoaded (r : Region) (s t : st.State) : Type 0 where
    pub zones : get_zones st t d.provider d.name r.id ≡ zones_after s r
    pub versions : get_version st t d.provider d.name r.id ≡ versions_after s r
    pub images : get_image st t d.provider d.name r.id ≡ images_after s r
    pub vms : get_vm st t d.provider d.name r.id ≡ vms_after s r

  module _ (r : Region) (n : AreNames r.id) where
    own : IsName d.provider × IsName d.name × IsName r.id
    own = (n.provider_name, n.service_name, n.id_name)

    from : IsName d.provider × IsName d.source × IsName r.id
    from = (n.provider_name, n.source_name, n.id_name)

    abbrev pub zoned : st.State → st.State
    zoned s = load_zones st d s d.provider d.name r

    abbrev pub versioned : st.State → st.State
    versioned s = load_versions st d s d.provider d.name r

    abbrev pub imaged : st.State → st.State
    imaged s = load_images st d s d.provider d.name r

    abbrev pub with_vms : st.State → st.State
    with_vms s = load_vms st d s d.provider d.name r

    pub zoned-fetch_other :
        (s : st.State) (k : Key)
        → IsClean k
        → k ≢ zone_key d.provider d.name r.id
        → st.fetch (zoned s) k ≡ st.fetch s k
    unfolding load_zones
    zoned-fetch_other s k hk ne =
        or_keep-fetch_other s k (zone_key d.provider d.name r.id) _ hk own ne

    pub versioned-fetch_other :
        (s : st.State) (k : Key)
        → IsClean k
        → k ≢ version_key d.provider d.name r.id
        → st.fetch (versioned s) k ≡ st.fetch s k
    unfolding load_versions
    versioned-fetch_other s k hk ne =
        or_keep-fetch_other s k (version_key d.provider d.name r.id) _ hk own ne

    pub imaged-fetch_other :
        (s : st.State) (k : Key)
        → IsClean k
        → k ≢ image_key d.provider d.name r.id
        → st.fetch (imaged s) k ≡ st.fetch s k
    unfolding load_images
    imaged-fetch_other s k hk ne = elim (Bool-cases (str_eq d.name "pke")) [
      | inl e ↦ rw (e, load_images) refl
      | inr e ↦
          rw (e, load_images)
            (or_keep-fetch_other s k (image_key d.provider d.name r.id) _ hk own ne)
    ]

    pub with_vms-fetch_other :
        (s : st.State) (k : Key)
        → IsClean k
        → k ≢ vm_key d.provider d.name r.id
        → st.fetch (with_vms s) k ≡ st.fetch s k
    unfolding load_vms
    with_vms-fetch_other s k hk ne =
        or_keep-fetch_other s k (vm_key d.provider d.name r.id) _ hk own ne

    pub zoned-fetch :
        (s : st.State) → get_zones st (zoned s) d.provider d.name r.id ≡ zones_after s r
    unfolding load_zones
    zoned-fetch s = or_keep-fetch s (zone_key d.provider d.name r.id) _ own

    pub versioned-fetch :
        (s : st.State) → get_version st (versioned s) d.provider d.name r.id ≡ versions_after s r
    unfolding load_versions
    versioned-fetch s = or_keep-fetch s (version_key d.provider d.name r.id) _ own

    pub imaged-fetch :
        (s : st.State) → get_image st (imaged s) d.provider d.name r.id ≡ images_after s r
    unfolding load_images
    imaged-fetch s = elim (Bool-cases (str_eq d.name "pke")) [
      | inl e ↦ rw (e, load_images) refl
      | inr e ↦ rw (e, load_images) (or_keep-fetch s (image_key d.provider d.name r.id) _ own)
    ]

    pub with_vms-fetch :
        (s : st.State) → get_vm st (with_vms s) d.provider d.name r.id ≡ vms_after s r
    unfolding load_vms
    with_vms-fetch s = or_keep-fetch s (vm_key d.provider d.name r.id) _ own
