-- ===== src/Loader/Regions.antt =====
-- What the loader with a source service does to one region of a file.
use cloudinfo.Prelude.{String, ◌≡◌, refl, ap, ◌∙◌, ◌≢◌, inl, inr, List, [], ◌∷◌, In}
use cloudinfo.Prelude.Text.{IsName}
use cloudinfo.Store.Key.{Key, vm_key, zone_key, image_key, version_key, IsClean}
use cloudinfo.Store.Interface.{CloudInfoStore}
use cloudinfo.Loader.{Region, ServiceData, load_region}
use cloudinfo.Loader.Stored.{
  AreNames, IsLoaded, zones_after, versions_after, images_after, vms_after, zoned, versioned,
  imaged, zoned-fetch, versioned-fetch, imaged-fetch, with_vms-fetch, zoned-fetch_other,
  versioned-fetch_other, imaged-fetch_other, with_vms-fetch_other,
}

-- No region stands twice.
abbrev pub IsNew : String → List Region → Type 0
IsNew id [] = Unit
IsNew id (r ∷ regions) = (id ≢ r.id) × IsNew id regions

abbrev pub HasDistinctIds : List Region → Type 0
HasDistinctIds [] = Unit
HasDistinctIds (r ∷ regions) = IsNew r.id regions × HasDistinctIds regions

pub IsNew-In :
    (id : String) (regions : List Region) (r : Region) → IsNew id regions → In r regions → id ≢ r.id
IsNew-In id [] r h m = elim m [ ]
IsNew-In id (q ∷ regions) r (n, h) (inl e) = λ same. n (same ∙ ap (λ x. x.id) e)
IsNew-In id (q ∷ regions) r (n, h) (inr m) = IsNew-In id regions r h m

module _ (st : CloudInfoStore) (d : ServiceData) where
  record IsApart (k : Key) (id : String) : Type 0 where
    pub zones : k ≢ zone_key d.provider d.name id
    pub versions : k ≢ version_key d.provider d.name id
    pub images : k ≢ image_key d.provider d.name id
    pub vms : k ≢ vm_key d.provider d.name id

  load_region-fetch_other :
      (r : Region) (n : AreNames st d r.id) (s : st.State) (k : Key)
      → IsClean k
      → IsApart k r.id
      → st.fetch (load_region st d s r) k ≡ st.fetch s k
  unfolding load_region
  load_region-fetch_other r n s k hk apart =
      with_vms-fetch_other st d r n (imaged st d r n (versioned st d r n (zoned st d r n s))) k hk
        apart.vms
      ∙ imaged-fetch_other st d r n (versioned st d r n (zoned st d r n s)) k hk apart.images
      ∙ versioned-fetch_other st d r n (zoned st d r n s) k hk apart.versions
      ∙ zoned-fetch_other st d r n s k hk apart.zones

  -- The entries of the region and of its source.
  pub record Agrees (r : Region) (s t : st.State) : Type 0 where
    pub entries :
        (service : String)
        → IsName service
        → (st.fetch t (zone_key d.provider service r.id)
            ≡ st.fetch s (zone_key d.provider service r.id))
          × (st.fetch t (version_key d.provider service r.id)
              ≡ st.fetch s (version_key d.provider service r.id))
          × (st.fetch t (image_key d.provider service r.id)
              ≡ st.fetch s (image_key d.provider service r.id))
          × (st.fetch t (vm_key d.provider service r.id)
              ≡ st.fetch s (vm_key d.provider service r.id))

  zones_after-same :
      (r : Region) (s t : st.State)
      → (st.fetch t (zone_key d.provider d.name r.id)
          ≡ st.fetch s (zone_key d.provider d.name r.id))
      → (st.fetch t (zone_key d.provider d.source r.id)
          ≡ st.fetch s (zone_key d.provider d.source r.id))
      → zones_after st d t r ≡ zones_after st d s r
  zones_after-same r s t own from = rw (own, from) refl

  versions_after-same :
      (r : Region) (s t : st.State)
      → (st.fetch t (version_key d.provider d.name r.id)
          ≡ st.fetch s (version_key d.provider d.name r.id))
      → (st.fetch t (version_key d.provider d.source r.id)
          ≡ st.fetch s (version_key d.provider d.source r.id))
      → versions_after st d t r ≡ versions_after st d s r
  versions_after-same r s t own from = rw (own, from) refl

  images_after-same :
      (r : Region) (s t : st.State)
      → (st.fetch t (image_key d.provider d.name r.id)
          ≡ st.fetch s (image_key d.provider d.name r.id))
      → (st.fetch t (image_key d.provider d.source r.id)
          ≡ st.fetch s (image_key d.provider d.source r.id))
      → images_after st d t r ≡ images_after st d s r
  images_after-same r s t own from = rw (own, from) refl

  vms_after-same :
      (r : Region) (s t : st.State)
      → (st.fetch t (vm_key d.provider d.name r.id) ≡ st.fetch s (vm_key d.provider d.name r.id))
      → (st.fetch t (vm_key d.provider d.source r.id)
          ≡ st.fetch s (vm_key d.provider d.source r.id))
      → vms_after st d t r ≡ vms_after st d s r
  vms_after-same r s t own from = rw (own, from) refl

  pub load_region-IsLoaded :
      (r : Region) (n : AreNames st d r.id) (s : st.State)
      → IsLoaded st d r s (load_region st d s r)
  unfolding load_region
  load_region-IsLoaded r n s =
      let own : IsName d.provider × IsName d.name × IsName r.id =
        (n.provider_name, n.service_name, n.id_name) in
      let from : IsName d.provider × IsName d.source × IsName r.id =
        (n.provider_name, n.source_name, n.id_name) in
      let a = zoned st d r n s in
      let b = versioned st d r n a in
      let c = imaged st d r n b in
      record {
        zones =
            with_vms-fetch_other st d r n c (zone_key d.provider d.name r.id) own (λ e. cc)
            ∙ imaged-fetch_other st d r n b (zone_key d.provider d.name r.id) own (λ e. cc)
            ∙ versioned-fetch_other st d r n a (zone_key d.provider d.name r.id) own (λ e. cc)
            ∙ zoned-fetch st d r n s;
        versions =
            with_vms-fetch_other st d r n c (version_key d.provider d.name r.id) own (λ e. cc)
            ∙ imaged-fetch_other st d r n b (version_key d.provider d.name r.id) own (λ e. cc)
            ∙ versioned-fetch st d r n a
            ∙ versions_after-same r s a
                (zoned-fetch_other st d r n s (version_key d.provider d.name r.id) own (λ e. cc))
                (zoned-fetch_other st d r n s (version_key d.provider d.source r.id) from
                  (λ e. cc));
        images =
            with_vms-fetch_other st d r n c (image_key d.provider d.name r.id) own (λ e. cc)
            ∙ imaged-fetch st d r n b
            ∙ images_after-same r s b
                (versioned-fetch_other st d r n a (image_key d.provider d.name r.id) own (λ e. cc)
                  ∙ zoned-fetch_other st d r n s (image_key d.provider d.name r.id) own (λ e. cc))
                (versioned-fetch_other st d r n a (image_key d.provider d.source r.id) from
                    (λ e. cc)
                  ∙ zoned-fetch_other st d r n s (image_key d.provider d.source r.id) from
                      (λ e. cc));
        vms =
            with_vms-fetch st d r n c
            ∙ vms_after-same r s c
                (imaged-fetch_other st d r n b (vm_key d.provider d.name r.id) own (λ e. cc)
                  ∙ versioned-fetch_other st d r n a (vm_key d.provider d.name r.id) own (λ e. cc)
                  ∙ zoned-fetch_other st d r n s (vm_key d.provider d.name r.id) own (λ e. cc))
                (imaged-fetch_other st d r n b (vm_key d.provider d.source r.id) from (λ e. cc)
                  ∙ versioned-fetch_other st d r n a (vm_key d.provider d.source r.id) from
                      (λ e. cc)
                  ∙ zoned-fetch_other st d r n s (vm_key d.provider d.source r.id) from (λ e. cc));
      }

  -- Another region leaves our entries and those of our source alone.
  pub other-Agrees :
      (r q : Region) (n : AreNames st d r.id) (m : AreNames st d q.id) (s : st.State)
      → r.id ≢ q.id
      → Agrees r s (load_region st d s q)
  other-Agrees r q n m s ne = record {
    entries = λ service hs. (
      load_region-fetch_other q m s (zone_key d.provider service r.id)
          (n.provider_name, hs, n.id_name)
          (record { zones = λ e. ne (cc); versions = λ e. cc; images = λ e. cc; vms = λ e. cc }),
      load_region-fetch_other q m s (version_key d.provider service r.id)
          (n.provider_name, hs, n.id_name)
          (record { zones = λ e. cc; versions = λ e. ne (cc); images = λ e. cc; vms = λ e. cc }),
      load_region-fetch_other q m s (image_key d.provider service r.id)
          (n.provider_name, hs, n.id_name)
          (record { zones = λ e. cc; versions = λ e. cc; images = λ e. ne (cc); vms = λ e. cc }),
      load_region-fetch_other q m s (vm_key d.provider service r.id)
          (n.provider_name, hs, n.id_name)
          (record { zones = λ e. cc; versions = λ e. cc; images = λ e. cc; vms = λ e. ne (cc) }),
    );
  }

  pub IsLoaded-later :
      (r : Region) (n : AreNames st d r.id) (s t u : st.State)
      → Agrees r t u
      → IsLoaded st d r s t
      → IsLoaded st d r s u
  IsLoaded-later r n s t u h l =
      let (z, v, i, m) = h.entries d.name n.service_name in
      record {
        zones = z ∙ l.zones;
        versions = v ∙ l.versions;
        images = i ∙ l.images;
        vms = m ∙ l.vms;
      }

  pub IsLoaded-before :
      (r : Region) (n : AreNames st d r.id) (s t u : st.State)
      → Agrees r s t
      → IsLoaded st d r t u
      → IsLoaded st d r s u
  IsLoaded-before r n s t u h l =
      let (z, v, i, m) = h.entries d.name n.service_name in
      let (z', v', i', m') = h.entries d.source n.source_name in
      record {
        zones = l.zones ∙ zones_after-same r s t z z';
        versions = l.versions ∙ versions_after-same r s t v v';
        images = l.images ∙ images_after-same r s t i i';
        vms = l.vms ∙ vms_after-same r s t m m';
      }
