-- ===== src/Loader/Runs.antt =====
-- A run of the loader over all regions of a file with a source service.
use cloudinfo.Prelude.{
  String, ◌≡◌, refl, sym, ◌∙◌, ◌≢◌, inl, inr, List, [], ◌∷◌, some, Bool-cases, Option-cases, All,
  All-In, In, subst, str_eq, eq_iff, eq_refl,
}
use cloudinfo.Prelude.Maps.{lookup, insert, lookup-insert}
use cloudinfo.Store.Key.{
  Key, vm_key, zone_key, image_key, version_key, region_key, status_key, IsClean,
}
use cloudinfo.Store.Interface.{CloudInfoStore, get_regions, get_status, store_regions}
use cloudinfo.Loader.{Region, ServiceData, load_region, loop, load_regions, finish_regions}
use cloudinfo.Loader.Stored.{AreNames, IsLoaded}
use cloudinfo.Loader.Regions.{
  IsNew, HasDistinctIds, IsNew-In, Agrees, load_region-IsLoaded, other-Agrees, IsLoaded-later,
  IsLoaded-before,
}

module _ (st : CloudInfoStore) (d : ServiceData) where
  Agrees-trans :
      (r : Region) (s t u : st.State) → Agrees st d r s t → Agrees st d r t u → Agrees st d r s u
  Agrees-trans r s t u h k = record {
    entries = λ service hs.
        let (z, v, i, m) = h.entries service hs in
        let (z', v', i', m') = k.entries service hs in (z' ∙ z, v' ∙ v, i' ∙ i, m' ∙ m);
  }

  Agrees-same : (r : Region) (s : st.State) → Agrees st d r s s
  Agrees-same r s = record { entries = λ service hs. (refl, refl, refl, refl) }

  module _ (stored : List (String × String)) where
    loop-Agrees :
        (r : Region) (regions : List Region) (s : st.State) (m : List (String × String))
        → AreNames st d r.id
        → All (λ q. AreNames st d q.id) regions
        → IsNew r.id regions
        → Agrees st d r s (loop st d stored s m regions).0
    unfolding loop
    loop-Agrees r [] s m n ns new = Agrees-same r s
    loop-Agrees r (q ∷ regions) s m n (nq, ns) (ne, new) =
        elim (Option-cases (lookup q.id stored)) [
          | inl e ↦ rw (e, loop) (loop-Agrees r regions s m n ns new)
          | inr (name, e) ↦
              rw (e, loop)
                (Agrees-trans r s (load_region st d s q) _ (other-Agrees st d r q n nq s ne)
                  (loop-Agrees r regions (load_region st d s q) (insert q.id name m) n ns new))
        ]

    -- A region later in the list leaves the map at our region alone.
    loop-lookup_other :
        (id : String) (regions : List Region) (s : st.State) (m : List (String × String))
        → IsNew id regions
        → lookup id (loop st d stored s m regions).1 ≡ lookup id m
    unfolding loop
    loop-lookup_other id [] s m new = refl
    loop-lookup_other id (q ∷ regions) s m (ne, new) = elim (Option-cases (lookup q.id stored)) [
      | inl e ↦ rw (e, loop) (loop-lookup_other id regions s m new)
      | inr (name, e) ↦
          rw (e, loop)
            (loop-lookup_other id regions (load_region st d s q) (insert q.id name m) new
              ∙ lookup-insert q.id id name m
              ∙ elim (Bool-cases (str_eq q.id id)) [
                | inl same ↦ elim (ne (sym ((eq_iff q.id id).0 same))) [ ]
                | inr other ↦ rw other refl
              ])
    ]

    -- What the loop does to one of the regions that the source has.
    pub record IsTaken (r : Region) (name : String) (s : st.State)
        (o : st.State × List (String × String)) : Type 0 where
      pub loaded : IsLoaded st d r s o.0
      pub named : lookup r.id o.1 ≡ some name

    head-IsTaken :
        (r : Region) (name : String) (regions : List Region) (s : st.State)
        (m : List (String × String))
        → lookup r.id stored ≡ some name
        → AreNames st d r.id
        → All (λ q. AreNames st d q.id) regions
        → IsNew r.id regions
        → IsTaken r name s (loop st d stored s m (r ∷ regions))
    unfolding loop
    head-IsTaken r name regions s m e n ns new =
        rw (e, loop)
          (record {
            loaded =
                IsLoaded-later st d r n s (load_region st d s r) _
                  (loop-Agrees r regions (load_region st d s r) (insert r.id name m) n ns new)
                  (load_region-IsLoaded st d r n s);
            named =
                loop-lookup_other r.id regions (load_region st d s r) (insert r.id name m) new
                ∙ lookup-insert r.id r.id name m
                ∙ rw (eq_refl r.id) refl;
          })

    pub loop-IsTaken :
        (r : Region) (name : String) (regions : List Region) (s : st.State)
        (m : List (String × String))
        → In r regions
        → lookup r.id stored ≡ some name
        → All (λ q. AreNames st d q.id) regions
        → HasDistinctIds regions
        → IsTaken r name s (loop st d stored s m regions)
    unfolding loop
    loop-IsTaken r name [] s m i e n h = elim i [ ]
    loop-IsTaken r name (q ∷ regions) s m (inl same) e (n, ns) (new, h) =
        subst (λ x. IsTaken r name s (loop st d stored s m (x ∷ regions))) same
          (head-IsTaken r name regions s m e (subst (λ x. AreNames st d x.id) (sym same) n) ns
            (subst (λ x. IsNew x.id regions) (sym same) new))
    loop-IsTaken r name (q ∷ regions) s m (inr i) e (n, ns) (new, h) =
        elim (Option-cases (lookup q.id stored)) [
          | inl missing ↦ rw (missing, loop) (loop-IsTaken r name regions s m i e ns h)
          | inr (other, found) ↦
              let ne : r.id ≢ q.id = λ same. IsNew-In q.id regions r new i (sym same) in
              let nr : AreNames st d r.id = All-In (λ x. AreNames st d x.id) regions ns r i in
              let t =
                loop-IsTaken r name regions (load_region st d s q) (insert q.id other m) i e ns h in
              rw (found, loop)
                (record {
                  loaded =
                      IsLoaded-before st d r nr s (load_region st d s q) _
                        (other-Agrees st d r q nr n s ne) t.loaded;
                  named = t.named;
                })
        ]

  finish-Agrees :
      (r : Region) (now : String) (s : st.State) (m : List (String × String))
      → AreNames st d r.id
      → Agrees st d r s (finish_regions st d now (s, m))
  unfolding finish_regions
  finish-Agrees r now s m n =
      let t = store_regions st s d.provider d.name m in
      let keeps =
        λ (k : Key) (hk : IsClean k) (a : k ≢ status_key d.provider)
            (b : k ≢ region_key d.provider d.name).
          st.fetch-put_other t k (status_key d.provider) now hk n.provider_name a
          ∙ st.fetch-put_other s k (region_key d.provider d.name) m hk
              (n.provider_name, n.service_name) b in
      record {
        entries = λ service hs. (
          keeps (zone_key d.provider service r.id) (n.provider_name, hs, n.id_name) (λ e. cc)
              (λ e. cc),
          keeps (version_key d.provider service r.id) (n.provider_name, hs, n.id_name) (λ e. cc)
              (λ e. cc),
          keeps (image_key d.provider service r.id) (n.provider_name, hs, n.id_name) (λ e. cc)
              (λ e. cc),
          keeps (vm_key d.provider service r.id) (n.provider_name, hs, n.id_name) (λ e. cc)
              (λ e. cc),
        );
      }

  -- The entries of the region, its name among the regions, and the status.
  pub record IsImported (r : Region) (name now : String) (s t : st.State) : Type 0 where
    pub loaded : IsLoaded st d r s t
    pub regions : List (String × String)
    pub regions_stored : get_regions st t d.provider d.name ≡ some regions
    pub named : lookup r.id regions ≡ some name
    pub status : get_status st t d.provider ≡ some now

  finish-IsImported :
      (stored : List (String × String)) (r : Region) (name now : String) (s : st.State)
      (o : st.State × List (String × String))
      → AreNames st d r.id
      → IsTaken stored r name s o
      → IsImported r name now s (finish_regions st d now o)
  unfolding finish_regions
  finish-IsImported stored r name now s (t, m) n h = record {
    loaded = IsLoaded-later st d r n s t _ (finish-Agrees r now t m n) h.loaded;
    regions = m;
    regions_stored =
        st.fetch-put_other (store_regions st t d.provider d.name m) (region_key d.provider d.name)
          (status_key d.provider) now (n.provider_name, n.service_name) n.provider_name (λ e. cc)
        ∙ st.fetch-put t (region_key d.provider d.name) m (n.provider_name, n.service_name);
    named = h.named;
    status =
        st.fetch-put (store_regions st t d.provider d.name m) (status_key d.provider) now
          n.provider_name;
  }

  -- After a run of the loader with a source service every region of the file that the source has
  -- is stored under the source's name for it, and its zones, versions, machines and, but for the
  -- service pke, images are what the strategies of the file make of the source's entries before
  -- the run; where a strategy gives nothing, the entry of the service is as it was. The status is
  -- the time of the run. No region stands twice in the file, and no name holds a slash.
  pub load_regions-IsImported :
      (r : Region) (name now : String) (s : st.State) (stored : List (String × String))
      → get_regions st s d.provider d.source ≡ some stored
      → In r d.regions
      → lookup r.id stored ≡ some name
      → All (λ q. AreNames st d q.id) d.regions
      → HasDistinctIds d.regions
      → IsImported r name now s (load_regions st d s now)
  unfolding load_regions
  load_regions-IsImported r name now s stored e i found ns h =
      rw (e, load_regions)
        (finish-IsImported stored r name now s (loop st d stored s [] d.regions)
          (All-In (λ x. AreNames st d x.id) d.regions ns r i)
          (loop-IsTaken stored r name d.regions s [] i found ns h))
