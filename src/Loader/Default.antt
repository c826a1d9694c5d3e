-- ===== src/Loader/Default.antt =====
-- The loader of a file without a source service, compared with the other loader.
use cloudinfo.Prelude.{
  String, ◌≡◌, refl, sym, ap, ◌∙◌, inl, inr, List, [], ◌∷◌, some, Bool-cases, All, In, subst,
  str_eq, eq_iff, eq_refl,
}
use cloudinfo.Prelude.Maps.{lookup, insert}
use cloudinfo.Store.Interface.{CloudInfoStore, get_regions}
use cloudinfo.Loader.{
  exact, Region, ServiceData, by_strategy, default_load_zones, default_load_versions,
  default_load_images, default_load_vms, default_load_region, default_loop, default_load_regions,
  load_zones, load_versions, load_images, load_vms, load_region, loop, load_regions, finish_regions,
}
use cloudinfo.Loader.Regions.{HasDistinctIds, IsNew-In}

-- The region with the strategy "exact" throughout.
abbrev pub exactly : Region → Region
exactly r = record r {
  content = record {
    zones = record { strategy = exact; entries = r.content.zones.entries };
    images = record { strategy = exact; entries = r.content.images.entries };
    versions = record { strategy = exact; entries = r.content.versions.entries };
    vms = record { strategy = exact; entries = r.content.vms.entries };
  };
}

abbrev pub exactly_all : List Region → List Region
exactly_all [] = []
exactly_all (r ∷ regions) = exactly r ∷ exactly_all regions

abbrev pub all_exact : ServiceData → ServiceData
all_exact d = record d { regions = exactly_all d.regions }

-- The regions of the file as a map.
abbrev pub names_of : List Region → List (String × String)
names_of [] = []
names_of (r ∷ regions) = (r.id, r.name) ∷ names_of regions

lookup-names_of :
    (regions : List Region) (r : Region)
    → HasDistinctIds regions
    → In r regions
    → lookup r.id (names_of regions) ≡ some r.name
unfolding lookup
lookup-names_of [] r h i = elim i [ ]
lookup-names_of (q ∷ regions) r (new, h) (inl same) =
    subst (λ x. lookup x.id (names_of (q ∷ regions)) ≡ some x.name) (sym same)
      (rw (eq_refl q.id) refl)
lookup-names_of (q ∷ regions) r (new, h) (inr i) = elim (Bool-cases (str_eq q.id r.id)) [
  | inl e ↦ elim (IsNew-In q.id regions r new i ((eq_iff q.id r.id).0 e)) [ ]
  | inr e ↦ rw e (lookup-names_of regions r h i)
]

all_of :
    (P : Region → Type 0) (regions : List Region)
    → ((r : Region) → In r regions → P r)
    → All P regions
all_of P [] h = tt
all_of P (r ∷ regions) h = (h r (inl refl), all_of P regions λ q i. h q (inr i))

module _ (st : CloudInfoStore) (d : ServiceData) where
  default_load_region-load_region :
      (s : st.State) (r : Region)
      → default_load_region st d s r ≡ load_region st (all_exact d) s (exactly r)
  unfolding default_load_region default_load_zones default_load_versions default_load_images
      default_load_vms load_region load_zones load_versions load_images load_vms by_strategy
  default_load_region-load_region s r = refl

  default_loop-loop :
      (stored : List (String × String)) (regions : List Region) (s : st.State)
      (m : List (String × String))
      → All (λ r. lookup r.id stored ≡ some r.name) regions
      → default_loop st d s m regions ≡ loop st (all_exact d) stored s m (exactly_all regions)
  unfolding default_loop loop
  default_loop-loop stored [] s m h = refl
  default_loop-loop stored (r ∷ regions) s m (e, h) =
      rw (e, loop)
        (default_loop-loop stored regions (default_load_region st d s r) (insert r.id r.name m) h
          ∙ ap (λ t. loop st (all_exact d) stored t (insert r.id r.name m) (exactly_all regions))
              (default_load_region-load_region s r))

  -- The loader of a file without a source does what the other loader does with the strategy
  -- "exact" throughout, if the regions of its source are those of the file. No region stands
  -- twice in the file.
  pub default_load_regions-load_regions :
      (s : st.State) (now : String)
      → get_regions st s d.provider d.source ≡ some (names_of d.regions)
      → HasDistinctIds d.regions
      → default_load_regions st d s now ≡ load_regions st (all_exact d) s now
  unfolding default_load_regions load_regions finish_regions
  default_load_regions-load_regions s now e h =
      rw (e, load_regions)
        (ap (finish_regions st d now) (
          default_loop-loop (names_of d.regions) d.regions s [] (
            all_of (λ r. lookup r.id (names_of d.regions) ≡ some r.name) d.regions
              λ r i. lookup-names_of d.regions r h i)))
