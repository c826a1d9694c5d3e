-- ===== src/InstanceType/Rows.antt =====
-- Which instance types a query answers.
use cloudinfo.Prelude.{
  String, ◌≡◌, refl, ap, sym, ◌∙◌, subst, ◌≢◌, ◌↔◌, ◌⊎◌, inl, inr, true, List, [], ◌∷◌, Option,
  some, In, In-append, In-append_left, In-append_right, Bool-cases, arith, str_eq, eq_iff,
  if◌then◌else◌,
}
use cloudinfo.Prelude.Result.{ok, err, >>=-eq-ok, map_err-eq-ok, ok-injective}
use cloudinfo.Types.{ProductDetails}
use cloudinfo.InstanceType.{
  InstanceType, InstanceTypeQueryFilter, InstanceTypeQuery, InstanceTypeStore, validation,
  no_product_details, transform, is_selected, append_zones, zones_of, collect, query_region,
  region_is_missing, region_of, query,
}

-- A row for a product in a zone that the filter selects.
pub record IsRow (filter : Option InstanceTypeQueryFilter) (product : ProductDetails)
    (region : String) (zones : List String) (row : InstanceType) : Type 0 where
  pub zone : String
  pub listed : In zone zones
  pub selected : is_selected filter product zone ≡ true
  pub made : row ≡ transform product region zone

module _ (filter : Option InstanceTypeQueryFilter) (product : ProductDetails)
    (region : String) where
  append_zones_keeps :
      (zones : List String) (found : List InstanceType) (row : InstanceType)
      → In row found
      → In row (append_zones filter product region zones found)
  unfolding append_zones
  append_zones_keeps [] found row m = m
  append_zones_keeps (zone ∷ zones) found row m =
      append_zones_keeps zones _ row (elim (Bool-cases (is_selected filter product zone)) [
        | inl e ↦ rw e (In-append_left row found _ m)
        | inr e ↦ rw e m
      ])

  append_zones_complete :
      (zones : List String) (found : List InstanceType) (zone : String)
      → In zone zones
      → is_selected filter product zone ≡ true
      → In (transform product region zone) (append_zones filter product region zones found)
  unfolding append_zones
  append_zones_complete [] found zone m selected = elim m [ ]
  append_zones_complete (z ∷ zones) found zone (inl e) selected =
      append_zones_keeps zones _ _
        (rw (← e, selected) (In-append_right (transform product region zone) found _ (inl refl)))
  append_zones_complete (z ∷ zones) found zone (inr m) selected =
      append_zones_complete zones _ zone m selected

  append_zones_sound :
      (zones : List String) (found : List InstanceType) (row : InstanceType)
      → In row (append_zones filter product region zones found)
      → In row found ⊎ IsRow filter product region zones row
  unfolding append_zones
  append_zones_sound [] found row m = inl m
  append_zones_sound (zone ∷ zones) found row m = elim (append_zones_sound zones _ row m) [
    | inl old ↦ elim (Bool-cases (is_selected filter product zone)) [
      | inl e ↦ elim (In-append row found _ (rw e at old)) [
        | inl l ↦ inl l
        | inr (inl made) ↦
            inr (record { zone = zone; listed = inl refl; selected = e; made = made })
        | inr (inr none_left) ↦ elim none_left [ ]
      ]
      | inr e ↦ inl (rw e at old)
    ]
    | inr r ↦
        inr (record { zone = r.zone; listed = inr r.listed; selected = r.selected; made = r.made })
  ]

module _ (store : InstanceTypeStore) (provider service : String)
    (filter : Option InstanceTypeQueryFilter) (region : String) where
  -- A row of some product, in a zone that the query reads for it.
  pub record IsAnswer (products : List ProductDetails) (row : InstanceType) : Type 0 where
    pub product : ProductDetails
    pub listed : In product products
    pub zones : List String
    pub read : zones_of store provider service region product ≡ ok zones
    pub is_row : IsRow filter product region zones row

  collect_cons :
      (p : ProductDetails) (products : List ProductDetails) (found rows : List InstanceType)
      → collect store provider service filter region (p ∷ products) found ≡ ok rows
      → (zones : List String) × (zones_of store provider service region p ≡ ok zones)
        × (collect store provider service filter region products
              (append_zones filter p region zones found)
            ≡ ok rows)
  unfolding collect
  collect_cons p products found rows e =
      >>=-eq-ok (zones_of store provider service region p)
        (λ zones.
          collect store provider service filter region products
            (append_zones filter p region zones found))
        e

  collect_keeps :
      (products : List ProductDetails) (found rows : List InstanceType) (row : InstanceType)
      → collect store provider service filter region products found ≡ ok rows
      → In row found
      → In row rows
  unfolding collect
  collect_keeps [] found rows row e m = subst (In row) (ok-injective e) m
  collect_keeps (product ∷ products) found rows row e m =
      let (zones, read, rest) = collect_cons product products found rows e in
      collect_keeps products _ rows row rest
        (append_zones_keeps filter product region zones found row m)

  collect_complete :
      (products : List ProductDetails) (found rows : List InstanceType) (product : ProductDetails)
      (zones : List String) (zone : String)
      → collect store provider service filter region products found ≡ ok rows
      → In product products
      → zones_of store provider service region product ≡ ok zones
      → In zone zones
      → is_selected filter product zone ≡ true
      → In (transform product region zone) rows
  unfolding collect
  collect_complete [] found rows product zones zone e m read mz selected = elim m [ ]
  collect_complete (p ∷ products) found rows product zones zone e (inl same) read mz selected =
      let (zones', read', rest) = collect_cons p products found rows e in
      let same_zones : zones ≡ zones' =
        ok-injective (sym read ∙ ap (zones_of store provider service region) same ∙ read') in
      collect_keeps products _ rows _ rest (
        subst (λ q. In (transform product region zone) (append_zones filter q region zones' found))
          same
          (append_zones_complete filter product region zones' found zone
            (subst (In zone) same_zones mz) selected))
  collect_complete (p ∷ products) found rows product zones zone e (inr m) read mz selected =
      let (zones', read', rest) = collect_cons p products found rows e in
      collect_complete products _ rows product zones zone rest m read mz selected

  collect_sound :
      (products : List ProductDetails) (found rows : List InstanceType) (row : InstanceType)
      → collect store provider service filter region products found ≡ ok rows
      → In row rows
      → In row found ⊎ IsAnswer products row
  unfolding collect
  collect_sound [] found rows row e m = inl (subst (In row) (sym (ok-injective e)) m)
  collect_sound (p ∷ products) found rows row e m =
      let (zones, read, rest) = collect_cons p products found rows e in
      elim (collect_sound products _ rows row rest m) [
        | inl old ↦ elim (append_zones_sound filter p region zones found row old) [
          | inl older ↦ inl older
          | inr r ↦
              inr
                (record { product = p; listed = inl refl; zones = zones; read = read; is_row = r })
        ]
        | inr a ↦ inr (record {
          product = a.product;
          listed = inr a.listed;
          zones = a.zones;
          read = a.read;
          is_row = a.is_row;
        })
      ]

-- The message for the first of the three fields that is missing.
abbrev pub missing_field : String → String → String
missing_field provider service =
    if str_eq provider ""
    then "provider field must not be empty"
    else if str_eq service ""
    then "service field must not be empty"
    else "region field must not be empty"

module _ (store : InstanceTypeStore) (provider service : String) where
  -- A query that names a provider, a service and a region is a query of that region.
  query_of_region :
      (q : InstanceTypeQuery) (region : String)
      → provider ≢ ""
      → service ≢ ""
      → q.region ≡ some region
      → region ≢ ""
      → query store provider service q ≡ query_region store provider service q.filter region
  unfolding query
  query_of_region q region hp hs hr nr =
      ground (arith, eq_iff provider "", eq_iff service "", eq_iff region "")

  -- Where a query of a region succeeds, and the store answers `products` for it, each instance type
  -- of the answer is made from one of the products, in a zone that was read for that product and
  -- that the filter selects.
  pub query_sound :
      (q : InstanceTypeQuery) (region : String) (products : List ProductDetails)
      (rows : List InstanceType) (row : InstanceType)
      → provider ≢ ""
      → service ≢ ""
      → q.region ≡ some region
      → region ≢ ""
      → store.get_product_details provider service region ≡ ok products
      → query store provider service q ≡ ok rows
      → In row rows
      → IsAnswer store provider service q.filter region products row
  unfolding query_region
  query_sound q region products rows row hp hs hr nr hd e m =
      let (products', read, rest) =
        >>=-eq-ok _ _ (rw (query_of_region q region hp hs hr nr) at e) in
      let same : products' ≡ products =
        ok-injective (sym (map_err-eq-ok no_product_details _ read) ∙ hd) in
      elim (collect_sound store provider service q.filter region products' [] rows row rest m) [
        | inl old ↦ elim old [ ]
        | inr a ↦ subst (λ ps. IsAnswer store provider service q.filter region ps row) same a
      ]

  -- Conversely, the instance type of every product in every zone that was read for it and that the
  -- filter selects is in the answer.
  pub query_complete :
      (q : InstanceTypeQuery) (region : String) (products : List ProductDetails)
      (rows : List InstanceType) (product : ProductDetails) (zones : List String) (zone : String)
      → provider ≢ ""
      → service ≢ ""
      → q.region ≡ some region
      → region ≢ ""
      → store.get_product_details provider service region ≡ ok products
      → query store provider service q ≡ ok rows
      → In product products
      → zones_of store provider service region product ≡ ok zones
      → In zone zones
      → is_selected q.filter product zone ≡ true
      → In (transform product region zone) rows
  unfolding query_region
  query_complete q region products rows product zones zone hp hs hr nr hd e m read mz selected =
      let (products', read', rest) =
        >>=-eq-ok _ _ (rw (query_of_region q region hp hs hr nr) at e) in
      let same : products ≡ products' =
        ok-injective (sym hd ∙ map_err-eq-ok no_product_details _ read') in
      collect_complete store provider service q.filter region products' [] rows product zones zone
        rest (subst (In product) same m) read mz selected

  zones_of-ne-validation :
      (region : String) (product : ProductDetails) (message : String)
      → zones_of store provider service region product ≢ err (validation message)
  unfolding zones_of
  zones_of-ne-validation region product message = ground arith

  collect-ne-validation :
      (filter : Option InstanceTypeQueryFilter) (region : String) (products : List ProductDetails)
      (found : List InstanceType) (message : String)
      → collect store provider service filter region products found ≢ err (validation message)
  unfolding collect
  collect-ne-validation filter region [] found message e = cc
  collect-ne-validation filter region (p ∷ products) found message e =
      grind (
        arith,
        zones_of-ne-validation region p message,
        collect-ne-validation filter region products,
      )

  query_region-ne-validation :
      (filter : Option InstanceTypeQueryFilter) (region message : String)
      → query_region store provider service filter region ≢ err (validation message)
  unfolding query_region
  query_region-ne-validation filter region message = grind (arith, collect-ne-validation)

  -- The error is a business error exactly when the provider, the service or the region is missing
  -- or empty.
  pub query_validation_iff :
      (q : InstanceTypeQuery)
      → ((message : String) × (query store provider service q ≡ err (validation message)))
        ↔ ((provider ≡ "") ⊎ ((service ≡ "") ⊎ (region_is_missing q.region ≡ true)))
  unfolding query
  query_validation_iff q = (to, from)
    where
      to :
          (message : String) × (query store provider service q ≡ err (validation message))
          → (provider ≡ "") ⊎ ((service ≡ "") ⊎ (region_is_missing q.region ≡ true))
      to (message, e) = ground (
        arith,
        eq_iff provider "",
        eq_iff service "",
        query_region-ne-validation q.filter (region_of q.region) message,
      )

      from :
          (provider ≡ "") ⊎ ((service ≡ "") ⊎ (region_is_missing q.region ≡ true))
          → (message : String) × (query store provider service q ≡ err (validation message))
      from h =
          (missing_field provider service, ground (arith, eq_iff provider "", eq_iff service ""))
