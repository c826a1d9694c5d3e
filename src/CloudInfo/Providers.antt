-- ===== src/CloudInfo/Providers.antt =====
-- What `GetProvider` and `GetProviders` of internal/cloudinfo/cloudinfo.go answer.
use mathlib.Core.List.{append_assoc, append-nil}
use cloudinfo.Prelude.{
  String, ◌≡◌, refl, sym, ap, ◌∙◌, ◌↔◌, inl, inr, true, List, [], ◌∷◌, ◌++◌, some, any, map, All,
  In, str_eq, eq_iff, Bool-cases, subst,
}
use cloudinfo.Prelude.Result.{ok, >>=-eq-ok, ok-injective}
use cloudinfo.Types.{Provider}
use cloudinfo.Store.Interface.{CloudInfoStore, get_services}
use cloudinfo.CloudInfo.{provider_enabled, get_provider, collect_providers, get_providers}
use cloudinfo.CloudInfo.Laws.{get_provider_iff, enabled_of_In, collect_providers_names}

In_of_enabled : (ps : List String) (p : String) → any (λ q. str_eq q p) ps ≡ true → In p ps
In_of_enabled [] p e = cc
In_of_enabled (q ∷ ps) p e = elim (Bool-cases (str_eq q p)) [
  | inl same ↦ inl (sym ((eq_iff q p).0 same))
  | inr other ↦ inr (In_of_enabled ps p (rw other at e))
]

All-snoc :
    (P : Provider → Type 0) (ps : List Provider) (p : Provider)
    → All P ps
    → P p
    → All P (ps ++ (p ∷ []))
All-snoc P [] p h hp = (hp, tt)
All-snoc P (q ∷ ps) p (hq, h) hp = (hq, All-snoc P ps p h hp)

module _ (st : CloudInfoStore) (providers : List String) (store : st.State) where
  -- The services of a provider are those of the store.
  abbrev pub HasServices : Provider → Type 0
  HasServices p = get_services st store p.provider ≡ some p.services

  configured_provider_iff :
      (name : String) (provider : Provider)
      → (get_provider st providers store name ≡ ok provider)
        ↔ (In name providers × HasServices provider × (provider.provider ≡ name))
  unfolding provider_enabled
  configured_provider_iff name provider = (
    λ e.
        let (enabled, stored, named) = (get_provider_iff st providers store name provider).0 e in
        (
          In_of_enabled providers name enabled,
          subst (λ n. get_services st store n ≡ some provider.services) (sym named) stored,
          named,
        ),
    λ h. (get_provider_iff st providers store name provider).1 (
      enabled_of_In st providers store providers name h.0,
      subst (λ n. get_services st store n ≡ some provider.services) h.2 h.1,
      h.2,
    ),
  )

  collected_sound :
      (names : List String) (found ps : List Provider)
      → All HasServices found
      → collect_providers st providers store names found ≡ ok ps
      → All HasServices ps
  unfolding collect_providers
  collected_sound [] found ps h e = subst (All HasServices) (ok-injective e) h
  collected_sound (name ∷ names) found ps h e =
      let (provider, got, rest) =
        >>=-eq-ok (get_provider st providers store name)
          (λ provider. collect_providers st providers store names (found ++ (provider ∷ []))) e in
      collected_sound names _ ps
        (All-snoc HasServices found provider h ((configured_provider_iff name provider).0 got).1)
        rest

  collected_complete :
      (qs found : List Provider)
      → All HasServices qs
      → All (λ q. In q.provider providers) qs
      → collect_providers st providers store (map (λ q. q.provider) qs) found ≡ ok (found ++ qs)
  unfolding collect_providers
  collected_complete [] found h i = ap ok (sym (append-nil found))
  collected_complete (q ∷ qs) found (h, hs) (i, is) =
      rw ((configured_provider_iff q.provider q).1 (i, h, refl))
        (collected_complete qs (found ++ (q ∷ [])) hs is ∙ ap ok (append_assoc found (q ∷ []) qs))

  all_configured :
      (ps : List Provider)
      → ((n : String) → In n (map (λ p. p.provider) ps) → In n providers)
      → All (λ p. In p.provider providers) ps
  all_configured [] sub = tt
  all_configured (p ∷ ps) sub =
      (sub p.provider (inl refl), all_configured ps (λ n i. sub n (inr i)))

  get_providers_complete :
      (ps : List Provider)
      → map (λ p. p.provider) ps ≡ providers
      → All HasServices ps
      → get_providers st providers store ≡ ok ps
  unfolding get_providers
  get_providers_complete ps e h =
      subst (λ names. collect_providers st providers store names [] ≡ ok ps) e
        (collected_complete ps [] h (all_configured ps (λ n i. subst (In n) e i)))

  -- `GetProvider` answers a provider exactly if its name is one of the configured ones and is the
  -- one asked for, and its services are those of the store. `GetProviders` answers a list exactly
  -- if it has a provider for each configured name, in the configured order, each with the services
  -- of the store: so one whose services are not there makes it fail.
  pub answered_providers_iff :
      ((name : String) (provider : Provider)
        → (get_provider st providers store name ≡ ok provider)
          ↔ (In name providers × HasServices provider × (provider.provider ≡ name)))
      × ((ps : List Provider)
          → (get_providers st providers store ≡ ok ps)
            ↔ ((map (λ p. p.provider) ps ≡ providers) × All HasServices ps))
  unfolding get_providers
  answered_providers_iff = (
    configured_provider_iff,
    λ ps. (
      λ e. (
        collect_providers_names st providers store providers [] ps e,
        collected_sound providers [] ps tt e,
      ),
      λ h. get_providers_complete ps h.0 h.1,
    ),
  )
