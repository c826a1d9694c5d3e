-- ===== src/Loader/Manager/Configured.antt =====
-- The services of a provider after `ConfigureServices` of internal/app/cloudinfo/loader/manager.go.
use cloudinfo.Prelude.{
  String, ◌≡◌, refl, sym, ap, ◌∙◌, ◌≢◌, inl, inr, Bool, true, false, not, ◌||◌, List, [], ◌∷◌,
  Option, none, some, All, subst, str_eq, eq_iff, eq_refl, Bool-cases, if◌then◌else◌, keep, map,
  any, arith,
}
use cloudinfo.Prelude.Text.{IsName}
use cloudinfo.Prelude.Maps.{lookup, Absent, HasDistinctKeys, lookup-Absent}
use cloudinfo.Types.{Service}
use cloudinfo.Store.Key.{services_key}
use cloudinfo.Store.Interface.{CloudInfoStore, get_services, store_services}
use cloudinfo.CloudInfo.{contains_text}
use cloudinfo.Loader.{ServiceData, map_option}
use cloudinfo.Loader.Stored.{or_old}
use cloudinfo.Loader.Manager.{
  Distribution, ServiceManager, is_disabled, provider_services, configure_loop, configure_services,
}

-- Whether a provider may have the service pke: only Amazon and Azure can have it off.
abbrev pub pke_is_on : String → Distribution → Bool
pke_is_on provider distribution =
    if str_eq provider "amazon"
    then distribution.pke_amazon_enabled
    else (if str_eq provider "azure" then distribution.pke_azure_enabled else true)

-- The services of the configuration in their order, less pke where that is off.
abbrev pub enabled_services : String → Distribution → List ServiceData → List Service
enabled_services provider distribution psvcs =
    map (λ psvc. record { service = psvc.name; is_static = psvc.is_static })
      (keep (λ psvc. pke_is_on provider distribution || not (str_eq psvc.name "pke")) psvcs)

contains_text_lem :
    (values : List String) (s : String) → contains_text values s ≡ any (λ v. str_eq v s) values
unfolding contains_text
contains_text_lem values s = refl

amazon-ne-azure :
    (provider : String) → str_eq provider "amazon" ≡ true → str_eq provider "azure" ≡ false
amazon-ne-azure provider e =
    subst (λ p. str_eq p "azure" ≡ false) (sym ((eq_iff provider "amazon").0 e)) refl

is_disabled_lem :
    (provider : String) (distribution : Distribution) (psvc : ServiceData)
    → is_disabled provider distribution psvc
      ≡ not (pke_is_on provider distribution || not (str_eq psvc.name "pke"))
unfolding is_disabled
is_disabled_lem provider distribution psvc = elim (Bool-cases (str_eq provider "amazon")) [
  | inl e ↦ ground (arith, e, amazon-ne-azure provider e)
  | inr e ↦ ground (arith, e)
]

provider_services_lem :
    (provider : String) (distribution : Distribution) (psvcs : List ServiceData)
    → provider_services provider distribution psvcs ≡ enabled_services provider distribution psvcs
unfolding provider_services
provider_services_lem provider distribution [] = refl
provider_services_lem provider distribution (psvc ∷ psvcs) = ground (
  arith,
  is_disabled_lem provider distribution psvc,
  provider_services_lem provider distribution psvcs,
)

module _ (st : CloudInfoStore) where
  -- The services of a provider after the loop over a map.
  abbrev after_loop :
      st.State
      → List String
      → Distribution
      → List (String × List ServiceData)
      → String
      → Option (List Service)
  after_loop s providers distribution services provider =
      or_old
        (if contains_text providers provider
          then map_option (enabled_services provider distribution) (lookup provider services)
          else none)
        (get_services st s provider)

  abbrev configured : st.State → List String → Distribution → String → List ServiceData → st.State
  configured s providers distribution provider psvcs =
      if contains_text providers provider
      then store_services st s provider (provider_services provider distribution psvcs)
      else s

  configured_other :
      (s : st.State) (providers : List String) (distribution : Distribution)
      (provider other : String) (psvcs : List ServiceData)
      → IsName provider
      → IsName other
      → provider ≢ other
      → get_services st (configured s providers distribution other psvcs) provider
        ≡ get_services st s provider
  configured_other s providers distribution provider other psvcs np no_slash ne =
      elim (Bool-cases (contains_text providers other)) [
        | inl e ↦ rw e (
            st.fetch-put_other s (services_key provider) (services_key other)
              (provider_services other distribution psvcs) np no_slash λ h. ne (cc))
        | inr e ↦ rw e refl
      ]

  head_provider :
      (s : st.State) (providers : List String) (distribution : Distribution) (provider : String)
      (psvcs : List ServiceData) (rest : List (String × List ServiceData))
      → IsName provider
      → Absent provider rest
      → after_loop
          (configured s providers distribution provider psvcs)
          providers
          distribution
          rest
          provider
        ≡ after_loop s providers distribution ((provider, psvcs) ∷ rest) provider
  unfolding lookup
  head_provider s providers distribution provider psvcs rest np absent =
      elim (Bool-cases (contains_text providers provider)) [
        | inr e ↦ rw e refl
        | inl e ↦
            rw (e, lookup-Absent provider rest absent, eq_refl provider)
              (st.fetch-put s (services_key provider)
                  (provider_services provider distribution psvcs) np
                ∙ ap some (provider_services_lem provider distribution psvcs))
      ]

  other_provider :
      (s : st.State) (providers : List String) (distribution : Distribution)
      (provider other : String) (psvcs : List ServiceData) (rest : List (String × List ServiceData))
      → IsName provider
      → IsName other
      → provider ≢ other
      → after_loop
          (configured s providers distribution other psvcs)
          providers
          distribution
          rest
          provider
        ≡ after_loop s providers distribution ((other, psvcs) ∷ rest) provider
  unfolding lookup
  other_provider s providers distribution provider other psvcs rest np nq ne =
      elim (Bool-cases (str_eq other provider)) [
        | inl same ↦ elim (ne (sym ((eq_iff other provider).0 same))) [ ]
        | inr e ↦
            rw (e, configured_other s providers distribution provider other psvcs np nq ne) refl
      ]

  configure_loop-get_services :
      (providers : List String) (distribution : Distribution) (provider : String)
      (services : List (String × List ServiceData)) (s : st.State)
      → IsName provider
      → All (λ p. IsName p.0) services
      → HasDistinctKeys services
      → get_services st (configure_loop st s providers distribution services) provider
        ≡ after_loop s providers distribution services provider
  unfolding configure_loop lookup
  configure_loop-get_services providers distribution provider [] s np ns h =
      elim (Bool-cases (contains_text providers provider)) [ inl e ↦ rw e refl | inr e ↦ rw e refl ]
  configure_loop-get_services providers distribution provider ((other, psvcs) ∷ rest) s np (nq, ns)
        (absent, h) =
      configure_loop-get_services providers distribution provider rest
        (configured s providers distribution other psvcs) np ns h
      ∙ elim (Bool-cases (str_eq provider other)) [
        | inl e ↦
            let same : provider ≡ other = (eq_iff provider other).0 e in
            subst
              (λ x.
                after_loop (configured s providers distribution x psvcs) providers distribution rest
                  provider
                ≡ after_loop s providers distribution ((x, psvcs) ∷ rest) provider)
              same
              (head_provider s providers distribution provider psvcs rest np
                (subst (λ x. Absent x rest) (sym same) absent))
        | inr e ↦
            other_provider s providers distribution provider other psvcs rest np nq
              (λ same. cc (e, (eq_iff provider other).1 same))
      ]

  -- The services of a provider: those of the configuration if the provider is enabled and in it,
  -- and else those that it had.
  abbrev pub services_after :
      st.State
      → List String
      → Distribution
      → List (String × List ServiceData)
      → String
      → Option (List Service)
  services_after s providers distribution services provider =
      or_old
        (if any (λ p. str_eq p provider) providers
          then map_option (enabled_services provider distribution) (lookup provider services)
          else none)
        (get_services st s provider)

  -- `ConfigureServices` gives every enabled provider that the configuration has its services,
  -- less pke where that is off, which only Amazon and Azure can have, and leaves the services of
  -- all others as they are, in whatever order the map is visited. No name of a provider holds a slash.
  pub configure_services-get_services :
      (sm : ServiceManager) (s : st.State) (providers : List String) (distribution : Distribution)
      (provider : String)
      → IsName provider
      → All (λ p. IsName p.0) sm.services
      → HasDistinctKeys sm.services
      → get_services st (configure_services st sm s providers distribution) provider
        ≡ services_after s providers distribution sm.services provider
  unfolding configure_services
  configure_services-get_services sm s providers distribution provider np ns h =
      configure_loop-get_services providers distribution provider sm.services s np ns h
      ∙ ap
          (λ enabled.
            or_old
              (if enabled
                then map_option (enabled_services provider distribution)
                    (lookup provider sm.services)
                else none)
              (get_services st s provider))
          (contains_text_lem providers provider)
