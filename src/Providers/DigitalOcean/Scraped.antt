-- ===== src/Providers/DigitalOcean/Scraped.antt =====
-- The machines of DigitalOcean in a run of the scraping.
use cloudinfo.Prelude.{
  String, ◌≡◌, ap, ◌∙◌, ◌↔◌, inl, inr, true, List, [], ◌∷◌, In, Bool-cases, subst, sym, arith,
}
use cloudinfo.Prelude.Text.{IsName}
use cloudinfo.Prelude.Result.{Result, ok, Result-cases}
use cloudinfo.Types.{VmInfo, Price}
use cloudinfo.Store.Key.{vm_key}
use cloudinfo.Store.Interface.{CloudInfoStore, get_vm}
use cloudinfo.Scrape.{or_nil, World, scrape_service_region_products}
use cloudinfo.Scrape.Machines.{
  scrape_service_region_products_lem, scrape_service_region_products-err, virtual_machines-nil,
}
use cloudinfo.Providers.DigitalOcean.{Client, contains, offered, get_products, digitalocean_infoer}

-- `GetProducts` answers exactly those of the given machines whose types Kubernetes offers: it looks
-- up no machines of its own.
pub offered_iff :
    (sizes : List String) (vms : List VmInfo) (vm : VmInfo)
    → In vm (offered sizes vms) ↔ (In vm vms × (contains vm.type sizes ≡ true))
unfolding offered
offered_iff sizes vms vm = (sound vms, complete vms)
  where
    sound :
        (given : List VmInfo)
        → In vm (offered sizes given)
        → In vm given × (contains vm.type sizes ≡ true)
    sound [] i = elim i [ ]
    sound (v ∷ given) i = elim (Bool-cases (contains v.type sizes)) [
      | inr rejected ↦ let later = sound given (rw rejected at i) in (inr later.0, later.1)
      | inl taken ↦ elim (rw taken at i) [
        | inl e ↦ (inl e, subst (λ u. contains u.type sizes ≡ true) (sym e) taken)
        | inr j ↦ let later = sound given j in (inr later.0, later.1)
      ]
    ]

    complete :
        (given : List VmInfo)
        → In vm given × (contains vm.type sizes ≡ true)
        → In vm (offered sizes given)
    complete [] (i, taken) = i
    complete (v ∷ given) (inl e, taken) =
        let here : contains v.type sizes ≡ true =
          subst (λ u. contains u.type sizes ≡ true) e taken in
        rw here (inl e)
    complete (v ∷ given) (inr i, taken) = elim (Bool-cases (contains v.type sizes)) [
      | inr rejected ↦ rw rejected (complete given (i, taken))
      | inl here ↦ rw here (inr (complete given (i, taken)))
    ]

get_products-nil :
    (client : Client) (service region : String) (values : List VmInfo)
    → get_products client [] service region ≡ ok values
    → values ≡ []
unfolding get_products offered
get_products-nil client service region values e = ground arith

module _ (st : CloudInfoStore) (client : Client)
    (prices : Result String (List (String × List (String × Price)))) (provider : String) where
  abbrev pub machines :
      World st (digitalocean_infoer client prices) provider → String → String → List VmInfo
  machines w service region = or_nil (get_vm st w.store provider service region)

  -- Scraping the products of a region in which the store has no machines of a service leaves it
  -- without any, whatever the API answers. No name holds a slash.
  pub scrape_service_region_products-machines :
      (w : World st (digitalocean_infoer client prices) provider) (service region : String)
      → IsName provider
      → IsName service
      → IsName region
      → machines w service region ≡ []
      → machines
          (scrape_service_region_products st
            (digitalocean_infoer client prices)
            provider
            w
            service
            region).0
          service
          region
        ≡ []
  unfolding digitalocean_infoer
  scrape_service_region_products-machines w service region hp hs hr none_stored =
      elim (Result-cases (get_products client (machines w service region) service region)) [
        | inr (e, failed) ↦
            ap (λ outcome. machines outcome.0 service region)
              (scrape_service_region_products-err st (digitalocean_infoer client prices) provider w
                service region e failed)
            ∙ none_stored
        | inl (values, answered) ↦
            ap (λ outcome. machines outcome.0 service region)
              (scrape_service_region_products_lem st (digitalocean_infoer client prices) provider w
                service region values hp hs hr answered)
            ∙ ap or_nil (st.fetch-put _ (vm_key provider service region) _ (hp, hs, hr))
            ∙ rw
                (get_products-nil client service region values (
                  subst (λ vms. get_products client vms service region ≡ ok values) none_stored
                    answered))
                (virtual_machines-nil st (digitalocean_infoer client prices) provider _ region)
      ]
