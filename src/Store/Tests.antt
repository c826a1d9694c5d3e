-- ===== src/Store/Tests.antt =====
-- Tests of the stores, and their theorems at concrete inputs.
use cloudinfo.Prelude.{◌≡◌, refl, ◌≢◌, List, [], ◌∷◌, none, some, arith}
use cloudinfo.Types.{empty_vm}
use cloudinfo.Store.Key.{Key, vm_key, price_key, zone_key, status_key, key_text}
use cloudinfo.Store.Key.RoundTrip.{read_key, read_key-key_text}
use cloudinfo.Store.Cache.{Cache, table_cache}
use cloudinfo.Store.GoCache.{Item, hit, panic, CacheProductStore, new_cache_product_store}
use cloudinfo.Store.GoCache.Laws.{read_entry}
use cloudinfo.Store.GoCache.Refinement.{
  Call, writes, deletes, step, run, run-new-ne-panic, read_entry-run,
}

abbrev memory : Cache Item
memory = table_cache Item

key_text_tests :
    (key_text (vm_key "amazon" "eks" "eu-west-1")
      ≡ "/banzaicloud.com/cloudinfo/providers/amazon/services/eks/regions/eu-west-1/vms")
    × (key_text (status_key "google") ≡ "/banzaicloud.com/cloudinfo/providers/google/status/")
unfolding key_text
key_text_tests = (refl, refl)

read_key-key_text_example :
    read_key (key_text (price_key "amazon" "eu-west-1" "c5.large"))
    ≡ some (price_key "amazon" "eu-west-1" "c5.large")
read_key-key_text_example =
    read_key-key_text (price_key "amazon" "eu-west-1" "c5.large") (ground arith)

-- Zones are stored and deleted, and an entry of another kind is stored in between.
abbrev history : List Call
history =
    writes 3 (zone_key "amazon" "eks" "eu-west-1") ("a" ∷ "b" ∷ [])
    ∷ writes 4 (vm_key "amazon" "eks" "eu-west-1") (empty_vm ∷ [])
    ∷ deletes (zone_key "amazon" "eks" "eu-west-1") tt
    ∷ []

run-new-ne-panic_example :
    read_entry memory 9
      (run memory (new_cache_product_store memory 0 0) history)
      (vm_key "amazon" "eks" "eu-west-1")
    ≢ panic
run-new-ne-panic_example =
    run-new-ne-panic memory 0 0 history 9 (vm_key "amazon" "eks" "eu-west-1") (ground arith)
      (ground arith)

abbrev status_of_amazon : Key
status_of_amazon = status_key "amazon"

abbrev short_lived : CacheProductStore memory
short_lived = record { cache = record { default = 60; items = λ k. none }; item_expiry = 10 }

-- With a cleanup every 10, a value that was stored at 2 is there at 12 and gone at 13.
read_entry-run_example :
    read_entry memory 12
      (run memory (step memory short_lived (writes 2 status_of_amazon "7")) history)
      status_of_amazon
    ≡ hit "7"
read_entry-run_example =
    read_entry-run memory 12 2 short_lived status_of_amazon "7" history (ground arith)
      (ground arith) ((λ h. cc), ((λ h. cc), ((λ h. cc), tt)))
