-- ===== src/Store/GoCache/Refinement.antt =====
-- The store over `go-cache` over whole histories of calls, and as an implementation of the
-- interface that the rest of the program uses.
use cloudinfo.Prelude.{
  ℕ, ◌≡◌, refl, sym, subst, ap, ◌∙◌, ◌≢◌, inl, inr, Bool, true, false, List, [], ◌∷◌, Option, none,
  some, if◌then◌else◌, arith, str_eq, eq_iff, Bool-cases, All,
}
use cloudinfo.Store.Key.{Key, key_text, IsClean, IsDeletable, Content}
use cloudinfo.Store.Key.RoundTrip.{key_text_injective}
use cloudinfo.Store.Cache.{Cache, lifetime, is_alive}
use cloudinfo.Store.Interface.{CloudInfoStore}
use cloudinfo.Store.GoCache.{
  Item, Found, hit, miss, panic, CacheProductStore, new_cache_product_store,
}
use cloudinfo.Store.GoCache.Laws.{
  read_entry, write_entry, delete_entry, read_entry_lem, item_lifetime, read_entry-write_entry,
  read_entry-write_entry_other, read_entry-delete_entry, read_entry-delete_entry_other,
}

-- A call of a method that changes the store, with the time of a write.
pub data Call : Type 0 where
  writes : ℕ → (k : Key) → Content k → Call
  deletes : (k : Key) → IsDeletable k → Call

abbrev pub target : Call → Key
target (writes now k v) = k
target (deletes k h) = k

abbrev pub Names : List Call → Type 0
Names calls = All (λ call. IsClean (target call)) calls

same_entry : (j k : Key) → IsClean j → IsClean k → str_eq (key_text j) (key_text k) ≡ true → k ≡ j
same_entry j k hj hk e = sym (key_text_injective j k hj hk ((eq_iff _ _).0 e))

other_entry : (j k : Key) → str_eq (key_text j) (key_text k) ≡ false → j ≢ k
other_entry j k e same = cc (e, (eq_iff (key_text j) (key_text k)).1 (ap key_text same))

module _ (c : Cache Item) where
  pub step : CacheProductStore c → Call → CacheProductStore c
  step cis (writes now k v) = write_entry c now cis k v
  step cis (deletes k h) = delete_entry c cis k

  pub run : CacheProductStore c → List Call → CacheProductStore c
  unfolding step
  run cis [] = cis
  run cis (call ∷ calls) = run (step cis call) calls

  -- No read of an entry fails in its type assertion.
  abbrev pub IsTyped : CacheProductStore c → Type 0
  IsTyped cis = (now : ℕ) (k : Key) → IsClean k → read_entry c now cis k ≢ panic

  hit_or_miss-ne-panic : {A : Type 0} (a : A) (b : Bool) → (if b then hit a else miss) ≢ panic
  hit_or_miss-ne-panic a true e = cc
  hit_or_miss-ne-panic a false e = cc

  step-IsTyped :
      (cis : CacheProductStore c) (call : Call)
      → IsClean (target call)
      → IsTyped cis
      → IsTyped (step cis call)
  unfolding step
  step-IsTyped cis (writes t k v) hk typed now j hj =
      elim (Bool-cases (str_eq (key_text j) (key_text k))) [
        | inl e ↦
            subst (λ i. read_entry c now (write_entry c t cis k v) i ≢ panic)
              (same_entry j k hj hk e)
              (rw (read_entry-write_entry c now t cis k v) (hit_or_miss-ne-panic v _))
        | inr e ↦
            rw (read_entry-write_entry_other c now t cis j k v hj hk (other_entry j k e))
              (typed now j hj)
      ]
  step-IsTyped cis (deletes k d) hk typed now j hj =
      elim (Bool-cases (str_eq (key_text j) (key_text k))) [
        | inl e ↦
            subst (λ i. read_entry c now (delete_entry c cis k) i ≢ panic) (same_entry j k hj hk e)
              (rw (read_entry-delete_entry c now cis k d) (λ h. cc))
        | inr e ↦
            rw (read_entry-delete_entry_other c now cis j k hj hk (other_entry j k e) d)
              (typed now j hj)
      ]

  run-IsTyped :
      (cis : CacheProductStore c) (calls : List Call)
      → Names calls
      → IsTyped cis
      → IsTyped (run cis calls)
  unfolding run
  run-IsTyped cis [] h typed = typed
  run-IsTyped cis (call ∷ calls) (h, hs) typed =
      run-IsTyped (step cis call) calls hs (step-IsTyped cis call h typed)

  new-IsTyped : (e i : ℕ) → IsTyped (new_cache_product_store c e i)
  unfolding new_cache_product_store
  new-IsTyped e i now k hk = rw (read_entry_lem c _ _ k, c.get-new) (λ h. cc)

  -- After any history of calls on a new store in which no name holds a slash, no getter panics.
  pub run-new-ne-panic :
      (e i : ℕ) (calls : List Call) (now : ℕ) (k : Key)
      → Names calls
      → IsClean k
      → read_entry c now (run (new_cache_product_store c e i) calls) k ≢ panic
  run-new-ne-panic e i calls now k h hk =
      run-IsTyped (new_cache_product_store c e i) calls h (new-IsTyped e i) now k hk

  abbrev pub Untouched : Key → List Call → Type 0
  Untouched k calls = All (λ call. k ≢ target call) calls

  run-Untouched :
      (now : ℕ) (cis : CacheProductStore c) (calls : List Call) (k : Key)
      → IsClean k
      → Names calls
      → Untouched k calls
      → read_entry c now (run cis calls) k ≡ read_entry c now cis k
  unfolding run step
  run-Untouched now cis [] k hk h u = refl
  run-Untouched now cis (writes t j v ∷ calls) k hk (h, hs) (u, us) =
      run-Untouched now (write_entry c t cis j v) calls k hk hs us
      ∙ read_entry-write_entry_other c now t cis k j v hk h u
  run-Untouched now cis (deletes j d ∷ calls) k hk (h, hs) (u, us) =
      run-Untouched now (delete_entry c cis j) calls k hk hs us
      ∙ read_entry-delete_entry_other c now cis k j hk h u d

  -- The last write wins: whatever calls on other entries follow, a read answers the value that was
  -- last written under its names for as long as the store's items live, and misses it after.
  -- No name of the entry or of the later calls holds a slash.
  pub read_entry-run :
      (later now : ℕ) (cis : CacheProductStore c) (k : Key) (v : Content k) (calls : List Call)
      → IsClean k
      → Names calls
      → Untouched k calls
      → read_entry c later (run (step cis (writes now k v)) calls) k
        ≡ (if is_alive (item_lifetime c cis) now later then hit v else miss)
  unfolding step
  read_entry-run later now cis k v calls hk h u =
      run-Untouched later _ calls k hk h u ∙ read_entry-write_entry c later now cis k v

  -- The items of a new store live for the interval of the cleanup where that is not 0, whatever
  -- expiration was asked for; where it is 0 they live for the expiration, and for ever if that is
  -- 0 too.
  pub new-item_lifetime : (e i : ℕ) → item_lifetime c (new_cache_product_store c e i) ≡ lifetime e i
  unfolding new_cache_product_store
  new-item_lifetime e i = rw c.default-new

  alive_at_once : (l : Option ℕ) (now : ℕ) → is_alive l now now ≡ true
  alive_at_once none now = refl
  alive_at_once (some d) now = ground arith

  abbrev pub found {ℓ} : {A : Type ℓ} → Found A → Option A
  found (hit a) = some a
  found miss = none
  found panic = none

  pub fetch_written :
      (now : ℕ) (cis : CacheProductStore c) (k : Key) (v : Content k)
      → found (read_entry c now (write_entry c now cis k v) k) ≡ some v
  fetch_written now cis k v = rw (read_entry-write_entry c now now cis k v, alive_at_once)

  -- The store implements the interface at every instant.
  unfoldable pub go_cache_store : ℕ → CloudInfoStore
  go_cache_store now = record {
    State = CacheProductStore c;
    fetch = λ cis k. found (read_entry c now cis k);
    put = λ cis k v. write_entry c now cis k v;
    drop = λ cis k. delete_entry c cis k;
    fetch-put = λ cis k v h. fetch_written now cis k v;
    fetch-put_other =
        λ cis j k v hj hk n. ap found (read_entry-write_entry_other c now now cis j k v hj hk n);
    fetch-drop = λ cis k h d. ap found (read_entry-delete_entry c now cis k d);
    fetch-drop_other =
        λ cis j k hj hk n d. ap found (read_entry-delete_entry_other c now cis j k hj hk n d);
  }
