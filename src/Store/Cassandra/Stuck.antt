-- ===== src/Store/Cassandra/Stuck.antt =====
-- The store over Cassandra after a table could not be created.
use cloudinfo.Prelude.{
  String, ◌≡◌, refl, sym, subst, ap, ◌∙◌, Bool, true, false, ◌&&◌, List, [], ◌∷◌, Option, none,
  some, All, arith,
}
use cloudinfo.Prelude.Result.{Result}
use cloudinfo.Json.{Json, JsonError}
use cloudinfo.Json.Marshal.{marshal, unmarshal}
use cloudinfo.Store.Key.{Key, key_text}
use cloudinfo.Store.KeyValue.{KeyValue, writes, deletes}
use cloudinfo.Store.Cassandra
use cloudinfo.Store.Cassandra.{
  Column, json_text, Session, nil_session, open_session, closed_session, is_open, Cluster,
  CassandraProductStore, init_session, close, scan, select, created,
}
use cloudinfo.Store.Cassandra.Laws.{
  read_entry, shown, shown-none, read_entry_lem, write_entry_lem, delete_entry_lem,
}
use cloudinfo.Store.Cassandra.Rows.{Event, calls, reads, closes, apply, step, run, read_entry-store}

module _ (r : KeyValue Column) where
  -- A session that is open although the table is missing.
  abbrev IsStuck : CassandraProductStore r → Type 0
  IsStuck cps = (cps.session ≡ open_session) × (cps.table ≡ none)

  abbrev pub is_closing : Event → Bool
  is_closing closes = true
  is_closing _ = false

  init_session-IsStuck :
      (c : Cluster) (cps : CassandraProductStore r)
      → IsStuck cps
      → init_session r c cps ≡ (true, cps)
  unfolding init_session
  init_session-IsStuck c cps (is_opened, missing) = rw is_opened refl

  set_in-IsStuck :
      (answers : Bool) (cps : CassandraProductStore r) (k : String) (o : Option Json)
      → IsStuck cps
      → IsStuck (Cassandra.set_in r answers (true, cps) k o)
  unfolding Cassandra.set_in
  set_in-IsStuck answers cps k none stuck = stuck
  set_in-IsStuck answers cps k (some j) (is_opened, missing) = (is_opened, rw missing refl)

  delete_in-IsStuck :
      (answers : Bool) (cps : CassandraProductStore r) (k : String)
      → IsStuck cps
      → IsStuck (Cassandra.delete_in r answers (true, cps) k)
  unfolding Cassandra.delete_in
  delete_in-IsStuck answers cps k (is_opened, missing) = (is_opened, rw missing refl)

  get-IsStuck {ℓ} :
      {A : Type ℓ} (c : Cluster) (cps : CassandraProductStore r) (k : String)
      (decode : Json → Result JsonError A)
      → IsStuck cps
      → (Cassandra.get r c cps k decode).0 ≡ none
  unfolding Cassandra.get Cassandra.get_in
  get-IsStuck c cps k decode stuck = rw (init_session-IsStuck c cps stuck, stuck.1) refl

  read_entry-IsStuck :
      (c : Cluster) (cps : CassandraProductStore r) (k : Key)
      → IsStuck cps
      → (read_entry r c cps k).0 ≡ none
  read_entry-IsStuck c cps k stuck =
      ap (λ p. p.0) (read_entry_lem r c cps k)
      ∙ ap (shown r k) (get-IsStuck c cps (key_text k) (unmarshal k) stuck)
      ∙ shown-none r k

  step-IsStuck :
      (cps : CassandraProductStore r) (e : Event)
      → is_closing e ≡ false
      → IsStuck cps
      → IsStuck (step r cps e)
  unfolding step apply Cassandra.set Cassandra.delete
  step-IsStuck cps (calls c (writes k v)) h stuck =
      rw (write_entry_lem r c cps k v, init_session-IsStuck c cps stuck)
        (set_in-IsStuck c.answers cps (key_text k) (marshal k v) stuck)
  step-IsStuck cps (calls c (deletes k d)) h stuck =
      rw (delete_entry_lem r c cps k d, init_session-IsStuck c cps stuck)
        (delete_in-IsStuck c.answers cps (key_text k) stuck)
  step-IsStuck cps (reads c k) h stuck =
      subst IsStuck
        (sym (read_entry-store r c cps k ∙ ap (λ p. p.1) (init_session-IsStuck c cps stuck))) stuck
  step-IsStuck cps closes h stuck = cc

  run-IsStuck :
      (cps : CassandraProductStore r) (events : List Event)
      → All (λ e. is_closing e ≡ false) events
      → IsStuck cps
      → IsStuck (run r cps events)
  unfolding run
  run-IsStuck cps [] h stuck = stuck
  run-IsStuck cps (e ∷ events) (h, hs) stuck =
      run-IsStuck (step r cps e) events hs (step-IsStuck cps e h stuck)

  ready-IsStuck :
      (c : Cluster) (cps : CassandraProductStore r)
      → is_open cps.session ≡ false
      → cps.table ≡ none
      → c.connects ≡ true
      → (c.creates_keyspace && c.creates_table) ≡ false
      → IsStuck (Cassandra.ready r c cps).1
  unfolding Cassandra.ready init_session
  ready-IsStuck c cps not_open missing connects fails = ground arith

  -- Where a session is created but the keyspace or the table is not, and the cluster has no such
  -- table, no later read finds anything until the store is closed: not even after writes to which
  -- the cluster answered every request, since the open session stands for a table that is there.
  pub read_entry-run_stuck :
      (cps : CassandraProductStore r) (c now : Cluster) (events : List Event) (k : Key)
      → is_open cps.session ≡ false
      → cps.table ≡ none
      → c.connects ≡ true
      → (c.creates_keyspace && c.creates_table) ≡ false
      → All (λ e. is_closing e ≡ false) events
      → (read_entry r now (run r (Cassandra.ready r c cps).1 events) k).0 ≡ none
  read_entry-run_stuck cps c now events k not_open missing connects fails h =
      read_entry-IsStuck now _ k (
        run-IsStuck (Cassandra.ready r c cps).1 events h
          (ready-IsStuck c cps not_open missing connects fails))
