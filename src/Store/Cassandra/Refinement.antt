-- ===== src/Store/Cassandra/Refinement.antt =====
-- The store over Cassandra over whole histories of calls: the last call on an entry decides.
use cloudinfo.Prelude.{
  String, ◌≡◌, refl, ap, ◌∙◌, Bool, true, false, List, Option, none, some, All, arith,
}
use cloudinfo.Prelude.Result.{Result}
use cloudinfo.Json.{Json, JsonError}
use cloudinfo.Json.Marshal.{
  encode_content, unmarshal, unmarshal-encode_content, marshal-is_marshalable,
}
use cloudinfo.Store.Key.{Key, key_text, IsClean}
use cloudinfo.Store.KeyValue.{KeyValue, Call, writes, deletes, target, outcome, is_sendable}
use cloudinfo.Store.Cassandra
use cloudinfo.Store.Cassandra.{
  Column, json_text, Session, nil_session, open_session, closed_session, is_open, Cluster,
  CassandraProductStore, init_session, close, scan, select, created,
}
use cloudinfo.Store.Cassandra.Laws.{
  read_entry, shown, read_entry_lem, write_entry_lem, delete_entry_lem,
}
use cloudinfo.Store.Cassandra.Rows.{
  Event, calls, works, apply, step, run, row, has_table, Spares, init_session-row, run-row,
  run-has_table, apply-has_table, init_session-works,
}

module _ (r : KeyValue Column) where
  insert-row :
      (table : Option r.State) (k : String) (v : Column)
      → (elim table [ none ↦ false | some rows ↦ true ]) ≡ true
      → select r true (Cassandra.insert r true table k v) k ≡ some v
  insert-row none k v h = cc
  insert-row (some rows) k v h = r.get-set rows k v

  set_in-row :
      (b : Bool × CassandraProductStore r) (k : String) (j : Json)
      → b.0 ≡ true
      → has_table r b.1 ≡ true
      → row r (Cassandra.set_in r true b k (some j)) k ≡ some (json_text j)
  unfolding Cassandra.set_in
  set_in-row (true, cps) k j is_ok h = insert-row cps.table k (json_text j) h
  set_in-row (false, cps) k j is_ok h = cc

  remove-row :
      (table : Option r.State) (k : String)
      → select r true (Cassandra.remove r true table k) k ≡ none
  remove-row none k = refl
  remove-row (some rows) k = r.get-del rows k

  delete_in-row :
      (b : Bool × CassandraProductStore r) (k : String)
      → b.0 ≡ true
      → row r (Cassandra.delete_in r true b k) k ≡ none
  unfolding Cassandra.delete_in
  delete_in-row (true, cps) k is_ok = remove-row cps.table k
  delete_in-row (false, cps) k is_ok = cc

  works-answers : (c : Cluster) → works c ≡ true → c.answers ≡ true
  works-answers c w = ground arith

  scan-apply :
      (c : Cluster) (cps : CassandraProductStore r) (call : Call)
      → works c ≡ true
      → (init_session r c cps).0 ≡ true
      → has_table r (init_session r c cps).1 ≡ true
      → is_sendable call ≡ true
      → scan (unmarshal (target call)) (row r (apply r c cps call) (key_text (target call)))
        ≡ outcome call
  unfolding apply Cassandra.set Cassandra.delete
  scan-apply c cps (writes k v) w ok h m =
      rw
        (
          write_entry_lem r c cps k v,
          marshal-is_marshalable k v m,
          works-answers c w,
          set_in-row (init_session r c cps) (key_text k) (encode_content k v) ok h,
          unmarshal-encode_content k v,
        )
        refl
  scan-apply c cps (deletes k d) w ok h m =
      rw
        (
          delete_entry_lem r c cps k d,
          works-answers c w,
          delete_in-row (init_session r c cps) (key_text k) ok,
        )
        refl

  get_in-row {ℓ} :
      {A : Type ℓ} (b : Bool × CassandraProductStore r) (k : String)
      (decode : Json → Result JsonError A)
      → b.0 ≡ true
      → (Cassandra.get_in r true b k decode).0 ≡ scan decode (row r b.1 k)
  unfolding Cassandra.get_in
  get_in-row (true, cps) k decode ok = refl
  get_in-row (false, cps) k decode ok = cc

  read_entry-works :
      (c : Cluster) (cps : CassandraProductStore r) (k : Key)
      → works c ≡ true
      → has_table r cps ≡ true
      → (read_entry r c cps k).0 ≡ shown r k (scan (unmarshal k) (row r cps (key_text k)))
  unfolding Cassandra.get
  read_entry-works c cps k w h =
      rw
        (
          read_entry_lem r c cps k,
          works-answers c w,
          get_in-row (init_session r c cps) (key_text k) (unmarshal k)
              (init_session-works r c cps w (λ e. h)).0,
          init_session-row r c cps (key_text k),
        )
        refl

  -- The last call on an entry to which the cluster answered everything decides what a read finds,
  -- if the cluster answers that too: the value that was written, or nothing if the call deleted,
  -- whatever reads, calls on other entries and closings follow, whatever the cluster answers to
  -- them. But images are never found. The store's open session, if it has one, has a table; the
  -- call's own value has a JSON text, and no name of the calls holds a slash.
  pub read_entry-run-works :
      (cps : CassandraProductStore r) (c now : Cluster) (call : Call) (events : List Event)
      → (is_open cps.session ≡ true → has_table r cps ≡ true)
      → works c ≡ true
      → works now ≡ true
      → IsClean (target call)
      → is_sendable call ≡ true
      → All (Spares r (target call)) events
      → (read_entry r now (run r (step r cps (calls c call)) events) (target call)).0
        ≡ shown r (target call) (outcome call)
  unfolding step
  read_entry-run-works cps c now call events sound w wn clean m spares =
      let after = init_session-works r c cps w sound in
      read_entry-works now _ (target call) wn
        (run-has_table r _ events (apply-has_table r c cps call after.1))
      ∙ ap (λ found. shown r (target call) (scan (unmarshal (target call)) found))
          (run-row r (apply r c cps call) events (target call) clean spares)
      ∙ ap (shown r (target call)) (scan-apply c cps call w after.0 after.1 m)
