-- ===== src/Store/Cassandra/Rows.antt =====
-- Histories of calls on the store over Cassandra: what they leave of a row, and of the table.
use cloudinfo.Prelude.{
  String, ◌≡◌, refl, ap, ◌∙◌, ◌≢◌, ◌⊎◌, inl, inr, Bool, true, false, ◌&&◌, List, [], ◌∷◌, Option,
  none, some, All, arith,
}
use cloudinfo.Prelude.Result.{Result}
use cloudinfo.Json.{Json, JsonError}
use cloudinfo.Json.Marshal.{unmarshal, marshal-not_marshalable}
use cloudinfo.Store.Key.{Key, key_text, IsClean}
use cloudinfo.Store.Key.RoundTrip.{key_text_injective}
use cloudinfo.Store.KeyValue.{KeyValue, Call, writes, deletes, target, is_sendable}
use cloudinfo.Store.Cassandra
use cloudinfo.Store.Cassandra.{
  Column, json_text, Session, nil_session, open_session, closed_session, is_open, Cluster,
  CassandraProductStore, init_session, close, scan, select, created,
}
use cloudinfo.Store.Cassandra.Laws.{
  read_entry, write_entry, delete_entry, read_entry_lem, write_entry_lem, delete_entry_lem,
}

-- A call of a method, with what the cluster answers during it.
pub data Event : Type 0 where
  calls : Cluster → Call → Event
  reads : Cluster → Key → Event
  closes : Event

-- Every request of a call is answered.
abbrev pub works : Cluster → Bool
works c = (c.connects && c.creates_keyspace) && (c.creates_table && c.answers)

module _ (r : KeyValue Column) where
  unfoldable pub apply : Cluster → CassandraProductStore r → Call → CassandraProductStore r
  unfolding write_entry delete_entry
  apply c cps (writes k v) = write_entry r c cps k v
  apply c cps (deletes k d) = delete_entry r c cps k

  -- `Close` of a store with no session panics, which leaves it as it is.
  abbrev pub kept :
      CassandraProductStore r → Option (CassandraProductStore r) → CassandraProductStore r
  kept cps none = cps
  kept cps (some after) = after

  unfoldable pub step : CassandraProductStore r → Event → CassandraProductStore r
  unfolding apply close
  step cps (calls c call) = apply c cps call
  step cps (reads c k) = (read_entry r c cps k).1
  step cps closes = kept cps (close r cps)

  unfoldable pub run : CassandraProductStore r → List Event → CassandraProductStore r
  unfolding step
  run cps [] = cps
  run cps (e ∷ events) = run (step cps e) events

  -- The row of a key, if the table is there and has it.
  abbrev pub row : CassandraProductStore r → String → Option Column
  row cps key = select r true cps.table key

  select-created :
      (table : Option r.State) (key : String)
      → select r true (created r table) key ≡ select r true table key
  select-created none key = r.get-empty key
  select-created (some rows) key = refl

  pub init_session-row :
      (c : Cluster) (cps : CassandraProductStore r) (key : String)
      → row (init_session r c cps).1 key ≡ row cps key
  unfolding init_session
  init_session-row c cps key = ground (arith, select-created cps.table key)

  -- What a call does to the table once the session is there.
  insert-row_other :
      (answers : Bool) (table : Option r.State) (key k : String) (v : Column)
      → key ≢ k
      → select r true (Cassandra.insert r answers table k v) key ≡ select r true table key
  insert-row_other answers none key k v n = refl
  insert-row_other true (some rows) key k v n = r.get-set_other rows key k v n
  insert-row_other false (some rows) key k v n = refl

  remove-row_other :
      (answers : Bool) (table : Option r.State) (key k : String)
      → key ≢ k
      → select r true (Cassandra.remove r answers table k) key ≡ select r true table key
  remove-row_other answers none key k n = refl
  remove-row_other true (some rows) key k n = r.get-del_other rows key k n
  remove-row_other false (some rows) key k n = refl

  set_in-row_other :
      (answers : Bool) (b : Bool × CassandraProductStore r) (key k : String) (o : Option Json)
      → key ≢ k
      → row (Cassandra.set_in r answers b k o) key ≡ row b.1 key
  unfolding Cassandra.set_in
  set_in-row_other answers (false, cps) key k o n = refl
  set_in-row_other answers (true, cps) key k none n = refl
  set_in-row_other answers (true, cps) key k (some j) n =
      insert-row_other answers cps.table key k (json_text j) n

  set_in-none :
      (answers : Bool) (b : Bool × CassandraProductStore r) (k : String)
      → Cassandra.set_in r answers b k none ≡ b.1
  unfolding Cassandra.set_in
  set_in-none answers (false, cps) k = refl
  set_in-none answers (true, cps) k = refl

  delete_in-row_other :
      (answers : Bool) (b : Bool × CassandraProductStore r) (key k : String)
      → key ≢ k
      → row (Cassandra.delete_in r answers b k) key ≡ row b.1 key
  unfolding Cassandra.delete_in
  delete_in-row_other answers (false, cps) key k n = refl
  delete_in-row_other answers (true, cps) key k n = remove-row_other answers cps.table key k n

  pub get_in-store {ℓ} :
      {A : Type ℓ} (answers : Bool) (b : Bool × CassandraProductStore r) (k : String)
      (decode : Json → Result JsonError A)
      → (Cassandra.get_in r answers b k decode).1 ≡ b.1
  unfolding Cassandra.get_in
  get_in-store answers (false, cps) k decode = refl
  get_in-store answers (true, cps) k decode = refl

  apply-row_other :
      (c : Cluster) (cps : CassandraProductStore r) (call : Call) (key : String)
      → key ≢ key_text (target call)
      → row (apply c cps call) key ≡ row cps key
  unfolding apply Cassandra.set Cassandra.delete
  apply-row_other c cps (writes k v) key n =
      rw (write_entry_lem r c cps k v)
        (set_in-row_other c.answers _ key (key_text k) _ n ∙ init_session-row c cps key)
  apply-row_other c cps (deletes k d) key n =
      rw (delete_entry_lem r c cps k d)
        (delete_in-row_other c.answers _ key (key_text k) n ∙ init_session-row c cps key)

  apply-row_not_sendable :
      (c : Cluster) (cps : CassandraProductStore r) (call : Call) (key : String)
      → is_sendable call ≡ false
      → row (apply c cps call) key ≡ row cps key
  unfolding apply Cassandra.set
  apply-row_not_sendable c cps (writes k v) key h =
      rw
        (
          write_entry_lem r c cps k v,
          marshal-not_marshalable k v h,
          set_in-none c.answers (init_session r c cps) (key_text k),
        )
        (init_session-row c cps key)
  apply-row_not_sendable c cps (deletes k d) key h = cc

  pub read_entry-store :
      (c : Cluster) (cps : CassandraProductStore r) (k : Key)
      → (read_entry r c cps k).1 ≡ (init_session r c cps).1
  unfolding Cassandra.get
  read_entry-store c cps k =
      ap (λ p. p.1) (read_entry_lem r c cps k)
      ∙ get_in-store c.answers (init_session r c cps) (key_text k) (unmarshal k)

  close-row :
      (cps : CassandraProductStore r) (key : String) → row (step cps closes) key ≡ row cps key
  unfolding step close
  close-row cps key = ground arith

  -- An event that leaves the row of `k` alone: it is not a call that changes the store, or the call
  -- is on another entry whose names hold no slash, or it has nothing to send.
  abbrev pub Spares : Key → Event → Type 0
  Spares k (calls c call) = (IsClean (target call) × (k ≢ target call)) ⊎ (is_sendable call ≡ false)
  Spares k (reads c j) = Unit
  Spares k closes = Unit

  step-row :
      (cps : CassandraProductStore r) (e : Event) (k : Key)
      → IsClean k
      → Spares k e
      → row (step cps e) (key_text k) ≡ row cps (key_text k)
  unfolding step
  step-row cps (calls c call) k hk (inl (clean, n)) =
      apply-row_other c cps call (key_text k)
        (λ e. n (key_text_injective k (target call) hk clean e))
  step-row cps (calls c call) k hk (inr h) = apply-row_not_sendable c cps call (key_text k) h
  step-row cps (reads c j) k hk h =
      ap (λ after. row after (key_text k)) (read_entry-store c cps j)
      ∙ init_session-row c cps (key_text k)
  step-row cps closes k hk h = close-row cps (key_text k)

  pub run-row :
      (cps : CassandraProductStore r) (events : List Event) (k : Key)
      → IsClean k
      → All (Spares k) events
      → row (run cps events) (key_text k) ≡ row cps (key_text k)
  unfolding run
  run-row cps [] k hk h = refl
  run-row cps (e ∷ events) k hk (h, hs) =
      run-row (step cps e) events k hk hs ∙ step-row cps e k hk h

  abbrev pub has_table : CassandraProductStore r → Bool
  has_table cps = elim cps.table [ none ↦ false | some rows ↦ true ]

  pub init_session-has_table :
      (c : Cluster) (cps : CassandraProductStore r)
      → has_table cps ≡ true
      → has_table (init_session r c cps).1 ≡ true
  unfolding init_session
  init_session-has_table c cps h = ground arith

  insert-has_table :
      (answers : Bool) (b : Bool × CassandraProductStore r) (k : String) (o : Option Json)
      → has_table b.1 ≡ true
      → has_table (Cassandra.set_in r answers b k o) ≡ true
  unfolding Cassandra.set_in
  insert-has_table answers b k o h = ground arith

  remove-has_table :
      (answers : Bool) (b : Bool × CassandraProductStore r) (k : String)
      → has_table b.1 ≡ true
      → has_table (Cassandra.delete_in r answers b k) ≡ true
  unfolding Cassandra.delete_in
  remove-has_table answers b k h = ground arith

  pub apply-has_table :
      (c : Cluster) (cps : CassandraProductStore r) (call : Call)
      → has_table (init_session r c cps).1 ≡ true
      → has_table (apply c cps call) ≡ true
  unfolding apply Cassandra.set Cassandra.delete
  apply-has_table c cps (writes k v) h =
      rw (write_entry_lem r c cps k v) (insert-has_table c.answers _ (key_text k) _ h)
  apply-has_table c cps (deletes k d) h =
      rw (delete_entry_lem r c cps k d) (remove-has_table c.answers _ (key_text k) h)

  step-has_table :
      (cps : CassandraProductStore r) (e : Event)
      → has_table cps ≡ true
      → has_table (step cps e) ≡ true
  unfolding step close
  step-has_table cps (calls c call) h = apply-has_table c cps call (init_session-has_table c cps h)
  step-has_table cps (reads c k) h =
      ap has_table (read_entry-store c cps k) ∙ init_session-has_table c cps h
  step-has_table cps closes h = ground arith

  pub run-has_table :
      (cps : CassandraProductStore r) (events : List Event)
      → has_table cps ≡ true
      → has_table (run cps events) ≡ true
  unfolding run
  run-has_table cps [] h = h
  run-has_table cps (e ∷ events) h = run-has_table (step cps e) events (step-has_table cps e h)

  -- With every request answered a session is there after `initSession`, and so is the table unless
  -- an open session had none.
  pub init_session-works :
      (c : Cluster) (cps : CassandraProductStore r)
      → works c ≡ true
      → (is_open cps.session ≡ true → has_table cps ≡ true)
      → ((init_session r c cps).0 ≡ true) × (has_table (init_session r c cps).1 ≡ true)
  unfolding init_session
  init_session-works c cps w h = ground arith
