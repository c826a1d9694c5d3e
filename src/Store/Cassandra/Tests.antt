-- ===== src/Store/Cassandra/Tests.antt =====
-- The theorems about the store over Cassandra at concrete inputs.
use cloudinfo.Prelude.{◌≡◌, refl, inl, true, false, List, [], ◌∷◌, some, none, arith}
use cloudinfo.Store.Key.{zone_key, status_key}
use cloudinfo.Store.KeyValue.{KeyValue, function_server, Call, writes}
use cloudinfo.Store.Cassandra
use cloudinfo.Store.Cassandra.{Column, Cluster, nil_session, CassandraProductStore}
use cloudinfo.Store.Cassandra.Laws.{read_entry}
use cloudinfo.Store.Cassandra.Rows.{Event, calls, reads, closes, step, run}
use cloudinfo.Store.Cassandra.Refinement.{read_entry-run-works}
use cloudinfo.Store.Cassandra.Stuck.{read_entry-run_stuck}

abbrev server : KeyValue Column
server = function_server Column

abbrev up : Cluster
up = record { connects = true; creates_keyspace = true; creates_table = true; answers = true }

abbrev no_table : Cluster
no_table = record {
  connects = true;
  creates_keyspace = true;
  creates_table = false;
  answers = true;
}

abbrev fresh : CassandraProductStore server
fresh = record { session = nil_session; table = none }

abbrev zones_written : Call
zones_written = writes (zone_key "amazon" "eks" "eu-west-1") ("a" ∷ [])

abbrev events : List Event
events =
    closes
    ∷ reads up (zone_key "amazon" "eks" "eu-west-1")
    ∷ calls no_table (writes (status_key "amazon") "7")
    ∷ []

read_entry-run-works_example :
    (read_entry server up
      (run server (step server fresh (calls up zones_written)) events)
      (zone_key "amazon" "eks" "eu-west-1")).0
    ≡ some ("a" ∷ [])
read_entry-run-works_example =
    read_entry-run-works server fresh up up zones_written events (λ e. cc) refl refl (ground arith)
      refl (tt, (tt, (inl (ground arith, λ e. cc), tt)))

-- The status that was written after the table could not be created is never read.
read_entry-run_stuck_example :
    (read_entry server up
      (run server
        (Cassandra.ready server no_table fresh).1
        (calls up (writes (status_key "amazon") "7") ∷ []))
      (status_key "amazon")).0
    ≡ none
read_entry-run_stuck_example =
    read_entry-run_stuck server fresh no_table up (calls up (writes (status_key "amazon") "7") ∷ [])
      (status_key "amazon") refl refl refl refl (refl, tt)
