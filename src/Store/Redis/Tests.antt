-- ===== src/Store/Redis/Tests.antt =====
-- The theorems about the store over Redis at concrete inputs, and a test of its `Ready`.
use cloudinfo.Prelude.{◌≡◌, refl, inl, true, false, List, [], ◌∷◌, some, none, arith}
use cloudinfo.Types.{empty_vm}
use cloudinfo.Json.{Json}
use cloudinfo.Store.Key.{vm_key, zone_key}
use cloudinfo.Store.KeyValue.{KeyValue, function_server, Call, writes, deletes}
use cloudinfo.Store.Redis
use cloudinfo.Store.Redis.Refinement.{
  Attempt, answered, unanswered, IsPossible, read_entry, step, run, read_entry-run_answered,
}

ready_tests :
    (Redis.ready (some "PONG") ≡ true)
    × (Redis.ready (some "LOADING") ≡ false)
    × (Redis.ready none ≡ false)
unfolding Redis.ready
ready_tests = (refl, refl, refl)

abbrev server : KeyValue Json
server = function_server Json

abbrev zones_written : Call
zones_written = writes (zone_key "amazon" "eks" "eu-west-1") ("a" ∷ "b" ∷ [])

abbrev zones_deleted : Call
zones_deleted = deletes (zone_key "amazon" "eks" "eu-west-1") tt

-- An answered call on another entry, and two on the entry that are not answered: one that the
-- server does not carry out, and one that it does.
abbrev later : List Attempt
later =
    answered (writes (vm_key "amazon" "eks" "eu-west-1") (empty_vm ∷ []))
    ∷ unanswered false zones_deleted
    ∷ unanswered true zones_deleted
    ∷ []

read_entry-run_answered_example :
    IsPossible server (zone_key "amazon" "eks" "eu-west-1") zones_written later (
      read_entry server true
        (run server (step server (λ k. none) (answered zones_written)) later)
        (zone_key "amazon" "eks" "eu-west-1"))
read_entry-run_answered_example =
    read_entry-run_answered server (λ k. none) zones_written later (ground arith) refl
      (inl (ground arith, λ e. cc), (ground arith, (ground arith, tt)))
