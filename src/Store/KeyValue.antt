-- ===== src/Store/KeyValue.antt =====
-- A server that keeps a value under each key, as far as the stores over Redis and Cassandra use
-- it: its operations as a parameter, with the behaviour that its documentation states. The calls
-- that the methods of such a store make.
use cloudinfo.Prelude.{
  String, ◌≡◌, refl, ◌≢◌, Bool, true, Option, none, some, if◌then◌else◌, arith, str_eq, eq_iff,
}
use cloudinfo.Prelude.Result.{Result, ok, err}
use cloudinfo.Json.{JsonError}
use cloudinfo.Json.Marshal.{is_marshalable}
use cloudinfo.Store.Key.{Key, IsDeletable, Content}

pub record KeyValue (V : Type 0) : Type 1 where
  pub State : Type 0
  pub empty : State
  pub get : State → String → Option V
  pub set : State → String → V → State
  pub del : State → String → State
  pub get-empty : (k : String) → get empty k ≡ none
  pub get-set : (s : State) (k : String) (v : V) → get (set s k v) k ≡ some v
  pub get-set_other : (s : State) (j k : String) (v : V) → j ≢ k → get (set s k v) j ≡ get s j
  pub get-del : (s : State) (k : String) → get (del s k) k ≡ none
  pub get-del_other : (s : State) (j k : String) → j ≢ k → get (del s k) j ≡ get s j

-- A server that keeps its values in a function: the laws can be met.
module _ {V : Type 0} where
  abbrev pub function_set : (String → Option V) → String → V → String → Option V
  function_set s k v j = if str_eq k j then some v else s j

  abbrev pub function_del : (String → Option V) → String → String → Option V
  function_del s k j = if str_eq k j then none else s j

  pub get-function_set :
      (s : String → Option V) (k : String) (v : V) → function_set s k v k ≡ some v
  get-function_set s k v = rw ((eq_iff k k).1 refl)

  pub get-function_set_other :
      (s : String → Option V) (j k : String) (v : V) → j ≢ k → function_set s k v j ≡ s j
  get-function_set_other s j k v n = ground (arith, eq_iff k j)

  pub get-function_del : (s : String → Option V) (k : String) → function_del s k k ≡ none
  get-function_del s k = rw ((eq_iff k k).1 refl)

  pub get-function_del_other :
      (s : String → Option V) (j k : String) → j ≢ k → function_del s k j ≡ s j
  get-function_del_other s j k n = ground (arith, eq_iff k j)

abbrev pub function_server : (V : Type 0) → KeyValue V
function_server V = record {
  State = String → Option V;
  empty = λ k. none;
  get = λ s k. s k;
  set = function_set;
  del = function_del;
  get-empty = λ k. refl;
  get-set = get-function_set;
  get-set_other = get-function_set_other;
  get-del = get-function_del;
  get-del_other = get-function_del_other;
}

-- The value where `Unmarshal` gives no error.
abbrev pub decoded {ℓ} : {A : Type ℓ} → Result JsonError A → Option A
decoded (ok a) = some a
decoded (err e) = none

-- A call of a method that changes the store.
pub data Call : Type 0 where
  writes : (k : Key) → Content k → Call
  deletes : (k : Key) → IsDeletable k → Call

abbrev pub target : Call → Key
target (writes k v) = k
target (deletes k h) = k

-- What a read of the call's entry answers after it.
abbrev pub outcome : (call : Call) → Option (Content (target call))
outcome (writes k v) = some v
outcome (deletes k h) = none

-- Whether the call has something to send: a value with an infinite number has no JSON text.
abbrev pub is_sendable : Call → Bool
is_sendable (writes k v) = is_marshalable k v
is_sendable (deletes k h) = true
