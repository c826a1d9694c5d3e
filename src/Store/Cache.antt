-- ===== src/Store/Cache.antt =====
-- The package `github.com/patrickmn/go-cache` as far as the store uses it: its operations as a
-- parameter, with the behaviour that its documentation states. Times and durations are natural
-- numbers of nanoseconds; a duration below 1 in `New`, 0 here, means that items do not expire, and
-- the duration 0 in `Set` stands for the default of the cache.
use cloudinfo.Prelude.{
  ℕ, ◌+◌, String, ◌≡◌, refl, ◌≢◌, Bool, true, Option, none, some, leb, ◌==◌, if◌then◌else◌, arith,
  str_eq, eq_iff,
}

-- How long an item lives: `none` is for ever.
abbrev pub lifetime : ℕ → ℕ → Option ℕ
lifetime default d = if d == 0 then (if default == 0 then none else some default) else some d

-- An item that was set at `t` is there until its lifetime has passed.
abbrev pub is_alive : Option ℕ → ℕ → ℕ → Bool
is_alive none t now = true
is_alive (some d) t now = leb now (t + d)

pub record Cache (V : Type 0) : Type 1 where
  pub State : Type 0
  pub new : ℕ → ℕ → State
  pub get : ℕ → State → String → Option V
  pub set : ℕ → State → String → V → ℕ → State
  pub delete : State → String → State
  -- `defaultExpiration`, which no operation changes.
  pub default : State → ℕ
  pub default-new : (d i : ℕ) → default (new d i) ≡ d
  pub default-set :
      (t : ℕ) (s : State) (k : String) (v : V) (d : ℕ) → default (set t s k v d) ≡ default s
  pub default-delete : (s : State) (k : String) → default (delete s k) ≡ default s
  pub get-new : (now d i : ℕ) (k : String) → get now (new d i) k ≡ none
  pub get-set :
      (now t : ℕ) (s : State) (k : String) (v : V) (d : ℕ)
      → get now (set t s k v d) k
        ≡ (if is_alive (lifetime (default s) d) t now then some v else none)
  pub get-set_other :
      (now t : ℕ) (s : State) (j k : String) (v : V) (d : ℕ)
      → j ≢ k
      → get now (set t s k v d) j ≡ get now s j
  pub get-delete : (now : ℕ) (s : State) (k : String) → get now (delete s k) k ≡ none
  pub get-delete_other :
      (now : ℕ) (s : State) (j k : String) → j ≢ k → get now (delete s k) j ≡ get now s j

-- A cache that keeps its items in a function: the laws can be met.
pub record Entry (V : Type 0) : Type 0 where
  pub value : V
  pub set_at : ℕ
  pub lives : Option ℕ

pub record Table (V : Type 0) : Type 0 where
  pub default : ℕ
  pub items : String → Option (Entry V)

module _ {V : Type 0} where
  abbrev pub read : ℕ → Option (Entry V) → Option V
  read now none = none
  read now (some e) = if is_alive e.lives e.set_at now then some e.value else none

  abbrev pub table_get : ℕ → Table V → String → Option V
  table_get now s k = read now (s.items k)

  abbrev pub table_set : ℕ → Table V → String → V → ℕ → Table V
  table_set t s k v d = record s {
    items = λ j.
        if str_eq k j
        then some (record { value = v; set_at = t; lives = lifetime s.default d })
        else s.items j;
  }

  abbrev pub table_delete : Table V → String → Table V
  table_delete s k = record s { items = λ j. if str_eq k j then none else s.items j }

  pub get-table_set :
      (now t : ℕ) (s : Table V) (k : String) (v : V) (d : ℕ)
      → table_get now (table_set t s k v d) k
        ≡ (if is_alive (lifetime s.default d) t now then some v else none)
  get-table_set now t s k v d = rw ((eq_iff k k).1 refl)

  pub get-table_set_other :
      (now t : ℕ) (s : Table V) (j k : String) (v : V) (d : ℕ)
      → j ≢ k
      → table_get now (table_set t s k v d) j ≡ table_get now s j
  get-table_set_other now t s j k v d n = ground (arith, eq_iff k j)

  pub get-table_delete :
      (now : ℕ) (s : Table V) (k : String) → table_get now (table_delete s k) k ≡ none
  get-table_delete now s k = rw ((eq_iff k k).1 refl)

  pub get-table_delete_other :
      (now : ℕ) (s : Table V) (j k : String)
      → j ≢ k
      → table_get now (table_delete s k) j ≡ table_get now s j
  get-table_delete_other now s j k n = ground (arith, eq_iff k j)

abbrev pub table_cache : (V : Type 0) → Cache V
table_cache V = record {
  State = Table V;
  new = λ d i. record { default = d; items = λ k. none };
  get = table_get;
  set = table_set;
  delete = table_delete;
  default = λ s. s.default;
  default-new = λ d i. refl;
  default-set = λ t s k v d. refl;
  default-delete = λ s k. refl;
  get-new = λ now d i k. refl;
  get-set = get-table_set;
  get-set_other = get-table_set_other;
  get-delete = get-table_delete;
  get-delete_other = get-table_delete_other;
}
