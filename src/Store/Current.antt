-- ===== src/Store/Current.antt =====
-- services/vault-api/store/store.go: Current and Init, the store that the process has chosen.
use merkle_evidence_vault.Prelude.{
  Bool-cases, Option, Result, String, err, if◌then◌else◌, inl, inr, none, ok, refl, set, some, ◌==◌,
  ◌≡◌, string_key,
}
use merkle_evidence_vault.Store.Memory.{MemStore, new_memory_store}
use merkle_evidence_vault.Store.Postgres.{Database, ensure_schema}

-- A store is the one in memory, or one on a database that a pool reaches.
pub data AnyStore (Pool : Type 0) : Type 0 where
  memory : MemStore → AnyStore Pool
  postgres : Pool → AnyStore Pool

-- `pgxpool.New` for an URL.
abbrev pub Connect : Type 0 → Type 0
Connect Pool = String → Result Pool

-- The variable `current`, none while it is nil.
abbrev pub current : {Pool : Type 0} → Option (AnyStore Pool) → Option (AnyStore Pool)
current c = c

module _ (db : Database) where
  open db use {State}

  -- The schema is there: the store becomes the current one.
  unfoldable pub with_schema :
      State × Result (Unit {0}) → Option (AnyStore State) × Result (AnyStore State)
  with_schema (st, err e) = (none, err e)
  with_schema (st, ok done) = (some (postgres st), ok (postgres st))

  unfoldable pub with_pool : Result State → Option (AnyStore State) × Result (AnyStore State)
  unfolding with_schema
  with_pool (err e) = (none, err e)
  with_pool (ok pool) = with_schema (ensure_schema db pool)

  -- `url` is DATABASE_URL.
  unfoldable pub init :
      String
      → Connect State
      → Option (AnyStore State)
      → Option (AnyStore State) × Result (AnyStore State)
  unfolding with_pool
  init url connect (some c) = (some c, ok c)
  init url connect none =
      if url == ""
      then (some (memory new_memory_store), ok (memory new_memory_store))
      else with_pool (connect url)

  -- The variable after a first call: the store that it returned, or nil still.
  abbrev pub IsSettled : Option (AnyStore State) × Result (AnyStore State) → Type 0
  IsSettled (c, ok s) = c ≡ some s
  IsSettled (c, err e) = c ≡ none

  with_schema-IsSettled : (r : State × Result (Unit {0})) → IsSettled (with_schema r)
  unfolding with_schema
  with_schema-IsSettled (st, ok done) = refl
  with_schema-IsSettled (st, err e) = refl

  with_pool-IsSettled : (r : Result State) → IsSettled (with_pool r)
  unfolding with_pool
  with_pool-IsSettled (ok pool) = with_schema-IsSettled (ensure_schema db pool)
  with_pool-IsSettled (err e) = refl

  -- A first call of Init that returns a store has made it the current one, and one that fails has
  -- made none.
  pub init-IsSettled : (url : String) (connect : Connect State) → IsSettled (init url connect none)
  unfolding init
  init-IsSettled url connect = elim (Bool-cases (url == "")) [
    | inl unset ↦ rw unset refl
    | inr set ↦ rw set (with_pool-IsSettled (connect url))
  ]
