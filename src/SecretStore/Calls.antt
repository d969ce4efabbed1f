-- ===== src/SecretStore/Calls.antt =====
-- Any sequence of calls on a store, with what callers do to the memory between them.
use sigryx.Base.{ℕ, Option, none, some, List, [], ◌∷◌, arith}
use sigryx.Base.Bytes.{Bytes}
use sigryx.Base.Outcome.{Outcome}
use sigryx.Fault.{Fault}
use sigryx.SecureMem.{Sodium, Memory, Pointer, new, random, destroy}
use sigryx.SecretStore.{
  Store, new_store, configure_unseal_key_count, with_memory, reset_unseal_attempt, clear,
  store_key_root_seed, remove_key_root_seed, submit_unseal_key, find_seed,
  with_vault_encryption_key, with_key_root_seed,
}
use sigryx.SecretStore.Invariant.{
  IsValid, new_store-IsValid, memory-IsValid, configure-IsValid, submit-IsValid, reset-IsValid,
  use_secret-IsValid, clear-IsValid, store_seed-IsValid, remove_seed-IsValid,
}

-- A callback; what it hands to its caller does not matter here.
abbrev pub Callback : Type 0
Callback = Bytes → Memory → Outcome Fault (Unit {0}) × Memory

pub data Call : Type 0 where
  configure : ℕ → Call
  submit : ℕ → Option Pointer → Call
  reset : Call
  clear_all : Call
  store_seed : Bytes → Option Pointer → Call
  remove_seed : Bytes → Call
  use_vault_key : Option Callback → Call
  use_seed : Bytes → Option Callback → Call
  -- securemem.New, securemem.Random and Destroy, which the callers use on their own secrets
  new_secret : Bytes → Call
  random_secret : ℕ → Call
  destroy_secret : Pointer → Call

module _ (sodium : Sodium) (sha256 : Bytes → Bytes) where
  unfoldable pub run : Call → Store → Store
  run (configure n) s = (configure_unseal_key_count n s).1
  run (submit slot key) s = (submit_unseal_key sodium sha256 slot key s).1
  run reset s = (reset_unseal_attempt s).1
  run clear_all s = clear s
  run (store_seed id seed) s = (store_key_root_seed id seed s).1
  run (remove_seed id) s = remove_key_root_seed id s
  run (use_vault_key fn) s = (with_vault_encryption_key sodium fn s).1
  run (use_seed id fn) s = (with_key_root_seed sodium id fn s).1
  run (new_secret bytes) s = with_memory (new sodium bytes s.memory).1 s
  run (random_secret n) s = with_memory (random sodium n s.memory).1 s
  run (destroy_secret p) s = with_memory (destroy p s.memory) s

  unfoldable pub run_all : List Call → Store → Store
  unfolding run
  run_all [] s = s
  run_all (call ∷ calls) s = run_all calls (run call s)

  use_vault_key-IsValid :
      (fn : Option Callback) (s : Store)
      → IsValid s
      → IsValid (with_vault_encryption_key sodium fn s).1
  unfolding with_vault_encryption_key
  use_vault_key-IsValid none s v = v
  use_vault_key-IsValid (some fn) s v = use_secret-IsValid sodium _ s.vault_encryption_key fn s v

  use_seed-IsValid :
      (id : Bytes) (fn : Option Callback) (s : Store)
      → IsValid s
      → IsValid (with_key_root_seed sodium id fn s).1
  unfolding with_key_root_seed
  use_seed-IsValid id none s v = v
  use_seed-IsValid id (some fn) s v = ground (
    arith,
    v,
    use_secret-IsValid sodium Fault.key_root_seed_not_found (find_seed id s.key_root_seeds) fn s v,
  )

  run-IsValid : (call : Call) (s : Store) → IsValid s → IsValid (run call s)
  unfolding run
  run-IsValid (configure n) s v = configure-IsValid n s v
  run-IsValid (submit slot key) s v = submit-IsValid sodium sha256 slot key s v
  run-IsValid reset s v = reset-IsValid s v
  run-IsValid clear_all s v = clear-IsValid s
  run-IsValid (store_seed id seed) s v = store_seed-IsValid id seed s v
  run-IsValid (remove_seed id) s v = remove_seed-IsValid id s v
  run-IsValid (use_vault_key fn) s v = use_vault_key-IsValid fn s v
  run-IsValid (use_seed id fn) s v = use_seed-IsValid id fn s v
  run-IsValid (new_secret bytes) s v = memory-IsValid (new sodium bytes s.memory).1 s v
  run-IsValid (random_secret n) s v = memory-IsValid (random sodium n s.memory).1 s v
  run-IsValid (destroy_secret p) s v = memory-IsValid (destroy p s.memory) s v

  run_all-keeps : (calls : List Call) (s : Store) → IsValid s → IsValid (run_all calls s)
  unfolding run_all
  run_all-keeps [] s v = v
  run_all-keeps (call ∷ calls) s v = run_all-keeps calls (run call s) (run-IsValid call s v)

  -- Whatever libsodium answers, the store is valid after any sequence of calls on a new store.
  pub run_all-IsValid : (calls : List Call) (m : Memory) → IsValid (run_all calls (new_store m))
  run_all-IsValid calls m = run_all-keeps calls (new_store m) (new_store-IsValid m)
