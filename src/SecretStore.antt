-- ===== src/SecretStore.antt =====
-- pkg/secretstore/store.go: the in-memory secrets of a vault. A method holds the mutex of the store
-- while it reads and writes the fields, and destroys what it took out of them behind that: it is one
-- step here, on the store together with the memory of the secrets. An `int` that the code requires
-- to be at least 1 is a number, where 0 stands for all that is less.
pub mod Slots
pub mod Invariant
pub mod Calls
pub mod Threshold
pub mod Cleanup
pub mod Order
pub mod Tests
use sigryx.Base.{
  ℕ, suc, ◌+◌, ◌≡◌, Bool, true, false, not, ◌||◌, Option, none, some, List, [], ◌∷◌, ◌++◌, ltb,
  ◌==◌, eqb, if◌then◌else◌, length, get_elem?, set, drop, take, replicate, map,
}
use sigryx.Base.Bytes.{Bytes}
use sigryx.Base.Outcome.{Outcome, ok, err, and_then}
use sigryx.Fault
use sigryx.Fault.{Fault}
use sigryx.SecureMem.{Sodium, Memory, Pointer, destroy, size, new, with_bytes}

-- UnsealKeySize, sha256.Size
abbrev pub unseal_key_size : ℕ
unseal_key_size = 32

-- UnsealProgress
pub record UnsealProgress : Type 0 where
  pub submitted : ℕ
  pub required : ℕ
  pub unsealed : Bool

-- The struct `Store`, with the memory that its pointers point into.
pub record Store : Type 0 where
  pub required_unseal_keys : ℕ
  pub submitted_unseal_keys : ℕ
  pub unseal_keys : List (Option Pointer)
  pub vault_encryption_key : Option Pointer
  pub key_root_seeds : List (Bytes × Pointer)
  pub memory : Memory

-- New
unfoldable pub new_store : Memory → Store
new_store m = record {
  required_unseal_keys = 0;
  submitted_unseal_keys = 0;
  unseal_keys = [];
  vault_encryption_key = none;
  key_root_seeds = [];
  memory = m;
}

abbrev pub is_some : {A : Type 0} → Option A → Bool
is_some none = false
is_some (some a) = true

-- progressLocked, Progress
unfoldable pub progress : Store → UnsealProgress
progress s = elim s.vault_encryption_key [
  | some key ↦ record {
    submitted = s.required_unseal_keys;
    required = s.required_unseal_keys;
    unsealed = true;
  }
  | none ↦ record {
    submitted = s.submitted_unseal_keys;
    required = s.required_unseal_keys;
    unsealed = false;
  }
]

-- IsUnsealed
unfoldable pub is_unsealed : Store → Bool
is_unsealed s = is_some s.vault_encryption_key

-- ConfigureUnsealKeyCount
unfoldable pub configure_unseal_key_count : ℕ → Store → Outcome Fault (Unit {0}) × Store
configure_unseal_key_count required s =
    if required == 0
    then (err Fault.invalid_unseal_key_count, s)
    else if s.required_unseal_keys == required
    then (ok tt, s)
    else if ltb 0 s.required_unseal_keys
        || (ltb 0 s.submitted_unseal_keys || is_some s.vault_encryption_key)
    then (err Fault.unseal_configuration_locked, s)
    else (
      ok tt,
      record s { required_unseal_keys = required; unseal_keys = replicate (suc required) none },
    )

-- takeUnsealKeysLocked, without the keys that it returns
unfoldable pub take_unseal_keys : Store → Store
take_unseal_keys s = record s {
  unseal_keys = replicate (suc s.required_unseal_keys) none;
  submitted_unseal_keys = 0;
}

-- destroySecrets
unfoldable pub destroy_secrets : List (Option Pointer) → Memory → Memory
destroy_secrets [] m = m
destroy_secrets (none ∷ ps) m = destroy_secrets ps m
destroy_secrets (some p ∷ ps) m = destroy_secrets ps (destroy p m)

abbrev pub with_memory : Memory → Store → Store
with_memory m s = record s { memory = m }

-- What a call of SubmitUnsealKey returns.
abbrev pub Submission : Type 0
Submission = (UnsealProgress × Option Fault) × Store

-- `key.Destroy(); return progress, err`
abbrev refuse_key : Fault → Pointer → Store → Submission
refuse_key e key s = ((progress s, some e), with_memory (destroy key s.memory) s)

-- the map lookup `s.keyRootSeeds[rootID]`
unfoldable pub find_seed : Bytes → List (Bytes × Pointer) → Option Pointer
find_seed id [] = none
find_seed id ((j, p) ∷ seeds) = if eqb j id then some p else find_seed id seeds

-- `delete(s.keyRootSeeds, rootID)`
unfoldable pub delete_seed : Bytes → List (Bytes × Pointer) → List (Bytes × Pointer)
delete_seed id [] = []
delete_seed id ((j, p) ∷ seeds) =
    let rest = delete_seed id seeds in if eqb j id then rest else (j, p) ∷ rest

-- The key in a place of the table.
abbrev pub place_key : Option (Option Pointer) → Option Pointer
place_key none = none
place_key (some key) = key

-- `s.unsealKeys[slot]`
abbrev pub key_in_slot : ℕ → Store → Option Pointer
key_in_slot slot s = place_key (get_elem? s.unseal_keys slot)

-- ResetUnsealAttempt
unfoldable pub reset_unseal_attempt : Store → Outcome Fault (Unit {0}) × Store
unfolding take_unseal_keys
reset_unseal_attempt s =
    if is_some s.vault_encryption_key
    then (err Fault.vault_already_unsealed, s)
    else (ok tt, with_memory (destroy_secrets s.unseal_keys s.memory) (take_unseal_keys s))

-- Clear
unfoldable pub clear : Store → Store
unfolding take_unseal_keys
clear s =
    let cleared = record (take_unseal_keys s) {
      vault_encryption_key = none;
      key_root_seeds = [];
    } in
    let seeds = map (λ (e : Bytes × Pointer). some e.1) s.key_root_seeds in
    with_memory
      (destroy_secrets (s.vault_encryption_key ∷ [])
        (destroy_secrets seeds (destroy_secrets s.unseal_keys s.memory)))
      cleared

-- StoreKeyRootSeed
unfoldable pub store_key_root_seed :
    Bytes → Option Pointer → Store → Outcome Fault (Unit {0}) × Store
store_key_root_seed id none s = (err Fault.nil_secret, s)
store_key_root_seed id (some seed) s =
    let refused = with_memory (destroy seed s.memory) s in
    if eqb id []
    then (err Fault.invalid_key_root_id, refused)
    else if not (is_some s.vault_encryption_key)
    then (err Fault.vault_sealed, refused)
    else if is_some (find_seed id s.key_root_seeds)
    then (err Fault.key_root_seed_exists, refused)
    else (ok tt, record s { key_root_seeds = (id, seed) ∷ s.key_root_seeds })

-- RemoveKeyRootSeed
unfoldable pub remove_key_root_seed : Bytes → Store → Store
remove_key_root_seed id s = if eqb id [] then s else record s {
  key_root_seeds = delete_seed id s.key_root_seeds;
  memory = destroy_secrets (find_seed id s.key_root_seeds ∷ []) s.memory;
}

module _ (sodium : Sodium) (sha256 : Bytes → Bytes) where
  -- The loop of deriveVaultEncryptionKeyLocked, on the places 1 to `requiredUnsealKeys`
  unfoldable pub hash_keys : List (Option Pointer) → Bytes → Memory → Outcome Fault Bytes × Memory
  hash_keys [] written m = (ok written, m)
  hash_keys (none ∷ keys) written m = (err Fault.missing_unseal_key_slot, m)
  hash_keys (some p ∷ keys) written m =
      and_then (with_bytes sodium p (λ bytes m'. (ok (written ++ bytes), m')) m) (hash_keys keys)

  -- deriveVaultEncryptionKeyLocked
  unfoldable pub derive_vault_encryption_key : Store → Outcome Fault Pointer × Memory
  unfolding hash_keys
  derive_vault_encryption_key s =
      and_then (hash_keys (take s.required_unseal_keys (drop 1 s.unseal_keys)) [] s.memory)
        (λ written m. new sodium (sha256 written) m)

  -- What SubmitUnsealKey does with the derived key, or with the error.
  unfoldable pub finish_submit : Store → Outcome Fault Pointer × Memory → Submission
  unfolding take_unseal_keys
  finish_submit s (ok key, m) =
      let taken = take_unseal_keys (record s { vault_encryption_key = some key; memory = m }) in
      ((progress taken, none), with_memory (destroy_secrets s.unseal_keys m) taken)
  finish_submit s (err e, m) =
      let taken = take_unseal_keys (with_memory m s) in
      ((progress taken, some e), with_memory (destroy_secrets s.unseal_keys m) taken)

  -- SubmitUnsealKey behind its guards
  unfoldable pub accept_key : ℕ → Pointer → Store → Submission
  unfolding derive_vault_encryption_key finish_submit
  accept_key slot key s =
      let filled = record s {
        unseal_keys = set s.unseal_keys slot (some key);
        submitted_unseal_keys = s.submitted_unseal_keys + 1;
      } in
      if ltb filled.submitted_unseal_keys filled.required_unseal_keys
      then ((progress filled, none), filled)
      else finish_submit filled (derive_vault_encryption_key filled)

  -- SubmitUnsealKey
  unfoldable pub submit_unseal_key : ℕ → Option Pointer → Store → Submission
  unfolding accept_key
  submit_unseal_key slot none s = ((progress s, some Fault.nil_secret), s)
  submit_unseal_key slot (some key) s =
      if not (size key s.memory == unseal_key_size)
      then refuse_key Fault.invalid_unseal_key_size key s
      else if (slot == 0) || ltb s.required_unseal_keys slot
      then refuse_key Fault.invalid_unseal_slot key s
      else if is_some s.vault_encryption_key
      then refuse_key Fault.vault_already_unsealed key s
      else if is_some (key_in_slot slot s)
      then refuse_key Fault.duplicate_unseal_slot key s
      else accept_key slot key s

module _ (sodium : Sodium) where
  -- `if key == nil { return err }` and `key.WithBytes(fn)`. The callback may use the memory; the store
  -- is not locked meanwhile.
  unfoldable pub use_secret :
      {A : Type 0}
      → Fault
      → Option Pointer
      → (Bytes → Memory → Outcome Fault A × Memory)
      → Store
      → Outcome Fault A × Store
  use_secret missing none fn s = (err missing, s)
  use_secret missing (some p) fn s =
      let (r, m) = with_bytes sodium p fn s.memory in (r, with_memory m s)

  -- WithVaultEncryptionKey
  unfoldable pub with_vault_encryption_key :
      {A : Type 0}
      → Option (Bytes → Memory → Outcome Fault A × Memory)
      → Store
      → Outcome Fault A × Store
  with_vault_encryption_key none s = (err Fault.nil_callback, s)
  with_vault_encryption_key (some fn) s = use_secret Fault.vault_sealed s.vault_encryption_key fn s

  -- WithKeyRootSeed
  unfoldable pub with_key_root_seed :
      {A : Type 0}
      → Bytes
      → Option (Bytes → Memory → Outcome Fault A × Memory)
      → Store
      → Outcome Fault A × Store
  with_key_root_seed id none s =
      (err (if eqb id [] then Fault.invalid_key_root_id else Fault.nil_callback), s)
  with_key_root_seed id (some fn) s =
      if eqb id []
      then (err Fault.invalid_key_root_id, s)
      else if not (is_some s.vault_encryption_key)
      then (err Fault.vault_sealed, s)
      else use_secret Fault.key_root_seed_not_found (find_seed id s.key_root_seeds) fn s
