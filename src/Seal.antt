-- ===== src/Seal.antt =====
-- internal/core/service/seal.go: SealService over its repository of unseal key slots and the secret
-- store. The table of the repository is part of the state, and a call of the database fails where the
-- parameter `database` says so, by the number of calls made before; a call that fails changes nothing
-- (CreateInitial is one transaction). An `int` that the code requires to be at least 1 is a number,
-- where 0 stands for all that is less. Wiping a slice that nothing reads again is left out.
pub mod Submit
pub mod Credentials
pub mod Unseal
pub mod Consistent
pub mod Requests
pub mod Tests
use sigryx.Base.{
  ℕ, zero, suc, ◌+◌, ◌≡◌, Bool, true, false, not, ◌||◌, ◌&&◌, Option, none, some, List, [], ◌∷◌,
  ◌++◌, ltb, ◌==◌, eqb, if◌then◌else◌, length,
}
use sigryx.Base.Bytes.{Bytes}
use sigryx.Base.Text.{codes}
use sigryx.Base.Outcome.{Outcome, ok, err, and_then, ◌>>=◌}
use sigryx.Fault
use sigryx.Fault.{Fault}
use sigryx.SecureMem.{Sodium, Memory, Pointer, random, destroy, with_bytes}
use sigryx.Cryptox.{Crypto, key_size, random_key, seal_payload, open_payload}
use sigryx.SecretStore.{
  Store, UnsealProgress, Submission, configure_unseal_key_count, submit_unseal_key, progress,
  is_unsealed, clear, with_memory,
}

-- What the service calls outside of the repository.
pub record Outside : Type 0 where
  pub sodium : Sodium
  pub sha256 : Bytes → Bytes
  pub crypto : Crypto
  pub database : ℕ → Bool
  -- fmt's `%d`
  pub decimal : ℕ → Bytes

-- domain.UnsealKeySlot
pub record UnsealKeySlot : Type 0 where
  pub id : ℕ
  pub wrapped_key : Bytes
  pub server_key_material : Bytes

-- domain.UnsealCredential, with the fields of its payload
pub record UnsealCredential : Type 0 where
  pub slot_id : ℕ
  pub wrapped_key : Bytes
  pub owner_secret : Bytes

-- domain.SealState
pub data SealState : Type 0 where
  uninitialized sealed unsealed : SealState
  -- the zero value, in a status beside an error
  no_state : SealState

-- portin.SealStatus
pub record SealStatus : Type 0 where
  pub state : SealState
  pub submitted : ℕ
  pub required : ℕ

-- What the service and its repository keep.
pub record Vault : Type 0 where
  pub slots : List UnsealKeySlot
  pub queries : ℕ
  pub secrets : Store

-- unsealAAD
unfoldable pub unseal_aad : (ℕ → Bytes) → ℕ → Bytes
unseal_aad decimal id = codes "sigryx:unseal-key:v1:" ++ decimal id

-- sealState
abbrev pub seal_state : Bool → SealState
seal_state unlocked = if unlocked then unsealed else sealed

-- statusFromCount
unfoldable pub status_from_count : ℕ → Store → SealStatus
status_from_count count s =
    if count == 0
    then record { state = uninitialized; submitted = 0; required = 0 }
    else if is_unsealed s
    then record { state = unsealed; submitted = count; required = count }
    else record { state = sealed; submitted = (progress s).submitted; required = count }

abbrev pub queried : Vault → Vault
queried w = record w { queries = w.queries + 1 }

abbrev pub with_secrets : Store → Vault → Vault
with_secrets s w = record w { secrets = s }

-- ent's lookup by primary key
unfoldable pub find_slot : ℕ → List UnsealKeySlot → Option UnsealKeySlot
find_slot id [] = none
find_slot id (slot ∷ slots) = if slot.id == id then some slot else find_slot id slots

module _ (out : Outside) where
  -- UnsealKeySlotRepository.Count
  unfoldable pub count : Vault → Outcome Fault ℕ × Vault
  count w = (if out.database w.queries then ok (length w.slots) else err Fault.database, queried w)

  -- UnsealKeySlotRepository.GetByID
  unfoldable pub get_by_id : ℕ → Vault → Outcome Fault UnsealKeySlot × Vault
  unfolding find_slot
  get_by_id id w =
      if out.database w.queries
      then elim (find_slot id w.slots) [
        | none ↦ (err Fault.unseal_key_slot_not_found, queried w)
        | some slot ↦ (ok slot, queried w)
      ]
      else (err Fault.database, queried w)

  -- UnsealKeySlotRepository.CreateInitial on new slots, as the one transaction it is
  unfoldable pub create_initial : List UnsealKeySlot → Vault → Outcome Fault (Unit {0}) × Vault
  create_initial [] w = (ok tt, w)
  create_initial (slot ∷ slots) w =
      if not (out.database w.queries)
      then (err Fault.database, queried w)
      else if not (length w.slots == 0)
      then (err Fault.already_initialized, queried w)
      else (ok tt, queried (record w { slots = slot ∷ slots }))

  -- deriveUnsealWrappingKey
  unfoldable pub derive_unseal_wrapping_key : Bytes → Bytes → Bytes
  derive_unseal_wrapping_key owner_secret server_key_material =
      out.sha256 (owner_secret ++ server_key_material)

  -- the slot and the credential that generateUnsealKeySlot returns
  abbrev pub issued : ℕ → Bytes → Bytes → Bytes → UnsealKeySlot × UnsealCredential
  issued id owner_secret server_key_material wrapped = (
    record { id = id; wrapped_key = wrapped; server_key_material = server_key_material },
    record { slot_id = id; wrapped_key = wrapped; owner_secret = owner_secret },
  )

  -- generateUnsealKeySlot behind securemem.Random; `realUnsealKey.Destroy()` is deferred
  unfoldable pub wrap_real_key :
      ℕ
      → Bytes
      → Bytes
      → Pointer
      → Memory
      → Outcome Fault (UnsealKeySlot × UnsealCredential) × Memory
  unfolding derive_unseal_wrapping_key unseal_aad
  wrap_real_key id owner_secret server_key_material real m =
      let key = derive_unseal_wrapping_key owner_secret server_key_material in
      let fn : Bytes → Memory → Outcome Fault Bytes × Memory =
        λ real_key m'. seal_payload out.crypto key real_key (unseal_aad out.decimal id) m' in
      let (r, m') = with_bytes out.sodium real fn m in
      (r >>= λ wrapped. ok (issued id owner_secret server_key_material wrapped), destroy real m')

  -- generateUnsealKeySlot
  unfoldable pub generate_unseal_key_slot :
      ℕ → Memory → Outcome Fault (UnsealKeySlot × UnsealCredential) × Memory
  unfolding wrap_real_key
  generate_unseal_key_slot id m = and_then (random_key out.crypto m) (λ owner_secret m1.
      and_then (random_key out.crypto m1) (λ server_key_material m2.
        and_then (random out.sodium key_size m2)
          (wrap_real_key id owner_secret server_key_material)))

  -- The loop of Initialize, with the number of rounds that are left
  unfoldable pub generate_slots :
      ℕ → ℕ → Memory → Outcome Fault (List UnsealKeySlot × List UnsealCredential) × Memory
  unfolding generate_unseal_key_slot
  generate_slots zero id m = (ok ([], []), m)
  generate_slots (suc n) id m = and_then (generate_unseal_key_slot id m) (λ one m1.
      and_then (generate_slots n (id + 1) m1)
        (λ more m2. (ok (one.0 ∷ more.0, one.1 ∷ more.1), m2)))

  -- Initialize behind the loop
  unfoldable pub persist :
      Vault
      → Outcome Fault (List UnsealKeySlot × List UnsealCredential) × Memory
      → Outcome Fault (List UnsealCredential) × Vault
  unfolding create_initial
  persist w (err e, m) = (err e, with_secrets (with_memory m w.secrets) w)
  persist w (ok (slots, credentials), m) =
      and_then (create_initial slots (with_secrets (with_memory m w.secrets) w))
        (λ done w'. (ok credentials, w'))

  -- Initialize, with `maxUnsealKeys`
  unfoldable pub initialize : ℕ → ℕ → Vault → Outcome Fault (List UnsealCredential) × Vault
  unfolding count generate_slots persist
  initialize max_unseal_keys n w =
      if (n == 0) || (ltb 0 max_unseal_keys && ltb max_unseal_keys n)
      then (err Fault.invalid_key_count, w)
      else and_then (count w) (λ found w1.
        if not (found == 0)
        then (err Fault.already_initialized, w1)
        else persist w1 (generate_slots n 1 w1.secrets.memory))

  -- Status
  unfoldable pub status : Vault → Outcome Fault SealStatus × Vault
  unfolding count status_from_count
  status w = and_then (count w) (λ found w1. (ok (status_from_count found w1.secrets), w1))

  -- Seal
  unfoldable pub seal_vault : Vault → Outcome Fault (Unit {0}) × Vault
  unfolding count
  seal_vault w = and_then (count w) (λ found w1.
      if found == 0
      then (err Fault.not_initialized, w1)
      else (ok tt, with_secrets (clear w1.secrets) w1))
