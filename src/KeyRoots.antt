-- ===== src/KeyRoots.antt =====
-- KeyRootService of internal/core/service/key_root.go, with WalletType.DerivationScheme of
-- internal/core/domain/key_root.go, Generate of pkg/hdseed and the repository of
-- internal/adapter/out/persistence/postgres/key_root_repository.go. The tables are the state of Wallet.antt.
pub mod Rollback
pub mod Tests
use sigryx.Base.{
  ℕ, ◌+◌, Bool, true, false, not, ◌||◌, Option, none, some, List, [], ◌∷◌, map, eqb, if◌then◌else◌,
}
use sigryx.Base.Bytes.{Bytes}
use sigryx.Base.Outcome.{Outcome, ok, err, and_then}
use sigryx.Base.Text.{codes}
use sigryx.Fault
use sigryx.Fault.{Fault}
use sigryx.SecureMem.{Sodium, Memory, Pointer, random, destroy, with_bytes}
use sigryx.Cryptox.{Crypto, seal_payload}
use sigryx.SecretStore.{
  Store, is_unsealed, with_vault_encryption_key, store_key_root_seed, remove_key_root_seed,
  with_memory,
}
use sigryx.Wallet.{KeyRoot, Wallets, queried}
use sigryx.Wallet.Service.{Outside, key_root_aad}

pub data KeyRootError : Type 0 where
  fault : Fault → KeyRootError
  -- internal/core/service/key_root.go, internal/core/port/out, and any other error of the database
  unsupported_wallet_type key_root_already_exists database : KeyRootError

-- portin.KeyRootResult
pub record KeyRootResult : Type 0 where
  pub id : Bytes
  pub derivation_scheme : Bytes

-- portin.CreateKeyRootResult
pub record CreateKeyRootResult : Type 0 where
  pub id : Bytes
  pub wallet_type : Bytes
  pub derivation_scheme : Bytes

-- WalletType.DerivationScheme
unfoldable pub scheme_of : Bytes → Option Bytes
scheme_of wallet_type =
    if eqb wallet_type (codes "ETHEREUM") then some (codes "BIP32_SECP256K1") else none

-- Whether a row with the identifier is in the table
unfoldable pub has_key_root : Bytes → List KeyRoot → Bool
has_key_root id [] = false
has_key_root id (root ∷ roots) = eqb root.id id || has_key_root id roots

abbrev pub seed_size : ℕ
seed_size = 32

abbrev pub with_secrets : Store → Wallets → Wallets
with_secrets s w = record w { secrets = s }

abbrev pub key_root_result : KeyRoot → KeyRootResult
key_root_result root = record { id = root.id; derivation_scheme = root.derivation_scheme }

module _ (out : Outside) where
  -- KeyRootRepository.Create. The check that a sealed seed has bytes is left out: a payload begins with
  -- its version.
  unfoldable pub insert_key_root : KeyRoot → Wallets → Outcome KeyRootError (Unit {0}) × Wallets
  unfolding has_key_root
  insert_key_root root w =
      if not (out.database_up w.queries)
      then (err database, queried w)
      else if has_key_root root.id w.key_roots
      then (err key_root_already_exists, queried w)
      else (ok tt, record (queried w) { key_roots = root ∷ w.key_roots })

  -- KeyRootRepository.GetAll
  unfoldable pub list_key_roots : Wallets → Outcome KeyRootError (List KeyRoot) × Wallets
  list_key_roots w =
      if not (out.database_up w.queries)
      then (err database, queried w)
      else (ok (map (λ (root : KeyRoot). record root { sealed_seed = [] }) w.key_roots), queried w)

  -- KeyRootService.GetAll
  unfoldable pub get_all : Wallets → Outcome KeyRootError (List KeyRootResult) × Wallets
  unfolding list_key_roots
  get_all w = and_then (list_key_roots w) (λ roots w'. (ok (map key_root_result roots), w'))

  -- Generate of pkg/hdseed
  abbrev pub generate : Memory → Outcome Fault Pointer × Memory
  generate m = random out.sodium seed_size m

  -- The callback of WithVaultEncryptionKey
  abbrev pub seal_seed : Pointer → Bytes → Bytes → Memory → Outcome Fault Bytes × Memory
  seal_seed seed aad vault_key m =
      with_bytes out.sodium seed
        (λ master_seed m'. seal_payload out.crypto vault_key master_seed aad m') m

  -- The end of Create: the runtime copy is rolled back when the row was not written.
  unfoldable pub persisted :
      Bytes
      → KeyRoot
      → Outcome KeyRootError (Unit {0}) × Wallets
      → Outcome KeyRootError CreateKeyRootResult × Wallets
  unfolding remove_key_root_seed
  persisted wallet_type root (ok _, w) = (
    ok (record {
      id = root.id;
      wallet_type = wallet_type;
      derivation_scheme = root.derivation_scheme;
    }),
    w,
  )
  persisted wallet_type root (err e, w) =
      (err e, with_secrets (remove_key_root_seed root.id w.secrets) w)

  -- Create behind StoreKeyRootSeed. On its error the deferred call destroys the seed.
  unfoldable pub cached :
      Bytes
      → KeyRoot
      → Pointer
      → Outcome Fault (Unit {0}) × Store
      → Wallets
      → Outcome KeyRootError CreateKeyRootResult × Wallets
  unfolding persisted insert_key_root
  cached wallet_type root seed (ok _, s) w =
      persisted wallet_type root (insert_key_root root (with_secrets s w))
  cached wallet_type root seed (err e, s) w =
      (err (fault e), with_secrets (with_memory (destroy seed s.memory) s) w)

  -- Create behind the seal of the seed
  unfoldable pub sealed_as :
      Bytes
      → Bytes
      → Bytes
      → Pointer
      → Outcome Fault Bytes × Store
      → Wallets
      → Outcome KeyRootError CreateKeyRootResult × Wallets
  unfolding cached store_key_root_seed
  sealed_as wallet_type scheme id seed (ok sealed, s) w =
      let root : KeyRoot = record { id = id; derivation_scheme = scheme; sealed_seed = sealed } in
      cached wallet_type root seed (store_key_root_seed id (some seed) s) w
  sealed_as wallet_type scheme id seed (err e, s) w =
      (err (fault e), with_secrets (with_memory (destroy seed s.memory) s) w)

  -- Create behind Generate
  unfoldable pub seeded :
      Bytes
      → Bytes
      → Bytes
      → Outcome Fault Pointer × Memory
      → Wallets
      → Outcome KeyRootError CreateKeyRootResult × Wallets
  unfolding sealed_as with_vault_encryption_key
  seeded wallet_type scheme id (ok seed, m) w =
      sealed_as wallet_type scheme id seed
        (with_vault_encryption_key out.sodium (some (seal_seed seed (key_root_aad id scheme)))
          (with_memory m w.secrets))
        w
  seeded wallet_type scheme id (err e, m) w =
      (err (fault e), with_secrets (with_memory m w.secrets) w)

  -- Create, where the wallet type has a derivation scheme
  unfoldable pub create_for :
      Bytes → Bytes → Wallets → Outcome KeyRootError CreateKeyRootResult × Wallets
  unfolding seeded random
  create_for wallet_type scheme w =
      if not (is_unsealed w.secrets)
      then (err (fault Fault.vault_sealed), w)
      else seeded wallet_type scheme (out.new_id w.queries) (generate w.secrets.memory) w

  -- KeyRootService.Create
  unfoldable pub create_key_root :
      Bytes → Wallets → Outcome KeyRootError CreateKeyRootResult × Wallets
  unfolding create_for scheme_of
  create_key_root wallet_type w = elim (scheme_of wallet_type) [
    | none ↦ (err unsupported_wallet_type, w)
    | some scheme ↦ create_for wallet_type scheme w
  ]
