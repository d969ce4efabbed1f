-- ===== src/Wallet/Service.antt =====
-- WalletService.Create of internal/core/service/wallet.go, with withKeyRootSeed of key_root_seed.go.
use sigryx.Base.{ℕ, Bool, not, some, [], ◌++◌, eqb, if◌then◌else◌}
use sigryx.Base.Bytes.{Bytes}
use sigryx.Base.Outcome.{Outcome, ok, err, and_then}
use sigryx.Base.Text.{codes}
use sigryx.Fault.{Fault}
use sigryx.SecureMem.{Sodium, Memory, Pointer, new}
use sigryx.Cryptox.{Crypto, open_payload}
use sigryx.SecretStore.{
  Store, is_unsealed, with_key_root_seed, with_vault_encryption_key, store_key_root_seed,
  with_memory,
}
use sigryx.Wallet.{
  WalletError, fault, invalid_wallet_user_id, invalid_key_root_id, unsupported_wallet_type,
  wallet_scheme_mismatch, wallet_not_found, wallet_already_exists, Wallet, KeyRoot, DerivedWallet,
  WalletAdapter, Wallets, get_by_user, get_key_root, next_index, create_row,
}

-- What the service calls outside of the repositories. `new_id` stands for idgen.New.
pub record Outside : Type 0 where
  pub sodium : Sodium
  pub crypto : Crypto
  pub database_up : ℕ → Bool
  pub new_id : ℕ → Bytes

-- portin.CreateWalletInput
pub record CreateWalletInput : Type 0 where
  pub user_id : Bytes
  pub key_root_id : Bytes
  pub wallet_type : Bytes

-- portin.WalletResult
pub record WalletResult : Type 0 where
  pub id : Bytes
  pub key_root_id : Bytes
  pub user_id : Bytes
  pub wallet_type : Bytes
  pub adapter : Bytes
  pub derivation_path : Bytes
  pub public_key : Bytes
  pub address : Bytes

-- walletResult
abbrev pub wallet_result : Wallet → Bytes → WalletResult
wallet_result wallet wallet_type = record {
  id = wallet.id;
  key_root_id = wallet.key_root_id;
  user_id = wallet.user_id;
  wallet_type = wallet_type;
  adapter = wallet.adapter;
  derivation_path = wallet.derivation_path;
  public_key = wallet.public_key;
  address = wallet.address;
}

-- keyRootAAD
abbrev pub key_root_aad : Bytes → Bytes → Bytes
key_root_aad id scheme = codes "sigryx:key-root:v1:" ++ (id ++ (codes ":" ++ scheme))

-- What withKeyRootSeed gives with the callback of Create
abbrev pub Answer : Type 0
Answer = Outcome Fault DerivedWallet × Store

module _ (out : Outside) (adapter : WalletAdapter) where
  -- The callback of Create: it assigns what it derives.
  abbrev pub derive_at : ℕ → Bytes → Memory → Outcome Fault DerivedWallet × Memory
  derive_at index seed m = (adapter.derive seed index, m)

  -- The last line of withKeyRootSeed, behind StoreKeyRootSeed
  unfoldable pub after_store : Bytes → ℕ → Outcome Fault (Unit {0}) → Store → Answer
  unfolding with_key_root_seed
  after_store id index (ok _) s = with_key_root_seed out.sodium id (some (derive_at index)) s
  after_store id index (err Fault.key_root_seed_exists) s =
      with_key_root_seed out.sodium id (some (derive_at index)) s
  after_store id index (err e) s = (err e, s)

  -- withKeyRootSeed from securemem.New on
  unfoldable pub cache_seed : Bytes → ℕ → Outcome Fault Pointer × Memory → Store → Answer
  unfolding after_store store_key_root_seed
  cache_seed id index (err e, m) s = (err e, with_memory m s)
  cache_seed id index (ok seed, m) s =
      let (stored, s') = store_key_root_seed id (some seed) (with_memory m s) in
      after_store id index stored s'

  -- withKeyRootSeed behind the vault key
  unfoldable pub open_seed : Bytes → ℕ → Outcome Fault Bytes × Store → Answer
  unfolding cache_seed new
  open_seed id index (err e, s) = (err e, s)
  open_seed id index (ok plaintext, s) = cache_seed id index (new out.sodium plaintext s.memory) s

  -- withKeyRootSeed: only ErrKeyRootSeedNotFound goes on.
  unfoldable pub after_cached : KeyRoot → ℕ → Answer → Answer
  unfolding open_seed with_vault_encryption_key open_payload
  after_cached root index (err Fault.key_root_seed_not_found, s) = open_seed root.id index (
      with_vault_encryption_key out.sodium
        (some (λ key m. (
          open_payload out.crypto key root.sealed_seed
              (key_root_aad root.id root.derivation_scheme),
          m,
        )))
        s)
  after_cached root index answer = answer

  abbrev pub joined : Outcome Fault DerivedWallet → Outcome WalletError DerivedWallet
  joined (ok derived) = ok derived
  joined (err e) = err (fault e)

  -- withKeyRootSeed with the callback of Create
  unfoldable pub derive_wallet : KeyRoot → ℕ → Wallets → Outcome WalletError DerivedWallet × Wallets
  unfolding after_cached with_key_root_seed
  derive_wallet root index w =
      let (answer, s) =
        after_cached root index
          (with_key_root_seed out.sodium root.id (some (derive_at index)) w.secrets) in
      (joined answer, record w { secrets = s })

  -- The end of Create, where the database has a wallet of the user by now
  unfoldable pub reload :
      CreateWalletInput
      → Outcome WalletError Wallet × Wallets
      → Outcome WalletError WalletResult × Wallets
  reload input (ok existing, w) = (ok (wallet_result existing input.wallet_type), w)
  reload input (err wallet_not_found, w) = (err wallet_already_exists, w)
  reload input (err e, w) = (err e, w)

  unfoldable pub after_row :
      CreateWalletInput
      → KeyRoot
      → Wallet
      → Outcome WalletError (Unit {0}) × Wallets
      → Outcome WalletError WalletResult × Wallets
  unfolding reload get_by_user
  after_row input root wallet (ok _, w) = (ok (wallet_result wallet input.wallet_type), w)
  after_row input root wallet (err wallet_already_exists, w) =
      reload input (get_by_user out.database_up root.id adapter.name input.user_id w)
  after_row input root wallet (err e, w) = (err e, w)

  -- The row that Create writes
  abbrev pub new_wallet : CreateWalletInput → KeyRoot → DerivedWallet → Bytes → Wallet
  new_wallet input root derived id = record {
    id = id;
    key_root_id = root.id;
    user_id = input.user_id;
    adapter = adapter.name;
    derivation_path = derived.derivation_path;
    public_key = derived.public_key;
    address = derived.address;
  }

  unfoldable pub create_with_root :
      CreateWalletInput → KeyRoot → Wallets → Outcome WalletError WalletResult × Wallets
  unfolding derive_wallet next_index create_row after_row
  create_with_root input root w =
      if not (eqb root.derivation_scheme adapter.derivation_scheme)
      then (err wallet_scheme_mismatch, w)
      else and_then (next_index out.database_up root.id adapter.name w) (λ index w1.
        and_then (derive_wallet root index w1) (λ derived w2.
          let wallet = new_wallet input root derived (out.new_id w2.queries) in
          after_row input root wallet (create_row out.database_up wallet w2)))

  -- Create behind the first lookup
  unfoldable pub after_lookup :
      CreateWalletInput
      → Outcome WalletError Wallet × Wallets
      → Outcome WalletError WalletResult × Wallets
  unfolding create_with_root get_key_root
  after_lookup input (ok wallet, w) = (ok (wallet_result wallet input.wallet_type), w)
  after_lookup input (err wallet_not_found, w) =
      if not (is_unsealed w.secrets)
      then (err (fault Fault.vault_sealed), w)
      else and_then (get_key_root out.database_up input.key_root_id w)
          (λ root w1. create_with_root input root w1)
  after_lookup input (err e, w) = (err e, w)

  -- WalletService.Create
  unfoldable pub create : CreateWalletInput → Wallets → Outcome WalletError WalletResult × Wallets
  unfolding after_lookup get_by_user
  create input w =
      if eqb input.user_id []
      then (err invalid_wallet_user_id, w)
      else if eqb input.key_root_id []
      then (err invalid_key_root_id, w)
      else if not (eqb input.wallet_type adapter.wallet_type)
      then (err unsupported_wallet_type, w)
      else after_lookup input
          (get_by_user out.database_up input.key_root_id adapter.name input.user_id w)
