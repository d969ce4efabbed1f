-- ===== src/Wallet.antt =====
-- internal/core/service/wallet.go and key_root_seed.go, over internal/adapter/out/persistence/postgres/
-- wallet_repository.go and the adapter of internal/adapter/out/blockchain/ethereum/adapter.go. The tables are part of
-- the state, and a call of the database fails where the parameter `database` says so, by the number of
-- calls made before. A statement is one step.
pub mod Service
pub mod Index
pub mod Unique
pub mod Created
pub mod Tests
use sigryx.Base.{
  ℕ, zero, suc, ◌+◌, ◌^◌, ◌%◌, Bool, true, false, not, ◌&&◌, ◌||◌, Option, none, some, List, [],
  ◌∷◌, ◌++◌, ltb, ◌==◌, eqb, if◌then◌else◌,
}
use sigryx.Base.Bytes.{Bytes}
use sigryx.Base.Outcome.{Outcome, ok, err, ◌>>=◌}
use sigryx.Base.Text.{codes}
use sigryx.Fault
use sigryx.Fault.{Fault}
use sigryx.SecretStore.{Store}
use sigryx.Derivation.{bip44, print_path}
use sigryx.HdKey.{HdError, derive_private_key}
use sigryx.HdKey
use sigryx.Curve.{uncompressed_public_key}
use sigryx.Address.{ethereum_address}

pub data WalletError : Type 0 where
  fault : Fault → WalletError
  -- internal/core/service/wallet.go
  invalid_wallet_user_id invalid_key_root_id unsupported_wallet_type wallet_scheme_mismatch :
      WalletError
  -- internal/core/port/out, and any other error of the database
  wallet_not_found wallet_already_exists derivation_index_exhausted key_root_not_found database :
      WalletError

-- domain.Wallet
pub record Wallet : Type 0 where
  pub id : Bytes
  pub key_root_id : Bytes
  pub user_id : Bytes
  pub adapter : Bytes
  pub derivation_path : Bytes
  pub public_key : Bytes
  pub address : Bytes

-- domain.KeyRoot
pub record KeyRoot : Type 0 where
  pub id : Bytes
  pub derivation_scheme : Bytes
  pub sealed_seed : Bytes

-- portout.DerivedWallet
pub record DerivedWallet : Type 0 where
  pub derivation_path : Bytes
  pub public_key : Bytes
  pub address : Bytes

-- portout.WalletAdapter
pub record WalletAdapter : Type 0 where
  pub name : Bytes
  pub wallet_type : Bytes
  pub derivation_scheme : Bytes
  pub derive : Bytes → ℕ → Outcome Fault DerivedWallet

-- A row of wallet_counters
pub record WalletCounter : Type 0 where
  pub key_root_id : Bytes
  pub adapter : Bytes
  pub next_index : ℕ

-- The tables, the number of calls, and the secret store of the process
pub record Wallets : Type 0 where
  pub rows : List Wallet
  pub counters : List WalletCounter
  pub key_roots : List KeyRoot
  pub queries : ℕ
  pub secrets : Store

abbrev pub queried : Wallets → Wallets
queried w = record w { queries = w.queries + 1 }

-- `WHERE key_root_id = $1 AND adapter = $2 AND user_id = $3`
abbrev pub of_user : Bytes → Bytes → Bytes → Wallet → Bool
of_user root adapter user row =
    eqb row.key_root_id root && (eqb row.adapter adapter && eqb row.user_id user)

unfoldable pub find_wallet : (Wallet → Bool) → List Wallet → Outcome WalletError Wallet
find_wallet test [] = err wallet_not_found
find_wallet test (row ∷ rows) = if test row then ok row else find_wallet test rows

unfoldable pub find_key_root : Bytes → List KeyRoot → Outcome WalletError KeyRoot
find_key_root id [] = err key_root_not_found
find_key_root id (root ∷ roots) = if eqb root.id id then ok root else find_key_root id roots

-- Whether one of the unique indexes refuses a new row beside another one
abbrev pub conflicts : Wallet → Wallet → Bool
conflicts new row =
    eqb row.id new.id
    || ((eqb row.adapter new.adapter && eqb row.address new.address)
        || ((eqb row.key_root_id new.key_root_id
              && (eqb row.adapter new.adapter && eqb row.derivation_path new.derivation_path))
            || of_user new.key_root_id new.adapter new.user_id row))

unfoldable pub refused_by : Wallet → List Wallet → Bool
refused_by new [] = false
refused_by new (row ∷ rows) = conflicts new row || refused_by new rows

abbrev pub counts_for : Bytes → Bytes → WalletCounter → Bool
counts_for root adapter counter = eqb counter.key_root_id root && eqb counter.adapter adapter

-- The statement of NextIndex: the index that it returns, if it returns a row, and the table behind it
unfoldable pub advance_counter : Bytes → Bytes → List WalletCounter → Option ℕ × List WalletCounter
advance_counter root adapter [] =
    (some 0, record { key_root_id = root; adapter = adapter; next_index = 1 } ∷ [])
advance_counter root adapter (counter ∷ counters) =
    let (index, rest) = advance_counter root adapter counters in
    if counts_for root adapter counter
    then (if ltb counter.next_index (2 ^ 31)
        then (
          some counter.next_index,
          record counter { next_index = counter.next_index + 1 } ∷ counters,
        )
        else (none, counter ∷ counters))
    else (index, counter ∷ rest)

-- `errors.Is(err, pgx.ErrNoRows)` and `uint32(index)`
abbrev pub allocated : Wallets → Option ℕ × List WalletCounter → Outcome WalletError ℕ × Wallets
allocated w (none, counters) = (err derivation_index_exhausted, queried w)
allocated w (some index, counters) =
    (ok (index % 2 ^ 32), record (queried w) { counters = counters })

module _ (database_up : ℕ → Bool) where
  -- WalletRepository.GetByUser
  unfoldable pub get_by_user :
      Bytes → Bytes → Bytes → Wallets → Outcome WalletError Wallet × Wallets
  unfolding find_wallet
  get_by_user root adapter user w =
      if database_up w.queries
      then (find_wallet (of_user root adapter user) w.rows, queried w)
      else (err database, queried w)

  -- WalletRepository.GetByID
  unfoldable pub get_by_id : Bytes → Wallets → Outcome WalletError Wallet × Wallets
  unfolding find_wallet
  get_by_id id w =
      if database_up w.queries
      then (find_wallet (λ row. eqb row.id id) w.rows, queried w)
      else (err database, queried w)

  -- KeyRootRepository.GetByID
  unfoldable pub get_key_root : Bytes → Wallets → Outcome WalletError KeyRoot × Wallets
  unfolding find_key_root
  get_key_root id w =
      if database_up w.queries
      then (find_key_root id w.key_roots, queried w)
      else (err database, queried w)

  -- WalletRepository.NextIndex
  unfoldable pub next_index : Bytes → Bytes → Wallets → Outcome WalletError ℕ × Wallets
  unfolding advance_counter
  next_index root adapter w =
      if database_up w.queries
      then allocated w (advance_counter root adapter w.counters)
      else (err database, queried w)

  -- WalletRepository.Create
  unfoldable pub create_row : Wallet → Wallets → Outcome WalletError (Unit {0}) × Wallets
  unfolding refused_by
  create_row wallet w =
      if not (database_up w.queries)
      then (err database, queried w)
      else if refused_by wallet w.rows
      then (err wallet_already_exists, queried w)
      else (ok tt, queried (record w { rows = wallet ∷ w.rows }))

-- The callback of Adapter.Derive on the private key
abbrev pub public_parts : Bytes → Outcome HdError (Bytes × Bytes)
public_parts private_key = elim (uncompressed_public_key private_key) [
  | none ↦ err HdKey.invalid_private_key
  | some public_key ↦ ok (public_key, ethereum_address public_key)
]

abbrev pub as_wallet : Bytes → Outcome HdError (Bytes × Bytes) → Outcome Fault DerivedWallet
as_wallet path (err e) = err Fault.derivation_failed
as_wallet path (ok (public_key, address)) =
    ok (record { derivation_path = path; public_key = public_key; address = address })

-- Adapter.Derive
unfoldable pub derive_evm :
    (Bytes → Bytes → Bytes) → (ℕ → Bytes) → Bytes → ℕ → Outcome Fault DerivedWallet
unfolding bip44 print_path derive_private_key uncompressed_public_key ethereum_address
derive_evm hmac decimal seed index = elim (bip44 60 0 0 index) [
  | none ↦ err Fault.derivation_failed
  | some path ↦
      as_wallet (print_path (λ text. none) decimal path)
        (derive_private_key hmac seed path (some public_parts))
]

-- Adapter
unfoldable pub evm_adapter : (Bytes → Bytes → Bytes) → (ℕ → Bytes) → WalletAdapter
unfolding derive_evm
evm_adapter hmac decimal = record {
  name = codes "evm";
  wallet_type = codes "ETHEREUM";
  derivation_scheme = codes "BIP32_SECP256K1";
  derive = derive_evm hmac decimal;
}
