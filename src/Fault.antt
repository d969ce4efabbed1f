-- ===== src/Fault.antt =====
-- The errors of pkg/securemem, pkg/secretstore, pkg/cryptox and of the seal service with its
-- repository. An error that wraps another one is the one that `errors.Is` finds in it.
pub data Fault : Type 0 where
  -- pkg/securemem/errors.go
  empty_secret invalid_size destroyed sodium_initialization allocation memory_lock
        memory_protection :
      Fault
  -- pkg/secretstore/errors.go
  invalid_unseal_key_count invalid_unseal_slot invalid_unseal_key_size duplicate_unseal_slot
        nil_secret nil_callback vault_already_unsealed vault_sealed invalid_key_root_id
        key_root_seed_exists key_root_seed_not_found unseal_configuration_locked :
      Fault
  -- `missing unseal key slot: %d`, which wraps nothing
  missing_unseal_key_slot : Fault
  -- pkg/cryptox/aead.go; the last three are errors of crypto/rand and of the cipher
  invalid_key_size malformed_sealed_payload unsupported_payload_version random_source cipher_refused
        open_failed :
      Fault
  -- internal/core/service/seal.go
  invalid_key_count not_initialized invalid_credential corrupted_unseal_slot : Fault
  -- any error of WalletAdapter.Derive
  derivation_failed : Fault
  -- internal/core/port/out/unseal_key_slot.go, and any other error of the database
  already_initialized unseal_key_slot_not_found database : Fault
