-- ===== src/Seal/Tests.antt =====
-- A vault of two keys, with a libsodium and a database that never fail and the cipher of the tests of
-- the payloads.
use sigryx.Base.{◌≡◌, refl, true, List, [], ◌∷◌, inl, inr, arith, length, length-replicate}
use sigryx.Base.Bytes.{Bytes}
use sigryx.Base.Outcome.{ok, err}
use sigryx.SecretStore.{new_store}
use sigryx.SecretStore.Invariant.{new_store-IsValid}
use sigryx.SecretStore.Order.AnyOrder.{VaultKey}
use sigryx.SecretStore.Tests.{sodium, hash, no_memory, sodium-IsReliable}
use sigryx.Cryptox.Tests.{toy, toy-IsSound}
use sigryx.Seal.{Outside, Vault, UnsealCredential, initialize, with_secrets}
use sigryx.Fault
use sigryx.Seal.Consistent.{Post, IsConsistent, Allowed, Initialized, Unchanged, initialize-Post}
use sigryx.Seal.Requests.{
  initialize_request, submit_request, seal_request, requests, requests-IsConsistent,
}
use sigryx.Seal.Credentials.{Works}
use sigryx.Seal.Unseal.{IsIdle, IsOrder, submit_credentials, initialize_unseals}

abbrev outside : Outside
outside = record {
  sodium = sodium;
  sha256 = hash;
  crypto = toy;
  database = λ n. true;
  decimal = λ n. n ∷ [];
}

outside-Works : Works outside
outside-Works = record {
  reliable = sodium-IsReliable;
  randoms = λ call n. length-replicate n call;
  crypto = toy-IsSound;
  digest = λ bytes. refl;
  queries = λ n. refl;
}

abbrev empty_vault : Vault
unfolding new_store
empty_vault = record { slots = []; queries = 0; secrets = new_store no_memory }

new_store-IsIdle : IsIdle 2 (new_store no_memory)
unfolding new_store
new_store-IsIdle = record {
  valid = new_store-IsValid no_memory;
  sealed = refl;
  none_submitted = refl;
  size = inl refl;
}

forwards-IsOrder : IsOrder 2 (1 ∷ 2 ∷ [])
forwards-IsOrder = record { complete = refl; apart = refl; inside = refl }

backwards-IsOrder : IsOrder 2 (2 ∷ 1 ∷ [])
backwards-IsOrder = record { complete = refl; apart = refl; inside = refl }

initialize_unseals_example :
    (credentials : List UnsealCredential) × (w' : Vault) × (key : Bytes) × (initialize outside 5 2
        empty_vault
      ≡ (ok credentials, w'))
    × (length credentials ≡ 2)
    × VaultKey key
        (submit_credentials outside credentials
          (1 ∷ 2 ∷ [])
          (with_secrets (new_store no_memory) w')).secrets
    × VaultKey key
        (submit_credentials outside credentials
          (2 ∷ 1 ∷ [])
          (with_secrets (new_store no_memory) w')).secrets
unfolding empty_vault
initialize_unseals_example =
    initialize_unseals outside outside-Works 5 2 empty_vault (1 ∷ 2 ∷ []) (2 ∷ 1 ∷ [])
      (new_store no_memory) (new_store no_memory) (omega arith) (inr (omega arith)) refl
      new_store-IsIdle new_store-IsIdle forwards-IsOrder backwards-IsOrder

empty_vault-IsConsistent : IsConsistent empty_vault
unfolding empty_vault
empty_vault-IsConsistent = record {
  valid = new_store-IsValid no_memory;
  numbered = tt;
  size = inl refl;
}

-- Initialize asked for more keys than are allowed
too_many : initialize outside 5 6 empty_vault ≡ (err Fault.invalid_key_count, empty_vault)
unfolding initialize empty_vault
too_many = refl

initialize-Post_example :
    Post
      (λ credentials w'. Allowed 5 2 × Initialized outside 2 empty_vault credentials w')
      (Unchanged outside empty_vault)
      (initialize outside 5 2 empty_vault)
initialize-Post_example = initialize-Post outside 5 2 empty_vault empty_vault-IsConsistent

requests-IsConsistent_example : IsConsistent (
    requests outside 5
      (initialize_request 2 ∷ submit_request 1 [] [] ∷ seal_request ∷ [])
      (record { slots = []; queries = 0; secrets = new_store no_memory }))
requests-IsConsistent_example =
    requests-IsConsistent outside 5
      (initialize_request 2 ∷ submit_request 1 [] [] ∷ seal_request ∷ []) 0 no_memory
