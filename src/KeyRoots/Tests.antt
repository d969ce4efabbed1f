-- ===== src/KeyRoots/Tests.antt =====
-- A key root that is made on an open vault, and one that the database refuses.
use sigryx.Base.{◌≡◌, refl, false, [], ◌∷◌}
use sigryx.Base.Outcome.{ok, err}
use sigryx.Base.Text.{codes}
use sigryx.Fault
use sigryx.SecureMem.{with_bytes}
use sigryx.Cryptox.{seal_payload}
use sigryx.SecretStore.{find_seed, delete_seed, use_secret, is_unsealed}
use sigryx.Wallet.{Wallets}
use sigryx.Wallet.Tests.{out, start}
use sigryx.KeyRoots.{CreateKeyRootResult, fault, database, unsupported_wallet_type, create_key_root}
use sigryx.KeyRoots.Rollback.{Transacted, create_key_root-Transacted}

abbrev made : CreateKeyRootResult
made = record {
  id = codes "wallet";
  wallet_type = codes "ETHEREUM";
  derivation_scheme = codes "BIP32_SECP256K1";
}

unfoldable behind : Wallets
unfolding create_key_root
behind = (create_key_root out (codes "ETHEREUM") start).1

create_key_root-made : create_key_root out (codes "ETHEREUM") start ≡ (ok made, behind)
unfolding create_key_root behind is_unsealed use_secret with_bytes seal_payload find_seed
create_key_root-made = refl

cached_seed : behind.secrets.key_root_seeds ≡ (codes "wallet", 1) ∷ []
unfolding behind is_unsealed use_secret with_bytes seal_payload find_seed
cached_seed = refl

-- The same identifier twice
second_time :
    (create_key_root out (codes "ETHEREUM") behind).0 ≡ err (fault Fault.key_root_seed_exists)
unfolding create_key_root behind is_unsealed use_secret with_bytes seal_payload find_seed
second_time = refl

create-no_database :
    (create_key_root (record out { database_up = λ n. false }) (codes "ETHEREUM") start).0
    ≡ err database
unfolding create_key_root is_unsealed use_secret with_bytes seal_payload find_seed
create-no_database = refl

rolled_back :
    (create_key_root
      (record out { database_up = λ n. false })
      (codes "ETHEREUM")
      start).1.secrets.key_root_seeds
    ≡ []
unfolding create_key_root is_unsealed use_secret with_bytes seal_payload find_seed delete_seed
rolled_back = refl

other_type : (create_key_root out (codes "BITCOIN") start).0 ≡ err unsupported_wallet_type
unfolding create_key_root
other_type = refl

create_key_root-Transacted_example : Transacted start (create_key_root out (codes "ETHEREUM") start)
create_key_root-Transacted_example = create_key_root-Transacted out (codes "ETHEREUM") start
