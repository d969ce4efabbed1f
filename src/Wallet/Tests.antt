-- ===== src/Wallet/Tests.antt =====
-- A wallet that is made on an open vault from a sealed seed, with a MAC that always gives the number 2.
use sigryx.Base.{
  ◌^◌, ◌%◌, ◌<◌, ◌≡◌, refl, true, false, none, some, List, [], ◌∷◌, ◌++◌, All, replicate, take,
  drop, eqb, if◌then◌else◌,
}
use sigryx.Base.Bytes.{Bytes}
use sigryx.Base.Outcome.{Outcome, ok, err}
use sigryx.Base.Text.{codes}
use sigryx.Fault
use sigryx.SecureMem.{Sodium, with_bytes}
use sigryx.Cryptox.{Crypto}
use sigryx.SecretStore.{Store, is_unsealed, use_secret, find_seed}
use sigryx.Wallet.{
  WalletError, fault, derivation_index_exhausted, WalletAdapter, KeyRoot, Wallets, queried,
  evm_adapter, next_index,
}
use sigryx.Wallet.Service.{Outside, CreateWalletInput, WalletResult, create}
use sigryx.Wallet.Created.{Stored, create_again}
use sigryx.Wallet.Unique.{Handed, hand_out, Distinct, hand_out-Distinct}

abbrev sodium : Sodium
sodium = record {
  init = true;
  malloc = λ n. true;
  mlock = λ n. true;
  noaccess = λ n. true;
  readonly = λ n. true;
  randombytes = λ call n. replicate n call;
}

abbrev checksum : Bytes → Bytes
checksum [] = replicate 16 0
checksum (b ∷ bs) = replicate 16 b

abbrev crypto : Crypto
crypto = record {
  read = λ n size. some (replicate size (n % 256));
  accepts = λ key. true;
  nonce_size = 12;
  overhead = 16;
  gcm_seal = λ key nonce text aad. checksum key ++ text;
  gcm_open =
      λ key nonce text aad. if eqb (take 16 text) (checksum key) then some (drop 16 text) else none;
}

abbrev pub out : Outside
out = record {
  sodium = sodium;
  crypto = crypto;
  database_up = λ n. true;
  new_id = λ n. codes "wallet";
}

unfoldable constant_mac : Bytes → Bytes → Bytes
constant_mac key message = replicate 31 0 ++ (2 ∷ replicate 32 0)

-- Numbers in base 1, as no path with 60 in it is read back here
unfoldable adapter : WalletAdapter
unfolding constant_mac evm_adapter
adapter = evm_adapter constant_mac (λ n. replicate n 49)

-- The first secret is the key of the vault.
abbrev secrets : Store
secrets = record {
  required_unseal_keys = 1;
  submitted_unseal_keys = 0;
  unseal_keys = [];
  vault_encryption_key = some 0;
  key_root_seeds = [];
  memory = record {
    secrets = record { region = some (replicate 32 7); is_destroyed = false } ∷ [];
    calls = 0;
  };
}

abbrev root : KeyRoot
root = record {
  id = codes "root";
  derivation_scheme = codes "BIP32_SECP256K1";
  sealed_seed = 1 ∷ (replicate 12 3 ++ (replicate 16 7 ++ replicate 16 5));
}

abbrev pub start : Wallets
start = record { rows = []; counters = []; key_roots = root ∷ []; queries = 0; secrets = secrets }

abbrev input : CreateWalletInput
input = record {
  user_id = codes "user";
  key_root_id = codes "root";
  wallet_type = codes "ETHEREUM";
}

abbrev no_result : WalletResult
no_result = record {
  id = [];
  key_root_id = [];
  user_id = [];
  wallet_type = [];
  adapter = [];
  derivation_path = [];
  public_key = [];
  address = [];
}

abbrev result_of : Outcome WalletError WalletResult → WalletResult
result_of (ok result) = result
result_of (err e) = no_result

unfoldable made : WalletResult
unfolding create adapter
made = result_of (create out adapter input start).0

unfoldable behind : Wallets
unfolding create adapter
behind = (create out adapter input start).1

create-made : create out adapter input start ≡ (ok made, behind)
unfolding create made behind is_unsealed use_secret find_seed with_bytes
create-made = refl

calls_behind : behind.queries ≡ 4
unfolding behind is_unsealed use_secret find_seed with_bytes
calls_behind = refl

sealed_vault :
    (create out adapter input
      (record start { secrets = record secrets { vault_encryption_key = none } })).0
    ≡ err (fault Fault.vault_sealed)
unfolding create adapter is_unsealed
sealed_vault = refl

last_index :
    (next_index
      (λ n. true)
      []
      []
      (record start {
        counters = record { key_root_id = []; adapter = []; next_index = 2 ^ 31 } ∷ [];
      })).0
    ≡ err derivation_index_exhausted
unfolding next_index
last_index = refl

up_behind : out.database_up behind.queries ≡ true
up_behind = refl

create_again_example :
    Stored out adapter input made behind
    × (create out adapter input behind ≡ (ok made, queried behind))
create_again_example = create_again out adapter input start behind made create-made up_behind

abbrev calls : List (Bytes × Bytes)
calls = (codes "a", codes "evm") ∷ (codes "b", codes "evm") ∷ (codes "a", codes "evm") ∷ []

hand_out-calls :
    hand_out (λ n. true) calls start
    ≡ record { root = codes "a"; adapter = codes "evm"; index = 0 }
      ∷ record { root = codes "b"; adapter = codes "evm"; index = 0 }
      ∷ record { root = codes "a"; adapter = codes "evm"; index = 1 }
      ∷ []
unfolding hand_out
hand_out-calls = refl

hand_out-Distinct_example :
    Distinct (hand_out (λ n. true) calls start)
    × All (λ (x : Handed). x.index < 2 ^ 31) (hand_out (λ n. true) calls start)
hand_out-Distinct_example = hand_out-Distinct (λ n. true) calls start
