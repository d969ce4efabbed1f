-- ===== src/Cryptox.antt =====
-- pkg/cryptox: RandomKey, and the sealed payload `version || nonce || ciphertext+tag`. AES-256-GCM and
-- crypto/rand are parameters. The random source answers by the number of calls made before, for which
-- the counter of the secret memory serves, since Seal runs in a callback on that memory.
pub mod Payload
pub mod Tests
use sigryx.Base.{
  ℕ, ◌+◌, Bool, true, false, not, Option, none, some, List, [], ◌∷◌, ◌++◌, ltb, ◌==◌, if◌then◌else◌,
  length, take, drop,
}
use sigryx.Base.Bytes.{Bytes}
use sigryx.Base.Outcome.{Outcome, ok, err}
use sigryx.Fault.{
  Fault, invalid_key_size, malformed_sealed_payload, unsupported_payload_version, random_source,
  cipher_refused, open_failed,
}
use sigryx.SecureMem.{Memory, called}

-- crypto/rand and crypto/cipher
pub record Crypto : Type 0 where
  -- rand.Read into a slice of the given length
  pub read : ℕ → ℕ → Option Bytes
  -- whether aes.NewCipher and cipher.NewGCM accept a key
  pub accepts : Bytes → Bool
  -- gcm.NonceSize() and gcm.Overhead()
  pub nonce_size : ℕ
  pub overhead : ℕ
  -- gcm.Seal and gcm.Open, on a key, a nonce, a text and associated data
  pub gcm_seal : Bytes → Bytes → Bytes → Bytes → Bytes
  pub gcm_open : Bytes → Bytes → Bytes → Bytes → Option Bytes

abbrev pub key_size : ℕ
key_size = 32

abbrev pub sealed_payload_version : ℕ
sealed_payload_version = 1

module _ (crypto : Crypto) where
  -- rand.Read
  unfoldable pub random_bytes : ℕ → Memory → Outcome Fault Bytes × Memory
  random_bytes n m = elim (crypto.read m.calls n) [
    | none ↦ (err random_source, called 1 m)
    | some bytes ↦ (ok bytes, called 1 m)
  ]

  -- RandomKey
  unfoldable pub random_key : Memory → Outcome Fault Bytes × Memory
  unfolding random_bytes
  random_key m = random_bytes key_size m

  -- newGCM: the error, if there is one
  unfoldable pub new_gcm : Bytes → Option Fault
  new_gcm key =
      if not (length key == key_size)
      then some invalid_key_size
      else if not (crypto.accepts key)
      then some cipher_refused
      else none

  -- Seal behind the draw of the nonce
  unfoldable pub seal_with :
      Bytes → Bytes → Bytes → Outcome Fault Bytes × Memory → Outcome Fault Bytes × Memory
  seal_with key plaintext aad (ok nonce, m) =
      (ok (sealed_payload_version ∷ (nonce ++ crypto.gcm_seal key nonce plaintext aad)), m)
  seal_with key plaintext aad (err e, m) = (err e, m)

  -- Seal
  unfoldable pub seal_payload : Bytes → Bytes → Bytes → Memory → Outcome Fault Bytes × Memory
  unfolding new_gcm seal_with random_bytes
  seal_payload key plaintext aad m = elim (new_gcm key) [
    | some e ↦ (err e, m)
    | none ↦ seal_with key plaintext aad (random_bytes crypto.nonce_size m)
  ]

  -- The decryption that ends Open
  unfoldable pub decrypt : Bytes → Bytes → Bytes → Outcome Fault Bytes
  decrypt key body aad =
      elim (crypto.gcm_open key (take crypto.nonce_size body) (drop crypto.nonce_size body) aad) [
        | none ↦ err open_failed
        | some plaintext ↦ ok plaintext
      ]

  -- Open behind the test of the length: the version, then the nonce and the ciphertext
  unfoldable pub open_body : Bytes → Bytes → Bytes → Outcome Fault Bytes
  unfolding decrypt
  open_body key [] aad = err malformed_sealed_payload
  open_body key (version ∷ body) aad =
      if not (version == sealed_payload_version)
      then err unsupported_payload_version
      else decrypt key body aad

  -- Open
  unfoldable pub open_payload : Bytes → Bytes → Bytes → Outcome Fault Bytes
  unfolding new_gcm open_body
  open_payload key payload aad = elim (new_gcm key) [
    | some e ↦ err e
    | none ↦
        if ltb (length payload) (1 + crypto.nonce_size + crypto.overhead)
        then err malformed_sealed_payload
        else open_body key payload aad
  ]
