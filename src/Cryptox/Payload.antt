-- ===== src/Cryptox/Payload.antt =====
-- Sealed payloads: what Seal writes Open reads, and what Open accepts.
use sigryx.Base.{
  ℕ, ◌+◌, ◌≤◌, ◌≡◌, ap, sym, ◌∙◌, true, none, some, [], ◌∷◌, ◌++◌, arith, length, take, drop,
  take-append, drop-append, take-append-drop, length-take, length-drop, length-append,
}
use sigryx.Base.Bytes.{Bytes}
use sigryx.Base.Outcome.{ok}
use sigryx.SecureMem.{Memory, called}
use sigryx.Cryptox.{Crypto, new_gcm, seal_payload, open_payload, random_bytes}

-- What the documentation of crypto/cipher and crypto/rand promises, where the random source works.
pub record IsSound (crypto : Crypto) : Type 0 where
  pub reads :
      (n size : ℕ) → (bytes : Bytes) × (crypto.read n size ≡ some bytes) × (length bytes ≡ size)
  pub accepts : (key : Bytes) → length key ≡ 32 → crypto.accepts key ≡ true
  pub sized :
      (key nonce plaintext aad : Bytes)
      → length (crypto.gcm_seal key nonce plaintext aad) ≡ length plaintext + crypto.overhead
  pub opens :
      (key nonce plaintext aad : Bytes)
      → length nonce ≡ crypto.nonce_size
      → crypto.gcm_open key nonce (crypto.gcm_seal key nonce plaintext aad) aad ≡ some plaintext

module _ (crypto : Crypto) (sound : IsSound crypto) where
  new_gcm-accepts : (key : Bytes) → length key ≡ 32 → new_gcm crypto key ≡ none
  unfolding new_gcm
  new_gcm-accepts key size = ground (arith, sound.accepts key size)

  pub random_bytes_lem :
      (n : ℕ) (m : Memory)
      → (bytes : Bytes) × (random_bytes crypto n m ≡ (ok bytes, called 1 m)) × (length bytes ≡ n)
  unfolding random_bytes
  random_bytes_lem n m =
      let (bytes, e, size) = sound.reads m.calls n in (bytes, ground (arith, e), size)

  open_payload-text :
      (key nonce plaintext aad : Bytes)
      → length key ≡ 32
      → length nonce ≡ crypto.nonce_size
      → open_payload crypto key (1 ∷ (nonce ++ crypto.gcm_seal key nonce plaintext aad)) aad
        ≡ ok plaintext
  unfolding open_payload
  open_payload-text key nonce plaintext aad size fits =
      let text = crypto.gcm_seal key nonce plaintext aad in
      let front : take crypto.nonce_size (nonce ++ text) ≡ nonce =
        take-append crypto.nonce_size nonce text (sym fits) in
      let back : drop crypto.nonce_size (nonce ++ text) ≡ text =
        drop-append crypto.nonce_size nonce text (sym fits) in
      ground (
        arith,
        new_gcm-accepts key size,
        length-append nonce text,
        sound.sized key nonce plaintext aad,
        front,
        back,
        sound.opens key nonce plaintext aad fits,
      )

  -- Where crypto/rand and AES-GCM keep what they document, Seal with a key of 32 bytes succeeds with one
  -- draw, its payload is as long as the version, the nonce, the plaintext and the tag, and Open with the
  -- same key and data returns the plaintext.
  pub open_payload-seal_payload :
      (key plaintext aad : Bytes) (m : Memory)
      → length key ≡ 32
      → (payload : Bytes) × (seal_payload crypto key plaintext aad m ≡ (ok payload, called 1 m))
        × (length payload ≡ 1 + crypto.nonce_size + length plaintext + crypto.overhead)
        × (open_payload crypto key payload aad ≡ ok plaintext)
  unfolding seal_payload
  open_payload-seal_payload key plaintext aad m size =
      let (nonce, drawn, fits) = random_bytes_lem crypto.nonce_size m in
      let text = crypto.gcm_seal key nonce plaintext aad in
      let accepted = new_gcm-accepts key size in
      (
        1 ∷ (nonce ++ text),
        ground (arith, accepted, drawn),
        omega (arith, length-append nonce text, sound.sized key nonce plaintext aad),
        open_payload-text key nonce plaintext aad size fits,
      )

module _ (crypto : Crypto) where
  -- If Open returns a plaintext, then the key has 32 bytes, and the payload is the version 1 followed by
  -- a nonce of the size of the cipher and a ciphertext of at least the tag, which the cipher opens to
  -- that plaintext.
  pub open_ok :
      (key payload aad plaintext : Bytes)
      → open_payload crypto key payload aad ≡ ok plaintext
      → (length key ≡ 32)
        × ((nonce : Bytes) × (text : Bytes) × (payload ≡ 1 ∷ (nonce ++ text))
            × (length nonce ≡ crypto.nonce_size)
            × (crypto.overhead ≤ length text)
            × (crypto.gcm_open key nonce text aad ≡ some plaintext))
  unfolding open_payload
  open_ok key [] aad plaintext h = ground (arith, h)
  open_ok key (version ∷ body) aad plaintext h =
      let long : crypto.nonce_size + crypto.overhead ≤ length body = ground (arith, h) in
      let one : version ≡ 1 = ground (arith, h) in
      (
        ground (arith, h),
        (
          take crypto.nonce_size body,
          drop crypto.nonce_size body,
          ap (λ v. v ∷ body) one ∙ ap (λ l. 1 ∷ l) (sym (take-append-drop crypto.nonce_size body)),
          length-take crypto.nonce_size body ∙ omega arith,
          omega (arith, length-drop crypto.nonce_size body),
          ground (arith, h),
        ),
      )
