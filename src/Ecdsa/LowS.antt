-- ===== src/Ecdsa/LowS.antt =====
-- What SignDigest returns, and the interface that the transactions use.
use sigryx.Base.{
  ℕ, zero, suc, ◌%◌, ◌≡◌, refl, Bool, true, false, not, Option, none, some, ◌==◌, length,
  Bool-cases, inl, inr, arith,
}
use sigryx.Base.Bytes.{Bytes, to_number}
use sigryx.Base.Outcome.{Outcome, ok, err}
use sigryx.Scalar.{valid_private_key}
use sigryx.Scalar.Modular.{curve_n}
use sigryx.Signature.{Signature}
use sigryx.Ecdsa.{
  Rfc6979, SignError, try_nonce, Round, done, again, no_nonce, after_try, after_next, go_on, next,
  new_rfc6979, sign_loop, sign_digest, verify_digest_with_recovery_id,
}
use sigryx.Ecdsa.Scalars.{IsLow, try_nonce-IsLow}
use sigryx.Transaction.{Signer, IsSigner}

abbrev pub returned : {A : Type 0} → Outcome SignError A → Option A
returned (ok a) = some a
returned (err e) = none

returned_lem : {A : Type 0} (o : Outcome SignError A) {a : A} → returned o ≡ some a → o ≡ ok a
returned_lem (ok a) h = cc
returned_lem (err e) h = cc

module _ (hmac : Bytes → Bytes → Bytes) where
  pub after_try_done :
      (o : Option Signature) (g : Rfc6979) (sig : Signature)
      → after_try hmac o g ≡ done sig
      → o ≡ some sig
  unfolding after_try
  after_try_done none g sig h = cc
  after_try_done (some s) g sig h = cc

  after_next_done :
      (d z : ℕ) (o : Option (ℕ × Rfc6979)) (sig : Signature)
      → after_next hmac d z o ≡ done sig
      → IsLow sig
  unfolding after_next
  after_next_done d z none sig h = cc
  after_next_done d z (some (k, g)) sig h =
      try_nonce-IsLow d z k sig (after_try_done (try_nonce d z k) g sig h)

  -- What holds of the signature of a round holds of the loop's.
  pub go_on_holds :
      (P : Signature → Type 0) (round : Round) (rounds : Rfc6979 → Outcome SignError Signature)
      (sig : Signature)
      → ((s : Signature) → round ≡ done s → P s)
      → ((g : Rfc6979) → rounds g ≡ ok sig → P sig)
      → go_on hmac round rounds ≡ ok sig
      → P sig
  go_on_holds P (done s) rounds sig h k e = h sig (cc e)
  go_on_holds P (again g) rounds sig h k e = k g e
  go_on_holds P no_nonce rounds sig h k e = cc

  sign_loop-IsLow :
      (nonces fuel d z : ℕ) (g : Rfc6979) (sig : Signature)
      → sign_loop hmac nonces fuel d z g ≡ ok sig
      → IsLow sig
  unfolding sign_loop
  sign_loop-IsLow nonces zero d z g sig h = cc
  sign_loop-IsLow nonces (suc fuel) d z g sig h =
      go_on_holds IsLow (after_next hmac d z (next hmac nonces g)) (sign_loop hmac nonces fuel d z)
        sig (λ s e. after_next_done d z (next hmac nonces g) s e)
        (λ g' e. sign_loop-IsLow nonces fuel d z g' sig e) h

  thirty_two : (n : ℕ) → not (n == 32) ≡ false → n ≡ 32
  thirty_two n h = ground (arith, h)

  kept : (b : Bool) → not b ≡ false → b ≡ true
  kept true h = refl
  kept false h = cc

  -- If SignDigest returns a signature, then the private key is valid and the digest is 32 bytes long,
  -- and the signature is two valid scalars, the second at most half the order, and a parity of 0 or 1.
  pub sign_digest-IsLow :
      (nonces fuel : ℕ) (private_key digest : Bytes) (sig : Signature)
      → sign_digest hmac nonces fuel private_key digest ≡ ok sig
      → (valid_private_key private_key ≡ true) × (length digest ≡ 32) × IsLow sig
  unfolding sign_digest
  sign_digest-IsLow nonces fuel private_key digest sig h =
      elim (Bool-cases (not (valid_private_key private_key))) [
        | inl e ↦ absurd (cc (rw e at h))
        | inr e ↦ elim (Bool-cases (not (length digest == 32))) [
          | inl f ↦ absurd (cc (rw (e, f) at h))
          | inr f ↦ (
            kept (valid_private_key private_key) e,
            thirty_two (length digest) f,
            sign_loop-IsLow nonces fuel (to_number private_key) (to_number digest % curve_n)
                (new_rfc6979 hmac private_key digest) sig (rw (e, f) at h),
          )
        ]
      ]

  -- pkg/hdwallet as the transactions use it
  abbrev pub hdwallet_signer : ℕ → ℕ → Signer
  hdwallet_signer nonces fuel = record {
    sign_digest = λ private_key digest. returned (sign_digest hmac nonces fuel private_key digest);
    verify_digest_with_recovery_id = verify_digest_with_recovery_id;
  }

  -- Whatever the MAC and the fuel are, SignDigest and VerifyDigestWithRecoveryID of pkg/hdwallet are an
  -- implementation of the interface that the transactions use: each signature has valid scalars
  -- made of bytes and a parity of 0 or 1.
  pub hdwallet_signer-IsSigner : (nonces fuel : ℕ) → IsSigner (hdwallet_signer nonces fuel)
  hdwallet_signer-IsSigner nonces fuel = record {
    sign_digest-IsValid = λ private_key digest sig h.
        (sign_digest-IsLow nonces fuel private_key digest sig (returned_lem _ h)).2.valid;
    sign_digest-AreBytes = λ private_key digest sig h.
        let low = (sign_digest-IsLow nonces fuel private_key digest sig (returned_lem _ h)).2 in
        (low.r_bytes, low.s_bytes);
    sign_digest-recovery_id = λ private_key digest sig h.
        (sign_digest-IsLow nonces fuel private_key digest sig (returned_lem _ h)).2.parity;
  }
