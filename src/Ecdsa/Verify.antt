-- ===== src/Ecdsa/Verify.antt =====
-- What the verifiers accept.
use sigryx.Base.{
  ℕ, ◌-◌, ◌<◌, ◌≤◌, ◌≡◌, refl, sym, ap, ◌∙◌, Bool, true, false, not, Option, none, some, ltb, ◌==◌,
  length, Bool-cases, inl, inr, arith, lt→ltb,
}
use sigryx.Base.Bytes.{Bytes, to_number}
use sigryx.Scalar.Modular.{curve_n}
use sigryx.Signature.{Signature, parse_compact_signature}
use sigryx.Curve.{CurvePoint, parse_public_key}
use sigryx.Ecdsa.{half_n, check_key, verify_signature, verify_parsed, verify_digest}

-- The second scalar is at most half the order.
abbrev pub LowScalar : Signature → Type 0
LowScalar sig = to_number sig.s ≤ half_n

check_key-high :
    (digest : Bytes) (sig : Signature) (b : Bool) (q : Option CurvePoint)
    → half_n < to_number sig.s
    → check_key digest sig b q ≡ false
unfolding check_key
check_key-high digest sig b none h = refl
check_key-high digest sig b (some q) h = rw (lt→ltb half_n (to_number sig.s) h) refl

verify_signature-high :
    (public_key digest : Bytes) (sig : Signature) (b : Bool)
    → half_n < to_number sig.s
    → verify_signature public_key digest sig b ≡ false
unfolding verify_signature
verify_signature-high public_key digest sig b h = elim (Bool-cases (not (length digest == 32))) [
  | inl e ↦ rw e refl
  | inr e ↦ rw e (check_key-high digest sig b (parse_public_key public_key) h)
]

not_high : (n m : ℕ) → ltb n m ≡ false → m ≤ n
not_high n m h = ground (arith, h)

thirty_two : (n : ℕ) → not (n == 32) ≡ false → n ≡ 32
thirty_two n h = ground (arith, h)

-- What a signature needs that verifySignature accepts.
pub record Checked (public_key digest : Bytes) (sig : Signature) : Type 0 where
  pub digest_size : length digest ≡ 32
  pub key : CurvePoint
  pub key_parsed : parse_public_key public_key ≡ some key
  pub low : LowScalar sig

check_key_lem :
    (digest : Bytes) (sig : Signature) (b : Bool) (q : Option CurvePoint)
    → check_key digest sig b q ≡ true
    → ((key : CurvePoint) × (q ≡ some key)) × LowScalar sig
unfolding check_key
check_key_lem digest sig b none h = cc
check_key_lem digest sig b (some q) h = elim (Bool-cases (ltb half_n (to_number sig.s))) [
  | inl e ↦ absurd (cc (rw e at h))
  | inr e ↦ ((q, refl), not_high half_n (to_number sig.s) e)
]

verify_signature-Checked :
    (public_key digest : Bytes) (sig : Signature) (b : Bool)
    → verify_signature public_key digest sig b ≡ true
    → Checked public_key digest sig
unfolding verify_signature
verify_signature-Checked public_key digest sig b h = elim (Bool-cases (not (length digest == 32))) [
  | inl e ↦ absurd (cc (rw e at h))
  | inr e ↦
      let ((key, parsed), low) =
        check_key_lem digest sig b (parse_public_key public_key) (rw e at h) in
      record {
        digest_size = thirty_two (length digest) e;
        key = key;
        key_parsed = parsed;
        low = low;
      }
]

verify_parsed-Checked :
    (public_key digest : Bytes) (b : Bool) (parsed : Option Signature)
    → verify_parsed public_key digest b parsed ≡ true
    → (sig : Signature) × (parsed ≡ some sig) × Checked public_key digest sig
unfolding verify_parsed
verify_parsed-Checked public_key digest b none h = cc
verify_parsed-Checked public_key digest b (some sig) h =
    (sig, refl, verify_signature-Checked public_key digest sig b h)

-- `n - s` is in the upper half when `s` is in the lower one, as n is odd.
twin_high : (s t : ℕ) → s ≤ half_n → t ≡ curve_n - s → half_n < t
twin_high s t h e = omega arith

-- If VerifyDigest accepts a signature, then the digest is 32 bytes long, the public key is one that
-- parsePublicKey reads, and the signature is one that ParseCompactSignature reads, with a second scalar of
-- at most half the order.
pub verify_digest-Checked :
    (public_key digest signature : Bytes)
    → verify_digest public_key digest signature ≡ true
    → (sig : Signature) × (parse_compact_signature signature ≡ some sig)
      × Checked public_key digest sig
unfolding verify_digest
verify_digest-Checked public_key digest signature h =
    verify_parsed-Checked public_key digest false (parse_compact_signature signature) h

-- If VerifyDigest accepts a signature with the second scalar `s`, then it refuses every signature with
-- the second scalar `n - s`, whatever its key, digest and first scalar are.
pub verify_digest_twin :
    (public_key digest signature other_key other_digest other : Bytes) (sig twin : Signature)
    → verify_digest public_key digest signature ≡ true
    → parse_compact_signature signature ≡ some sig
    → parse_compact_signature other ≡ some twin
    → to_number twin.s ≡ curve_n - to_number sig.s
    → verify_digest other_key other_digest other ≡ false
unfolding verify_digest
verify_digest_twin public_key digest signature other_key other_digest other sig twin h e f t =
    let accepted : verify_signature public_key digest sig false ≡ true =
      ap (verify_parsed public_key digest false) (sym e) ∙ h in
    let low = (verify_signature-Checked public_key digest sig false accepted).low in
    ap (verify_parsed other_key other_digest false) f
    ∙ verify_signature-high other_key other_digest twin false
        (twin_high (to_number sig.s) (to_number twin.s) low t)
