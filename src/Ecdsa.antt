-- ===== src/Ecdsa.antt =====
-- SignDigest and the verifiers of pkg/hdwallet/signature.go, with the nonce generator of RFC 6979. The loops of
-- `next` and of SignDigest end when the nonces that HMAC makes allow it; they run on fuel here, and
-- `out_of_fuel` is no error of Go.
pub mod Scalars
pub mod LowS
pub mod Verify
pub mod Equation
pub mod Accepts
pub mod Tests
use sigryx.Base.{
  ℕ, zero, suc, ◌+◌, ◌-◌, ◌*◌, ◌/◌, ◌%◌, Bool, true, false, not, ◌&&◌, ◌||◌, Option, none, some, [],
  ◌∷◌, ◌++◌, ltb, leb, ◌==◌, if◌then◌else◌, length, replicate,
}
use sigryx.Base.Bytes.{Bytes, to_number, fill_bytes}
use sigryx.Base.Outcome.{Outcome, ok, err}
use sigryx.Scalar.{valid_private_key}
use sigryx.Scalar.Modular.{curve_n}
use sigryx.Signature.{Signature, parse_compact_signature, parse_ethereum_signature}
use sigryx.Curve.{
  CurvePoint, infinity, point, mod_inverse, scalar_base_mult, scalar_mult, point_add,
  parse_public_key,
}

pub data SignError : Type 0 where
  invalid_private_key invalid_digest out_of_fuel : SignError

-- `halfN`
abbrev pub half_n : ℕ
half_n = curve_n / 2

-- rfc6979
pub record Rfc6979 : Type 0 where
  pub k : Bytes
  pub v : Bytes

-- The choice between `s` and `n - s`, and the parity with it
abbrev pub low_s : ℕ → ℕ → ℕ → Signature
low_s r s parity =
    if ltb half_n s
    then record { r = fill_bytes 32 r; s = fill_bytes 32 (curve_n - s); recovery_id = 1 - parity }
    else record { r = fill_bytes 32 r; s = fill_bytes 32 s; recovery_id = parity }

-- `s` from the inverse of the nonce; `none` stands for `continue`.
unfoldable pub with_inverse : ℕ → ℕ → ℕ → ℕ → Option ℕ → Option Signature
with_inverse d z r y none = none
with_inverse d z r y (some kinv) =
    let s = ((r * d + z) * kinv) % curve_n in if s == 0 then none else some (low_s r s (y % 2))

-- The tests of the loop of SignDigest on the point of the nonce `k`
unfoldable pub with_point : ℕ → ℕ → ℕ → CurvePoint → Option Signature
unfolding with_inverse mod_inverse
with_point d z k infinity = none
with_point d z k (point x y) =
    if not (ltb x curve_n)
    then none
    else if x == 0
    then none
    else with_inverse d z x y (mod_inverse k curve_n)

-- One round of the loop of SignDigest
unfoldable pub try_nonce : ℕ → ℕ → ℕ → Option Signature
unfolding with_point scalar_base_mult
try_nonce d z k = with_point d z k (scalar_base_mult (fill_bytes 32 k))

-- `candidate.Sign() > 0 && candidate.Cmp(curveN()) < 0`
abbrev pub in_range : ℕ → Bool
in_range candidate = ltb 0 candidate && ltb candidate curve_n

-- What a round does with the nonce that it gets: the signature, or the generator to go on with
pub data Round : Type 0 where
  done : Signature → Round
  again : Rfc6979 → Round
  no_nonce : Round

-- The MAC is HMAC with SHA-256: the key first.
module _ (hmac : Bytes → Bytes → Bytes) where
  -- update, of the joined parts
  unfoldable pub update : ℕ → Bytes → Rfc6979 → Rfc6979
  update marker parts g =
      let k = hmac g.k (g.v ++ (marker ∷ parts)) in record { k = k; v = hmac k g.v }

  -- reject
  unfoldable pub reject : Rfc6979 → Rfc6979
  unfolding update
  reject g = update 0x00 [] g

  -- newRFC6979
  unfoldable pub new_rfc6979 : Bytes → Bytes → Rfc6979
  unfolding update
  new_rfc6979 private_key digest =
      let h1 = fill_bytes 32 (to_number digest % curve_n) in
      let g : Rfc6979 = record { k = replicate 32 0; v = replicate 32 0x01 } in
      update 0x01 (private_key ++ h1) (update 0x00 (private_key ++ h1) g)

  -- `mac.Write(g.v[:]); copy(g.v[:], mac.Sum(nil))`, the first part of a round of `next`
  abbrev pub advance : Rfc6979 → Rfc6979
  advance g = record g { v = hmac g.k g.v }

  -- next, with the generator that it leaves. `round` is given the generator behind the MAC.
  unfoldable pub round : Bool → Rfc6979 → (Rfc6979 → Option (ℕ × Rfc6979)) → Option (ℕ × Rfc6979)
  unfolding reject
  round true g rest = some (to_number g.v, g)
  round false g rest = rest (reject g)

  unfoldable pub next : ℕ → Rfc6979 → Option (ℕ × Rfc6979)
  unfolding round
  next zero g = none
  next (suc fuel) g = round (in_range (to_number (advance g).v)) (advance g) (next fuel)

  unfoldable pub after_try : Option Signature → Rfc6979 → Round
  unfolding reject
  after_try (some sig) g = done sig
  after_try none g = again (reject g)

  unfoldable pub after_next : ℕ → ℕ → Option (ℕ × Rfc6979) → Round
  unfolding try_nonce after_try
  after_next d z none = no_nonce
  after_next d z (some (k, g)) = after_try (try_nonce d z k) g

  abbrev pub go_on : Round → (Rfc6979 → Outcome SignError Signature) → Outcome SignError Signature
  go_on (done sig) rounds = ok sig
  go_on (again g) rounds = rounds g
  go_on no_nonce rounds = err out_of_fuel

  -- The loop of SignDigest: each of its rounds, and each call of `next`, has `nonces` of fuel.
  unfoldable pub sign_loop : ℕ → ℕ → ℕ → ℕ → Rfc6979 → Outcome SignError Signature
  unfolding next after_next
  sign_loop nonces zero d z g = err out_of_fuel
  sign_loop nonces (suc fuel) d z g =
      go_on (after_next d z (next nonces g)) (sign_loop nonces fuel d z)

  -- SignDigest
  unfoldable pub sign_digest : ℕ → ℕ → Bytes → Bytes → Outcome SignError Signature
  unfolding sign_loop valid_private_key new_rfc6979
  sign_digest nonces fuel private_key digest =
      if not (valid_private_key private_key)
      then err invalid_private_key
      else if not (length digest == 32)
      then err invalid_digest
      else sign_loop nonces fuel (to_number private_key) (to_number digest % curve_n)
          (new_rfc6979 private_key digest)

-- `x.Cmp(r) != 0` and the test of the parity
unfoldable pub check_point : Signature → Bool → CurvePoint → Bool
check_point sig verify_recovery_id infinity = false
check_point sig verify_recovery_id (point x y) =
    (x % curve_n == to_number sig.r) && (not verify_recovery_id || (y % 2 == sig.recovery_id))

unfoldable pub check_inverse : CurvePoint → ℕ → Signature → Bool → Option ℕ → Bool
unfolding check_point scalar_base_mult scalar_mult point_add
check_inverse q z sig verify_recovery_id none = false
check_inverse q z sig verify_recovery_id (some w) =
    let u1 = (z * w) % curve_n in
    let u2 = (to_number sig.r * w) % curve_n in
    check_point sig verify_recovery_id
      (point_add (scalar_base_mult (fill_bytes 32 u1)) (scalar_mult q u2))

unfoldable pub check_key : Bytes → Signature → Bool → Option CurvePoint → Bool
unfolding check_inverse mod_inverse
check_key digest sig verify_recovery_id none = false
check_key digest sig verify_recovery_id (some q) =
    if ltb half_n (to_number sig.s)
    then false
    else check_inverse q (to_number digest % curve_n) sig verify_recovery_id
        (mod_inverse (to_number sig.s) curve_n)

-- verifySignature
unfoldable pub verify_signature : Bytes → Bytes → Signature → Bool → Bool
unfolding check_key parse_public_key
verify_signature public_key digest sig verify_recovery_id =
    if not (length digest == 32)
    then false
    else check_key digest sig verify_recovery_id (parse_public_key public_key)

abbrev pub verify_parsed : Bytes → Bytes → Bool → Option Signature → Bool
unfolding verify_signature
verify_parsed public_key digest verify_recovery_id none = false
verify_parsed public_key digest verify_recovery_id (some sig) =
    verify_signature public_key digest sig verify_recovery_id

-- VerifyDigest
unfoldable pub verify_digest : Bytes → Bytes → Bytes → Bool
unfolding verify_parsed
verify_digest public_key digest signature =
    verify_parsed public_key digest false (parse_compact_signature signature)

-- `sig.RecoveryID = recoveryID`
abbrev pub set_recovery_id : ℕ → Option Signature → Option Signature
set_recovery_id recovery_id none = none
set_recovery_id recovery_id (some sig) = some (record sig { recovery_id = recovery_id })

-- VerifyDigestWithRecoveryID
unfoldable pub verify_digest_with_recovery_id : Bytes → Bytes → Bytes → ℕ → Bool
unfolding verify_parsed
verify_digest_with_recovery_id public_key digest signature recovery_id =
    if ltb 1 recovery_id
    then false
    else verify_parsed public_key digest true
        (set_recovery_id recovery_id (parse_compact_signature signature))

-- VerifyEthereumDigest
unfoldable pub verify_ethereum_digest : Bytes → Bytes → Bytes → Bool
unfolding verify_parsed
verify_ethereum_digest public_key digest signature =
    verify_parsed public_key digest true (parse_ethereum_signature signature)
