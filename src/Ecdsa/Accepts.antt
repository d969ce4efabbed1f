-- ===== src/Ecdsa/Accepts.antt =====
-- What a signature that verifySignature accepts solves.
use sigryx.Base.{
  ℕ, ◌*◌, ◌%◌, ◌<◌, ◌≤◌, ◌≡◌, refl, ◌⊎◌, Bool, true, false, not, ◌&&◌, ◌||◌, Option, none, some,
  arith, ltb, ◌==◌, Bool-cases, inl, inr, length,
}
use sigryx.Base.Bytes.{Bytes, to_number, fill_bytes}
use sigryx.Scalar.Modular.{curve_n}
use sigryx.Signature.{Signature}
use sigryx.Curve.{
  CurvePoint, infinity, point, mod_inverse, scalar_base_mult, scalar_mult, point_add,
  parse_public_key,
}
use sigryx.Curve.Inverse.{IsCongruent, mod_inverse-IsCongruent}
use sigryx.Ecdsa.{half_n, check_point, check_inverse, check_key, verify_signature}
use sigryx.Ecdsa.Equation.{scalar-IsCongruent, curve_n_positive}

-- The check of ECDSA for the key `q` and the digest `z`: `u1` and `u2` are the digest and the first scalar, divided by
-- the second one modulo n, and `u1` times the base point and `u2` times the key have a sum with the first scalar as
-- its abscissa modulo n and, where it is asked for, the parity of the signature.
pub record IsAccepted (q : CurvePoint) (z : ℕ) (sig : Signature) (with_parity : Bool) : Type 0 where
  pub u1 : ℕ
  pub u2 : ℕ
  pub x : ℕ
  pub y : ℕ
  pub u1_small : u1 < curve_n
  pub u2_small : u2 < curve_n
  pub digest_part : IsCongruent curve_n (u1 * to_number sig.s) z
  pub scalar_part : IsCongruent curve_n (u2 * to_number sig.s) (to_number sig.r)
  pub sum : point_add (scalar_base_mult (fill_bytes 32 u1)) (scalar_mult q u2) ≡ point x y
  pub abscissa : x % curve_n ≡ to_number sig.r
  pub parity : (with_parity ≡ false) ⊎ (y % 2 ≡ sig.recovery_id)
  pub low : to_number sig.s ≤ half_n

both : (a b : Bool) → (a && b) ≡ true → (a ≡ true) × (b ≡ true)
both true b h = (refl, h)
both false b h = cc

asked : (flag b : Bool) → (not flag || b) ≡ true → (flag ≡ false) ⊎ (b ≡ true)
asked true b h = inr h
asked false b h = inl refl

equal_of : (a b : ℕ) → (a == b) ≡ true → a ≡ b
equal_of a b h = ground (arith, h)

not_above : (a b : ℕ) → ltb a b ≡ false → b ≤ a
not_above a b h = ground (arith, h)

parity_of : (flag : Bool) (a b : ℕ) → (flag ≡ false) ⊎ ((a == b) ≡ true) → (flag ≡ false) ⊎ (a ≡ b)
parity_of flag a b (inl h) = inl h
parity_of flag a b (inr h) = inr (equal_of a b h)

module _ (q : CurvePoint) (z : ℕ) (sig : Signature) (flag : Bool)
    (low : to_number sig.s ≤ half_n) where
  check_point-IsAccepted :
      (u1 u2 : ℕ) (p : CurvePoint)
      → u1 < curve_n
      → u2 < curve_n
      → IsCongruent curve_n (u1 * to_number sig.s) z
      → IsCongruent curve_n (u2 * to_number sig.s) (to_number sig.r)
      → point_add (scalar_base_mult (fill_bytes 32 u1)) (scalar_mult q u2) ≡ p
      → check_point sig flag p ≡ true
      → IsAccepted q z sig flag
  unfolding check_point
  check_point-IsAccepted u1 u2 infinity h1 h2 c1 c2 e h = cc
  check_point-IsAccepted u1 u2 (point x y) h1 h2 c1 c2 e h =
      let (same, parity) =
        both (x % curve_n == to_number sig.r) (not flag || (y % 2 == sig.recovery_id)) h in
      record {
        u1 = u1;
        u2 = u2;
        x = x;
        y = y;
        u1_small = h1;
        u2_small = h2;
        digest_part = c1;
        scalar_part = c2;
        sum = e;
        abscissa = equal_of (x % curve_n) (to_number sig.r) same;
        parity =
            parity_of flag (y % 2) sig.recovery_id (asked flag (y % 2 == sig.recovery_id) parity);
        low = low;
      }

  check_inverse-IsAccepted :
      (inverse : Option ℕ)
      → ((w : ℕ) → inverse ≡ some w → IsCongruent curve_n (w * to_number sig.s) 1)
      → check_inverse q z sig flag inverse ≡ true
      → IsAccepted q z sig flag
  unfolding check_inverse
  check_inverse-IsAccepted none inverts h = cc
  check_inverse-IsAccepted (some w) inverts h =
      let s = to_number sig.s in
      let r = to_number sig.r in
      let u1 = (z * w) % curve_n in
      let u2 = (r * w) % curve_n in
      check_point-IsAccepted u1 u2
        (point_add (scalar_base_mult (fill_bytes 32 u1)) (scalar_mult q u2)) (omega arith)
        (omega arith) (scalar-IsCongruent z s w (inverts w refl))
        (scalar-IsCongruent r s w (inverts w refl)) refl h

check_key-IsAccepted :
    (digest : Bytes) (sig : Signature) (flag : Bool) (key : Option CurvePoint)
    → check_key digest sig flag key ≡ true
    → (q : CurvePoint) × (key ≡ some q) × IsAccepted q (to_number digest % curve_n) sig flag
unfolding check_key
check_key-IsAccepted digest sig flag none h = cc
check_key-IsAccepted digest sig flag (some q) h = elim (Bool-cases (ltb half_n (to_number sig.s))) [
  | inl e ↦ absurd (cc (rw e at h))
  | inr e ↦
      let s = to_number sig.s in
      (
        q,
        refl,
        check_inverse-IsAccepted q (to_number digest % curve_n) sig flag (not_above half_n s e)
            (mod_inverse s curve_n) (mod_inverse-IsCongruent curve_n s curve_n_positive)
            (rw e at h),
      )
]

-- If verifySignature accepts a signature, then the public key is one that parsePublicKey reads and the signature solves
-- the check of ECDSA for it and the digest modulo n: there are `u1` and `u2` below n that give the digest and the first
-- scalar when they are multiplied by the second scalar modulo n, and `u1` times the base point and `u2` times the key
-- have a finite sum whose abscissa is the first scalar modulo n and, where the recovery identifier is
-- verified, whose parity it is; and the second scalar is at most half the order.
pub verify_signature_ok :
    (public_key digest : Bytes) (sig : Signature) (flag : Bool)
    → verify_signature public_key digest sig flag ≡ true
    → (q : CurvePoint) × (parse_public_key public_key ≡ some q)
      × IsAccepted q (to_number digest % curve_n) sig flag
unfolding verify_signature
verify_signature_ok public_key digest sig flag h = elim (Bool-cases (not (length digest == 32))) [
  | inl e ↦ absurd (cc (rw e at h))
  | inr e ↦ check_key-IsAccepted digest sig flag (parse_public_key public_key) (rw e at h)
]
