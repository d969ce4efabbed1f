-- ===== src/Ecdsa/Equation.antt =====
-- A signature of SignDigest solves the equation of ECDSA.
use sigryx.Base.{
  ℕ, zero, suc, ◌+◌, ◌-◌, ◌*◌, ◌%◌, ◌<◌, ◌≡◌, refl, ap, Bool, true, false, not, Option, none, some,
  arith, ltb, ◌==◌, Bool-cases, inl, inr, subst, length,
}
use sigryx.Base.Bytes.{Bytes, to_number, fill_bytes}
use sigryx.Base.Outcome.{ok}
use sigryx.Scalar.{valid_private_key}
use sigryx.Scalar.Modular.{curve_n}
use sigryx.Scalar.Fill.{to_number-fill_bytes}
use sigryx.Signature.{Signature}
use sigryx.Curve.{CurvePoint, infinity, point, mod_inverse, scalar_base_mult}
use sigryx.Curve.Inverse.{IsCongruent, mod-IsCongruent, mod_inverse-IsCongruent}
use sigryx.Ecdsa.{
  Rfc6979, half_n, low_s, with_inverse, with_point, try_nonce, in_range, advance, reject, round,
  next, done, after_next, new_rfc6979, sign_loop, sign_digest,
}
use sigryx.Ecdsa.LowS.{after_try_done, go_on_holds}
use sigryx.Ecdsa.Scalars.{scalar_fits, below_of, positive_of}

-- The second scalar of a signature and the parity beside it: `s` times the nonce is `r` times the key and the digest,
-- with the parity of the point, or minus that with the other parity.
pub data Solves (k y e s recovery_id : ℕ) : Type 0 where
  as_made : IsCongruent curve_n (s * k) e → recovery_id ≡ y % 2 → Solves k y e s recovery_id
  opposite :
      IsCongruent curve_n (s * k + e) 0 → recovery_id ≡ 1 - y % 2 → Solves k y e s recovery_id

-- ECDSA: there is a nonce `k` from 1 to n - 1, the first scalar is the abscissa of `k` times the base point, and the
-- second one solves the equation for the key `d` and the digest `z`.
pub record IsEcdsa (d z : ℕ) (sig : Signature) : Type 0 where
  pub k : ℕ
  pub x : ℕ
  pub y : ℕ
  pub k_positive : 0 < k
  pub k_small : k < curve_n
  pub nonce_point : scalar_base_mult (fill_bytes 32 k) ≡ point x y
  pub abscissa : to_number sig.r ≡ x
  pub solved : Solves k y (x * d + z) (to_number sig.s) sig.recovery_id

pub curve_n_positive : 0 < curve_n
curve_n_positive = omega arith

-- The scalar that the inverse of the nonce makes
pub scalar-IsCongruent :
    (e k kinv : ℕ)
    → IsCongruent curve_n (kinv * k) 1
    → IsCongruent curve_n ((e * kinv) % curve_n * k) e
scalar-IsCongruent e k kinv c =
    let m = mod-IsCongruent curve_n (e * kinv) curve_n_positive in
    let s = (e * kinv) % curve_n in
    let e1 : (s + m.left * curve_n) * k ≡ (e * kinv + m.right * curve_n) * k =
      ap (λ t. t * k) m.same in
    let e2 : (kinv * k + c.left * curve_n) * e ≡ (1 + c.right * curve_n) * e =
      ap (λ t. t * e) c.same in
    record {
      left = m.left * k + c.left * e;
      right = m.right * k + c.right * e;
      same = omega (arith, e1, e2);
    }

-- The other scalar
opposite-IsCongruent :
    (e k s : ℕ)
    → s < curve_n
    → IsCongruent curve_n (s * k) e
    → IsCongruent curve_n ((curve_n - s) * k + e) 0
opposite-IsCongruent e k s h c =
    let whole : (curve_n - s + s) * k ≡ curve_n * k = ap (λ t. t * k) (omega arith) in
    record { left = c.right; right = c.left + k; same = omega (arith, c.same, whole) }

low_s-Solves :
    (r s y k e : ℕ)
    → s < curve_n
    → 0 < s
    → IsCongruent curve_n (s * k) e
    → Solves k y e (to_number (low_s r s (y % 2)).s) (low_s r s (y % 2)).recovery_id
low_s-Solves r s y k e small positive c = elim (Bool-cases (ltb half_n s)) [
  | inl f ↦
      rw (f, to_number-fill_bytes 32 (curve_n - s) (scalar_fits (curve_n - s) (omega arith)))
        (opposite (opposite-IsCongruent e k s small c) refl)
  | inr f ↦ rw (f, to_number-fill_bytes 32 s (scalar_fits s small)) (as_made c refl)
]

low_s-abscissa : (r s parity : ℕ) → r < curve_n → to_number (low_s r s parity).r ≡ r
low_s-abscissa r s parity h = elim (Bool-cases (ltb half_n s)) [
  | inl f ↦ rw (f, to_number-fill_bytes 32 r (scalar_fits r h)) refl
  | inr f ↦ rw (f, to_number-fill_bytes 32 r (scalar_fits r h)) refl
]

with_inverse-IsEcdsa :
    (d z x y k : ℕ) (inverse : Option ℕ) (sig : Signature)
    → x < curve_n
    → 0 < k
    → k < curve_n
    → scalar_base_mult (fill_bytes 32 k) ≡ point x y
    → ((kinv : ℕ) → inverse ≡ some kinv → IsCongruent curve_n (kinv * k) 1)
    → with_inverse d z x y inverse ≡ some sig
    → IsEcdsa d z sig
unfolding with_inverse
with_inverse-IsEcdsa d z x y k none sig small some_k less_k at_k inverts h = cc
with_inverse-IsEcdsa d z x y k (some kinv) sig small some_k less_k at_k inverts h =
    let s = ((x * d + z) * kinv) % curve_n in
    elim (Bool-cases (s == 0)) [
      | inl e ↦ absurd (cc (rw e at h))
      | inr e ↦
          let made : some (low_s x s (y % 2)) ≡ some sig = rw e at h in
          let same : low_s x s (y % 2) ≡ sig = cc in
          subst (IsEcdsa d z) same (record {
            k = k;
            x = x;
            y = y;
            k_positive = some_k;
            k_small = less_k;
            nonce_point = at_k;
            abscissa = low_s-abscissa x s (y % 2) small;
            solved =
                low_s-Solves x s y k (x * d + z) (omega arith) (positive_of s e)
                  (scalar-IsCongruent (x * d + z) k kinv (inverts kinv refl));
          })
    ]

with_point-IsEcdsa :
    (d z k : ℕ) (p : CurvePoint) (sig : Signature)
    → 0 < k
    → k < curve_n
    → scalar_base_mult (fill_bytes 32 k) ≡ p
    → with_point d z k p ≡ some sig
    → IsEcdsa d z sig
unfolding with_point
with_point-IsEcdsa d z k infinity sig some_k less_k at_k h = cc
with_point-IsEcdsa d z k (point x y) sig some_k less_k at_k h =
    elim (Bool-cases (not (ltb x curve_n))) [
      | inl e ↦ absurd (cc (rw e at h))
      | inr e ↦ elim (Bool-cases (x == 0)) [
        | inl f ↦ absurd (cc (rw (e, f) at h))
        | inr f ↦
            with_inverse-IsEcdsa d z x y k (mod_inverse k curve_n) sig (below_of x curve_n e) some_k
              less_k at_k (mod_inverse-IsCongruent curve_n k curve_n_positive) (rw (e, f) at h)
      ]
    ]

range_parts : (k : ℕ) → in_range k ≡ true → (0 < k) × (k < curve_n)
range_parts k h = (ground (arith, h), ground (arith, h))

module _ (hmac : Bytes → Bytes → Bytes) where
  round_range :
      (found : Bool) (s : Rfc6979) (rest : Rfc6979 → Option (ℕ × Rfc6979)) (r : ℕ × Rfc6979)
      → in_range (to_number s.v) ≡ found
      → ((s' : Rfc6979) → rest s' ≡ some r → in_range r.0 ≡ true)
      → round hmac found s rest ≡ some r
      → in_range r.0 ≡ true
  unfolding round
  round_range true s rest r e h k =
      let same : (to_number s.v, s) ≡ r = cc in
      subst (λ (t : ℕ × Rfc6979). in_range t.0 ≡ true) same e
  round_range false s rest r e h k = h (reject hmac s) k

  next_range :
      (fuel : ℕ) (s : Rfc6979) (r : ℕ × Rfc6979) → next hmac fuel s ≡ some r → in_range r.0 ≡ true
  unfolding next
  next_range zero s r h = cc
  next_range (suc fuel) s r h =
      round_range (in_range (to_number (advance hmac s).v)) (advance hmac s) (next hmac fuel) r refl
        (λ s' k. next_range fuel s' r k) h

  after_next-IsEcdsa :
      (d z : ℕ) (o : Option (ℕ × Rfc6979)) (sig : Signature)
      → ((r : ℕ × Rfc6979) → o ≡ some r → in_range r.0 ≡ true)
      → after_next hmac d z o ≡ done sig
      → IsEcdsa d z sig
  unfolding after_next try_nonce
  after_next-IsEcdsa d z none sig nonces h = cc
  after_next-IsEcdsa d z (some (k, g)) sig nonces h =
      let (some_k, less_k) = range_parts k (nonces (k, g) refl) in
      with_point-IsEcdsa d z k (scalar_base_mult (fill_bytes 32 k)) sig some_k less_k refl
        (after_try_done hmac (try_nonce d z k) g sig h)

  sign_loop-IsEcdsa :
      (nonces fuel d z : ℕ) (g : Rfc6979) (sig : Signature)
      → sign_loop hmac nonces fuel d z g ≡ ok sig
      → IsEcdsa d z sig
  unfolding sign_loop
  sign_loop-IsEcdsa nonces zero d z g sig h = cc
  sign_loop-IsEcdsa nonces (suc fuel) d z g sig h =
      go_on_holds hmac (IsEcdsa d z) (after_next hmac d z (next hmac nonces g))
        (sign_loop hmac nonces fuel d z) sig
        (λ s e. after_next-IsEcdsa d z (next hmac nonces g) s (next_range nonces g) e)
        (λ g' e. sign_loop-IsEcdsa nonces fuel d z g' sig e) h

  -- If SignDigest returns a signature, then it is one of ECDSA for the number that the private key writes and the
  -- digest modulo n: there is a nonce `k` from 1 to n - 1 whose multiple of the base point has the first scalar as its
  -- abscissa, and the second scalar times `k` is, modulo n, the first scalar times the key and the digest, with
  -- the parity of the point, or minus that, with the other parity.
  pub sign_digest-IsEcdsa :
      (nonces fuel : ℕ) (private_key digest : Bytes) (sig : Signature)
      → sign_digest hmac nonces fuel private_key digest ≡ ok sig
      → IsEcdsa (to_number private_key) (to_number digest % curve_n) sig
  unfolding sign_digest
  sign_digest-IsEcdsa nonces fuel private_key digest sig h =
      elim (Bool-cases (not (valid_private_key private_key))) [
        | inl e ↦ absurd (cc (rw e at h))
        | inr e ↦ elim (Bool-cases (not (length digest == 32))) [
          | inl f ↦ absurd (cc (rw (e, f) at h))
          | inr f ↦
              sign_loop-IsEcdsa nonces fuel (to_number private_key) (to_number digest % curve_n)
                (new_rfc6979 hmac private_key digest) sig (rw (e, f) at h)
        ]
      ]
