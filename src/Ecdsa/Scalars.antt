-- ===== src/Ecdsa/Scalars.antt =====
-- What a signature of SignDigest is made of.
use sigryx.Base.{
  ℕ, ◌+◌, ◌-◌, ◌*◌, ◌%◌, ◌^◌, ◌<◌, ◌≤◌, ◌≡◌, refl, true, false, not, Option, none, some, arith, ltb,
  ◌==◌, Bool-cases, inl, inr, subst, lt→ltb,
}
use sigryx.Base.Bytes.{AreBytes, to_number, fill_bytes}
use sigryx.Scalar.Modular.{curve_n, curve_n_bytes-number}
use sigryx.Scalar.Fill.{length-fill_bytes, fill_bytes-AreBytes, to_number-fill_bytes}
use sigryx.Signature.{Signature, valid_signature_scalar}
use sigryx.Signature.Encodings.{IsValid}
use sigryx.Curve.{CurvePoint, infinity, point, mod_inverse, scalar_base_mult}
use sigryx.Ecdsa.{half_n, low_s, with_inverse, with_point, try_nonce}

-- Two valid scalars of 32 bytes, the second one in the lower half, and a parity bit.
pub record IsLow (sig : Signature) : Type 0 where
  pub valid : IsValid sig
  pub r_bytes : AreBytes sig.r
  pub s_bytes : AreBytes sig.s
  pub s_low : to_number sig.s ≤ half_n
  pub parity : sig.recovery_id ≤ 1

pub scalar_fits : (n : ℕ) → n < curve_n → n < 256 ^ 32
scalar_fits n h = omega arith

fill_bytes-valid : (n : ℕ) → 0 < n → n < curve_n → valid_signature_scalar (fill_bytes 32 n) ≡ true
fill_bytes-valid n h k =
    rw
      (
        length-fill_bytes 32 n,
        to_number-fill_bytes 32 n (scalar_fits n k),
        curve_n_bytes-number,
        lt→ltb 0 n h,
        lt→ltb n curve_n k,
      )
      refl

made-IsLow :
    (r s parity : ℕ)
    → 0 < r
    → r < curve_n
    → 0 < s
    → s ≤ half_n
    → parity ≤ 1
    → IsLow (record { r = fill_bytes 32 r; s = fill_bytes 32 s; recovery_id = parity })
made-IsLow r s parity hr kr hs ks hp =
    let small : s < curve_n = omega arith in
    record {
      valid = record { r_valid = fill_bytes-valid r hr kr; s_valid = fill_bytes-valid s hs small };
      r_bytes = fill_bytes-AreBytes 32 r;
      s_bytes = fill_bytes-AreBytes 32 s;
      s_low = rw (to_number-fill_bytes 32 s (scalar_fits s small)) ks;
      parity = hp;
    }

low_s-IsLow :
    (r s parity : ℕ)
    → 0 < r
    → r < curve_n
    → 0 < s
    → s < curve_n
    → parity ≤ 1
    → IsLow (low_s r s parity)
low_s-IsLow r s parity hr kr hs ks hp = elim (Bool-cases (ltb half_n s)) [
  | inl e ↦
      let high : half_n < s = ground arith in
      rw e (made-IsLow r (curve_n - s) (1 - parity) hr kr (omega arith) (omega arith) (omega arith))
  | inr e ↦ let low : s ≤ half_n = ground arith in rw e (made-IsLow r s parity hr kr hs low hp)
]

with_inverse-IsLow :
    (d z r y : ℕ) (inverse : Option ℕ) (sig : Signature)
    → 0 < r
    → r < curve_n
    → with_inverse d z r y inverse ≡ some sig
    → IsLow sig
unfolding with_inverse
with_inverse-IsLow d z r y none sig hr kr h = cc
with_inverse-IsLow d z r y (some kinv) sig hr kr h =
    let s = ((r * d + z) * kinv) % curve_n in
    elim (Bool-cases (s == 0)) [
      | inl e ↦ absurd (cc (rw e at h))
      | inr e ↦
          let made : some (low_s r s (y % 2)) ≡ some sig = rw e at h in
          let same : low_s r s (y % 2) ≡ sig = cc in
          let positive : 0 < s = ground (arith, e) in
          let small : s < curve_n = omega arith in
          subst IsLow same (low_s-IsLow r s (y % 2) hr kr positive small (omega arith))
    ]

pub below_of : (x n : ℕ) → not (ltb x n) ≡ false → x < n
below_of x n h = ground (arith, h)

pub positive_of : (x : ℕ) → (x == 0) ≡ false → 0 < x
positive_of x h = ground (arith, h)

with_point-IsLow :
    (d z k : ℕ) (p : CurvePoint) (sig : Signature) → with_point d z k p ≡ some sig → IsLow sig
unfolding with_point
with_point-IsLow d z k infinity sig h = cc
with_point-IsLow d z k (point x y) sig h = elim (Bool-cases (not (ltb x curve_n))) [
  | inl e ↦ absurd (cc (rw e at h))
  | inr e ↦ elim (Bool-cases (x == 0)) [
    | inl f ↦ absurd (cc (rw (e, f) at h))
    | inr f ↦
        with_inverse-IsLow d z x y (mod_inverse k curve_n) sig (positive_of x f)
          (below_of x curve_n e) (rw (e, f) at h)
  ]
]

pub try_nonce-IsLow : (d z k : ℕ) (sig : Signature) → try_nonce d z k ≡ some sig → IsLow sig
unfolding try_nonce
try_nonce-IsLow d z k sig h = with_point-IsLow d z k (scalar_base_mult (fill_bytes 32 k)) sig h
