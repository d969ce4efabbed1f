-- ===== src/Curve/Inverse.antt =====
-- ModInverse gives inverses: the numbers of Euclid's algorithm are multiples of its argument modulo n.
use sigryx.Base.{
  ℕ, zero, suc, ◌+◌, ◌-◌, ◌*◌, ◌/◌, ◌%◌, ◌<◌, ◌≡◌, refl, sym, ap, ◌∙◌, Bool, true, false, subst,
  Option, none, some, arith, ◌==◌, if◌then◌else◌, Bool-cases, inl, inr,
}
use native.Mathlib.Nat.{add-mul-mod_self_right}
use sigryx.Curve.{sub_mod, euclid, mod_inverse}

-- The numbers are the same modulo `n`.
pub record IsCongruent (n a b : ℕ) : Type 0 where
  pub left : ℕ
  pub right : ℕ
  pub same : a + left * n ≡ b + right * n

pub division : (a n : ℕ) → 0 < n → a % n + a / n * n ≡ a
division a n h = omega arith

pub mod-IsCongruent : (n a : ℕ) → 0 < n → IsCongruent n (a % n) a
mod-IsCongruent n a h = record { left = a / n; right = 0; same = omega (arith, division a n h) }

pub congruent_mod : (n a b : ℕ) → IsCongruent n a b → a % n ≡ b % n
congruent_mod n a b c =
    sym (add-mul-mod_self_right a c.left n)
    ∙ ap (λ x. x % n) c.same
    ∙ add-mul-mod_self_right b c.right n

sub_mod-IsCongruent : (n a b : ℕ) → 0 < n → IsCongruent n (sub_mod n a b + b) a
sub_mod-IsCongruent n a b h =
    let x = a + (n - b % n) in
    record { left = x / n; right = b / n + 1; same = omega (arith, division x n h, division b n h) }

module _ (n g : ℕ) (positive : 0 < n) where
  -- One step of the algorithm
  step-IsCongruent :
      (r0 t0 r1 t1 q r2 : ℕ)
      → IsCongruent n (t0 * g) r0
      → IsCongruent n (t1 * g) r1
      → r2 + q * r1 ≡ r0
      → IsCongruent n (sub_mod n t0 (q * t1) * g) r2
  step-IsCongruent r0 t0 r1 t1 q r2 c0 c1 division =
      let t2 = sub_mod n t0 (q * t1) in
      let c2 = sub_mod-IsCongruent n t0 (q * t1) positive in
      let e1 : (t1 * g + c1.left * n) * q ≡ (r1 + c1.right * n) * q = ap (λ x. x * q) c1.same in
      let e2 : (t2 + q * t1 + c2.left * n) * g ≡ (t0 + c2.right * n) * g =
        ap (λ x. x * g) c2.same in
      record {
        left = c0.left + q * c1.right + c2.left * g;
        right = c0.right + c2.right * g + q * c1.left;
        same = omega (arith, c0.same, e1, e2);
      }

  -- The algorithm on both answers to the question whether the last remainder is 0
  round-IsCongruent :
      (r0 t0 r1 x : ℕ) (rest : Option ℕ) (b : Bool)
      → (r1 == 0) ≡ b
      → IsCongruent n (t0 * g) r0
      → (0 < r1 → rest ≡ some x → IsCongruent n (x * g) 1)
      → Path
          (Option ℕ)
          (elim b [ true ↦ if r0 == 1 then some t0 else none | false ↦ rest ])
          (some x)
      → IsCongruent n (x * g) 1
  round-IsCongruent r0 t0 r1 x rest true e c more h = elim (Bool-cases (r0 == 1)) [
    | inl f ↦
        let same : t0 ≡ x = (let found : some t0 ≡ some x = rw f at h in cc) in
        let one : r0 ≡ 1 = ground (arith, f) in
        subst (λ t. IsCongruent n (t * g) 1) same (subst (IsCongruent n (t0 * g)) one c)
    | inr f ↦ absurd (let found : none ≡ some x = rw f at h in cc)
  ]
  round-IsCongruent r0 t0 r1 x rest false e c more h = more (ground (arith, e)) h

  euclid-IsCongruent :
      (fuel r0 t0 r1 t1 x : ℕ)
      → IsCongruent n (t0 * g) r0
      → IsCongruent n (t1 * g) r1
      → euclid fuel n r0 t0 r1 t1 ≡ some x
      → IsCongruent n (x * g) 1
  unfolding euclid
  euclid-IsCongruent zero r0 t0 r1 t1 x c0 c1 h = cc
  euclid-IsCongruent (suc fuel) r0 t0 r1 t1 x c0 c1 h =
      let t2 = sub_mod n t0 (r0 / r1 * t1) in
      round-IsCongruent r0 t0 r1 x (euclid fuel n r1 t1 (r0 % r1) t2) (r1 == 0) refl c0
        (λ some_rest.
          euclid-IsCongruent fuel r1 t1 (r0 % r1) t2 x c1
            (step-IsCongruent r0 t0 r1 t1 (r0 / r1) (r0 % r1) c0 c1 (division r0 r1 some_rest)))
        h

  pub mod_inverse-IsCongruent : (x : ℕ) → mod_inverse g n ≡ some x → IsCongruent n (x * g) 1
  unfolding mod_inverse
  mod_inverse-IsCongruent x h =
      euclid-IsCongruent (suc n) n 0 (g % n) 1 x
        (record { left = 1; right = 0; same = omega arith })
        (record { left = 0; right = g / n; same = omega (arith, division g n positive) }) h
