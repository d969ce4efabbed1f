-- ===== src/Curve/Complete.antt =====
-- ModInverse finds an inverse where there is one: its rounds do not use up the fuel.
use sigryx.Base.{
  ℕ, zero, suc, ◌+◌, ◌*◌, ◌/◌, ◌%◌, ◌<◌, ◌≡◌, refl, sym, ap, ◌∙◌, Bool, true, false, Option, none,
  some, arith, ◌==◌, if◌then◌else◌,
}
use native.Mathlib.Nat.{add-mul-mod_self_left, mod-eq_of_lt}
use sigryx.Curve.{sub_mod, euclid, mod_inverse}
use sigryx.Curve.Inverse.{IsCongruent, division, mod_inverse-IsCongruent}

abbrev Divides : ℕ → ℕ → Type 0
Divides d a = (q : ℕ) × (a ≡ d * q)

abbrev Coprime : ℕ → ℕ → Type 0
Coprime a b = (d : ℕ) → Divides d a → Divides d b → d ≡ 1

only_one : (d a b : ℕ) → d * a ≡ 1 + d * b → d ≡ 1
only_one zero a b h = absurd (omega arith)
only_one (suc zero) a b h = refl
only_one (suc (suc d)) a b h =
    let m = suc (suc d) in
    let left : (0 + m * a) % m ≡ 0 % m = add-mul-mod_self_left 0 m a in
    let right : (1 + m * b) % m ≡ 1 % m = add-mul-mod_self_left 1 m b in
    let same : (0 + m * a) % m ≡ (1 + m * b) % m = ap (λ t. t % m) (omega (arith, h)) in
    let small : 1 < m = omega arith in
    let none_left : 0 % m ≡ 0 = mod-eq_of_lt (omega arith) in
    let clash : Path ℕ 0 1 = sym none_left ∙ sym left ∙ same ∙ right ∙ mod-eq_of_lt small in
    absurd (omega (arith, clash))

-- A common divisor of a pair of remainders is one of the pair before.
remainder-Coprime : (r0 r1 : ℕ) → 0 < r1 → Coprime r0 r1 → Coprime r1 (r0 % r1)
remainder-Coprime r0 r1 h c d (a, e) (b, f) =
    let whole : r0 % r1 + r0 / r1 * r1 ≡ r0 = omega arith in
    let times : r0 / r1 * r1 ≡ r0 / r1 * (d * a) = ap (λ t. r0 / r1 * t) e in
    c d (b + r0 / r1 * a, omega (arith, whole, times, f)) (a, e)

last-Coprime : (r0 r1 : ℕ) → (r1 == 0) ≡ true → Coprime r0 r1 → (r0 == 1) ≡ true
last-Coprime r0 r1 h c =
    let one : r0 ≡ 1 = c r0 (1, omega arith) (0, ground (arith, h)) in ground (arith, one)

module _ (n : ℕ) where
  round-some :
      (r0 t0 r1 : ℕ) (rest : Option ℕ) (b : Bool)
      → (r1 == 0) ≡ b
      → Coprime r0 r1
      → (0 < r1 → (y : ℕ) × (rest ≡ some y))
      → (y : ℕ) × Path
          (Option ℕ)
          (elim b [ true ↦ if r0 == 1 then some t0 else none | false ↦ rest ])
          (some y)
  round-some r0 t0 r1 rest true e c more = (t0, rw (last-Coprime r0 r1 e c) refl)
  round-some r0 t0 r1 rest false e c more = more (ground (arith, e))

  euclid-some :
      (fuel r0 t0 r1 t1 : ℕ)
      → r1 < fuel
      → Coprime r0 r1
      → (y : ℕ) × (euclid fuel n r0 t0 r1 t1 ≡ some y)
  unfolding euclid
  euclid-some zero r0 t0 r1 t1 h c = absurd (omega arith)
  euclid-some (suc fuel) r0 t0 r1 t1 h c =
      let t2 = sub_mod n t0 (r0 / r1 * t1) in
      round-some r0 t0 r1 (euclid fuel n r1 t1 (r0 % r1) t2) (r1 == 0) refl c (λ some_rest.
        euclid-some fuel r1 t1 (r0 % r1) t2 (omega arith) (remainder-Coprime r0 r1 some_rest c))

-- A number with an inverse modulo n has no common divisor with n.
inverse-Coprime : (g n x : ℕ) → 0 < n → IsCongruent n (x * g) 1 → Coprime n (g % n)
inverse-Coprime g n x positive i d (a, e) (b, f) =
    let parts : g % n + g / n * n ≡ g = division g n positive in
    let multiple : g / n * n ≡ g / n * (d * a) = ap (λ t. g / n * t) e in
    let number : g ≡ d * b + g / n * (d * a) = omega (arith, parts, multiple, f) in
    let product : x * g ≡ x * (d * b + g / n * (d * a)) = ap (λ t. x * t) number in
    let left : i.left * n ≡ i.left * (d * a) = ap (λ t. i.left * t) e in
    let right : i.right * n ≡ i.right * (d * a) = ap (λ t. i.right * t) e in
    only_one d (x * b + x * (g / n) * a + i.left * a) (i.right * a)
      (omega (arith, i.same, product, left, right))

-- If a number has an inverse modulo n, then ModInverse returns one.
mod_inverse-some :
    (g n x : ℕ)
    → 0 < n
    → IsCongruent n (x * g) 1
    → (y : ℕ) × (mod_inverse g n ≡ some y) × IsCongruent n (y * g) 1
unfolding mod_inverse
mod_inverse-some g n x positive i =
    let (y, found) =
      euclid-some n (suc n) n 0 (g % n) 1 (omega arith) (inverse-Coprime g n x positive i) in
    (y, found, mod_inverse-IsCongruent n g positive y found)
