-- ===== src/Scalar/Sums.antt =====
-- The sums and differences of byte strings, and the search for a byte that is not 0.
use sigryx.Base.{
  ℕ, zero, suc, ◌+◌, ◌-◌, ◌*◌, ◌/◌, ◌%◌, ◌^◌, ◌<◌, ◌≤◌, ◌≡◌, refl, sym, ap, ◌∙◌, Bool, true, [],
  ◌∷◌, arith, ltb, ◌==◌, if◌then◌else◌, length, Bool-cases, inl, inr, ltb→lt,
}
use sigryx.Base.Bytes.{Bytes, AreBytes, value_from, lt-pow, to_number}
use sigryx.Scalar.{non_zero, add_bytes, subtract_bytes}
use sigryx.Scalar.Bytewise.{to_number-cons}
use native.Mathlib.Nat.{mul-le-mul_right}

non_zero_step :
    (b p v m : ℕ) (rest : Bool)
    → m ≡ b * p + v
    → 0 < p
    → rest ≡ ltb 0 v
    → (if b == 0 then rest else true) ≡ ltb 0 m
non_zero_step zero p v m rest e pos h = let same : m ≡ v = omega arith in ground arith
non_zero_step (suc b) p v m rest e pos h =
    let big : suc zero * p ≤ suc b * p = mul-le-mul_right p (omega arith) in
    let positive : 0 < m = omega arith in ground arith

pub non_zero_lem : (bs : Bytes) → non_zero bs ≡ ltb 0 (to_number bs)
unfolding non_zero
non_zero_lem [] = (unfold value_from in refl)
non_zero_lem (b ∷ bs) =
    non_zero_step b (256 ^ length bs) (to_number bs) (to_number (b ∷ bs)) (non_zero bs)
      (to_number-cons b bs) (omega (arith, lt-pow (length bs))) (non_zero_lem bs)

-- What the loop of addScalarsModN leaves: the sum of the numbers, with the carry in front.
pub record Sum (xs ys zs : Bytes) (carry : ℕ) : Type 0 where
  pub bytes : AreBytes zs
  pub size : length zs ≡ length xs
  pub small : carry ≤ 1
  pub total : carry * 256 ^ length zs + to_number zs ≡ to_number xs + to_number ys

spread : (q r p : ℕ) → (q * 256 + r) * p ≡ q * (256 * p) + r * p
spread q r p = omega arith

carry_step :
    (x y c p v w z : ℕ)
    → c * p + z ≡ v + w
    → (x + y + c) / 256 * (256 * p) + ((x + y + c) % 256 * p + z) ≡ (x * p + v) + (y * p + w)
carry_step x y c p v w z h =
    let q = (x + y + c) / 256 in
    let r = (x + y + c) % 256 in
    let parts : q * 256 + r ≡ x + y + c = omega arith in
    let scaled : (q * 256 + r) * p ≡ (x + y + c) * p = ap (λ t. t * p) parts in
    let left : (q * 256 + r) * p ≡ q * (256 * p) + r * p = spread q r p in
    let right : (x + y + c) * p ≡ x * p + y * p + c * p = omega arith in omega arith

pub add_bytes_lem :
    (xs ys : Bytes)
    → AreBytes xs
    → AreBytes ys
    → length xs ≡ length ys
    → Sum xs ys (add_bytes xs ys).0 (add_bytes xs ys).1
unfolding add_bytes
add_bytes_lem [] [] hx hy size = record {
  bytes = tt;
  size = refl;
  small = omega arith;
  total = (unfold value_from in omega arith);
}
add_bytes_lem [] (y ∷ ys) hx hy size = absurd (omega arith)
add_bytes_lem (x ∷ xs) [] hx hy size = absurd (omega arith)
add_bytes_lem (x ∷ xs) (y ∷ ys) (bx, hx) (by, hy) size =
    let s = add_bytes_lem xs ys hx hy (omega arith) in
    let zs = (add_bytes xs ys).0 in
    let c = (add_bytes xs ys).1 in
    let p = 256 ^ length zs in
    let power : 256 ^ suc (length zs) ≡ 256 * p = omega arith in
    let e : 256 ^ length xs ≡ p = ap (λ n. 256 ^ n) (sym s.size) in
    let f : 256 ^ length ys ≡ p = ap (λ n. 256 ^ n) (omega (arith, s.size)) in
    record {
      bytes = (omega arith, s.bytes);
      size = ap suc s.size;
      small = omega (arith, s.small);
      total =
          ap (λ t. (x + y + c) / 256 * t + to_number ((x + y + c) % 256 ∷ zs)) power
          ∙ ap (λ t. (x + y + c) / 256 * (256 * p) + t) (to_number-cons ((x + y + c) % 256) zs)
          ∙ carry_step x y c p (to_number xs) (to_number ys) (to_number zs) s.total
          ∙ sym (
              ap (λ t. t + to_number (y ∷ ys))
                (to_number-cons x xs ∙ ap (λ t. x * t + to_number xs) e)
              ∙ ap (λ t. x * p + to_number xs + t)
                  (to_number-cons y ys ∙ ap (λ t. y * t + to_number ys) f));
    }

-- What the subtraction leaves: the difference, with 256 to the length added where it borrows.
pub record Difference (xs ys zs : Bytes) (borrow : ℕ) : Type 0 where
  pub bytes : AreBytes zs
  pub size : length zs ≡ length xs
  pub small : borrow ≤ 1
  pub total : to_number zs + to_number ys ≡ to_number xs + borrow * 256 ^ length zs

unspread : (c x p : ℕ) → (x + 256 * c) * p ≡ x * p + c * (256 * p)
unspread c x p = omega arith

borrow_step :
    (x y b d c p v w z : ℕ)
    → z + w ≡ v + b * p
    → d + y + b ≡ x + 256 * c
    → (d * p + z) + (y * p + w) ≡ (x * p + v) + c * (256 * p)
borrow_step x y b d c p v w z h e =
    let scaled : (d + y + b) * p ≡ (x + 256 * c) * p = ap (λ t. t * p) e in
    let left : (d + y + b) * p ≡ d * p + y * p + b * p = omega arith in
    let right : (x + 256 * c) * p ≡ x * p + c * (256 * p) = unspread c x p in omega arith

digit-Difference :
    (x y b d c : ℕ) (xs ys zs : Bytes)
    → Difference xs ys zs b
    → length xs ≡ length ys
    → d < 256
    → c ≤ 1
    → d + y + b ≡ x + 256 * c
    → Difference (x ∷ xs) (y ∷ ys) (d ∷ zs) c
digit-Difference x y b d c xs ys zs s size small one e =
    let p = 256 ^ length zs in
    let power : 256 * p ≡ 256 ^ suc (length zs) = omega arith in
    let f : 256 ^ length xs ≡ p = ap (λ n. 256 ^ n) (sym s.size) in
    let g : 256 ^ length ys ≡ p = ap (λ n. 256 ^ n) (omega (arith, s.size)) in
    record {
      bytes = (small, s.bytes);
      size = ap suc s.size;
      small = one;
      total =
          ap (λ t. t + to_number (y ∷ ys)) (to_number-cons d zs)
          ∙ ap (λ t. d * p + to_number zs + t)
              (to_number-cons y ys ∙ ap (λ t. y * t + to_number ys) g)
          ∙ borrow_step x y b d c p (to_number xs) (to_number ys) (to_number zs) s.total e
          ∙ ap (λ t. t + c * (256 * p))
              (sym (to_number-cons x xs ∙ ap (λ t. x * t + to_number xs) f))
          ∙ ap (λ t. to_number (x ∷ xs) + c * t) power;
    }

pub subtract_bytes_lem :
    (xs ys : Bytes)
    → AreBytes xs
    → AreBytes ys
    → length xs ≡ length ys
    → Difference xs ys (subtract_bytes xs ys).0 (subtract_bytes xs ys).1
unfolding subtract_bytes
subtract_bytes_lem [] [] hx hy size = record {
  bytes = tt;
  size = refl;
  small = omega arith;
  total = (unfold value_from in omega arith);
}
subtract_bytes_lem [] (y ∷ ys) hx hy size = absurd (omega arith)
subtract_bytes_lem (x ∷ xs) [] hx hy size = absurd (omega arith)
subtract_bytes_lem (x ∷ xs) (y ∷ ys) (bx, hx) (by, hy) size =
    let s = subtract_bytes_lem xs ys hx hy (omega arith) in
    let zs = (subtract_bytes xs ys).0 in
    let b = (subtract_bytes xs ys).1 in
    elim (Bool-cases (ltb x (y + b))) [
      | inl h ↦
          let less : x < y + b = ltb→lt x (y + b) h in
          rw h (
            digit-Difference x y b (x + 256 - (y + b)) 1 xs ys zs s (omega arith) (omega arith)
              (omega arith) (omega (arith, s.small)))
      | inr h ↦
          let enough : y + b ≤ x = ground arith in
          rw h (
            digit-Difference x y b (x - (y + b)) 0 xs ys zs s (omega arith) (omega arith)
              (omega arith) (omega arith))
    ]
