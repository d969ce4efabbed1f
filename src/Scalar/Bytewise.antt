-- ===== src/Scalar/Bytewise.antt =====
-- What the loops on bytes do to the numbers that the byte strings write.
use sigryx.Base.{
  ℕ, suc, ◌+◌, ◌*◌, ◌^◌, ◌<◌, ◌≤◌, ◌≡◌, refl, sym, ap, ◌∙◌, Bool, not, [], ◌∷◌, arith, ltb,
  if◌then◌else◌, length,
}
use sigryx.Base.Bytes.{Bytes, AreBytes, value_from, value_from-lt, to_number}
use sigryx.Scalar.{compare_bytes}
use native.Mathlib.Nat.{mul-le-mul_right}
use native.Mathlib.Decide.{dec_lt}

pub digit_step : (a b p v : ℕ) → (a * 256 + b) * p + v ≡ a * (256 * p) + (b * p + v)
digit_step a b p v = omega arith

pub value_from_split :
    (acc : ℕ) (bs : Bytes) → value_from acc bs ≡ acc * 256 ^ length bs + to_number bs
unfolding value_from
value_from_split acc [] = omega arith
value_from_split acc (b ∷ bs) =
    let power : 256 * 256 ^ length bs ≡ 256 ^ suc (length bs) = omega arith in
    let zero_acc : value_from (0 * 256 + b) bs ≡ value_from b bs =
      ap (λ a. value_from a bs) (omega arith) in
    value_from_split (acc * 256 + b) bs
    ∙ digit_step acc b (256 ^ length bs) (to_number bs)
    ∙ ap (λ t. acc * (256 * 256 ^ length bs) + t) (sym (zero_acc ∙ value_from_split b bs))
    ∙ ap (λ t. acc * t + value_from (0 * 256 + b) bs) power

-- The first byte of a byte string stands for its multiple of the power that the others are below.
pub to_number-cons : (b : ℕ) (bs : Bytes) → to_number (b ∷ bs) ≡ b * 256 ^ length bs + to_number bs
unfolding value_from
to_number-cons b bs = ap (λ a. value_from a bs) (omega arith) ∙ value_from_split b bs

pub to_number-lt : (bs : Bytes) → AreBytes bs → to_number bs < 256 ^ length bs
to_number-lt bs h = omega (arith, value_from-lt 0 bs h)

first_smaller : (x y p v w : ℕ) → x < y → v < p → x * p + v < y * p + w
first_smaller x y p v w h k =
    let step : suc x * p ≤ y * p = mul-le-mul_right p h in
    let split : suc x * p ≡ x * p + p = omega arith in omega arith

by_first_byte :
    (smaller same : Bool) (x y p v w m n : ℕ) (rest : Bool)
    → m ≡ x * p + v
    → n ≡ y * p + w
    → v < p
    → w < p
    → rest ≡ (if ltb v w then smaller else if ltb w v then not smaller else same)
    → (if ltb x y then smaller else if ltb y x then not smaller else rest)
      ≡ (if ltb m n then smaller else if ltb n m then not smaller else same)
by_first_byte smaller same x y p v w m n rest em en hv hw er = elim (dec_lt x y) [
  | yes h ↦ let k = first_smaller x y p v w h hv in ground arith
  | no h ↦ elim (dec_lt y x) [
    | yes g ↦ let k = first_smaller y x p w v g hw in ground arith
    | no g ↦
        let same_byte : x ≡ y = omega arith in
        let f : y * p ≡ x * p = ap (λ t. t * p) (sym same_byte) in
        let en' : n ≡ x * p + w = en ∙ ap (λ t. t + w) f in ground arith
  ]
]

-- The comparison of byte strings of one length is that of the numbers.
pub compare_bytes_lem :
    (smaller same : Bool) (xs ys : Bytes)
    → AreBytes xs
    → AreBytes ys
    → length xs ≡ length ys
    → compare_bytes smaller same xs ys ≡ (
        if ltb (to_number xs) (to_number ys)
        then smaller
        else if ltb (to_number ys) (to_number xs)
        then not smaller
        else same)
unfolding compare_bytes
compare_bytes_lem smaller same [] [] hx hy size = (unfold value_from in refl)
compare_bytes_lem smaller same [] (y ∷ ys) hx hy size = absurd (omega arith)
compare_bytes_lem smaller same (x ∷ xs) [] hx hy size = absurd (omega arith)
compare_bytes_lem smaller same (x ∷ xs) (y ∷ ys) (bx, hx) (by, hy) size =
    let e : length ys ≡ length xs = omega arith in
    let p = 256 ^ length xs in
    let first : to_number (x ∷ xs) ≡ x * p + to_number xs = to_number-cons x xs in
    let second : to_number (y ∷ ys) ≡ y * p + to_number ys =
      to_number-cons y ys ∙ ap (λ n. y * 256 ^ n + to_number ys) e in
    let rest = compare_bytes_lem smaller same xs ys hx hy (omega arith) in
    let xlt : to_number xs < p = to_number-lt xs hx in
    let ylt : to_number ys < p = omega (arith, to_number-lt ys hy, ap (λ n. 256 ^ n) e) in
    by_first_byte smaller same x y p (to_number xs) (to_number ys) (to_number (x ∷ xs))
      (to_number (y ∷ ys)) (compare_bytes smaller same xs ys) first second xlt ylt rest
