-- ===== src/Scalar/Fill.antt =====
-- What FillBytes writes.
use sigryx.Base.{
  ℕ, zero, suc, ◌+◌, ◌*◌, ◌/◌, ◌%◌, ◌^◌, ◌<◌, ◌≡◌, refl, sym, ap, ◌∙◌, [], ◌∷◌, arith, length,
}
use sigryx.Base.Bytes.{Bytes, AreBytes, to_number, fill_bytes, value_from}
use sigryx.Scalar.Bytewise.{digit_step, to_number-cons, to_number-lt}
use native.Mathlib.Nat.{mul-add-div_right, div-eq_of_lt, div-lt_iff_lt-mul, div-add-mod', mod-lt}

quotient : (a p t : ℕ) → t < p → (a * p + t) / p ≡ a
quotient a p t h =
    mul-add-div_right (omega arith) a t ∙ ap (λ k. a + k) (div-eq_of_lt h) ∙ omega arith

fill_bytes-value :
    (q : ℕ) (bs : Bytes)
    → AreBytes bs
    → fill_bytes (length bs) (q * 256 ^ length bs + to_number bs) ≡ bs
unfolding fill_bytes
fill_bytes-value q [] h = refl
fill_bytes-value q (b ∷ bs) (hb, hs) =
    let p = 256 ^ length bs in
    let t = to_number bs in
    let power : 256 ^ suc (length bs) ≡ 256 * p = omega arith in
    let e : q * 256 ^ suc (length bs) + to_number (b ∷ bs) ≡ (q * 256 + b) * p + t =
      ap (λ k. q * k + to_number (b ∷ bs)) power
      ∙ ap (λ k. q * (256 * p) + k) (to_number-cons b bs)
      ∙ sym (digit_step q b p t) in
    let head : ((q * 256 + b) * p + t) / p % 256 ≡ b =
      ap (λ k. k % 256) (quotient (q * 256 + b) p t (to_number-lt bs hs)) ∙ omega arith in
    ap (λ n. (n / p) % 256 ∷ fill_bytes (length bs) n) e
    ∙ ap (λ k. k ∷ fill_bytes (length bs) ((q * 256 + b) * p + t)) head
    ∙ ap (λ l. b ∷ l) (fill_bytes-value (q * 256 + b) bs hs)

-- FillBytes writes the 32 bytes of a number back.
pub fill_bytes-to_number : (bs : Bytes) → AreBytes bs → fill_bytes (length bs) (to_number bs) ≡ bs
fill_bytes-to_number bs h = ap (fill_bytes (length bs)) (omega arith) ∙ fill_bytes-value 0 bs h

pub length-fill_bytes : (size n : ℕ) → length (fill_bytes size n) ≡ size
unfolding fill_bytes
length-fill_bytes zero n = refl
length-fill_bytes (suc size) n = ap suc (length-fill_bytes size n)

pub fill_bytes-AreBytes : (size n : ℕ) → AreBytes (fill_bytes size n)
unfolding fill_bytes
fill_bytes-AreBytes zero n = tt
fill_bytes-AreBytes (suc size) n = (omega arith, fill_bytes-AreBytes size n)

to_number-fill_bytes_value :
    (q size t : ℕ) → t < 256 ^ size → to_number (fill_bytes size (q * 256 ^ size + t)) ≡ t
unfolding fill_bytes value_from
to_number-fill_bytes_value q zero t h = omega arith
to_number-fill_bytes_value q (suc size) t h =
    let p = 256 ^ size in
    let b = t / p in
    let u = t % p in
    let power : 256 ^ suc size ≡ 256 * p = omega arith in
    let below : t < 256 * p = omega arith in
    let positive : 0 < p = omega arith in
    let few : b < 256 = (div-lt_iff_lt-mul positive).1 below in
    let less : u < p = mod-lt t positive in
    let whole : t ≡ b * p + u = sym (div-add-mod' t p) in
    let e : q * 256 ^ suc size + t ≡ (q * 256 + b) * p + u =
      ap (λ k. q * k + t) power ∙ ap (λ k. q * (256 * p) + k) whole ∙ sym (digit_step q b p u) in
    let head : ((q * 256 + b) * p + u) / p % 256 ≡ b =
      ap (λ k. k % 256) (quotient (q * 256 + b) p u less) ∙ omega arith in
    ap (λ n. to_number ((n / p) % 256 ∷ fill_bytes size n)) e
    ∙ ap (λ k. to_number (k ∷ fill_bytes size ((q * 256 + b) * p + u))) head
    ∙ to_number-cons b (fill_bytes size ((q * 256 + b) * p + u))
    ∙ ap (λ k. b * 256 ^ k + to_number (fill_bytes size ((q * 256 + b) * p + u)))
        (length-fill_bytes size ((q * 256 + b) * p + u))
    ∙ ap (λ k. b * p + k) (to_number-fill_bytes_value (q * 256 + b) size u less)
    ∙ sym whole

-- A number that fits is read back.
pub to_number-fill_bytes : (size n : ℕ) → n < 256 ^ size → to_number (fill_bytes size n) ≡ n
to_number-fill_bytes size n h =
    ap (λ k. to_number (fill_bytes size k)) (omega arith) ∙ to_number-fill_bytes_value 0 size n h
