-- ===== src/Base/Bytes.antt =====
-- Bytes and big-endian numbers: `SetBytes` and `Bytes` of math/big, and the loop that both the
-- library and `intBytes` of internal/adapter/out/blockchain/ethereum/transaction.go run.
use sigryx.Base.{
  ℕ, zero, suc, ◌+◌, ◌*◌, ◌/◌, ◌%◌, ◌^◌, ◌<◌, ◌≤◌, ◌≡◌, refl, sym, ap, ◌∙◌, List, [], ◌∷◌, ◌++◌,
  arith, append-nil, length, All, ◌==◌, true, false,
}

abbrev pub Bytes : Type 0
Bytes = List ℕ

abbrev pub IsByte : ℕ → Type 0
IsByte b = b < 256

abbrev pub AreBytes : Bytes → Type 0
AreBytes = All IsByte

-- The number that a byte string writes, most significant byte first, behind the number `acc`.
unfoldable pub value_from : ℕ → Bytes → ℕ
value_from acc [] = acc
value_from acc (b ∷ bs) = value_from (acc * 256 + b) bs

-- `new(big.Int).SetBytes`
abbrev pub to_number : Bytes → ℕ
to_number = value_from 0

-- `for value > 0 { i--; buf[i] = byte(value); value >>= 8 }`: what is in front of `acc` at the end.
unfoldable pub byte_loop : ℕ → ℕ → Bytes → Bytes
byte_loop zero value acc = acc
byte_loop (suc fuel) value acc = elim (value == 0) [
  | true ↦ acc
  | false ↦ byte_loop fuel (value / 256) ((value % 256) ∷ acc)
]

-- `big.Int.Bytes`: each round takes the value down, so the value itself is fuel enough.
unfoldable pub number_bytes : ℕ → Bytes
unfolding byte_loop
number_bytes value = byte_loop value value []

-- `big.Int.FillBytes` of a slice of `size` bytes, for a number that fits
unfoldable pub fill_bytes : ℕ → ℕ → Bytes
fill_bytes zero n = []
fill_bytes (suc size) n = (n / 256 ^ size) % 256 ∷ fill_bytes size n

pub value_from-append :
    (acc : ℕ) (xs ys : Bytes) → value_from acc (xs ++ ys) ≡ value_from (value_from acc xs) ys
unfolding value_from
value_from-append acc [] ys = refl
value_from-append acc (x ∷ xs) ys = value_from-append (acc * 256 + x) xs ys

pub byte_loop-zero : (fuel : ℕ) (acc : Bytes) → byte_loop fuel 0 acc ≡ acc
unfolding byte_loop
byte_loop-zero zero acc = refl
byte_loop-zero (suc fuel) acc = refl

pub byte_loop-suc :
    (fuel value : ℕ) (acc : Bytes)
    → 0 < value
    → byte_loop (suc fuel) value acc ≡ byte_loop fuel (value / 256) ((value % 256) ∷ acc)
unfolding byte_loop
byte_loop-suc fuel value acc h = ground arith

pub value_from-byte_loop :
    (fuel value : ℕ) (acc : Bytes)
    → value < 256 ^ fuel
    → value_from 0 (byte_loop fuel value acc) ≡ value_from value acc
value_from-byte_loop zero value acc h =
    let e : value ≡ 0 = omega arith in rw e (ap (value_from 0) (byte_loop-zero 0 acc))
value_from-byte_loop (suc fuel) zero acc h = ap (value_from 0) (byte_loop-zero (suc fuel) acc)
value_from-byte_loop (suc fuel) (suc v) acc h =
    ap (value_from 0) (byte_loop-suc fuel (suc v) acc (omega arith))
    ∙ value_from-byte_loop fuel (suc v / 256) ((suc v % 256) ∷ acc) (omega arith)
    ∙ (unfold value_from in ap (λ n. value_from n acc) (omega arith))

pub lt-pow : (n : ℕ) → n < 256 ^ n
lt-pow zero = omega arith
lt-pow (suc n) = omega (arith, lt-pow n)

pub byte_loop-AreBytes :
    (fuel value : ℕ) (acc : Bytes) → AreBytes acc → AreBytes (byte_loop fuel value acc)
byte_loop-AreBytes zero value acc h = unfold byte_loop in h
byte_loop-AreBytes (suc fuel) zero acc h = rw byte_loop-zero h
byte_loop-AreBytes (suc fuel) (suc v) acc h =
    rw (byte_loop-suc fuel (suc v) acc (omega arith))
      (byte_loop-AreBytes fuel (suc v / 256) ((suc v % 256) ∷ acc) (omega arith, h))

-- Any fuel that is enough gives the same bytes.
pub byte_loop_fuel :
    (f g value : ℕ) (acc : Bytes)
    → value < 256 ^ f
    → value < 256 ^ g
    → byte_loop f value acc ≡ byte_loop g value acc
byte_loop_fuel f g zero acc p q = byte_loop-zero f acc ∙ sym (byte_loop-zero g acc)
byte_loop_fuel zero g (suc v) acc p q = absurd (omega arith)
byte_loop_fuel (suc f) zero (suc v) acc p q = absurd (omega arith)
byte_loop_fuel (suc f) (suc g) (suc v) acc p q =
    byte_loop-suc f (suc v) acc (omega arith)
    ∙ byte_loop_fuel f g (suc v / 256) ((suc v % 256) ∷ acc) (omega arith) (omega arith)
    ∙ sym (byte_loop-suc g (suc v) acc (omega arith))

pub value_from-lt :
    (acc : ℕ) (bs : Bytes) → AreBytes bs → value_from acc bs < (acc + 1) * 256 ^ length bs
unfolding value_from
value_from-lt acc [] h = omega arith
value_from-lt acc (b ∷ bs) (hb, hs) =
    let p : (acc * 256 + b + 1) * 256 ^ length bs ≤ (acc + 1) * 256 * 256 ^ length bs =
      grind arith in
    let w : 256 ^ suc (length bs) ≡ 256 * 256 ^ length bs = omega arith in
    let e : (acc + 1) * 256 ^ suc (length bs) ≡ (acc + 1) * 256 * 256 ^ length bs =
      omega (arith, ap (λ (t : ℕ). (acc + 1) * t) w) in
    rw e (omega (arith, value_from-lt (acc * 256 + b) bs hs, p))

pub value_from-le : (acc : ℕ) (bs : Bytes) → acc ≤ value_from acc bs
unfolding value_from
value_from-le acc [] = omega arith
value_from-le acc (b ∷ bs) = omega (arith, value_from-le (acc * 256 + b) bs)

byte_loop-value_from :
    (fuel acc : ℕ) (bs rest : Bytes)
    → AreBytes bs
    → 0 < acc
    → byte_loop (fuel + length bs) (value_from acc bs) rest ≡ byte_loop fuel acc (bs ++ rest)
unfolding value_from
byte_loop-value_from fuel acc [] rest h p = ap (λ f. byte_loop f acc rest) (omega arith)
byte_loop-value_from fuel acc (b ∷ bs) rest (hb, hs) p =
    ap (λ f. byte_loop f (value_from acc (b ∷ bs)) rest) (omega arith)
    ∙ byte_loop-value_from (suc fuel) (acc * 256 + b) bs rest hs (omega arith)
    ∙ byte_loop-suc fuel (acc * 256 + b) (bs ++ rest) (omega arith)
    ∙ ap (λ n. byte_loop fuel n (((acc * 256 + b) % 256) ∷ (bs ++ rest))) (omega arith)
    ∙ ap (λ n. byte_loop fuel acc (n ∷ (bs ++ rest))) (omega arith)

value_from-lt-suc :
    (b : ℕ) (bs : Bytes) → b < 256 → AreBytes bs → value_from b bs < 256 ^ suc (length bs)
value_from-lt-suc b bs hb hs =
    let p : (b + 1) * 256 ^ length bs ≤ 256 * 256 ^ length bs = grind arith in
    omega (arith, value_from-lt b bs hs, p)

last_byte : (b : ℕ) (bs : Bytes) → b < 256 → byte_loop 0 (b / 256) ((b % 256) ∷ (bs ++ [])) ≡ b ∷ bs
unfolding byte_loop
last_byte b bs h = rw append-nil (ap (λ n. n ∷ bs) (omega arith))

-- What `SetBytes` reads, `Bytes` writes back, if the first byte is not 0.
pub byte_loop-to_number :
    (fuel b : ℕ) (bs : Bytes)
    → AreBytes (b ∷ bs)
    → 0 < b
    → to_number (b ∷ bs) < 256 ^ fuel
    → byte_loop fuel (to_number (b ∷ bs)) [] ≡ b ∷ bs
unfolding value_from
byte_loop-to_number fuel b bs (hb, hs) p q =
    let e : to_number (b ∷ bs) ≡ value_from b bs = ap (λ n. value_from n bs) (omega arith) in
    let bound : value_from b bs < 256 ^ suc (length bs) = value_from-lt-suc b bs hb hs in
    ap (λ n. byte_loop fuel n []) e
    ∙ byte_loop_fuel fuel (suc (length bs)) (value_from b bs) [] (rw e at q) bound
    ∙ ap (λ f. byte_loop f (value_from b bs) []) (omega arith)
    ∙ byte_loop-value_from 1 b bs [] hs p
    ∙ byte_loop-suc 0 b (bs ++ []) p
    ∙ last_byte b bs hb

pub number_bytes-to_number :
    (b : ℕ) (bs : Bytes) → AreBytes (b ∷ bs) → 0 < b → number_bytes (to_number (b ∷ bs)) ≡ b ∷ bs
unfolding number_bytes
number_bytes-to_number b bs h p = byte_loop-to_number _ b bs h p (lt-pow _)

pub to_number-number_bytes : (value : ℕ) → to_number (number_bytes value) ≡ value
unfolding number_bytes
to_number-number_bytes value =
    value_from-byte_loop value value [] (lt-pow value) ∙ (unfold value_from in refl)

pub number_bytes-AreBytes : (value : ℕ) → AreBytes (number_bytes value)
unfolding number_bytes
number_bytes-AreBytes value = byte_loop-AreBytes value value [] tt
