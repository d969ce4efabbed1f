-- ===== src/Scalar/Modular.antt =====
-- Private keys as numbers: which are valid, and that addScalarsModN adds modulo the order of the curve.
use sigryx.Base.{
  ℕ, ◌+◌, ◌*◌, ◌%◌, ◌^◌, ◌<◌, ◌≤◌, ◌≡◌, refl, sym, ap, ◌∙◌, Bool, true, false, not, [], ◌∷◌, arith,
  ltb, ◌==◌, if◌then◌else◌, length, Bool-cases, inl, inr, ltb→lt, ◌&&◌,
}
use sigryx.Base.Bytes.{Bytes, AreBytes, value_from, to_number}
use sigryx.Scalar.{
  curve_n_bytes, compare_bytes, valid_private_key, add_bytes, subtract_bytes, scalar33_at_least_n,
  add_scalars_mod_n,
}
use sigryx.Scalar.Bytewise.{compare_bytes_lem, to_number-lt}
use sigryx.Scalar.Sums.{non_zero_lem, Sum, add_bytes_lem, Difference, subtract_bytes_lem}

-- The order of the curve
abbrev pub curve_n : ℕ
curve_n = 0xfffffffffffffffffffffffffffffffebaaedce6af48a03bbfd25e8cd0364141

pub curve_n_bytes-number : to_number curve_n_bytes ≡ curve_n
unfolding value_from
curve_n_bytes-number = refl

abbrev pub all_bytes : Bytes → Bool
all_bytes [] = true
all_bytes (b ∷ bs) = ltb b 256 && all_bytes bs

pub all_bytes-AreBytes : (bs : Bytes) → all_bytes bs ≡ true → AreBytes bs
all_bytes-AreBytes [] h = tt
all_bytes-AreBytes (b ∷ bs) h = (ground arith, all_bytes-AreBytes bs (ground arith))

curve_n_bytes-AreBytes : AreBytes curve_n_bytes
curve_n_bytes-AreBytes = all_bytes-AreBytes curve_n_bytes refl

-- Comparison with the order of the curve
compare_n :
    (smaller same : Bool) (bs : Bytes)
    → AreBytes bs
    → length bs ≡ 32
    → compare_bytes smaller same bs curve_n_bytes ≡ (
        if ltb (to_number bs) curve_n
        then smaller
        else if ltb curve_n (to_number bs)
        then not smaller
        else same)
compare_n smaller same bs h size =
    compare_bytes_lem smaller same bs curve_n_bytes h curve_n_bytes-AreBytes size
    ∙ ap
        (λ n.
          if ltb (to_number bs) n
          then smaller
          else if ltb n (to_number bs)
          then not smaller
          else same)
        curve_n_bytes-number

-- On bytes, validPrivateKey accepts exactly the byte strings of 32 bytes that write a number from 1 to n - 1.
pub valid_private_key_lem :
    (key : Bytes)
    → AreBytes key
    → valid_private_key key
      ≡ (length key == 32) && (ltb 0 (to_number key) && ltb (to_number key) curve_n)
unfolding valid_private_key
valid_private_key_lem key h = elim (Bool-cases (length key == 32)) [
  | inl e ↦
      let size : length key ≡ 32 = ground arith in
      ground (arith, e, non_zero_lem key, compare_n true false key h size)
  | inr e ↦ rw e refl
]

-- The subtraction of n, where the sum with its carry is at least n and below 2 n.
subtract_n :
    (c z d b t : ℕ)
    → c * 256 ^ 32 + z ≡ t
    → d + curve_n ≡ z + b * 256 ^ 32
    → c ≤ 1
    → b ≤ 1
    → z < 256 ^ 32
    → d < 256 ^ 32
    → curve_n ≤ t
    → t < 2 * curve_n
    → d ≡ t % curve_n
subtract_n c z d b t e f c1 b1 zs ds least most = omega arith

below_n : (c z t : ℕ) → c * 256 ^ 32 + z ≡ t → t < curve_n → z ≡ t % curve_n
below_n c z t e h = omega arith

-- addScalarsModN, on two byte strings of 32 bytes that write numbers below n, leaves 32 bytes that write
-- their sum modulo n.
pub add_scalars_mod_n_lem :
    (a b : Bytes)
    → AreBytes a
    → AreBytes b
    → length a ≡ 32
    → length b ≡ 32
    → to_number a < curve_n
    → to_number b < curve_n
    → (to_number (add_scalars_mod_n a b) ≡ (to_number a + to_number b) % curve_n)
      × (length (add_scalars_mod_n a b) ≡ 32)
      × AreBytes (add_scalars_mod_n a b)
unfolding add_scalars_mod_n
add_scalars_mod_n_lem a b ha hb la lb sa sb =
    let z = (add_bytes a b).0 in
    let c = (add_bytes a b).1 in
    let s : Sum a b z c = add_bytes_lem a b ha hb (la ∙ sym lb) in
    let lz : length z ≡ 32 = s.size ∙ la in
    let d = (subtract_bytes z curve_n_bytes).0 in
    let r = (subtract_bytes z curve_n_bytes).1 in
    let m : Difference z curve_n_bytes d r =
      subtract_bytes_lem z curve_n_bytes s.bytes curve_n_bytes-AreBytes lz in
    let ld : length d ≡ 32 = m.size ∙ lz in
    let total : c * 256 ^ 32 + to_number z ≡ to_number a + to_number b =
      ap (λ n. c * 256 ^ n + to_number z) (sym lz) ∙ s.total in
    let difference : to_number d + curve_n ≡ to_number z + r * 256 ^ 32 =
      ap (λ n. to_number d + n) (sym curve_n_bytes-number)
      ∙ m.total
      ∙ ap (λ n. to_number z + r * 256 ^ n) ld in
    let zlt : to_number z < 256 ^ 32 =
      omega (arith, to_number-lt z s.bytes, ap (λ n. 256 ^ n) lz) in
    let dlt : to_number d < 256 ^ 32 =
      omega (arith, to_number-lt d m.bytes, ap (λ n. 256 ^ n) ld) in
    let least : scalar33_at_least_n (c % 256) z ≡ not (ltb (to_number a + to_number b) curve_n) =
      (unfold scalar33_at_least_n in
        ground (arith, s.small, total, zlt, compare_n false true z s.bytes lz)) in
    elim (Bool-cases (ltb (to_number a + to_number b) curve_n)) [
      | inl e ↦
          rw (least, e)
            (below_n c (to_number z) (to_number a + to_number b) total (ltb→lt _ _ e), lz, s.bytes)
      | inr e ↦
          rw (least, e)
            (
              subtract_n c (to_number z) (to_number d) r (to_number a + to_number b) total
                  difference s.small m.small zlt dlt (ground arith) (omega arith),
              ld,
              m.bytes,
            )
    ]
