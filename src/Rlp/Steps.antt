-- ===== src/Rlp/Steps.antt =====
-- What the decoder of Rlp does on each range of the first byte, and lengths that the encoder writes.
use sigryx.Base.{
  ℕ, zero, suc, ◌+◌, ◌-◌, ◌*◌, ◌/◌, ◌%◌, ◌^◌, ◌≤◌, ◌<◌, ◌≡◌, refl, sym, ap, ◌∙◌, subst, [], ◌∷◌,
  ◌++◌, arith, length, take, take-append, length-append,
}
use sigryx.Base.Bytes.{
  Bytes, AreBytes, byte_loop, byte_loop-zero, byte_loop-suc, value_from, value_from-le, to_number,
  value_from-byte_loop, byte_loop-AreBytes,
}
use native.Mathlib.Decide.{dec_lt}
use sigryx.Rlp.{
  Decoded, Nodes, ok, text, max_int, int_bytes, length_loop, decode_rlp_length, long_payload,
  short_text, long_text, short_list_case, long_list_case, decode_with, invalid_long_string,
  invalid_long_list,
}

module _ (items : Bytes → Decoded Nodes) (p : ℕ) (rest : Bytes) where
  pub decode_low : p ≤ 0x7f → decode_with items (p ∷ rest) ≡ ok (text (p ∷ []), 1)
  unfolding decode_with
  decode_low h = ground arith

  pub decode_short_text :
      0x80 ≤ p → p ≤ 0xb7 → decode_with items (p ∷ rest) ≡ short_text (p - 0x80) (p ∷ rest)
  unfolding decode_with
  decode_short_text h k = ground arith

  pub decode_long_text :
      0xb8 ≤ p
      → p ≤ 0xbf
      → decode_with items (p ∷ rest)
        ≡ long_text (
            long_payload invalid_long_string
              (p ∷ rest)
              (1 + (p - 0xb7))
              (decode_rlp_length (p ∷ rest) (p - 0xb7)))
  unfolding decode_with
  decode_long_text h k = ground arith

  pub decode_short_list :
      0xc0 ≤ p
      → p ≤ 0xf7
      → decode_with items (p ∷ rest) ≡ short_list_case items (p - 0xc0) (p ∷ rest)
  unfolding decode_with
  decode_short_list h k = ground arith

  pub decode_long_list :
      0xf8 ≤ p
      → decode_with items (p ∷ rest)
        ≡ long_list_case items (
            long_payload invalid_long_list
              (p ∷ rest)
              (1 + (p - 0xf7))
              (decode_rlp_length (p ∷ rest) (p - 0xf7)))
  unfolding decode_with
  decode_long_list h = ground arith

-- The bytes of a number that is not 0 start with a byte that is not 0.
pub byte_loop_head :
    (fuel value : ℕ) (acc : Bytes)
    → 0 < value
    → value < 256 ^ fuel
    → (b : ℕ) × (bs : Bytes) × (byte_loop fuel value acc ≡ b ∷ bs) × (0 < b)
byte_loop_head zero value acc h k = absurd (omega arith)
byte_loop_head (suc fuel) value acc h k =
    rw (byte_loop-suc fuel value acc h) (elim (dec_lt 0 (value / 256)) [
      | yes more ↦ byte_loop_head fuel (value / 256) ((value % 256) ∷ acc) more (omega arith)
      | no last ↦ (
        value % 256,
        acc,
        ap (λ v. byte_loop fuel v ((value % 256) ∷ acc)) (omega arith)
            ∙ byte_loop-zero fuel ((value % 256) ∷ acc),
        omega arith,
      )
    ])

pub length-byte_loop :
    (fuel value : ℕ) (acc : Bytes) → length (byte_loop fuel value acc) ≤ fuel + length acc
unfolding byte_loop
length-byte_loop zero value acc = omega arith
length-byte_loop (suc fuel) value acc =
    ground (arith, length-byte_loop fuel (value / 256) ((value % 256) ∷ acc))

-- The length field of a long form: 1 to 8 bytes, the first of them not 0, that write the number.
pub int_bytes_shape :
    (n : ℕ)
    → 0 < n
    → n ≤ max_int
    → (b : ℕ) × (bs : Bytes) × (int_bytes n ≡ b ∷ bs)
      × (0 < b)
      × (length bs < 8)
      × AreBytes (b ∷ bs)
      × (to_number (b ∷ bs) ≡ n)
unfolding int_bytes
int_bytes_shape n h k =
    let bound : n < 256 ^ 8 = omega arith in
    let (b, bs, e, positive) = byte_loop_head 8 n [] h bound in
    (
      b,
      bs,
      e,
      positive,
      omega (arith, length-byte_loop 8 n [], ap length e),
      subst AreBytes e (byte_loop-AreBytes 8 n [] tt),
      ap to_number (sym e) ∙ value_from-byte_loop 8 n [] bound ∙ (unfold value_from in refl),
    )

pub length_loop-value_from :
    (acc : ℕ) (bs : Bytes)
    → AreBytes bs
    → value_from acc bs ≤ max_int
    → length_loop acc bs ≡ ok (value_from acc bs)
unfolding length_loop value_from
length_loop-value_from acc [] h k = refl
length_loop-value_from acc (b ∷ bs) (hb, hs) k =
    ground (arith, value_from-le (acc * 256 + b) bs, length_loop-value_from (acc * 256 + b) bs hs k)

-- Where the loop returns a length, it is the number that the bytes write, and an `int`.
pub length_loop_ok :
    (acc : ℕ) (bs : Bytes) (n : ℕ)
    → acc ≤ max_int
    → AreBytes bs
    → length_loop acc bs ≡ ok n
    → (n ≡ value_from acc bs) × (n ≤ max_int)
unfolding length_loop value_from
length_loop_ok acc [] n a h e = ground arith
length_loop_ok acc (b ∷ bs) n a (hb, hs) e = ground (arith, length_loop_ok (acc * 256 + b) bs n)

-- The reader of a length field that the encoder may write.
pub decode_rlp_length_lem :
    (p b : ℕ) (bs tail : Bytes)
    → AreBytes (b ∷ bs)
    → 0 < b
    → length bs < 8
    → to_number (b ∷ bs) ≤ max_int
    → decode_rlp_length (p ∷ b ∷ (bs ++ tail)) (suc (length bs)) ≡ ok (to_number (b ∷ bs))
unfolding decode_rlp_length
decode_rlp_length_lem p b bs tail h positive short fits =
    ground (arith, length-append bs tail, sliced, length_loop-value_from 0 (b ∷ bs) h fits)
  where
    sliced : take (suc (length bs)) (b ∷ (bs ++ tail)) ≡ b ∷ bs
    sliced = take-append (suc (length bs)) (b ∷ bs) tail refl
