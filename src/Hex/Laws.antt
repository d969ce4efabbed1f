-- ===== src/Hex/Laws.antt =====
-- What the readers of texts return.
use sigryx.Base.{
  ℕ, ◌^◌, ◌<◌, ◌≡◌, sym, ap, ◌∙◌, Bool, true, false, not, Option, none, some, [], ◌∷◌, ◌⊎◌, inl,
  inr, arith, ltb, ◌==◌, length, drop, Bool-cases,
}
use sigryx.Base.Bytes.{Bytes}
use sigryx.Hex.{
  set_string, has_hex_prefix, at_most_256_bits, parse_quantity, decode_hex, of_size,
  decode_fixed_hex, decode_address,
}

at_most_256_bits-lt : (o : Option ℕ) (n : ℕ) → at_most_256_bits o ≡ some n → n < 2 ^ 256
at_most_256_bits-lt none n h = cc
at_most_256_bits-lt (some m) n h = elim (Bool-cases (ltb m (2 ^ 256))) [
  | inl e ↦ let same : some m ≡ some n = rw e at h in let m_n : m ≡ n = cc in ground arith
  | inr e ↦ absurd (cc (rw e at h))
]

-- A quantity fits in 256 bits.
pub parse_quantity-lt : (value : Bytes) (n : ℕ) → parse_quantity value ≡ some n → n < 2 ^ 256
unfolding parse_quantity
parse_quantity-lt [] n h = let none_left : 0 ≡ n = cc in omega arith
parse_quantity-lt (c ∷ cs) n h = elim (Bool-cases (has_hex_prefix (c ∷ cs))) [
  | inl e ↦ at_most_256_bits-lt (set_string 16 (drop 2 (c ∷ cs))) n (rw e at h)
  | inr e ↦ at_most_256_bits-lt (set_string 10 (c ∷ cs)) n (rw e at h)
]

of_size-length :
    (size : ℕ) (o : Option Bytes) (bytes : Bytes)
    → of_size size o ≡ some bytes
    → length bytes ≡ size
of_size-length size none bytes h = cc
of_size-length size (some b) bytes h = elim (Bool-cases (not (length b == size))) [
  | inl e ↦ absurd (cc (rw e at h))
  | inr e ↦
      let same : some b ≡ some bytes = rw e at h in
      let b_bytes : b ≡ bytes = cc in
      let whole : length b ≡ size = ground arith in ap length (sym b_bytes) ∙ whole
]

pub decode_fixed_hex-length :
    (value : Bytes) (size : ℕ) (bytes : Bytes)
    → decode_fixed_hex value size ≡ some bytes
    → length bytes ≡ size
unfolding decode_fixed_hex
decode_fixed_hex-length value size bytes h = of_size-length size (decode_hex value) bytes h

-- An address is 20 bytes; it may be left out where the caller allows it.
pub decode_address-length :
    (value : Bytes) (allow_empty : Bool) (bytes : Bytes)
    → decode_address value allow_empty ≡ some bytes
    → (bytes ≡ []) ⊎ (length bytes ≡ 20)
unfolding decode_address
decode_address-length [] true bytes h = inl (sym (let same : [] ≡ bytes = cc in same))
decode_address-length [] false bytes h = inr (decode_fixed_hex-length [] 20 bytes h)
decode_address-length (c ∷ cs) true bytes h = inr (decode_fixed_hex-length (c ∷ cs) 20 bytes h)
decode_address-length (c ∷ cs) false bytes h = inr (decode_fixed_hex-length (c ∷ cs) 20 bytes h)
