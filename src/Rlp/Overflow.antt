-- ===== src/Rlp/Overflow.antt =====
-- The sum `offset+length` of the long forms in decodeRLP, where it leaves the range of `int`.
use sigryx.Base.{ℕ, suc, ◌+◌, ◌≤◌, ◌<◌, ◌≡◌, refl, ap, ◌∙◌, ◌∷◌, ◌++◌, arith, length}
use sigryx.Base.Bytes.{Bytes, AreBytes, to_number}
use sigryx.Rlp.{
  Decoded, ok, panic, max_int, long_payload, long_text, long_list_case, decode_with, decode_rlp,
  RlpError, Nodes,
}
use sigryx.Rlp.{decode_rlp_length, invalid_long_string, invalid_long_list, decode_nodes}
use sigryx.Rlp.Steps.{decode_long_text, decode_long_list, decode_rlp_length_lem}

long_payload_overflow :
    (e : RlpError) (bytes : Bytes) (n : ℕ)
    → 55 < n
    → max_int < 9 + n
    → long_payload e bytes 9 (ok n) ≡ panic
unfolding long_payload
long_payload_overflow e bytes n long over = ground arith

module _ (b : ℕ) (bs rest : Bytes) (bytes : AreBytes (b ∷ bs)) (positive : 0 < b)
    (wide : length bs ≡ 7) (small : to_number (b ∷ bs) ≤ max_int)
    (over : max_int < 9 + to_number (b ∷ bs)) where
  long_field : (p : ℕ) → decode_rlp_length (p ∷ b ∷ (bs ++ rest)) 8 ≡ ok (to_number (b ∷ bs))
  long_field p =
      let e : 8 ≡ suc (length bs) = omega arith in
      ap (decode_rlp_length (p ∷ b ∷ (bs ++ rest))) e
      ∙ decode_rlp_length_lem p b bs rest bytes positive (omega arith) small

  overflow_text :
      (items : Bytes → Decoded Nodes) → decode_with items (0xbf ∷ b ∷ (bs ++ rest)) ≡ panic
  overflow_text items =
      decode_long_text items 0xbf (b ∷ (bs ++ rest)) (omega arith) (omega arith)
      ∙ ap (λ d. long_text (long_payload invalid_long_string (0xbf ∷ b ∷ (bs ++ rest)) 9 d))
          (long_field 0xbf)
      ∙ ap long_text (
          long_payload_overflow invalid_long_string (0xbf ∷ b ∷ (bs ++ rest)) (to_number (b ∷ bs))
            (omega arith) over)
      ∙ (unfold long_text in refl)

  overflow_list :
      (items : Bytes → Decoded Nodes) → decode_with items (0xff ∷ b ∷ (bs ++ rest)) ≡ panic
  overflow_list items =
      decode_long_list items 0xff (b ∷ (bs ++ rest)) (omega arith)
      ∙ ap
          (λ d. long_list_case items (long_payload invalid_long_list (0xff ∷ b ∷ (bs ++ rest)) 9 d))
          (long_field 0xff)
      ∙ ap (long_list_case items) (
          long_payload_overflow invalid_long_list (0xff ∷ b ∷ (bs ++ rest)) (to_number (b ∷ bs))
            (omega arith) over)
      ∙ (unfold long_list_case in refl)

  -- An eight-byte length field that writes an `int`, but one that passes the largest `int` when the
  -- nine bytes in front of the payload are added, makes the decoder panic behind both prefixes that
  -- announce such a field, whatever follows.
  pub decode_rlp_overflow :
      (decode_rlp (0xbf ∷ b ∷ (bs ++ rest)) ≡ panic)
      × (decode_rlp (0xff ∷ b ∷ (bs ++ rest)) ≡ panic)
  unfolding decode_rlp
  decode_rlp_overflow = (
    overflow_text (decode_nodes (length (0xbf ∷ b ∷ (bs ++ rest)))),
    overflow_list (decode_nodes (length (0xff ∷ b ∷ (bs ++ rest)))),
  )
