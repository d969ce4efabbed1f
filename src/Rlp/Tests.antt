-- ===== src/Rlp/Tests.antt =====
-- Runs of the RLP codec, and its theorems at concrete inputs.
use sigryx.Base.{◌≤◌, ◌<◌, ◌≡◌, ◌≢◌, refl, [], ◌∷◌, ◌++◌, arith, length, take, replicate}
use sigryx.Base.Bytes.{Bytes, value_from, byte_loop}
use sigryx.Base.Text.{codes}
use sigryx.Rlp.{
  Node, ok, panic, stuck, err, text, list, nil, cons, encode, decode_rlp, rlp_bytes,
  rlp_list_payload, int_bytes, short_string, non_canonical_string,
}
use sigryx.Rlp.RoundTrip.{decode_rlp-encode}
use sigryx.Rlp.Canonical.{encode-decode_rlp}
use sigryx.Rlp.Decoder.{decode_rlp-ne-stuck}
use sigryx.Rlp.Overflow.{decode_rlp_overflow}

-- [ "dog", [], "" ]
abbrev sample : Node
sample = list (cons (text (codes "dog")) (cons (list nil) (cons (text []) nil)))

encode-sample : encode sample ≡ 0xc6 ∷ 0x83 ∷ 0x64 ∷ 0x6f ∷ 0x67 ∷ 0xc0 ∷ 0x80 ∷ []
unfolding encode rlp_list_payload rlp_bytes
encode-sample = refl

encode_long : encode (text (replicate 56 1)) ≡ 0xb8 ∷ 56 ∷ replicate 56 1
unfolding encode rlp_bytes int_bytes byte_loop
encode_long = refl

decode_sample :
    decode_rlp (0xc6 ∷ 0x83 ∷ 0x64 ∷ 0x6f ∷ 0x67 ∷ 0xc0 ∷ 0x80 ∷ 9 ∷ []) ≡ ok (sample, 7)
unfolding decode_rlp
decode_sample = refl

decode_padded : decode_rlp (0x81 ∷ 5 ∷ []) ≡ err non_canonical_string
unfolding decode_rlp
decode_padded = refl

decode_short : decode_rlp (0x83 ∷ 5 ∷ []) ≡ err short_string
unfolding decode_rlp
decode_short = refl

decode_rlp-encode_example :
    decode_rlp (encode sample ++ (9 ∷ [])) ≡ ok (sample, length (encode sample))
unfolding encode rlp_list_payload rlp_bytes
decode_rlp-encode_example = decode_rlp-encode sample (9 ∷ []) (omega arith)

encode-decode_rlp_example :
    (encode sample ≡ take 7 (0xc6 ∷ 0x83 ∷ 0x64 ∷ 0x6f ∷ 0x67 ∷ 0xc0 ∷ 0x80 ∷ 9 ∷ []))
    × (0 < 7)
    × (7 ≤ 8)
encode-decode_rlp_example =
    encode-decode_rlp (0xc6 ∷ 0x83 ∷ 0x64 ∷ 0x6f ∷ 0x67 ∷ 0xc0 ∷ 0x80 ∷ 9 ∷ []) sample 7
      (omega arith) decode_sample

abbrev all_ones : Bytes
all_ones = replicate 7 0xff

decode_rlp_overflow_example :
    (decode_rlp (0xbf ∷ 0x7f ∷ (all_ones ++ (1 ∷ []))) ≡ panic)
    × (decode_rlp (0xff ∷ 0x7f ∷ (all_ones ++ (1 ∷ []))) ≡ panic)
unfolding value_from
decode_rlp_overflow_example =
    decode_rlp_overflow 0x7f all_ones (1 ∷ []) (omega arith) (omega arith) (omega arith)
      (omega arith) (omega arith)

decode_rlp-ne-stuck_example : decode_rlp (0xc2 ∷ 0x83 ∷ 0xc1 ∷ []) ≢ stuck
decode_rlp-ne-stuck_example = decode_rlp-ne-stuck (0xc2 ∷ 0x83 ∷ 0xc1 ∷ [])
