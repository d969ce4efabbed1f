-- ===== src/Rlp/Forms.antt =====
-- The short and the long forms that rlpBytes and rlpList write, under the decoder.
use sigryx.Base.{
  Bool, false, ℕ, ◌+◌, ◌≤◌, ◌<◌, ◌≡◌, refl, ap, ◌∙◌, [], ◌∷◌, ◌++◌, arith, ltb, length, take, drop,
  append_assoc, take-append, drop-append, length-append,
}
use sigryx.Base.Bytes.{Bytes}
use native.Mathlib.Decide.{dec_lt}
use sigryx.Rlp.{
  Decoded, Nodes, ok, text, list, max_int, int_bytes, decode_rlp_length, long_payload, short_text,
  long_text, short_list_case, long_list_case, decode_with, rlp_bytes, rlp_list_payload, as_list,
  RlpError, invalid_long_string, invalid_long_list,
}
use sigryx.Rlp.Steps.{
  decode_low, decode_short_text, decode_long_text, decode_short_list, decode_long_list,
  int_bytes_shape, decode_rlp_length_lem,
}

-- A long form: the bytes `prefix`, the length field, the payload and what follows.
module _ (p : ℕ) (payload rest : Bytes) (long : 55 < length payload) where
  abbrev field : Bytes
  field = int_bytes (length payload)

  abbrev framed : Bytes
  framed = p ∷ ((field ++ payload) ++ rest)

  decode_rlp_length-framed :
      length payload ≤ max_int → decode_rlp_length framed (length field) ≡ ok (length payload)
  decode_rlp_length-framed fits =
      let (b, bs, e, positive, short, bytes, value) =
        int_bytes_shape (length payload) (omega arith) fits in
      rw (e, append_assoc)
        (decode_rlp_length_lem p b bs (payload ++ rest) bytes positive short (omega arith)
          ∙ ap ok value)

  sliced : take (length payload) (drop (1 + length field) framed) ≡ payload
  sliced =
      ap (λ l. take (length payload) (drop (1 + length field) (p ∷ l)))
        (append_assoc field payload rest)
      ∙ ap (take (length payload))
          (drop-append (1 + length field) (p ∷ field) (payload ++ rest) (omega arith))
      ∙ take-append (length payload) payload rest refl

  long_payload-framed :
      (e : RlpError)
      → 1 + length field + length payload ≤ max_int
      → long_payload e framed (1 + length field) (ok (length payload))
        ≡ ok (payload, 1 + length field + length payload)
  unfolding long_payload
  long_payload-framed e fits =
      ground (arith, length-append (field ++ payload) rest, length-append field payload, sliced)

  field_length : length payload ≤ max_int → (1 ≤ length field) × (length field ≤ 8)
  field_length fits =
      let (b, bs, e, positive, short, bytes, value) =
        int_bytes_shape (length payload) (omega arith) fits in
      omega (arith, ap length e)

-- A byte below 0x80 that stands alone is written as itself.
abbrev pub self_coded : Bytes → Bool
self_coded (b ∷ []) = ltb b 0x80
self_coded _ = false

pub rlp_bytes-short :
    (bytes : Bytes)
    → self_coded bytes ≡ false
    → length bytes ≤ 55
    → rlp_bytes bytes ≡ (0x80 + length bytes) ∷ bytes
unfolding rlp_bytes
rlp_bytes-short [] h k = refl
rlp_bytes-short (b ∷ []) h k = rw h refl
rlp_bytes-short (a ∷ b ∷ bs) h k = ground arith

pub rlp_bytes-long :
    (bytes : Bytes)
    → 55 < length bytes
    → length bytes ≤ max_int
    → rlp_bytes bytes
      ≡ (0xb7 + length (int_bytes (length bytes))) ∷ (int_bytes (length bytes) ++ bytes)
rlp_bytes-long [] k fits = absurd (omega arith)
rlp_bytes-long (b ∷ []) k fits = absurd (omega arith)
rlp_bytes-long (a ∷ b ∷ bs) k fits =
    unfold rlp_bytes in ground (arith, field_length 0 (a ∷ b ∷ bs) [] k fits)

short_text-framed :
    (p : ℕ) (bytes rest : Bytes)
    → self_coded bytes ≡ false
    → short_text (length bytes) (p ∷ (bytes ++ rest)) ≡ ok (text bytes, 1 + length bytes)
unfolding short_text
short_text-framed p [] rest h = ground arith
short_text-framed p (b ∷ []) rest h = ground arith
short_text-framed p (a ∷ b ∷ bs) rest h =
    ground (arith, length-append bs rest, take-append (length bs) bs rest refl)

-- The string that rlpBytes writes.
decode-rlp_bytes_short :
    (items : Bytes → Decoded Nodes) (bytes rest : Bytes)
    → self_coded bytes ≡ false
    → length bytes ≤ 55
    → decode_with items (rlp_bytes bytes ++ rest) ≡ ok (text bytes, length (rlp_bytes bytes))
decode-rlp_bytes_short items bytes rest h k = rw (rlp_bytes-short bytes h k) (
    decode_short_text items (0x80 + length bytes) (bytes ++ rest) (omega arith) (omega arith)
    ∙ ap (λ n. short_text n ((0x80 + length bytes) ∷ (bytes ++ rest))) (omega arith)
    ∙ short_text-framed (0x80 + length bytes) bytes rest h
    ∙ ap (λ n. ok (text bytes, n)) (omega arith))

long_text_ok : (bytes : Bytes) (n : ℕ) → long_text (ok (bytes, n)) ≡ ok (text bytes, n)
unfolding long_text
long_text_ok bytes n = refl

pub length-rlp_bytes : (bytes : Bytes) → length bytes ≤ length (rlp_bytes bytes)
unfolding rlp_bytes
length-rlp_bytes [] = omega arith
length-rlp_bytes (b ∷ []) = ground arith
length-rlp_bytes (a ∷ b ∷ bs) =
    let bytes : Bytes = a ∷ b ∷ bs in ground (arith, length-append (int_bytes (length bytes)) bytes)

pub length-rlp_bytes_pos : (bytes : Bytes) → 0 < length (rlp_bytes bytes)
unfolding rlp_bytes
length-rlp_bytes_pos [] = omega arith
length-rlp_bytes_pos (b ∷ []) = ground arith
length-rlp_bytes_pos (a ∷ b ∷ bs) = ground arith

decode-rlp_bytes_long :
    (items : Bytes → Decoded Nodes) (bytes rest : Bytes)
    → 55 < length bytes
    → length (rlp_bytes bytes) ≤ max_int
    → decode_with items (rlp_bytes bytes ++ rest) ≡ ok (text bytes, length (rlp_bytes bytes))
decode-rlp_bytes_long items bytes rest k fits =
    let small : length bytes ≤ max_int = omega (arith, length-rlp_bytes bytes) in
    let (lo, hi) = field_length 0 bytes rest k small in
    let n : ℕ = length (int_bytes (length bytes)) in
    let e : rlp_bytes bytes ≡ (0xb7 + n) ∷ (int_bytes (length bytes) ++ bytes) =
      rlp_bytes-long bytes k small in
    let size : length (rlp_bytes bytes) ≡ 1 + n + length bytes =
      omega (arith, ap length e, length-append (int_bytes (length bytes)) bytes) in
    let q : ℕ = 0xb7 + n in
    rw (size, e)
      (decode_long_text items q ((int_bytes (length bytes) ++ bytes) ++ rest) (omega arith)
          (omega arith)
        ∙ ap
            (λ (m : ℕ). long_text (
              long_payload invalid_long_string (framed q bytes rest k) (1 + m)
                (decode_rlp_length (framed q bytes rest k) m)))
            (omega arith)
        ∙ ap (λ d. long_text (long_payload invalid_long_string (framed q bytes rest k) (1 + n) d))
            (decode_rlp_length-framed q bytes rest k small)
        ∙ ap long_text (long_payload-framed q bytes rest k invalid_long_string (omega arith))
        ∙ long_text_ok bytes (1 + n + length bytes))

pub decode-rlp_bytes :
    (items : Bytes → Decoded Nodes) (bytes rest : Bytes)
    → length (rlp_bytes bytes) ≤ max_int
    → decode_with items (rlp_bytes bytes ++ rest) ≡ ok (text bytes, length (rlp_bytes bytes))
decode-rlp_bytes items [] rest fits = decode-rlp_bytes_short items [] rest refl (omega arith)
decode-rlp_bytes items (b ∷ []) rest fits = elim (dec_lt b 0x80) [
  | yes low ↦
      let e : rlp_bytes (b ∷ []) ≡ b ∷ [] = unfold rlp_bytes in ground arith in
      rw e (decode_low items b rest (omega arith))
  | no high ↦ decode-rlp_bytes_short items (b ∷ []) rest (ground arith) (omega arith)
]
decode-rlp_bytes items (a ∷ b ∷ bs) rest fits = elim (dec_lt 55 (length (a ∷ b ∷ bs))) [
  | yes long ↦ decode-rlp_bytes_long items (a ∷ b ∷ bs) rest long fits
  | no short ↦ decode-rlp_bytes_short items (a ∷ b ∷ bs) rest refl (omega arith)
]

as_list_ok : (nodes : Nodes) (n : ℕ) → as_list (ok nodes) n ≡ ok (list nodes, n)
unfolding as_list
as_list_ok nodes n = refl

pub length-rlp_list_payload : (payload : Bytes) → length payload < length (rlp_list_payload payload)
unfolding rlp_list_payload
length-rlp_list_payload payload = ground (arith, length-append (int_bytes (length payload)) payload)

pub short_list_payload :
    (payload : Bytes)
    → length payload ≤ 55
    → rlp_list_payload payload ≡ (0xc0 + length payload) ∷ payload
unfolding rlp_list_payload
short_list_payload payload h = ground arith

pub long_list_payload :
    (payload : Bytes)
    → 55 < length payload
    → length payload ≤ max_int
    → rlp_list_payload payload
      ≡ (0xf7 + length (int_bytes (length payload))) ∷ (int_bytes (length payload) ++ payload)
unfolding rlp_list_payload
long_list_payload payload h fits = ground (arith, field_length 0 payload [] h fits)

-- The list that rlpList writes, if the payload decodes.
module _ (items : Bytes → Decoded Nodes) (payload rest : Bytes) (nodes : Nodes)
    (decoded : items payload ≡ ok nodes) where
  short_list-framed :
      (p : ℕ)
      → short_list_case items (length payload) (p ∷ (payload ++ rest))
        ≡ ok (list nodes, 1 + length payload)
  unfolding short_list_case
  short_list-framed p =
      ground
        (arith, length-append payload rest, take-append (length payload) payload rest refl, decoded)

  decode-rlp_list_short :
      length payload ≤ 55
      → decode_with items (rlp_list_payload payload ++ rest)
        ≡ ok (list nodes, length (rlp_list_payload payload))
  decode-rlp_list_short h = rw (short_list_payload payload h) (
      decode_short_list items (0xc0 + length payload) (payload ++ rest) (omega arith) (omega arith)
      ∙ ap (λ n. short_list_case items n ((0xc0 + length payload) ∷ (payload ++ rest)))
          (omega arith)
      ∙ short_list-framed (0xc0 + length payload)
      ∙ ap (λ n. ok (list nodes, n)) (omega arith))

  long_list-framed : (n : ℕ) → long_list_case items (ok (payload, n)) ≡ ok (list nodes, n)
  unfolding long_list_case
  long_list-framed n = rw decoded refl

  decode-rlp_list_long :
      55 < length payload
      → length (rlp_list_payload payload) ≤ max_int
      → decode_with items (rlp_list_payload payload ++ rest)
        ≡ ok (list nodes, length (rlp_list_payload payload))
  decode-rlp_list_long k fits =
      let small : length payload ≤ max_int = omega (arith, length-rlp_list_payload payload) in
      let (lo, hi) = field_length 0 payload rest k small in
      let n : ℕ = length (int_bytes (length payload)) in
      let e : rlp_list_payload payload ≡ (0xf7 + n) ∷ (int_bytes (length payload) ++ payload) =
        long_list_payload payload k small in
      let size : length (rlp_list_payload payload) ≡ 1 + n + length payload =
        omega (arith, ap length e, length-append (int_bytes (length payload)) payload) in
      let q : ℕ = 0xf7 + n in
      rw (size, e)
        (decode_long_list items q ((int_bytes (length payload) ++ payload) ++ rest) (omega arith)
          ∙ ap
              (λ (m : ℕ). long_list_case items (
                long_payload invalid_long_list (framed q payload rest k) (1 + m)
                  (decode_rlp_length (framed q payload rest k) m)))
              (omega arith)
          ∙ ap
              (λ d.
                long_list_case items
                  (long_payload invalid_long_list (framed q payload rest k) (1 + n) d))
              (decode_rlp_length-framed q payload rest k small)
          ∙ ap (long_list_case items)
              (long_payload-framed q payload rest k invalid_long_list (omega arith))
          ∙ long_list-framed (1 + n + length payload))

  pub decode-rlp_list :
      length (rlp_list_payload payload) ≤ max_int
      → decode_with items (rlp_list_payload payload ++ rest)
        ≡ ok (list nodes, length (rlp_list_payload payload))
  decode-rlp_list fits = elim (dec_lt 55 (length payload)) [
    | yes long ↦ decode-rlp_list_long long fits
    | no short ↦ decode-rlp_list_short (omega arith)
  ]
