-- ===== src/Rlp/Decoder.antt =====
-- What the decoder of Rlp returns on any input: it ends, and where its parts succeed they have read
-- the only bytes that the encoder writes for them.
use sigryx.Base.{
  ℕ, zero, suc, ◌+◌, ◌-◌, ◌*◌, ◌≤◌, ◌<◌, ◌≡◌, ◌≢◌, refl, ap, [], ◌∷◌, arith, length, take, drop,
  length-take, length-drop, All-take,
}
use sigryx.Base.Bytes.{Bytes, AreBytes, IsByte, to_number}
use native.Mathlib.Decide.{dec_lt}
use sigryx.Rlp.{
  Decoded, Node, Nodes, ok, err, panic, stuck, max_int, length_loop, decode_rlp_length,
  long_payload, short_text, long_text, short_list_case, long_list_case, as_list, decode_with,
  list_round, push, decode_nodes, decode_rlp, RlpError, invalid_long_string, invalid_long_list,
}
use sigryx.Rlp.Steps.{length_loop_ok}

length_loop-ne-stuck : (n : ℕ) (bs : Bytes) → length_loop n bs ≢ stuck
unfolding length_loop
length_loop-ne-stuck n [] = λ e. cc
length_loop-ne-stuck n (b ∷ bs) = ground (arith, length_loop-ne-stuck (n * 256 + b) bs)

decode_rlp_length-ne-stuck : (bytes : Bytes) (k : ℕ) → decode_rlp_length bytes k ≢ stuck
unfolding decode_rlp_length
decode_rlp_length-ne-stuck bytes k = ground (arith, length_loop-ne-stuck 0 (take k (drop 1 bytes)))

-- What a long form hands on: the slice behind the length field.
pub long_payload_ok :
    (e : RlpError) (bytes : Bytes) (offset : ℕ) (d : Decoded ℕ) (payload : Bytes) (c : ℕ)
    → long_payload e bytes offset d ≡ ok (payload, c)
    → (n : ℕ) × (d ≡ ok n)
      × (55 < n)
      × (offset + n ≤ length bytes)
      × (payload ≡ take n (drop offset bytes))
      × (c ≡ offset + n)
unfolding long_payload
long_payload_ok e bytes offset (ok n) payload c h =
    (n, refl, ground arith, ground arith, ground arith, ground arith)
long_payload_ok e bytes offset (err x) payload c h = cc
long_payload_ok e bytes offset panic payload c h = cc
long_payload_ok e bytes offset stuck payload c h = cc

-- What the reader of a length field has read: 1 to 8 bytes, the first of them not 0.
pub decode_rlp_length_ok :
    (bytes : Bytes) (k n : ℕ)
    → AreBytes bytes
    → decode_rlp_length bytes k ≡ ok n
    → (b : ℕ) × (bs : Bytes) × (take k (drop 1 bytes) ≡ b ∷ bs)
      × (0 < b)
      × (k ≤ 8)
      × (1 + k ≤ length bytes)
      × (n ≡ to_number (b ∷ bs))
      × (n ≤ max_int)
unfolding decode_rlp_length
decode_rlp_length_ok [] k n h e = ground arith
decode_rlp_length_ok (p ∷ []) k n h e = ground arith
decode_rlp_length_ok (p ∷ b ∷ bs) zero n h e = ground arith
decode_rlp_length_ok (p ∷ b ∷ bs) (suc k) n (hp, (hb, hs)) e =
    let f = length_loop_ok 0 (b ∷ take k bs) n (omega arith) (hb, All-take IsByte k bs hs) in
    (
      b,
      take k bs,
      refl,
      ground arith,
      ground arith,
      ground arith,
      ground (arith, f),
      ground (arith, f),
    )

-- The payload of a long form is shorter than the input.
long_payload_shorter :
    (e : RlpError) (bytes : Bytes) (offset : ℕ) (d : Decoded ℕ) (payload : Bytes) (c : ℕ)
    → 0 < offset
    → long_payload e bytes offset d ≡ ok (payload, c)
    → length payload < length bytes
long_payload_shorter e bytes offset d payload c h q =
    let (n, r, long, fits, f, g) = long_payload_ok e bytes offset d payload c q in
    omega (arith, ap length f, length-take n (drop offset bytes), length-drop offset bytes)

long_payload-ne-stuck :
    (e : RlpError) (bytes : Bytes) (offset : ℕ) (d : Decoded ℕ)
    → d ≢ stuck
    → long_payload e bytes offset d ≢ stuck
unfolding long_payload
long_payload-ne-stuck e bytes offset (ok n) h = ground arith
long_payload-ne-stuck e bytes offset (err x) h = λ q. cc
long_payload-ne-stuck e bytes offset panic h = λ q. cc
long_payload-ne-stuck e bytes offset stuck h = absurd (h refl)

as_list-ne-stuck : (d : Decoded Nodes) (n : ℕ) → d ≢ stuck → as_list d n ≢ stuck
unfolding as_list
as_list-ne-stuck (ok nodes) n h = λ q. cc
as_list-ne-stuck (err x) n h = λ q. cc
as_list-ne-stuck panic n h = λ q. cc
as_list-ne-stuck stuck n h = absurd (h refl)

short_text-ne-stuck : (n : ℕ) (bytes : Bytes) → short_text n bytes ≢ stuck
unfolding short_text
short_text-ne-stuck n bytes = ground arith

long_text-ne-stuck : (d : Decoded (Bytes × ℕ)) → d ≢ stuck → long_text d ≢ stuck
unfolding long_text
long_text-ne-stuck (ok (payload, c)) h = λ q. cc
long_text-ne-stuck (err x) h = λ q. cc
long_text-ne-stuck panic h = λ q. cc
long_text-ne-stuck stuck h = absurd (h refl)

module _ (items : Bytes → Decoded Nodes) where
  long_list_case-ne-stuck :
      (d : Decoded (Bytes × ℕ))
      → d ≢ stuck
      → ((payload : Bytes) (c : ℕ) → d ≡ ok (payload, c) → items payload ≢ stuck)
      → long_list_case items d ≢ stuck
  unfolding long_list_case
  long_list_case-ne-stuck (ok (payload, c)) h k =
      as_list-ne-stuck (items payload) c (k payload c refl)
  long_list_case-ne-stuck (err x) h k = λ q. cc
  long_list_case-ne-stuck panic h k = λ q. cc
  long_list_case-ne-stuck stuck h k = absurd (h refl)

  -- The decoder ends on an input, if the list decoder ends on all that is shorter.
  decode_with-ne-stuck :
      (bytes : Bytes)
      → ((payload : Bytes) → length payload < length bytes → items payload ≢ stuck)
      → decode_with items bytes ≢ stuck
  unfolding decode_with short_list_case
  decode_with-ne-stuck [] below = λ q. cc
  decode_with-ne-stuck (p ∷ rest) below =
      let bytes : Bytes = p ∷ rest in
      let text_form =
        long_payload-ne-stuck invalid_long_string bytes (1 + (p - 0xb7)) _
          (decode_rlp_length-ne-stuck bytes (p - 0xb7)) in
      let list_form =
        long_payload-ne-stuck invalid_long_list bytes (1 + (p - 0xf7)) _
          (decode_rlp_length-ne-stuck bytes (p - 0xf7)) in
      ground (
        arith,
        short_text-ne-stuck (p - 0x80) bytes,
        long_text-ne-stuck _ text_form,
        as_list-ne-stuck (items (take (p - 0xc0) (drop 1 bytes))) (1 + (p - 0xc0)) (
            below (take (p - 0xc0) (drop 1 bytes))
              (omega (arith, length-take (p - 0xc0) (drop 1 bytes)))),
        long_list_case-ne-stuck _ list_form (λ payload c q. below payload (
            long_payload_shorter invalid_long_list bytes (1 + (p - 0xf7))
              (decode_rlp_length bytes (p - 0xf7)) payload c (omega arith) q)),
      )

push-ne-stuck : (node : Node) (d : Decoded Nodes) → d ≢ stuck → push node d ≢ stuck
unfolding push
push-ne-stuck node (ok nodes) h = λ q. cc
push-ne-stuck node (err x) h = λ q. cc
push-ne-stuck node panic h = λ q. cc
push-ne-stuck node stuck h = absurd (h refl)

list_round-ne-stuck :
    (items : Bytes → Decoded Nodes) (payload : Bytes) (d : Decoded (Node × ℕ))
    → d ≢ stuck
    → ((rest : Bytes) → length rest < length payload → items rest ≢ stuck)
    → 0 < length payload
    → list_round items payload d ≢ stuck
unfolding list_round
list_round-ne-stuck items payload (ok (node, c)) h below pos = elim (dec_lt 0 c) [
  | yes some ↦ ground (
    arith,
    push-ne-stuck node (items (drop c payload))
        (below (drop c payload) (omega (arith, length-drop c payload))),
  )
  | no none ↦ ground arith
]
list_round-ne-stuck items payload (err x) h below pos = λ q. cc
list_round-ne-stuck items payload panic h below pos = λ q. cc
list_round-ne-stuck items payload stuck h below pos = absurd (h refl)

decode_nodes-ne-stuck :
    (fuel : ℕ) (bytes : Bytes) → length bytes ≤ fuel → decode_nodes fuel bytes ≢ stuck
unfolding decode_nodes
decode_nodes-ne-stuck zero [] h = λ q. cc
decode_nodes-ne-stuck (suc fuel) [] h = λ q. cc
decode_nodes-ne-stuck zero (b ∷ bs) h = absurd (omega arith)
decode_nodes-ne-stuck (suc fuel) (b ∷ bs) h =
    let below = λ (rest : Bytes) (k : length rest < length (b ∷ bs)).
      decode_nodes-ne-stuck fuel rest (omega arith) in
    list_round-ne-stuck (decode_nodes fuel) (b ∷ bs) (decode_with (decode_nodes fuel) (b ∷ bs))
      (decode_with-ne-stuck (decode_nodes fuel) (b ∷ bs) below) below (omega arith)

-- The decoder ends on every input: the length of the input is fuel enough.
pub decode_rlp-ne-stuck : (bytes : Bytes) → decode_rlp bytes ≢ stuck
unfolding decode_rlp
decode_rlp-ne-stuck bytes =
    decode_with-ne-stuck (decode_nodes (length bytes)) bytes
      (λ rest k. decode_nodes-ne-stuck (length bytes) rest (omega arith))
